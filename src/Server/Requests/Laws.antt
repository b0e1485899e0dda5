-- ===== src/Server/Requests/Laws.antt =====
-- What a client sends is what a handler receives.
use sol_project.Prelude.{
  append_assoc, ℕ, zero, suc, ◌+◌, ◌/◌, ◌%◌, ◌^◌, ◌<◌, ◌≡◌, refl, ap, ◌∙◌, subst⁻¹, Bool, true,
  some, List, [], ◌∷◌, ◌++◌, length, arith, ltb, if◌then◌else◌, if_true, length-append,
}
use sol_project.Io.{Input, Read, got, eof, failed, readn}
use sol_project.Io.Laws.{stream, Nonempty, IsCounted, Reads, readn-Reads}
use sol_project.Server.State.{FileName}
use sol_project.Server.Requests.{
  to_bytes, from_bytes, Received, received, gave_up, exits, faults, and_then, checked, receive,
  size_of_int, before, c_string, as_string, receive_buffer, receive_path,
}

pub length-to_bytes : (w n : ℕ) → length (to_bytes w n) ≡ w
unfolding to_bytes
length-to_bytes zero n = refl
length-to_bytes (suc w) n = ap suc (length-to_bytes w (n / 256))

-- An integer of `w` bytes survives the way through memory.
pub from_bytes-to_bytes : (w n : ℕ) → n < 256 ^ w → from_bytes (to_bytes w n) ≡ n
unfolding to_bytes from_bytes
from_bytes-to_bytes zero n h = omega arith
from_bytes-to_bytes (suc w) n h = omega (arith, from_bytes-to_bytes w (n / 256) (omega arith))

-- A string without a zero byte is read back up to its end.
abbrev pub IsString : List ℕ → Type 0
IsString [] = Unit {0}
IsString (b ∷ bs) = (0 < b) × IsString bs

pub c_string-append : (name rest : List ℕ) → IsString name → c_string (name ++ 0 ∷ rest) ≡ some name
unfolding c_string
c_string-append [] rest h = refl
c_string-append (zero ∷ bs) rest h = absurd (omega (arith, h.0))
c_string-append (suc b ∷ bs) rest h = ap (before (suc b)) (c_string-append bs rest h.1)

-- The input goes on with `back`.
abbrev pub Gets : {A : Type 0} → A → List ℕ → Received A → Type 0
Gets a back (received b rest) = (b ≡ a) × (stream rest.arrivals ≡ back) × Nonempty rest.arrivals
Gets a back (gave_up code) = ⊥
Gets a back exits = ⊥
Gets a back faults = ⊥

pub Gets-and_then :
    {A B : Type 0} (a : A) (b : B) (middle back : List ℕ) (r : Received A)
    (f : A → Input → Received B)
    → Gets a middle r
    → ((rest : Input)
        → stream rest.arrivals ≡ middle
        → Nonempty rest.arrivals
        → Gets b back (f a rest))
    → Gets b back (and_then r f)
Gets-and_then a b middle back (received x rest) f (e, s, n) k =
    subst⁻¹ (λ y. Gets b back (f y rest)) e (k rest s n)
Gets-and_then a b middle back (gave_up code) f h k = absurd h
Gets-and_then a b middle back exits f h k = absurd h
Gets-and_then a b middle back faults f h k = absurd h

checked-Gets : (front back : List ℕ) (r : Read) → Reads front back r → Gets front back (checked r)
checked-Gets front back (got b rest) h = h
checked-Gets front back eof h = absurd h
checked-Gets front back failed h = absurd h

pub receive-Gets :
    (size : ℕ) (input : Input) (front back : List ℕ)
    → IsCounted size
    → Nonempty input.arrivals
    → stream input.arrivals ≡ front ++ back
    → length front ≡ size
    → Gets front back (receive size input)
unfolding receive
receive-Gets size input front back c n e l =
    checked-Gets front back (readn size input) (readn-Reads size input front back c n e l)

-- A length that is positive as an `int` is itself as a `size_t`.
pub size_of_int_lem : (n : ℕ) → n < 2 ^ 31 → size_of_int (n % 2 ^ 32) ≡ n
unfolding size_of_int
size_of_int_lem n h =
    let e : n % 2 ^ 32 ≡ n = omega arith in rw e (if_true {b = ltb n (2 ^ 31)} _ _ (ground arith))

-- The path name as the client sends it: its length, its bytes, and a zero byte.
abbrev pub path_message : FileName → List ℕ
path_message name = to_bytes 4 (length name) ++ name ++ 0 ∷ []

-- If a client sends the length of a path name without zero bytes, its bytes and a zero byte, and
-- the buffer can be allocated, a handler receives that path name, whatever the pieces in which it
-- arrives, and the rest of the input is left.
pub receive_path-Gets :
    (can_alloc : ℕ → Bool) (input : Input) (name back : List ℕ)
    → IsString name
    → length name + 1 < 2 ^ 31
    → can_alloc (length name + 1) ≡ true
    → Nonempty input.arrivals
    → stream input.arrivals ≡ path_message name ++ back
    → Gets name back (receive_path can_alloc input)
unfolding receive_path receive_buffer to_bytes
receive_path-Gets can_alloc input name back str small alloc n e =
    Gets-and_then (to_bytes 4 (length name)) name ((name ++ 0 ∷ []) ++ back) back _ _
      (receive-Gets 4 input _ _ (omega arith, omega arith) n
        (e ∙ append_assoc (to_bytes 4 (length name)) (name ++ 0 ∷ []) back)
        (length-to_bytes 4 (length name)))
      λ rest s m.
        subst⁻¹
          (λ size. Gets name back (
            and_then (if can_alloc size then receive size rest else exits)
              (λ buf rest'. as_string (c_string buf) rest')))
          size
          (subst⁻¹ (λ r. Gets name back (and_then r (λ buf rest'. as_string (c_string buf) rest')))
            (if_true _ _ alloc)
            (Gets-and_then (name ++ 0 ∷ []) name back back _ _
              (receive-Gets (length name + 1) rest _ _ (omega arith, omega arith) m s
                (rw length-append refl))
              λ rest' s' m'. rw (c_string-append name [] str) (refl, s', m')))
  where
    size : size_of_int ((from_bytes (to_bytes 4 (length name)) + 1) % 2 ^ 32) ≡ length name + 1
    size =
        rw (from_bytes-to_bytes 4 (length name) (omega arith))
          (size_of_int_lem (length name + 1) small)
