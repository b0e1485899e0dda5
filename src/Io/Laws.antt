-- ===== src/Io/Laws.antt =====
-- `readn` puts the stream back together, however it arrives, and `writen` writes in order.
use sol_project.Prelude.{
  ℕ, zero, suc, ◌-◌, ◌%◌, ◌^◌, ◌≤◌, ◌<◌, ◌≡◌, ◌≢◌, refl, ap, sym, ◌∙◌, inl, inr, List, [], ◌∷◌,
  ◌++◌, length, length-append, take, drop, leb, arith, Bool-cases,
}
use mathlib.Core.List.{append-nil, append_assoc}
use sol_project.Io.{
  Arrival, bytes, interrupted, Ending, Input, Read, got, eof, failed, as_int, readn_loop, readn,
  Acceptance, takes, interrupts, refuses, Output, Write, whole, writen_loop, writen,
}

-- The bytes that arrive, joined.
abbrev pub stream : List Arrival → List ℕ
stream [] = []
stream (interrupted ∷ rest) = stream rest
stream (bytes b ∷ rest) = b ++ stream rest

-- No call of `read` returns 0 before the end.
abbrev pub Nonempty : List Arrival → Type 0
Nonempty [] = Unit {0}
Nonempty (interrupted ∷ rest) = Nonempty rest
Nonempty (bytes b ∷ rest) = (b ≢ []) × Nonempty rest

-- Sizes whose `int` value the callers read as neither the end nor an error.
abbrev pub IsCounted : ℕ → Type 0
IsCounted size = (size % 2 ^ 32 ≢ 0) × (size % 2 ^ 32 ≢ 2 ^ 32 - 1)

-- The rest of the stream after a read.
abbrev pub Reads : List ℕ → List ℕ → Read → Type 0
Reads front back (got b input) =
    (b ≡ front) × (stream input.arrivals ≡ back) × Nonempty input.arrivals
Reads front back eof = ⊥
Reads front back failed = ⊥

as_int-got : (size : ℕ) (b : List ℕ) (i : Input) → IsCounted size → as_int size b i ≡ got b i
unfolding as_int
as_int-got size b i h = ground arith

-- Two ways to cut one list: the shorter front is a front of the longer.
pub cut_le :
    (xs ys zs ws : List ℕ)
    → xs ++ ys ≡ zs ++ ws
    → length xs ≤ length zs
    → (us : List ℕ) × (zs ≡ xs ++ us) × (ys ≡ us ++ ws)
cut_le [] ys zs ws e h = (zs, refl, e)
cut_le (x ∷ xs) ys [] ws e h = absurd (omega arith)
cut_le (x ∷ xs) ys (z ∷ zs) ws e h =
    let (us, p, q) = cut_le xs ys zs ws (ground arith) (omega arith) in (us, ground arith, q)

take-append_self : (xs ys : List ℕ) → take (length xs) (xs ++ ys) ≡ xs
take-append_self [] ys = refl
take-append_self (x ∷ xs) ys = ap (◌∷◌ x) (take-append_self xs ys)

drop-append_self : (xs ys : List ℕ) → drop (length xs) (xs ++ ys) ≡ ys
drop-append_self [] ys = refl
drop-append_self (x ∷ xs) ys = drop-append_self xs ys

ne_of_length : (xs : List ℕ) → 0 < length xs → xs ≢ []
ne_of_length [] h e = absurd (omega arith)
ne_of_length (x ∷ xs) h e = cc

module _ (size : ℕ) (counted : IsCounted size) where
  -- The last chunk holds the front and more.
  cut_chunk :
      (left : ℕ) (buf front back us chunk : List ℕ) (arrivals : List Arrival) (ending : Ending)
      → length front ≡ left
      → chunk ≡ front ++ us
      → Nonempty arrivals
      → 0 < length us
      → back ≡ us ++ stream arrivals
      → Reads (buf ++ front) back (
          as_int size
            (buf ++ take left chunk)
            (record { arrivals = bytes (drop left chunk) ∷ arrivals; ending = ending }))
  cut_chunk left buf front back us chunk arrivals ending l p n h e =
      rw (as_int-got size _ _ counted, p, ← l, take-append_self, drop-append_self)
        (refl, sym e, (ne_of_length us h, n))

  readn_loop-Reads :
      (arrivals : List Arrival) (left : ℕ) (buf front back : List ℕ) (ending : Ending)
      → length front ≡ left
      → stream arrivals ≡ front ++ back
      → Nonempty arrivals
      → Reads (buf ++ front) back (readn_loop size left buf arrivals ending)
  unfolding readn_loop
  readn_loop-Reads arrivals zero buf [] back ending l e n =
      rw (as_int-got size _ _ counted) (sym (append-nil buf), e, n)
  readn_loop-Reads arrivals zero buf (x ∷ front) back ending l e n = absurd (omega arith)
  readn_loop-Reads arrivals (suc left) buf [] back ending l e n = absurd (omega arith)
  readn_loop-Reads [] (suc left) buf (x ∷ front) back ending l e n = absurd (ground arith)
  readn_loop-Reads (interrupted ∷ rest) (suc left) buf (x ∷ front) back ending l e n =
      readn_loop-Reads rest (suc left) buf (x ∷ front) back ending l e n
  readn_loop-Reads (bytes [] ∷ rest) (suc left) buf (x ∷ front) back ending l e n =
      absurd (n.0 refl)
  readn_loop-Reads (bytes (b ∷ bs) ∷ rest) (suc left) buf (x ∷ front) back ending l e n =
      elim (Bool-cases (leb (length (b ∷ bs)) (suc left))) [
        | inl fits ↦
            let (us, p, q) = cut_le (b ∷ bs) (stream rest) (x ∷ front) back e (ground arith) in
            rw (fits, p, sym (append_assoc buf (b ∷ bs) us))
              (readn_loop-Reads rest (suc left - length (b ∷ bs)) (buf ++ b ∷ bs) us back ending
                (omega (arith, ap length p, length-append (b ∷ bs) us)) q n.1)
        | inr spills ↦
            let (us, p, q) =
              cut_le (x ∷ front) back (b ∷ bs) (stream rest) (sym e) (ground arith) in
            rw spills (
              cut_chunk (suc left) buf (x ∷ front) back us (b ∷ bs) rest ending l p n.1
                (ground (arith, ap length p, length-append (x ∷ front) us)) q)
      ]

-- For a size whose int value is neither 0 nor -1: if at least that many bytes arrive, in whatever
-- pieces and with whatever interruptions, readn returns exactly the first of them, and the rest is
-- still to be read.
pub readn-Reads :
    (size : ℕ) (input : Input) (front back : List ℕ)
    → IsCounted size
    → Nonempty input.arrivals
    → stream input.arrivals ≡ front ++ back
    → length front ≡ size
    → Reads front back (readn size input)
unfolding readn
readn-Reads size input front back c n e l =
    readn_loop-Reads size c input.arrivals size [] front back input.ending l e n

-- A read of no bytes looks like the end of the connection to every caller.
pub readn_zero : (input : Input) → readn 0 input ≡ eof
unfolding readn
readn_zero input = refl

-- What a transfer of `buf` to an output that holds `before` left behind.
pub record Sent (buf before : List ℕ) (r : Write × Output) : Type 0 where
  pub front : List ℕ
  pub back : List ℕ
  pub cut : buf ≡ front ++ back
  pub appended : r.1.written ≡ before ++ front
  pub complete : r.0 ≡ whole → back ≡ []

cons-take-drop : (n : ℕ) (b : ℕ) (bs : List ℕ) → take (suc n) (b ∷ bs) ++ drop n bs ≡ b ∷ bs
cons-take-drop zero b bs = refl
cons-take-drop (suc n) b [] = refl
cons-take-drop (suc n) b (c ∷ bs) = ap (◌∷◌ b) (cons-take-drop n c bs)

writen_loop-Sent :
    (acceptances : List Acceptance) (buf before : List ℕ)
    → Sent buf before (writen_loop buf acceptances before)
unfolding writen_loop
writen_loop-Sent acceptances [] before = record {
  front = [];
  back = [];
  cut = refl;
  appended = sym (append-nil before);
  complete = λ _. refl;
}
writen_loop-Sent [] (b ∷ bs) before = record {
  front = b ∷ bs;
  back = [];
  cut = sym (append-nil (b ∷ bs));
  appended = refl;
  complete = λ _. refl;
}
writen_loop-Sent (interrupts ∷ rest) (b ∷ bs) before = writen_loop-Sent rest (b ∷ bs) before
writen_loop-Sent (refuses ∷ rest) (b ∷ bs) before = record {
  front = [];
  back = b ∷ bs;
  cut = refl;
  appended = sym (append-nil before);
  complete = λ e. cc;
}
writen_loop-Sent (takes zero ∷ rest) (b ∷ bs) before = record {
  front = [];
  back = b ∷ bs;
  cut = refl;
  appended = sym (append-nil before);
  complete = λ e. cc;
}
writen_loop-Sent (takes (suc n) ∷ rest) (b ∷ bs) before =
    let s = writen_loop-Sent rest (drop n bs) (before ++ take (suc n) (b ∷ bs)) in
    record {
      front = take (suc n) (b ∷ bs) ++ s.front;
      back = s.back;
      cut =
          sym (cons-take-drop n b bs)
          ∙ ap (◌++◌ (take (suc n) (b ∷ bs))) s.cut
          ∙ sym (append_assoc (take (suc n) (b ∷ bs)) s.front s.back);
      appended = s.appended ∙ append_assoc before (take (suc n) (b ∷ bs)) s.front;
      complete = s.complete;
    }

-- writen hands a front part of the buffer to the descriptor, in order and behind what was written
-- before; when it returns 1, the whole buffer.
pub writen-Sent : (buf : List ℕ) (out : Output) → Sent buf out.written (writen buf out)
unfolding writen
writen-Sent buf out = writen_loop-Sent out.acceptances buf out.written
