-- ===== src/Server/ReadFile/Several.antt =====
-- The whole of `read_n_files`, with no other thread in between.
use sol_project.Prelude.{
  ℕ, zero, suc, ◌-◌, ◌^◌, ◌≤◌, ◌<◌, ◌≡◌, refl, ap, ◌∙◌, subst⁻¹, Option, none, some, List, [], ◌∷◌,
  map, take, arith, bytes_key, if_false, ◌⊎◌, ◌++◌, Bool, Bool-cases, true, false, if◌then◌else◌,
  flatten, append-nil, append_assoc, sym, inl, inr, Option-cases, weigh, eqb, ltb, ◌||◌,
}
use sol_project.Io.{Output}
use sol_project.Server.Requests.{to_bytes, code_value}
use sol_project.Server.Send.{file_buffers, send_single_file, send_list_of_files}
use sol_project.Server.Send.Wire.{open_to, wire, send_each-whole, send_list_of_files-whole}
use sol_project.Server.ReadFile.Laws.{told}
use sol_project.Hash.Chain.{find, keyed}
use sol_project.Hash.HashMap
use sol_project.Hash.HashMap.{entries}
use sol_project.Hash.HashMap.Growth.{IsValid, get-entries}
use sol_project.Server.State.{
  FileName, File, Server, Code, done, ◌>>=◌, Ends, sa_success, sa_error, Ends-bind, inc32, dec32,
}
use sol_project.Server.FileLocks.{reader_unlock}
use sol_project.Server.Invariant.{IsConsistent}
use sol_project.Server.Invariant.Walk.{Entries, Walked}
use sol_project.Server.ReadFile.{files_to_read, read_n_under_lock, reader_unlock_all, send_read_n}
use sol_project.Server.ReadFile.Many.{
  with_reader, locked_entry, LocksFirst, lock_readers-LocksFirst, reader_unlock_all-Walked,
}

weigh-take-le : {A : Type 0} (w : A → ℕ) (n : ℕ) (es : List A) → weigh w (take n es) ≤ weigh w es
weigh-take-le w zero es = omega arith
weigh-take-le w (suc n) [] = omega arith
weigh-take-le w (suc n) (e ∷ es) = omega (arith, weigh-take-le w n es)

find-take :
    (n : ℕ) (es : List (FileName × File)) (q : FileName) (f : File)
    → find q (take n es) ≡ some f
    → find q es ≡ some f
unfolding find
find-take zero es q f h = cc
find-take (suc n) [] q f h = h
find-take (suc n) (e ∷ es) q f h = ground (arith, find-take n es q f)

-- The first entries of a map.
take-Entries : (n : ℕ) (s : Server) → IsValid s.files → Entries (take n (entries s.files)) s
take-Entries n s v = record {
  unique = λ q. omega (arith, weigh-take-le (keyed q) n (entries s.files), v.unique q);
  there = λ q f x. get-entries s.files q v ∙ find-take n (entries s.files) q f x;
}

abbrev with_reader_if : Option File → Option File
with_reader_if none = none
with_reader_if (some f) = some (with_reader f)

find-locked :
    (q : FileName) (es : List (FileName × File))
    → find q (map locked_entry es) ≡ with_reader_if (find q es)
unfolding find
find-locked q [] = refl
find-locked q (e ∷ es) = ground (arith, find-locked q es)

weigh-locked :
    (q : FileName) (es : List (FileName × File))
    → weigh (keyed q) (map locked_entry es) ≡ weigh (keyed q) es
weigh-locked q [] = refl
weigh-locked q (e ∷ es) = omega (arith, weigh-locked q es)

-- The entries of the list of locked files are those of the map after the first walk.
locked-Entries :
    (es : List (FileName × File)) (s s1 : Server)
    → Entries es s
    → Walked with_reader es s s1
    → Entries (map locked_entry es) s1
locked-Entries es s s1 e w = record {
  unique = λ q. omega (arith, weigh-locked q es, e.unique q);
  there = λ q g x. elim (Option-cases (find q es)) [
    | inl gone ↦ ground (arith, find-locked q es, gone, x)
    | inr (f, met) ↦ ground (arith, w.finds q, find-locked q es, met, x)
  ];
}

unlock-with_reader : (f : File) → f.n_readers < 2 ^ 32 → reader_unlock (with_reader f) ≡ f
unfolding reader_unlock
unlock-with_reader f few =
    ap (λ n. record f { n_readers = n })
      (let n : dec32 (inc32 f.n_readers) ≡ f.n_readers = omega (arith, few) in n)

-- The second walk undoes the first.
walks_cancel :
    (es : List (FileName × File)) (s s1 s2 : Server) (q : FileName)
    → ((f : File) → HashMap.get s.files q ≡ some f → f.n_readers < 2 ^ 32)
    → Entries es s
    → Walked with_reader es s s1
    → Walked reader_unlock (map locked_entry es) s1 s2
    → HashMap.get s2.files q ≡ HashMap.get s.files q
walks_cancel es s s1 s2 q few e w w' = elim (Option-cases (find q es)) [
  | inl gone ↦ ground (arith, w'.finds q, w.finds q, find-locked q es, gone)
  | inr (f, met) ↦
      let there = e.there q f met in
      ground (arith, w'.finds q, find-locked q es, met, there, unlock-with_reader f (few f there))
]

send_read_n-server :
    (s : Server) (l : List (FileName × File)) (out : Output)
    → (send_read_n s l out).0 ≡ reader_unlock_all l s
unfolding send_read_n
send_read_n-server s l out = ground arith

-- The first files of the map.
abbrev pub first_files : Server → ℕ → List File
first_files s count = map (λ e. e.1) (take count (entries s.files))

-- What `writen` makes of the code of success, and then of the list of files.
abbrev pub list_sent : List File → Output → Bool × Output
list_sent fs out = send_list_of_files fs true (told out).1

-- The code is that of the transfer.
abbrev pub Answers : List File → Output → Code → Output → Type 0
Answers fs out code out' =
    (((told out).0 ≡ true)
      × ((list_sent fs out).0 ≡ true)
      × (code ≡ sa_success)
      × (out' ≡ (list_sent fs out).1))
    ⊎ ((code ≡ sa_error)
        × ((((told out).0 ≡ false) × (out' ≡ (told out).1))
            ⊎ (((told out).0 ≡ true)
                × ((list_sent fs out).0 ≡ false)
                × (out' ≡ (list_sent fs out).1))))

-- Through an output that takes everything, the code and the files are written.
abbrev pub SendsAll : List File → Output → Code → Output → Type 0
SendsAll fs out code out' =
    (written : List ℕ)
    → out ≡ open_to written
    → (code ≡ sa_success) × (out' ≡ open_to (written ++ (to_bytes 4 0 ++ wire fs)))

-- After the request every file is as it was, and what was sent is the first `count` files of the map.
abbrev pub ReadsSeveral : Server → ℕ → Output → Server × Code × Output → Type 0
ReadsSeveral s count out (s', code, out') =
    IsConsistent s'
    × ((k : FileName) → HashMap.get s'.files k ≡ HashMap.get s.files k)
    × Answers (first_files s count) out code out'
    × SendsAll (first_files s count) out code out'

-- A reader's lock is not sent.
send_locked :
    (es : List (FileName × File)) (out : Output)
    → send_list_of_files (map (λ e. e.1) (map locked_entry es)) true out
      ≡ send_list_of_files (map (λ e. e.1) es) true out
unfolding send_list_of_files send_single_file file_buffers
send_locked [] out = refl
send_locked (e ∷ es) out =
    ap
      (λ rest.
        if (send_single_file e.1 true out).0
        then rest
        else (false, (send_single_file e.1 true out).1))
      (send_locked es (send_single_file e.1 true out).1)

send_read_n-Answers :
    (s : Server) (es : List (FileName × File)) (out : Output)
    → let r = send_read_n s (map locked_entry es) out in Answers (map (λ e. e.1) es) out r.1 r.2
unfolding send_read_n code_value
send_read_n-Answers s es out = elim (Bool-cases (told out).0) [
  | inr lost ↦ rw lost (inr (refl, inl (refl, refl)))
  | inl heard ↦ elim (Bool-cases (list_sent (map (λ e. e.1) es) out).0) [
    | inr lost ↦ rw (send_locked es (told out).1, heard, lost) (inr (refl, inr (refl, refl, refl)))
    | inl sent' ↦ rw (send_locked es (told out).1, heard, sent') (inl (refl, refl, refl, refl))
  ]
]

list_sent-whole :
    (fs : List File) (written : List ℕ)
    → list_sent fs (open_to written) ≡ (true, open_to (written ++ (to_bytes 4 0 ++ wire fs)))
unfolding flatten
list_sent-whole fs written =
    ap (λ r. send_list_of_files fs true r.1) (send_each-whole (to_bytes 4 0 ∷ []) written)
    ∙ send_list_of_files-whole fs (written ++ (to_bytes 4 0 ++ []))
    ∙ ap (λ b. (true, open_to (written ++ b ++ wire fs))) (append-nil (to_bytes 4 0))
    ∙ ap (λ b. (true, open_to b)) (append_assoc written (to_bytes 4 0) (wire fs))

Answers-SendsAll :
    (fs : List File) (out : Output) (code : Code) (out' : Output)
    → Answers fs out code out'
    → SendsAll fs out code out'
Answers-SendsAll fs out code out' (inl (heard, sent', good, same)) written e =
    (good, same ∙ ap (λ o. (list_sent fs o).1) e ∙ ap (λ q. q.1) (list_sent-whole fs written))
Answers-SendsAll fs out code out' (inr (bad, inl (lost, same))) written e = absurd (
    let x =
      sym lost
      ∙ ap (λ o. (told o).0) e
      ∙ ap (λ q. q.0) (send_each-whole (to_bytes 4 0 ∷ []) written) in
    cc)
Answers-SendsAll fs out code out' (inr (bad, inr (heard, lost, same))) written e = absurd (
    let x =
      sym lost ∙ ap (λ o. (list_sent fs o).0) e ∙ ap (λ q. q.0) (list_sent-whole fs written) in
    cc)

module _ (s : Server) (n : ℕ) (i : IsConsistent s) where
  abbrev pub count : ℕ
  count = files_to_read n s.curr_state.files

  pub read_n_under_lock-LocksFirst :
      0 < count
      → count < 2 ^ 31
      → Ends ⊥ (read_n_under_lock s n) (LocksFirst count (entries s.files) s [])
  unfolding read_n_under_lock
  read_n_under_lock-LocksFirst pos small =
      subst⁻¹ (λ r. Ends ⊥ r (LocksFirst count (entries s.files) s []))
        (if_false {b = eqb count 0 || ltb (2 ^ 31 - 1) count} _ _ (ground (arith, pos, small)))
        (lock_readers-LocksFirst count (entries s.files) s [] i
          (take-Entries count s i.stored.valid))

  -- A request for several files, with files to read, fewer than 2 ^ 31, each with fewer than 2 ^
  -- 32 readers, and no other thread in between: it neither waits nor fails; afterwards every
  -- stored file is as it was, and the server is consistent. The code is a success exactly if the
  -- output takes the code and the list of the first files of the map, as many as there are to
  -- read, without an error, otherwise sa_error at the first error; through an output that takes
  -- everything it is a success, and what is written is the code and those files, in order.
  pub read_n-ReadsSeveral :
      (out : Output)
      → 0 < count
      → count < 2 ^ 31
      → ((k : FileName) (f : File) → HashMap.get s.files k ≡ some f → f.n_readers < 2 ^ 32)
      → Ends ⊥
          (read_n_under_lock s n >>= λ r. done (send_read_n r.0 r.1 out))
          (ReadsSeveral s count out)
  read_n-ReadsSeveral out pos small few =
      Ends-bind ⊥ (LocksFirst count (entries s.files) s []) (ReadsSeveral s count out)
        (read_n_under_lock s n) _ (read_n_under_lock-LocksFirst pos small)
        λ r _ h.
          let es = take count (entries s.files) in
          let e = take-Entries count s i.stored.valid in
          let w' : Walked reader_unlock (map locked_entry es) r.0
              (reader_unlock_all (map locked_entry es) r.0) =
            reader_unlock_all-Walked (map locked_entry es) r.0 h.done_walk.consistent
              (locked-Entries es s r.0 e h.done_walk) in
          let a = send_read_n-Answers r.0 es out in
          subst⁻¹ (λ l. ReadsSeveral s count out (send_read_n r.0 l out)) h.listed
            (
              subst⁻¹ IsConsistent (send_read_n-server r.0 (map locked_entry es) out) w'.consistent,
              (λ k.
                  ap (λ (x : Server). HashMap.get x.files k)
                    (send_read_n-server r.0 (map locked_entry es) out)
                  ∙ walks_cancel es s r.0 _ k (few k) e h.done_walk w'),
              a,
              Answers-SendsAll _ out _ _ a,
            )
