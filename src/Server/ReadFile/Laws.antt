-- ===== src/Server/ReadFile/Laws.antt =====
-- What the critical section of a read does, and what its transfer leaves behind.
use sol_project.Prelude.{
  ℕ, ◌+◌, ◌++◌, List, ◌∙◌, sym, length, flatten, append-nil, append_assoc, eqb, ◌-◌, ◌^◌, ◌<◌, ◌≡◌,
  ◌⊎◌, refl, ap, subst, subst⁻¹, Bool, true, false, not, Option, none, some, [], ◌∷◌, arith,
  bytes_key, if◌then◌else◌, if_true, if_false, inl, inr, Option-cases, Bool-cases, ltb,
}
use sol_project.Io.{Output}
use sol_project.Hash.HashMap
use sol_project.Hash.HashMap.Remove.{modify-Changed, modify_same}
use sol_project.Hash.HashTable
use sol_project.Server.State.{
  FileName, Timespec, File, Server, Code, sa_success, sa_error, sa_no_file, sa_no_open, Outcome,
  done, ◌>>=◌, Ends, inc32, dec32, through, put_back,
}
use sol_project.Server.FileLocks.{reader_lock, reader_unlock}
use sol_project.Server.Invariant.{IsFile, IsConsistent}
use sol_project.Server.Invariant.Preserve.{
  Holds, through-IsConsistent, put_back-IsConsistent, put_back-Holds,
}
use sol_project.Server.ReadFile.{read_found, read_under_lock, send_read}
use sol_project.Server.Requests.{to_bytes, code_value}
use sol_project.Server.Send.{send_each, file_buffers, send_single_file}
use sol_project.Server.Send.Wire.{open_to, send_each-whole}

-- The file under one more reader's lock, used just now.
abbrev pub read_by_one : File → Timespec → File
read_by_one f now = record f { n_readers = f.n_readers + 1; last_use = now }

-- What the critical section comes to: no such file, or not open, and nothing changes; or the file is
-- handed out with its reader lock.
abbrev pub Begins : Server → FileName → ℕ → Timespec → Server × Code × Option File → Type 0
Begins s path fd now (s', code, found) =
    IsConsistent s'
    × (((HashMap.get s.files path ≡ none) × (code ≡ sa_no_file) × (found ≡ none) × (s' ≡ s))
        ⊎ ((f : File) × (HashMap.get s.files path ≡ some f)
            × (((HashTable.contains f.fd_open fd ≡ false)
                  × (code ≡ sa_no_open)
                  × (found ≡ none)
                  × (s' ≡ s))
                ⊎ ((HashTable.contains f.fd_open fd ≡ true)
                    × (code ≡ sa_success)
                    × (found ≡ some (read_by_one f now))
                    × Holds s path (read_by_one f now) s'))))

module _ (s : Server) (path : FileName) (fd : ℕ) (now : Timespec) (i : IsConsistent s) where
  read_found-Begins :
      (f : File)
      → HashMap.get s.files path ≡ some f
      → f.n_readers + 1 < 2 ^ 32
      → Ends ⊥ (read_found s path fd now (some f)) (Begins s path fd now)
  unfolding read_found reader_lock reader_unlock
  read_found-Begins f e few =
      subst⁻¹ (λ r. Ends ⊥ (r >>= next) (Begins s path fd now))
        (if_false {b = ltb 0 f.n_writers} _ _ (ground (arith, h.idle)))
        (subst⁻¹ (λ n. Ends ⊥ (next (record f { n_readers = n })) (Begins s path fd now)) more
          (elim (Bool-cases (HashTable.contains f.fd_open fd)) [
            | inr e' ↦
                subst⁻¹ (λ r. Ends ⊥ r (Begins s path fd now)) (if_true _ _ (ap not e'))
                  (subst⁻¹ (λ s'. Begins s path fd now (s', sa_no_open, none)) same
                    (i, inr (f, e, inl (e', refl, refl, refl))))
            | inl e' ↦
                subst⁻¹ (λ r. Ends ⊥ r (Begins s path fd now)) (if_false _ _ (ap not e'))
                  (
                    put_back-IsConsistent s path f i e (read_by_one f now) reading refl,
                    inr (
                      f,
                      e,
                      inr (e', refl, refl, put_back-Holds s path f i e (read_by_one f now)),
                    ),
                  )
          ]))
    where
      h : IsFile path f
      h = i.stored.each path f e

      more : inc32 f.n_readers ≡ f.n_readers + 1
      more = omega (arith, few)

      reading : IsFile path (read_by_one f now)
      reading = record {
        named = h.named;
        sized = h.sized;
        idle = h.idle;
        expellable = h.expellable;
        table = h.table;
        holder = h.holder;
      }

      back : reader_unlock (record f { n_readers = f.n_readers + 1 }) ≡ f
      back =
          ap (λ n. record f { n_readers = n })
            (let e' : dec32 (f.n_readers + 1) ≡ f.n_readers = omega (arith, few) in e')

      same : put_back s path (reader_unlock (record f { n_readers = f.n_readers + 1 })) ≡ s
      same =
          subst⁻¹ (λ g. put_back s path g ≡ s) back
            (ap (λ m. record s { files = m }) (modify_same s.files path (λ _. f) f e refl))

      next : File → Outcome (Server × Code × Option File)
      next file =
          let used = record file { last_use = now } in
          if not (HashTable.contains file.fd_open fd)
          then done (put_back s path (reader_unlock file), sa_no_open, none)
          else done (put_back s path used, sa_success, some used)

  -- The critical section of a read on a consistent server, of a file with fewer than 2 ^ 32 - 1
  -- readers: it never waits nor fails; sa_no_file without such a file, and sa_no_open if the
  -- client has not opened it, with the server as it was; otherwise the file is handed out under
  -- one more reader's lock, every other file is as it was, and the server is consistent.
  pub read_under_lock-Begins :
      ((f : File) → HashMap.get s.files path ≡ some f → f.n_readers + 1 < 2 ^ 32)
      → Ends ⊥ (read_under_lock s path fd now) (Begins s path fd now)
  unfolding read_under_lock
  read_under_lock-Begins few = elim (Option-cases (HashMap.get s.files path)) [
    | inl e ↦
        subst⁻¹ (λ o. Ends ⊥ (read_found s path fd now o) (Begins s path fd now)) e
          (unfold read_found in (i, inl (e, refl, refl, refl)))
    | inr (f, e) ↦
        subst⁻¹ (λ o. Ends ⊥ (read_found s path fd now o) (Begins s path fd now)) e
          (read_found-Begins f e (few f e))
  ]

-- What `writen` makes of the code of success, and then of the file.
abbrev pub told : Output → Bool × Output
told out = send_each (to_bytes 4 0 ∷ []) out

abbrev pub sent : File → Output → Bool × Output
sent file out = send_single_file file false (told out).1

-- The transfer: if both are written, the reader's lock is given back, and if one is not, the lock
-- stays, and nothing is written after that.
abbrev pub Finishes : Server → FileName → File → Output → Server × Code × Output → Type 0
Finishes s path file out (s', code, out') =
    IsConsistent s'
    × ((((told out).0 ≡ true)
          × ((sent file out).0 ≡ true)
          × (code ≡ sa_success)
          × (out' ≡ (sent file out).1)
          × Holds s path (record file { n_readers = file.n_readers - 1 }) s')
        ⊎ ((code ≡ sa_error)
            × (s' ≡ s)
            × ((((told out).0 ≡ false) × (out' ≡ (told out).1))
                ⊎ (((told out).0 ≡ true)
                    × ((sent file out).0 ≡ false)
                    × (out' ≡ (sent file out).1)))))

-- Through an output that takes everything, the code, the size and the contents are written.
abbrev pub Transfers : File → Output → Server × Code × Output → Type 0
Transfers file out (s', code, out') =
    (written : List ℕ)
    → out ≡ open_to written
    → (code ≡ sa_success)
      × (out' ≡ open_to (written ++ (to_bytes 4 0 ++ (to_bytes 8 file.size ++ file.contents))))

transfer-Finishes :
    (s : Server) (path : FileName) (file : File) (out : Output)
    → IsConsistent s
    → HashMap.get s.files path ≡ some file
    → 0 < file.n_readers
    → file.n_readers < 2 ^ 32
    → Finishes s path file out (send_read s path file out)
unfolding send_read code_value
transfer-Finishes s path file out i e read few = elim (Bool-cases (told out).0) [
  | inr lost ↦
      subst⁻¹ (Finishes s path file out) (if_true _ _ (ap not lost))
        (i, inr (refl, refl, inl (lost, refl)))
  | inl heard ↦
      subst⁻¹ (Finishes s path file out) (if_false _ _ (ap not heard))
        (elim (Bool-cases (sent file out).0) [
          | inr lost ↦
              subst⁻¹ (Finishes s path file out) (if_true _ _ (ap not lost))
                (i, inr (refl, refl, inr (heard, lost, refl)))
          | inl done' ↦ subst⁻¹ (Finishes s path file out) (if_false _ _ (ap not done')) (
            through-IsConsistent s path file i e reader_unlock (subst⁻¹ (IsFile path) after left)
                (unfold reader_unlock in refl),
            inl (
              heard,
              done',
              refl,
              refl,
              subst (λ g. Holds s path g (through s path reader_unlock)) after
                  (modify-Changed s.files path reader_unlock file i.stored.valid e).finds,
            ),
          )
        ])
]
  where
    after : reader_unlock file ≡ record file { n_readers = file.n_readers - 1 }
    after =
        unfold reader_unlock in
        ap (λ n. record file { n_readers = n })
          (let n : dec32 file.n_readers ≡ file.n_readers - 1 = omega (arith, read, few) in n)

    left : IsFile path (record file { n_readers = file.n_readers - 1 })
    left =
        let h : IsFile path file = i.stored.each path file e in
        record {
          named = h.named;
          sized = h.sized;
          idle = h.idle;
          expellable = h.expellable;
          table = h.table;
          holder = h.holder;
        }

-- The bytes of a file without its path name.
flatten-file_buffers :
    (file : File)
    → file.size ≡ length file.contents
    → flatten (file_buffers false file) ≡ to_bytes 8 file.size ++ file.contents
unfolding file_buffers flatten
flatten-file_buffers file sized = elim (Bool-cases (eqb file.size 0)) [
  | inl t ↦
      ap (λ b. to_bytes 8 file.size ++ flatten b) (if_true {b = eqb file.size 0} _ _ t)
      ∙ ap (λ b. to_bytes 8 file.size ++ b)
          (sym (no_bytes file.contents (ground (arith, t, sized))))
  | inr t ↦
      ap (λ b. to_bytes 8 file.size ++ flatten b) (if_false {b = eqb file.size 0} _ _ t)
      ∙ ap (λ b. to_bytes 8 file.size ++ b) (append-nil file.contents)
]
  where
    no_bytes : (bs : List ℕ) → length bs ≡ 0 → bs ≡ []
    no_bytes [] h = refl
    no_bytes (b ∷ bs) h = absurd (omega (arith, h))

sent-whole :
    (file : File) (written : List ℕ)
    → file.size ≡ length file.contents
    → sent file (open_to written)
      ≡ (true, open_to (written ++ (to_bytes 4 0 ++ (to_bytes 8 file.size ++ file.contents))))
unfolding send_single_file flatten
sent-whole file written sized =
    ap (λ r. send_each (file_buffers false file) r.1) (send_each-whole (to_bytes 4 0 ∷ []) written)
    ∙ send_each-whole (file_buffers false file) (written ++ (to_bytes 4 0 ++ []))
    ∙ ap (λ b. (true, open_to (written ++ b ++ flatten (file_buffers false file))))
        (append-nil (to_bytes 4 0))
    ∙ ap (λ b. (true, open_to b))
        (ap (λ b. written ++ to_bytes 4 0 ++ b) (flatten-file_buffers file sized)
          ∙ append_assoc written (to_bytes 4 0) (to_bytes 8 file.size ++ file.contents))

Finishes-Transfers :
    (s : Server) (path : FileName) (file : File) (out : Output) (r : Server × Code × Output)
    → file.size ≡ length file.contents
    → Finishes s path file out r
    → Transfers file out r
Finishes-Transfers s path file out r sized (_, inl (heard, done', code, out', h)) written e =
    (code, out' ∙ ap (λ o. (sent file o).1) e ∙ ap (λ q. q.1) (sent-whole file written sized))
Finishes-Transfers s path file out r sized (_, inr (code, same, inl (lost, out'))) written e =
    absurd (
      let x =
        sym lost
        ∙ ap (λ o. (told o).0) e
        ∙ ap (λ q. q.0) (send_each-whole (to_bytes 4 0 ∷ []) written) in
      cc)
Finishes-Transfers s path file out r sized (_, inr (code, same, inr (heard, lost, out'))) written
      e =
    absurd (
      let x =
        sym lost ∙ ap (λ o. (sent file o).0) e ∙ ap (λ q. q.0) (sent-whole file written sized) in
      cc)

-- The transfer of a file that is read, whatever the output takes: if the code and then the size
-- and contents are handed to it without an error, the request ends with success and one reader
-- less on the file; at the first of these that fails it ends with sa_error, what was written until
-- then, and the server as it was, so that the lost reader's lock stays on the file. Through an
-- output that takes everything it ends with success, and what is written is the code, the size in
-- 8 bytes and the contents.
pub send_read-Finishes :
    (s : Server) (path : FileName) (file : File) (out : Output)
    → IsConsistent s
    → HashMap.get s.files path ≡ some file
    → 0 < file.n_readers
    → file.n_readers < 2 ^ 32
    → Finishes s path file out (send_read s path file out)
      × Transfers file out (send_read s path file out)
send_read-Finishes s path file out i e read few =
    let h = transfer-Finishes s path file out i e read few in
    (h, Finishes-Transfers s path file out _ (i.stored.each path file e).sized h)
