-- ===== src/Server/CloseFile/Laws.antt =====
-- What closing a file does to the store.
use sol_project.Prelude.{
  ℕ, ◌≡◌, ◌⊎◌, refl, subst⁻¹, false, none, some, arith, bytes_key, if◌then◌else◌, inl, inr,
  Option-cases, eqb,
}
use sol_project.Hash.HashMap
use sol_project.Hash.HashTable
use sol_project.Hash.HashTable.Laws.{remove-IsTable, contains-remove}
use sol_project.Server.State.{FileName, File, Server, Code, sa_success, sa_no_file, Ends, put_back}
use sol_project.Server.FileLocks.{writer_unlock}
use sol_project.Server.FileLocks.Laws.{written_by_one, writer_unlock-lock}
use sol_project.Server.OpenFile.{is_held}
use sol_project.Server.Invariant.{IsFile, IsConsistent, IsBusy}
use sol_project.Server.Invariant.Preserve.{
  Holds, put_back-IsConsistent, put_back-Holds, locked-Ends,
}
use sol_project.Server.CloseFile.{leave, close_found, close_under_lock}

pub leave-IsFile : (k : FileName) (f : File) (fd : ℕ) → IsFile k f → IsFile k (leave f fd)
unfolding leave
leave-IsFile k f fd i = record {
  named = i.named;
  sized = i.sized;
  idle = i.idle;
  expellable = i.expellable;
  table = remove-IsTable f.fd_open fd i.table;
  holder = λ c e. elim (Option-cases f.fd_lock) [
    | inl free ↦ ground (arith, free, e)
    | inr (d, held) ↦ ground (arith, held, e, contains-remove f.fd_open fd c i.table, i.holder c)
  ];
}

-- The client is out of the table and out of the lock; nobody else is.
abbrev pub IsLeft : File → ℕ → File → Type 0
IsLeft f fd g =
    ((c : ℕ)
      → HashTable.contains g.fd_open c
        ≡ (if eqb c fd then false else HashTable.contains f.fd_open c))
    × (g.fd_lock ≡ (if is_held f.fd_lock fd then none else f.fd_lock))
    × (g.contents ≡ f.contents)

abbrev pub Closes : Server → FileName → ℕ → Server × Code → Type 0
Closes s path fd (s', code) =
    IsConsistent s'
    × (((HashMap.get s.files path ≡ none) × (code ≡ sa_no_file) × (s' ≡ s))
        ⊎ ((f g : File) × (HashMap.get s.files path ≡ some f)
            × (code ≡ sa_success)
            × IsLeft f fd g
            × Holds s path g s'))

close_found-Closes :
    (s : Server) (path : FileName) (fd : ℕ)
    → IsConsistent s
    → (f : File) → HashMap.get s.files path ≡ some f
    → Ends (IsBusy s.files) (close_found s path fd (some f)) (Closes s path fd)
unfolding close_found leave
close_found-Closes s path fd i f e =
    let h : IsFile path f = i.stored.each path f e in
    let back : writer_unlock (leave (written_by_one f) fd) ≡ leave f fd =
      writer_unlock-lock (leave f fd) h.idle in
    locked-Ends s path f i e (Closes s path fd) _ (
      subst⁻¹ (λ g. Closes s path fd (put_back s path g, sa_success)) back
        (
          put_back-IsConsistent s path f i e (leave f fd) (leave-IsFile path f fd h) refl,
          inr (
            f,
            leave f fd,
            e,
            refl,
            (λ c. contains-remove f.fd_open fd c h.table, refl, refl),
            put_back-Holds s path f i e (leave f fd),
          ),
        ))

-- Closing a file of a consistent server: sa_no_file and no change if there is none; otherwise the
-- client no longer has it open nor holds its lock, the other clients do as before, and the
-- contents and every other file are as they were. The server is consistent after both; the request
-- may wait only if some stored file is being read.
pub close_under_lock-Closes :
    (s : Server) (path : FileName) (fd : ℕ)
    → IsConsistent s
    → Ends (IsBusy s.files) (close_under_lock s path fd) (Closes s path fd)
unfolding close_under_lock
close_under_lock-Closes s path fd i = elim (Option-cases (HashMap.get s.files path)) [
  | inl e ↦
      subst⁻¹ (λ o. Ends (IsBusy s.files) (close_found s path fd o) (Closes s path fd)) e
        (unfold close_found in (i, inl (e, refl, refl)))
  | inr (f, e) ↦
      subst⁻¹ (λ o. Ends (IsBusy s.files) (close_found s path fd o) (Closes s path fd)) e
        (close_found-Closes s path fd i f e)
]
