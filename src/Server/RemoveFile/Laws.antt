-- ===== src/Server/RemoveFile/Laws.antt =====
-- What removing a file does to the store.
use sol_project.Prelude.{
  ℕ, ◌-◌, ◌≡◌, ◌≢◌, ◌⊎◌, refl, subst⁻¹, true, false, none, some, arith, bytes_key, ◌==◌,
  if◌then◌else◌, inl, inr, Option-cases, Bool-cases, eqb,
}
use sol_project.Hash.HashMap
use sol_project.Hash.HashTable
use sol_project.Hash.HashMap.Remove.{remove-Taken}
use sol_project.Server.State.{
  FileName, File, Server, Code, sa_success, sa_no_open, sa_not_locked, Ends, dec32, sub64,
}
use sol_project.Server.FileLocks.Laws.{written_by_one}
use sol_project.Server.Invariant.{IsFile, IsConsistent, IsBusy}
use sol_project.Server.Invariant.Steps.{remove-IsStored, get-IsStored}
use sol_project.Server.Invariant.Preserve.{put_back_same, locked-Ends}
use sol_project.Server.RemoveFile.{
  remove_refusal, drop_file, remove_checked, remove_found, remove_under_lock,
}

-- What the checks demand: the client has the file open, and holds its lock.
remove_refusal_cases :
    (f : File) (fd : ℕ)
    → ((code : Code) × (remove_refusal f fd ≡ some code)
        × ((code ≡ sa_no_open) × (HashTable.contains f.fd_open fd ≡ false)
            ⊎ (code ≡ sa_not_locked) × (f.fd_lock ≢ some fd)))
      ⊎ ((remove_refusal f fd ≡ none)
          × (HashTable.contains f.fd_open fd ≡ true)
          × (f.fd_lock ≡ some fd))
unfolding remove_refusal
remove_refusal_cases f fd = elim (Bool-cases (HashTable.contains f.fd_open fd)) [
  | inr e ↦ inl (sa_no_open, ground (arith, e), inl (refl, e))
  | inl e ↦ elim (Option-cases f.fd_lock) [
    | inl free ↦
        inl (sa_not_locked, ground (arith, e, free), inr (refl, λ x. ground (arith, x, free)))
    | inr (c, held) ↦ elim (Bool-cases (eqb c fd)) [
      | inl same ↦ inr (ground (arith, e, held, same), e, ground (arith, held, same))
      | inr other ↦ inl (
        sa_not_locked,
        ground (arith, e, held, other),
        inr (refl, λ x. ground (arith, x, held, other)),
      )
    ]
  ]
]

-- What the removal comes to: no such file; a refusal, which changes nothing; or the file alone is gone.
abbrev pub Removes : Server → FileName → ℕ → Server × Code → Type 0
Removes s path fd (s', code) =
    IsConsistent s'
    × (((HashMap.get s.files path ≡ none) × (code ≡ sa_success) × (s' ≡ s))
        ⊎ ((f : File) × (HashMap.get s.files path ≡ some f)
            × (((HashTable.contains f.fd_open fd ≡ false) × (code ≡ sa_no_open) × (s' ≡ s))
                ⊎ ((f.fd_lock ≢ some fd) × (code ≡ sa_not_locked) × (s' ≡ s))
                ⊎ ((HashTable.contains f.fd_open fd ≡ true)
                    × (f.fd_lock ≡ some fd)
                    × (code ≡ sa_success)
                    × ((q : FileName)
                        → HashMap.get s'.files q
                          ≡ (if q == path then none else HashMap.get s.files q))))))

module _ (s : Server) (path : FileName) (i : IsConsistent s) (f : File)
    (e : HashMap.get s.files path ≡ some f) where
  drop_file-IsConsistent : IsConsistent (drop_file s path f)
  unfolding drop_file
  drop_file-IsConsistent =
      let (some_there, its_bytes) = get-IsStored IsFile IsFile s.files _ _ i.stored path f e in
      let n : dec32 s.curr_state.files ≡ s.curr_state.files - 1 =
        omega (arith, i.few, i.config.files_fit) in
      let b : sub64 s.curr_state.space f.size ≡ s.curr_state.space - f.size =
        omega (arith, i.small, i.config.space_fits) in
      record {
        config = record {
          some_files = i.config.some_files;
          files_fit = i.config.files_fit;
          space_fits = i.config.space_fits;
        };
        stored =
            rw (n, b) (remove-IsStored IsFile IsFile s.files _ _ i.stored path f e (λ k h p. p));
        few = omega (arith, n, i.few);
        small = omega (arith, b, i.small);
        files_peak = omega (arith, n, i.files_peak);
        space_peak = omega (arith, b, i.space_peak);
        files_bound = i.files_bound;
        space_bound = i.space_bound;
      }

  remove_checked-Removes :
      (fd : ℕ)
      → Removes s path fd
          (remove_checked s path (written_by_one f) (remove_refusal (written_by_one f) fd))
  remove_checked-Removes fd = elim (remove_refusal_cases (written_by_one f) fd) [
    | inl (code, r, why) ↦
        subst⁻¹ (λ o. Removes s path fd (remove_checked s path (written_by_one f) o)) r
          (unfold remove_checked in
            subst⁻¹ (λ s'. Removes s path fd (s', code)) (put_back_same s path f i e)
              (
                i,
                inr (
                  f,
                  e,
                  elim why [ inl (x, y) ↦ inl (y, x, refl) | inr (x, y) ↦ inr (inl (y, x, refl)) ],
                ),
              ))
    | inr (r, opened, held) ↦
        subst⁻¹ (λ o. Removes s path fd (remove_checked s path (written_by_one f) o)) r
          (unfold remove_checked drop_file in
            (
              drop_file-IsConsistent,
              inr (
                f,
                e,
                inr (
                    inr
                      (opened, held, refl, (remove-Taken s.files path f i.stored.valid e).1.finds)),
              ),
            ))
  ]

-- Removing a file of a consistent server: a success that changes nothing if there is none;
-- sa_no_open if the client has not opened it and sa_not_locked if it does not hold its lock, with
-- the server as it was; otherwise the file is gone, out of the counts too, and every other file is
-- as it was. The server is consistent after all of these; the request may wait only if some stored
-- file is being read.
pub remove_under_lock-Removes :
    (s : Server) (path : FileName) (fd : ℕ)
    → IsConsistent s
    → Ends (IsBusy s.files) (remove_under_lock s path fd) (Removes s path fd)
unfolding remove_under_lock
remove_under_lock-Removes s path fd i = elim (Option-cases (HashMap.get s.files path)) [
  | inl e ↦
      subst⁻¹ (λ o. Ends (IsBusy s.files) (remove_found s path fd o) (Removes s path fd)) e
        (unfold remove_found in (i, inl (e, refl, refl)))
  | inr (f, e) ↦
      subst⁻¹ (λ o. Ends (IsBusy s.files) (remove_found s path fd o) (Removes s path fd)) e
        (unfold remove_found in
          locked-Ends s path f i e (Removes s path fd) _ (remove_checked-Removes s path i f e fd))
]
