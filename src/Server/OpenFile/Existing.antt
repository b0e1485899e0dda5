-- ===== src/Server/OpenFile/Existing.antt =====
-- What opening a file that is there does to the store.
use sol_project.Prelude.{
  ℕ, ◌≡◌, ◌⊎◌, refl, ap, ◌∙◌, subst⁻¹, true, ◌&&◌, ◌||◌, none, some, arith, bytes_key,
  if◌then◌else◌, if_true, if_false, inl, inr, Option-cases, Bool-cases, eqb,
}
use sol_project.Hash.HashMap
use sol_project.Hash.HashTable
use sol_project.Hash.HashTable.Laws.{insert-IsTable, contains-insert}
use sol_project.Server.State.{
  FileName, Timespec, File, Server, Code, sa_success, sa_no_file, sa_already_locked, Ends, put_back,
}
use sol_project.Server.FileLocks.{writer_unlock}
use sol_project.Server.FileLocks.Laws.{written_by_one, writer_unlock-lock}
use sol_project.Server.Invariant.{IsFile, IsConsistent, IsBusy}
use sol_project.Server.Invariant.Preserve.{
  Holds, put_back-IsConsistent, put_back-Holds, put_back_same, locked-Ends,
}
use sol_project.Server.OpenFile.{
  o_lock, is_flag_set, is_held_by_other, admit, open_locked, open_found, open_existing,
}

admit-contains :
    (f : File) (flags fd : ℕ) (now : Timespec) (c : ℕ) (k : FileName)
    → IsFile k f
    → HashTable.contains (admit f flags fd now).fd_open c
      ≡ (eqb c fd || HashTable.contains f.fd_open c)
unfolding admit
admit-contains f flags fd now c k i = elim (Bool-cases (HashTable.contains f.fd_open fd)) [
  | inl e ↦
      ap (λ t. HashTable.contains t c) (if_true _ _ e)
      ∙ ground (arith, e, ap (HashTable.contains f.fd_open) {x = c} {y = fd})
  | inr e ↦
      ap (λ t. HashTable.contains t c) (if_false _ _ e) ∙ contains-insert f.fd_open fd c i.table e
]

admit-IsFile :
    (k : FileName) (f : File) (flags fd : ℕ) (now : Timespec)
    → IsFile k f
    → IsFile k (admit f flags fd now)
unfolding admit
admit-IsFile k f flags fd now i = record {
  named = i.named;
  sized = i.sized;
  idle = i.idle;
  expellable = i.expellable;
  table = elim (Bool-cases (HashTable.contains f.fd_open fd)) [
    | inl e ↦ rw e i.table
    | inr e ↦ rw e (insert-IsTable f.fd_open fd i.table e)
  ];
  holder = λ c e. admit-contains f flags fd now c k i ∙ holds c e;
}
  where
    holds :
        (c : ℕ)
        → (admit f flags fd now).fd_lock ≡ some c
        → (eqb c fd || HashTable.contains f.fd_open c) ≡ true
    holds c e = elim (Bool-cases (is_flag_set flags o_lock)) [
      | inl t ↦ ground (arith, t, e)
      | inr t ↦ ground (arith, t, e, i.holder c)
    ]

-- What opening comes to: no such file; the lock that is asked for is another client's, and nothing
-- changes; or the client has the file open, besides those that had it, and its lock if it asked.
abbrev pub Opens : Server → FileName → ℕ → ℕ → Server × Code → Type 0
Opens s path flags fd (s', code) =
    IsConsistent s'
    × (((HashMap.get s.files path ≡ none) × (code ≡ sa_no_file) × (s' ≡ s))
        ⊎ ((f : File) × (HashMap.get s.files path ≡ some f)
            × (((is_flag_set flags o_lock ≡ true)
                  × (is_held_by_other f.fd_lock fd ≡ true)
                  × (code ≡ sa_already_locked)
                  × (s' ≡ s))
                ⊎ ((g : File) × (code ≡ sa_success)
                    × Holds s path g s'
                    × ((c : ℕ)
                        → HashTable.contains g.fd_open c
                          ≡ (eqb c fd || HashTable.contains f.fd_open c))
                    × (g.fd_lock ≡ (if is_flag_set flags o_lock then some fd else f.fd_lock))
                    × (g.contents ≡ f.contents)))))

module _ (s : Server) (path : FileName) (flags fd : ℕ) (now : Timespec) (i : IsConsistent s) where
  open_locked-Opens :
      (f : File)
      → HashMap.get s.files path ≡ some f
      → Opens s path flags fd (open_locked s path flags fd now (written_by_one f))
  unfolding open_locked
  open_locked-Opens f e =
      elim (Bool-cases (is_flag_set flags o_lock && is_held_by_other f.fd_lock fd)) [
        | inl t ↦ subst⁻¹ (Opens s path flags fd) (if_true _ _ t) (
            subst⁻¹ (λ s'. Opens s path flags fd (s', sa_already_locked))
              (put_back_same s path f i e)
              (i, inr (f, e, inl (ground (arith, t), ground (arith, t), refl, refl))))
        | inr t ↦ subst⁻¹ (Opens s path flags fd) (if_false _ _ t) (
            subst⁻¹ (λ g. Opens s path flags fd (put_back s path g, sa_success)) back
              (
                put_back-IsConsistent s path f i e new (admit-IsFile path f flags fd now h)
                    (unfold admit in refl),
                inr (
                  f,
                  e,
                  inr (
                    new,
                    refl,
                    put_back-Holds s path f i e new,
                    (λ c. admit-contains f flags fd now c path h),
                    (unfold admit in refl),
                    (unfold admit in refl),
                  ),
                ),
              ))
      ]
    where
      h : IsFile path f
      h = i.stored.each path f e

      new : File
      new = admit f flags fd now

      back : writer_unlock (admit (written_by_one f) flags fd now) ≡ new
      back = unfold admit in writer_unlock-lock (admit f flags fd now) h.idle

  -- Opening without O_CREATE on a consistent server: without such a file, sa_no_file; if the lock
  -- is asked for while another client holds it, sa_already_locked and the server is as it was;
  -- otherwise the client has the file open besides those that had it, and holds its lock if it
  -- asked, the contents and every other file are as they were. The server is consistent after all
  -- of these; the request may wait only if some stored file is being read.
  pub open_existing-Opens :
      Ends (IsBusy s.files) (open_existing s path flags fd now) (Opens s path flags fd)
  unfolding open_existing
  open_existing-Opens = elim (Option-cases (HashMap.get s.files path)) [
    | inl e ↦
        subst⁻¹
          (λ o. Ends (IsBusy s.files) (open_found s path flags fd now o) (Opens s path flags fd)) e
          (unfold open_found in (i, inl (e, refl, refl)))
    | inr (f, e) ↦
        subst⁻¹
          (λ o. Ends (IsBusy s.files) (open_found s path flags fd now o) (Opens s path flags fd)) e
          (unfold open_found in
            locked-Ends s path f i e (Opens s path flags fd) _ (open_locked-Opens f e))
  ]
