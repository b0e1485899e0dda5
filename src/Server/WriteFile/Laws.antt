-- ===== src/Server/WriteFile/Laws.antt =====
-- What writing and appending come to, on every branch.
use sol_project.Prelude.{
  ℕ, ◌+◌, ◌≤◌, ◌<◌, ◌≡◌, ◌≢◌, ◌⊎◌, refl, sym, subst, subst⁻¹, true, false, Option, none, some, List,
  [], length, arith, bytes_key, inl, inr, Bool-cases, Option-cases, ltb, eqb,
}
use sol_project.Hash.HashMap
use sol_project.Hash.HashTable
use sol_project.Server.State.{
  FileName, Timespec, File, Server, Code, sa_success, sa_no_file, sa_no_open, sa_not_locked,
  sa_not_empty, sa_too_big, done, ◌>>=◌, Ends, Ends-map, through,
}
use sol_project.Server.FileLocks.{writer_unlock}
use sol_project.Server.FileLocks.Laws.{written_by_one, writer_unlock-lock}
use sol_project.Server.OpenFile.{is_held}
use sol_project.Server.Invariant.{IsFile, IsConsistent, IsBusy}
use sol_project.Server.Invariant.Preserve.{put_back_same, locked-Ends}
use sol_project.Server.WriteFile.{
  raise_peak, grow_store, write_refusal, write_checked, write_found, write_under_lock,
}
use sol_project.Server.WriteFile.Grow.{grow_store-Grows}
use sol_project.Server.WriteFile.Stores.{Stores, Grows-Stores}

-- `g` is stored at `path`, with success.
abbrev pub StoresWell : Server → FileName → File → Server × List File × Code → Type 0
StoresWell s path g q = Stores s path g q.0 q.1 × (q.2 ≡ sa_success)

pub grow_store-StoresWell :
    (s : Server) (path : FileName) (f g : File) (size : ℕ)
    → IsConsistent s
    → HashMap.get s.files path ≡ some f
    → IsFile path g
    → g.size ≡ f.size + size
    → g.size ≤ s.config.max_space
    → g.n_readers ≡ f.n_readers
    → Ends
        (IsBusy s.files)
        (grow_store s path (written_by_one g) size >>= λ r.
          done (through r.0 path writer_unlock, r.1, sa_success))
        (StoresWell s path g)
grow_store-StoresWell s path f g size i e h grown fits readers =
    let back = writer_unlock-lock g h.idle in
    grow_store-Grows s path f (written_by_one g) size i e grown fits h.named h.expellable readers
      (StoresWell s path g) _
      λ r x. (
        subst (λ y. Stores s path y (through (raise_peak r.0) path writer_unlock) r.1) back
            (Grows-Stores s path (written_by_one g) r i (subst⁻¹ (IsFile path) back h) x),
        refl,
      )

-- Why a write is refused.
abbrev pub WriteRefused : ℕ → File → ℕ → ℕ → Code → Type 0
WriteRefused max_space f size fd code =
    ((code ≡ sa_no_open) × (HashTable.contains f.fd_open fd ≡ false))
    ⊎ ((code ≡ sa_not_locked) × (f.fd_lock ≢ some fd))
    ⊎ ((code ≡ sa_not_empty) × (f.size ≢ 0))
    ⊎ ((code ≡ sa_too_big) × (max_space < size))

-- When it is not.
abbrev pub WriteAllowed : ℕ → File → ℕ → ℕ → Type 0
WriteAllowed max_space f size fd =
    (HashTable.contains f.fd_open fd ≡ true)
    × (f.fd_lock ≡ some fd)
    × (f.size ≡ 0)
    × (size ≤ max_space)

write_refusal_cases :
    (max_space : ℕ) (f : File) (size fd : ℕ)
    → ((code : Code) × (write_refusal max_space f size fd ≡ some code)
        × WriteRefused max_space f size fd code)
      ⊎ ((write_refusal max_space f size fd ≡ none) × WriteAllowed max_space f size fd)
unfolding write_refusal
write_refusal_cases max_space f size fd = elim (Bool-cases (HashTable.contains f.fd_open fd)) [
  | inr e ↦ inl (sa_no_open, ground (arith, e), inl (refl, e))
  | inl e ↦ elim (Bool-cases (is_held f.fd_lock fd)) [
    | inr o ↦ inl (sa_not_locked, ground (arith, e, o), inr (inl (refl, λ x. ground (arith, x, o))))
    | inl held ↦ elim (Bool-cases (eqb f.size 0)) [
      | inr full ↦ inl (
        sa_not_empty,
        ground (arith, e, held, full),
        inr (inr (inl (refl, λ x. ground (arith, x, full)))),
      )
      | inl empty ↦ elim (Bool-cases (ltb max_space size)) [
        | inl big ↦ inl (
          sa_too_big,
          ground (arith, e, held, empty, big),
          inr (inr (inr (refl, ground (arith, big)))),
        )
        | inr fits ↦ inr (
          ground (arith, e, held, empty, fits),
          (e, is_held_lem f.fd_lock fd held, ground (arith, empty), ground (arith, fits)),
        )
      ]
    ]
  ]
]
  where
    is_held_lem : (o : Option ℕ) (c : ℕ) → is_held o c ≡ true → o ≡ some c
    is_held_lem none c h = cc
    is_held_lem (some d) c h = ground (arith, h)

-- The file with new contents.
abbrev pub rewritten : File → ℕ → List ℕ → Timespec → File
rewritten f size buf now = record f { size = size; contents = buf; last_use = now }

-- What a write comes to: no such file; a refusal, which changes nothing; or the contents are stored.
abbrev pub Writes :
    Server → FileName → ℕ → List ℕ → ℕ → Timespec → Server × List File × Code → Type 0
Writes s path size buf fd now (s', expelled, code) =
    ((HashMap.get s.files path ≡ none) × (code ≡ sa_no_file) × (s' ≡ s))
    ⊎ ((f : File) × (HashMap.get s.files path ≡ some f)
        × ((WriteRefused s.config.max_space f size fd code × (s' ≡ s))
            ⊎ (WriteAllowed s.config.max_space f size fd
                × (code ≡ sa_success)
                × Stores s path (rewritten f size buf now) s' expelled)))

module _ (s : Server) (path : FileName) (size : ℕ) (buf : List ℕ) (fd : ℕ) (now : Timespec)
    (i : IsConsistent s) (sized : length buf ≡ size) where
  write_checked-Writes :
      (f : File) (e : HashMap.get s.files path ≡ some f)
      → Ends
          (IsBusy s.files)
          (write_checked s path size buf now
            (written_by_one f)
            (write_refusal s.config.max_space (written_by_one f) size fd))
          (Writes s path size buf fd now)
  write_checked-Writes f e =
      elim (write_refusal_cases s.config.max_space (written_by_one f) size fd) [
        | inl (code, r, why) ↦
            subst⁻¹
              (λ o.
                Ends (IsBusy s.files) (write_checked s path size buf now (written_by_one f) o)
                  (Writes s path size buf fd now))
              r
              (unfold write_checked in
                subst⁻¹ (λ s'. Writes s path size buf fd now (s', [], code))
                  (put_back_same s path f i e) (inr (f, e, inl (why, refl))))
        | inr (r, allowed) ↦
            subst⁻¹
              (λ o.
                Ends (IsBusy s.files) (write_checked s path size buf now (written_by_one f) o)
                  (Writes s path size buf fd now))
              r
              (unfold write_checked in
                Ends-map (IsBusy s.files) (StoresWell s path (rewritten f size buf now))
                  (Writes s path size buf fd now) _ (λ q h. inr (f, e, inr (allowed, h.1, h.0)))
                  (grow_store-StoresWell s path f (rewritten f size buf now) size i e
                    (record {
                      named = h.named;
                      sized = sym sized;
                      idle = h.idle;
                      expellable = h.expellable;
                      table = h.table;
                      holder = h.holder;
                    })
                    (omega (arith, allowed.2)) allowed.3 refl))
      ]
    where
      h : IsFile path f
      h = i.stored.each path f e

  -- A write to a consistent server with a buffer of the given size: without such a file,
  -- sa_no_file; if the client has not opened the file, does not hold its lock, the file is not
  -- empty, or the size is above the limit, the code says which of these is so, and the server is
  -- as it was; otherwise the file has the new contents, other files are gone only if they are in
  -- the list of expelled files, the rest is as it was, and the server is consistent, its bounds
  -- and peaks included. The request may wait only if some stored file is being read, and it never
  -- fails otherwise.
  pub write_under_lock-Writes :
      Ends
        (IsBusy s.files)
        (write_under_lock s path size buf fd now)
        (Writes s path size buf fd now)
  unfolding write_under_lock
  write_under_lock-Writes = elim (Option-cases (HashMap.get s.files path)) [
    | inl e ↦
        subst⁻¹
          (λ o.
            Ends (IsBusy s.files) (write_found s path size buf fd now o)
              (Writes s path size buf fd now))
          e (unfold write_found in inl (e, refl, refl))
    | inr (f, e) ↦
        subst⁻¹
          (λ o.
            Ends (IsBusy s.files) (write_found s path size buf fd now o)
              (Writes s path size buf fd now))
          e
          (unfold write_found in
            locked-Ends s path f i e (Writes s path size buf fd now) _ (write_checked-Writes f e))
  ]
