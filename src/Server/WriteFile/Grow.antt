-- ===== src/Server/WriteFile/Grow.antt =====
-- The store after one file has grown: within its bounds again, with that file in it.
use sol_project.Prelude.{
  ℕ, ◌+◌, ◌-◌, ◌^◌, ◌≤◌, ◌<◌, ◌≡◌, ◌⊎◌, refl, sym, ap, ◌∙◌, subst, subst⁻¹, true, false, some, List,
  [], arith, bytes_key, same_refl, ◌==◌, if_true, if_false, inl, inr, Bool-cases, ltb, In,
}
use sol_project.Hash.HashMap
use sol_project.Hash.HashMap.Remove.{Changed, modify-Changed}
use sol_project.Server.State.{
  FileName, File, Server, Outcome, ◌>>=◌, Ends, Ends-bind, Ends-busy, add64, sub64, long_positive,
  through, put_back,
}
use sol_project.Server.Invariant.{IsFile, IsStored, IsBusy, IsConsistent}
use sol_project.Server.Invariant.Steps.{modify-IsStored}
use sol_project.Server.Replacement.{expell_multiple_files}
use sol_project.Server.Replacement.Protected.{Beside}
use sol_project.Server.Replacement.Multiple.{Reclaimed, expell_multiple_files-Reclaimed}
use sol_project.Server.WriteFile.{reclaim, raise_peak, add_space, grow_store}

-- A file under protection.
abbrev shut : File → File
shut file = record file { can_be_expelled = false }

-- The store `s'`, and the list of expelled files, that come of `s` when `file` at `path` has grown.
pub record Grows (s : Server) (path : FileName) (file : File) (r : Server × List File)
    : Type 0 where
  pub stored : IsStored (Beside path file) r.0.files r.0.curr_state.files r.0.curr_state.space
  pub kept : HashMap.get r.0.files path ≡ some file
  pub config : r.0.config ≡ s.config
  pub small : r.0.curr_state.space ≤ s.config.max_space
  pub fewer : r.0.curr_state.files ≤ s.curr_state.files
  pub files_peak : r.0.curr_state.max_files ≡ s.curr_state.max_files
  pub space_peak : r.0.curr_state.max_space ≡ s.curr_state.max_space
  pub before :
      (k : FileName) (g : File)
      → (k == path) ≡ false
      → HashMap.get r.0.files k ≡ some g
      → HashMap.get s.files k ≡ some g
  pub after :
      (k : FileName) (g : File)
      → (k == path) ≡ false
      → HashMap.get s.files k ≡ some g
      → (HashMap.get r.0.files k ≡ some g) ⊎ In g r.1

module _ (s : Server) (path : FileName) (f file : File) (size : ℕ) (i : IsConsistent s)
    (e : HashMap.get s.files path ≡ some f) (grown : file.size ≡ f.size + size)
    (fits : file.size ≤ s.config.max_space) (named : file.path_name ≡ path)
    (open' : file.can_be_expelled ≡ true) (readers : file.n_readers ≡ f.n_readers) where
  -- the store with the file written back and counted
  abbrev counted : Server
  counted = add_space (put_back s path file) size

  whole : add64 s.curr_state.space size ≡ s.curr_state.space + size
  whole = omega (arith, i.small, i.config.space_fits, fits, grown)

  written : Changed s.files path f file (HashMap.modify s.files path (λ _. file))
  written = modify-Changed s.files path (λ _. file) f i.stored.valid e

  written_there : HashMap.get (HashMap.modify s.files path (λ _. file)) path ≡ some file
  written_there = written.finds path ∙ if_true _ _ (same_refl path)

  written-IsStored :
      IsStored
        (Beside path file)
        (HashMap.modify s.files path (λ _. file))
        s.curr_state.files
        (s.curr_state.space + size)
  written-IsStored =
      modify-IsStored IsFile (Beside path file) s.files s.curr_state.files s.curr_state.space
        i.stored path (λ _. file) f (s.curr_state.space + size) e
        ((λ other. ground (arith, other, same_refl path)), (λ _. refl))
        (λ k h other p. ((λ _. p), (λ t. ground (arith, t, other)))) (omega (arith, grown))

  -- the same with the file under protection
  abbrev guarded : Server
  guarded = put_back counted path (shut file)

  guard : Changed (HashMap.modify s.files path (λ _. file)) path file (shut file) guarded.files
  unfolding add_space
  guard =
      modify-Changed (HashMap.modify s.files path (λ _. file)) path (λ _. shut file) file
        written.valid written_there

  guarded-IsStored :
      IsStored
        (Beside path (shut file))
        guarded.files
        s.curr_state.files
        (s.curr_state.space + size)
  unfolding add_space
  guarded-IsStored =
      modify-IsStored (Beside path file) (Beside path (shut file))
        (HashMap.modify s.files path (λ _. file)) s.curr_state.files (s.curr_state.space + size)
        written-IsStored path (λ _. shut file) file (s.curr_state.space + size) written_there
        ((λ other. ground (arith, other, same_refl path)), (λ _. refl))
        (λ k h other p. (p.0, (λ t. ground (arith, t, other)))) refl

  guarded_there : HashMap.get guarded.files path ≡ some (shut file)
  guarded_there = guard.finds path ∙ if_true _ _ (same_refl path)

  guarded-other :
      (k : FileName) → (k == path) ≡ false → HashMap.get guarded.files k ≡ HashMap.get s.files k
  guarded-other k other = guard.finds k ∙ if_false _ _ other ∙ written.finds k ∙ if_false _ _ other

  guarded-IsBusy : IsBusy guarded.files → IsBusy s.files
  guarded-IsBusy (k, g, r, b) = elim (Bool-cases (k == path)) [
    | inr other ↦ (k, g, sym (guarded-other k other) ∙ r, b)
    | inl t ↦
        let same : g ≡ shut file = ground (arith, guard.finds k, t, r) in
        (path, f, e, ground (arith, same, readers, b))
  ]

  opened : record (shut file) { can_be_expelled = true } ≡ file
  opened = ap (λ x. record file { can_be_expelled = x }) (sym open')

  opened-Grows :
      (target : ℕ) (r : Server × List File)
      → s.curr_state.space + size ≤ target + s.config.max_space
      → Reclaimed path (shut file) named refl (s.curr_state.space + size) target guarded [] r
      → Grows s path file (through r.0 path (λ x. record x { can_be_expelled = true }), r.1)
  unfolding add_space
  opened-Grows target r enough h =
      let c : Changed r.0.files path (shut file) (record (shut file) { can_be_expelled = true })
          (HashMap.modify r.0.files path (λ x. record x { can_be_expelled = true })) =
        modify-Changed r.0.files path (λ x. record x { can_be_expelled = true }) (shut file)
          h.stored.valid h.kept in
      record {
        stored =
            modify-IsStored (Beside path (shut file)) (Beside path file) r.0.files _ _ h.stored path
              (λ x. record x { can_be_expelled = true }) (shut file) r.0.curr_state.space h.kept
              ((λ other. ground (arith, other, same_refl path)), (λ _. opened))
              (λ k g other p. (p.0, (λ t. ground (arith, t, other)))) refl;
        kept = c.finds path ∙ if_true _ _ (same_refl path) ∙ ap some opened;
        config = h.config;
        small = omega (arith, h.freed);
        fewer = h.fewer;
        files_peak = h.files_peak;
        space_peak = h.space_peak;
        before = λ k g other q.
            sym (guarded-other k other)
            ∙ h.before k g (sym (if_false _ _ other) ∙ sym (c.finds k) ∙ q);
        after = λ k g other q. elim (h.after k g (guarded-other k other ∙ q)) [
          | inl there ↦ inl (c.finds k ∙ if_false _ _ other ∙ there)
          | inr m ↦ inr m
        ];
      }

  counted-Grows : s.curr_state.space + size ≤ s.config.max_space → Grows s path file (counted, [])
  unfolding add_space
  counted-Grows enough = record {
    stored = rw whole written-IsStored;
    kept = written_there;
    config = refl;
    small = omega (arith, whole);
    fewer = omega arith;
    files_peak = refl;
    space_peak = refl;
    before = λ k g other q. sym (if_false _ _ other) ∙ sym (written.finds k) ∙ q;
    after = λ k g other q. inl (written.finds k ∙ if_false _ _ other ∙ q);
  }

  sub64_excess :
      s.config.max_space < s.curr_state.space + size
      → sub64 (add64 s.curr_state.space size) s.config.max_space
        ≡ s.curr_state.space + size - s.config.max_space
  sub64_excess h = omega (arith, whole, i.small, i.config.space_fits, grown, fits)

  -- the difference as a `long`
  surplus : ℕ
  surplus = sub64 (add64 s.curr_state.space size) s.config.max_space

  no_surplus : s.curr_state.space + size ≤ s.config.max_space → long_positive surplus ≡ false
  unfolding surplus
  no_surplus h = elim (Bool-cases (ltb surplus (2 ^ 63))) [
    | inl low ↦ ground (arith, low, whole, i.config.space_fits)
    | inr high ↦ ground (arith, high)
  ]

  surplus_lem :
      s.config.max_space < s.curr_state.space + size
      → surplus + s.config.max_space ≡ s.curr_state.space + size
  unfolding surplus
  surplus_lem h = omega (arith, sub64_excess h, h)

  some_surplus : s.config.max_space < s.curr_state.space + size → long_positive surplus ≡ true
  unfolding surplus
  some_surplus h = ground (arith, sub64_excess h, i.small, fits, grown, i.config.space_fits)

  guarded-Reclaimed :
      (target : ℕ)
      → target + file.size ≤ s.curr_state.space + size
      → Ends
          (IsBusy s.files)
          (expell_multiple_files target guarded)
          (Reclaimed path (shut file) named refl (s.curr_state.space + size) target guarded [])
  unfolding add_space
  guarded-Reclaimed target h =
      subst
        (λ w.
          Ends (IsBusy s.files) (expell_multiple_files target guarded)
            (Reclaimed path (shut file) named refl w target guarded []))
        whole
        (Ends-busy (IsBusy guarded.files) (IsBusy s.files)
          (Reclaimed path (shut file) named refl (add64 s.curr_state.space size) target guarded [])
          _ guarded-IsBusy
          (expell_multiple_files-Reclaimed path (shut file) named refl target guarded
            (rw whole guarded-IsStored) guarded_there (omega (arith, i.few, i.config.files_fit))
            (omega (arith, whole, i.small, i.config.space_fits, fits, grown))
            (omega (arith, h, whole))))

  reclaim-Grows : Ends (IsBusy s.files) (reclaim counted path file surplus) (Grows s path file)
  unfolding reclaim
  reclaim-Grows = elim (Bool-cases (ltb s.config.max_space (s.curr_state.space + size))) [
    | inr enough ↦
        let h : s.curr_state.space + size ≤ s.config.max_space = ground (arith, enough) in
        subst⁻¹ (λ r. Ends (IsBusy s.files) r (Grows s path file)) (if_false _ _ (no_surplus h))
          (counted-Grows h)
    | inl more ↦
        let h : s.config.max_space < s.curr_state.space + size = ground (arith, more) in
        subst⁻¹ (λ r. Ends (IsBusy s.files) r (Grows s path file)) (if_true _ _ (some_surplus h))
          (Ends-bind (IsBusy s.files)
            (Reclaimed path (shut file) named refl (s.curr_state.space + size) surplus guarded [])
            (Grows s path file) (expell_multiple_files surplus guarded) _
            (guarded-Reclaimed surplus (omega (arith, surplus_lem h, fits)))
            λ r _ q. opened-Grows surplus r (omega (arith, surplus_lem h)) q)
  ]

  pub grow_store-Grows :
      {A : Type 0} (P : A → Type 0) (next : Server × List File → Outcome A)
      → ((r : Server × List File)
          → Grows s path file r
          → Ends (IsBusy s.files) (next (raise_peak r.0, r.1)) P)
      → Ends (IsBusy s.files) (grow_store s path file size >>= next) P
  unfolding grow_store surplus reclaim add_space
  grow_store-Grows P next k =
      Ends-bind (IsBusy s.files) (λ r. Ends (IsBusy s.files) (next r) P) P
        (grow_store s path file size) next
        (Ends-bind (IsBusy s.files) (Grows s path file) (λ r. Ends (IsBusy s.files) (next r) P)
          (reclaim counted path file surplus) _ reclaim-Grows λ r _ g. k r g)
        λ r _ h. h
