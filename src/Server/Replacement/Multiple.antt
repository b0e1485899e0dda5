-- ===== src/Server/Replacement/Multiple.antt =====
-- The loop of `expell_multiple_files` while one file, the one that grows, is protected.
use sol_project.Prelude.{
  ℕ, zero, suc, ◌+◌, ◌^◌, ◌≤◌, ◌<◌, ◌≡◌, ◌⊎◌, refl, ◌∙◌, subst⁻¹, false, some, List, [], ◌∷◌, ◌++◌,
  arith, bytes_key, inl, inr, Bool-cases, ltb, if_false, In, In-append_left, In-append_right,
}
use sol_project.Hash.HashMap
use sol_project.Hash.HashMap.{entries}
use sol_project.Server.State.{FileName, File, Server, Ends, Ends-bind, Ends-map, Ends-busy, add64}
use sol_project.Server.Invariant.{IsStored, IsBusy}
use sol_project.Server.Replacement.{
  discharge, expell_single_file, expell_loop, expell_multiple_files,
}
use sol_project.Server.Replacement.Expell.{Expels, expell_single_file-Expels}
use sol_project.Server.Replacement.Protected.{
  Beside, Beside-Replaceable, expellable_there, Expelled, discharge-Expelled,
}

module _ (path : FileName) (file : File) (named : file.path_name ≡ path)
    (shut : file.can_be_expelled ≡ false) where
  -- What the loop has at the start of a round, with `freed` bytes freed of the `whole` there were.
  record Round (B : Type 0) (whole target fuel freed : ℕ) (s : Server) : Type 0 where
    stored : IsStored (Beside path file) s.files s.curr_state.files s.curr_state.space
    kept : HashMap.get s.files path ≡ some file
    sum : freed + s.curr_state.space ≡ whole
    enough : s.curr_state.files < fuel
    small32 : s.curr_state.files < 2 ^ 32
    small64 : whole < 2 ^ 64
    reachable : target + file.size ≤ whole
    busy : IsBusy s.files → B

  -- What the loop leaves: the protected file, at most `whole - target` bytes, and no file that
  -- was not there; the files that are gone are in the list.
  pub record Reclaimed (whole target : ℕ) (s : Server) (acc : List File) (r : Server × List File)
      : Type 0 where
    pub stored : IsStored (Beside path file) r.0.files r.0.curr_state.files r.0.curr_state.space
    pub kept : HashMap.get r.0.files path ≡ some file
    pub freed : r.0.curr_state.space + target ≤ whole
    pub fewer : r.0.curr_state.files ≤ s.curr_state.files
    pub less : r.0.curr_state.space ≤ s.curr_state.space
    pub config : r.0.config ≡ s.config
    pub files_peak : r.0.curr_state.max_files ≡ s.curr_state.max_files
    pub space_peak : r.0.curr_state.max_space ≡ s.curr_state.max_space
    pub before :
        (k : FileName) (g : File)
        → HashMap.get r.0.files k ≡ some g
        → HashMap.get s.files k ≡ some g
    pub after :
        (k : FileName) (g : File)
        → HashMap.get s.files k ≡ some g
        → (HashMap.get r.0.files k ≡ some g) ⊎ In g r.1
    pub listed : (g : File) → In g acc → In g r.1

  -- What comes of the rest of the loop, seen from before an expulsion.
  Reclaimed-Expelled :
      (whole target : ℕ) (s s' : Server) (f : File) (acc : List File) (r : Server × List File)
      → Expelled path file s f s'
      → Reclaimed whole target s' (acc ++ f ∷ []) r
      → Reclaimed whole target s acc r
  Reclaimed-Expelled whole target s s' f acc r x h = record {
    stored = h.stored;
    kept = h.kept;
    freed = h.freed;
    fewer = omega (arith, h.fewer, x.count);
    less = omega (arith, h.less, x.sum);
    config = h.config ∙ x.config;
    files_peak = h.files_peak ∙ x.files_peak;
    space_peak = h.space_peak ∙ x.space_peak;
    before = λ k g e. x.before k g (h.before k g e);
    after = λ k g e. elim (x.after k g e) [
      | inl there ↦ h.after k g there
      | inr same ↦
          inr
            (subst⁻¹ (λ y. In y r.1) same (h.listed f (In-append_right f acc (f ∷ []) (inl refl))))
    ];
    listed = λ g m. h.listed g (In-append_left g acc (f ∷ []) m);
  }

  next-Round :
      (B : Type 0) (whole target fuel freed : ℕ) (s s' : Server) (f : File)
      → Round B whole target (suc fuel) freed s
      → Expelled path file s f s'
      → Round B whole target fuel (add64 freed f.size) s'
  next-Round B whole target fuel freed s s' f p x =
      let sum : add64 freed f.size ≡ freed + f.size = omega (arith, p.sum, p.small64, x.sum) in
      record {
        stored = x.stored;
        kept = x.kept;
        sum = omega (arith, sum, p.sum, x.sum);
        enough = omega (arith, p.enough, x.count);
        small32 = omega (arith, p.small32, x.count);
        small64 = p.small64;
        reachable = p.reachable;
        busy = λ (k, g, e, r). p.busy (k, g, x.before k g e, r);
      }

  -- The loop ends with enough freed, or waits for a reader of a stored file.
  expell_loop-Reclaimed :
      (B : Type 0) (whole target fuel freed : ℕ) (s : Server) (acc : List File)
      → Round B whole target fuel freed s
      → Ends B (expell_loop fuel freed target s acc) (Reclaimed whole target s acc)
  unfolding expell_loop
  expell_loop-Reclaimed B whole target zero freed s acc p = absurd (omega (arith, p.enough))
  expell_loop-Reclaimed B whole target (suc fuel) freed s acc p =
      elim (Bool-cases (ltb freed target)) [
        | inr enough ↦
            rw (enough, Ends)
              (record {
                stored = p.stored;
                kept = p.kept;
                freed = ground (arith, p.sum, enough);
                fewer = omega arith;
                less = omega arith;
                config = refl;
                files_peak = refl;
                space_peak = refl;
                before = λ k g e. e;
                after = λ k g e. inl e;
                listed = λ g m. m;
              })
        | inl more ↦
            let room : file.size < s.curr_state.space = ground (arith, p.sum, p.reachable, more) in
            let (k, f, e, x) = expellable_there path file s.files _ _ p.stored p.kept room in
            rw (more, Ends)
              (Ends-bind B (Expels s) (Reclaimed whole target s acc) (expell_single_file s) _
                (Ends-busy (IsBusy s.files) B (Expels s) _ p.busy (
                  expell_single_file-Expels (Beside path file) s _ _ p.stored
                    (Beside-Replaceable path file named shut) k f e x))
                λ r _ (f', g, may, _, taken).
                  let now : Expelled path file s f'
                      (discharge s f' (HashMap.remove s.files f'.path_name).1) =
                    discharge-Expelled path file named shut s f' p.stored p.kept p.small32
                      (omega (arith, p.sum, p.small64)) g may in
                  rw (taken, Ends)
                    (Ends-map B _ (Reclaimed whole target s acc) _
                      (λ q. Reclaimed-Expelled whole target s _ f' acc q now)
                      (expell_loop-Reclaimed B whole target fuel (add64 freed f'.size) _
                        (acc ++ f' ∷ []) (next-Round B whole target fuel freed s _ f' p now))))
      ]

  -- While a file that has grown is protected, and the other stored files have at least the bytes
  -- to free, expell_multiple_files ends with at least that much freed, within its fuel, or waits
  -- for a reader of a stored file: the protected file stays, every other file stays as it was or
  -- is in the list, the counts are those of what is left, and configuration and peaks do not
  -- change.
  pub expell_multiple_files-Reclaimed :
      (target : ℕ) (s : Server)
      → IsStored (Beside path file) s.files s.curr_state.files s.curr_state.space
      → HashMap.get s.files path ≡ some file
      → s.curr_state.files < 2 ^ 32
      → s.curr_state.space < 2 ^ 64
      → target + file.size ≤ s.curr_state.space
      → Ends
          (IsBusy s.files)
          (expell_multiple_files target s)
          (Reclaimed s.curr_state.space target s [])
  unfolding expell_multiple_files
  expell_multiple_files-Reclaimed target s i e small32 small64 h =
      let fits : ltb s.curr_state.space target ≡ false = ground arith in
      subst⁻¹ (λ r. Ends (IsBusy s.files) r (Reclaimed s.curr_state.space target s []))
        (if_false _ _ fits)
        (expell_loop-Reclaimed (IsBusy s.files) s.curr_state.space target (suc s.files.nelem) 0 s []
          (record {
            stored = i;
            kept = e;
            sum = omega arith;
            enough = omega (arith, i.valid.counted, i.files);
            small32 = small32;
            small64 = small64;
            reachable = h;
            busy = λ b. b;
          }))
