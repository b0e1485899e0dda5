-- ===== src/Server/Replacement/Protected.antt =====
-- One expulsion while one file, the one that grows, is protected.
use sol_project.Prelude.{
  ℕ, ◌+◌, ◌-◌, ◌^◌, ◌<◌, ◌≡◌, ◌⊎◌, refl, sym, ap, ◌∙◌, true, false, some, List, [], ◌∷◌, arith,
  bytes_key, bytes-same_iff, ◌==◌, inl, inr, Bool-cases, In, weigh,
}
use sol_project.Hash.HashMap
use sol_project.Hash.HashMap.{entries}
use sol_project.Hash.HashMap.Remove.{Taken, remove-Taken}
use sol_project.Server.State.{FileName, File, Files, Server, dec32, sub64}
use sol_project.Server.Invariant.{IsFile, IsStored, size_of}
use sol_project.Server.Invariant.Steps.{remove-IsStored, get-IsStored}
use sol_project.Server.Replacement.{discharge}
use sol_project.Server.Replacement.Expell.{In-get, Replaceable}

-- What weighs something is not empty.
weigh-In_some : {A : Type 0} (w : A → ℕ) (es : List A) → 0 < weigh w es → (x : A) × In x es
weigh-In_some w [] h = absurd (omega (arith, h))
weigh-In_some w (e ∷ es) h = (e, inl refl)

module _ (path : FileName) (file : File) where
  -- `file` stands under `path`, and every other file is as it should be.
  abbrev pub Beside : FileName → File → Type 0
  Beside k f = ((k == path) ≡ false → IsFile k f) × ((k == path) ≡ true → f ≡ file)

  pub Beside-Replaceable : file.path_name ≡ path → file.can_be_expelled ≡ false → Replaceable Beside
  Beside-Replaceable named shut k f (other, itself) = elim (Bool-cases (k == path)) [
    | inr u ↦ let i = other u in (i.named, λ _. i.idle)
    | inl t ↦
        let e = itself t in
        let same = (bytes-same_iff k path).0 t in
        (
          ap (λ (x : File). x.path_name) e ∙ named ∙ sym same,
          λ x. absurd (ground (arith, e, x, shut)),
        )
  ]

  -- While there is more than the protected file, some file may be expelled.
  pub expellable_there :
      (m : Files) (n b : ℕ)
      → IsStored Beside m n b
      → HashMap.get m path ≡ some file
      → file.size < b
      → (k : FileName) × (f : File) × (HashMap.get m k ≡ some f) × (f.can_be_expelled ≡ true)
  expellable_there m n b i e more =
      let t : Taken m path file (HashMap.remove m path).1 =
        (remove-Taken m path file i.valid e).1 in
      let left = remove-IsStored Beside Beside m n b i path file e (λ k h p. p) in
      let ((k, f), h) =
        weigh-In_some size_of (entries (HashMap.remove m path).1) (omega (arith, left.space)) in
      let g = In-get (HashMap.remove m path).1 k f left.valid h in
      let no : (k == path) ≡ false = ground (arith, t.finds k, g) in
      (k, f, ground (arith, t.finds k, g, no), ((left.each k f g).0 no).expellable)

-- One expulsion from a store with `n` files and `b` bytes, of a file that is not at `path`.
pub record Expelled (path : FileName) (file : File) (s : Server) (f : File) (s' : Server)
    : Type 0 where
  pub stored : IsStored (Beside path file) s'.files s'.curr_state.files s'.curr_state.space
  pub kept : HashMap.get s'.files path ≡ some file
  pub sum : s'.curr_state.space + f.size ≡ s.curr_state.space
  pub count : s'.curr_state.files + 1 ≡ s.curr_state.files
  pub config : s'.config ≡ s.config
  pub files_peak : s'.curr_state.max_files ≡ s.curr_state.max_files
  pub space_peak : s'.curr_state.max_space ≡ s.curr_state.max_space
  pub before :
      (k : FileName) (g : File) → HashMap.get s'.files k ≡ some g → HashMap.get s.files k ≡ some g
  pub after :
      (k : FileName) (g : File)
      → HashMap.get s.files k ≡ some g
      → (HashMap.get s'.files k ≡ some g) ⊎ (g ≡ f)

module _ (path : FileName) (file : File) (named : file.path_name ≡ path)
    (shut : file.can_be_expelled ≡ false) where
  pub discharge-Expelled :
      (s : Server) (f : File)
      → IsStored (Beside path file) s.files s.curr_state.files s.curr_state.space
      → HashMap.get s.files path ≡ some file
      → s.curr_state.files < 2 ^ 32
      → s.curr_state.space < 2 ^ 64
      → HashMap.get s.files f.path_name ≡ some f
      → f.can_be_expelled ≡ true
      → Expelled path file s f (discharge s f (HashMap.remove s.files f.path_name).1)
  unfolding discharge
  discharge-Expelled s f i e small32 small64 g open' =
      let (some_there, its_bytes) =
        get-IsStored (Beside path file) (Beside path file) s.files _ _ i f.path_name f g in
      let n : dec32 s.curr_state.files ≡ s.curr_state.files - 1 = omega arith in
      let b : sub64 s.curr_state.space f.size ≡ s.curr_state.space - f.size = omega arith in
      let t : Taken s.files f.path_name f (HashMap.remove s.files f.path_name).1 =
        (remove-Taken s.files f.path_name f i.valid g).1 in
      record {
        stored =
            rw (n, b)
              (remove-IsStored (Beside path file) (Beside path file) s.files _ _ i f.path_name f g
                (λ k h p. p));
        kept = ground (arith, t.finds path, e, g, bytes-same_iff path f.path_name, shut, open');
        sum = omega (arith, b);
        count = omega (arith, n);
        config = refl;
        files_peak = refl;
        space_peak = refl;
        before = λ k h r. ground (arith, t.finds k, r);
        after = λ k h r. elim (Bool-cases (k == f.path_name)) [
          | inl same ↦ inr (
              ground
                (arith, ap (HashMap.get s.files) ((bytes-same_iff k f.path_name).0 same), r, g))
          | inr other ↦ inl (ground (arith, other, t.finds k, r))
        ];
      }
