-- ===== src/Server/Replacement/Expell.antt =====
-- One expulsion.
use sol_project.Prelude.{
  ℕ, ◌≡◌, refl, sym, ◌∙◌, subst⁻¹, true, false, Option, some, In, inl, inr, arith, bytes_key, eqb,
  if_false,
}
use sol_project.Hash.Chain.{In-find, find-In}
use sol_project.Hash.HashMap
use sol_project.Hash.HashMap.{entries}
use sol_project.Hash.HashMap.Growth.{IsValid, get-entries}
use sol_project.Hash.HashMap.Remove.{remove-Taken}
use sol_project.Server.State.{FileName, File, Files, Server, Ends, Ends-bind}
use sol_project.Server.Invariant.{IsStored, IsBusy}
use sol_project.Server.Invariant.Steps.{get-IsStored}
use sol_project.Server.Replacement.{
  precedes, discharge, hand_out, take_out, take_out_least, expell_single_file,
}
use sol_project.Server.Replacement.Least.{Locks, Picked, Candidate, Minimal, find_least-Picked}

-- An entry of a valid map is what its key finds, and the other way round.
pub In-get :
    (m : Files) (k : FileName) (f : File)
    → IsValid m
    → In (k, f) (entries m)
    → HashMap.get m k ≡ some f
In-get m k f v h = get-entries m k v ∙ In-find k (entries m) f (v.unique k) h

pub get-In :
    (m : Files) (k : FileName) (f : File)
    → IsValid m
    → HashMap.get m k ≡ some f
    → In (k, f) (entries m)
get-In m k f v e = find-In k (entries m) f (sym (get-entries m k v) ∙ e)

-- What a stored file has to satisfy for the replacement to find its way.
abbrev pub Replaceable : (FileName → File → Type 0) → Type 0
Replaceable P =
    (k : FileName) (f : File)
    → P k f
    → (f.path_name ≡ k) × (f.can_be_expelled ≡ true → f.n_writers ≡ 0)

-- No stored file that may be expelled precedes `f` in the order of the policy.
abbrev pub IsFirst : Server → File → Type 0
IsFirst s f =
    (k : FileName) (g : File)
    → HashMap.get s.files k ≡ some g
    → g.can_be_expelled ≡ true
    → precedes s.config.policy g f ≡ false

-- An expulsion of the first file in the order of the policy, and nothing else.
abbrev pub Expels : Server → Option (File × Server) → Type 0
Expels s r =
    (f : File) × (HashMap.get s.files f.path_name ≡ some f)
    × (f.can_be_expelled ≡ true)
    × IsFirst s f
    × (r ≡ some (f, discharge s f (HashMap.remove s.files f.path_name).1))

module _ (P : FileName → File → Type 0) (s : Server) (n b : ℕ) (i : IsStored P s.files n b)
    (ok : Replaceable P) where
  locks : Locks s.config.policy (IsBusy s.files) (entries s.files)
  locks k f m x =
      let e = In-get s.files k f i.valid m in ((ok k f (i.each k f e)).1 x, λ r. (k, f, e, r))

  take_out-Expels :
      (f : File)
      → Candidate s.config.policy (entries s.files) f
      → Minimal s.config.policy (entries s.files) f
      → Ends (IsBusy s.files) (take_out s f) (Expels s)
  unfolding take_out
  take_out-Expels f (k, m, x) minimal =
      let e = In-get s.files k f i.valid m in
      let e' : HashMap.get s.files f.path_name ≡ some f =
        subst⁻¹ (λ j. HashMap.get s.files j ≡ some f) (ok k f (i.each k f e)).0 e in
      subst⁻¹
        (λ o.
          Ends (IsBusy s.files) (hand_out s o (HashMap.remove s.files f.path_name).1) (Expels s))
        (remove-Taken s.files f.path_name f i.valid e').0
        (f, e', x, (λ j g r. minimal j g (get-In s.files j g i.valid r)), refl)

  -- While some stored file may be expelled, and no writer is at work on such a file,
  -- expell_single_file takes out of the map, and out of the counts, the file that comes first in
  -- the order of the policy; or it waits for a reader of a stored file; it never fails otherwise.
  pub expell_single_file-Expels :
      (k : FileName) (f : File)
      → HashMap.get s.files k ≡ some f
      → f.can_be_expelled ≡ true
      → Ends (IsBusy s.files) (expell_single_file s) (Expels s)
  unfolding expell_single_file
  expell_single_file-Expels k f e x =
      subst⁻¹ (λ r. Ends (IsBusy s.files) r (Expels s)) (if_false _ _ stored)
        (Ends-bind (IsBusy s.files) (Picked s.config.policy (entries s.files)) (Expels s) _
          (take_out_least s)
          (find_least-Picked s.config.policy (IsBusy s.files) (entries s.files) locks)
          λ r _ h. taken r h)
    where
      stored : eqb s.files.nelem 0 ≡ false
      stored = ground (arith, get-IsStored P P s.files n b i k f e, i.valid.counted, i.files)

      taken :
          (r : Option File)
          → Picked s.config.policy (entries s.files) r
          → Ends (IsBusy s.files) (take_out_least s r) (Expels s)
      taken r (inl (_, nobody)) = absurd (nobody f (k, get-In s.files k f i.valid e, x))
      taken r (inr (g, p, c, minimal)) =
          subst⁻¹ (λ o. Ends (IsBusy s.files) (take_out_least s o) (Expels s)) p
            (unfold take_out_least in take_out-Expels g c minimal)
