-- ===== src/Server/Invariant/Steps.antt =====
-- How single changes of the map move the invariant.
use sol_project.Prelude.{
  ℕ, ◌+◌, ◌-◌, ◌≤◌, ◌<◌, ◌≡◌, sym, ◌∙◌, false, none, some, [], arith, bytes_key, ◌==◌,
  bytes-same_iff, weigh, inl, inr, Bool-cases, weigh-In,
}
use sol_project.Hash.Chain.{find, find-In}
use sol_project.Hash.HashMap
use sol_project.Hash.HashMap.{entries}
use sol_project.Hash.HashMap.Growth.{IsValid, get-entries, init-IsValid, flatten-replicate}
use sol_project.Hash.HashMap.Insert.{Added, insert-Added}
use sol_project.Hash.HashMap.Remove.{Taken, remove-Taken, Changed, modify-Changed}
use sol_project.Server.State.{FileName, File, Files}
use sol_project.Server.Invariant.{size_of, IsStored}

-- A stored file weighs no more than the store.
pub weigh-get :
    (m : Files) (k : FileName) (f : File) (w : FileName × File → ℕ)
    → IsValid m
    → HashMap.get m k ≡ some f
    → w (k, f) ≤ weigh w (entries m)
weigh-get m k f w v e =
    weigh-In w (k, f) (entries m) (find-In k (entries m) f (sym (get-entries m k v) ∙ e))

-- The map that the server starts with.
pub init-IsStored :
    (P : FileName → File → Type 0) (nlist : ℕ) (hash : FileName → ℕ → ℕ)
    → 0 < nlist
    → IsStored P (HashMap.init nlist hash) 0 0
unfolding HashMap.init find
init-IsStored P nlist hash pos = record {
  valid = v;
  files = sym (none_there (λ _. 1));
  space = sym (none_there size_of);
  each = λ k f e. ground (arith, get-entries (HashMap.init {V = File} nlist hash) k v, empty, e);
}
  where
    v : IsValid (HashMap.init {V = File} nlist hash)
    v = init-IsValid nlist hash pos

    empty : entries (HashMap.init {K = FileName} {V = File} nlist hash) ≡ []
    empty = flatten-replicate {A = FileName × File} nlist

    none_there :
        (w : FileName × File → ℕ) → weigh w (entries (HashMap.init {V = File} nlist hash)) ≡ 0
    none_there w = rw empty

module _ (P Q : FileName → File → Type 0) (m : Files) (n b : ℕ) (i : IsStored P m n b) where
  -- A change of one file: what has to hold of it, and what becomes of the count of bytes.
  pub modify-IsStored :
      (path : FileName) (g : File → File) (f : File) (b' : ℕ)
      → HashMap.get m path ≡ some f
      → Q path (g f)
      → ((k : FileName) (h : File) → (k == path) ≡ false → P k h → Q k h)
      → b' + f.size ≡ b + (g f).size
      → IsStored Q (HashMap.modify m path g) n b'
  modify-IsStored path g f b' e q rest sum = record {
    valid = c.valid;
    files = omega (arith, c.weighs (λ _. 1), i.files);
    space = omega (arith, c.weighs size_of, i.space);
    each = λ k h r. elim (Bool-cases (k == path)) [
      | inl t ↦
          let same : h ≡ g f = ground (arith, c.finds k) in rw (same, (bytes-same_iff k path).0 t) q
      | inr t ↦ rest k h t (i.each k h (ground (arith, c.finds k)))
    ];
  }
    where
      c : Changed m path f (g f) (HashMap.modify m path g)
      c = modify-Changed m path g f i.valid e

  -- A new file.
  pub insert-IsStored :
      (path : FileName) (f : File)
      → HashMap.get m path ≡ none
      → Q path f
      → ((k : FileName) (h : File) → (k == path) ≡ false → P k h → Q k h)
      → IsStored Q (HashMap.insert m path f) (n + 1) (b + f.size)
  insert-IsStored path f e q rest = record {
    valid = a.valid;
    files = omega (arith, a.weighs (λ _. 1), i.files);
    space = omega (arith, a.weighs size_of, i.space);
    each = λ k h r. elim (Bool-cases (k == path)) [
      | inl t ↦
          let same : h ≡ f = ground (arith, a.finds k) in rw (same, (bytes-same_iff k path).0 t) q
      | inr t ↦ rest k h t (i.each k h (ground (arith, a.finds k)))
    ];
  }
    where
      a : Added m path f (HashMap.insert m path f)
      a = insert-Added m path f i.valid e

  -- A file less.
  pub remove-IsStored :
      (path : FileName) (f : File)
      → HashMap.get m path ≡ some f
      → ((k : FileName) (h : File) → P k h → Q k h)
      → IsStored Q (HashMap.remove m path).1 (n - 1) (b - f.size)
  remove-IsStored path f e rest = record {
    valid = t.valid;
    files = omega (arith, t.weighs (λ _. 1), i.files);
    space = omega (arith, t.weighs size_of, i.space);
    each = λ k h r. rest k h (i.each k h (ground (arith, t.finds k)));
  }
    where
      t : Taken m path f (HashMap.remove m path).1
      t = (remove-Taken m path f i.valid e).1

  -- A file that is there counts as one, and its bytes count.
  pub get-IsStored :
      (path : FileName) (f : File) → HashMap.get m path ≡ some f → (1 ≤ n) × (f.size ≤ b)
  get-IsStored path f e = (
    omega (arith, weigh-get m path f (λ _. 1) i.valid e, i.files),
    omega (arith, weigh-get m path f size_of i.valid e, i.space),
  )
