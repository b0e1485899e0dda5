-- ===== src/Hash/HashTable/Count.antt =====
-- The number of elements of the set of descriptors.
use sol_project.Prelude.{
  ℕ, ◌+◌, ◌<◌, ◌≡◌, refl, ap, List, [], ◌∷◌, if_true, same_refl, ◌∙◌, true, false, some, arith,
  nat_eq, inl, inr, Option-cases, weigh, weigh-In,
}
use sol_project.Hash.Chain.{find, find-In, is_some}
use sol_project.Hash.HashMap
use sol_project.Hash.HashMap.{entries}
use sol_project.Hash.HashMap.Growth.{get-entries}
use sol_project.Hash.HashMap.Insert.{Added, insert-Added}
use sol_project.Hash.HashMap.Remove.{remove-Taken, remove_absent}
use sol_project.Hash.HashTable.{HashTable, init, insert, contains, remove}
use sol_project.Hash.HashTable.Laws.{IsTable, insert-eq, contains-get, remove-eq}

pub nelem-insert :
    (t : HashTable) (x : ℕ) → IsTable t → contains t x ≡ false → (insert t x).nelem ≡ t.nelem + 1
nelem-insert t x i new =
    rw insert-eq (omega (arith, a.valid.counted, i.valid.counted, a.weighs (λ _. 1)))
  where
    a : Added t x tt (HashMap.insert t x tt)
    a = insert-Added t x tt i.valid (ground (arith, contains-get t x))

pub nelem-remove :
    (t : HashTable) (x : ℕ) → IsTable t → contains t x ≡ true → (remove t x).nelem + 1 ≡ t.nelem
nelem-remove t x i there = rw (remove-eq t x i) (elim (Option-cases (HashMap.get t x)) [
  | inl e ↦ absurd (ground (arith, contains-get t x))
  | inr (u, e) ↦
      let (_, r) = remove-Taken t x u i.valid e in
      omega (arith, r.valid.counted, i.valid.counted, r.weighs (λ _. 1))
])

-- A table without elements contains nothing.
pub contains-empty : (t : HashTable) (x : ℕ) → IsTable t → t.nelem ≡ 0 → contains t x ≡ false
contains-empty t x i e = elim (Option-cases (find x (entries t))) [
  | inl gone ↦ ground (arith, contains-get t x, get-entries t x i.valid, gone)
  | inr (u, met) ↦ absurd (
      omega (
        arith,
        e,
        i.valid.counted,
        weigh-In (λ _. 1) (x, u) (entries t) (find-In x (entries t) u met),
      ))
]

-- A table with elements contains something.
pub contains-some : (t : HashTable) → IsTable t → 0 < t.nelem → (x : ℕ) × (contains t x ≡ true)
contains-some t i pos = first (entries t) refl
  where
    first : (es : List (ℕ × Unit {0})) → entries t ≡ es → (x : ℕ) × (contains t x ≡ true)
    first [] e = absurd (omega (arith, pos, i.valid.counted, ap (weigh (λ _. 1)) e))
    first ((x, u) ∷ es) e =
        (x, contains-get t x ∙ ap is_some (get-entries t x i.valid ∙ ap (find x) e ∙ met x u es))
      where
        met : (x : ℕ) (u : Unit {0}) (es : List (ℕ × Unit {0})) → find x ((x, u) ∷ es) ≡ some u
        met x u es = unfold find in if_true _ _ (same_refl {K = ℕ} x)

pub remove-absent : (t : HashTable) (x : ℕ) → IsTable t → contains t x ≡ false → remove t x ≡ t
remove-absent t x i gone = rw (remove-eq t x i) (elim (Option-cases (HashMap.get t x)) [
  | inl e ↦ ap (λ r. r.1) (remove_absent t x e)
  | inr (u, e) ↦ absurd (ground (arith, contains-get t x))
])

pub nelem-init : (n : ℕ) (hash_funct : ℕ → ℕ → ℕ) → (init n hash_funct).nelem ≡ 0
unfolding init HashMap.init
nelem-init n hash_funct = refl
