-- ===== src/Hash/Iter/Laws.antt =====
-- The iterator meets every element once, in the order of the lists.
use sol_project.Prelude.{
  ℕ, suc, ◌≡◌, refl, ap, subst, some, List, [], ◌∷◌, ◌++◌, flatten, length, drop, drop-suc, ◌≢◌,
}
use sol_project.Hash.Chain.{Chain}
use sol_project.Hash.HashMap.{HashMap, entries}
use sol_project.Hash.HashTable.{HashTable}
use sol_project.Hash.Iter.{
  ListIndex, unstarted, at, ended, HashIter, Next, found, finished, start, tail, scan, advance,
  get_next, visit, collect, table_get_next,
}

module _ {K V : Type 0} where
  -- What the iterator has not met yet.
  abbrev behind : ListIndex → List (Chain K V) → List (K × V)
  behind unstarted list = flatten list
  behind (at i) list = flatten (drop (suc i) list)
  behind ended list = []

  -- A step of the iterator, as a list of what is left sees it.
  abbrev Steps : List (Chain K V) → List (K × V) → Next K V → Type 0
  Steps list [] r = (it : HashIter K V) × (r ≡ finished it)
  Steps list (e ∷ es) r =
      (c : Chain K V) × (i : ListIndex) × (r
        ≡ found (record { current_pos = e ∷ c; current_list = i }))
      × (i ≢ ended)
      × (c ++ behind i list ≡ es)

  scan-Steps :
      (i : ℕ) (list cs : List (Chain K V)) → drop i list ≡ cs → Steps list (flatten cs) (scan i cs)
  unfolding scan flatten
  scan-Steps i list [] e = (_, refl)
  scan-Steps i list ([] ∷ cs) e = scan-Steps (suc i) list cs (drop-suc i [] list cs e)
  scan-Steps i list ((x ∷ c) ∷ cs) e =
      (c, at i, refl, (λ h. cc), ap (λ l. c ++ flatten l) (drop-suc i (x ∷ c) list cs e))

  advance-Steps :
      (c : Chain K V) (i : ListIndex) (list : List (Chain K V))
      → i ≢ ended
      → Steps list (c ++ behind i list) (advance c i list)
  unfolding advance
  advance-Steps [] unstarted list h = scan-Steps 0 list list refl
  advance-Steps [] (at i) list h = scan-Steps (suc i) list (drop (suc i) list) refl
  advance-Steps [] ended list h = absurd (h refl)
  advance-Steps (e ∷ c) i list h = (c, i, refl, h, refl)

  visit-behind :
      (m : HashMap K V) (es : List (K × V)) (c : Chain K V) (i : ListIndex)
      → i ≢ ended
      → tail c ++ behind i m.list ≡ es
      → visit (suc (length es)) (record { current_pos = c; current_list = i }) m ≡ some es
  unfolding visit get_next
  visit-behind m [] c i h e =
      let (it, r) =
        subst (λ l. Steps m.list l (advance (tail c) i m.list)) e
          (advance-Steps (tail c) i m.list h) in
      rw (r, visit)
  visit-behind m (x ∷ es) c i h e =
      let (c', i', r, h', e') =
        subst (λ l. Steps m.list l (advance (tail c) i m.list)) e
          (advance-Steps (tail c) i m.list h) in
      rw (r, visit) (ap (collect (x ∷ c')) (visit-behind m es (x ∷ c') i' h' e'))

  -- The loop over the iterator of any map ends after one round more than there are elements, and
  -- meets every element once, in the order of the lists.
  pub visit-entries :
      (m : HashMap K V) → visit (suc (length (entries m))) start m ≡ some (entries m)
  visit-entries m = visit-behind m (entries m) [] unstarted (λ h. cc) refl

-- The iterator of the table is that of the map.
pub table_get_next-eq :
    (it : HashIter ℕ (Unit {0})) (t : HashTable) → table_get_next it t ≡ get_next it t
unfolding table_get_next get_next
table_get_next-eq it t = refl
