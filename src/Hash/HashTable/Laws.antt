-- ===== src/Hash/HashTable/Laws.antt =====
-- What the set of descriptors promises, for the program's hash function.
use sol_project.Prelude.{
  ℕ, ◌%◌, ◌<◌, ◌≡◌, refl, sym, ap, ◌∙◌, ◌||◌, false, List, length, get_or-replicate, arith, nat_eq,
  eqb, if◌then◌else◌, inl, inr, Option-cases,
}
use native.Mathlib.Nat.{mod-eq_of_lt}
use sol_project.Hash.Chain.{has, has-find, is_some}
use sol_project.Hash.Buckets.{slot}
use sol_project.Hash.HashMap
use sol_project.Hash.HashMap.{HashMap}
use sol_project.Hash.HashMap.Growth.{IsValid, init-IsValid}
use sol_project.Hash.HashMap.Insert.{Added, insert-Added}
use sol_project.Hash.HashMap.Remove.{remove-Taken, remove_absent}
use sol_project.Hash.HashTable.{
  HashTable, default_hash, init, insert_node, expand, insert, contains, remove,
}

-- A valid table whose hash function is the program's.
pub record IsTable (t : HashTable) : Type 0 where
  pub valid : IsValid t
  pub hashed : t.hash_funct ≡ default_hash

pub insert-eq : (t : HashTable) (x : ℕ) → insert t x ≡ HashMap.insert t x tt
unfolding insert insert_node expand init HashMap.insert HashMap.expand
insert-eq t x = refl

pub contains-get : (t : HashTable) (x : ℕ) → contains t x ≡ is_some (HashMap.get t x)
unfolding contains HashMap.get
contains-get t x = has-find x _

-- The unreduced hash of `hashtbl_remove` is the slot, for the program's hash function.
pub remove-eq : (t : HashTable) (x : ℕ) → IsTable t → remove t x ≡ (HashMap.remove t x).1
unfolding remove HashMap.remove default_hash
remove-eq t x i = ap (λ j. (HashMap.remove_at t x j).1) (sym same)
  where
    reduced : t.hash_funct x (length t.list) ≡ x % length t.list
    reduced = ap (λ (f : ℕ → ℕ → ℕ). f x (length t.list)) i.hashed

    same : slot t.hash_funct t.list x ≡ t.hash_funct x (length t.list)
    same = mod-eq_of_lt (omega (arith, reduced, i.valid.roomy))

-- A new table is empty.
pub init-IsTable : (n : ℕ) → 0 < n → IsTable (init n default_hash)
unfolding init HashMap.init
init-IsTable n pos = record { valid = init-IsValid n default_hash pos; hashed = refl }

pub contains-init : (n x : ℕ) → contains (init n default_hash) x ≡ false
unfolding contains init HashMap.init has
contains-init n x = rw (get_or-replicate {A = List (ℕ × Unit {0})})

-- Insertion of a new item.
pub insert-IsTable :
    (t : HashTable) (x : ℕ) → IsTable t → contains t x ≡ false → IsTable (insert t x)
insert-IsTable t x i new = rw insert-eq (record { valid = a.valid; hashed = a.hashed ∙ i.hashed })
  where
    a : Added t x tt (HashMap.insert t x tt)
    a = insert-Added t x tt i.valid (ground (arith, contains-get t x))

-- After the insertion of a new item a valid table contains that item and what it contained before.
pub contains-insert :
    (t : HashTable) (x y : ℕ)
    → IsTable t
    → contains t x ≡ false
    → contains (insert t x) y ≡ (eqb y x || contains t y)
contains-insert t x y i new =
    rw insert-eq
      (ground (arith, a.finds y, contains-get (HashMap.insert t x tt) y, contains-get t y))
  where
    a : Added t x tt (HashMap.insert t x tt)
    a = insert-Added t x tt i.valid (ground (arith, contains-get t x))

-- Removal, of an item that is there or not.
pub remove-IsTable : (t : HashTable) (x : ℕ) → IsTable t → IsTable (remove t x)
remove-IsTable t x i = rw (remove-eq t x i) (elim (Option-cases (HashMap.get t x)) [
  | inl e ↦ rw (remove_absent t x e) i
  | inr (u, e) ↦
      let (_, r) = remove-Taken t x u i.valid e in
      record { valid = r.valid; hashed = r.hashed ∙ i.hashed }
])

-- After a removal a valid table contains what it contained before except for the item, whether the
-- item was there or not.
pub contains-remove :
    (t : HashTable) (x y : ℕ)
    → IsTable t
    → contains (remove t x) y ≡ (if eqb y x then false else contains t y)
contains-remove t x y i = rw (remove-eq t x i) (elim (Option-cases (HashMap.get t x)) [
  | inl e ↦
      rw (remove_absent t x e)
        (ground (arith, contains-get t y, ap (HashMap.get t) {x = y} {y = x}))
  | inr (u, e) ↦
      let (_, r) = remove-Taken t x u i.valid e in
      ground (arith, r.finds y, contains-get t y, contains-get (HashMap.remove t x).1 y)
])
