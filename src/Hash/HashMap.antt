-- ===== src/Hash/HashMap.antt =====
-- src/util/hash/hashmap.c: a map with separate chaining that doubles its array when, with the new
-- element, it would hold more than half as many elements as lists. The functions that return 0, 1
-- or -1 and an errno return the data, or `none`; the NULL checks on the map pointer and
-- exhausted memory (ENOMEM) are not modelled. `nlist` is the length of the array, at least 1 for
-- every map that `hashmap_init` makes in the program.
pub mod Growth
pub mod Insert
pub mod Remove
use sol_project.Prelude.{
  ℕ, ◌+◌, ◌*◌, ◌/◌, ◌%◌, ◌-◌, ◌^◌, Bool, Option, none, some, List, [], ◌∷◌, flatten, length, KeyEq,
  if◌then◌else◌, ltb, set, get_or, replicate,
}
use sol_project.Hash.Chain.{Chain, find, has, unlink, update}
use sol_project.Hash.Buckets.{slot, push}

pub record HashMap (K V : Type 0) : Type 0 where
  pub nelem : ℕ
  pub list : List (Chain K V)
  pub hash_funct : K → ℕ → ℕ

module _ {K V : Type 0} where
  unfoldable pub init : ℕ → (K → ℕ → ℕ) → HashMap K V
  init nlist hash_funct = record { nelem = 0; list = replicate nlist []; hash_funct = hash_funct }

  -- The nodes in the order of the iterator.
  abbrev pub entries : HashMap K V → List (K × V)
  entries m = flatten m.list

-- a `char`, which is signed, as an `unsigned long`
abbrev pub char_value : ℕ → ℕ
char_value c = if ltb c 128 then c else c + (2 ^ 64 - 256)

unfoldable pub hash_from : ℕ → List ℕ → ℕ
hash_from hash [] = hash
hash_from hash (c ∷ str) = hash_from ((hash * 32 + hash + char_value c) % 2 ^ 64) str

-- `default_hashmap_hash`, not reduced by `nlist`
unfoldable pub default_hashmap_hash : List ℕ → ℕ → ℕ
default_hashmap_hash str nlist = hash_from 5381 str

module _ {K V : Type 0} ⦃key : KeyEq K⦄ where
  -- `_hashmap_insert`
  unfoldable pub insert_node : HashMap K V → K → V → HashMap K V
  insert_node m k v = record m { list = push m.hash_funct m.list (k, v); nelem = m.nelem + 1 }

  -- the inner and the outer loop of `hashmap_expand`
  unfoldable pub move_chain : Chain K V → HashMap K V → HashMap K V
  move_chain [] new_map = new_map
  move_chain (e ∷ c) new_map = move_chain c (insert_node new_map e.0 e.1)

  unfoldable pub move_all : List (Chain K V) → HashMap K V → HashMap K V
  move_all [] new_map = new_map
  move_all (c ∷ cs) new_map = move_all cs (move_chain c new_map)

  -- `hashmap_expand`: a map of twice as many lists, into which the nodes go one by one
  unfoldable pub expand : HashMap K V → HashMap K V
  expand m = move_all m.list (init (length m.list * 2) m.hash_funct)

  -- `hashmap_insert`
  unfoldable pub insert : HashMap K V → K → V → HashMap K V
  insert m k v =
      if ltb (length m.list / 2) (m.nelem + 1)
      then insert_node (expand m) k v
      else insert_node m k v

  -- `hashmap_get_by_key`
  unfoldable pub get : HashMap K V → K → Option V
  get m k = find k (get_or m.list (slot m.hash_funct m.list k) [])

  -- `hashmap_contains`
  unfoldable pub contains : HashMap K V → K → Bool
  contains m k = has k (get_or m.list (slot m.hash_funct m.list k) [])

  -- the walk of `hashmap_remove` along the list at `i`, and the unlinking
  unfoldable pub remove_at : HashMap K V → K → ℕ → Option V × HashMap K V
  remove_at m k i =
      let chain = get_or m.list i [] in
      elim (find k chain) [
        | none ↦ (none, m)
        | some v ↦ (some v, record m { list = set m.list i (unlink k chain); nelem = m.nelem - 1 })
      ]

  -- `hashmap_remove`
  unfoldable pub remove : HashMap K V → K → Option V × HashMap K V
  unfolding remove_at
  remove m k = remove_at m k (slot m.hash_funct m.list k)

  -- a write through the pointer that `hashmap_get_by_key` returned
  unfoldable pub modify : HashMap K V → K → (V → V) → HashMap K V
  modify m k f =
      let i = slot m.hash_funct m.list k in
      record m { list = set m.list i (update k f (get_or m.list i [])) }
