-- ===== src/Hash/HashTable.antt =====
-- src/util/hash/hashtable.c: the set of descriptors, in the manner of the map with the item as key
-- and no data. Descriptors come from `accept` and are not negative. The one difference from the
-- map is that `hashtbl_remove` does not reduce the hash modulo `nlist`, so the hash function must.
pub mod Laws
pub mod Count
use sol_project.Prelude.{
  ℕ, ◌+◌, ◌-◌, ◌*◌, ◌/◌, ◌%◌, Bool, Option, none, some, List, [], ◌∷◌, length, if◌then◌else◌, ltb,
  set, get_or, KeyEq, nat_eq, ◌==◌,
}
use sol_project.Hash.Chain.{Chain, find, has, unlink}
use sol_project.Hash.Buckets.{slot}
use sol_project.Hash.HashMap
use sol_project.Hash.HashMap.{HashMap}

abbrev pub HashTable : Type 0
HashTable = HashMap ℕ (Unit {0})

-- `default_hashtbl_hash`
unfoldable pub default_hash : ℕ → ℕ → ℕ
default_hash val nlist = val % nlist

-- `hashtbl_init`
unfoldable pub init : ℕ → (ℕ → ℕ → ℕ) → HashTable
init nlist hash_funct = HashMap.init nlist hash_funct

-- `_hashtbl_insert`
unfoldable pub insert_node : HashTable → ℕ → HashTable
insert_node t item = HashMap.insert_node t item tt

-- `hashtbl_expand`
unfoldable pub expand : HashTable → HashTable
expand t = HashMap.move_all t.list (init (length t.list * 2) t.hash_funct)

-- `hashtbl_insert`
unfoldable pub insert : HashTable → ℕ → HashTable
insert t item =
    if ltb (length t.list / 2) (t.nelem + 1)
    then insert_node (expand t) item
    else insert_node t item

-- `hashtbl_contains`
unfoldable pub contains : HashTable → ℕ → Bool
contains t item = has item (get_or t.list (slot t.hash_funct t.list item) [])

-- `hashtbl_remove`
unfoldable pub remove : HashTable → ℕ → HashTable
unfolding HashMap.remove_at
remove t item = (HashMap.remove_at t item (t.hash_funct item (length t.list))).1
