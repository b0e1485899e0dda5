-- ===== src/Hash/Iter.antt =====
-- src/util/hash.c: the iterator over the lists of a map or a table. `current_pos` is the node with
-- the nodes behind it in its list, [] for NULL. `current_list` is -1 before the first list and -2
-- after the last; a call after the end would read `list[-1]`, and is a fault here.
pub mod Laws
use sol_project.Prelude.{ℕ, zero, suc, Option, none, some, List, [], ◌∷◌, drop}
use sol_project.Hash.Chain.{Chain}
use sol_project.Hash.HashMap.{HashMap}
use sol_project.Hash.HashTable.{HashTable}

pub data ListIndex : Type 0 where
  unstarted : ListIndex
  at : ℕ → ListIndex
  ended : ListIndex

pub record HashIter (K V : Type 0) : Type 0 where
  pub current_pos : Chain K V
  pub current_list : ListIndex

-- 0 with the iterator at the next element, 1 at the end, and the fault of a call after the end.
pub data Next (K V : Type 0) : Type 0 where
  found : HashIter K V → Next K V
  finished : HashIter K V → Next K V
  out_of_bounds : Next K V

module _ {K V : Type 0} where
  -- `hash_iter_init`
  abbrev pub start : HashIter K V
  start = record { current_pos = []; current_list = unstarted }

  abbrev pub tail : Chain K V → Chain K V
  tail [] = []
  tail (e ∷ c) = c

  -- `while(current_list + 1 < nlist && current_pos == NULL)`, over the lists from index `i` on
  unfoldable pub scan : ℕ → List (Chain K V) → Next K V
  scan i [] = finished (record { current_pos = []; current_list = ended })
  scan i ([] ∷ cs) = scan (suc i) cs
  scan i ((e ∷ c) ∷ cs) = found (record { current_pos = e ∷ c; current_list = at i })

  unfoldable pub scan_from : ListIndex → List (Chain K V) → Next K V
  unfolding scan
  scan_from unstarted list = scan 0 list
  scan_from (at i) list = scan (suc i) (drop (suc i) list)
  scan_from ended list = out_of_bounds

  -- the node behind the current one, or else the first node of a later list
  unfoldable pub advance : Chain K V → ListIndex → List (Chain K V) → Next K V
  unfolding scan_from
  advance [] i list = scan_from i list
  advance (e ∷ c) i list = found (record { current_pos = e ∷ c; current_list = i })

  -- `hashmap_iter_get_next`
  unfoldable pub get_next : HashIter K V → HashMap K V → Next K V
  unfolding advance
  get_next iter m = advance (tail iter.current_pos) iter.current_list m.list

  collect : Chain K V → Option (List (K × V)) → Option (List (K × V))
  collect [] rest = none
  collect (e ∷ c) none = none
  collect (e ∷ c) (some es) = some (e ∷ es)

  -- the loop of the callers: the elements that the iterator stops at, until it returns 1
  unfoldable pub visit : ℕ → HashIter K V → HashMap K V → Option (List (K × V))
  unfolding collect
  visit zero iter m = none
  visit (suc fuel) iter m = elim (get_next iter m) [
    | found next ↦ collect next.current_pos (visit fuel next m)
    | finished next ↦ some []
    | out_of_bounds ↦ none
  ]

-- `hashtbl_iter_get_next`
unfoldable pub table_get_next : HashIter ℕ (Unit {0}) → HashTable → Next ℕ (Unit {0})
table_get_next iter t = advance (tail iter.current_pos) iter.current_list t.list
