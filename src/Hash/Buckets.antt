-- ===== src/Hash/Buckets.antt =====
-- The array of lists behind both containers of src/util/hash: where a key's node stands, what a
-- write to one list does to the whole.
pub mod Placed
pub mod Moves
use sol_project.Prelude.{
  ℕ, zero, suc, ◌+◌, ◌%◌, ◌≤◌, ◌<◌, ◌≡◌, ◌≢◌, refl, sym, ap, ◌∙◌, subst, Bool, true, false, Option,
  none, some, List, [], ◌∷◌, ◌++◌, flatten, length, arith, KeyEq, ◌==◌, same_refl, if◌then◌else◌,
  weigh, weigh-append, weigh-flatten-set, get_or, set, length-set, get_or-set_self, get_or-set_ne,
  Bool-cases, eqb, inl, inr,
}
use sol_project.Hash.Chain.{Chain, or_else, find, keyed, find_absent, weigh_absent, find-append}

module _ {K V : Type 0} ⦃key : KeyEq K⦄ (hash : K → ℕ → ℕ) where
  -- `hash_funct(key, nlist) % nlist`
  abbrev pub slot : List (Chain K V) → K → ℕ
  slot bs k = hash k (length bs) % length bs

  -- `list_push_back(list[hash], key, data)`
  unfoldable pub push : List (Chain K V) → K × V → List (Chain K V)
  push bs e = set bs (slot bs e.0) (get_or bs (slot bs e.0) [] ++ e ∷ [])

  -- Every node stands in the list that its key hashes to.
  abbrev pub IsPlaced : List (Chain K V) → Type 0
  IsPlaced bs = (q : K) (i : ℕ) → i ≢ slot bs q → weigh (keyed q) (get_or bs i []) ≡ 0

  pub slot-lt : (bs : List (Chain K V)) (k : K) → 0 < length bs → slot bs k < length bs
  slot-lt bs k h = omega arith
