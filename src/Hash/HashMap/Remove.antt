-- ===== src/Hash/HashMap/Remove.antt =====
-- Removal, and writes through the pointer that a lookup returns.
use sol_project.Prelude.{
  ℕ, ◌+◌, ◌-◌, ◌≤◌, ◌≡◌, refl, ap, ◌∙◌, false, none, some, [], flatten, arith, KeyEq, ◌==◌,
  if◌then◌else◌, weigh, weigh-flatten-set, length-set, set, set-get_or,
}
use sol_project.Hash.Chain.{
  Chain, find, keyed, unlink, update, find-unlink, weigh-unlink, find-update, weigh-update,
  update_same,
}
use sol_project.Hash.Buckets.{slot, slot-lt}
use sol_project.Hash.Buckets.Placed.{home, set-IsPlaced, find-flatten-set}
use sol_project.Hash.HashMap.{HashMap, entries, get, remove_at, remove, modify}
use sol_project.Hash.HashMap.Growth.{IsValid, get-entries}

module _ {K V : Type 0} ⦃key : KeyEq K⦄ where
  -- The nodes of the list that `k` hashes to are nodes of the map.
  weigh-home :
      (m : HashMap K V) (k : K) (w : K × V → ℕ) (c : Chain K V)
      → IsValid m
      → weigh w (flatten (set m.list (slot m.hash_funct m.list k) c))
          + weigh w (home m.hash_funct m.list k)
        ≡ weigh w (entries m) + weigh w c
  weigh-home m k w c v =
      weigh-flatten-set w m.list (slot m.hash_funct m.list k) c
        (slot-lt m.hash_funct m.list k v.roomy)

  home_unique :
      (m : HashMap K V) (k q : K) → IsValid m → weigh (keyed q) (home m.hash_funct m.list k) ≤ 1
  home_unique m k q v = omega (arith, weigh-home m k (keyed q) [] v, v.unique q)

  -- The map with the list that `k` hashes to replaced, and the count set.
  abbrev rehome : HashMap K V → K → Chain K V → ℕ → HashMap K V
  rehome m k c n = record m { list = set m.list (slot m.hash_funct m.list k) c; nelem = n }

  module _ (m : HashMap K V) (k : K) (c : Chain K V) (n : ℕ) (v : IsValid m)
      (light : (q : K) → weigh (keyed q) c ≤ weigh (keyed q) (home m.hash_funct m.list k))
      (count : n + weigh (λ _. 1) (home m.hash_funct m.list k) ≡ m.nelem + weigh (λ _. 1) c) where
    rehome_unique : (q : K) → weigh (keyed q) (entries (rehome m k c n)) ≤ 1
    rehome_unique q = omega (arith, weigh-home m k (keyed q) c v, light q, v.unique q)

    rehome-IsValid : IsValid (rehome m k c n)
    rehome-IsValid = record {
      roomy = rw length-set v.roomy;
      placed = set-IsPlaced m.hash_funct m.list k c v.roomy v.placed (λ q _. light q);
      unique = rehome_unique;
      counted = omega (arith, weigh-home m k (λ _. 1) c v, v.counted);
    }

    rehome-get :
        ((q : K) → (q == k) ≡ false → find q c ≡ find q (home m.hash_funct m.list k))
        → (q : K) → get (rehome m k c n) q ≡ (if q == k then find q c else get m q)
    rehome-get other q = ground (
      arith,
      get-entries (rehome m k c n) q rehome-IsValid,
      get-entries m q v,
      find-flatten-set m.hash_funct m.list k q c v.roomy v.placed rehome-IsValid.placed (other q),
    )

  -- `m'` is `m` without the element `k`, `v`.
  pub record Taken (m : HashMap K V) (k : K) (v : V) (m' : HashMap K V) : Type 0 where
    pub hashed : m'.hash_funct ≡ m.hash_funct
    pub valid : IsValid m'
    pub weighs : (w : K × V → ℕ) → weigh w (entries m') + w (k, v) ≡ weigh w (entries m)
    pub finds : (q : K) → get m' q ≡ (if q == k then none else get m q)

  -- Removing a key that is in a valid map returns its data and leaves a valid map in which the key
  -- finds nothing and every other key what it found before.
  pub remove-Taken :
      (m : HashMap K V) (k : K) (v : V)
      → IsValid m
      → get m k ≡ some v
      → ((remove m k).0 ≡ some v) × Taken m k v (remove m k).1
  unfolding remove get
  remove-Taken m k v i e =
      rw (e, remove, remove_at)
        (
          refl,
          record {
            hashed = refl;
            valid = rehome-IsValid m k c _ i light count;
            weighs = λ w. omega (arith, weigh-home m k w c i, weigh-unlink k w old v e);
            finds = λ q.
                rehome-get m k c _ i light count (λ x f. ground (arith, gone x)) q
                ∙ ground (arith, gone q, gone k, key.same_iff q k);
          },
        )
    where
      old : Chain K V
      old = home m.hash_funct m.list k

      c : Chain K V
      c = unlink k old

      light : (q : K) → weigh (keyed q) c ≤ weigh (keyed q) old
      light q = omega (arith, weigh-unlink k (keyed q) old v e)

      count : m.nelem - 1 + weigh (λ _. 1) old ≡ m.nelem + weigh (λ _. 1) c
      count = omega (arith, weigh-unlink k (λ _. 1) old v e, weigh-home m k (λ _. 1) c i, i.counted)

      gone : (q : K) → find q c ≡ (if q == k then none else find q old)
      gone q = find-unlink k q old (home_unique m k k i)

  -- Removing a key that is not there changes nothing.
  pub remove_absent : (m : HashMap K V) (k : K) → get m k ≡ none → remove m k ≡ (none, m)
  unfolding remove get
  remove_absent m k e = rw (e, remove, remove_at)

  -- `m'` is `m` with the data of `k` changed from `v` to `x`.
  pub record Changed (m : HashMap K V) (k : K) (v x : V) (m' : HashMap K V) : Type 0 where
    pub valid : IsValid m'
    pub weighs : (w : K × V → ℕ) → weigh w (entries m') + w (k, v) ≡ weigh w (entries m) + w (k, x)
    pub finds : (q : K) → get m' q ≡ (if q == k then some x else get m q)

  pub modify-Changed :
      (m : HashMap K V) (k : K) (f : V → V) (v : V)
      → IsValid m
      → get m k ≡ some v
      → Changed m k v (f v) (modify m k f)
  unfolding modify get
  modify-Changed m k f v i e = record {
    valid = rehome-IsValid m k c m.nelem i light count;
    weighs = λ w. omega (arith, weigh-home m k w c i, weigh-update k f w old v e);
    finds = λ q.
        rehome-get m k c m.nelem i light count (λ x g. ground (arith, written x)) q
        ∙ ground (arith, written q);
  }
    where
      old : Chain K V
      old = home m.hash_funct m.list k

      c : Chain K V
      c = update k f old

      light : (q : K) → weigh (keyed q) c ≤ weigh (keyed q) old
      light q = omega (arith, weigh-update k f (keyed q) old v e)

      count : m.nelem + weigh (λ _. 1) old ≡ m.nelem + weigh (λ _. 1) c
      count = omega (arith, weigh-update k f (λ _. 1) old v e)

      written : (q : K) → find q c ≡ (if q == k then some (f v) else find q old)
      written q = find-update k q f old v e

  -- Writing back the data that is there changes nothing.
  pub modify_same :
      (m : HashMap K V) (k : K) (f : V → V) (v : V) → get m k ≡ some v → f v ≡ v → modify m k f ≡ m
  unfolding modify get
  modify_same m k f v e g =
      ap (λ l. record m { list = l })
        (ap (set m.list (slot m.hash_funct m.list k))
            (update_same k f (home m.hash_funct m.list k) v e g)
          ∙ set-get_or m.list (slot m.hash_funct m.list k) [])
