-- ===== src/Hash/HashMap/Insert.antt =====
-- Insertion: the new element and the old ones are found, before and after an expansion.
use sol_project.Prelude.{
  ℕ, ◌+◌, ◌/◌, ◌≡◌, sym, ap, ◌∙◌, none, some, [], ◌∷◌, length, arith, KeyEq, ◌==◌, if◌then◌else◌,
  ltb, weigh, inl, inr, Bool-cases,
}
use sol_project.Hash.Chain.{find, keyed, weigh_absent}
use sol_project.Hash.HashMap.{HashMap, entries, insert_node, expand, insert, get}
use sol_project.Hash.HashMap.Growth.{
  IsValid, Grown, insert_node-Grown, Grown-roomy, Same, expand-Same, get-entries,
}

module _ {K V : Type 0} ⦃key : KeyEq K⦄ where
  -- `m'` is `m` with the new element `k`, `v`.
  pub record Added (m : HashMap K V) (k : K) (v : V) (m' : HashMap K V) : Type 0 where
    pub valid : IsValid m'
    pub hashed : m'.hash_funct ≡ m.hash_funct
    pub weighs : (w : K × V → ℕ) → weigh w (entries m') ≡ weigh w (entries m) + w (k, v)
    pub finds : (q : K) → get m' q ≡ (if q == k then some v else get m q)

  insert_node-Added :
      (m : HashMap K V) (k : K) (v : V)
      → IsValid m
      → get m k ≡ none
      → Added m k v (insert_node m k v)
  unfolding find
  insert_node-Added m k v i absent = record {
    valid = valid';
    hashed = g.hashed;
    weighs = heavy;
    finds = λ q. ground (
      arith,
      get-entries m q i,
      get-entries m' q valid',
      g.moved.finds q,
      key.same_iff q k,
      ap (get m) {x = q} {y = k},
    );
  }
    where
      m' : HashMap K V
      m' = insert_node m k v

      g : Grown ((k, v) ∷ []) m m'
      g = insert_node-Grown m k v i.roomy i.placed

      heavy : (w : K × V → ℕ) → weigh w (entries m') ≡ weigh w (entries m) + w (k, v)
      heavy w = omega (arith, g.moved.weighs w)

      none_yet : weigh (keyed k) (entries m) ≡ 0
      none_yet = weigh_absent k (entries m) (sym (get-entries m k i) ∙ absent)

      valid' : IsValid m'
      valid' = record {
        roomy = (Grown-roomy _ m m' g i.roomy).0;
        placed = (Grown-roomy _ m m' g i.roomy).1;
        unique = λ q. ground (
          arith,
          heavy (keyed q),
          i.unique q,
          none_yet,
          key.same_iff q k,
          ap (λ (x : K). weigh (keyed {V = V} x) (entries m)) {x = q} {y = k},
        );
        counted = omega (arith, g.longer, heavy (λ _. 1), i.counted);
      }

  -- An insertion under a new key, with or without doubling the array, leaves a valid map in which
  -- the key finds its data, every other key finds what it found before, and every sum over the
  -- elements grows by that of the new one.
  pub insert-Added :
      (m : HashMap K V) (k : K) (v : V) → IsValid m → get m k ≡ none → Added m k v (insert m k v)
  unfolding insert
  insert-Added m k v i absent = elim (Bool-cases (ltb (length m.list / 2) (m.nelem + 1))) [
    | inr small ↦ rw small (insert_node-Added m k v i absent)
    | inl full ↦ rw full (record {
      valid = a.valid;
      hashed = a.hashed ∙ s.hashed;
      weighs = λ w. omega (arith, a.weighs w, s.weighs w);
      finds = λ q. ground (arith, a.finds q, unmoved q);
    })
  ]
    where
      s : Same m (expand m)
      s = expand-Same m i

      unmoved : (q : K) → get (expand m) q ≡ get m q
      unmoved q = get-entries (expand m) q s.valid ∙ s.finds q ∙ sym (get-entries m q i)

      a : Added (expand m) k v (insert_node (expand m) k v)
      a = insert_node-Added (expand m) k v s.valid (unmoved k ∙ absent)
