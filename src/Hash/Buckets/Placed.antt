-- ===== src/Hash/Buckets/Placed.antt =====
-- Where the nodes of the array of lists stand, and what a write to one list does.
use sol_project.Prelude.{
  ℕ, zero, suc, ◌%◌, ◌≤◌, ◌<◌, ◌≡◌, ◌≢◌, refl, sym, ap, ◌∙◌, subst, false, List, [], ◌∷◌, flatten,
  length, arith, KeyEq, ◌==◌, if◌then◌else◌, weigh, weigh-append, get_or, set, length-set,
  get_or-set_self, get_or-set_ne, inl, inr, eqb, Bool-cases, eqb_iff,
}
use sol_project.Hash.Chain.{Chain, find, keyed, find_absent, find-append}
use sol_project.Hash.Buckets.{slot, IsPlaced, slot-lt}

module _ {K V : Type 0} ⦃key : KeyEq K⦄ where
  weigh-flatten_nowhere :
      (q : K) (bs : List (Chain K V))
      → ((i : ℕ) → weigh (keyed q) (get_or bs i []) ≡ 0)
      → weigh (keyed q) (flatten bs) ≡ 0
  unfolding flatten
  weigh-flatten_nowhere q [] h = refl
  weigh-flatten_nowhere q (c ∷ cs) h = omega (
    arith,
    weigh-append (keyed q) c (flatten cs),
    h 0,
    weigh-flatten_nowhere q cs (λ i. h (suc i)),
  )

  -- A key whose nodes stand in one list only is found by that list.
  find-flatten_one :
      (q : K) (bs : List (Chain K V)) (j : ℕ)
      → ((i : ℕ) → i ≢ j → weigh (keyed q) (get_or bs i []) ≡ 0)
      → find q (flatten bs) ≡ find q (get_or bs j [])
  unfolding flatten find
  find-flatten_one q [] j h = refl
  find-flatten_one q (c ∷ cs) zero h =
      let rest = weigh-flatten_nowhere q cs (λ i. h (suc i) (omega arith)) in
      ground (arith, find-append q c (flatten cs), find_absent q (flatten cs) rest)
  find-flatten_one q (c ∷ cs) (suc j) h = ground (
    arith,
    find-append q c (flatten cs),
    find_absent q c (h 0 (omega arith)),
    find-flatten_one q cs j (λ i n. h (suc i) (omega arith)),
  )

module _ {K V : Type 0} ⦃key : KeyEq K⦄ (hash : K → ℕ → ℕ) where
  abbrev pub home : List (Chain K V) → K → Chain K V
  home bs q = get_or bs (slot hash bs q) []

  pub find-flatten :
      (bs : List (Chain K V)) (q : K) → IsPlaced hash bs → find q (flatten bs) ≡ find q (home bs q)
  find-flatten bs q p = find-flatten_one q bs (slot hash bs q) (p q)

  -- A write to the home list of `k` that adds no node of another key keeps all nodes in place.
  pub set-IsPlaced :
      (bs : List (Chain K V)) (k : K) (c : Chain K V)
      → 0 < length bs
      → IsPlaced hash bs
      → ((q : K) → (q == k) ≡ false → weigh (keyed q) c ≤ weigh (keyed q) (home bs k))
      → IsPlaced hash (set bs (slot hash bs k) c)
  set-IsPlaced bs k c pos p keep q i n = elim (Bool-cases (eqb (slot hash bs k) i)) [
    | inr away ↦
        rw (get_or-set_ne bs (slot hash bs k) i c [] (ground (arith, eqb_iff (slot hash bs k) i)))
          (p q i n')
    | inl at ↦
        let e : slot hash bs k ≡ i = (eqb_iff _ _).0 at in
        let other : (q == k) ≡ false = other_key e in
        subst (λ j. weigh (keyed q) (get_or (set bs (slot hash bs k) c) j []) ≡ 0) e
          (rw (get_or-set_self bs (slot hash bs k) c [] (slot-lt hash bs k pos))
            (omega (arith, keep q other, p q (slot hash bs k) (λ f. n' (sym e ∙ f)))))
  ]
    where
      n' : i ≢ slot hash bs q
      n' = subst (λ m. i ≢ hash q m % m) (length-set bs (slot hash bs k) c) n

      other_key : slot hash bs k ≡ i → (q == k) ≡ false
      other_key e = elim (Bool-cases (q == k)) [
        | inr f ↦ f
        | inl t ↦ absurd (n' (sym e ∙ ap (slot hash bs) (sym ((key.same_iff q k).0 t))))
      ]

  home-set_self :
      (bs : List (Chain K V)) (k : K) (c : Chain K V)
      → 0 < length bs
      → home (set bs (slot hash bs k) c) k ≡ c
  home-set_self bs k c pos =
      rw (length-set bs (slot hash bs k) c)
        (get_or-set_self bs (slot hash bs k) c [] (slot-lt hash bs k pos))

  -- The list that `q` hashes to, after the write: the new one, or what it was.
  home-set :
      (bs : List (Chain K V)) (k q : K) (c : Chain K V)
      → 0 < length bs
      → find q c ≡ find q (home bs k)
      → find q (home (set bs (slot hash bs k) c) q) ≡ find q (home bs q)
  home-set bs k q c pos same = elim (Bool-cases (eqb (slot hash bs k) (slot hash bs q))) [
    | inr away ↦ rw (
      length-set bs (slot hash bs k) c,
      get_or-set_ne bs (slot hash bs k) (slot hash bs q) c []
          (ground (arith, eqb_iff (slot hash bs k) (slot hash bs q))),
    )
    | inl at ↦
        let e : slot hash bs k ≡ slot hash bs q = (eqb_iff _ _).0 at in
        rw (length-set bs (slot hash bs k) c) (
          subst (λ j. find q (get_or (set bs (slot hash bs k) c) j []) ≡ find q (get_or bs j [])) e
            (rw (get_or-set_self bs (slot hash bs k) c [] (slot-lt hash bs k pos)) same))
  ]

  -- Looking a key up after a write to the home list of `k`.
  pub find-flatten-set :
      (bs : List (Chain K V)) (k q : K) (c : Chain K V)
      → 0 < length bs
      → IsPlaced hash bs
      → IsPlaced hash (set bs (slot hash bs k) c)
      → ((q == k) ≡ false → find q c ≡ find q (home bs k))
      → find q (flatten (set bs (slot hash bs k) c))
        ≡ (if q == k then find q c else find q (flatten bs))
  find-flatten-set bs k q c pos p p' other = elim (Bool-cases (q == k)) [
    | inl t ↦
        let e : k ≡ q = sym ((key.same_iff q k).0 t) in
        rw t (
          subst (λ x. find x (flatten (set bs (slot hash bs k) c)) ≡ find x c) e
            (find-flatten (set bs (slot hash bs k) c) k p'
              ∙ ap (find k) (home-set_self bs k c pos)))
    | inr f ↦ rw f (
        find-flatten (set bs (slot hash bs k) c) q p'
        ∙ home-set bs k q c pos (other f)
        ∙ sym (find-flatten bs q p))
  ]
