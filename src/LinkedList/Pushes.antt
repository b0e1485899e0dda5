-- ===== src/LinkedList/Pushes.antt =====
-- A push on the nodes of a list is a push on the sequence.
use sol_project.Prelude.{
  ℕ, ◌+◌, ◌^◌, ◌≡◌, ◌<◌, refl, sym, ap, ◌∙◌, subst⁻¹, true, false, Option, none, some, List, [],
  ◌∷◌, ◌++◌, length, arith, eqb, weigh-append, if_true, if_false, inl, inr, Bool-cases,
  length-append,
}
use sol_project.Server.State.{done, ◌>>=◌, Ends, inc32}
use sol_project.LinkedList.{
  Node, Heap, NodeList, put, found, deref, create_node, Done, push_front_at, push_back_at,
}
use sol_project.LinkedList.Linked.{
  at_address, uses, last_of, put_here, Linked-set_next, Linked-set_prev, Linked-keep, uses-last_of,
}
use sol_project.LinkedList.Represents.{
  last_one, Represents, Linked-absent, Linked-snoc, Linked-Unsnoc, Linked-first, last_of-last_one,
  last_of-append,
}

module _ {V : Type 0} where
  pub deref-found :
      (heap : Heap V) (p : Option ℕ) (b : ℕ) (n : Node V)
      → p ≡ some b
      → heap b ≡ some n
      → deref heap p ≡ done (b, n)
  deref-found heap p b n e h = ap (deref heap) e ∙ ap (found b) h

  -- An operation that succeeds, with the value that it takes out and the nodes that it leaves.
  abbrev pub Comes : Option V → List (ℕ × V) → Done V → Type 0
  Comes value es r = (r.0 ≡ true) × (r.1 ≡ value) × Represents es r.2 r.3

  one-Represents :
      (list : NodeList) (v : V) (a : ℕ) (heap : Heap V)
      → list.nelem ≡ 0
      → Represents
          ((a, v) ∷ [])
          (record { head = some a; tail = some a; nelem = inc32 list.nelem })
          (put heap a (create_node v))
  one-Represents list v a heap e = record {
    linked = record { node = create_node v; here = put_here heap a (create_node v); held = refl };
    unique = λ b. ground arith;
    counted = omega (arith, e);
    ends = inr (refl, refl);
  }

  pub push_front_at-Comes :
      (es : List (ℕ × V)) (list : NodeList) (v : V) (a : ℕ) (heap : Heap V)
      → Represents es list heap
      → heap a ≡ none
      → length es + 1 < 2 ^ 32
      → Ends ⊥ (push_front_at list v a heap) (Comes none ((a, v) ∷ es))
  push_front_at-Comes [] list v a heap i new few =
      subst⁻¹ (λ r. Ends ⊥ r (Comes none ((a, v) ∷ [])))
        (if_true {b = eqb list.nelem 0} _ _ (ground (arith, i.counted)))
        (refl, refl, one-Represents list v a heap i.counted)
  push_front_at-Comes ((b, w) ∷ es) list v a heap i new few = elim i.ends [
    | inl x ↦ absurd cc
    | inr (head, tail) ↦
        let fresh : uses a ((b, w) ∷ es) ≡ 0 = Linked-absent heap ((b, w) ∷ es) a i.linked new in
        let apart : eqb b a ≡ false = ground (arith, fresh) in
        let old = Linked-first b w es heap i.linked in
        let node : Node V = record (create_node v) { next = list.head } in
        let heap1 : Heap V = put heap a node in
        let here1 : heap1 b ≡ some old.node = if_false {b = eqb b a} _ _ apart ∙ old.here in
        let heap2 : Heap V = put heap1 b (record old.node { prev = some a }) in
        let here2 : heap2 a ≡ some node =
          if_false {b = eqb a b} _ _ (ground (arith, apart)) ∙ put_here heap a node in
        subst⁻¹ (λ r. Ends ⊥ r (Comes none ((a, v) ∷ (b, w) ∷ es)))
          (if_false {b = eqb list.nelem 0} _ _ (ground (arith, i.counted)))
          (subst⁻¹
            (λ r.
              Ends ⊥
                (r >>= λ h. done (
                  true,
                  none,
                  record list { head = some a; nelem = inc32 list.nelem },
                  put heap1 h.0 (record h.1 { prev = some a }),
                ))
                (Comes none ((a, v) ∷ (b, w) ∷ es)))
            (deref-found heap1 list.head b old.node head here1)
            (
              refl,
              refl,
              record {
                linked = (
                  record { node = node; here = here2; held = refl },
                  record { node = node; here = here2; points = head },
                  record {
                    node = record old.node { prev = some a };
                    here = put_here heap1 b _;
                    points = refl;
                  },
                  Linked-set_prev heap1 ((b, w) ∷ es) b old.node (some a) i.unique refl here1
                      (Linked-keep heap ((b, w) ∷ es) a node fresh i.linked),
                );
                unique = λ c. elim (Bool-cases (eqb c a)) [
                  | inl e ↦
                      let z : c ≡ a = ground arith in
                      ground (arith, fresh, ap (λ d. uses d ((b, w) ∷ es)) z)
                  | inr e ↦ ground (arith, i.unique c)
                ];
                counted = omega (arith, i.counted, few);
                ends = inr (refl, tail);
              },
            ))
  ]

  pub push_back_at-Comes :
      (es : List (ℕ × V)) (list : NodeList) (v : V) (a : ℕ) (heap : Heap V)
      → Represents es list heap
      → heap a ≡ none
      → length es + 1 < 2 ^ 32
      → Ends ⊥ (push_back_at list v a heap) (Comes none (es ++ (a, v) ∷ []))
  push_back_at-Comes [] list v a heap i new few =
      subst⁻¹ (λ r. Ends ⊥ r (Comes none ((a, v) ∷ [])))
        (if_true {b = eqb list.nelem 0} _ _ (ground (arith, i.counted)))
        (refl, refl, one-Represents list v a heap i.counted)
  push_back_at-Comes (e ∷ es) list v a heap i new few = elim i.ends [
    | inl x ↦ absurd cc
    | inr (head, tail) ↦
        let fresh : uses a (e ∷ es) ≡ 0 = Linked-absent heap (e ∷ es) a i.linked new in
        let old = Linked-Unsnoc heap e es i.linked in
        let t : ℕ = (last_one e es).0 in
        let is_last : last_of (e ∷ es) ≡ some t = last_of-last_one e es in
        let apart : eqb t a ≡ false = elim (Bool-cases (eqb t a)) [
          | inl same ↦ absurd (
              let z : t ≡ a = ground arith in
              omega (arith, fresh, uses-last_of (e ∷ es) t is_last, ap (λ d. uses d (e ∷ es)) z))
          | inr other ↦ other
        ] in
        let node : Node V = record (create_node v) { prev = list.tail } in
        let heap1 : Heap V = put heap a node in
        let here1 : heap1 t ≡ some old.node = if_false {b = eqb t a} _ _ apart ∙ old.here in
        let heap2 : Heap V = put heap1 t (record old.node { next = some a }) in
        let here2 : heap2 a ≡ some node =
          if_false {b = eqb a t} _ _ (ground (arith, apart)) ∙ put_here heap a node in
        subst⁻¹ (λ r. Ends ⊥ r (Comes none ((e ∷ es) ++ (a, v) ∷ [])))
          (if_false {b = eqb list.nelem 0} _ _ (ground (arith, i.counted)))
          (subst⁻¹
            (λ r.
              Ends ⊥
                (r >>= λ h. done (
                  true,
                  none,
                  record list { tail = some a; nelem = inc32 list.nelem },
                  put heap1 h.0 (record h.1 { next = some a }),
                ))
                (Comes none ((e ∷ es) ++ (a, v) ∷ [])))
            (deref-found heap1 list.tail t old.node (tail ∙ is_last) here1)
            (
              refl,
              refl,
              record {
                linked =
                    Linked-snoc heap2 (e ∷ es) t a v is_last
                      (Linked-set_next heap1 (e ∷ es) t old.node (some a) i.unique is_last here1
                        (Linked-keep heap (e ∷ es) a node fresh i.linked))
                      (record {
                        node = record old.node { next = some a };
                        here = put_here heap1 t _;
                        points = refl;
                      })
                      (record { node = node; here = here2; points = tail ∙ is_last })
                      (record { node = node; here = here2; held = refl });
                unique = λ c. elim (Bool-cases (eqb c a)) [
                  | inl same ↦
                      let z : c ≡ a = ground arith in
                      ground (
                        arith,
                        fresh,
                        ap (λ d. uses d (e ∷ es)) z,
                        weigh-append (at_address c) (e ∷ es) ((a, v) ∷ []),
                      )
                  | inr other ↦
                      ground (arith, i.unique c, weigh-append (at_address c) (e ∷ es) ((a, v) ∷ []))
                ];
                counted = omega (arith, i.counted, few, length-append (e ∷ es) ((a, v) ∷ []));
                ends = inr (head, sym (last_of-append (e ∷ es) a v));
              },
            ))
  ]
