-- ===== src/LinkedList/Pops.antt =====
-- A pop on the nodes of a list is a pop on the sequence.
use sol_project.Prelude.{
  ℕ, ◌^◌, ◌≡◌, ◌<◌, ◌⊎◌, refl, sym, ap, ◌∙◌, subst⁻¹, true, Option, none, some, List, [], ◌∷◌,
  length, arith, eqb, if◌then◌else◌, some_eq, if_false, inl, inr,
}
use sol_project.Server.State.{done, ◌>>=◌, Ends, dec32}
use sol_project.LinkedList.{Node, Heap, NodeList, free, list_pop_front, list_pop_back}
use sol_project.LinkedList.Linked.{Linked, at_address, last_of, first_of, Linked-free, Linked-rest}
use sol_project.LinkedList.Represents.{
  last_one, but_last, weigh-but_last, length-but_last, Represents, Linked-Unsnoc, Linked-first,
  last_of-last_one,
}
use sol_project.LinkedList.Pushes.{Comes, deref-found}

module _ {V : Type 0} where
  pub list_pop_front-Comes :
      (a : ℕ) (v : V) (es : List (ℕ × V)) (list : NodeList) (heap : Heap V)
      → Represents ((a, v) ∷ es) list heap
      → length ((a, v) ∷ es) < 2 ^ 32
      → Ends ⊥ (list_pop_front list heap) (Comes (some v) es)
  unfolding list_pop_front
  list_pop_front-Comes a v es list heap i few = elim i.ends [
    | inl x ↦ absurd cc
    | inr (head, tail) ↦
        let old = Linked-first a v es heap i.linked in
        subst⁻¹ (λ r. Ends ⊥ r (Comes (some v) es))
          (if_false {b = eqb list.nelem 0} _ _ (ground (arith, i.counted)))
          (subst⁻¹
            (λ r.
              Ends ⊥
                (r >>= λ h. done (
                  true,
                  some h.1.value,
                  record {
                    head = h.1.next;
                    tail = if eqb (dec32 list.nelem) 0 then none else list.tail;
                    nelem = dec32 list.nelem;
                  },
                  free heap h.0,
                ))
                (Comes (some v) es))
            (deref-found heap list.head a old.node head old.here)
            (
              refl,
              ap some old.held,
              record {
                linked =
                    Linked-free heap es a (ground (arith, i.unique a))
                      (Linked-rest heap (a, v) es i.linked);
                unique = λ c. omega (arith, i.unique c);
                counted = omega (arith, i.counted, few);
                ends =
                    after es old.node.next (next_of es old.node old.here i.linked) tail i.counted
                      few;
              },
            ))
  ]
    where
      -- the `next` of the first node
      next_of :
          (es : List (ℕ × V)) (k : Node V)
          → heap a ≡ some k
          → Linked heap ((a, v) ∷ es)
          → (es ≡ []) ⊎ (k.next ≡ first_of es)
      next_of [] k here l = inl refl
      next_of (f ∷ es) k here (h, n, p, l) =
          inr (ap (λ (m : Node V). m.next) (some_eq (sym here ∙ n.here)) ∙ n.points)

      after :
          (es : List (ℕ × V)) (x : Option ℕ)
          → (es ≡ []) ⊎ (x ≡ first_of es)
          → list.tail ≡ last_of ((a, v) ∷ es)
          → list.nelem ≡ length ((a, v) ∷ es)
          → length ((a, v) ∷ es) < 2 ^ 32
          → (es ≡ [])
            ⊎ ((x ≡ first_of es)
                × ((if eqb (dec32 list.nelem) 0 then none else list.tail) ≡ last_of es))
      after es x (inl e) t c s = inl e
      after [] x (inr e) t c s = inl refl
      after (f ∷ es) x (inr e) t c s =
          inr (e, if_false {b = eqb (dec32 list.nelem) 0} _ _ (ground (arith, c, s)) ∙ t)

  pub list_pop_back-Comes :
      (e : ℕ × V) (es : List (ℕ × V)) (list : NodeList) (heap : Heap V)
      → Represents (e ∷ es) list heap
      → length (e ∷ es) < 2 ^ 32
      → Ends ⊥ (list_pop_back list heap) (Comes (some (last_one e es).1) (but_last e es))
  unfolding list_pop_back
  list_pop_back-Comes e es list heap i few = elim i.ends [
    | inl x ↦ absurd cc
    | inr (head, tail) ↦
        let old = Linked-Unsnoc heap e es i.linked in
        let t : ℕ = (last_one e es).0 in
        subst⁻¹ (λ r. Ends ⊥ r (Comes (some (last_one e es).1) (but_last e es)))
          (if_false {b = eqb list.nelem 0} _ _ (ground (arith, i.counted)))
          (subst⁻¹
            (λ r.
              Ends ⊥
                (r >>= λ h. done (
                  true,
                  some h.1.value,
                  record {
                    head = if eqb (dec32 list.nelem) 0 then none else list.head;
                    tail = h.1.prev;
                    nelem = dec32 list.nelem;
                  },
                  free heap h.0,
                ))
                (Comes (some (last_one e es).1) (but_last e es)))
            (deref-found heap list.tail t old.node (tail ∙ last_of-last_one e es) old.here)
            (
              refl,
              ap some old.held,
              record {
                linked =
                    Linked-free heap (but_last e es) t
                      (ground (arith, i.unique t, weigh-but_last (at_address t) e es)) old.linked;
                unique = λ c. omega (arith, i.unique c, weigh-but_last (at_address c) e es);
                counted = omega (arith, i.counted, few, length-but_last e es);
                ends = after es old.before head i.counted few;
              },
            ))
  ]
    where
      after :
          (es : List (ℕ × V)) {x : Option ℕ}
          → (es ≡ []) ⊎ (x ≡ last_of (but_last e es))
          → list.head ≡ first_of (e ∷ es)
          → list.nelem ≡ length (e ∷ es)
          → length (e ∷ es) < 2 ^ 32
          → (but_last e es ≡ [])
            ⊎ (((if eqb (dec32 list.nelem) 0 then none else list.head) ≡ first_of (but_last e es))
                × (x ≡ last_of (but_last e es)))
      after [] x h c s = inl refl
      after (f ∷ es) (inl b) h c s = absurd cc
      after (f ∷ es) (inr b) h c s =
          inr (if_false {b = eqb (dec32 list.nelem) 0} _ _ (ground (arith, c, s)) ∙ h, b)
