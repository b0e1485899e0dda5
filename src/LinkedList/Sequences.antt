-- ===== src/LinkedList/Sequences.antt =====
-- A list on the heap through any sequence of operations, against a plain sequence.
use sol_project.Prelude.{
  ℕ, ◌+◌, ◌^◌, ◌≡◌, ◌≤◌, ◌<◌, ◌⊎◌, refl, ap, ◌∙◌, subst⁻¹, Bool, true, false, Option, none, some,
  List, [], ◌∷◌, ◌++◌, map, length, arith, eqb, if_true, inl, inr, Option-cases, length-append,
}
use sol_project.Server.State.{Outcome, done, ◌>>=◌, Ends, Ends-bind, Ends-map}
use sol_project.LinkedList.{
  Heap, NodeList, Done, empty_list, list_push_front, list_push_back, list_pop_front, list_pop_back,
}
use sol_project.LinkedList.Represents.{
  last_one, but_last, length-but_last, map-but_last, map-last_one, Represents,
}
use sol_project.LinkedList.Pushes.{Comes, push_front_at-Comes, push_back_at-Comes}
use sol_project.LinkedList.Pops.{list_pop_front-Comes, list_pop_back-Comes}

pub data Operation (V : Type 0) : Type 0 where
  pushes_front : V → Operation V
  pushes_back : V → Operation V
  pops_front : Operation V
  pops_back : Operation V

-- what an operation returns, and the value that it takes out
abbrev pub Answer : Type 0 → Type 0
Answer V = Bool × Option V

module _ {V : Type 0} where
  -- The operations of a sequence: a push may be refused, which changes nothing.
  abbrev pub Adds : List V → List V → Answer V → List V → Type 0
  Adds with_value xs answer xs' =
      ((answer ≡ (true, none)) × (xs' ≡ with_value)) ⊎ ((answer ≡ (false, none)) × (xs' ≡ xs))

  abbrev pub Allowed : Operation V → List V → Answer V → List V → Type 0
  Allowed (pushes_front v) xs answer xs' = Adds (v ∷ xs) xs answer xs'
  Allowed (pushes_back v) xs answer xs' = Adds (xs ++ v ∷ []) xs answer xs'
  Allowed pops_front [] answer xs' = (answer ≡ (false, none)) × (xs' ≡ [])
  Allowed pops_front (x ∷ xs) answer xs' = (answer ≡ (true, some x)) × (xs' ≡ xs)
  Allowed pops_back [] answer xs' = (answer ≡ (false, none)) × (xs' ≡ [])
  Allowed pops_back (x ∷ xs) answer xs' =
      (answer ≡ (true, some (last_one x xs))) × (xs' ≡ but_last x xs)

  -- A sequence of operations, with its answers.
  abbrev pub Behaves : List (Operation V) → List V → List (Answer V) → List V → Type 0
  Behaves [] xs answers xs' = (answers ≡ []) × (xs' ≡ xs)
  Behaves (op ∷ ops) xs [] xs' = ⊥
  Behaves (op ∷ ops) xs (answer ∷ answers) xs' =
      (ys : List V) × Allowed op xs answer ys × Behaves ops ys answers xs'

  abbrev pub answer_of : Done V → Answer V
  answer_of r = (r.0, r.1)

  answer_eq : (r : Done V) (b : Bool) (o : Option V) → r.0 ≡ b → r.1 ≡ o → answer_of r ≡ (b, o)
  answer_eq r b o p q = ap (λ c. (c, r.1)) p ∙ ap (λ c. (b, c)) q

  abbrev pub values : List (ℕ × V) → List V
  values es = map (λ e. e.1) es

  values-append :
      (es : List (ℕ × V)) (a : ℕ) (v : V) → values (es ++ (a, v) ∷ []) ≡ values es ++ v ∷ []
  values-append [] a v = refl
  values-append (e ∷ es) a v = ap (◌∷◌ e.1) (values-append es a v)

  module _ (malloc : Heap V → Option ℕ) where
    abbrev pub run_one : Operation V → NodeList → Heap V → Outcome (Done V)
    run_one (pushes_front v) list heap = list_push_front list v (malloc heap) heap
    run_one (pushes_back v) list heap = list_push_back list v (malloc heap) heap
    run_one pops_front list heap = list_pop_front list heap
    run_one pops_back list heap = list_pop_back list heap

    unfoldable pub run_all :
        List (Operation V) → NodeList → Heap V → Outcome (List (Answer V) × NodeList × Heap V)
    run_all [] list heap = done ([], list, heap)
    run_all (op ∷ ops) list heap = run_one op list heap >>= λ r.
        run_all ops r.2 r.3 >>= λ rest. done ((r.0, r.1) ∷ rest.0, rest.1, rest.2)

    -- one operation, on a list of the nodes `es`
    abbrev pub Answers : Operation V → List (ℕ × V) → Done V → Type 0
    Answers op es r =
        (es' : List (ℕ × V)) × Represents es' r.2 r.3
        × (length es' ≤ length es + 1)
        × Allowed op (values es) (answer_of r) (values es')

    module _ (fresh : (heap : Heap V) (a : ℕ) → malloc heap ≡ some a → heap a ≡ none) where
      run_one-Answers :
          (op : Operation V) (es : List (ℕ × V)) (list : NodeList) (heap : Heap V)
          → Represents es list heap
          → length es + 1 < 2 ^ 32
          → Ends ⊥ (run_one op list heap) (Answers op es)
      unfolding list_push_front list_push_back list_pop_front list_pop_back
      run_one-Answers (pushes_front v) es list heap i few = elim (Option-cases (malloc heap)) [
        | inl e ↦ rw e (es, i, omega arith, inr (refl, refl))
        | inr (a, e) ↦ rw e (
            Ends-map ⊥ (Comes none ((a, v) ∷ es)) (Answers (pushes_front v) es) _
              (λ r h. ((a, v) ∷ es, h.2, omega arith, inl (answer_eq r true none h.0 h.1, refl)))
              (push_front_at-Comes es list v a heap i (fresh heap a e) few))
      ]
      run_one-Answers (pushes_back v) es list heap i few = elim (Option-cases (malloc heap)) [
        | inl e ↦ rw e (es, i, omega arith, inr (refl, refl))
        | inr (a, e) ↦ rw e (
            Ends-map ⊥ (Comes none (es ++ (a, v) ∷ [])) (Answers (pushes_back v) es) _
              (λ r h. (
                es ++ (a, v) ∷ [],
                h.2,
                omega (arith, length-append es ((a, v) ∷ [])),
                inl (answer_eq r true none h.0 h.1, values-append es a v),
              ))
              (push_back_at-Comes es list v a heap i (fresh heap a e) few))
      ]
      run_one-Answers pops_front [] list heap i few =
          subst⁻¹ (λ r. Ends ⊥ r (Answers pops_front []))
            (if_true {b = eqb list.nelem 0} _ _ (ground (arith, i.counted)))
            ([], i, omega arith, (refl, refl))
      run_one-Answers pops_front ((a, v) ∷ es) list heap i few =
          Ends-map ⊥ (Comes (some v) es) (Answers pops_front ((a, v) ∷ es)) _
            (λ r h. (es, h.2, omega arith, (answer_eq r true (some v) h.0 h.1, refl)))
            (list_pop_front-Comes a v es list heap i (omega (arith, few)))
      run_one-Answers pops_back [] list heap i few =
          subst⁻¹ (λ r. Ends ⊥ r (Answers pops_back []))
            (if_true {b = eqb list.nelem 0} _ _ (ground (arith, i.counted)))
            ([], i, omega arith, (refl, refl))
      run_one-Answers pops_back (e ∷ es) list heap i few =
          Ends-map ⊥ (Comes (some (last_one e es).1) (but_last e es)) (Answers pops_back (e ∷ es)) _
            (λ r h. (
              but_last e es,
              h.2,
              omega (arith, length-but_last e es),
              (
                answer_eq r true _ h.0 (h.1 ∙ ap some (map-last_one (λ (x : ℕ × V). x.1) e es)),
                map-but_last (λ (x : ℕ × V). x.1) e es,
              ),
            ))
            (list_pop_back-Comes e es list heap i (omega (arith, few)))

      run_all-Behaves :
          (ops : List (Operation V)) (es : List (ℕ × V)) (list : NodeList) (heap : Heap V)
          → Represents es list heap
          → length es + length ops < 2 ^ 32
          → Ends ⊥ (run_all ops list heap) (λ r.
            (es' : List (ℕ × V)) × Represents es' r.1 r.2
            × Behaves ops (values es) r.0 (values es'))
      unfolding run_all
      run_all-Behaves [] es list heap i few = (es, i, (refl, refl))
      run_all-Behaves (op ∷ ops) es list heap i few =
          Ends-bind ⊥ (Answers op es) _ (run_one op list heap) _
            (run_one-Answers op es list heap i (omega (arith, few)))
            λ r _ (es1, i1, short, allowed).
              Ends-bind ⊥ _ _ (run_all ops r.2 r.3) _
                (run_all-Behaves ops es1 r.2 r.3 i1 (omega (arith, few, short)))
                λ rest _ (es2, i2, behaves). (es2, i2, (values es1, allowed, behaves))

      empty_list-Represents : (heap : Heap V) → Represents [] empty_list heap
      unfolding empty_list
      empty_list-Represents heap = record {
        linked = tt;
        unique = λ a. omega arith;
        counted = refl;
        ends = inl refl;
      }

      -- From an empty list on, any sequence of fewer than 2 ^ 32 pushes and pops at both ends,
      -- with a malloc that returns NULL or an address that is not in use: no operation touches a
      -- node that is not there, and their results and the values they take out are those of a
      -- plain sequence, where a push that returns -1 changes nothing; and in the end the nodes are
      -- linked in both directions, in the order of that sequence.
      pub run_all-empty_list :
          (ops : List (Operation V)) (heap : Heap V)
          → length ops < 2 ^ 32
          → Ends ⊥
              (run_all ops empty_list heap)
              (λ r. (es : List (ℕ × V)) × Represents es r.1 r.2 × Behaves ops [] r.0 (values es))
      run_all-empty_list ops heap few =
          run_all-Behaves ops [] empty_list heap (empty_list-Represents heap) (omega (arith, few))
