-- ===== src/Tests/LinkedList.antt =====
-- An instance of the theorem about linked lists, on a heap with one place.
use sol_project.Prelude.{
  ℕ, ◌≡◌, ap, sym, ◌∙◌, Option, none, some, List, [], ◌∷◌, arith, inl, inr, Option-cases,
}
use sol_project.Server.State.{Ends}
use sol_project.LinkedList.{Heap, Node, empty_list}
use sol_project.LinkedList.Represents.{Represents}
use sol_project.LinkedList.Sequences.{
  pushes_back, pops_back, Behaves, values, run_all, run_all-empty_list, Operation,
}

abbrev when_free : Option (Node ℕ) → Option ℕ
when_free none = some 0
when_free (some node) = none

abbrev one_place : Heap ℕ → Option ℕ
one_place heap = when_free (heap 0)

one_place-free : (heap : Heap ℕ) (a : ℕ) → one_place heap ≡ some a → heap a ≡ none
one_place-free heap a e = elim (Option-cases (heap 0)) [
  | inl free ↦
      let z : some 0 ≡ some a = ap when_free (sym free) ∙ e in
      let y : 0 ≡ a = cc in ap heap (sym y) ∙ free
  | inr (node, used) ↦ absurd (let z : none ≡ some a = ap when_free (sym used) ∙ e in cc)
]

abbrev in_and_out : List (Operation ℕ)
in_and_out = pushes_back 5 ∷ pops_back ∷ pushes_back 6 ∷ []

run_all-empty_list_example :
    Ends ⊥
      (run_all one_place in_and_out empty_list (λ a. none))
      (λ r. (es : List (ℕ × ℕ)) × Represents es r.1 r.2 × Behaves in_and_out [] r.0 (values es))
run_all-empty_list_example =
    run_all-empty_list one_place one_place-free in_and_out (λ a. none) (omega arith)
