-- ===== src/LinkedList/Linked.antt =====
-- Nodes that are linked in both directions, and how the links survive writes to the heap.
use sol_project.Prelude.{
  ℕ, ◌≡◌, ◌≤◌, ◌<◌, refl, sym, ap, ◌∙◌, false, Option, none, some, List, [], ◌∷◌, arith, eqb, weigh,
  some_eq, if_true, if_false, inl, inr, Bool-cases,
}
use sol_project.Hash.Chain.{to_nat}
use sol_project.LinkedList.{Node, Heap, put, free}

module _ {V : Type 0} where
  -- the address with the value
  pub record Holds (heap : Heap V) (a : ℕ) (v : V) : Type 0 where
    pub node : Node V
    pub here : heap a ≡ some node
    pub held : node.value ≡ v

  pub record Next (heap : Heap V) (a b : ℕ) : Type 0 where
    pub node : Node V
    pub here : heap a ≡ some node
    pub points : node.next ≡ some b

  pub record Prev (heap : Heap V) (a b : ℕ) : Type 0 where
    pub node : Node V
    pub here : heap a ≡ some node
    pub points : node.prev ≡ some b

  -- The nodes of a list, by their addresses and values: each but the last has the next one in its
  -- `next`, and each but the first the one before in its `prev`.
  abbrev pub Linked : Heap V → List (ℕ × V) → Type 0
  Linked heap [] = Unit {0}
  Linked heap ((a, v) ∷ []) = Holds heap a v
  Linked heap ((a, v) ∷ (b, w) ∷ es) =
      Holds heap a v × Next heap a b × Prev heap b a × Linked heap ((b, w) ∷ es)

  -- how often an address occurs
  abbrev pub at_address : ℕ → ℕ × V → ℕ
  at_address a e = to_nat (eqb a e.0)

  abbrev pub uses : ℕ → List (ℕ × V) → ℕ
  uses a es = weigh (at_address a) es

  -- A heap that agrees on the addresses of the nodes has them linked too.
  pub Linked-frame :
      (heap heap' : Heap V) (es : List (ℕ × V))
      → ((a : ℕ) → 0 < uses a es → heap' a ≡ heap a)
      → Linked heap es
      → Linked heap' es
  Linked-frame heap heap' [] same l = tt
  Linked-frame heap heap' ((a, v) ∷ []) same l = record {
    node = l.node;
    here = same a (ground arith) ∙ l.here;
    held = l.held;
  }
  Linked-frame heap heap' ((a, v) ∷ (b, w) ∷ es) same (h, n, p, l) = (
    record { node = h.node; here = same a (ground arith) ∙ h.here; held = h.held },
    record { node = n.node; here = same a (ground arith) ∙ n.here; points = n.points },
    record { node = p.node; here = same b (ground arith) ∙ p.here; points = p.points },
    Linked-frame heap heap' ((b, w) ∷ es) (λ c u. same c (omega (arith, u))) l,
  )

  -- The address of the last node.
  abbrev pub last_of : List (ℕ × V) → Option ℕ
  last_of [] = none
  last_of ((a, v) ∷ []) = some a
  last_of ((a, v) ∷ e ∷ es) = last_of (e ∷ es)

  abbrev pub first_of : List (ℕ × V) → Option ℕ
  first_of [] = none
  first_of ((a, v) ∷ es) = some a

  pub put_here : (heap : Heap V) (a : ℕ) (n : Node V) → put heap a n a ≡ some n
  put_here heap a n = if_true {b = eqb a a} _ _ (ground arith)

  pub put_there : (heap : Heap V) (a b : ℕ) (n : Node V) → eqb b a ≡ false → put heap a n b ≡ heap b
  put_there heap a b n e = if_false _ _ e

  pub uses-last_of : (es : List (ℕ × V)) (t : ℕ) → last_of es ≡ some t → 0 < uses t es
  uses-last_of [] t e = absurd cc
  uses-last_of ((a, v) ∷ []) t e = let z : a ≡ t = cc in ground arith
  uses-last_of ((a, v) ∷ f ∷ es) t e = omega (arith, uses-last_of (f ∷ es) t e)

  -- What a heap with one node changed knows of a node, if the change keeps it.
  Holds-put :
      (heap : Heap V) (t a : ℕ) (n m : Node V) (v : V)
      → heap t ≡ some n
      → m.value ≡ n.value
      → Holds heap a v
      → Holds (put heap t m) a v
  Holds-put heap t a n m v h same l = elim (Bool-cases (eqb a t)) [
    | inl e ↦
        let z : a ≡ t = ground arith in
        let z' : l.node ≡ n = some_eq (sym l.here ∙ ap heap z ∙ h) in
        record {
          node = m;
          here = if_true _ _ e;
          held = same ∙ ap (λ (k : Node V). k.value) (sym z') ∙ l.held;
        }
    | inr e ↦ record { node = l.node; here = if_false _ _ e ∙ l.here; held = l.held }
  ]

  Next-put :
      (heap : Heap V) (t a b : ℕ) (n m : Node V)
      → heap t ≡ some n
      → m.next ≡ n.next
      → Next heap a b
      → Next (put heap t m) a b
  Next-put heap t a b n m h same l = elim (Bool-cases (eqb a t)) [
    | inl e ↦
        let z : a ≡ t = ground arith in
        let z' : l.node ≡ n = some_eq (sym l.here ∙ ap heap z ∙ h) in
        record {
          node = m;
          here = if_true _ _ e;
          points = same ∙ ap (λ (k : Node V). k.next) (sym z') ∙ l.points;
        }
    | inr e ↦ record { node = l.node; here = if_false _ _ e ∙ l.here; points = l.points }
  ]

  Prev-put :
      (heap : Heap V) (t a b : ℕ) (n m : Node V)
      → heap t ≡ some n
      → m.prev ≡ n.prev
      → Prev heap a b
      → Prev (put heap t m) a b
  Prev-put heap t a b n m h same l = elim (Bool-cases (eqb a t)) [
    | inl e ↦
        let z : a ≡ t = ground arith in
        let z' : l.node ≡ n = some_eq (sym l.here ∙ ap heap z ∙ h) in
        record {
          node = m;
          here = if_true _ _ e;
          points = same ∙ ap (λ (k : Node V). k.prev) (sym z') ∙ l.points;
        }
    | inr e ↦ record { node = l.node; here = if_false _ _ e ∙ l.here; points = l.points }
  ]

  -- A write to the `next` of the last node.
  pub Linked-set_next :
      (heap : Heap V) (es : List (ℕ × V)) (t : ℕ) (n : Node V) (x : Option ℕ)
      → ((a : ℕ) → uses a es ≤ 1)
      → last_of es ≡ some t
      → heap t ≡ some n
      → Linked heap es
      → Linked (put heap t (record n { next = x })) es
  Linked-set_next heap [] t n x u e h l = tt
  Linked-set_next heap ((a, v) ∷ []) t n x u e h l = Holds-put heap t a n _ v h refl l
  Linked-set_next heap ((a, v) ∷ (b, w) ∷ es) t n x u e h (g, m, p, l) = (
    Holds-put heap t a n _ v h refl g,
    record { node = m.node; here = if_false {b = eqb a t} _ _ other ∙ m.here; points = m.points },
    Prev-put heap t b a n _ h refl p,
    Linked-set_next heap ((b, w) ∷ es) t n x (λ c. omega (arith, u c)) e h l,
  )
    where
      other : eqb a t ≡ false
      other = ground (arith, uses-last_of ((b, w) ∷ es) t e, u t)

  away : (es : List (ℕ × V)) (t a : ℕ) → uses t es ≡ 0 → 0 < uses a es → eqb a t ≡ false
  away es t a gone u = elim (Bool-cases (eqb a t)) [
    | inl e ↦ absurd (let z : a ≡ t = ground arith in omega (arith, u, gone, ap (λ c. uses c es) z))
    | inr e ↦ e
  ]

  -- A write to, or the end of, a node that is none of them.
  pub Linked-keep :
      (heap : Heap V) (es : List (ℕ × V)) (t : ℕ) (m : Node V)
      → uses t es ≡ 0
      → Linked heap es
      → Linked (put heap t m) es
  Linked-keep heap es t m gone l =
      Linked-frame heap (put heap t m) es (λ a u. if_false {b = eqb a t} _ _ (away es t a gone u)) l

  pub Linked-free :
      (heap : Heap V) (es : List (ℕ × V)) (t : ℕ)
      → uses t es ≡ 0
      → Linked heap es
      → Linked (free heap t) es
  Linked-free heap es t gone l =
      Linked-frame heap (free heap t) es (λ a u. if_false {b = eqb a t} _ _ (away es t a gone u)) l

  pub Linked-rest :
      (heap : Heap V) (e : ℕ × V) (es : List (ℕ × V)) → Linked heap (e ∷ es) → Linked heap es
  Linked-rest heap e [] l = tt
  Linked-rest heap e (f ∷ es) (h, n, p, l) = l

  -- A write to the `prev` of the first node.
  pub Linked-set_prev :
      (heap : Heap V) (es : List (ℕ × V)) (t : ℕ) (n : Node V) (x : Option ℕ)
      → ((a : ℕ) → uses a es ≤ 1)
      → first_of es ≡ some t
      → heap t ≡ some n
      → Linked heap es
      → Linked (put heap t (record n { prev = x })) es
  Linked-set_prev heap [] t n x u e h l = tt
  Linked-set_prev heap ((a, v) ∷ []) t n x u e h l = Holds-put heap t a n _ v h refl l
  Linked-set_prev heap ((a, v) ∷ (b, w) ∷ es) t n x u e h (g, m, p, l) = (
    Holds-put heap t a n _ v h refl g,
    Next-put heap t a b n _ h refl m,
    record { node = p.node; here = if_false {b = eqb b t} _ _ other ∙ p.here; points = p.points },
    Linked-keep heap ((b, w) ∷ es) t _ gone l,
  )
    where
      same : a ≡ t
      same = cc

      gone : uses t ((b, w) ∷ es) ≡ 0
      gone = ground (arith, u t, same)

      other : eqb b t ≡ false
      other = ground (arith, gone)
