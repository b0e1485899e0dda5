-- ===== src/LinkedList/Represents.antt =====
-- The nodes that make a list, and its last one.
use sol_project.Prelude.{
  ℕ, suc, ◌+◌, ◌≡◌, ◌≤◌, ◌⊎◌, refl, sym, ap, ◌∙◌, subst, none, some, List, [], ◌∷◌, ◌++◌, map,
  length, arith, eqb, weigh, some_eq, inl, inr, Bool-cases,
}
use sol_project.LinkedList.{Node, Heap, NodeList}
use sol_project.LinkedList.Linked.{Holds, Next, Prev, Linked, uses, last_of, first_of}

-- The last element, and the others.
abbrev pub last_one : {A : Type 0} → A → List A → A
last_one x [] = x
last_one x (y ∷ ys) = last_one y ys

abbrev pub but_last : {A : Type 0} → A → List A → List A
but_last x [] = []
but_last x (y ∷ ys) = x ∷ but_last y ys

pub weigh-but_last :
    {A : Type 0} (w : A → ℕ) (x : A) (xs : List A)
    → weigh w (but_last x xs) + w (last_one x xs) ≡ weigh w (x ∷ xs)
weigh-but_last w x [] = omega arith
weigh-but_last w x (y ∷ ys) = omega (arith, weigh-but_last w y ys)

pub length-but_last : {A : Type 0} (x : A) (xs : List A) → length (but_last x xs) ≡ length xs
length-but_last x [] = refl
length-but_last x (y ∷ ys) = ap suc (length-but_last y ys)

pub map-but_last :
    {A B : Type 0} (f : A → B) (x : A) (xs : List A)
    → map f (but_last x xs) ≡ but_last (f x) (map f xs)
map-but_last f x [] = refl
map-but_last f x (y ∷ ys) = ap (◌∷◌ (f x)) (map-but_last f y ys)

pub map-last_one :
    {A B : Type 0} (f : A → B) (x : A) (xs : List A) → f (last_one x xs) ≡ last_one (f x) (map f xs)
map-last_one f x [] = refl
map-last_one f x (y ∷ ys) = map-last_one f y ys

module _ {V : Type 0} where
  -- The list is that of the nodes `es`. Of an empty list only the count matters.
  pub record Represents (es : List (ℕ × V)) (list : NodeList) (heap : Heap V) : Type 0 where
    pub linked : Linked heap es
    pub unique : (a : ℕ) → uses a es ≤ 1
    pub counted : list.nelem ≡ length es
    pub ends : (es ≡ []) ⊎ ((list.head ≡ first_of es) × (list.tail ≡ last_of es))

  -- The nodes of a list are in the heap.
  pub Linked-absent :
      (heap : Heap V) (es : List (ℕ × V)) (a : ℕ) → Linked heap es → heap a ≡ none → uses a es ≡ 0
  Linked-absent heap [] a l gone = refl
  Linked-absent heap ((b, v) ∷ []) a l gone = elim (Bool-cases (eqb a b)) [
    | inl e ↦ absurd (let z : a ≡ b = ground arith in ground (arith, l.here, gone, ap heap z))
    | inr e ↦ ground arith
  ]
  Linked-absent heap ((b, v) ∷ f ∷ es) a (h, n, p, l) gone = elim (Bool-cases (eqb a b)) [
    | inl e ↦ absurd (let z : a ≡ b = ground arith in ground (arith, h.here, gone, ap heap z))
    | inr e ↦ ground (arith, Linked-absent heap (f ∷ es) a l gone)
  ]

  pub Linked-snoc :
      (heap : Heap V) (es : List (ℕ × V)) (t a : ℕ) (v : V)
      → last_of es ≡ some t
      → Linked heap es
      → Next heap t a
      → Prev heap a t
      → Holds heap a v
      → Linked heap (es ++ (a, v) ∷ [])
  Linked-snoc heap [] t a v e l n p h = h
  Linked-snoc heap ((b, w) ∷ []) t a v e l n p h =
      let z : t ≡ b = some_eq (sym e) in
      (l, subst (λ c. Next heap c a) z n, subst (Prev heap a) z p, h)
  Linked-snoc heap (d ∷ f ∷ es) t a v e (g, m, q, l) n p h =
      (g, m, q, Linked-snoc heap (f ∷ es) t a v e l n p h)

  pub last_of-last_one : (e : ℕ × V) (es : List (ℕ × V)) → last_of (e ∷ es) ≡ some (last_one e es).0
  last_of-last_one e [] = refl
  last_of-last_one e (f ∷ es) = last_of-last_one f es

  pub last_of-append : (es : List (ℕ × V)) (a : ℕ) (v : V) → last_of (es ++ (a, v) ∷ []) ≡ some a
  last_of-append [] a v = refl
  last_of-append (e ∷ []) a v = refl
  last_of-append (e ∷ f ∷ es) a v = last_of-append (f ∷ es) a v

  pub Linked-first :
      (b : ℕ) (w : V) (es : List (ℕ × V)) (heap : Heap V)
      → Linked heap ((b, w) ∷ es)
      → Holds heap b w
  Linked-first b w [] heap l = l
  Linked-first b w (e ∷ es) heap (h, n, p, l) = h

  -- The last node of a list.
  pub record Unsnoc (heap : Heap V) (e : ℕ × V) (es : List (ℕ × V)) : Type 0 where
    pub node : Node V
    pub here : heap (last_one e es).0 ≡ some node
    pub held : node.value ≡ (last_one e es).1
    pub linked : Linked heap (but_last e es)
    pub before : (es ≡ []) ⊎ (node.prev ≡ last_of (but_last e es))

  pub Linked-Unsnoc :
      (heap : Heap V) (e : ℕ × V) (es : List (ℕ × V)) → Linked heap (e ∷ es) → Unsnoc heap e es
  Linked-Unsnoc heap e [] l = record {
    node = l.node;
    here = l.here;
    held = l.held;
    linked = tt;
    before = inl refl;
  }
  Linked-Unsnoc heap e (f ∷ []) (h, n, p, l) = record {
    node = p.node;
    here = p.here;
    held = ap (λ (k : Node V). k.value) (some_eq (sym p.here ∙ l.here)) ∙ l.held;
    linked = h;
    before = inr p.points;
  }
  Linked-Unsnoc heap e (f ∷ g ∷ es) (h, n, p, l) =
      let u = Linked-Unsnoc heap f (g ∷ es) l in
      record {
        node = u.node;
        here = u.here;
        held = u.held;
        linked = (h, n, p, u.linked);
        before = elim u.before [ inl x ↦ absurd cc | inr x ↦ inr x ];
      }
