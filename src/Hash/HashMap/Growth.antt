-- ===== src/Hash/HashMap/Growth.antt =====
-- When a map is well formed, and that moving its nodes to a larger array keeps what it holds.
use sol_project.Prelude.{
  ℕ, suc, ◌+◌, ◌≤◌, ◌<◌, ◌≡◌, refl, sym, ap, ◌∙◌, List, [], ◌∷◌, ◌++◌, flatten, length, arith,
  KeyEq, weigh, length-append, subst, zero, ◌*◌, replicate, length-replicate, get_or-replicate,
  weigh-one,
}
use sol_project.Hash.Chain.{Chain, or_else, find, keyed, has-find, is_some}
use sol_project.Hash.Buckets.{IsPlaced}
use sol_project.Hash.Buckets.Placed.{find-flatten}
use sol_project.Hash.Buckets.Moves.{Moved, Moved-nil, Moved-append, Moved-push}
use sol_project.Hash.HashMap.{
  HashMap, entries, init, insert_node, move_chain, move_all, expand, get, contains,
}

pub flatten-replicate : {A : Type 0} (n : ℕ) → flatten (replicate n (let e : List A = [] in e)) ≡ []
unfolding flatten
flatten-replicate zero = refl
flatten-replicate (suc n) = flatten-replicate n

module _ {K V : Type 0} ⦃key : KeyEq K⦄ where
  pub record IsValid (m : HashMap K V) : Type 0 where
    pub roomy : 0 < length m.list
    pub placed : IsPlaced m.hash_funct m.list
    pub unique : (q : K) → weigh (keyed q) (entries m) ≤ 1
    pub counted : m.nelem ≡ weigh (λ _. 1) (entries m)

  -- `m'` is `m` with the nodes `es` appended to their lists.
  pub record Grown (es : List (K × V)) (m m' : HashMap K V) : Type 0 where
    pub hashed : m'.hash_funct ≡ m.hash_funct
    pub moved : Moved m.hash_funct es m.list m'.list
    pub longer : m'.nelem ≡ m.nelem + length es

  pub insert_node-Grown :
      (m : HashMap K V) (k : K) (v : V)
      → 0 < length m.list
      → IsPlaced m.hash_funct m.list
      → Grown ((k, v) ∷ []) m (insert_node m k v)
  unfolding insert_node
  insert_node-Grown m k v pos p = record {
    hashed = refl;
    moved = Moved-push m.hash_funct m.list (k, v) pos p;
    longer = omega arith;
  }

  Grown-nil : (m : HashMap K V) → IsPlaced m.hash_funct m.list → Grown [] m m
  Grown-nil m p = record {
    hashed = refl;
    moved = Moved-nil m.hash_funct m.list p;
    longer = omega arith;
  }

  Grown-append :
      (xs ys : List (K × V)) (m m' m'' : HashMap K V)
      → Grown xs m m'
      → Grown ys m' m''
      → Grown (xs ++ ys) m m''
  Grown-append xs ys m m' m'' g h = record {
    hashed = h.hashed ∙ g.hashed;
    moved =
        Moved-append m.hash_funct xs ys m.list m'.list m''.list g.moved
          (subst (λ f. Moved f ys m'.list m''.list) g.hashed h.moved);
    longer = omega (arith, g.longer, h.longer, length-append xs ys);
  }

  -- Growing keeps the array non-empty and its nodes in place.
  pub Grown-roomy :
      (es : List (K × V)) (m m' : HashMap K V)
      → Grown es m m'
      → 0 < length m.list
      → (0 < length m'.list) × IsPlaced m'.hash_funct m'.list
  Grown-roomy es m m' g pos =
      (omega (arith, g.moved.width), subst (λ f. IsPlaced f m'.list) (sym g.hashed) g.moved.placed)

  move_chain-Grown :
      (c : Chain K V) (m : HashMap K V)
      → 0 < length m.list
      → IsPlaced m.hash_funct m.list
      → Grown c m (move_chain c m)
  unfolding move_chain
  move_chain-Grown [] m pos p = Grown-nil m p
  move_chain-Grown (e ∷ c) m pos p =
      let g = insert_node-Grown m e.0 e.1 pos p in
      let (pos', p') = Grown-roomy (e ∷ []) m _ g pos in
      Grown-append (e ∷ []) c m _ _ g (move_chain-Grown c (insert_node m e.0 e.1) pos' p')

  move_all-Grown :
      (cs : List (Chain K V)) (m : HashMap K V)
      → 0 < length m.list
      → IsPlaced m.hash_funct m.list
      → Grown (flatten cs) m (move_all cs m)
  unfolding move_all flatten
  move_all-Grown [] m pos p = Grown-nil m p
  move_all-Grown (c ∷ cs) m pos p =
      let g = move_chain-Grown c m pos p in
      let (pos', p') = Grown-roomy c m _ g pos in
      Grown-append c (flatten cs) m _ _ g (move_all-Grown cs (move_chain c m) pos' p')

  -- A new map is valid and empty.
  pub init-IsValid : (n : ℕ) (h : K → ℕ → ℕ) → 0 < n → IsValid (init {V = V} n h)
  unfolding init
  init-IsValid n h pos = record {
    roomy = rw length-replicate pos;
    placed = λ q i ne. rw (get_or-replicate {A = Chain K V} n i []);
    unique = λ q. rw (flatten-replicate {A = K × V} n) (omega arith);
    counted = rw (flatten-replicate {A = K × V} n);
  }

  -- Doubling the array keeps the hash function, the count, and what every key finds.
  pub record Same (m m' : HashMap K V) : Type 0 where
    pub valid : IsValid m'
    pub hashed : m'.hash_funct ≡ m.hash_funct
    pub weighs : (w : K × V → ℕ) → weigh w (entries m') ≡ weigh w (entries m)
    pub finds : (q : K) → find q (entries m') ≡ find q (entries m)

  -- Doubling the array of a valid map moves every node to the list of its hash: the map stays
  -- valid, and every key finds what it found.
  pub expand-Same : (m : HashMap K V) → IsValid m → Same m (expand m)
  unfolding expand init find
  expand-Same m v = record {
    valid = record {
      roomy = (Grown-roomy (entries m) _ _ grown wide).0;
      placed = (Grown-roomy (entries m) _ _ grown wide).1;
      unique = λ q. rw (heavy (keyed q)) (v.unique q);
      counted = omega (arith, grown.longer, heavy (λ _. 1), weigh-one (entries m));
    };
    hashed = grown.hashed;
    weighs = heavy;
    finds = found;
  }
    where
      fresh : HashMap K V
      fresh = init (length m.list * 2) m.hash_funct

      wide : 0 < length fresh.list
      wide = rw length-replicate (omega (arith, v.roomy))

      bare : entries fresh ≡ []
      bare = flatten-replicate {A = K × V} (length m.list * 2)

      grown : Grown (entries m) fresh (expand m)
      grown =
          move_all-Grown m.list fresh wide
            (init-IsValid (length m.list * 2) m.hash_funct (omega (arith, v.roomy))).placed

      heavy : (w : K × V → ℕ) → weigh w (entries (expand m)) ≡ weigh w (entries m)
      heavy w = omega (arith, grown.moved.weighs w, ap (weigh w) bare)

      found : (q : K) → find q (entries (expand m)) ≡ find q (entries m)
      found q = grown.moved.finds q ∙ ap (λ es. or_else (find q es) (find q (entries m))) bare

  -- What a lookup reads in a valid map, whatever the array.
  pub get-entries : (m : HashMap K V) (q : K) → IsValid m → get m q ≡ find q (entries m)
  unfolding get
  get-entries m q v = sym (find-flatten m.hash_funct m.list q v.placed)

  -- A key is contained exactly when its lookup succeeds.
  pub contains-get : (m : HashMap K V) (k : K) → contains m k ≡ is_some (get m k)
  unfolding contains get
  contains-get m k = has-find k _
