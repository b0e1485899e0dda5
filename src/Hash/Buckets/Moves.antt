-- ===== src/Hash/Buckets/Moves.antt =====
-- Appending nodes to their lists, one by one.
use sol_project.Prelude.{
  ℕ, ◌+◌, ◌<◌, ◌≡◌, refl, ◌∙◌, none, some, List, [], ◌∷◌, ◌++◌, flatten, length, arith, KeyEq, ◌==◌,
  if◌then◌else◌, weigh, weigh-append, weigh-flatten-set, length-set,
}
use sol_project.Hash.Chain.{Chain, or_else, find, keyed, find-append}
use sol_project.Hash.Buckets.{slot, push, IsPlaced, slot-lt}
use sol_project.Hash.Buckets.Placed.{home, find-flatten, set-IsPlaced, find-flatten-set}

module _ {K V : Type 0} ⦃key : KeyEq K⦄ (hash : K → ℕ → ℕ) where
  length-push : (bs : List (Chain K V)) (e : K × V) → length (push hash bs e) ≡ length bs
  unfolding push
  length-push bs e = length-set bs _ _

  push-IsPlaced :
      (bs : List (Chain K V)) (e : K × V)
      → 0 < length bs
      → IsPlaced hash bs
      → IsPlaced hash (push hash bs e)
  unfolding push
  push-IsPlaced bs e pos p =
      set-IsPlaced hash bs e.0 _ pos p
        (λ q f. ground (arith, weigh-append (keyed q) (home hash bs e.0) (e ∷ [])))

  pub weigh-push :
      (w : K × V → ℕ) (bs : List (Chain K V)) (e : K × V)
      → 0 < length bs
      → weigh w (flatten (push hash bs e)) ≡ weigh w (flatten bs) + w e
  unfolding push
  weigh-push w bs e pos = omega (
    arith,
    weigh-flatten-set w bs (slot hash bs e.0) (home hash bs e.0 ++ e ∷ [])
        (slot-lt hash bs e.0 pos),
    weigh-append w (home hash bs e.0) (e ∷ []),
  )

  pub find-push :
      (bs : List (Chain K V)) (e : K × V) (q : K)
      → 0 < length bs
      → IsPlaced hash bs
      → find q (flatten (push hash bs e))
        ≡ or_else (find q (flatten bs)) (if q == e.0 then some e.1 else none)
  unfolding push find
  find-push bs e q pos p = ground (
    arith,
    find-flatten-set hash bs e.0 q (home hash bs e.0 ++ e ∷ []) pos p (push-IsPlaced bs e pos p),
    find-append q (home hash bs e.0) (e ∷ []),
    find-flatten hash bs q p,
    key.same_iff q e.0,
  )

  -- `cs` is `bs` with the nodes `es` appended to their lists.
  pub record Moved (es : List (K × V)) (bs cs : List (Chain K V)) : Type 0 where
    pub width : length cs ≡ length bs
    pub placed : IsPlaced hash cs
    pub weighs : (w : K × V → ℕ) → weigh w (flatten cs) ≡ weigh w (flatten bs) + weigh w es
    pub finds : (q : K) → find q (flatten cs) ≡ or_else (find q (flatten bs)) (find q es)

  pub Moved-nil : (bs : List (Chain K V)) → IsPlaced hash bs → Moved [] bs bs
  unfolding find
  Moved-nil bs p = record {
    width = refl;
    placed = p;
    weighs = λ w. omega arith;
    finds = λ q. ground arith;
  }

  pub Moved-push :
      (bs : List (Chain K V)) (e : K × V)
      → 0 < length bs
      → IsPlaced hash bs
      → Moved (e ∷ []) bs (push hash bs e)
  unfolding find
  Moved-push bs e pos p = record {
    width = length-push bs e;
    placed = push-IsPlaced bs e pos p;
    weighs = λ w. omega (arith, weigh-push w bs e pos);
    finds = λ q. find-push bs e q pos p;
  }

  pub Moved-append :
      (xs ys : List (K × V)) (bs cs ds : List (Chain K V))
      → Moved xs bs cs
      → Moved ys cs ds
      → Moved (xs ++ ys) bs ds
  Moved-append xs ys bs cs ds m n = record {
    width = n.width ∙ m.width;
    placed = n.placed;
    weighs = λ w. omega (arith, m.weighs w, n.weighs w, weigh-append w xs ys);
    finds = λ q. ground (arith, m.finds q, n.finds q, find-append q xs ys);
  }
