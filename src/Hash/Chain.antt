-- ===== src/Hash/Chain.antt =====
-- The nodes of one bucket, src/util/hash/hashmap.c: the loops that walk it with `strcmp`.
-- A node is its key and its data; the links between nodes are the order of the list.
use sol_project.Prelude.{
  ℕ, ◌+◌, ◌≤◌, ◌≡◌, refl, ap, inl, inr, Bool, true, false, Option, none, some, List, [], ◌∷◌, ◌++◌,
  arith, KeyEq, ◌==◌, same_refl, if◌then◌else◌, In, weigh,
}

abbrev pub Chain : Type 0 → Type 0 → Type 0
Chain K V = List (K × V)

abbrev pub or_else : {A : Type 0} → Option A → Option A → Option A
or_else none o = o
or_else (some a) o = some a

abbrev pub is_some : {A : Type 0} → Option A → Bool
is_some none = false
is_some (some a) = true

abbrev pub to_nat : Bool → ℕ
to_nat true = 1
to_nat false = 0

module _ {K V : Type 0} ⦃key : KeyEq K⦄ where
  -- the data of the first node with the key
  unfoldable pub find : K → Chain K V → Option V
  find k [] = none
  find k (e ∷ c) = if k == e.0 then some e.1 else find k c

  -- is there a node with the key?
  unfoldable pub has : K → Chain K V → Bool
  has k [] = false
  has k (e ∷ c) = if k == e.0 then true else has k c

  -- unlink the first node with the key
  unfoldable pub unlink : K → Chain K V → Chain K V
  unlink k [] = []
  unlink k (e ∷ c) = if k == e.0 then c else e ∷ unlink k c

  -- a write through the data pointer of the first node with the key
  unfoldable pub update : K → (V → V) → Chain K V → Chain K V
  update k f [] = []
  update k f (e ∷ c) = if k == e.0 then (e.0, f e.1) ∷ c else e ∷ update k f c

  -- 1 at the nodes with the key `q`
  abbrev pub keyed : K → K × V → ℕ
  keyed q e = to_nat (q == e.0)

  pub has-find : (k : K) (c : Chain K V) → has k c ≡ is_some (find k c)
  unfolding has find
  has-find k [] = refl
  has-find k (e ∷ c) = ground (arith, has-find k c)

  pub find_absent : (q : K) (c : Chain K V) → weigh (keyed q) c ≡ 0 → find q c ≡ none
  unfolding find
  find_absent q [] h = refl
  find_absent q (e ∷ c) h = ground (arith, find_absent q c)

  pub weigh_absent : (q : K) (c : Chain K V) → find q c ≡ none → weigh (keyed q) c ≡ 0
  unfolding find
  weigh_absent q [] h = refl
  weigh_absent q (e ∷ c) h = ground (arith, weigh_absent q c)

  pub find-append : (q : K) (a b : Chain K V) → find q (a ++ b) ≡ or_else (find q a) (find q b)
  unfolding find
  find-append q [] b = refl
  find-append q (e ∷ a) b = ground (arith, find-append q a b)

  pub find-unlink :
      (k q : K) (c : Chain K V)
      → weigh (keyed k) c ≤ 1
      → find q (unlink k c) ≡ (if q == k then none else find q c)
  unfolding find unlink
  find-unlink k q [] h = ground arith
  find-unlink k q (e ∷ c) h = ground (
    arith,
    find-unlink k q c,
    find_absent k c,
    key.same_iff q k,
    key.same_iff k e.0,
    key.same_iff q e.0,
  )

  -- Unlinking takes one node away.
  pub weigh-unlink :
      (k : K) (w : K × V → ℕ) (c : Chain K V) (v : V)
      → find k c ≡ some v
      → weigh w (unlink k c) + w (k, v) ≡ weigh w c
  unfolding find unlink
  weigh-unlink k w [] v h = cc
  weigh-unlink k w (e ∷ c) v h = ground (arith, weigh-unlink k w c v, key.same_iff k e.0)

  pub find-update :
      (k q : K) (f : V → V) (c : Chain K V) (v : V)
      → find k c ≡ some v
      → find q (update k f c) ≡ (if q == k then some (f v) else find q c)
  unfolding find update
  find-update k q f [] v h = cc
  find-update k q f (e ∷ c) v h =
      ground
        (arith, find-update k q f c v, key.same_iff q k, key.same_iff k e.0, key.same_iff q e.0)

  pub weigh-update :
      (k : K) (f : V → V) (w : K × V → ℕ) (c : Chain K V) (v : V)
      → find k c ≡ some v
      → weigh w (update k f c) + w (k, v) ≡ weigh w c + w (k, f v)
  unfolding find update
  weigh-update k f w [] v h = cc
  weigh-update k f w (e ∷ c) v h = ground (arith, weigh-update k f w c v, key.same_iff k e.0)

  pub update_absent : (k : K) (f : V → V) (c : Chain K V) → find k c ≡ none → update k f c ≡ c
  unfolding find update
  update_absent k f [] h = refl
  update_absent k f (e ∷ c) h = ground (arith, update_absent k f c)

  -- A write of what is there already changes nothing.
  pub update_same :
      (k : K) (f : V → V) (c : Chain K V) (v : V) → find k c ≡ some v → f v ≡ v → update k f c ≡ c
  unfolding find update
  update_same k f [] v h g = cc
  update_same k f (e ∷ c) v h g = ground (arith, update_same k f c v)

  -- The later of two writes at one key stands.
  pub update-update :
      (k : K) (f g : V → V) (c : Chain K V) → update k g (update k f c) ≡ update k (λ v. g (f v)) c
  unfolding update
  update-update k f g [] = refl
  update-update k f g (e ∷ c) = ground (arith, update-update k f g c)

  pub find-In : (k : K) (c : Chain K V) (v : V) → find k c ≡ some v → In (k, v) c
  unfolding find
  find-In k [] v h = cc
  find-In k (e ∷ c) v h = ground (arith, find-In k c v, key.same_iff k e.0)

  pub In-find :
      (k : K) (c : Chain K V) (v : V) → weigh (keyed k) c ≤ 1 → In (k, v) c → find k c ≡ some v
  unfolding find
  In-find k [] v u h = absurd h
  In-find k (e ∷ c) v u (inl p) = ground (arith, same_refl k, ap (λ (x : K × V). x.0) p)
  In-find k (e ∷ c) v u (inr h) = ground (arith, In-find k c v, find_absent k c)
