-- ===== src/Server/Replacement/Least.antt =====
-- The file that the policy picks: of those that may be expelled, none was used (LRU) or created
-- (FIFO) earlier.
use sol_project.Prelude.{
  ◌<◌, ◌≡◌, ◌⊎◌, refl, sym, ap, subst⁻¹, ◌∙◌, true, false, Option, none, some, List, [], ◌∷◌,
  if_true, if_false, In, inl, inr, arith, Bool-cases, not,
}
use sol_project.Server.State.{FileName, Timespec, File, Policy, ◌>>=◌, Ends, Ends-map}
use sol_project.Server.FileLocks.{writer_lock}
use sol_project.Server.FileLocks.Laws.{writer_lock-Ends}
use sol_project.Server.Replacement.{earlier, policy_time, precedes, keep_least, find_least}

earlier_irrefl : (a : Timespec) → earlier a a ≡ false
unfolding earlier
earlier_irrefl a = ground arith

-- `earlier` is a strict weak order: being no earlier is transitive.
earlier_trans : (a b c : Timespec) → earlier b a ≡ false → earlier c b ≡ false → earlier c a ≡ false
unfolding earlier
earlier_trans a b c h k = ground arith

earlier_asymm : (a b : Timespec) → earlier a b ≡ true → earlier b a ≡ false
unfolding earlier
earlier_asymm a b h = ground arith

module _ (p : Policy) where
  -- `f` is an entry of `es` that may be expelled.
  abbrev pub Candidate : List (FileName × File) → File → Type 0
  Candidate es f = (k : FileName) × In (k, f) es × (f.can_be_expelled ≡ true)

  -- No entry of `es` that may be expelled precedes `f`.
  abbrev pub Minimal : List (FileName × File) → File → Type 0
  Minimal es f =
      (k : FileName) (g : File) → In (k, g) es → g.can_be_expelled ≡ true → precedes p g f ≡ false

  -- The locks that the loop meets: a writer holds no file that may be expelled, and a reader holds
  -- one only if `B`.
  abbrev pub Locks : Type 0 → List (FileName × File) → Type 0
  Locks B es =
      (k : FileName) (f : File)
      → In (k, f) es
      → f.can_be_expelled ≡ true
      → (f.n_writers ≡ 0) × (0 < f.n_readers → B)

  precedes_trans :
      (a b c : File) → precedes p b a ≡ false → precedes p c b ≡ false → precedes p c a ≡ false
  unfolding precedes
  precedes_trans a b c = earlier_trans (policy_time p a) (policy_time p b) (policy_time p c)

  precedes_irrefl : (a : File) → precedes p a a ≡ false
  unfolding precedes
  precedes_irrefl a = earlier_irrefl (policy_time p a)

  precedes_asymm : (a b : File) → precedes p a b ≡ true → precedes p b a ≡ false
  unfolding precedes
  precedes_asymm a b = earlier_asymm (policy_time p a) (policy_time p b)

  -- The one kept precedes neither the other nor is preceded by it.
  keep_least_lem :
      (l f : File)
      → let r = keep_least p (some l) f in
        ((r ≡ l) ⊎ (r ≡ f)) × (precedes p l r ≡ false) × (precedes p f r ≡ false)
  unfolding keep_least
  keep_least_lem l f = elim (Bool-cases (precedes p f l)) [
    | inl t ↦ rw t (inr refl, precedes_asymm f l t, precedes_irrefl f)
    | inr t ↦ rw t (inl refl, precedes_irrefl l, t)
  ]

  -- From a least file so far, the loop ends at a file that is no later than any it has met.
  abbrev Found : File → List (FileName × File) → Option File → Type 0
  Found l es r =
      (f : File) × (r ≡ some f)
      × ((f ≡ l) ⊎ Candidate es f)
      × (precedes p l f ≡ false)
      × Minimal es f

  Found-skip :
      (l : File) (k : FileName) (f : File) (es : List (FileName × File)) (r : Option File)
      → f.can_be_expelled ≡ false
      → Found l es r
      → Found l ((k, f) ∷ es) r
  Found-skip l k f es r no_way (g, e, origin, least, minimal) = (
    g,
    e,
    elim origin [ inl o ↦ inl o | inr (j, m, x) ↦ inr (j, inr m, x) ],
    least,
    λ j h m x. elim m [
      | inl same ↦ absurd (ground (arith, ap (λ (y : FileName × File). y.1.can_be_expelled) same))
      | inr later ↦ minimal j h later x
    ],
  )

  Found-visit :
      (l : File) (k : FileName) (f : File) (es : List (FileName × File)) (r : Option File)
      → f.can_be_expelled ≡ true
      → Found (keep_least p (some l) f) es r
      → Found l ((k, f) ∷ es) r
  Found-visit l k f es r may (g, e, origin, least, minimal) =
      let (kept, not_l, not_f) = keep_least_lem l f in
      (
        g,
        e,
        elim origin [
          | inr (j, m, x) ↦ inr (j, inr m, x)
          | inl is_kept ↦ elim kept [
            | inl is_l ↦ inl (is_kept ∙ is_l)
            | inr is_f ↦
                let same : g ≡ f = is_kept ∙ is_f in
                inr (k, inl (ap (λ (y : File). (k, y)) (sym same)), rw same may)
          ]
        ],
        precedes_trans g (keep_least p (some l) f) l least not_l,
        λ j h m x. elim m [
          | inl same ↦
              rw (← ap (λ (y : FileName × File). y.1) same)
                (precedes_trans g (keep_least p (some l) f) f least not_f)
          | inr later ↦ minimal j h later x
        ],
      )

  find_least_skip :
      (least : Option File) (k : FileName) (f : File) (es : List (FileName × File))
      → f.can_be_expelled ≡ false
      → find_least p least ((k, f) ∷ es) ≡ find_least p least es
  unfolding find_least
  find_least_skip least k f es e = if_true _ _ (ap not e)

  find_least_visit :
      (least : Option File) (k : FileName) (f : File) (es : List (FileName × File))
      → f.can_be_expelled ≡ true
      → find_least p least ((k, f) ∷ es)
        ≡ (writer_lock f >>= λ _. find_least p (some (keep_least p least f)) es)
  unfolding find_least
  find_least_visit least k f es e = if_false _ _ (ap not e)

  find_least-Found :
      (B : Type 0) (l : File) (es : List (FileName × File))
      → Locks B es
      → Ends B (find_least p (some l) es) (Found l es)
  find_least-Found B l [] locks =
      unfold find_least in (l, refl, inl refl, precedes_irrefl l, λ k g m x. absurd m)
  find_least-Found B l ((k, f) ∷ es) locks =
      let later : Locks B es = λ j g m. locks j g (inr m) in
      elim (Bool-cases f.can_be_expelled) [
        | inr no_way ↦
            subst⁻¹ (λ r. Ends B r (Found l ((k, f) ∷ es))) (find_least_skip (some l) k f es no_way)
              (Ends-map B (Found l es) (Found l ((k, f) ∷ es)) _
                (λ r h. Found-skip l k f es r no_way h) (find_least-Found B l es later))
        | inl may ↦
            let (idle, busy) = locks k f (inl refl) may in
            subst⁻¹ (λ r. Ends B r (Found l ((k, f) ∷ es))) (find_least_visit (some l) k f es may)
              (writer_lock-Ends B (Found l ((k, f) ∷ es)) f _ idle busy (
                Ends-map B (Found (keep_least p (some l) f) es) (Found l ((k, f) ∷ es)) _
                  (λ r h. Found-visit l k f es r may h)
                  (find_least-Found B (keep_least p (some l) f) es later)))
      ]

  -- The loop picks a minimal file of those that may be expelled, or there is none.
  abbrev pub Picked : List (FileName × File) → Option File → Type 0
  Picked es r =
      ((r ≡ none) × ((f : File) → ¬ Candidate es f))
      ⊎ ((f : File) × (r ≡ some f) × Candidate es f × Minimal es f)

  Picked-skip :
      (k : FileName) (f : File) (es : List (FileName × File)) (r : Option File)
      → f.can_be_expelled ≡ false
      → Picked es r
      → Picked ((k, f) ∷ es) r
  Picked-skip k f es r no_way (inl (e, nobody)) = inl (
    e,
    λ g c. elim c.1 [
      | inl same ↦ ground (arith, ap (λ (y : FileName × File). y.1.can_be_expelled) same, c.2)
      | inr m ↦ nobody g (c.0, m, c.2)
    ],
  )
  Picked-skip k f es r no_way (inr (g, e, (j, m, x), minimal)) = inr (
    g,
    e,
    (j, inr m, x),
    λ i h n y. elim n [
      | inl same ↦ absurd (ground (arith, ap (λ (z : FileName × File). z.1.can_be_expelled) same))
      | inr later ↦ minimal i h later y
    ],
  )

  Picked-Found :
      (k : FileName) (f : File) (es : List (FileName × File)) (r : Option File)
      → f.can_be_expelled ≡ true
      → Found f es r
      → Picked ((k, f) ∷ es) r
  Picked-Found k f es r may (g, e, origin, least, minimal) = inr (
    g,
    e,
    elim origin [
      | inl same ↦ (k, inl (ap (λ (y : File). (k, y)) (sym same)), rw same may)
      | inr (j, m, x) ↦ (j, inr m, x)
    ],
    λ j h m x. elim m [
      | inl same ↦ rw (← ap (λ (y : FileName × File). y.1) same) least
      | inr later ↦ minimal j h later x
    ],
  )

  -- If writers hold no file that may be expelled, the loop of expell_single_file ends, when no
  -- reader makes it wait, at a file of those that may be expelled such that no other precedes it
  -- in the order of the policy, or there is none such.
  pub find_least-Picked :
      (B : Type 0) (es : List (FileName × File))
      → Locks B es
      → Ends B (find_least p none es) (Picked es)
  unfolding keep_least
  find_least-Picked B [] locks = unfold find_least in inl (refl, λ f h. h.1)
  find_least-Picked B ((k, f) ∷ es) locks =
      let later : Locks B es = λ j g m. locks j g (inr m) in
      elim (Bool-cases f.can_be_expelled) [
        | inr no_way ↦
            subst⁻¹ (λ r. Ends B r (Picked ((k, f) ∷ es))) (find_least_skip none k f es no_way)
              (Ends-map B (Picked es) (Picked ((k, f) ∷ es)) _
                (λ r h. Picked-skip k f es r no_way h) (find_least-Picked B es later))
        | inl may ↦
            let (idle, busy) = locks k f (inl refl) may in
            subst⁻¹ (λ r. Ends B r (Picked ((k, f) ∷ es))) (find_least_visit none k f es may)
              (writer_lock-Ends B (Picked ((k, f) ∷ es)) f _ idle busy (
                Ends-map B (Found f es) (Picked ((k, f) ∷ es)) _
                  (λ r h. Picked-Found k f es r may h) (find_least-Found B f es later)))
      ]
