-- ===== src/Server/Main/Turns.antt =====
-- What a turn of the main thread comes to, by the kind of the descriptor; and its parts.
use sol_project.Prelude.{
  ℕ, zero, suc, ◌≡◌, ◌≤◌, inl, inr, ap, ◌∙◌, subst⁻¹, true, false, ◌&&◌, Option, none, some, eqb,
  ltb, sym, arith, if_true, if_false, Bool-cases,
}
use sol_project.Server.State.{done, crashed}
use sol_project.Server.Workers.{WorkerCode}
use sol_project.Server.Main.{
  accept_conn, FdSet, Fixed, Loop, is_accept, one_of, turn, within_set, connect, client_request,
  take_result, update_max,
}
use sol_project.Server.Main.World.{is_client, IsDistinct}

-- The largest descriptor of the set up to a bound, or none if there is none.
abbrev pub Largest : FdSet → ℕ → Option ℕ → Type 0
Largest set n none = (i : ℕ) → i ≤ n → set i ≡ false
Largest set n (some m) = (set m ≡ true) × (m ≤ n) × ((i : ℕ) → i ≤ n → set i ≡ true → i ≤ m)

-- update_max finds the largest descriptor of the set that is not above the bound, and none only if
-- there is none.
pub update_max-Largest : (set : FdSet) (n : ℕ) → Largest set n (update_max set n)
unfolding update_max
update_max-Largest set zero = elim (Bool-cases (set 0)) [
  | inl e ↦ subst⁻¹ (Largest set 0) (if_true _ _ e) (e, omega arith, λ i h _. h)
  | inr e ↦
      subst⁻¹ (Largest set 0) (if_false _ _ e)
        (λ i h. ap set (let z : i ≡ 0 = omega arith in z) ∙ e)
]
update_max-Largest set (suc n) = elim (Bool-cases (set (suc n))) [
  | inl e ↦ subst⁻¹ (Largest set (suc n)) (if_true _ _ e) (e, omega arith, λ i h _. h)
  | inr e ↦
      subst⁻¹ (Largest set (suc n)) (if_false _ _ e)
        (further (update_max set n) e (update_max-Largest set n))
]
  where
    below : (i : ℕ) → i ≤ suc n → set i ≡ true → set (suc n) ≡ false → i ≤ n
    below i h e e' = elim (Bool-cases (eqb i (suc n))) [
      | inl same ↦ absurd (let z : i ≡ suc n = ground arith in ground (arith, ap set z))
      | inr other ↦ ground arith
    ]

    further : (o : Option ℕ) → set (suc n) ≡ false → Largest set n o → Largest set (suc n) o
    further none e h = λ i b. elim (Bool-cases (set i)) [
      | inl e' ↦ absurd (let x = h i (below i b e' e) in cc)
      | inr e' ↦ e'
    ]
    further (some m) e (there, small, top) =
        (there, omega (arith, small), λ i b e'. top i (below i b e' e) e')

-- A step that ends well does not reach past the set.
pub within_done : (fd : ℕ) (l l' : Loop) → within_set fd l ≡ done l' → l ≡ l'
within_done fd l l' e = elim (Bool-cases (ltb fd 1024)) [
  | inl t ↦ out (sym (if_true _ _ t) ∙ e)
  | inr t ↦ absurd (past (sym (if_false _ _ t) ∙ e))
]
  where
    out : done l ≡ done l' → l ≡ l'
    out h = cc

    past : crashed ≡ done l' → ⊥
    past h = cc

module _ (k : Fixed) (d : IsDistinct k) (l : Loop) (accepted : ℕ) (result : WorkerCode × ℕ) where
  pub turn-connect :
      l.mode ≡ accept_conn
      → turn k l k.fd_listen accepted result ≡ within_set accepted (connect l accepted)
  unfolding turn
  turn-connect e =
      if_true {b = eqb k.fd_listen k.fd_listen && is_accept l.mode} _ _
        (ground (arith, ap is_accept e))

  pub turn-client_request :
      (i : ℕ) → is_client k i ≡ true → turn k l i accepted result ≡ client_request l i
  unfolding turn
  turn-client_request i e = ground (arith, e)

  pub turn-take_result :
      (p : ℕ)
      → one_of p k.worker_pipes ≡ true
      → turn k l p accepted result ≡ take_result l result.0 result.1
  unfolding turn
  turn-take_result p e =
      if_false _ _ (ap (λ b. b && is_accept l.mode) other) ∙ if_false _ _ other' ∙ if_true _ _ e
    where
      other : eqb p k.fd_listen ≡ false
      other = elim (Bool-cases (eqb p k.fd_listen)) [
        | inl same ↦ absurd (
            let z : p ≡ k.fd_listen = ground arith in
            ground (arith, ap (λ q. one_of q k.worker_pipes) z, d.listen_no_pipe))
        | inr e' ↦ e'
      ]

      other' : eqb p k.sig_pipe ≡ false
      other' = elim (Bool-cases (eqb p k.sig_pipe)) [
        | inl same ↦ absurd (
            let z : p ≡ k.sig_pipe = ground arith in
            ground (arith, ap (λ q. one_of q k.worker_pipes) z, d.sig_no_pipe))
        | inr e' ↦ e'
      ]

  pub turn-awoken : turn k l k.sig_pipe accepted result ≡ done l
  unfolding turn
  turn-awoken =
      if_false _ _ (ap (λ b. b && is_accept l.mode) d.sig_other_than)
      ∙ if_true {b = eqb k.sig_pipe k.sig_pipe} _ _ (ground arith)
