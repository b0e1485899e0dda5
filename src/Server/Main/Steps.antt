-- ===== src/Server/Main/Steps.antt =====
-- Every step of a thread keeps track of the clients.
use sol_project.Prelude.{
  ℕ, ◌≡◌, refl, sym, ap, ◌∙◌, subst, subst⁻¹, List, [], ◌∷◌, ◌++◌, ◌-◌, true, false, Bool-cases,
  if_true, if_false, inl, inr, arith, nat_eq,
}
use sol_project.Server.State.{Server, Ends}
use sol_project.Server.Workers.{WorkerCode}
use sol_project.Server.Main.{
  Mode, accept_conn, refuse_conn, close_server, Fixed, Loop, end_of_round, Taking, takes_client,
  waits, after_wait, has_request, must_wait, pop_request, take_request,
}
use sol_project.Server.Main.World.{
  World, times, IsDistinct, Tick, connecting, requesting, resulting, awoken, ending, signalled,
  taking, falling_asleep, waking, quitting, FindsRequest, serving_client,
}
use sol_project.Server.Main.Turns.{
  turn-connect, turn-client_request, turn-take_result, turn-awoken, within_done,
}
use sol_project.Server.Main.Tracked.{IsTracked, connected, moved}
use sol_project.Server.Main.Moves.{
  times_middle, reported_last, done_eq, Queued, client_request-Queued, resulted,
}

-- A worker takes the first request.
taken :
    (k : Fixed) (w : World) (c : ℕ) (rest : List ℕ) (n : ℕ)
    → IsTracked k w
    → w.loop.request_queue ≡ c ∷ rest
    → IsTracked k (record w {
      loop = record w.loop { request_queue = rest };
      serving = c ∷ w.serving;
      waiting = n;
    })
taken k w c rest n i e =
    moved k w i _ refl refl refl (λ b h. omega (arith, ap (times b) e))
      (λ b h. (refl, omega (arith, ap (times b) e))) i.top

takes_eq : {c d : ℕ} {l l' : Loop} → takes_client c l ≡ takes_client d l' → (c ≡ d) × (l ≡ l')
takes_eq e = (cc, cc)

-- What a worker that takes a client has found, if there is a request.
pub woken_cases :
    (unset : ℕ) (l : Loop) (c : ℕ) (l' : Loop)
    → has_request l.request_queue ≡ true
    → after_wait unset l ≡ takes_client c l'
    → (rest : List ℕ) × (l.request_queue ≡ c ∷ rest) × (l' ≡ record l { request_queue = rest })
unfolding after_wait
woken_cases unset l c l' some_there e = by_mode l.mode e
  where
    by_queue :
        (q : List ℕ)
        → has_request q ≡ true
        → pop_request q unset l ≡ takes_client c l'
        → (rest : List ℕ) × (q ≡ c ∷ rest) × (l' ≡ record l { request_queue = rest })
    by_queue [] some_there h = absurd cc
    by_queue (d ∷ rest) some_there h = (rest, ap (λ x. x ∷ rest) (takes_eq h).0, sym (takes_eq h).1)

    by_mode :
        (m : Mode)
        → elim m [ close_server ↦ Taking.leaves | _ ↦ pop_request l.request_queue unset l ]
          ≡ takes_client c l'
        → (rest : List ℕ) × (l.request_queue ≡ c ∷ rest) × (l' ≡ record l { request_queue = rest })
    by_mode accept_conn h = by_queue l.request_queue some_there h
    by_mode refuse_conn h = by_queue l.request_queue some_there h
    by_mode close_server h = cc

-- A worker that does not wait finds a request.
pub taking_cases :
    (unset : ℕ) (l : Loop) (c : ℕ) (l' : Loop)
    → take_request unset l ≡ takes_client c l'
    → (rest : List ℕ) × (l.request_queue ≡ c ∷ rest) × (l' ≡ record l { request_queue = rest })
unfolding take_request
taking_cases unset l c l' e = elim (Bool-cases (must_wait l.mode l.request_queue)) [
  | inl t ↦ absurd (stays (sym (if_true _ _ t) ∙ e))
  | inr t ↦
      let e' : after_wait unset l ≡ takes_client c l' = sym (if_false _ _ t) ∙ e in
      woken_cases unset l c l' (there l.mode l.request_queue t (unfold after_wait in e')) e'
]
  where
    stays : waits ≡ takes_client c l' → ⊥
    stays h = cc

    there :
        (m : Mode) (q : List ℕ)
        → must_wait m q ≡ false
        → elim m [ close_server ↦ Taking.leaves | _ ↦ pop_request l.request_queue unset l ]
          ≡ takes_client c l'
        → has_request q ≡ true
    there accept_conn q t h = ground (arith, t)
    there refuse_conn q t h = ground (arith, t)
    there close_server q t h = absurd cc

served :
    (k : Fixed) (w : World) (c : ℕ) (xs ys : List ℕ) (code : WorkerCode) (s : Server)
    → IsTracked k w
    → w.serving ≡ xs ++ c ∷ ys
    → s.curr_state.conn ≡ w.loop.server.curr_state.conn
    → s.curr_state.max_conn ≡ w.loop.server.curr_state.max_conn
    → IsTracked k (record w {
      loop = record w.loop { server = s };
      serving = xs ++ ys;
      reports = w.reports ++ (code, c) ∷ [];
    })
served k w c xs ys code s i e conn max_conn =
    moved k w i _ refl conn max_conn
      (λ b h.
        omega (arith, ap (times b) e, times_middle b c xs ys, reported_last b (code, c) w.reports))
      (λ b h. (
        refl,
        omega (arith, ap (times b) e, times_middle b c xs ys, reported_last b (code, c) w.reports),
      ))
      i.top

-- A change of the mode alone.
changed_mode :
    (k : Fixed) (w : World) (m : Mode)
    → IsTracked k w
    → IsTracked k (record w { loop = record w.loop { mode = m } })
changed_mode k w m i = moved k w i _ refl refl refl (λ c h. refl) (λ c h. (refl, refl)) i.top

pub Tick-IsTracked :
    (k : Fixed) (w w' : World)
    → IsDistinct k
    → IsTracked k w
    → (t : Tick k w w') → FindsRequest w t
    → IsTracked k w'
unfolding end_of_round
Tick-IsTracked k w _ d i (connecting fd result l mode client new fits e) u =
    subst (λ l'. IsTracked k (record w { loop = l' }))
      (within_done fd _ l (sym (turn-connect k d w.loop fd result mode) ∙ e))
      (connected k w i fd client new fits)
Tick-IsTracked k w _ d i (requesting fd accepted result l client on e) u =
    (subst (λ r. Ends ⊥ r (Queued k w i fd))
      (sym (turn-client_request k d w.loop accepted result fd client) ∙ e)
      (client_request-Queued k w i fd client on)).1
Tick-IsTracked k w _ d i (resulting p accepted result xs ys l pipe there e) u =
    resulted k w i result.0 result.1 xs ys l there
      (sym (turn-take_result k d w.loop accepted result p pipe) ∙ e)
Tick-IsTracked k w _ d i (awoken accepted result l e) u =
    subst (λ l'. IsTracked k (record w { loop = l' }))
      (done_eq (sym (turn-awoken k d w.loop accepted result) ∙ e)) i
Tick-IsTracked k w _ d i ending u = changed_mode k w _ i
Tick-IsTracked k w _ d i (signalled sig m e mode) u = changed_mode k w m i
Tick-IsTracked k w _ d i (taking unset c l e) u =
    let (rest, q, same) = taking_cases unset w.loop c l e in
    subst⁻¹ (λ l'. IsTracked k (record w { loop = l'; serving = c ∷ w.serving })) same
      (taken k w c rest w.waiting i q)
Tick-IsTracked k w _ d i (falling_asleep unset e) u =
    moved k w i _ refl refl refl (λ c h. refl) (λ c h. (refl, refl)) i.top
Tick-IsTracked k w _ d i (waking unset c l some_wait e) u =
    let (rest, q, same) = woken_cases unset w.loop c l u e in
    subst⁻¹
      (λ l'. IsTracked k (record w { loop = l'; serving = c ∷ w.serving; waiting = w.waiting - 1 }))
      same (taken k w c rest (w.waiting - 1) i q)
Tick-IsTracked k w _ d i (quitting unset some_wait e) u =
    moved k w i _ refl refl refl (λ c h. refl) (λ c h. (refl, refl)) i.top
Tick-IsTracked k w _ d i (serving_client c xs ys code s there conn max_conn) u =
    served k w c xs ys code s i there conn max_conn
