-- ===== src/Server/Main/Moves.antt =====
-- Where clients go when the main thread queues their requests and reads their results.
use sol_project.Prelude.{
  ℕ, ◌+◌, ◌≡◌, ◌≤◌, refl, ap, ◌∙◌, subst, subst⁻¹, true, Option, none, some, List, [], ◌∷◌, ◌++◌,
  eqb, arith, inl, inr, Bool-cases, weigh-append, if_true, if_false, nat_eq,
}
use sol_project.Hash.Chain.{to_nat}
use sol_project.Hash.HashTable
use sol_project.Hash.HashTable.Laws.{remove-IsTable, contains-remove}
use sol_project.Hash.HashTable.Count.{nelem-remove}
use sol_project.Server.State.{Server, Stats, done, Ends, dec32}
use sol_project.Server.CloseFile.{close_client}
use sol_project.Server.Workers.{
  WorkerCode, mw_success, mw_close, mw_fatal_error, mw_non_fatal_error,
}
use sol_project.Server.Main.{
  Fixed, Loop, fd_clear, resume, disconnect, take_result, with_max, client_request, update_max,
}
use sol_project.Server.Main.World.{World, times, reported, is_client}
use sol_project.Server.Main.Turns.{Largest, update_max-Largest, within_done}
use sol_project.Server.CloseFile.Counts.{close_client-curr_state, done_bind}
use sol_project.Server.Main.Tracked.{IsTracked, moved}

pub times_last : (c i : ℕ) (q : List ℕ) → times c (q ++ i ∷ []) ≡ times c q + to_nat (eqb c i)
times_last c i q = omega (arith, weigh-append (λ j. to_nat (eqb c j)) q (i ∷ []))

pub times_middle :
    (c i : ℕ) (xs ys : List ℕ) → times c (xs ++ i ∷ ys) ≡ times c (xs ++ ys) + to_nat (eqb c i)
times_middle c i xs ys = omega (
  arith,
  weigh-append (λ j. to_nat (eqb c j)) xs (i ∷ ys),
  weigh-append (λ j. to_nat (eqb c j)) xs ys,
)

pub reported_last :
    (c : ℕ) (r : WorkerCode × ℕ) (q : List (WorkerCode × ℕ))
    → reported c (q ++ r ∷ []) ≡ reported c q + to_nat (eqb c r.1)
reported_last c r q =
    omega (arith, weigh-append (λ (j : WorkerCode × ℕ). to_nat (eqb c j.1)) q (r ∷ []))

pub reported_middle :
    (c : ℕ) (r : WorkerCode × ℕ) (xs ys : List (WorkerCode × ℕ))
    → reported c (xs ++ r ∷ ys) ≡ reported c (xs ++ ys) + to_nat (eqb c r.1)
reported_middle c r xs ys = omega (
  arith,
  weigh-append (λ (j : WorkerCode × ℕ). to_nat (eqb c j.1)) xs (r ∷ ys),
  weigh-append (λ (j : WorkerCode × ℕ). to_nat (eqb c j.1)) xs ys,
)

pub done_eq : {A : Type 0} {a b : A} → done a ≡ done b → a ≡ b
done_eq e = cc

module _ (k : Fixed) (w : World) (i : IsTracked k w) where
  -- A client that is listened to goes to the end of the queue, and the bound on the set stays one.
  abbrev pub Queued : ℕ → Loop → Type 0
  Queued fd l =
      (l.request_queue ≡ w.loop.request_queue ++ fd ∷ []) × IsTracked k (record w { loop = l })

  queued :
      (fd m : ℕ)
      → is_client k fd ≡ true
      → w.loop.set fd ≡ true
      → ((j : ℕ) → fd_clear fd w.loop.set j ≡ true → j ≤ m)
      → IsTracked k (record w {
        loop = record w.loop {
          request_queue = w.loop.request_queue ++ fd ∷ [];
          set = fd_clear fd w.loop.set;
          fd_max = m;
        };
      })
  queued fd m client on top =
      moved k w i _ refl refl refl
        (λ c h. elim (Bool-cases (eqb c fd)) [
          | inl e ↦
              let z : c ≡ fd = ground arith in
              ground (arith, times_last c fd w.loop.request_queue, ap w.loop.set z, on)
          | inr e ↦ ground (arith, times_last c fd w.loop.request_queue)
        ])
        (λ c h. elim (Bool-cases (eqb c fd)) [
          | inl e ↦ absurd (let z : c ≡ fd = ground arith in ground (arith, ap (is_client k) z))
          | inr e ↦
              (if_false _ _ e, omega (arith, times_last c fd w.loop.request_queue, ap to_nat e))
        ])
        top

  -- The request of a client that is listened to: it is queued behind those that are, and the main
  -- thread goes on.
  pub client_request-Queued :
      (fd : ℕ)
      → is_client k fd ≡ true
      → w.loop.set fd ≡ true
      → Ends ⊥ (client_request w.loop fd) (Queued fd)
  unfolding client_request
  client_request-Queued fd client on = elim (Bool-cases (eqb fd w.loop.fd_max)) [
    | inr e ↦
        subst⁻¹ (λ r. Ends ⊥ r (Queued fd)) (if_false _ _ e)
          (refl, queued fd w.loop.fd_max client on (λ j h. i.top j (ground arith)))
    | inl e ↦
        subst⁻¹ (λ r. Ends ⊥ r (Queued fd)) (if_true _ _ e)
          (shrunk (update_max (fd_clear fd w.loop.set) w.loop.fd_max)
            (update_max-Largest (fd_clear fd w.loop.set) w.loop.fd_max))
  ]
    where
      others : Loop
      others = record w.loop {
        request_queue = w.loop.request_queue ++ fd ∷ [];
        set = fd_clear fd w.loop.set;
      }

      -- the socket is still in the set
      ears : fd_clear fd w.loop.set k.fd_listen ≡ true
      ears = ground (arith, i.ears)

      shrunk :
          (o : Option ℕ)
          → Largest (fd_clear fd w.loop.set) w.loop.fd_max o
          → Ends ⊥ (with_max o others) (Queued fd)
      shrunk none none_left =
          absurd (ground (arith, ears, none_left k.fd_listen (i.top k.fd_listen i.ears)))
      shrunk (some m) (on', small, largest) =
          (refl, queued fd m client on (λ j h. largest j (i.top j (ground arith)) h))

  -- A client whose result is on its way is in no other place.
  reported_client :
      (code : WorkerCode) (fd : ℕ) (xs ys : List (WorkerCode × ℕ))
      → w.reports ≡ xs ++ (code, fd) ∷ ys
      → (is_client k fd ≡ true) × (HashTable.contains w.loop.conn_client_table fd ≡ true)
  reported_client code fd xs ys e = (client, ground (arith, i.clients fd client, there))
    where
      there : reported fd w.reports ≡ reported fd (xs ++ ys) + 1
      there =
          ap (reported fd) e
          ∙ reported_middle fd (code, fd) xs ys
          ∙ ap (λ b. reported fd (xs ++ ys) + to_nat b)
              (let z : eqb fd fd ≡ true = ground arith in z)

      client : is_client k fd ≡ true
      client = elim (Bool-cases (is_client k fd)) [
        | inl e' ↦ e'
        | inr e' ↦ absurd (omega (arith, (i.strangers fd e').1, there))
      ]

  resumed :
      (code : WorkerCode) (fd : ℕ) (xs ys : List (WorkerCode × ℕ))
      → w.reports ≡ xs ++ (code, fd) ∷ ys
      → IsTracked k (record w { loop = resume w.loop fd; reports = xs ++ ys })
  unfolding resume
  resumed code fd xs ys e =
      let (client, there) = reported_client code fd xs ys e in
      moved k w i _ refl refl refl
        (λ c h. elim (Bool-cases (eqb c fd)) [
          | inl e' ↦
              let z : c ≡ fd = ground arith in
              ground (
                arith,
                ap (reported c) e,
                reported_middle c (code, fd) xs ys,
                i.clients c h,
                ap (HashTable.contains w.loop.conn_client_table) z,
              )
          | inr e' ↦ ground (arith, ap (reported c) e, reported_middle c (code, fd) xs ys)
        ])
        (λ c h. elim (Bool-cases (eqb c fd)) [
          | inl e' ↦ absurd (let z : c ≡ fd = ground arith in ground (arith, ap (is_client k) z))
          | inr e' ↦ (
            if_false _ _ e',
            ground (arith, ap (reported c) e, reported_middle c (code, fd) xs ys),
          )
        ])
        (λ j h. ground (arith, i.top j))

  departed :
      (code : WorkerCode) (fd : ℕ) (xs ys : List (WorkerCode × ℕ)) (l : Loop)
      → w.reports ≡ xs ++ (code, fd) ∷ ys
      → disconnect w.loop fd ≡ done l
      → IsTracked k (record w { loop = l; reports = xs ++ ys })
  unfolding disconnect
  departed code fd xs ys l e done' =
      let (s, left, after) = done_bind (close_client w.loop.server fd) _ l done' in
      subst (λ l'. IsTracked k (record w { loop = l'; reports = xs ++ ys })) (done_eq after)
        (without s (close_client-curr_state w.loop.server fd s left))
    where
      t : HashTable.HashTable
      t = w.loop.conn_client_table

      there : (is_client k fd ≡ true) × (HashTable.contains t fd ≡ true)
      there = reported_client code fd xs ys e

      without :
          (s : Server)
          → s.curr_state
            ≡ record w.loop.server.curr_state { conn = dec32 w.loop.server.curr_state.conn }
          → IsTracked k (record w {
            loop = record w.loop { conn_client_table = HashTable.remove t fd; server = s };
            reports = xs ++ ys;
          })
      without s counts = record {
        table = remove-IsTable t fd i.table;
        clients = λ c h. elim (Bool-cases (eqb c fd)) [
          | inl e' ↦
              let z : c ≡ fd = ground arith in
              ground (
                arith,
                ap (reported c) e,
                reported_middle c (code, fd) xs ys,
                i.clients c h,
                contains-remove t fd c i.table,
                ap (HashTable.contains t) z,
                there.1,
              )
          | inr e' ↦ ground (
            arith,
            ap (reported c) e,
            reported_middle c (code, fd) xs ys,
            i.clients c h,
            contains-remove t fd c i.table,
          )
        ];
        strangers = λ c h. (
          ground (arith, contains-remove t fd c i.table, (i.strangers c h).0),
          omega (arith, ap (reported c) e, reported_middle c (code, fd) xs ys, (i.strangers c h).1),
        );
        ears = i.ears;
        top = i.top;
        fits = omega (arith, i.fits, nelem-remove t fd i.table there.1);
        conn = omega (
          arith,
          ap (λ (x : Stats). x.conn) counts,
          i.conn,
          i.fits,
          nelem-remove t fd i.table there.1,
        );
        peak = omega (
          arith,
          ap (λ (x : Stats). x.conn) counts,
          ap (λ (x : Stats). x.max_conn) counts,
          i.conn,
          i.fits,
          i.peak,
          nelem-remove t fd i.table there.1,
        );
      }

  -- A result is read: its client is listened to again, or leaves.
  pub resulted :
      (code : WorkerCode) (fd : ℕ) (xs ys : List (WorkerCode × ℕ)) (l : Loop)
      → w.reports ≡ xs ++ (code, fd) ∷ ys
      → take_result w.loop code fd ≡ done l
      → IsTracked k (record w { loop = l; reports = xs ++ ys })
  unfolding take_result
  resulted mw_success fd xs ys l e done' =
      subst (λ l'. IsTracked k (record w { loop = l'; reports = xs ++ ys }))
        (within_done fd _ l done') (resumed mw_success fd xs ys e)
  resulted mw_non_fatal_error fd xs ys l e done' =
      subst (λ l'. IsTracked k (record w { loop = l'; reports = xs ++ ys }))
        (within_done fd _ l done') (resumed mw_non_fatal_error fd xs ys e)
  resulted mw_close fd xs ys l e done' = departed mw_close fd xs ys l e done'
  resulted mw_fatal_error fd xs ys l e done' = departed mw_fatal_error fd xs ys l e done'
