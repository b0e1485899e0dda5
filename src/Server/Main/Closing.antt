-- ===== src/Server/Main/Closing.antt =====
-- The main thread after SIGHUP: when the server closes, and what a late connection does to it.
use sol_project.Prelude.{
  ℕ, ◌≡◌, ◌↔◌, sym, ap, ◌∙◌, true, false, List, [], ◌∷◌, ◌++◌, eqb, ltb, arith, inl, inr,
  Bool-cases, if_true,
}
use sol_project.Hash.HashTable
use sol_project.Hash.HashTable.Count.{contains-empty, contains-some}
use sol_project.Server.State.{Server}
use sol_project.Server.Main.{refuse_conn, close_server, Fixed, Loop, end_of_round, settle}
use sol_project.Server.Main.World.{World, is_client, IsDistinct}
use sol_project.Server.Main.Tracked.{held, IsTracked}
use sol_project.Server.Main.Runs.{set_up, Runs, IsOrderly, set_up-Runs-IsTracked}

end_of_round_tracked :
    (k : Fixed) (w : World)
    → IsTracked k w
    → w.loop.mode ≡ refuse_conn
    → ((end_of_round w.loop).mode ≡ close_server)
      ↔ ((c : ℕ) → is_client k c ≡ true → (w.loop.set c ≡ false) × (held w c ≡ 0))
unfolding end_of_round
end_of_round_tracked k w i refusing = (
  λ e c h.
      let z =
        contains-empty w.loop.conn_client_table c i.table
          (none_left (sym (ap (λ m. settle m n) refusing) ∙ e)) in
      (ground (arith, i.clients c h, z), ground (arith, i.clients c h, z)),
  λ gone.
      ap (λ m. settle m n) refusing
      ∙ if_true {b = eqb n 0} _ _ (elim (Bool-cases (ltb 0 n)) [
        | inr e ↦ ground (arith, e)
        | inl e ↦
            let (c, there) = contains-some w.loop.conn_client_table i.table (ground arith) in
            absurd (elim (Bool-cases (is_client k c)) [
              | inl client ↦ ground (arith, gone c client, i.clients c client, there)
              | inr other ↦ ground (arith, i.strangers c other, there)
            ])
      ]),
)
  where
    n : ℕ
    n = w.loop.conn_client_table.nelem

    none_left : settle refuse_conn n ≡ close_server → n ≡ 0
    none_left e = elim (Bool-cases (eqb n 0)) [
      | inl z ↦ ground arith
      | inr z ↦ absurd (ground (arith, e, z))
    ]

-- In a world that the steps of the threads come to from the start of a server without connections,
-- with its socket and pipes on different descriptors, no connection being asked for while they are
-- refused, and no worker that has waited waking to an empty queue: while connections are refused,
-- the round of the main loop ends the server if no client is in the set, the queue, a worker's
-- hands or a result, and only then.
pub end_of_round-closes :
    (k : Fixed) (server : Server) (w : World) (asked taken : List ℕ)
    → (r : Runs k (set_up k server) asked taken w) → IsOrderly r
    → IsDistinct k
    → server.curr_state.conn ≡ 0
    → w.loop.mode ≡ refuse_conn
    → ((end_of_round w.loop).mode ≡ close_server)
      ↔ ((c : ℕ) → is_client k c ≡ true → (w.loop.set c ≡ false) × (held w c ≡ 0))
end_of_round-closes k server w asked taken r o d none_yet refusing =
    end_of_round_tracked k w (set_up-Runs-IsTracked k server w asked taken d none_yet r o) refusing

abbrev pub Enqueued : Loop → ℕ → Loop → Type 0
Enqueued l fd l' =
    (l'.request_queue ≡ l.request_queue ++ fd ∷ [])
    × (l'.set fd ≡ false)
    × (l'.conn_client_table ≡ l.conn_client_table)
    × (l'.server ≡ l.server)
