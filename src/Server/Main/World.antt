-- ===== src/Server/Main/World.antt =====
-- The threads of the server together: the main thread's loop, the clients that workers serve, and
-- the results in the workers' pipes, with their steps in any order.
use sol_project.Prelude.{
  ℕ, ◌+◌, ◌-◌, ◌^◌, ◌≡◌, ◌<◌, Bool, true, false, not, ◌||◌, some, List, [], ◌∷◌, ◌++◌, eqb, weigh,
}
use sol_project.Hash.Chain.{to_nat}
use sol_project.Hash.HashTable
use sol_project.Server.State.{Server, done}
use sol_project.Server.Workers.{WorkerCode}
use sol_project.Server.Main.{
  Mode, accept_conn, Fixed, Loop, one_of, turn, end_of_round, takes_client, leaves, waits,
  after_wait, has_request, take_request, Signal, on_signal,
}

pub record World : Type 0 where
  pub loop : Loop
  -- the clients that workers have taken
  pub serving : List ℕ
  -- the results that workers have written and the main thread has not read
  pub reports : List (WorkerCode × ℕ)
  -- how many workers wait on `request_queue_nonempty`
  pub waiting : ℕ

abbrev pub times : ℕ → List ℕ → ℕ
times c xs = weigh (λ i. to_nat (eqb c i)) xs

abbrev pub reported : ℕ → List (WorkerCode × ℕ) → ℕ
reported c rs = weigh (λ (r : WorkerCode × ℕ). to_nat (eqb c r.1)) rs

-- a descriptor that is none of the fixed ones
abbrev pub is_client : Fixed → ℕ → Bool
is_client k c = not (eqb c k.fd_listen || (eqb c k.sig_pipe || one_of c k.worker_pipes))

-- The fixed descriptors differ.
pub record IsDistinct (k : Fixed) : Type 0 where
  pub sig_other_than : eqb k.sig_pipe k.fd_listen ≡ false
  pub listen_no_pipe : one_of k.fd_listen k.worker_pipes ≡ false
  pub sig_no_pipe : one_of k.sig_pipe k.worker_pipes ≡ false

-- One step of one thread. `accept` returns a descriptor that is in no use,
-- of which there are fewer than 2 ^ 32; a worker that serves a
-- client may change the store, but not the counts of connections; no connection is asked for
-- while the server refuses them. A worker that waits may wake at any time, whatever is queued then.
pub data Tick (k : Fixed) (w : World) : World → Type 0 where
  connecting :
      (fd : ℕ) (result : WorkerCode × ℕ) (l : Loop)
      → w.loop.mode ≡ accept_conn
      → is_client k fd ≡ true
      → HashTable.contains w.loop.conn_client_table fd ≡ false
      → w.loop.conn_client_table.nelem + 1 < 2 ^ 32
      → turn k w.loop k.fd_listen fd result ≡ done l
      → Tick k w (record w { loop = l })
  requesting :
      (i accepted : ℕ) (result : WorkerCode × ℕ) (l : Loop)
      → is_client k i ≡ true
      → w.loop.set i ≡ true
      → turn k w.loop i accepted result ≡ done l
      → Tick k w (record w { loop = l })
  resulting :
      (p accepted : ℕ) (result : WorkerCode × ℕ) (xs ys : List (WorkerCode × ℕ)) (l : Loop)
      → one_of p k.worker_pipes ≡ true
      → w.reports ≡ xs ++ result ∷ ys
      → turn k w.loop p accepted result ≡ done l
      → Tick k w (record w { loop = l; reports = xs ++ ys })
  awoken :
      (accepted : ℕ) (result : WorkerCode × ℕ) (l : Loop)
      → turn k w.loop k.sig_pipe accepted result ≡ done l
      → Tick k w (record w { loop = l })
  ending : Tick k w (record w { loop = end_of_round w.loop })
  signalled :
      (sig : Signal) (m : Mode)
      → on_signal sig ≡ some m
      → w.loop.mode ≡ accept_conn
      → Tick k w (record w { loop = record w.loop { mode = m } })
  taking :
      (unset c : ℕ) (l : Loop)
      → take_request unset w.loop ≡ takes_client c l
      → Tick k w (record w { loop = l; serving = c ∷ w.serving })
  falling_asleep :
      (unset : ℕ)
      → take_request unset w.loop ≡ waits
      → Tick k w (record w { waiting = w.waiting + 1 })
  waking :
      (unset c : ℕ) (l : Loop)
      → 0 < w.waiting
      → after_wait unset w.loop ≡ takes_client c l
      → Tick k w (record w { loop = l; serving = c ∷ w.serving; waiting = w.waiting - 1 })
  quitting :
      (unset : ℕ)
      → 0 < w.waiting
      → after_wait unset w.loop ≡ leaves
      → Tick k w (record w { waiting = w.waiting - 1 })
  serving_client :
      (c : ℕ) (xs ys : List ℕ) (code : WorkerCode) (s : Server)
      → w.serving ≡ xs ++ c ∷ ys
      → s.curr_state.conn ≡ w.loop.server.curr_state.conn
      → s.curr_state.max_conn ≡ w.loop.server.curr_state.max_conn
      → Tick k w (record w {
        loop = record w.loop { server = s };
        serving = xs ++ ys;
        reports = w.reports ++ (code, c) ∷ [];
      })

-- If the step is that of a worker that wakes, there is a request for it.
abbrev pub FindsRequest : {k : Fixed} (w : World) {w' : World} → Tick k w w' → Type 0
FindsRequest w (connecting fd result l mode client new fits e) = Unit {0}
FindsRequest w (requesting i accepted result l client on e) = Unit {0}
FindsRequest w (resulting p accepted result xs ys l pipe there e) = Unit {0}
FindsRequest w (awoken accepted result l e) = Unit {0}
FindsRequest w ending = Unit {0}
FindsRequest w (signalled sig m e mode) = Unit {0}
FindsRequest w (taking unset c l e) = Unit {0}
FindsRequest w (falling_asleep unset e) = Unit {0}
FindsRequest w (waking unset c l some_wait e) = has_request w.loop.request_queue ≡ true
FindsRequest w (quitting unset some_wait e) = Unit {0}
FindsRequest w (serving_client c xs ys code s there conn max_conn) = Unit {0}
