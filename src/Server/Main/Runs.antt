-- ===== src/Server/Main/Runs.antt =====
-- The threads from the start of the server on: what holds at every moment, and the order in which
-- clients are served.
use sol_project.Prelude.{
  ℕ, ◌≡◌, ◌≤◌, refl, sym, ap, ◌∙◌, subst, true, false, List, [], ◌∷◌, ◌++◌, arith, append-nil,
  append_assoc,
}
use sol_project.Hash.HashTable
use sol_project.Hash.HashTable.Laws.{init-IsTable, contains-init}
use sol_project.Hash.HashTable.Count.{nelem-init}
use sol_project.Server.State.{Server, done, Ends}
use sol_project.Server.CloseFile.{close_client}
use sol_project.Server.Workers.{
  WorkerCode, mw_success, mw_close, mw_fatal_error, mw_non_fatal_error,
}
use sol_project.Server.Main.{
  accept_conn, Fixed, Loop, FdSet, fd_add, larger, one_of, take_result, end_of_round, connect,
  resume, disconnect,
}
use sol_project.Server.Main.World.{
  World, IsDistinct, Tick, connecting, requesting, resulting, awoken, ending, signalled, taking,
  serving_client, falling_asleep, waking, quitting, FindsRequest,
}
use sol_project.Server.Main.Turns.{
  turn-connect, turn-client_request, turn-take_result, turn-awoken, within_done,
}
use sol_project.Server.CloseFile.Counts.{done_bind}
use sol_project.Server.Main.Tracked.{IsTracked}
use sol_project.Server.Main.Moves.{Queued, client_request-Queued, done_eq}
use sol_project.Server.Main.Steps.{taking_cases, woken_cases, Tick-IsTracked}

abbrev pub add_all : List ℕ → FdSet → FdSet
add_all [] set = set
add_all (fd ∷ fds) set = fd_add fd (add_all fds set)

abbrev pub largest : List ℕ → ℕ → ℕ
largest [] m = m
largest (fd ∷ fds) m = larger fd (largest fds m)

-- What `main` sets up before its loop, for a server without connections.
unfoldable pub set_up : Fixed → Server → World
set_up k server = record {
  loop = record {
    mode = accept_conn;
    set = add_all (k.fd_listen ∷ k.sig_pipe ∷ k.worker_pipes) (λ _. false);
    fd_max = largest (k.fd_listen ∷ k.worker_pipes) k.sig_pipe;
    request_queue = [];
    conn_client_table = HashTable.init 8 HashTable.default_hash;
    server = server;
  };
  serving = [];
  reports = [];
  waiting = 0;
}

add_all-one_of : (fds : List ℕ) (i : ℕ) → add_all fds (λ _. false) i ≡ one_of i fds
add_all-one_of [] i = refl
add_all-one_of (fd ∷ fds) i = ground (arith, add_all-one_of fds i)

one_of-le-largest : (fds : List ℕ) (m i : ℕ) → one_of i fds ≡ true → i ≤ largest fds m
one_of-le-largest [] m i h = absurd cc
one_of-le-largest (fd ∷ fds) m i h = ground (arith, one_of-le-largest fds m i)

least-le-largest : (fds : List ℕ) (m : ℕ) → m ≤ largest fds m
least-le-largest [] m = omega arith
least-le-largest (fd ∷ fds) m = ground (arith, least-le-largest fds m)

set_up-IsTracked :
    (k : Fixed) (server : Server) → server.curr_state.conn ≡ 0 → IsTracked k (set_up k server)
unfolding set_up
set_up-IsTracked k server none_yet = record {
  table = init-IsTable 8 (omega arith);
  clients = λ c h. ground (arith, contains-init 8 c, add_all-one_of k.worker_pipes c);
  strangers = λ c h. (contains-init 8 c, omega arith);
  ears = ground arith;
  top = λ i h. ground (
    arith,
    add_all-one_of k.worker_pipes i,
    one_of-le-largest k.worker_pipes k.sig_pipe i,
    least-le-largest k.worker_pipes k.sig_pipe,
  );
  fits = omega (arith, nelem-init 8 HashTable.default_hash);
  conn = omega (arith, none_yet, nelem-init 8 HashTable.default_hash);
  peak = omega (arith, none_yet);
}

-- The client that a step queues, and the one that it takes.
abbrev pub asks : {k : Fixed} {w w' : World} → Tick k w w' → List ℕ
asks (requesting i accepted result l client on e) = i ∷ []
asks (connecting fd result l mode client new fits e) = []
asks (resulting p accepted result xs ys l pipe there e) = []
asks (awoken accepted result l e) = []
asks ending = []
asks (signalled sig m e mode) = []
asks (taking unset c l e) = []
asks (falling_asleep unset e) = []
asks (waking unset c l some_wait e) = []
asks (quitting unset some_wait e) = []
asks (serving_client c xs ys code s there conn max_conn) = []

abbrev pub takes_of : {k : Fixed} {w w' : World} → Tick k w w' → List ℕ
takes_of (requesting i accepted result l client on e) = []
takes_of (connecting fd result l mode client new fits e) = []
takes_of (resulting p accepted result xs ys l pipe there e) = []
takes_of (awoken accepted result l e) = []
takes_of ending = []
takes_of (signalled sig m e mode) = []
takes_of (taking unset c l e) = c ∷ []
takes_of (falling_asleep unset e) = []
takes_of (waking unset c l some_wait e) = c ∷ []
takes_of (quitting unset some_wait e) = []
takes_of (serving_client c xs ys code s there conn max_conn) = []

-- Steps of the threads in any order, with the clients queued and the clients taken, in order.
pub data Runs (k : Fixed) (w : World) : List ℕ → List ℕ → World → Type 0 where
  resting : Runs k w [] [] w
  going :
      {asked taken : List ℕ} {w' w'' : World}
      → Runs k w asked taken w'
      → (t : Tick k w' w'') → Runs k w (asked ++ asks t) (taken ++ takes_of t) w''

-- No worker that has waited wakes to an empty queue.
abbrev pub IsOrderly :
    {k : Fixed} {w w' : World} {asked taken : List ℕ} → Runs k w asked taken w' → Type 0
IsOrderly resting = Unit {0}
IsOrderly (going {w' = w'} r t) = IsOrderly r × FindsRequest w' t

pub Runs-IsTracked :
    (k : Fixed) (w w' : World) (asked taken : List ℕ)
    → IsDistinct k
    → IsTracked k w
    → (r : Runs k w asked taken w') → IsOrderly r
    → IsTracked k w'
Runs-IsTracked k w _ _ _ d i resting o = i
Runs-IsTracked k w w'' _ _ d i (going {asked} {taken} {w'} r t) o =
    Tick-IsTracked k w' w'' d (Runs-IsTracked k w w' asked taken d i r o.0) t o.1

-- At every moment of a server that started without connections, with its socket and pipes on
-- different descriptors, as long as no worker that has waited wakes to an empty queue: each
-- connected client is listened to, or queued, or being served, or in a result on its way to the
-- main thread, and in one of these places once, and no other client is in any; the count of
-- connections is the number of connected clients, and its peak is not below it; the socket is
-- listened to, and fd_max is not below any descriptor that is. accept returns a descriptor in no
-- use, below FD_SETSIZE, of which there are fewer than 2 ^ 32; no connection is asked for while
-- the server refuses them, and no worker changes the count.
pub set_up-Runs-IsTracked :
    (k : Fixed) (server : Server) (w : World) (asked taken : List ℕ)
    → IsDistinct k
    → server.curr_state.conn ≡ 0
    → (r : Runs k (set_up k server) asked taken w) → IsOrderly r
    → IsTracked k w
set_up-Runs-IsTracked k server w asked taken d none_yet r o =
    Runs-IsTracked k (set_up k server) w asked taken d (set_up-IsTracked k server none_yet) r o

take_result-request_queue :
    (l : Loop) (code : WorkerCode) (fd : ℕ) (l' : Loop)
    → take_result l code fd ≡ done l'
    → l'.request_queue ≡ l.request_queue
unfolding take_result resume disconnect
take_result-request_queue l mw_success fd l' e =
    ap (λ (x : Loop). x.request_queue) (sym (within_done fd _ l' e))
take_result-request_queue l mw_non_fatal_error fd l' e =
    ap (λ (x : Loop). x.request_queue) (sym (within_done fd _ l' e))
take_result-request_queue l mw_close fd l' e =
    let (s, _, after) = done_bind (close_client l.server fd) _ l' e in
    ap (λ (x : Loop). x.request_queue) (sym (done_eq after))
take_result-request_queue l mw_fatal_error fd l' e =
    let (s, _, after) = done_bind (close_client l.server fd) _ l' e in
    ap (λ (x : Loop). x.request_queue) (sym (done_eq after))

Tick-request_queue :
    (k : Fixed) (w w' : World)
    → IsDistinct k
    → IsTracked k w
    → (t : Tick k w w') → FindsRequest w t
    → w.loop.request_queue ++ asks t ≡ takes_of t ++ w'.loop.request_queue
unfolding end_of_round connect
Tick-request_queue k w _ d i (connecting fd result l mode client new fits e) u =
    append-nil w.loop.request_queue
    ∙ ap (λ (x : Loop). x.request_queue)
        (within_done fd _ l (sym (turn-connect k d w.loop fd result mode) ∙ e))
Tick-request_queue k w _ d i (requesting fd accepted result l client on e) u =
    sym
      (subst (λ r. Ends ⊥ r (Queued k w i fd))
        (sym (turn-client_request k d w.loop accepted result fd client) ∙ e)
        (client_request-Queued k w i fd client on)).0
Tick-request_queue k w _ d i (resulting p accepted result xs ys l pipe there e) u =
    append-nil w.loop.request_queue
    ∙ sym (
        take_result-request_queue w.loop result.0 result.1 l
          (sym (turn-take_result k d w.loop accepted result p pipe) ∙ e))
Tick-request_queue k w _ d i (awoken accepted result l e) u =
    append-nil w.loop.request_queue
    ∙ ap (λ (x : Loop). x.request_queue)
        (done_eq (sym (turn-awoken k d w.loop accepted result) ∙ e))
Tick-request_queue k w _ d i ending u = append-nil w.loop.request_queue
Tick-request_queue k w _ d i (signalled sig m e mode) u = append-nil w.loop.request_queue
Tick-request_queue k w _ d i (taking unset c l e) u =
    let (rest, q, same) = taking_cases unset w.loop c l e in
    append-nil w.loop.request_queue ∙ q ∙ ap (λ (x : Loop). c ∷ x.request_queue) (sym same)
Tick-request_queue k w _ d i (falling_asleep unset e) u = append-nil w.loop.request_queue
Tick-request_queue k w _ d i (waking unset c l some_wait e) u =
    let (rest, q, same) = woken_cases unset w.loop c l u e in
    append-nil w.loop.request_queue ∙ q ∙ ap (λ (x : Loop). c ∷ x.request_queue) (sym same)
Tick-request_queue k w _ d i (quitting unset some_wait e) u = append-nil w.loop.request_queue
Tick-request_queue k w _ d i (serving_client c xs ys code s there conn max_conn) u =
    append-nil w.loop.request_queue

-- The queue is first in, first out: over any steps of the threads in which no worker that has
-- waited wakes to an empty queue, the clients that are queued at first and those that are queued
-- on the way are, in order, the clients that workers take and those that are queued in the end.
pub Runs-request_queue :
    (k : Fixed) (w w' : World) (asked taken : List ℕ)
    → IsDistinct k
    → IsTracked k w
    → (r : Runs k w asked taken w') → IsOrderly r
    → w.loop.request_queue ++ asked ≡ taken ++ w'.loop.request_queue
Runs-request_queue k w _ _ _ d i resting o = append-nil w.loop.request_queue
Runs-request_queue k w w'' _ _ d i (going {asked} {taken} {w'} r t) o =
    sym (append_assoc w.loop.request_queue asked (asks t))
    ∙ ap (λ q. q ++ asks t) (Runs-request_queue k w w' asked taken d i r o.0)
    ∙ append_assoc taken w'.loop.request_queue (asks t)
    ∙ ap (λ q. taken ++ q)
        (Tick-request_queue k w' w'' d (Runs-IsTracked k w w' asked taken d i r o.0) t o.1)
    ∙ sym (append_assoc taken (takes_of t) w''.loop.request_queue)
