-- ===== src/Server/Main.antt =====
-- src/server/server.c: the main thread, with the first lines of a worker's round (workers.c) and the
-- signal handler (sig_handler.c). One turn of its loop looks at one descriptor that `select`
-- found ready; the set of descriptors it listens to, the queue of requests and the table of the
-- connected clients are its state, beside the server's.
pub mod World
pub mod Turns
pub mod Tracked
pub mod Moves
pub mod Steps
pub mod Runs
pub mod Closing
pub mod Stolen
use sol_project.Prelude.{
  ℕ, zero, suc, Bool, true, false, not, ◌&&◌, Option, none, some, List, [], ◌∷◌, ◌++◌, eqb, ltb,
  if◌then◌else◌,
}
use sol_project.Hash.HashTable
use sol_project.Hash.HashTable.{HashTable}
use sol_project.Server.State.{Server, Outcome, done, aborted, crashed, ◌>>=◌, inc32}
use sol_project.Server.CloseFile.{close_client}
use sol_project.Server.Workers.{
  WorkerCode, mw_success, mw_close, mw_fatal_error, mw_non_fatal_error,
}

-- `server_mode_t`
pub data Mode : Type 0 where
  accept_conn refuse_conn close_server : Mode

-- `fd_set`, and `FD_SET`, `FD_CLR`
abbrev pub FdSet : Type 0
FdSet = ℕ → Bool

abbrev pub fd_add : ℕ → FdSet → FdSet
fd_add fd set i = if eqb i fd then true else set i

abbrev pub fd_clear : ℕ → FdSet → FdSet
fd_clear fd set i = if eqb i fd then false else set i

-- The descriptors that are no clients: the socket, and the read ends of the signal handler's and
-- of the workers' pipes.
pub record Fixed : Type 0 where
  pub fd_listen : ℕ
  pub sig_pipe : ℕ
  pub worker_pipes : List ℕ

pub record Loop : Type 0 where
  pub mode : Mode
  pub set : FdSet
  pub fd_max : ℕ
  pub request_queue : List ℕ
  pub conn_client_table : HashTable
  pub server : Server

-- `FD_SETSIZE`: from 1024 on, `FD_SET` writes past the set
abbrev pub within_set : ℕ → Loop → Outcome Loop
within_set fd l = if ltb fd 1024 then done l else crashed

-- `update_max`, with `none` for -1
unfoldable pub update_max : FdSet → ℕ → Option ℕ
update_max set zero = if set zero then some zero else none
update_max set (suc i) = let rest = update_max set i in if set (suc i) then some (suc i) else rest

abbrev pub larger : ℕ → ℕ → ℕ
larger fd fd_max = if ltb fd_max fd then fd else fd_max

-- a new connection: the counts, the set, `fd_max` and the table
unfoldable pub connect : Loop → ℕ → Loop
connect l fd_client =
    let s = l.server in
    let conn = inc32 s.curr_state.conn in
    let max_conn = larger conn s.curr_state.max_conn in
    record l {
      server = record s { curr_state = record s.curr_state { conn = conn; max_conn = max_conn } };
      set = fd_add fd_client l.set;
      fd_max = larger fd_client l.fd_max;
      conn_client_table = HashTable.insert l.conn_client_table fd_client;
    }

-- the client is listened to again
unfoldable pub resume : Loop → ℕ → Loop
resume l fd_client = record l { set = fd_add fd_client l.set; fd_max = larger fd_client l.fd_max }

-- the client leaves; `hashtbl_remove` returns -1 only for a missing table
unfoldable pub disconnect : Loop → ℕ → Outcome Loop
disconnect l fd_client = close_client l.server fd_client >>= λ server. done (record l {
  conn_client_table = HashTable.remove l.conn_client_table fd_client;
  server = server;
})

-- the `switch` on the result of a worker
unfoldable pub take_result : Loop → WorkerCode → ℕ → Outcome Loop
take_result l mw_non_fatal_error fd_client = within_set fd_client (resume l fd_client)
take_result l mw_success fd_client = within_set fd_client (resume l fd_client)
take_result l mw_close fd_client = disconnect l fd_client
take_result l mw_fatal_error fd_client = disconnect l fd_client

abbrev pub with_max : Option ℕ → Loop → Outcome Loop
with_max none l = aborted
with_max (some m) l = done (record l { fd_max = m })

-- a request of a client, which is not listened to until it is served
unfoldable pub client_request : Loop → ℕ → Outcome Loop
client_request l fd_client =
    let set = fd_clear fd_client l.set in
    let l' = record l { request_queue = l.request_queue ++ fd_client ∷ []; set = set } in
    if eqb fd_client l.fd_max then with_max (update_max set l.fd_max) l' else done l'

abbrev pub one_of : ℕ → List ℕ → Bool
one_of i [] = false
one_of i (j ∷ js) = if eqb i j then true else one_of i js

abbrev pub is_accept : Mode → Bool
is_accept accept_conn = true
is_accept refuse_conn = false
is_accept close_server = false

-- One turn of the `for` loop, at a descriptor that is ready: `accepted` is what `accept` returns,
-- and `result` what a worker's pipe holds. In mode CLOSE_SERVER the turn at the signal handler's
-- pipe ends the loop, otherwise it does nothing.
unfoldable pub turn : Fixed → Loop → ℕ → ℕ → WorkerCode × ℕ → Outcome Loop
turn k l i accepted result =
    if eqb i k.fd_listen && is_accept l.mode
    then within_set accepted (connect l accepted)
    else if eqb i k.sig_pipe
    then done l
    else if one_of i k.worker_pipes
    then take_result l result.0 result.1
    else client_request l i

abbrev pub settle : Mode → ℕ → Mode
settle accept_conn nelem = accept_conn
settle refuse_conn nelem = if eqb nelem 0 then close_server else refuse_conn
settle close_server nelem = close_server

-- after the `for` loop: with connections refused and no client left, the server closes
unfoldable pub end_of_round : Loop → Loop
end_of_round l = record l { mode = settle l.mode l.conn_client_table.nelem }

-- How a worker's round begins, under `request_queue_mtx`: it ends with the server, waits on
-- `request_queue_nonempty`, or takes a client.
pub data Taking : Type 0 where
  leaves : Taking
  waits : Taking
  takes_client : ℕ → Loop → Taking

-- `list_pop_front`, whose result is not looked at: from an empty queue, `fd_client` stays as it was
abbrev pub pop_request : List ℕ → ℕ → Loop → Taking
pop_request [] unset l = takes_client unset l
pop_request (fd_client ∷ rest) unset l = takes_client fd_client (record l { request_queue = rest })

-- The round after the wait, or without one: the queue is not looked at again. `unset` is what
-- stands in `fd_client`, which is not initialised.
unfoldable pub after_wait : ℕ → Loop → Taking
after_wait unset l = elim l.mode [ close_server ↦ leaves | _ ↦ pop_request l.request_queue unset l ]

abbrev pub has_request : List ℕ → Bool
has_request [] = false
has_request (fd_client ∷ rest) = true

-- `mode != CLOSE_SERVER && request_queue->nelem == 0`
abbrev pub must_wait : Mode → List ℕ → Bool
must_wait accept_conn queue = not (has_request queue)
must_wait refuse_conn queue = not (has_request queue)
must_wait close_server queue = false

unfoldable pub take_request : ℕ → Loop → Taking
take_request unset l = if must_wait l.mode l.request_queue then waits else after_wait unset l

-- The signals that `sig_handler_thread` waits for, and the others.
pub data Signal : Type 0 where
  sig_int sig_quit sig_hup sig_other : Signal

-- The mode that a signal sets, after which the thread ends; `none` if it waits on.
unfoldable pub on_signal : Signal → Option Mode
on_signal sig_int = some close_server
on_signal sig_quit = some close_server
on_signal sig_hup = some refuse_conn
on_signal sig_other = none
