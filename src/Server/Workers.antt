-- ===== src/Server/Workers.antt =====
-- src/server/workers.c: one round of `worker_thread` on a client that it has taken from the queue,
-- and the handlers from their first byte to their answer. Locking a file on its own (LOCK_FILE,
-- UNLOCK_FILE) is no operation of the server.
use sol_project.Prelude.{ℕ, Bool, true, not, Option, none, some, List, [], ◌∷◌, eqb, if◌then◌else◌}
use sol_project.Io.{Input, Output}
use sol_project.Server.State.{
  Timespec, File, Server, Code, sa_success, sa_error, sa_close, Outcome, done, ◌>>=◌,
}
use sol_project.Server.OpenFile.{open_under_lock}
use sol_project.Server.WriteFile.{write_under_lock, append_under_lock}
use sol_project.Server.CloseFile.{close_file}
use sol_project.Server.RemoveFile.{remove_file}
use sol_project.Server.ReadFile.{read_file, read_n_files}
use sol_project.Server.Requests.{
  to_bytes, from_bytes, code_value, received, gave_up, exits, faults, receive, receive_open,
  receive_write, receive_append, serve,
}
use sol_project.Server.Send.{send_each, send_list_of_files}

-- `op_code_t`; a number that is none of them comes to the default case.
pub data OpCode : Type 0 where
  open_file_op close_file_op read_file_op write_file_op append_to_file_op : OpCode
  read_n_files_op lock_file_op unlock_file_op remove_file_op unknown_op : OpCode

unfoldable pub to_op_code : ℕ → OpCode
to_op_code n =
    if eqb n 0
    then open_file_op
    else if eqb n 1
    then close_file_op
    else if eqb n 2
    then read_file_op
    else if eqb n 3
    then write_file_op
    else if eqb n 4
    then append_to_file_op
    else if eqb n 5
    then read_n_files_op
    else if eqb n 6
    then lock_file_op
    else if eqb n 7
    then unlock_file_op
    else if eqb n 8
    then remove_file_op
    else unknown_op

-- `worker_code_t`
pub data WorkerCode : Type 0 where
  mw_success mw_close mw_fatal_error mw_non_fatal_error : WorkerCode

-- The answer of a write: the code, and the files that were expelled for it.
unfoldable pub send_expelled : List File → Output → Code × Output
send_expelled to_expell out =
    let (told, out') = send_each (to_bytes 4 (code_value sa_success) ∷ []) out in
    let (sent, out'') = send_list_of_files to_expell true out' in
    if not told
    then (sa_error, out')
    else if not sent
    then (sa_error, out'')
    else (sa_success, out'')

-- A code that is no success is returned before anything is sent.
abbrev pub answer_write : Output → Server × List File × Code → Server × Code × Output
answer_write out (s, to_expell, sa_success) =
    let (code, out') = send_expelled to_expell out in (s, code, out')
answer_write out (s, to_expell, code) = (s, code, out)

-- The result code for the main thread, once `res` has been written to the client.
unfoldable pub worker_code : Code → WorkerCode
worker_code sa_success = mw_success
worker_code sa_close = mw_fatal_error
worker_code sa_error = mw_fatal_error
worker_code res = mw_non_fatal_error

unfoldable pub conclude : Server × Code × Output → Server × WorkerCode × Output
conclude (s, res, out) =
    let (told, out') = send_each (to_bytes 4 (code_value res) ∷ []) out in
    (s, if told then worker_code res else mw_fatal_error, out')

module _ (can_alloc : ℕ → Bool) (fd : ℕ) (created now : Timespec) where
  unfoldable pub open_file : Input → Server → Outcome (Server × Code)
  open_file input s =
      serve (receive_open can_alloc input) (λ code. (s, code))
        λ r. open_under_lock s r.0 r.1 fd created now >>= λ o. done (o.0, o.2)

  unfoldable pub write_file : Input → Server → Output → Outcome (Server × Code × Output)
  write_file input s out =
      serve (receive_write can_alloc input) (λ code. (s, code, out))
        λ r. write_under_lock s r.0 r.1 r.2 fd now >>= λ w. done (answer_write out w)

  unfoldable pub append_to_file : Input → Server → Output → Outcome (Server × Code × Output)
  append_to_file input s out =
      serve (receive_append can_alloc input) (λ code. (s, code, out))
        λ r. append_under_lock s r.0 r.1 r.2 fd now >>= λ w. done (answer_write out w)

  -- the `switch`; `none` for the cases that answer nothing
  unfoldable pub handle :
      OpCode → Input → Server → Output → Option (Outcome (Server × Code × Output))
  handle open_file_op input s out = some (open_file input s >>= λ r. done (r.0, r.1, out))
  handle close_file_op input s out =
      some (close_file can_alloc input s fd >>= λ r. done (r.0, r.1, out))
  handle read_file_op input s out = some (read_file can_alloc input s fd now out)
  handle write_file_op input s out = some (write_file input s out)
  handle append_to_file_op input s out = some (append_to_file input s out)
  handle read_n_files_op input s out = some (read_n_files input s out)
  handle remove_file_op input s out =
      some (remove_file can_alloc input s fd >>= λ r. done (r.0, r.1, out))
  handle lock_file_op input s out = none
  handle unlock_file_op input s out = none
  handle unknown_op input s out = none

  unfoldable pub dispatch :
      OpCode → Input → Server → Output → Outcome (Server × WorkerCode × Output)
  dispatch op input s out = elim (handle op input s out) [
    | none ↦ done (s, mw_fatal_error, out)
    | some r ↦ r >>= λ a. done (conclude a)
  ]

  -- One round: the operation code, the handler, and the result for the main thread.
  unfoldable pub serve_client : Input → Server → Output → Outcome (Server × WorkerCode × Output)
  serve_client input s out = elim (receive 4 input) [
    | received op_code rest ↦ dispatch (to_op_code (from_bytes op_code)) rest s out
    | gave_up sa_close ↦ done (s, mw_close, out)
    | gave_up _ ↦ done (s, mw_fatal_error, out)
    | exits ↦ done (s, mw_fatal_error, out)
    | faults ↦ done (s, mw_fatal_error, out)
  ]
