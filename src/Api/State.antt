-- ===== src/Api/State.antt =====
-- src/api/init_var.c, globals.h, convert_res_to_errno.c and open_conn.c: the connection of a client,
-- the last operation, and the errors.
use sol_project.Prelude.{
  ℕ, Bool, true, false, not, ◌||◌, Option, none, some, List, [], ◌∷◌, eqb, if◌then◌else◌, bytes_key,
  ◌==◌,
}
use sol_project.Io.{Input, Output, Read, got, eof, failed}
use sol_project.Server.State.{
  FileName, sa_success, sa_exists, sa_no_file, sa_already_locked, sa_not_locked, sa_not_empty,
  sa_too_big, sa_no_open,
}
use sol_project.Server.Requests.{code_value}

-- The values of `errno` that the library sets.
pub data Errno : Type 0 where
  enotconn einval ebade eisconn etimedout enosys : Errno
  enotty eio enotempty ecanceled : Errno
  eexist enoent ebusy eperm efbig enokey eacces enotrecoverable : Errno
  -- what a system call set
  esystem : Errno

-- `convert_res_to_errno`, with `none` for 0
unfoldable pub convert_res_to_errno : ℕ → Option Errno
convert_res_to_errno res =
    if eqb res (code_value sa_success)
    then none
    else if eqb res (code_value sa_exists)
    then some eexist
    else if eqb res (code_value sa_no_file)
    then some enoent
    else if eqb res (code_value sa_already_locked)
    then some ebusy
    else if eqb res (code_value sa_not_locked)
    then some eperm
    else if eqb res (code_value sa_too_big)
    then some efbig
    else if eqb res (code_value sa_no_open)
    then some enokey
    else if eqb res (code_value sa_not_empty)
    then some eacces
    else some enotrecoverable

-- `last_op_t`
pub record LastOp : Type 0 where
  pub is_open : Bool
  pub create : Bool
  pub lock : Bool
  pub success : Bool
  pub path : Option FileName

-- `RESET_LAST_OP`
abbrev pub reset_last_op : LastOp
reset_last_op = record {
  is_open = false;
  create = false;
  lock = false;
  success = false;
  path = none;
}

-- The globals of init_var.c: `fd_sock` is `none` for -1.
pub record Client : Type 0 where
  pub fd_sock : Option ℕ
  pub socket_path : Option FileName
  pub last_op : LastOp

-- the state at the start of the program
unfoldable pub init_var : Client
init_var = record { fd_sock = none; socket_path = none; last_op = reset_last_op }

-- `RESET_SOCK`
abbrev pub reset_sock : Client → Client
reset_sock c = record c { fd_sock = none; socket_path = none }

-- What a call returns: a number, or -1 with `errno` set.
pub data Result : Type 0 where
  returns : ℕ → Result
  fails : Errno → Result

-- After a call: its result, the client's state, what has been sent, and what is still to be read,
-- if reading has not failed.
pub record Reply : Type 0 where
  pub result : Result
  pub client : Client
  pub out : Output
  pub left : Option Input

abbrev pub reply : Result → Client → Output → Option Input → Reply
reply result client out left = record { result = result; client = client; out = out; left = left }

-- `(l = readn(...)) == -1 || l == 0` is an error for every call.
abbrev pub arrived : Read → Option (List ℕ × Input)
arrived (got b rest) = some (b, rest)
arrived eof = none
arrived failed = none

-- The tries of `connect` in `openConnection`: what each returns, or, after one that fails, what
-- `nanosleep` and `clock_gettime` do.
pub data Try : Type 0 where
  connects : Try
  -- it fails, and the time is not yet up
  again : Try
  -- it fails, and the time is up
  late : Try
  -- it fails in time, and waiting or the clock fails
  interrupted : Try

-- With no try left the server has not answered yet, and the loop goes on.
unfoldable pub try_connect : List Try → Option (Option Errno)
try_connect [] = none
try_connect (connects ∷ tries) = some none
try_connect (again ∷ tries) = try_connect tries
try_connect (late ∷ tries) = some (some etimedout)
try_connect (interrupted ∷ tries) = some (some esystem)

abbrev pub is_none : {A : Type 0} → Option A → Bool
is_none none = true
is_none (some a) = false

abbrev pub established : Client → ℕ → FileName → Option Errno → Result × Client
established c fd sockname none =
    (returns 0, record c { fd_sock = some fd; socket_path = some sockname })
established c fd sockname (some e) = (fails e, reset_sock c)

abbrev pub with_socket : Client → FileName → List Try → Option ℕ → Option (Result × Client)
with_socket c sockname tries none = some (fails esystem, record c { fd_sock = none })
with_socket c sockname tries (some fd) = elim (try_connect tries) [
  | none ↦ none
  | some e ↦ some (established c fd sockname e)
]

-- `openConnection(sockname, msec, abstime)`, with `msec` below 0 as `negative`, and `socket` the
-- descriptor that `socket` returns; `none` while it is still trying
unfoldable pub open_connection :
    Client → Option FileName → Bool → Option ℕ → List Try → Option (Result × Client)
open_connection c sockname negative socket tries =
    if not (is_none c.socket_path) || not (is_none c.fd_sock)
    then some (fails eisconn, c)
    else elim sockname [
      | none ↦ some (fails einval, c)
      | some name ↦ if negative then some (fails einval, c) else with_socket c name tries socket
    ]

-- `closeConnection(sockname)`, `none` for the `strcmp` with a NULL path of a client that is not
-- established; `closes` says whether `close` succeeds
abbrev pub close_by_name : Client → FileName → Bool → Option FileName → Option (Result × Client)
close_by_name c name closes none = none
close_by_name c name closes (some path) =
    if not (name == path)
    then some (fails enotconn, c)
    else if closes
    then some (returns 0, reset_sock c)
    else some (fails esystem, reset_sock c)

unfoldable pub close_connection : Client → Option FileName → Bool → Option (Result × Client)
close_connection c none closes = some (fails einval, c)
close_connection c (some name) closes = close_by_name c name closes c.socket_path
