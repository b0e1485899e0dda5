-- ===== src/Server/Requests.antt =====
-- The requests as they arrive: the first lines of the handlers in src/server, which read the path
-- name, the flags and the contents with `readn`. Integers arrive in the byte order of a
-- little-endian machine. `can_alloc` says for which sizes `malloc` and `calloc` succeed; when they
-- fail, `safe_malloc` and `safe_calloc` exit. What a handler leaves unread is the next request.
pub mod Laws
use sol_project.Prelude.{
  ℕ, zero, suc, ◌+◌, ◌-◌, ◌*◌, ◌/◌, ◌%◌, ◌^◌, Bool, Option, none, some, List, [], ◌∷◌, ltb, eqb,
  if◌then◌else◌,
}
use sol_project.Io.{Input, Read, got, eof, failed, readn}
use sol_project.Server.State.{
  FileName, Code, sa_success, sa_error, sa_close, sa_exists, sa_no_file, sa_already_locked,
  sa_not_locked, sa_not_empty, sa_too_big, sa_no_open, Outcome, done, aborted, crashed,
}

-- `w` bytes of memory that hold `n`, and back
unfoldable pub to_bytes : ℕ → ℕ → List ℕ
to_bytes zero n = []
to_bytes (suc w) n = n % 256 ∷ to_bytes w (n / 256)

unfoldable pub from_bytes : List ℕ → ℕ
from_bytes [] = 0
from_bytes (b ∷ bs) = b + 256 * from_bytes bs

-- The codes of server-api-protocol.h, as 32-bit two's complement.
unfoldable pub code_value : Code → ℕ
code_value sa_success = 0
code_value sa_error = 2 ^ 32 - 1
code_value sa_close = 2 ^ 32 - 2
code_value sa_exists = 2 ^ 32 - 10
code_value sa_no_file = 2 ^ 32 - 11
code_value sa_already_locked = 2 ^ 32 - 12
code_value sa_not_locked = 2 ^ 32 - 20
code_value sa_not_empty = 2 ^ 32 - 21
code_value sa_too_big = 2 ^ 32 - 22
code_value sa_no_open = 2 ^ 32 - 23

-- A part of a request: it is there; the handler returns a code at once; the server exits; the
-- handler reads past the end of a buffer.
pub data Received (A : Type 0) : Type 0 where
  received : A → Input → Received A
  gave_up : Code → Received A
  exits : Received A
  faults : Received A

abbrev pub and_then : {A B : Type 0} → Received A → (A → Input → Received B) → Received B
and_then (received a rest) f = f a rest
and_then (gave_up code) f = gave_up code
and_then exits f = exits
and_then faults f = faults

-- A handler goes on with a request, or returns a code before it has touched the server.
abbrev pub serve : {A R : Type 0} → Received A → (Code → R) → (A → Outcome R) → Outcome R
serve (received a rest) early next = next a
serve (gave_up code) early next = done (early code)
serve exits early next = aborted
serve faults early next = crashed

-- `if( (l = readn(...)) == -1 ) return SA_ERROR; if( l == 0 ) return SA_CLOSE;`
abbrev pub checked : Read → Received (List ℕ)
checked (got b rest) = received b rest
checked eof = gave_up sa_close
checked failed = gave_up sa_error

unfoldable pub receive : ℕ → Input → Received (List ℕ)
receive size input = checked (readn size input)

-- An `int` where a `size_t` is wanted.
unfoldable pub size_of_int : ℕ → ℕ
size_of_int n = if ltb n (2 ^ 31) then n else n + (2 ^ 64 - 2 ^ 32)

abbrev pub before : ℕ → Option FileName → Option FileName
before b none = none
before b (some name) = some (b ∷ name)

-- the string that starts a buffer, `none` if the buffer ends before it
unfoldable pub c_string : List ℕ → Option FileName
c_string [] = none
c_string (zero ∷ bs) = some []
c_string (suc b ∷ bs) = before (suc b) (c_string bs)

abbrev pub as_string : Option FileName → Input → Received FileName
as_string none rest = faults
as_string (some name) rest = received name rest

module _ (can_alloc : ℕ → Bool) where
  -- an allocation of `size` bytes that `readn` then fills
  unfoldable pub receive_buffer : ℕ → Input → Received (List ℕ)
  receive_buffer size input = if can_alloc size then receive size input else exits

  -- `pathname_len` and `pathname`
  unfoldable pub receive_path : Input → Received FileName
  receive_path input = and_then (receive 4 input) λ len rest.
      and_then (receive_buffer (size_of_int ((from_bytes len + 1) % 2 ^ 32)) rest)
        λ buf rest'. as_string (c_string buf) rest'

  -- the request of `open_file`
  unfoldable pub receive_open : Input → Received (FileName × ℕ)
  receive_open input = and_then (receive_path input) λ pathname rest.
      and_then (receive 4 rest) λ flags rest'. received (pathname, from_bytes flags) rest'

  -- the request of `write_file`
  unfoldable pub receive_write : Input → Received (FileName × ℕ × List ℕ)
  receive_write input = and_then (receive_path input) λ pathname rest.
      and_then (receive 8 rest) λ size rest'.
        and_then (receive_buffer (from_bytes size) rest')
          λ buf rest''. received (pathname, from_bytes size, buf) rest''

  -- the request of `append_to_file`, which reads no buffer if `size` is 0
  unfoldable pub receive_append : Input → Received (FileName × ℕ × List ℕ)
  receive_append input = and_then (receive_path input) λ pathname rest.
      and_then (receive 8 rest) λ size rest'.
        if eqb (from_bytes size) 0
        then received (pathname, 0, []) rest'
        else and_then (receive_buffer (from_bytes size) rest')
            λ buf rest''. received (pathname, from_bytes size, buf) rest''
