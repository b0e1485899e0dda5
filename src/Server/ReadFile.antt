-- ===== src/Server/ReadFile.antt =====
-- src/server/read_file.c and read_n_files.c. A reader keeps its lock on a file while it writes to
-- the client without `files_mtx`; here no other thread comes between, which would have to
-- wait at the file to change it.
pub mod Laws
pub mod Many
pub mod Several
use sol_project.Prelude.{
  ℕ, zero, suc, ◌-◌, ◌^◌, Bool, true, false, not, ◌||◌, Option, none, some, List, [], ◌∷◌, ◌++◌,
  map, bytes_key, ltb, eqb, if◌then◌else◌,
}
use sol_project.Io.{Input, Output}
use sol_project.Hash.HashMap
use sol_project.Hash.HashMap.{entries}
use sol_project.Hash.HashTable
use sol_project.Server.State.{
  FileName, Timespec, File, Server, Code, sa_success, sa_error, sa_no_file, sa_no_open, Outcome,
  done, crashed, ◌>>=◌, through, put_back,
}
use sol_project.Server.FileLocks.{reader_lock, reader_unlock}
use sol_project.Server.Requests.{
  to_bytes, from_bytes, code_value, receive, receive_path, serve, received, and_then,
}
use sol_project.Server.Send.{send_each, send_single_file, send_list_of_files}

-- what follows the lookup
unfoldable pub read_found :
    Server → FileName → ℕ → Timespec → Option File → Outcome (Server × Code × Option File)
read_found s pathname fd now none = done (s, sa_no_file, none)
read_found s pathname fd now (some found) = reader_lock found >>= λ file.
    let used = record file { last_use = now } in
    if not (HashTable.contains file.fd_open fd)
    then done (put_back s pathname (reader_unlock file), sa_no_open, none)
    else done (put_back s pathname used, sa_success, some used)

-- `read_file` under `files_mtx`: the file to send, under its reader lock, or a code.
unfoldable pub read_under_lock :
    Server → FileName → ℕ → Timespec → Outcome (Server × Code × Option File)
read_under_lock s pathname fd now = read_found s pathname fd now (HashMap.get s.files pathname)

-- the rest of `read_file`: on a failure it returns with the file still locked
unfoldable pub send_read : Server → FileName → File → Output → Server × Code × Output
send_read s pathname file out =
    let (told, out') = send_each (to_bytes 4 (code_value sa_success) ∷ []) out in
    let (sent, out'') = send_single_file file false out' in
    if not told
    then (s, sa_error, out')
    else if not sent
    then (s, sa_error, out'')
    else (through s pathname reader_unlock, sa_success, out'')

abbrev pub finish_read :
    FileName → Output → Server × Code × Option File → Outcome (Server × Code × Output)
finish_read pathname out (s, code, none) = done (s, code, out)
finish_read pathname out (s, code, some file) = done (send_read s pathname file out)

unfoldable pub read_file :
    (ℕ → Bool) → Input → Server → ℕ → Timespec → Output → Outcome (Server × Code × Output)
read_file can_alloc input s fd now out =
    serve (receive_path can_alloc input) (λ code. (s, code, out))
      λ pathname. read_under_lock s pathname fd now >>= finish_read pathname out

-- `N` after its adjustment: all files for N <= 0
unfoldable pub files_to_read : ℕ → ℕ → ℕ
files_to_read n files = if eqb n 0 || ltb (2 ^ 31 - 1) n then files else n

-- the loop over the iterator
unfoldable pub lock_readers :
    ℕ
    → List (FileName × File)
    → Server
    → List (FileName × File)
    → Outcome (Server × List (FileName × File))
lock_readers zero rest s file_list = done (s, file_list)
lock_readers (suc n) [] s file_list = done (s, file_list)
lock_readers (suc n) ((k, curr_file) ∷ rest) s file_list = reader_lock curr_file >>= λ file.
    lock_readers n rest (put_back s k file) (file_list ++ (k, file) ∷ [])

-- `read_n_files` under `files_mtx`. With no file to read, `err` is read before it is set.
unfoldable pub read_n_under_lock : Server → ℕ → Outcome (Server × List (FileName × File))
read_n_under_lock s n =
    let count = files_to_read n s.curr_state.files in
    if eqb count 0 || ltb (2 ^ 31 - 1) count
    then crashed
    else lock_readers count (entries s.files) s []

-- `reader_unlock_all`
unfoldable pub reader_unlock_all : List (FileName × File) → Server → Server
reader_unlock_all [] s = s
reader_unlock_all ((k, _) ∷ rest) s = reader_unlock_all rest (through s k reader_unlock)

-- the rest of `read_n_files`
unfoldable pub send_read_n : Server → List (FileName × File) → Output → Server × Code × Output
send_read_n s file_list out =
    let (told, out') = send_each (to_bytes 4 (code_value sa_success) ∷ []) out in
    let (sent, out'') = send_list_of_files (map (λ e. e.1) file_list) true out' in
    let unlocked = reader_unlock_all file_list s in
    if not told
    then (unlocked, sa_error, out')
    else if not sent
    then (unlocked, sa_error, out'')
    else (unlocked, sa_success, out'')

unfoldable pub read_n_files : Input → Server → Output → Outcome (Server × Code × Output)
read_n_files input s out =
    serve (and_then (receive 4 input) λ n rest. received (from_bytes n) rest)
      (λ code. (s, code, out))
      λ n. read_n_under_lock s n >>= λ r. done (send_read_n (r.0) (r.1) out)
