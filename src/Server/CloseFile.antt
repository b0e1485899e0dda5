-- ===== src/Server/CloseFile.antt =====
-- src/server/close_file.c, and `close_client` of src/server/server.c, which closes every file for a
-- client that is gone.
pub mod Laws
pub mod Client
pub mod Counts
use sol_project.Prelude.{ℕ, Bool, Option, none, some, List, [], ◌∷◌, bytes_key, if◌then◌else◌}
use sol_project.Io.{Input}
use sol_project.Hash.HashMap
use sol_project.Hash.HashMap.{entries}
use sol_project.Hash.HashTable
use sol_project.Server.State.{
  FileName, File, Server, Code, sa_success, sa_no_file, Outcome, done, ◌>>=◌, dec32, put_back,
}
use sol_project.Server.FileLocks.{writer_lock, writer_unlock}
use sol_project.Server.OpenFile.{is_held}
use sol_project.Server.Requests.{receive_path, serve}

-- the file without the client, in the table and in the lock
unfoldable pub leave : File → ℕ → File
leave file fd = record file {
  fd_open = HashTable.remove file.fd_open fd;
  fd_lock = if is_held file.fd_lock fd then none else file.fd_lock;
}

-- what follows the lookup
unfoldable pub close_found : Server → FileName → ℕ → Option File → Outcome (Server × Code)
close_found s pathname fd none = done (s, sa_no_file)
close_found s pathname fd (some found) = writer_lock found >>= λ file.
    done (put_back s pathname (writer_unlock (leave file fd)), sa_success)

-- `close_file` under `files_mtx`
unfoldable pub close_under_lock : Server → FileName → ℕ → Outcome (Server × Code)
close_under_lock s pathname fd = close_found s pathname fd (HashMap.get s.files pathname)

unfoldable pub close_file : (ℕ → Bool) → Input → Server → ℕ → Outcome (Server × Code)
close_file can_alloc input s fd =
    serve (receive_path can_alloc input) (λ code. (s, code))
      λ pathname. close_under_lock s pathname fd

-- the loop of `close_client` over the iterator
unfoldable pub leave_all : List (FileName × File) → Server → ℕ → Outcome Server
leave_all [] s fd = done s
leave_all ((k, curr_file) ∷ rest) s fd = writer_lock curr_file >>= λ file.
    leave_all rest (put_back s k (writer_unlock (leave file fd))) fd

-- `close_client`, for a descriptor that is not -1
unfoldable pub close_client : Server → ℕ → Outcome Server
close_client s fd =
    leave_all (entries s.files)
      (record s { curr_state = record s.curr_state { conn = dec32 s.curr_state.conn } }) fd
