-- ===== src/Server/RemoveFile.antt =====
-- src/server/remove_file.c. To remove a file that is not there is a success.
pub mod Laws
use sol_project.Prelude.{ℕ, Bool, not, Option, none, some, bytes_key, if◌then◌else◌}
use sol_project.Io.{Input}
use sol_project.Hash.HashMap
use sol_project.Hash.HashTable
use sol_project.Server.State.{
  FileName, File, Server, Code, sa_success, sa_no_open, sa_not_locked, Outcome, done, ◌>>=◌, dec32,
  sub64, put_back,
}
use sol_project.Server.FileLocks.{writer_lock, writer_unlock}
use sol_project.Server.OpenFile.{is_held}
use sol_project.Server.Requests.{receive_path, serve}

-- the checks of `remove_file`, in its order
unfoldable pub remove_refusal : File → ℕ → Option Code
remove_refusal file fd =
    if not (HashTable.contains file.fd_open fd)
    then some sa_no_open
    else if not (is_held file.fd_lock fd)
    then some sa_not_locked
    else none

-- the statistics and the map without the file
unfoldable pub drop_file : Server → FileName → File → Server
drop_file s pathname file = record s {
  files = (HashMap.remove s.files pathname).1;
  curr_state = record s.curr_state {
    files = dec32 s.curr_state.files;
    space = sub64 s.curr_state.space file.size;
  };
}

-- what follows the checks
unfoldable pub remove_checked : Server → FileName → File → Option Code → Server × Code
remove_checked s pathname file (some code) = (put_back s pathname (writer_unlock file), code)
remove_checked s pathname file none = (drop_file s pathname file, sa_success)

-- what follows the lookup
unfoldable pub remove_found : Server → FileName → ℕ → Option File → Outcome (Server × Code)
remove_found s pathname fd none = done (s, sa_success)
remove_found s pathname fd (some found) =
    writer_lock found >>= λ file. done (remove_checked s pathname file (remove_refusal file fd))

-- `remove_file` under `files_mtx`
unfoldable pub remove_under_lock : Server → FileName → ℕ → Outcome (Server × Code)
remove_under_lock s pathname fd = remove_found s pathname fd (HashMap.get s.files pathname)

unfoldable pub remove_file : (ℕ → Bool) → Input → Server → ℕ → Outcome (Server × Code)
remove_file can_alloc input s fd =
    serve (receive_path can_alloc input) (λ code. (s, code))
      λ pathname. remove_under_lock s pathname fd
