-- ===== src/Server/OpenFile.antt =====
-- src/server/open_file.c, under `files_mtx`: creation with a possible expulsion, and opening.
-- `clock_gettime` is an argument. Logging is left out. The file that an expulsion throws away is
-- part of the result.
pub mod Existing
pub mod Room
pub mod Create
use sol_project.Prelude.{
  ℕ, ◌/◌, ◌%◌, ◌^◌, Bool, true, false, ◌&&◌, not, Option, none, some, [], bytes_key, ltb, eqb,
  if◌then◌else◌,
}
use sol_project.Hash.HashMap
use sol_project.Hash.HashTable
use sol_project.Hash.HashTable.{default_hash}
use sol_project.Server.State.{
  FileName, Timespec, File, Server, Code, sa_success, sa_exists, sa_no_file, sa_already_locked,
  Outcome, done, ◌>>=◌, inc32, through, put_back,
}
use sol_project.Server.FileLocks.{writer_lock, writer_unlock}
use sol_project.Server.Replacement.{expell_single_file}

abbrev pub o_create : ℕ
o_create = 1

abbrev pub o_lock : ℕ
o_lock = 2

-- `IS_FLAG_SET(val, flag)`: bit `flag / 2` of `val`
unfoldable pub is_flag_set : ℕ → ℕ → Bool
is_flag_set val flag = eqb (val / 2 ^ (flag / 2) % 2) 1

-- `fd_lock == fd_client`, for a client
abbrev pub is_held : Option ℕ → ℕ → Bool
is_held none fd = false
is_held (some c) fd = eqb c fd

-- `fd_lock != -1 && fd_lock != fd_client`
abbrev pub is_held_by_other : Option ℕ → ℕ → Bool
is_held_by_other none fd = false
is_held_by_other (some c) fd = not (eqb c fd)

-- `create_file`: the new file, locked for writing by this thread
unfoldable pub create_file : FileName → ℕ → ℕ → Timespec → Timespec → Outcome File
create_file pathname flags fd created used = writer_lock (record {
  path_name = pathname;
  contents = [];
  size = 0;
  fd_lock = if is_flag_set flags o_lock then some fd else none;
  fd_open = HashTable.insert (HashTable.init 4 default_hash) fd;
  n_readers = 0;
  n_writers = 0;
  creation_time = created;
  last_use = used;
  can_be_expelled = false;
})

abbrev pub after_expulsion : Server → Option (File × Server) → Server × Option File
after_expulsion s none = (s, none)
after_expulsion s (some (expelled, s')) = (s', some expelled)

-- the expulsion when as many files are stored as may be; a failure is ignored
unfoldable pub make_room : Server → Outcome (Server × Option File)
make_room s =
    if eqb s.curr_state.files s.config.max_files
    then (expell_single_file s >>= λ r. done (after_expulsion s r))
    else done (s, none)

-- `hashmap_insert`, and the count of files with its peak
unfoldable pub add_file : Server → FileName → File → Server
add_file s pathname file =
    let files = inc32 s.curr_state.files in
    record s {
      files = HashMap.insert s.files pathname file;
      curr_state = record s.curr_state {
        files = files;
        max_files = if ltb s.curr_state.max_files files then files else s.curr_state.max_files;
      };
    }

-- the new file, still locked, put into the map and unlocked
unfoldable pub install : Server → FileName → File → Server
install s pathname file =
    through (add_file s pathname (record file { can_be_expelled = true })) pathname writer_unlock

-- the branch with O_CREATE
unfoldable pub open_create :
    Server → FileName → ℕ → ℕ → Timespec → Timespec → Outcome (Server × Option File × Code)
open_create s pathname flags fd created used =
    if HashMap.contains s.files pathname
    then done (s, none, sa_exists)
    else (create_file pathname flags fd created used >>= λ file.
        make_room s >>= λ r. done (install r.0 pathname file, r.1, sa_success))

-- the client in the lock, if asked for, and in the table of clients that have the file open
unfoldable pub admit : File → ℕ → ℕ → Timespec → File
admit file flags fd now = record file {
  fd_lock = if is_flag_set flags o_lock then some fd else file.fd_lock;
  fd_open =
      if HashTable.contains file.fd_open fd then file.fd_open else HashTable.insert file.fd_open fd;
  last_use = now;
}

-- what follows the lock on the file
unfoldable pub open_locked : Server → FileName → ℕ → ℕ → Timespec → File → Server × Code
open_locked s pathname flags fd now file =
    if is_flag_set flags o_lock && is_held_by_other file.fd_lock fd
    then (put_back s pathname (writer_unlock file), sa_already_locked)
    else (put_back s pathname (writer_unlock (admit file flags fd now)), sa_success)

-- what follows the lookup
unfoldable pub open_found :
    Server → FileName → ℕ → ℕ → Timespec → Option File → Outcome (Server × Code)
open_found s pathname flags fd now none = done (s, sa_no_file)
open_found s pathname flags fd now (some found) =
    writer_lock found >>= λ file. done (open_locked s pathname flags fd now file)

-- the branch without O_CREATE
unfoldable pub open_existing : Server → FileName → ℕ → ℕ → Timespec → Outcome (Server × Code)
open_existing s pathname flags fd now =
    open_found s pathname flags fd now (HashMap.get s.files pathname)

-- `open_file` from the first lock of `files_mtx` on
unfoldable pub open_under_lock :
    Server → FileName → ℕ → ℕ → Timespec → Timespec → Outcome (Server × Option File × Code)
open_under_lock s pathname flags fd created used =
    if is_flag_set flags o_create
    then open_create s pathname flags fd created used
    else (open_existing s pathname flags fd used >>= λ r. done (r.0, none, r.1))
