-- ===== src/Server/WriteFile.antt =====
-- src/server/write_file.c and append_to_file.c, under `files_mtx`: the checks, the new contents,
-- and the expulsion of other files when the store has become too large.
pub mod Grow
pub mod Stores
pub mod Append
pub mod Laws
use sol_project.Prelude.{
  ℕ, true, false, not, Option, none, some, List, [], ◌++◌, bytes_key, ltb, eqb, if◌then◌else◌,
}
use sol_project.Hash.HashMap
use sol_project.Hash.HashTable
use sol_project.Server.State.{
  FileName, Timespec, File, Server, Code, sa_success, sa_no_file, sa_no_open, sa_not_locked,
  sa_not_empty, sa_too_big, Outcome, done, ◌>>=◌, add64, sub64, long_positive, through, put_back,
}
use sol_project.Server.FileLocks.{writer_lock, writer_unlock}
use sol_project.Server.Replacement.{expell_multiple_files}
use sol_project.Server.OpenFile.{is_held}

-- The expulsion of other files, while the one that has grown is protected.
unfoldable pub reclaim : Server → FileName → File → ℕ → Outcome (Server × List File)
reclaim s pathname file size_to_remove =
    if long_positive size_to_remove
    then (expell_multiple_files size_to_remove
          (put_back s pathname (record file { can_be_expelled = false }))
        >>= λ r. done (through r.0 pathname (λ f. record f { can_be_expelled = true }), r.1))
    else done (s, [])

-- the peak of the occupied space
unfoldable pub raise_peak : Server → Server
raise_peak s = record s {
  curr_state = record s.curr_state {
    max_space =
        if ltb s.curr_state.max_space s.curr_state.space
        then s.curr_state.space
        else s.curr_state.max_space;
  };
}

-- `curr_state.space += size`
unfoldable pub add_space : Server → ℕ → Server
add_space s size = record s {
  curr_state = record s.curr_state { space = add64 s.curr_state.space size };
}

-- The store after a file under its writer lock has grown by `size` bytes: its size enters the
-- statistics, other files are expelled, and the peak is updated.
unfoldable pub grow_store : Server → FileName → File → ℕ → Outcome (Server × List File)
grow_store s pathname file size =
    let s' = add_space (put_back s pathname file) size in
    reclaim s' pathname file (sub64 s'.curr_state.space s.config.max_space) >>= λ r.
    done (raise_peak r.0, r.1)

-- the checks of `write_file`, in its order
unfoldable pub write_refusal : ℕ → File → ℕ → ℕ → Option Code
write_refusal max_space file size fd =
    if not (HashTable.contains file.fd_open fd)
    then some sa_no_open
    else if not (is_held file.fd_lock fd)
    then some sa_not_locked
    else if not (eqb file.size 0)
    then some sa_not_empty
    else if ltb max_space size
    then some sa_too_big
    else none

-- what follows the checks
unfoldable pub write_checked :
    Server
    → FileName
    → ℕ
    → List ℕ
    → Timespec
    → File
    → Option Code
    → Outcome (Server × List File × Code)
write_checked s pathname size buf now file (some code) =
    done (put_back s pathname (writer_unlock file), [], code)
write_checked s pathname size buf now file none =
    grow_store s pathname (record file { size = size; contents = buf; last_use = now }) size
    >>= λ r. done (through r.0 pathname writer_unlock, r.1, sa_success)

-- what follows the lookup
unfoldable pub write_found :
    Server
    → FileName
    → ℕ
    → List ℕ
    → ℕ
    → Timespec
    → Option File
    → Outcome (Server × List File × Code)
write_found s pathname size buf fd now none = done (s, [], sa_no_file)
write_found s pathname size buf fd now (some found) = writer_lock found >>= λ file.
    write_checked s pathname size buf now file (write_refusal s.config.max_space file size fd)

-- `write_file` between locking and unlocking `files_mtx`
unfoldable pub write_under_lock :
    Server → FileName → ℕ → List ℕ → ℕ → Timespec → Outcome (Server × List File × Code)
write_under_lock s pathname size buf fd now =
    write_found s pathname size buf fd now (HashMap.get s.files pathname)

-- the checks of `append_to_file`, in its order
unfoldable pub append_refusal : ℕ → File → ℕ → ℕ → Option Code
append_refusal max_space file size fd =
    if not (HashTable.contains file.fd_open fd)
    then some sa_no_open
    else if ltb max_space (add64 file.size size)
    then some sa_too_big
    else none

-- the file with `buf` behind its contents
unfoldable pub extend : File → ℕ → List ℕ → Timespec → File
extend file size buf now = record file {
  contents = file.contents ++ buf;
  size = add64 file.size size;
  last_use = now;
}

-- what follows the checks
unfoldable pub append_checked :
    Server
    → FileName
    → ℕ
    → List ℕ
    → Timespec
    → File
    → Option Code
    → Outcome (Server × List File × Code)
append_checked s pathname size buf now file (some code) =
    done (put_back s pathname (writer_unlock file), [], code)
append_checked s pathname size buf now file none =
    grow_store s pathname (extend file size buf now) size >>= λ r.
    done (through r.0 pathname writer_unlock, r.1, sa_success)

-- what follows the lookup
unfoldable pub append_found :
    Server
    → FileName
    → ℕ
    → List ℕ
    → ℕ
    → Timespec
    → Option File
    → Outcome (Server × List File × Code)
append_found s pathname size buf fd now none = done (s, [], sa_no_file)
append_found s pathname size buf fd now (some found) = writer_lock found >>= λ file.
    append_checked s pathname size buf now file (append_refusal s.config.max_space file size fd)

-- `append_to_file` from its test on `size` to the unlocking of `files_mtx`
unfoldable pub append_under_lock :
    Server → FileName → ℕ → List ℕ → ℕ → Timespec → Outcome (Server × List File × Code)
append_under_lock s pathname size buf fd now =
    if eqb size 0
    then done (s, [], sa_success)
    else append_found s pathname size buf fd now (HashMap.get s.files pathname)
