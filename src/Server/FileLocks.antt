-- ===== src/Server/FileLocks.antt =====
-- src/server/file_locks.c as one thread meets it: `access_cond` is waited for while writers, or
-- for a writer readers too, use the file. The critical sections of the requests run under
-- `files_mtx`, one at a time; only readers keep a file after theirs.
pub mod Laws
use sol_project.Prelude.{ℕ, ◌+◌, ◌-◌, ◌%◌, ◌^◌, ◌||◌, ltb, if◌then◌else◌}
use sol_project.Server.State.{File, Outcome, done, blocked, inc32, dec32}

unfoldable pub reader_lock : File → Outcome File
reader_lock file =
    if ltb 0 file.n_writers
    then blocked
    else done (record file { n_readers = inc32 file.n_readers })

unfoldable pub reader_unlock : File → File
reader_unlock file = record file { n_readers = dec32 file.n_readers }

unfoldable pub writer_lock : File → Outcome File
writer_lock file =
    if ltb 0 file.n_writers || ltb 0 file.n_readers
    then blocked
    else done (record file { n_writers = inc32 file.n_writers })

unfoldable pub writer_unlock : File → File
writer_unlock file = record file { n_writers = dec32 file.n_writers }
