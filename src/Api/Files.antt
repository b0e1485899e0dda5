-- ===== src/Api/Files.antt =====
-- src/api: the calls that move files, and src/util/files.c, which writes those that the server sends
-- into a directory. The file system is a parameter: what is read from a file (`none` for an error),
-- whether a directory can be made, whether a file can be written, and which paths name the same file.
pub mod Laws
pub mod Deliver
use sol_project.Prelude.{
  ℕ, zero, suc, ◌+◌, ◌%◌, ◌^◌, Bool, true, false, not, ◌||◌, ◌&&◌, Option, none, some, List, [],
  ◌∷◌, ◌++◌, length, eqb, ltb, if◌then◌else◌, bytes_key,
}
use sol_project.Io.{Input, Output, Arrival, bytes, interrupted, readn}
use sol_project.Server.State.{FileName, Outcome, done, aborted, crashed, diverged, ◌>>=◌}
use sol_project.Server.Requests.{to_bytes, from_bytes, size_of_int, c_string}
use sol_project.Server.Send.{send_each}
use sol_project.Api.State.{
  Errno, enotty, eio, einval, enotconn, enotempty, ecanceled, ebade, convert_res_to_errno, LastOp,
  reset_last_op, Client, Result, returns, fails, Reply, reply, arrived,
}
use sol_project.Api.Calls.{path_parts, by_code, then_answer, on_path, sending, forgetful}

-- A file that the server has sent: the buffer with its path name, and its contents.
abbrev pub SentFile : Type 0
SentFile = List ℕ × List ℕ

-- One file arrives: `none` when the connection fails.
abbrev pub Arriving : Type 0
Arriving = Outcome (Option (SentFile × Input))

abbrev pub then_read :
    {A : Type 0}
    → Option (List ℕ × Input)
    → (List ℕ → Input → Outcome (Option A))
    → Outcome (Option A)
then_read none next = done none
then_read (some (b, rest)) next = next b rest

module _ (can_alloc : ℕ → Bool) where
  -- a buffer allocated and filled
  abbrev pub fill : ℕ → Input → (List ℕ → Input → Arriving) → Arriving
  fill size input next =
      if can_alloc size then then_read (arrived (readn size input)) next else aborted

  -- the body of the loop of `write_files_sent_by_server`, after the length of a path name
  unfoldable pub receive_file : ℕ → Input → Arriving
  receive_file path_len input = fill (size_of_int ((path_len + 1) % 2 ^ 32)) input λ path rest.
      then_read (arrived (readn 8 rest)) λ size rest'.
        if eqb (from_bytes size) 0
        then done (some ((path, []), rest'))
        else fill (from_bytes size) rest' λ buf rest''. done (some ((path, buf), rest''))

  abbrev pub go_on :
      Option (SentFile × Input)
      → (SentFile → Input → Outcome (Option (List SentFile × Input)))
      → Outcome (Option (List SentFile × Input))
  go_on none next = done none
  go_on (some (file, rest)) next = next file rest

  abbrev pub put_before : SentFile → Option (List SentFile × Input) → Option (List SentFile × Input)
  put_before file none = none
  put_before file (some (files, rest)) = some (file ∷ files, rest)

  -- the loop, up to a length of 0
  unfoldable pub receive_files : ℕ → Input → Outcome (Option (List SentFile × Input))
  receive_files zero input = diverged
  receive_files (suc fuel) input = then_read (arrived (readn 4 input)) λ path_len rest.
      elim (eqb (from_bytes path_len) 0) [
        | true ↦ done (some ([], rest))
        | false ↦ receive_file (from_bytes path_len) rest >>= λ o.
            go_on o λ file rest'. receive_files fuel rest' >>= λ more. done (put_before file more)
      ]

-- the bytes of an input: each round of the loop takes some, so that one round more is enough
abbrev pub arriving : List Arrival → ℕ
arriving [] = 0
arriving (bytes b ∷ rest) = length b + arriving rest
arriving (interrupted ∷ rest) = arriving rest

-- `strrchr(path, '/')`: from the last slash on
unfoldable pub from_last_slash : List ℕ → Option (List ℕ)
from_last_slash [] = none
from_last_slash (b ∷ bs) = elim (from_last_slash bs) [
  | some name ↦ some name
  | none ↦ if eqb b 47 then some (b ∷ bs) else none
]

-- `remove_path_from_name`
unfoldable pub remove_path_from_name : List ℕ → List ℕ
remove_path_from_name path = elim (from_last_slash path) [ none ↦ path | some name ↦ name ]

-- what stands in the client's file system under a path; `none` if nothing does
abbrev pub Disk : Type 0
Disk = List ℕ → Option (List ℕ)

abbrev pub named : Option FileName → (FileName → Outcome (ℕ × Disk)) → Outcome (ℕ × Disk)
named none next = crashed
named (some name) next = next name

-- how many files have been written, against how many there are
abbrev pub weigh_written : ℕ → Option ℕ × Disk → Result × Disk
weigh_written nelem (none, disk) = (fails enotempty, disk)
weigh_written nelem (some n, disk) =
    if ltb n nelem then (fails ecanceled, disk) else (returns n, disk)

-- A call that receives files: its result, what is on the disk, and what is still to be read.
abbrev pub Received : Type 0
Received = Result × Disk × Option Input

-- `same_file`: two paths name the same file, as those with one and with two slashes do
module _ (mkdir_p : List ℕ → Bool) (can_write : List ℕ → List ℕ → Bool)
    (same_file : List ℕ → List ℕ → Bool) where
  -- `fopen` with "wb" and `fwrite`: what was in the file is lost
  unfoldable pub write_over : List ℕ → List ℕ → Disk → Disk
  write_over path buf disk p = if same_file p path then some buf else disk p

  -- the loop of `write_list_of_files_into_dir`: after a file that cannot be written it goes on with
  -- the same file
  unfoldable pub write_all : List SentFile → List ℕ → Disk → Outcome (ℕ × Disk)
  write_all [] dirname disk = done (0, disk)
  write_all ((key, buf) ∷ files) dirname disk = named (c_string key) λ name.
      let path = dirname ++ 47 ∷ remove_path_from_name name in
      let rest = write_all files dirname (write_over path buf disk) in
      if can_write path buf then (rest >>= λ r. done (suc r.0, r.1)) else diverged

  -- `write_list_of_files_into_dir`, with `none` for -1
  unfoldable pub write_list_of_files_into_dir :
      List SentFile → Option (List ℕ) → Disk → Outcome (Option ℕ × Disk)
  write_list_of_files_into_dir files none disk = done (some 0, disk)
  write_list_of_files_into_dir files (some dirname) disk =
      if mkdir_p dirname
      then (write_all files dirname disk >>= λ r. done (some r.0, r.1))
      else done (none, disk)

  -- the files are written only after a success
  abbrev pub by_answer :
      List SentFile → Option (List ℕ) → Disk → Input → Option Errno → Outcome Received
  by_answer files dirname disk rest (some e) = done (fails e, disk, some rest)
  by_answer files dirname disk rest none = write_list_of_files_into_dir files dirname disk >>= λ r.
      done ((weigh_written (length files) r).0, (weigh_written (length files) r).1, some rest)

  abbrev pub final_answer :
      List SentFile → Option (List ℕ) → Disk → Option (List ℕ × Input) → Outcome Received
  final_answer files dirname disk none = done (fails ebade, disk, none)
  final_answer files dirname disk (some (res, rest)) =
      by_answer files dirname disk rest (convert_res_to_errno (from_bytes res))

  abbrev pub after_files :
      Option (List ℕ) → Disk → Option (List SentFile × Input) → Outcome Received
  after_files dirname disk none = done (fails ebade, disk, none)
  after_files dirname disk (some (files, rest)) =
      final_answer files dirname disk (arrived (readn 4 rest))

  -- `write_files_sent_by_server(dirname)`
  unfoldable pub write_files_sent_by_server :
      (ℕ → Bool) → Option (List ℕ) → Input → Disk → Outcome Received
  write_files_sent_by_server can_alloc dirname input disk =
      receive_files can_alloc (suc (arriving input.arrivals)) input >>= after_files dirname disk
