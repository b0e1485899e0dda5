-- ===== src/Api/Transfers.antt =====
-- src/api: the calls that move the contents of files.
use sol_project.Prelude.{
  ℕ, Bool, true, false, not, ◌&&◌, Option, none, some, List, [], ◌∷◌, ◌++◌, length, eqb,
  if◌then◌else◌, bytes_key,
}
use sol_project.Io.{Input, Output, readn}
use sol_project.Server.State.{FileName, Outcome, done, aborted, ◌>>=◌}
use sol_project.Server.Requests.{to_bytes, from_bytes}
use sol_project.Server.Send.{send_each}
use sol_project.Api.State.{
  Errno, enotty, eio, einval, enotconn, ebade, convert_res_to_errno, LastOp, Client, Result,
  returns, fails, arrived,
}
use sol_project.Api.Calls.{path_parts, by_code, forgetful}
use sol_project.Api.Files.{Disk, write_files_sent_by_server}

-- After a call that moves files: its result, the client's state, what has been sent, what is on
-- the disk, and what is still to be read.
pub record Moved : Type 0 where
  pub result : Result
  pub client : Client
  pub out : Output
  pub disk : Disk
  pub left : Option Input

-- `strncmp(last_op.path, pathname, strlen(pathname)) == 0`
unfoldable pub begins_with : FileName → FileName → Bool
begins_with [] path = true
begins_with (b ∷ bs) [] = false
begins_with (b ∷ bs) (a ∷ path) = eqb a b && begins_with bs path

abbrev pub begins : FileName → Option FileName → Bool
begins name none = false
begins name (some path) = begins_with name path

-- was the last call an `openFile(pathname, O_CREATE | O_LOCK)` that succeeded?
unfoldable pub may_write : LastOp → FileName → Bool
may_write last name =
    last.is_open && (last.create && (last.lock && (last.success && begins name last.path)))

-- `disk` is the disk before the call.
module _ (can_alloc : ℕ → Bool) (mkdir_p : List ℕ → Bool) (can_write : List ℕ → List ℕ → Bool)
    (same_file : List ℕ → List ℕ → Bool) (disk : Disk) where
  abbrev pub ended : Errno → Client → Output → Option Input → Outcome Moved
  ended e c out left =
      done (record { result = fails e; client = c; out = out; disk = disk; left = left })

  -- the guards on the connection and the path name
  abbrev pub with_path :
      Client → Option FileName → Input → Output → (FileName → Outcome Moved) → Outcome Moved
  with_path c pathname input out call = elim c.fd_sock [
    | none ↦ ended enotconn c out (some input)
    | some fd ↦ elim pathname [ none ↦ ended einval c out (some input) | some name ↦ call name ]
  ]

  -- The request is sent and the code read; only after a success the call goes on.
  abbrev pub request :
      Client → List (List ℕ) → Input → Output → (Output → Input → Outcome Moved) → Outcome Moved
  request c buffers input out next =
      let (sent, out') = send_each buffers out in
      if not sent then ended ebade c out' (some input) else elim (arrived (readn 4 input)) [
        | none ↦ ended ebade c out' none
        | some (res, rest) ↦ elim (convert_res_to_errno (from_bytes res)) [
          | some e ↦ ended e c out' (some rest)
          | none ↦ next out' rest
        ]
      ]

  -- the files that the server expels for a request
  abbrev pub take_expelled :
      Client → Option (List ℕ) → (ℕ → Result) → Output → Input → Outcome Moved
  take_expelled c dirname success out input =
      write_files_sent_by_server mkdir_p can_write same_file can_alloc dirname input disk >>= λ r.
      done (record {
        result = elim r.0 [ fails e ↦ fails e | returns n ↦ success n ];
        client = c;
        out = out;
        disk = r.1;
        left = r.2;
      })

  -- `writeFile(pathname, dirname)`, with what the file system says of the file
  unfoldable pub write_file :
      (FileName → Option (List ℕ))
      → Client
      → Option FileName
      → Option (List ℕ)
      → Input
      → Output
      → Outcome Moved
  write_file read_disk c pathname dirname input out = with_path c pathname input out λ name.
      if not (may_write c.last_op name)
      then ended enotty c out (some input)
      else elim (read_disk name) [
        | none ↦ ended eio (forgetful c) out (some input)
        | some buffer ↦
            if can_alloc (length buffer)
            then request (forgetful c)
                (to_bytes 4 3 ∷ path_parts name ++ to_bytes 8 (length buffer) ∷ buffer ∷ []) input
                out (take_expelled (forgetful c) dirname (λ _. returns 0))
            else aborted
      ]

  -- `appendToFile(pathname, buf, size, dirname)`: nothing is sent for an empty buffer but its size
  unfoldable pub append_to_file :
      Client → Option FileName → Option (List ℕ) → Option (List ℕ) → Input → Output → Outcome Moved
  append_to_file c pathname buf dirname input out = with_path c pathname input out λ name.
      elim buf [
        | none ↦ ended einval c out (some input)
        | some contents ↦
            request (forgetful c)
              (to_bytes 4 4 ∷ path_parts name
                ++ to_bytes 8 (length contents)
                  ∷ (if eqb (length contents) 0 then [] else contents ∷ []))
              input out (take_expelled (forgetful c) dirname returns)
      ]

  -- `readNFiles(N, dirname)`
  unfoldable pub read_n_files : Client → ℕ → Option (List ℕ) → Input → Output → Outcome Moved
  read_n_files c n dirname input out = elim c.fd_sock [
    | none ↦ ended enotconn c out (some input)
    | some fd ↦
        request (forgetful c) (to_bytes 4 5 ∷ to_bytes 4 n ∷ []) input out
          (take_expelled (forgetful c) dirname returns)
  ]

  -- What `readFile` gives: its result, and the buffer if it is there.
  abbrev pub got_file :
      Client → Output → Option (List ℕ) → Option (List ℕ × Input) → Moved × Option (List ℕ)
  got_file c out buf none =
      (record { result = fails ebade; client = c; out = out; disk = disk; left = none }, buf)
  got_file c out buf (some (res, rest)) = (
    record {
      result = by_code (convert_res_to_errno (from_bytes res));
      client = c;
      out = out;
      disk = disk;
      left = some rest;
    },
    buf,
  )

  abbrev pub read_contents :
      Client → Output → Option (List ℕ × Input) → Outcome (Moved × Option (List ℕ))
  read_contents c out none = ended ebade c out none >>= λ m. done (m, none)
  read_contents c out (some (size, rest)) =
      if can_alloc (from_bytes size)
      then elim (arrived (readn (from_bytes size) rest)) [
        | none ↦ ended ebade c out none >>= λ m. done (m, none)
        | some (buf, rest') ↦ done (got_file c out (some buf) (arrived (readn 4 rest')))
      ]
      else aborted

  -- `readFile(pathname, buf, size)`, with `buf` and `size` not NULL
  unfoldable pub read_file :
      Client → Option FileName → Input → Output → Outcome (Moved × Option (List ℕ))
  read_file c pathname input out = elim c.fd_sock [
    | none ↦ ended enotconn c out (some input) >>= λ m. done (m, none)
    | some fd ↦ elim pathname [
      | none ↦ ended einval c out (some input) >>= λ m. done (m, none)
      | some name ↦
          let (sent, out') = send_each (to_bytes 4 2 ∷ path_parts name) out in
          if not sent
          then (ended ebade (forgetful c) out' (some input) >>= λ m. done (m, none))
          else elim (arrived (readn 4 input)) [
            | none ↦ ended ebade (forgetful c) out' none >>= λ m. done (m, none)
            | some (res, rest) ↦ elim (convert_res_to_errno (from_bytes res)) [
              | some e ↦ ended e (forgetful c) out' (some rest) >>= λ m. done (m, none)
              | none ↦ read_contents (forgetful c) out' (arrived (readn 8 rest))
            ]
          ]
    ]
  ]
