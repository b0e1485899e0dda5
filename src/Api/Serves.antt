-- ===== src/Api/Serves.antt =====
-- A call of the client library and the server's worker on the two ends of a connection: the handler
-- gets what the caller has asked for, and the caller gets the handler's code.
use sol_project.Prelude.{
  ℕ, ◌+◌, ◌^◌, ◌<◌, ◌≡◌, refl, ap, ◌∙◌, Bool, true, false, Option, none, some, List, [], ◌∷◌, ◌++◌,
  length, arith, append-nil, append_assoc, flatten,
}
use sol_project.Io.{Input, Output, readn}
use sol_project.Io.Laws.{stream, Nonempty}
use sol_project.Server.State.{
  FileName, Timespec, File, Server, Code, sa_success, sa_error, sa_close, sa_exists, sa_no_file,
  sa_already_locked, sa_not_locked, sa_not_empty, sa_too_big, sa_no_open, done,
}
use sol_project.Server.OpenFile.{open_under_lock}
use sol_project.Server.Requests.{to_bytes, from_bytes, code_value, receive, receive_open}
use sol_project.Server.Requests.Laws.{
  IsString, path_message, Gets, Gets-and_then, receive-Gets, receive_path-Gets, length-to_bytes,
  from_bytes-to_bytes,
}
use sol_project.Server.Workers.{
  OpCode, open_file_op, to_op_code, WorkerCode, worker_code, conclude, dispatch, handle,
  serve_client,
}
use sol_project.Server.Workers
use sol_project.Server.Send.Wire.{open_to, send_each-whole}
use sol_project.Api.State.{
  Errno, eexist, enoent, ebusy, eperm, efbig, enokey, eacces, enotrecoverable, convert_res_to_errno,
  Client, Result, returns, fails, Reply, arrived,
}
use sol_project.Api.Calls
use sol_project.Api.Calls.{path_parts, by_code, opening, opened, then_answer, sending}
use sol_project.Api.Arrivals.{Arrives, readn-Arrives, Got, Gets-Got}

-- What each code of the server means to a caller.
abbrev pub result_of : Code → Result
result_of sa_success = returns 0
result_of sa_exists = fails eexist
result_of sa_no_file = fails enoent
result_of sa_already_locked = fails ebusy
result_of sa_not_locked = fails eperm
result_of sa_not_empty = fails eacces
result_of sa_too_big = fails efbig
result_of sa_no_open = fails enokey
result_of sa_error = fails enotrecoverable
result_of sa_close = fails enotrecoverable

small_code : (code : Code) → code_value code < 256 ^ 4
unfolding code_value
small_code sa_success = omega arith
small_code sa_error = omega arith
small_code sa_close = omega arith
small_code sa_exists = omega arith
small_code sa_no_file = omega arith
small_code sa_already_locked = omega arith
small_code sa_not_locked = omega arith
small_code sa_not_empty = omega arith
small_code sa_too_big = omega arith
small_code sa_no_open = omega arith

by_code-code_value :
    (code : Code) → by_code (convert_res_to_errno (code_value code)) ≡ result_of code
unfolding code_value convert_res_to_errno
by_code-code_value sa_success = refl
by_code-code_value sa_error = refl
by_code-code_value sa_close = refl
by_code-code_value sa_exists = refl
by_code-code_value sa_no_file = refl
by_code-code_value sa_already_locked = refl
by_code-code_value sa_not_locked = refl
by_code-code_value sa_not_empty = refl
by_code-code_value sa_too_big = refl
by_code-code_value sa_no_open = refl

-- A code survives the way from the worker to the result of a call.
pub convert-code_value :
    (code : Code)
    → by_code (convert_res_to_errno (from_bytes (to_bytes 4 (code_value code)))) ≡ result_of code
convert-code_value code =
    ap (λ n. by_code (convert_res_to_errno n))
      (from_bytes-to_bytes 4 (code_value code) (small_code code))
    ∙ by_code-code_value code

-- What a client writes to open a file.
abbrev open_message : FileName → ℕ → List ℕ
open_message name flags = to_bytes 4 0 ++ (path_message name ++ to_bytes 4 flags)

-- the call after its request has been sent
abbrev open_answer : Client → FileName → ℕ → Input → Output → Reply
open_answer c name flags input out =
    then_answer (opening c name flags false) out (arrived (readn 4 input))
      λ res rest. opened c name flags out rest (convert_res_to_errno res)

opened-out :
    (c : Client) (name : FileName) (flags : ℕ) (out : Output) (rest : Input) (o : Option Errno)
    → (opened c name flags out rest o).out ≡ out
opened-out c name flags out rest none = refl
opened-out c name flags out rest (some e) = refl

then_answer-out :
    (c : Client) (out : Output) (o : Option (List ℕ × Input)) (next : ℕ → Input → Reply)
    → ((res : ℕ) (rest : Input) → (next res rest).out ≡ out)
    → (then_answer c out o next).out ≡ out
then_answer-out c out none next h = refl
then_answer-out c out (some (b, rest)) next h = h (from_bytes b) rest

-- With a connection that takes everything, the request is sent, and the rest is the answer.
open_file-answer :
    (c : Client) (fd : ℕ) (name : FileName) (flags : ℕ) (input : Input) (written : List ℕ)
    → c.fd_sock ≡ some fd
    → Calls.open_file c (some name) flags input (open_to written)
      ≡ open_answer c name flags input (open_to (written ++ open_message name flags))
unfolding Calls.open_file flatten to_bytes
open_file-answer c fd name flags input written e =
    rw
      (
        e,
        send_each-whole (to_bytes 4 0 ∷ path_parts name ++ to_bytes 4 flags ∷ []) written,
        append_assoc name,
      )
      refl

receive_open-Gets :
    (can_alloc : ℕ → Bool) (input : Input) (name back : List ℕ) (flags : ℕ)
    → IsString name
    → length name + 1 < 2 ^ 31
    → can_alloc (length name + 1) ≡ true
    → flags < 2 ^ 32
    → Nonempty input.arrivals
    → stream input.arrivals ≡ path_message name ++ (to_bytes 4 flags ++ back)
    → Gets (name, flags) back (receive_open can_alloc input)
unfolding receive_open
receive_open-Gets can_alloc input name back flags str short room small n e =
    Gets-and_then name (name, flags) (to_bytes 4 flags ++ back) back _ _
      (receive_path-Gets can_alloc input name (to_bytes 4 flags ++ back) str short room n e)
      λ rest s m.
        Gets-and_then (to_bytes 4 flags) (name, flags) back back _ _
          (receive-Gets 4 rest (to_bytes 4 flags) back (omega arith, omega arith) m s
            (length-to_bytes 4 flags))
          λ rest' s' m'.
            (ap (λ k. (name, k)) (from_bytes-to_bytes 4 flags (omega (arith, small))), s', m')

module _ (can_alloc : ℕ → Bool) (fd : ℕ) (created now : Timespec) where
  -- The worker's end: the bytes of the request lead to the critical section with its arguments.
  open_message-serve_client :
      (req : Input) (name back : List ℕ) (flags : ℕ) (s s' : Server) (expelled : Option File)
      (code : Code) (written : List ℕ)
      → IsString name
      → length name + 1 < 2 ^ 31
      → can_alloc (length name + 1) ≡ true
      → flags < 2 ^ 32
      → Nonempty req.arrivals
      → stream req.arrivals ≡ open_message name flags ++ back
      → open_under_lock s name flags fd created now ≡ done (s', expelled, code)
      → serve_client can_alloc fd created now req s (open_to written)
        ≡ done (s', worker_code code, open_to (written ++ to_bytes 4 (code_value code)))
  unfolding serve_client dispatch handle Workers.open_file conclude to_op_code flatten
  open_message-serve_client req name back flags s s' expelled code written str short room small n e
        under_lock =
      rw
        (
          serve_client,
          op.found,
          from_bytes-to_bytes 4 0 (omega arith),
          args.found,
          under_lock,
          send_each-whole (to_bytes 4 (code_value code) ∷ []) written,
          append-nil (to_bytes 4 (code_value code)),
        )
        refl
    where
      parts :
          open_message name flags ++ back
          ≡ to_bytes 4 0 ++ (path_message name ++ (to_bytes 4 flags ++ back))
      parts =
          append_assoc (to_bytes 4 0) (path_message name ++ to_bytes 4 flags) back
          ∙ ap (λ l. to_bytes 4 0 ++ l) (append_assoc (path_message name) (to_bytes 4 flags) back)

      op : Got (to_bytes 4 0) (path_message name ++ (to_bytes 4 flags ++ back)) (receive 4 req)
      op = Gets-Got (to_bytes 4 0) _ (receive 4 req) (
          receive-Gets 4 req (to_bytes 4 0) _ (omega arith, omega arith) n (e ∙ parts)
            (length-to_bytes 4 0))

      args : Got (name, flags) back (receive_open can_alloc op.rest)
      args =
          Gets-Got (name, flags) back (receive_open can_alloc op.rest)
            (receive_open-Gets can_alloc op.rest name back flags str short room small op.nonempty
              op.follows)

  open_answer-result :
      (c : Client) (name back : List ℕ) (flags : ℕ) (ans : Input) (out : Output) (code : Code)
      → Nonempty ans.arrivals
      → stream ans.arrivals ≡ to_bytes 4 (code_value code) ++ back
      → (open_answer c name flags ans out).result ≡ result_of code
  open_answer-result c name back flags ans out code n e = rw a.found (
      opened-result (convert_res_to_errno (from_bytes (to_bytes 4 (code_value code))))
      ∙ convert-code_value code)
    where
      a : Arrives (to_bytes 4 (code_value code)) back (arrived (readn 4 ans))
      a =
          readn-Arrives 4 ans (to_bytes 4 (code_value code)) back (omega arith, omega arith) n e
            (length-to_bytes 4 (code_value code))

      opened-result : (o : Option Errno) → (opened c name flags out a.rest o).result ≡ by_code o
      opened-result none = refl
      opened-result (some er) = refl

  -- A client calls openFile over a connection that takes everything and leaves nothing out,
  -- whatever the pieces in which the bytes arrive. For a path name without zero bytes and flags
  -- that fit the protocol's integers, and when the server can allocate the name: a worker that
  -- gets the request runs the critical section of open_file with that path name and those flags,
  -- and writes its code to the client; and the call returns 0 or fails with the errno for that
  -- code.
  pub open_file-serve_client :
      (c : Client) (sock : ℕ) (name : FileName) (flags : ℕ) (req ans : Input) (more back : List ℕ)
      (s s' : Server) (expelled : Option File) (code : Code) (written : List ℕ)
      → c.fd_sock ≡ some sock
      → IsString name
      → length name + 1 < 2 ^ 31
      → can_alloc (length name + 1) ≡ true
      → flags < 2 ^ 32
      → Nonempty req.arrivals
      → stream req.arrivals
        ≡ (Calls.open_file c (some name) flags ans (open_to [])).out.written ++ more
      → open_under_lock s name flags fd created now ≡ done (s', expelled, code)
      → Nonempty ans.arrivals
      → stream ans.arrivals ≡ to_bytes 4 (code_value code) ++ back
      → (serve_client can_alloc fd created now req s (open_to written)
          ≡ done (s', worker_code code, open_to (written ++ to_bytes 4 (code_value code))))
        × ((Calls.open_file c (some name) flags ans (open_to [])).result ≡ result_of code)
  open_file-serve_client c sock name flags req ans more back s s' expelled code written socket str
        short room small n e under_lock n' e' =
      (
        open_message-serve_client req name more flags s s' expelled code written str short room
            small n (e ∙ ap (λ l. l ++ more) (ap (λ (r : Reply). r.out.written) sends ∙ kept))
            under_lock,
        ap (λ (r : Reply). r.result) sends
            ∙ open_answer-result c name back flags ans (open_to (open_message name flags)) code n'
                e',
      )
    where
      sends :
          Calls.open_file c (some name) flags ans (open_to [])
          ≡ open_answer c name flags ans (open_to (open_message name flags))
      sends = open_file-answer c sock name flags ans [] socket

      kept :
          (open_answer c name flags ans (open_to (open_message name flags))).out.written
          ≡ open_message name flags
      kept =
          ap (λ (o : Output). o.written)
            (then_answer-out (opening c name flags false) (open_to (open_message name flags))
              (arrived (readn 4 ans)) _
              λ res rest. opened-out c name flags _ rest (convert_res_to_errno res))
