-- ===== src/Api/Laws.antt =====
-- The state of the client library: the connection, and the last operation that a write looks at.
use sol_project.Prelude.{
  ℕ, ◌≡◌, ◌↔◌, refl, sym, ap, ◌∙◌, Bool, true, false, not, ◌||◌, Option, none, some, List, [], ◌∷◌,
  ◌++◌, arith, if◌then◌else◌, Bool-cases, inl, inr, if_true, if_false, bytes_key, ◌==◌, same_refl,
}
use sol_project.Io.{Input, Output, readn}
use sol_project.Server.State.{FileName}
use sol_project.Server.OpenFile.{is_flag_set, o_create, o_lock}
use sol_project.Server.Requests.{to_bytes, from_bytes}
use sol_project.Server.Send.{send_each}
use sol_project.Api.State.{
  Errno, ebade, reply, eisconn, enotconn, convert_res_to_errno, Client, Result, returns, fails,
  Reply, arrived, Try, try_connect, is_none, established, with_socket, open_connection,
  close_connection, reset_sock,
}
use sol_project.Api.Calls.{path_parts, open_file, opening, opened, then_answer}
use sol_project.Api.Transfers.{begins_with, may_write}

begins_with_iff :
    (name path : FileName)
    → (begins_with name path ≡ true) ↔ ((rest : List ℕ) × (path ≡ name ++ rest))
unfolding begins_with
begins_with_iff [] path = (λ _. (path, refl), λ _. refl)
begins_with_iff (b ∷ bs) [] = (λ e. absurd cc, λ h. absurd cc)
begins_with_iff (b ∷ bs) (a ∷ path) = (
  λ e.
      let (rest, p) = (begins_with_iff bs path).0 (ground arith) in
      let same : a ≡ b = ground arith in (rest, ground (arith, same, p)),
  λ (rest, p). let h = (begins_with_iff bs path).1 (rest, cc) in ground (arith, h, p),
)

module _ (path : FileName) (flags : ℕ) where
  -- a reply that is no success, or leaves the open remembered
  Remembers : Reply → Type 0
  Remembers r = r.result ≡ returns 0 → (c : Client) × (r.client ≡ opening c path flags true)

  opened-Remembers :
      (c : Client) (out : Output) (rest : Input) (o : Option Errno)
      → Remembers (opened c path flags out rest o)
  unfolding Remembers
  opened-Remembers c out rest none = λ e. (c, refl)
  opened-Remembers c out rest (some er) = λ e. absurd cc

  answer-Remembers :
      (c : Client) (out : Output) (o : Option (List ℕ × Input))
      → Remembers (
          then_answer
            (opening c path flags false)
            out
            o
            λ res rest. opened c path flags out rest (convert_res_to_errno res))
  unfolding Remembers
  answer-Remembers c out none = λ e. absurd cc
  answer-Remembers c out (some (b, rest)) =
      opened-Remembers c out rest (convert_res_to_errno (from_bytes b))

  sent-Remembers :
      (c : Client) (input : Input) (out : Output) (sent : Bool)
      → Remembers (
          if sent
          then (then_answer
              (opening c path flags false)
              out
              (arrived (readn 4 input))
              λ res rest. opened c path flags out rest (convert_res_to_errno res))
          else reply (fails ebade) c out (some input))
  unfolding Remembers
  sent-Remembers c input out true = answer-Remembers c out (arrived (readn 4 input))
  sent-Remembers c input out false = λ e. absurd cc

  open_file-Remembers :
      (c : Client) (sock : ℕ) (input : Input) (out : Output)
      → c.fd_sock ≡ some sock
      → Remembers (open_file c (some path) flags input out)
  unfolding open_file
  open_file-Remembers c sock input out e =
      let sent = send_each (to_bytes 4 0 ∷ path_parts path ++ to_bytes 4 flags ∷ []) out in
      rw e (sent-Remembers (record c { fd_sock = some sock }) input sent.1 sent.0)

-- After an openFile with O_CREATE and O_LOCK that succeeded, the check of writeFile lets a path
-- name through exactly if the opened one begins with it.
pub open_file-may_write :
    (c : Client) (sock : ℕ) (path name : FileName) (flags : ℕ) (input : Input) (out : Output)
    → c.fd_sock ≡ some sock
    → is_flag_set flags o_create ≡ true
    → is_flag_set flags o_lock ≡ true
    → (open_file c (some path) flags input out).result ≡ returns 0
    → (may_write (open_file c (some path) flags input out).client.last_op name ≡ true)
      ↔ ((rest : List ℕ) × (path ≡ name ++ rest))
unfolding Remembers may_write
open_file-may_write c sock path name flags input out socket create lock e =
    let (d, left) = open_file-Remembers path flags c sock input out socket e in
    rw (left, create, lock) (begins_with_iff name path)

-- The client after a connection to `name`.
abbrev at_name : Client → FileName → ℕ → Client
at_name c name fd = record c { fd_sock = some fd; socket_path = some name }

-- what a successful `openConnection` has done
Joined : Client → FileName → Option (Result × Client) → Type 0
Joined c name r = (c1 : Client) → r ≡ some (returns 0, c1) → (fd : ℕ) × (c1 ≡ at_name c name fd)

established-Joined :
    (c : Client) (fd : ℕ) (name : FileName) (o : Option (Option Errno))
    → Joined c name (elim o [ none ↦ none | some e ↦ some (established c fd name e) ])
unfolding Joined
established-Joined c fd name none = λ c1 h. absurd cc
established-Joined c fd name (some none) = λ c1 h. (fd, cc)
established-Joined c fd name (some (some e)) = λ c1 h. absurd cc

with_socket-Joined :
    (c : Client) (name : FileName) (tries : List Try) (socket : Option ℕ)
    → Joined c name (with_socket c name tries socket)
unfolding Joined
with_socket-Joined c name tries none = λ c1 h. absurd cc
with_socket-Joined c name tries (some fd) = established-Joined c fd name (try_connect tries)

open_connection-Joined :
    (c : Client) (name : FileName) (negative : Bool) (socket : Option ℕ) (tries : List Try)
    → Joined c name (open_connection c (some name) negative socket tries)
unfolding open_connection Joined
open_connection-Joined c name negative socket tries c1 h =
    elim (Bool-cases (not (is_none c.socket_path) || not (is_none c.fd_sock))) [
      | inl e ↦ absurd (let x = sym (if_true _ _ e) ∙ h in cc)
      | inr e ↦ by_msec negative (sym (if_false _ _ e) ∙ h)
    ]
  where
    by_msec :
        (b : Bool)
        → (if b then some (fails Errno.einval, c) else with_socket c name tries socket)
          ≡ some (returns 0, c1)
        → (fd : ℕ) × (c1 ≡ at_name c name fd)
    by_msec true g = absurd cc
    by_msec false g = with_socket-Joined c name tries socket c1 g

-- After an openConnection that succeeded: another one, to whatever socket name and with whatever
-- arguments, fails with EISCONN, closeConnection with another socket name fails with ENOTCONN,
-- both with the state as it was, and with the same name it succeeds, if close does, and leaves no
-- connection and all else as before.
pub open_connection-close_connection :
    (c c1 : Client) (name other : FileName) (negative : Bool) (socket : Option ℕ) (tries : List Try)
    (name' : Option FileName) (negative' : Bool) (socket' : Option ℕ) (tries' : List Try)
    → open_connection c (some name) negative socket tries ≡ some (returns 0, c1)
    → (other == name) ≡ false
    → (open_connection c1 name' negative' socket' tries' ≡ some (fails eisconn, c1))
      × (close_connection c1 (some other) true ≡ some (fails enotconn, c1))
      × (close_connection c1 (some name) true ≡ some (returns 0, reset_sock c))
unfolding open_connection close_connection Joined
open_connection-close_connection c c1 name other negative socket tries name' negative' socket'
      tries' e differ =
    let (fd, same) = open_connection-Joined c name negative socket tries c1 e in
    rw same (refl, if_true _ _ (ap not differ), if_false _ _ (ap not (same_refl name)))
