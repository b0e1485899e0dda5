-- ===== src/Api/Calls.antt =====
-- src/api: the calls that send a path name and read a code.
use sol_project.Prelude.{
  ℕ, Bool, true, false, Option, none, some, List, [], ◌∷◌, ◌++◌, length, if◌then◌else◌, bytes_key,
}
use sol_project.Io.{Input, Output, readn}
use sol_project.Server.State.{FileName}
use sol_project.Server.OpenFile.{is_flag_set, o_create, o_lock}
use sol_project.Server.Requests.{to_bytes, from_bytes}
use sol_project.Server.Send.{send_each}
use sol_project.Api.State.{
  Errno, enotconn, einval, ebade, enosys, convert_res_to_errno, reset_last_op, Client, Result,
  returns, fails, Reply, reply, arrived,
}

-- A path name on the wire: its length, and its bytes with the zero at the end.
abbrev pub path_parts : FileName → List (List ℕ)
path_parts pathname = to_bytes 4 (length pathname) ∷ (pathname ++ 0 ∷ []) ∷ []

-- The code of the answer as the result of the call.
abbrev pub by_code : Option Errno → Result
by_code none = returns 0
by_code (some e) = fails e

-- `readn(fd_sock, &res, sizeof(int))`, and what follows it
abbrev pub then_answer : Client → Output → Option (List ℕ × Input) → (ℕ → Input → Reply) → Reply
then_answer c out none next = reply (fails ebade) c out none
then_answer c out (some (b, rest)) next = next (from_bytes b) rest

-- the code is the whole answer
abbrev pub end_with_code : Client → Output → Input → Reply
end_with_code c out input =
    then_answer c out (arrived (readn 4 input))
      λ res rest. reply (by_code (convert_res_to_errno res)) c out (some rest)

-- The guards of every call that takes a path name, and then the call.
abbrev pub on_path : Client → Option FileName → Input → Output → (FileName → Reply) → Reply
on_path c pathname input out call = elim c.fd_sock [
  | none ↦ reply (fails enotconn) c out (some input)
  | some fd ↦ elim pathname [
    | none ↦ reply (fails einval) c out (some input)
    | some name ↦ call name
  ]
]

-- The buffers of a request in turn; a `writen` that returns -1 ends the call.
abbrev pub sending : Client → Input → List (List ℕ) → Output → (Output → Reply) → Reply
sending c input buffers out next =
    let (sent, out') = send_each buffers out in
    if sent then next out' else reply (fails ebade) c out' (some input)

-- what `openFile` remembers
abbrev pub opening : Client → FileName → ℕ → Bool → Client
opening c name flags success = record c {
  last_op = record {
    is_open = true;
    create = is_flag_set flags o_create;
    lock = is_flag_set flags o_lock;
    success = success;
    path = some name;
  };
}

abbrev pub opened : Client → FileName → ℕ → Output → Input → Option Errno → Reply
opened c name flags out rest none = reply (returns 0) (opening c name flags true) out (some rest)
opened c name flags out rest (some e) = reply (fails e) (opening c name flags false) out (some rest)

-- `openFile(pathname, flags)`
unfoldable pub open_file : Client → Option FileName → ℕ → Input → Output → Reply
open_file c pathname flags input out = on_path c pathname input out λ name.
    sending c input (to_bytes 4 0 ∷ path_parts name ++ to_bytes 4 flags ∷ []) out λ out'.
      then_answer (opening c name flags false) out' (arrived (readn 4 input))
        λ res rest. opened c name flags out' rest (convert_res_to_errno res)

abbrev pub forgetful : Client → Client
forgetful c = record c { last_op = reset_last_op }

-- A request of an operation and a path name.
abbrev pub path_request : ℕ → Client → Option FileName → Input → Output → Reply
path_request op c pathname input out = on_path c pathname input out λ name.
    sending (forgetful c) input (to_bytes 4 op ∷ path_parts name) out
      λ out'. end_with_code (forgetful c) out' input

-- `closeFile(pathname)`
unfoldable pub close_file : Client → Option FileName → Input → Output → Reply
close_file c pathname input out = path_request 1 c pathname input out

-- `removeFile(pathname)`
unfoldable pub remove_file : Client → Option FileName → Input → Output → Reply
remove_file c pathname input out = path_request 8 c pathname input out

-- `lockFile` and `unlockFile` are not implemented.
unfoldable pub lock_file : Client → Option FileName → Input → Output → Reply
lock_file c pathname input out = reply (fails enosys) c out (some input)

unfoldable pub unlock_file : Client → Option FileName → Input → Output → Reply
unlock_file c pathname input out = reply (fails enosys) c out (some input)
