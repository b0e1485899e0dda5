-- ===== src/Server/Send.antt =====
-- src/server/send_files_to_client.c: files on their way to a client, as a sequence of calls of
-- `writen` that ends at the first that returns -1.
pub mod Wire
use sol_project.Prelude.{ℕ, Bool, true, false, List, [], ◌∷◌, ◌++◌, length, eqb, if◌then◌else◌}
use sol_project.Io.{Output, Write, whole, stopped, error, writen}
use sol_project.Server.State.{File}
use sol_project.Server.Requests.{to_bytes}

-- `writen(...) == -1`
abbrev pub is_error : Write → Bool
is_error whole = false
is_error stopped = false
is_error error = true

-- the buffers in turn; `false` for -1
unfoldable pub send_each : List (List ℕ) → Output → Bool × Output
send_each [] out = (true, out)
send_each (buf ∷ bufs) out =
    let (res, out') = writen buf out in
    let rest = send_each bufs out' in if is_error res then (false, out') else rest

-- the path name, with its length before it and a zero byte behind it
abbrev pub path_buffers : Bool → File → List (List ℕ)
path_buffers true file = to_bytes 4 (length file.path_name) ∷ (file.path_name ++ 0 ∷ []) ∷ []
path_buffers false file = []

-- what `send_single_file` writes
unfoldable pub file_buffers : Bool → File → List (List ℕ)
file_buffers send_path file =
    path_buffers send_path file
    ++ to_bytes 8 file.size ∷ (if eqb file.size 0 then [] else file.contents ∷ [])

-- `send_single_file`
unfoldable pub send_single_file : File → Bool → Output → Bool × Output
send_single_file file send_path out = send_each (file_buffers send_path file) out

-- `send_list_of_files`, with the zero at the end
unfoldable pub send_list_of_files : List File → Bool → Output → Bool × Output
send_list_of_files [] send_path out = send_each (to_bytes 4 0 ∷ []) out
send_list_of_files (file ∷ files) send_path out =
    let (sent, out') = send_single_file file send_path out in
    let rest = send_list_of_files files send_path out' in if sent then rest else (false, out')
