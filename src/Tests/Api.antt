-- ===== src/Tests/Api.antt =====
-- Instances of the theorems about the client library: a client on descriptor 4 that opens "/b".
use sol_project.Prelude.{
  ◌+◌, ◌==◌, Option, same_refl, ◌/◌, bytes_key, ℕ, ◌≡◌, ◌≢◌, ◌↔◌, refl, Bool, true, false, none,
  some, List, [], ◌∷◌, ◌++◌, arith, inl, inr, bytes_eq, suc, subst, In, map, ◌<◌, ◌≤◌, ◌*◌, ◌%◌,
}
use sol_project.Io.{Input, bytes, closed, readn, readn_loop, as_int, writen, writen_loop}
use sol_project.Io.Laws.{stream}
use sol_project.Hash.HashTable
use sol_project.Hash.HashMap
use sol_project.Hash.HashMap.{default_hashmap_hash, hash_from}
use sol_project.Hash.Chain.{find}
use sol_project.Server.State.{FileName, Timespec, File, Code, sa_success, sa_no_file, done}
use sol_project.Server.OpenFile.{
  is_flag_set, o_create, o_lock, open_under_lock, open_existing, open_found,
}
use sol_project.Server.Requests.{to_bytes, from_bytes, code_value}
use sol_project.Server.Requests.Laws.{IsString}
use sol_project.Server.Send.{send_each, file_buffers, send_single_file, send_list_of_files}
use sol_project.Server.Send.Wire.{open_to}
use sol_project.Server.Workers.{worker_code, serve_client}
use sol_project.Api.Time.{set_timespec_from_msec, nanoseconds, set_timespec_from_msec_lem}
use sol_project.Api.State.{
  fails, returns, eisconn, enotconn, Client, init_var, reset_last_op, reset_sock, connects,
  open_connection, close_connection, try_connect, convert_res_to_errno,
}
use sol_project.Api.Calls
use sol_project.Api.Transfers.{may_write}
use sol_project.Api.Files.{
  receive_files, arriving, write_files_sent_by_server, remove_path_from_name, Received,
}
use sol_project.Api.Files.Laws.{IsSendable, sent, Receives, send_list_of_files-Receives}
use sol_project.Api.Files.Deliver.{
  Delivered, write_files_sent_by_server-Delivered, remove_path_from_name_lem,
}
use sol_project.Api.Serves.{result_of, open_file-serve_client}
use sol_project.Api.Laws.{open_file-may_write, open_connection-close_connection}
use sol_project.Server.History.{boot}
use sol_project.Tests.Main.{hash_zero, one_worker}

abbrev client : Client
client = record { fd_sock = some 4; socket_path = some (47 ∷ []); last_op = reset_last_op }

abbrev name : FileName
name = 47 ∷ 98 ∷ []

name-IsString : IsString name
name-IsString = (omega arith, (omega arith, tt))

abbrev all_fit : ℕ → Bool
all_fit n = true

abbrev time : Timespec
time = record { tv_sec = 30; tv_nsec = 1 }

-- an answer, byte by byte
abbrev answer : Code → Input
answer code = record { arrivals = bytes (to_bytes 4 (code_value code)) ∷ []; ending = closed }

abbrev request : Input
request = record {
  arrivals =
      bytes (0 ∷ 0 ∷ 0 ∷ 0 ∷ 2 ∷ 0 ∷ []) ∷ bytes (0 ∷ 0 ∷ 47 ∷ 98 ∷ 0 ∷ 0 ∷ 0 ∷ 0 ∷ 0 ∷ []) ∷ [];
  ending = closed;
}

asked :
    stream request.arrivals
    ≡ (Calls.open_file client (some name) 0 (answer sa_no_file) (open_to [])).out.written ++ []
unfolding Calls.open_file send_each writen writen_loop to_bytes readn readn_loop as_int from_bytes
    code_value convert_res_to_errno
asked = refl

missing :
    open_under_lock (boot one_worker hash_zero) name 0 9 time time
    ≡ done (boot one_worker hash_zero, none, sa_no_file)
unfolding open_under_lock open_existing open_found boot is_flag_set HashMap.get HashMap.init find
missing = refl

open_file-serve_client_example :
    (serve_client all_fit 9 time time request (boot one_worker hash_zero) (open_to [])
      ≡ done (
        boot one_worker hash_zero,
        worker_code sa_no_file,
        open_to ([] ++ to_bytes 4 (code_value sa_no_file)),
      ))
    × ((Calls.open_file client (some name) 0 (answer sa_no_file) (open_to [])).result
        ≡ result_of sa_no_file)
open_file-serve_client_example =
    open_file-serve_client all_fit 9 time time client 4 name 0 request (answer sa_no_file) [] []
      (boot one_worker hash_zero) (boot one_worker hash_zero) none sa_no_file [] refl name-IsString
      (omega arith) refl (omega arith) ((λ e. cc), ((λ e. cc), tt)) asked missing (nonempty, tt)
      answered
  where
    nonempty : to_bytes 4 (code_value sa_no_file) ≢ []
    nonempty = unfold to_bytes in λ e. cc

    answered : stream (answer sa_no_file).arrivals ≡ to_bytes 4 (code_value sa_no_file) ++ []
    answered = refl

-- An open that succeeded, with both flags, and a write under a shorter name.
opened : (Calls.open_file client (some name) 3 (answer sa_success) (open_to [])).result ≡ returns 0
unfolding Calls.open_file send_each writen writen_loop to_bytes readn readn_loop as_int from_bytes
    code_value convert_res_to_errno
opened = refl

creates : is_flag_set 3 o_create ≡ true
unfolding is_flag_set
creates = refl

locks : is_flag_set 3 o_lock ≡ true
unfolding is_flag_set
locks = refl

open_file-may_write_example :
    (may_write
        (Calls.open_file client (some name) 3 (answer sa_success) (open_to [])).client.last_op
        (47 ∷ [])
      ≡ true)
    ↔ ((rest : List ℕ) × (name ≡ (47 ∷ []) ++ rest))
open_file-may_write_example =
    open_file-may_write client 4 name (47 ∷ []) 3 (answer sa_success) (open_to []) refl creates
      locks opened

joins :
    open_connection init_var (some name) false (some 4) (connects ∷ [])
    ≡ some (returns 0, record init_var { fd_sock = some 4; socket_path = some name })
unfolding open_connection init_var try_connect
joins = refl

open_connection-close_connection_example :
    (open_connection
        (record init_var { fd_sock = some 4; socket_path = some name })
        (some name)
        true
        none
        []
      ≡ some (fails eisconn, record init_var { fd_sock = some 4; socket_path = some name }))
    × (close_connection
          (record init_var { fd_sock = some 4; socket_path = some name })
          (some [])
          true
        ≡ some (fails enotconn, record init_var { fd_sock = some 4; socket_path = some name }))
    × (close_connection
          (record init_var { fd_sock = some 4; socket_path = some name })
          (some name)
          true
        ≡ some (returns 0, reset_sock init_var))
open_connection-close_connection_example =
    open_connection-close_connection init_var
      (record init_var { fd_sock = some 4; socket_path = some name }) name [] false (some 4)
      (connects ∷ []) (some name) true none [] joins (unfold bytes_eq in refl)

abbrev note : File
note = record {
  path_name = name;
  contents = 1 ∷ 2 ∷ [];
  size = 2;
  fd_lock = none;
  fd_open = HashTable.init 4 HashTable.default_hash;
  n_readers = 0;
  n_writers = 0;
  creation_time = time;
  last_use = time;
  can_be_expelled = true;
}

note-IsSendable : (f : File) → In f (note ∷ []) → IsSendable all_fit f
note-IsSendable f (inl e) = subst (IsSendable all_fit) e (record {
  named = omega arith;
  short = omega arith;
  path_room = refl;
  sized = refl;
  small = omega arith;
  room = refl;
})
note-IsSendable f (inr h) = absurd h

note-IsString : (f : File) → In f (note ∷ []) → IsString f.path_name
note-IsString f (inl e) = subst (λ g. IsString g.path_name) e name-IsString
note-IsString f (inr h) = absurd h

abbrev delivery : Input
delivery = record {
  arrivals =
      bytes
        (2 ∷ 0 ∷ 0 ∷ 0 ∷ 47 ∷ 98 ∷ 0 ∷ 2 ∷ 0 ∷ 0 ∷ 0 ∷ 0 ∷ 0 ∷ 0 ∷ 0 ∷ 1 ∷ 2 ∷ 0 ∷ 0 ∷ 0 ∷ 0 ∷ [])
      ∷ bytes (0 ∷ 0 ∷ 0 ∷ 0 ∷ [])
      ∷ [];
  ending = closed;
}

delivered :
    [] ++ stream delivery.arrivals
    ≡ (send_list_of_files (note ∷ []) true (open_to [])).1.written
      ++ (to_bytes 4 (code_value sa_success) ++ [])
unfolding send_list_of_files send_single_file file_buffers send_each writen writen_loop to_bytes
    code_value
delivered = refl

send_list_of_files-Receives_example :
    ((send_list_of_files (note ∷ []) true (open_to [])).0 ≡ true)
    × Receives
        (map sent (note ∷ []))
        (to_bytes 4 (code_value sa_success) ++ [])
        (receive_files all_fit (suc (arriving delivery.arrivals)) delivery)
send_list_of_files-Receives_example =
    send_list_of_files-Receives all_fit (note ∷ []) [] delivery
      (to_bytes 4 (code_value sa_success) ++ []) note-IsSendable ((λ e. cc), ((λ e. cc), tt))
      delivered

abbrev always : List ℕ → List ℕ → Bool
always p b = true

abbrev same_path : FileName → FileName → Bool
same_path p q = p == q

abbrev empty_disk : List ℕ → Option (List ℕ)
empty_disk p = none

write_files_sent_by_server-Delivered_example :
    (r : Received) × (write_files_sent_by_server
        (λ d. true)
        always
        same_path
        all_fit
        (some (99 ∷ []))
        delivery
        empty_disk
      ≡ done r)
    × Delivered same_path (note ∷ []) (some (99 ∷ [])) empty_disk r.0 r.1
write_files_sent_by_server-Delivered_example =
    write_files_sent_by_server-Delivered all_fit (λ d. true) always same_path (λ d. refl)
      (λ p b. refl) same_refl (note ∷ []) [] delivery [] (some (99 ∷ [])) empty_disk note-IsSendable
      note-IsString ((λ e. cc), ((λ e. cc), tt)) delivered

remove_path_from_name_lem_example :
    (remove_path_from_name (98 ∷ []) ≡ 98 ∷ [])
    × (remove_path_from_name ((47 ∷ 97 ∷ []) ++ 47 ∷ 98 ∷ []) ≡ 47 ∷ 98 ∷ [])
remove_path_from_name_lem_example =
    remove_path_from_name_lem (47 ∷ 97 ∷ []) (98 ∷ []) ((λ e. absurd (omega (arith, e))), tt)

set_timespec_from_msec_lem_example :
    (t : Timespec) × (set_timespec_from_msec 1500 ≡ some t)
    × (t.tv_nsec < 1000000000)
    × (t.tv_sec ≡ 1500 / 1000)
    × (nanoseconds t + 1500 % 1000 * 999000 ≡ 1500 * 1000000)
    × (nanoseconds t ≤ 1500 * 1000000)
    × ((nanoseconds t ≡ 1500 * 1000000) ↔ (1500 % 1000 ≡ 0))
set_timespec_from_msec_lem_example = set_timespec_from_msec_lem 1500 (omega arith)

-- The hash of "a".
hash_a : default_hashmap_hash (97 ∷ []) 8 ≡ 177670
unfolding default_hashmap_hash hash_from
hash_a = refl
