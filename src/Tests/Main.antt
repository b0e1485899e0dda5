-- ===== src/Tests/Main.antt =====
-- Instances of the theorems about the main thread: a server with its socket on 5 and one worker,
-- and a client on 7.
use sol_project.Prelude.{
  ℕ, ◌+◌, ◌-◌, ◌^◌, ◌≡◌, refl, true, false, some, [], ◌∷◌, ◌++◌, arith, eqb, if◌then◌else◌, nat_eq,
  ◌↔◌,
}
use sol_project.Hash.Chain.{has}
use sol_project.Hash.HashMap
use sol_project.Hash.HashTable
use sol_project.Server.State.{FileName, fifo, Config, done}
use sol_project.Server.Workers.{WorkerCode, mw_success}
use sol_project.Server.Main.{
  accept_conn, refuse_conn, close_server, Fixed, Loop, update_max, connect, turn, client_request,
  after_wait, waits, take_request, takes_client, sig_hup, on_signal, end_of_round,
}
use sol_project.Server.Main.World.{
  World, IsDistinct, is_client, connecting, requesting, signalled, taking, falling_asleep,
}
use sol_project.Server.Main.Turns.{Largest, update_max-Largest}
use sol_project.Server.Main.Tracked.{held, IsTracked}
use sol_project.Server.Main.Runs.{
  set_up, Runs, resting, going, set_up-Runs-IsTracked, Runs-request_queue,
}
use sol_project.Server.Main.Closing.{end_of_round-closes}
use sol_project.Server.History.{boot}

abbrev pub hash_zero : FileName → ℕ → ℕ
hash_zero k n = 0

abbrev pub one_worker : Config
one_worker = record { n_workers = 1; max_space = 8; max_files = 2; policy = fifo }

abbrev fixed : Fixed
fixed = record { fd_listen = 5; sig_pipe = 3; worker_pipes = 6 ∷ [] }

fixed-IsDistinct : IsDistinct fixed
fixed-IsDistinct = record { sig_other_than = refl; listen_no_pipe = refl; sig_no_pipe = refl }

abbrev at_first : World
at_first = set_up fixed (boot one_worker hash_zero)

abbrev no_result : WorkerCode × ℕ
no_result = (mw_success, 0)

abbrev with_client : World
with_client = record at_first { loop = connect at_first.loop 7 }

arrives : turn fixed at_first.loop 5 7 no_result ≡ done with_client.loop
unfolding turn set_up
arrives = refl

abbrev asked_for : Loop
asked_for = record with_client.loop {
  request_queue = 7 ∷ [];
  set = λ i. if eqb i 7 then false else with_client.loop.set i;
  fd_max = 6;
}

asks_now : turn fixed with_client.loop 7 0 no_result ≡ done asked_for
unfolding turn client_request connect set_up update_max
asks_now = refl

new_client : HashTable.contains at_first.loop.conn_client_table 7 ≡ false
unfolding set_up HashTable.contains HashTable.init HashMap.init has HashTable.default_hash
new_client = refl

first_nelem : at_first.loop.conn_client_table.nelem ≡ 0
unfolding set_up HashTable.init HashMap.init
first_nelem = refl

mode_first : at_first.loop.mode ≡ accept_conn
unfolding set_up
mode_first = refl

listening : with_client.loop.set 7 ≡ true
unfolding connect
listening = refl

no_conn : (boot one_worker hash_zero).curr_state.conn ≡ 0
unfolding boot
no_conn = refl

abbrev queued_world : World
queued_world = record with_client { loop = asked_for }

abbrev until_queued : Runs fixed at_first (7 ∷ []) [] queued_world
until_queued =
    going
      (going resting (
        connecting 7 no_result with_client.loop mode_first refl new_client
          (omega (arith, first_nelem)) arrives))
      (requesting 7 0 no_result asked_for refl listening asks_now)

set_up-Runs-IsTracked_example : IsTracked fixed queued_world
set_up-Runs-IsTracked_example =
    set_up-Runs-IsTracked fixed (boot one_worker hash_zero) queued_world (7 ∷ []) []
      fixed-IsDistinct no_conn until_queued ((tt, tt), tt)

update_max-Largest_example : Largest (λ i. eqb i 3) 5 (update_max (λ i. eqb i 3) 5)
update_max-Largest_example = update_max-Largest (λ i. eqb i 3) 5

queued-IsTracked : IsTracked fixed queued_world
queued-IsTracked =
    set_up-Runs-IsTracked fixed (boot one_worker hash_zero) queued_world (7 ∷ []) []
      fixed-IsDistinct no_conn until_queued ((tt, tt), tt)

abbrev served_world : World
served_world = record queued_world {
  loop = record asked_for { request_queue = [] };
  serving = 7 ∷ queued_world.serving;
}

takes_it : take_request 9 asked_for ≡ takes_client 7 served_world.loop
unfolding take_request after_wait connect set_up
takes_it = refl

abbrev until_taken : Runs fixed queued_world [] (7 ∷ []) served_world
until_taken = going resting (taking 9 7 served_world.loop takes_it)

Runs-request_queue_example :
    queued_world.loop.request_queue ++ [] ≡ (7 ∷ []) ++ served_world.loop.request_queue
Runs-request_queue_example =
    Runs-request_queue fixed queued_world served_world [] (7 ∷ []) fixed-IsDistinct queued-IsTracked
      until_taken (tt, tt)

-- A worker waits before the client asks.
abbrev asleep : World
asleep = record with_client { waiting = with_client.waiting + 1 }

has_to_wait : take_request 9 with_client.loop ≡ waits
unfolding take_request connect set_up
has_to_wait = refl

abbrev until_asleep : Runs fixed at_first [] [] asleep
until_asleep =
    going
      (going resting (
        connecting 7 no_result with_client.loop mode_first refl new_client
          (omega (arith, first_nelem)) arrives))
      (falling_asleep 9 has_to_wait)

-- The server that has started, after SIGHUP.
abbrev refusing : World
refusing = record at_first { loop = record at_first.loop { mode = refuse_conn } }

hangs_up : on_signal sig_hup ≡ some refuse_conn
unfolding on_signal
hangs_up = refl

abbrev until_refusing : Runs fixed at_first [] [] refusing
until_refusing = going resting (signalled sig_hup refuse_conn hangs_up mode_first)

end_of_round-closes_example :
    ((end_of_round refusing.loop).mode ≡ close_server)
    ↔ ((c : ℕ) → is_client fixed c ≡ true → (refusing.loop.set c ≡ false) × (held refusing c ≡ 0))
end_of_round-closes_example =
    end_of_round-closes fixed (boot one_worker hash_zero) refusing [] [] until_refusing (tt, tt)
      fixed-IsDistinct no_conn refl

abbrev deaf : Loop
deaf = record refusing.loop {
  request_queue = 5 ∷ [];
  set = λ i. if eqb i 5 then false else refusing.loop.set i;
}

abbrev without_socket : Loop
without_socket = record deaf {
  conn_client_table = HashTable.remove deaf.conn_client_table 5;
  server = record deaf.server { curr_state = record deaf.server.curr_state { conn = 2 ^ 32 - 1 } };
}
