-- ===== src/Tests/Store.antt =====
-- Instances of the theorems about the server's shared state: a store of one file, which client 7
-- has open and locked.
use sol_project.Prelude.{
  ℕ, ◌≡◌, ◌<◌, refl, ap, true, none, some, List, [], ◌∷◌, length, arith, inl, inr, bytes_key, ◌⊎◌,
  bytes_eq, same_refl, if_true, ◌∙◌, false, sym, flatten, ◌^◌,
}
use sol_project.Hash.HashMap
use sol_project.Hash.HashMap.{entries}
use sol_project.Hash.Chain.{find, has}
use sol_project.Hash.Buckets.{push}
use sol_project.Hash.HashTable
use sol_project.Hash.HashTable.Laws.{init-IsTable, contains-init, insert-IsTable, IsTable}
use sol_project.Server.State.{
  Timespec, FileName, File, lru, fifo, Files, Server, Ends, done, blocked,
}
use sol_project.Server.Invariant.{IsFile, IsStored, IsBusy, IsConsistent}
use sol_project.Server.Invariant.Steps.{init-IsStored, insert-IsStored}
use sol_project.Server.FileLocks.{writer_lock}
use sol_project.Server.FileLocks.Laws.{writer_lock_cases, written_by_one}
use sol_project.Server.Replacement.{find_least, expell_single_file}
use sol_project.Server.Replacement.Least.{Locks}
use sol_project.Server.Replacement.Oldest.{
  PicksOldest, ExpelsOldest, find_least-PicksOldest, expell_single_file-ExpelsOldest,
}
use sol_project.Server.CloseFile.{close_under_lock}
use sol_project.Server.CloseFile.Laws.{Closes, close_under_lock-Closes}
use sol_project.Server.RemoveFile.{remove_under_lock}
use sol_project.Server.RemoveFile.Laws.{Removes, remove_under_lock-Removes}
use sol_project.Server.WriteFile.{write_under_lock, append_under_lock}
use sol_project.Server.WriteFile.Laws.{Writes, write_under_lock-Writes}
use sol_project.Server.WriteFile.Append.{Appends, append_under_lock-Appends}
use sol_project.Server.OpenFile.{open_existing, open_create}
use sol_project.Server.OpenFile.Existing.{Opens, open_existing-Opens}
use sol_project.Server.OpenFile.Create.{Creates, open_create-Creates}
use sol_project.Server.Replacement.{expell_multiple_files}
use sol_project.Server.Replacement.Protected.{Beside}
use sol_project.Server.Replacement.Multiple.{Reclaimed, expell_multiple_files-Reclaimed}
use sol_project.Server.State.{put_back}
use sol_project.Io.{Output, takes, refuses}
use sol_project.Server.Invariant.Preserve.{put_back-IsConsistent, put_back-Holds}
use sol_project.Server.ReadFile.{read_under_lock, send_read}
use sol_project.Server.ReadFile.Laws.{
  Begins, read_under_lock-Begins, read_by_one, Finishes, Transfers, send_read-Finishes,
}
use sol_project.Server.State.{Config, sa_success}
use sol_project.Server.ReadFile.{files_to_read, read_n_under_lock, send_read_n}
use sol_project.Server.ReadFile.Several.{count, ReadsSeveral, read_n-ReadsSeveral}
use sol_project.Server.CloseFile.{close_client}
use sol_project.Server.CloseFile.Client.{ClosesAll, close_client-ClosesAll}
use sol_project.Hash.HashMap.Growth.{get-entries}
use sol_project.Server.State.{◌>>=◌}
use sol_project.Server.OpenFile.{create_file, make_room, install}
use sol_project.Server.OpenFile.Create.{new_file}
use sol_project.Server.History.{boot, creating, booted, stepped, Reachable-IsConsistent}

abbrev by_length : FileName → ℕ → ℕ
by_length k n = length k

abbrev clients : HashTable.HashTable
clients = HashTable.insert (HashTable.init 4 HashTable.default_hash) 7

clients-IsTable : IsTable clients
clients-IsTable =
    insert-IsTable (HashTable.init 4 HashTable.default_hash) 7 (init-IsTable 4 (omega arith))
      (contains-init 4 7)

has_seven : HashTable.contains clients 7 ≡ true
unfolding HashTable.contains HashTable.insert HashTable.init HashMap.init HashTable.insert_node
    HashMap.insert_node HashTable.default_hash push has
has_seven = refl

abbrev letter : File
letter = record {
  path_name = 47 ∷ 97 ∷ [];
  contents = 1 ∷ 2 ∷ 3 ∷ [];
  size = 3;
  fd_lock = some 7;
  fd_open = clients;
  n_readers = 0;
  n_writers = 0;
  creation_time = record { tv_sec = 10; tv_nsec = 0 };
  last_use = record { tv_sec = 20; tv_nsec = 5 };
  can_be_expelled = true;
}

letter-IsFile : IsFile (47 ∷ 97 ∷ []) letter
letter-IsFile = record {
  named = refl;
  sized = refl;
  idle = refl;
  expellable = refl;
  table = clients-IsTable;
  holder = λ c e. ground (arith, has_seven, e);
}

abbrev no_files : Files
no_files = HashMap.init 4 by_length

abbrev store : Server
store = record {
  config = record { n_workers = 1; max_space = 8; max_files = 2; policy = lru };
  files = HashMap.insert no_files (47 ∷ 97 ∷ []) letter;
  curr_state = record {
    files = 1;
    space = 3;
    conn = 1;
    no_lru = 0;
    max_files = 1;
    max_space = 3;
    max_conn = 1;
  };
}

nothing_yet : HashMap.get no_files (47 ∷ 97 ∷ []) ≡ none
unfolding HashMap.get HashMap.init find bytes_eq
nothing_yet = refl

letter_there : HashMap.get store.files (47 ∷ 97 ∷ []) ≡ some letter
unfolding HashMap.get HashMap.insert HashMap.init HashMap.insert_node push find bytes_eq
letter_there = refl

store-IsStored : IsStored IsFile store.files 1 3
store-IsStored =
    insert-IsStored IsFile IsFile no_files 0 0 (init-IsStored IsFile 4 by_length (omega arith))
      (47 ∷ 97 ∷ []) letter nothing_yet letter-IsFile (λ k h other f. f)

store-IsConsistent : IsConsistent store
store-IsConsistent = record {
  config = record { some_files = omega arith; files_fit = omega arith; space_fits = omega arith };
  stored = store-IsStored;
  few = omega arith;
  small = omega arith;
  files_peak = omega arith;
  space_peak = omega arith;
  files_bound = omega arith;
  space_bound = omega arith;
}

writer_lock_cases_example :
    ((0 < letter.n_readers) × (writer_lock letter ≡ blocked))
    ⊎ ((letter.n_readers ≡ 0) × (writer_lock letter ≡ done (written_by_one letter)))
writer_lock_cases_example = writer_lock_cases letter refl

abbrev one_file : List (FileName × File)
one_file = (47 ∷ 97 ∷ [], letter) ∷ []

letter-Locks : Locks fifo ⊥ one_file
letter-Locks k f (inl e) x = ground (
  arith,
  ap (λ (y : FileName × File). y.1.n_writers) e,
  ap (λ (y : FileName × File). y.1.n_readers) e,
)
letter-Locks k f (inr h) x = absurd h

find_least-PicksOldest_example : Ends ⊥ (find_least fifo none one_file) (PicksOldest fifo one_file)
find_least-PicksOldest_example = find_least-PicksOldest fifo ⊥ one_file letter-Locks

expell_single_file-ExpelsOldest_example :
    Ends (IsBusy store.files) (expell_single_file store) (ExpelsOldest store)
expell_single_file-ExpelsOldest_example =
    expell_single_file-ExpelsOldest IsFile store store-IsStored (λ k f h. (h.named, λ _. h.idle))
      (omega arith) (omega arith) (47 ∷ 97 ∷ []) letter letter_there refl

abbrev clock : Timespec
clock = record { tv_sec = 30; tv_nsec = 0 }

close_under_lock-Closes_example :
    Ends
      (IsBusy store.files)
      (close_under_lock store (47 ∷ 97 ∷ []) 7)
      (Closes store (47 ∷ 97 ∷ []) 7)
close_under_lock-Closes_example = close_under_lock-Closes store (47 ∷ 97 ∷ []) 7 store-IsConsistent

remove_under_lock-Removes_example :
    Ends
      (IsBusy store.files)
      (remove_under_lock store (47 ∷ 97 ∷ []) 7)
      (Removes store (47 ∷ 97 ∷ []) 7)
remove_under_lock-Removes_example =
    remove_under_lock-Removes store (47 ∷ 97 ∷ []) 7 store-IsConsistent

write_under_lock-Writes_example :
    Ends
      (IsBusy store.files)
      (write_under_lock store (47 ∷ 97 ∷ []) 2 (8 ∷ 9 ∷ []) 7 clock)
      (Writes store (47 ∷ 97 ∷ []) 2 (8 ∷ 9 ∷ []) 7 clock)
write_under_lock-Writes_example =
    write_under_lock-Writes store (47 ∷ 97 ∷ []) 2 (8 ∷ 9 ∷ []) 7 clock store-IsConsistent refl

append_under_lock-Appends_example :
    Ends
      (IsBusy store.files)
      (append_under_lock store (47 ∷ 97 ∷ []) 2 (8 ∷ 9 ∷ []) 7 clock)
      (Appends store (47 ∷ 97 ∷ []) 2 (8 ∷ 9 ∷ []) 7 clock)
append_under_lock-Appends_example =
    append_under_lock-Appends store (47 ∷ 97 ∷ []) 2 (8 ∷ 9 ∷ []) 7 clock store-IsConsistent refl
      (omega arith)

open_existing-Opens_example :
    Ends
      (IsBusy store.files)
      (open_existing store (47 ∷ 97 ∷ []) 2 11 clock)
      (Opens store (47 ∷ 97 ∷ []) 2 11)
open_existing-Opens_example = open_existing-Opens store (47 ∷ 97 ∷ []) 2 11 clock store-IsConsistent

open_create-Creates_example :
    Ends
      (IsBusy store.files)
      (open_create store (47 ∷ 98 ∷ []) 3 7 clock clock)
      (Creates store (47 ∷ 98 ∷ []) 3 7 clock clock)
open_create-Creates_example =
    open_create-Creates store (47 ∷ 98 ∷ []) 3 7 clock clock store-IsConsistent

-- The store with a second file, which has grown and is protected.
abbrev growing : File
growing = record letter { path_name = 47 ∷ 98 ∷ []; can_be_expelled = false }

abbrev full_store : Server
full_store = record store {
  files = HashMap.insert store.files (47 ∷ 98 ∷ []) growing;
  curr_state = record store.curr_state { files = 2; space = 6 };
}

not_yet : HashMap.get store.files (47 ∷ 98 ∷ []) ≡ none
unfolding HashMap.get HashMap.insert HashMap.init HashMap.insert_node push find bytes_eq
not_yet = refl

growing_there : HashMap.get full_store.files (47 ∷ 98 ∷ []) ≡ some growing
unfolding HashMap.get HashMap.insert HashMap.init HashMap.insert_node push find bytes_eq
growing_there = refl

full_store-IsStored : IsStored (Beside (47 ∷ 98 ∷ []) growing) full_store.files 2 6
full_store-IsStored =
    insert-IsStored IsFile (Beside (47 ∷ 98 ∷ []) growing) store.files 1 3 store-IsStored
      (47 ∷ 98 ∷ []) growing not_yet
      ((λ other. ground (arith, other, same_refl growing.path_name)), (λ _. refl))
      (λ k h other p. ((λ _. p), (λ t. ground (arith, t, other))))

expell_multiple_files-Reclaimed_example :
    Ends
      (IsBusy full_store.files)
      (expell_multiple_files 3 full_store)
      (Reclaimed (47 ∷ 98 ∷ []) growing refl refl 6 3 full_store [])
expell_multiple_files-Reclaimed_example =
    expell_multiple_files-Reclaimed (47 ∷ 98 ∷ []) growing refl refl 3 full_store
      full_store-IsStored growing_there (omega arith) (omega arith) (omega arith)

read_under_lock-Begins_example :
    Ends ⊥ (read_under_lock store (47 ∷ 97 ∷ []) 7 clock) (Begins store (47 ∷ 97 ∷ []) 7 clock)
read_under_lock-Begins_example =
    read_under_lock-Begins store (47 ∷ 97 ∷ []) 7 clock store-IsConsistent
      (λ f e. ground (arith, letter_there, e))

-- The store while the letter is being read.
abbrev reading_store : Server
reading_store = put_back store (47 ∷ 97 ∷ []) (read_by_one letter clock)

reading_store-IsConsistent : IsConsistent reading_store
reading_store-IsConsistent =
    put_back-IsConsistent store (47 ∷ 97 ∷ []) letter store-IsConsistent letter_there
      (read_by_one letter clock)
      (record {
        named = refl;
        sized = refl;
        idle = refl;
        expellable = refl;
        table = clients-IsTable;
        holder = letter-IsFile.holder;
      })
      refl

reading_there : HashMap.get reading_store.files (47 ∷ 97 ∷ []) ≡ some (read_by_one letter clock)
reading_there =
    put_back-Holds store (47 ∷ 97 ∷ []) letter store-IsConsistent letter_there
      (read_by_one letter clock) (47 ∷ 97 ∷ [])
    ∙ if_true _ _ (same_refl letter.path_name)

abbrev lost_client : Output
lost_client = record { acceptances = takes 4 ∷ refuses ∷ []; written = [] }

send_read-Finishes_example :
    Finishes reading_store
      (47 ∷ 97 ∷ [])
      (read_by_one letter clock)
      lost_client
      (send_read reading_store (47 ∷ 97 ∷ []) (read_by_one letter clock) lost_client)
    × Transfers
        (read_by_one letter clock)
        lost_client
        (send_read reading_store (47 ∷ 97 ∷ []) (read_by_one letter clock) lost_client)
send_read-Finishes_example =
    send_read-Finishes reading_store (47 ∷ 97 ∷ []) (read_by_one letter clock) lost_client
      reading_store-IsConsistent reading_there (omega arith) (omega arith)

-- A server that has just started, and its first request.
abbrev small_config : Config
small_config = record { n_workers = 1; max_space = 8; max_files = 2; policy = fifo }

abbrev first_state : Server
first_state =
    install (boot small_config by_length) (47 ∷ 98 ∷ [])
      (record (new_file (47 ∷ 98 ∷ []) 3 7 clock clock) { n_writers = 1; can_be_expelled = false })

first_request :
    open_create (boot small_config by_length) (47 ∷ 98 ∷ []) 3 7 clock clock
    ≡ done (first_state, none, sa_success)
unfolding open_create create_file writer_lock make_room HashMap.contains HashMap.init has boot
first_request = refl

Reachable-IsConsistent_example : IsConsistent first_state
unfolding boot
Reachable-IsConsistent_example =
    Reachable-IsConsistent small_config by_length first_state
      (record { some_files = omega arith; files_fit = omega arith; space_fits = omega arith })
      (stepped booted (creating (47 ∷ 98 ∷ []) 3 7 clock clock none sa_success first_request))

close_client-ClosesAll_example :
    Ends (IsBusy store.files) (close_client store 7) (ClosesAll store 7)
close_client-ClosesAll_example = close_client-ClosesAll store 7 store-IsConsistent

one_to_read : count store 5 store-IsConsistent ≡ 5
unfolding files_to_read
one_to_read = refl

one_entry : entries store.files ≡ (47 ∷ 97 ∷ [], letter) ∷ []
unfolding HashMap.insert HashMap.init HashMap.insert_node push flatten
one_entry = refl

met : (k : FileName) (f : File) → find k (entries store.files) ≡ some f → f ≡ letter
unfolding find
met k f e = ground (arith, e, one_entry)

read_n-ReadsSeveral_example :
    Ends ⊥
      (read_n_under_lock store 5 >>= λ r. done (send_read_n r.0 r.1 lost_client))
      (ReadsSeveral store (count store 5 store-IsConsistent) lost_client)
read_n-ReadsSeveral_example =
    read_n-ReadsSeveral store 5 store-IsConsistent lost_client (omega (arith, one_to_read))
      (omega (arith, one_to_read)) (λ k f e. few k f e)
  where
    few : (k : FileName) (f : File) → HashMap.get store.files k ≡ some f → f.n_readers < 2 ^ 32
    few k f e = ground (arith, met k f (sym (get-entries store.files k store-IsStored.valid) ∙ e))
