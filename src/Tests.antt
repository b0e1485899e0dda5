-- ===== src/Tests.antt =====
-- Concrete runs of the model, and one instance of each theorem that has hypotheses.
mod Store
mod Main
mod Api
mod LinkedList
mod Settings
use sol_project.Prelude.{
  ℕ, ◌+◌, ◌≡◌, ◌<◌, ◌≤◌, refl, Bool, true, false, Option, none, some, List, [], ◌∷◌, length, arith,
  inl, inr, bytes_key, same_refl, nat_eq, bytes_eq, ◌==◌, ◌++◌, In, if◌then◌else◌, eqb, ltb, ◌||◌,
  flatten,
}
use sol_project.Hash.HashMap
use sol_project.Hash.HashMap.{HashMap, entries}
use sol_project.Hash.HashMap.Growth.{IsValid, init-IsValid, Same, expand-Same}
use sol_project.Hash.HashMap.Insert.{Added, insert-Added}
use sol_project.Hash.HashMap.Remove.{Taken, remove-Taken, Changed, modify-Changed}
use sol_project.Hash.HashTable
use sol_project.Hash.Chain.{find, has}
use sol_project.Hash.Buckets.{push}
use sol_project.Hash.HashTable.Laws.{
  init-IsTable, contains-init, insert-IsTable, contains-insert, contains-remove, IsTable,
}
use sol_project.Hash.Iter.{start, visit, get_next}
use sol_project.Hash.Iter.Laws.{visit-entries}
use sol_project.Io.{
  bytes, interrupted, Input, closed, readn, got, writen, Output, takes, interrupts, refuses, Write,
}
use sol_project.Io.Laws.{Reads, readn-Reads, Sent, writen-Sent}
use sol_project.Server.Requests.{receive_path, to_bytes}
use sol_project.Server.Requests.Laws.{Gets, receive_path-Gets}

-- A map with room for one element in two lists: the second insertion doubles it.
abbrev by_length : List ℕ → ℕ → ℕ
by_length k n = length k

abbrev empty_map : HashMap (List ℕ) ℕ
empty_map = HashMap.init 2 by_length

abbrev one_entry : HashMap (List ℕ) ℕ
one_entry = HashMap.insert empty_map (65 ∷ []) 10

abbrev two_entries : HashMap (List ℕ) ℕ
two_entries = HashMap.insert one_entry (66 ∷ []) 20

one_lookup : HashMap.get one_entry (65 ∷ []) ≡ some 10
unfolding HashMap.get HashMap.insert HashMap.init HashMap.insert_node push find bytes_eq
one_lookup = refl

other_lookup : HashMap.get one_entry (66 ∷ []) ≡ none
unfolding HashMap.get HashMap.insert HashMap.init HashMap.insert_node push find bytes_eq
other_lookup = refl

empty_lookup : HashMap.get empty_map (65 ∷ []) ≡ none
unfolding HashMap.get HashMap.init find bytes_eq
empty_lookup = refl

lookup_after_growth : HashMap.get two_entries (65 ∷ []) ≡ some 10
unfolding HashMap.get HashMap.insert HashMap.init HashMap.insert_node push find HashMap.expand
    HashMap.move_all HashMap.move_chain flatten bytes_eq
lookup_after_growth = refl

empty-IsValid : IsValid empty_map
empty-IsValid = init-IsValid 2 by_length (omega arith)

first-Added : Added empty_map (65 ∷ []) 10 one_entry
first-Added = insert-Added empty_map (65 ∷ []) 10 empty-IsValid empty_lookup

one-IsValid : IsValid one_entry
one-IsValid = first-Added.valid

insert-Added_example : Added one_entry (66 ∷ []) 20 two_entries
insert-Added_example = insert-Added one_entry (66 ∷ []) 20 one-IsValid other_lookup

expand-Same_example : Same one_entry (HashMap.expand one_entry)
expand-Same_example = expand-Same one_entry one-IsValid

remove-Taken_example :
    ((HashMap.remove one_entry (65 ∷ [])).0 ≡ some 10)
    × Taken one_entry (65 ∷ []) 10 (HashMap.remove one_entry (65 ∷ [])).1
remove-Taken_example = remove-Taken one_entry (65 ∷ []) 10 one-IsValid one_lookup

modify-Changed_example :
    Changed one_entry (65 ∷ []) 10 (10 + 1) (HashMap.modify one_entry (65 ∷ []) (λ n. n + 1))
modify-Changed_example = modify-Changed one_entry (65 ∷ []) (λ n. n + 1) 10 one-IsValid one_lookup

visit-entries_example : visit 2 start one_entry ≡ some (entries one_entry)
unfolding visit get_next flatten HashMap.insert HashMap.init HashMap.insert_node push
visit-entries_example = visit-entries one_entry

-- A table of descriptors with the one of a client in it.
abbrev clients : HashTable.HashTable
clients = HashTable.insert (HashTable.init 4 HashTable.default_hash) 7

clients-IsTable : IsTable clients
clients-IsTable =
    insert-IsTable (HashTable.init 4 HashTable.default_hash) 7 (init-IsTable 4 (omega arith))
      (contains-init 4 7)

nobody_else : HashTable.contains clients 11 ≡ false
unfolding HashTable.contains HashTable.insert HashTable.init HashMap.init HashTable.insert_node
    HashMap.insert_node HashTable.default_hash push has
nobody_else = refl

contains-insert_example :
    HashTable.contains (HashTable.insert clients 11) 7 ≡ (eqb 7 11 || HashTable.contains clients 7)
contains-insert_example = contains-insert clients 11 7 clients-IsTable nobody_else

contains-remove_example :
    HashTable.contains (HashTable.remove clients 7) 7
    ≡ (if eqb 7 7 then false else HashTable.contains clients 7)
contains-remove_example = contains-remove clients 7 7 clients-IsTable

-- Two bytes in two pieces, with an interruption between them.
abbrev pieces : Input
pieces = record {
  arrivals = bytes (1 ∷ []) ∷ interrupted ∷ bytes (2 ∷ 3 ∷ []) ∷ [];
  ending = closed;
}

readn-Reads_example : Reads (1 ∷ 2 ∷ []) (3 ∷ []) (readn 2 pieces)
readn-Reads_example =
    readn-Reads 2 pieces (1 ∷ 2 ∷ []) (3 ∷ []) (omega arith, omega arith) (λ e. cc, (λ e. cc, tt))
      refl refl

abbrev half_open : Output
half_open = record { acceptances = takes 1 ∷ interrupts ∷ refuses ∷ []; written = 9 ∷ [] }

writen-Sent_example : Sent (1 ∷ 2 ∷ []) (9 ∷ []) (writen (1 ∷ 2 ∷ []) half_open)
writen-Sent_example = writen-Sent (1 ∷ 2 ∷ []) half_open

-- The path name /a, its length in two pieces.
abbrev path_input : Input
path_input = record {
  arrivals = bytes (2 ∷ 0 ∷ []) ∷ bytes (0 ∷ 0 ∷ 47 ∷ 97 ∷ 0 ∷ []) ∷ [];
  ending = closed;
}

receive_path-Gets_example : Gets (47 ∷ 97 ∷ []) [] (receive_path (λ size. ltb size 100) path_input)
unfolding to_bytes
receive_path-Gets_example =
    receive_path-Gets (λ size. ltb size 100) path_input (47 ∷ 97 ∷ []) []
      (omega arith, (omega arith, tt)) (omega arith) refl (λ e. cc, (λ e. cc, tt)) refl
