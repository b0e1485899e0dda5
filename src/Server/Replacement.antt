-- ===== src/Server/Replacement.antt =====
-- src/server/replacement.c: the file that the policy prefers is taken out of the map, one at a
-- time, until enough bytes are freed. Both functions run under `files_mtx` and `curr_state_mtx`.
-- The lock that `expell_single_file` keeps on the file it expels is not written back, since the
-- file leaves the map at once; the others are unlocked again before it returns.
pub mod Least
pub mod Expell
pub mod Oldest
pub mod Protected
pub mod Multiple
use sol_project.Prelude.{
  ℕ, zero, suc, ◌+◌, ◌-◌, ◌%◌, ◌^◌, Bool, true, false, Option, none, some, List, [], ◌∷◌, ◌++◌, not,
  bytes_key, ltb, eqb, if◌then◌else◌,
}
use sol_project.Hash.HashMap
use sol_project.Hash.HashMap.{entries}
use sol_project.Server.State.{
  FileName, Timespec, File, Policy, lru, fifo, Files, Stats, Server, Outcome, done, crashed,
  diverged, ◌>>=◌, dec32, inc32, sub64, add64,
}
use sol_project.Server.FileLocks.{writer_lock}

-- `timespec_cmp(a, b) < 0`
unfoldable pub earlier : Timespec → Timespec → Bool
earlier a b =
    if ltb b.tv_sec a.tv_sec
    then false
    else if ltb a.tv_sec b.tv_sec
    then true
    else if ltb b.tv_nsec a.tv_nsec
    then false
    else ltb a.tv_nsec b.tv_nsec

-- the time that the policy compares
unfoldable pub policy_time : Policy → File → Timespec
policy_time lru file = file.last_use
policy_time fifo file = file.creation_time

-- `LRU_policy(a, b) < 0`, `FIFO_policy(a, b) < 0`
unfoldable pub precedes : Policy → File → File → Bool
precedes policy a b = earlier (policy_time policy a) (policy_time policy b)

-- the file kept, of the least so far and the current one, which is locked
unfoldable pub keep_least : Policy → Option File → File → File
keep_least policy none curr_file = curr_file
keep_least policy (some least) curr_file =
    if precedes policy curr_file least then curr_file else least

-- the loop over the iterator
unfoldable pub find_least : Policy → Option File → List (FileName × File) → Outcome (Option File)
find_least policy least [] = done least
find_least policy least ((k, curr_file) ∷ rest) =
    let skipped = find_least policy least rest in
    let visited = do
      writer_lock curr_file >>= λ _.
          find_least policy (some (keep_least policy least curr_file)) rest
    in if not curr_file.can_be_expelled then skipped else visited

-- the server after `hashmap_remove` gave `files`, with the statistics
unfoldable pub discharge : Server → File → Files → Server
discharge s expelled files = record s {
  files = files;
  curr_state = record s.curr_state {
    files = dec32 s.curr_state.files;
    space = sub64 s.curr_state.space expelled.size;
    no_lru = inc32 s.curr_state.no_lru;
  };
}

-- `*expelled_ptr` is whatever `hashmap_remove` found, and is dereferenced
abbrev pub hand_out : Server → Option File → Files → Outcome (Option (File × Server))
hand_out s none files = crashed
hand_out s (some expelled) files = done (some (expelled, discharge s expelled files))

unfoldable pub take_out : Server → File → Outcome (Option (File × Server))
take_out s least =
    let (found, files) = HashMap.remove s.files least.path_name in hand_out s found files

-- `least_file` is dereferenced, also when it is NULL
unfoldable pub take_out_least : Server → Option File → Outcome (Option (File × Server))
take_out_least s none = crashed
take_out_least s (some file) = take_out s file

-- `expell_single_file`: `none` for -1. With no file that can be expelled it dereferences NULL.
unfoldable pub expell_single_file : Server → Outcome (Option (File × Server))
expell_single_file s =
    if eqb s.files.nelem 0
    then done none
    else find_least s.config.policy none (entries s.files) >>= take_out_least s

-- `while(freed < size_to_free)`
unfoldable pub expell_loop : ℕ → ℕ → ℕ → Server → List File → Outcome (Server × List File)
expell_loop zero freed size_to_free s expelled_list = diverged
expell_loop (suc fuel) freed size_to_free s expelled_list = elim (ltb freed size_to_free) [
  | false ↦ done (s, expelled_list)
  | true ↦ expell_single_file s >>= λ r. elim r [
    | none ↦ done (s, expelled_list)
    | some (expelled, s') ↦
        expell_loop fuel (add64 freed expelled.size) size_to_free s'
          (expelled_list ++ expelled ∷ [])
  ]
]

-- `expell_multiple_files`: the server, and the expelled files in order. Each round takes a file
-- out, so one more round than there are files is enough.
unfoldable pub expell_multiple_files : ℕ → Server → Outcome (Server × List File)
expell_multiple_files size_to_free s =
    if ltb s.curr_state.space size_to_free
    then done (s, [])
    else expell_loop (suc s.files.nelem) 0 size_to_free s []
