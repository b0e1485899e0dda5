-- ===== src/Server/Replacement/Oldest.antt =====
-- The order of the policy spelled out: the file that is used (LRU) or created (FIFO) first goes first.
use sol_project.Prelude.{
  ◌+◌, ◌%◌, ◌^◌, ◌<◌, ◌≤◌, ◌≡◌, ◌⊎◌, refl, true, false, none, some, Option, List, In, inl, inr,
  arith, bytes_key, ◌==◌, if◌then◌else◌,
}
use sol_project.Hash.HashMap
use sol_project.Hash.HashMap.Remove.{remove-Taken}
use sol_project.Server.State.{FileName, Timespec, File, Policy, lru, fifo, Server, Ends, Ends-map}
use sol_project.Server.Invariant.{IsStored, IsBusy}
use sol_project.Server.Invariant.Steps.{get-IsStored}
use sol_project.Server.Replacement.{
  earlier, policy_time, precedes, discharge, find_least, expell_single_file,
}
use sol_project.Server.Replacement.Least.{Locks, Candidate, Picked, find_least-Picked}
use sol_project.Server.Replacement.Expell.{Replaceable, Expels, expell_single_file-Expels}

-- One time is before another, or the same.
abbrev pub NotLater : Timespec → Timespec → Type 0
NotLater a b = (a.tv_sec < b.tv_sec) ⊎ ((a.tv_sec ≡ b.tv_sec) × (a.tv_nsec ≤ b.tv_nsec))

-- One file goes before another, or at the same time.
abbrev pub GoesBefore : Policy → File → File → Type 0
GoesBefore lru f g = NotLater f.last_use g.last_use
GoesBefore fifo f g = NotLater f.creation_time g.creation_time

earlier-NotLater : (a b : Timespec) → earlier b a ≡ false → NotLater a b
unfolding earlier
earlier-NotLater a b h = ground arith

precedes-GoesBefore : (p : Policy) (f g : File) → precedes p g f ≡ false → GoesBefore p f g
unfolding precedes policy_time
precedes-GoesBefore lru f g h = earlier-NotLater f.last_use g.last_use h
precedes-GoesBefore fifo f g h = earlier-NotLater f.creation_time g.creation_time h

-- Of the entries that may be expelled, the one that goes first; or there is none.
abbrev pub PicksOldest : Policy → List (FileName × File) → Option File → Type 0
PicksOldest p es r =
    ((r ≡ none) × ((f : File) → ¬ Candidate p es f))
    ⊎ ((f : File) × (r ≡ some f)
        × Candidate p es f
        × ((k : FileName) (g : File) → In (k, g) es → g.can_be_expelled ≡ true → GoesBefore p f g))

-- If writers hold no file that may be expelled, the loop of expell_single_file ends, when no
-- reader makes it wait, at a file of those that may be expelled such that no other of them was
-- used (LRU) or created (FIFO) before it, by seconds and then nanoseconds, or there is none that
-- may.
pub find_least-PicksOldest :
    (p : Policy) (B : Type 0) (es : List (FileName × File))
    → Locks p B es
    → Ends B (find_least p none es) (PicksOldest p es)
find_least-PicksOldest p B es locks =
    Ends-map B (Picked p es) (PicksOldest p es) _ (λ r h. oldest r h)
      (find_least-Picked p B es locks)
  where
    oldest : (r : Option File) → Picked p es r → PicksOldest p es r
    oldest r (inl nobody) = inl nobody
    oldest r (inr (f, e, c, minimal)) =
        inr (f, e, c, λ k g m x. precedes-GoesBefore p f g (minimal k g m x))

-- The file is gone, out of the counts too, and nothing else has changed.
abbrev pub Without : Server → File → Server → Type 0
Without s f s' =
    ((q : FileName)
      → HashMap.get s'.files q ≡ (if q == f.path_name then none else HashMap.get s.files q))
    × (s'.curr_state.files + 1 ≡ s.curr_state.files)
    × (s'.curr_state.space + f.size ≡ s.curr_state.space)
    × (s'.curr_state.no_lru ≡ (s.curr_state.no_lru + 1) % 2 ^ 32)
    × (s'.curr_state.conn ≡ s.curr_state.conn)
    × (s'.curr_state.max_files ≡ s.curr_state.max_files)
    × (s'.curr_state.max_space ≡ s.curr_state.max_space)
    × (s'.curr_state.max_conn ≡ s.curr_state.max_conn)
    × (s'.config ≡ s.config)

-- Of the stored files that may be expelled, the one that goes first is taken out.
abbrev pub ExpelsOldest : Server → Option (File × Server) → Type 0
ExpelsOldest s r =
    (f : File) × (s' : Server) × (r ≡ some (f, s'))
    × (HashMap.get s.files f.path_name ≡ some f)
    × (f.can_be_expelled ≡ true)
    × ((k : FileName) (g : File)
        → HashMap.get s.files k ≡ some g
        → g.can_be_expelled ≡ true
        → GoesBefore s.config.policy f g)
    × Without s f s'

-- While some stored file may be expelled, no writer is at work on such a file, and the counts are
-- those of the store and fit their integers, expell_single_file takes out of the map a file that
-- may be expelled such that no other such file was used (LRU) or created (FIFO) before it, by
-- seconds and then nanoseconds; the counts of files and bytes are less by it, that of expulsions
-- is more by one, and every other file, the peaks and the configuration are as they were. It may
-- wait for a reader of a stored file instead; it never fails otherwise.
pub expell_single_file-ExpelsOldest :
    (P : FileName → File → Type 0) (s : Server)
    → IsStored P s.files s.curr_state.files s.curr_state.space
    → Replaceable P
    → s.curr_state.files < 2 ^ 32
    → s.curr_state.space < 2 ^ 64
    → (k : FileName) (f : File) → HashMap.get s.files k ≡ some f
    → f.can_be_expelled ≡ true
    → Ends (IsBusy s.files) (expell_single_file s) (ExpelsOldest s)
unfolding discharge
expell_single_file-ExpelsOldest P s i ok few small k f e x =
    Ends-map (IsBusy s.files) (Expels s) (ExpelsOldest s) _ (λ r h. oldest r h)
      (expell_single_file-Expels P s _ _ i ok k f e x)
  where
    oldest : (r : Option (File × Server)) → Expels s r → ExpelsOldest s r
    oldest r (g, there, may, first, taken) =
        let (one, room) = get-IsStored P P s.files _ _ i g.path_name g there in
        (
          g,
          discharge s g (HashMap.remove s.files g.path_name).1,
          taken,
          there,
          may,
          (λ j h q y. precedes-GoesBefore s.config.policy g h (first j h q y)),
          (
            (remove-Taken s.files g.path_name g i.valid there).1.finds,
            omega (arith, one, few),
            omega (arith, room, small),
            refl,
            refl,
            refl,
            refl,
            refl,
            refl,
          ),
        )
