-- ===== src/Server/History.antt =====
-- The shared state over time: from the start of the server (src/server/server.c) through the critical
-- sections that open, write, extend, remove, close and read files, in any order.
use sol_project.Prelude.{
  ℕ, ◌+◌, ◌^◌, ◌<◌, ◌≡◌, subst, subst⁻¹, Option, some, List, [], length, arith, bytes_key, inl, inr,
}
use sol_project.Hash.HashMap
use sol_project.Server.State.{
  FileName, Timespec, File, Config, Server, Code, Outcome, done, Ends, through,
}
use sol_project.Server.OpenFile.{open_existing, open_create}
use sol_project.Server.OpenFile.Existing.{Opens, open_existing-Opens}
use sol_project.Server.OpenFile.Create.{Creates, open_create-Creates}
use sol_project.Server.WriteFile.{write_under_lock, append_under_lock}
use sol_project.Server.WriteFile.Laws.{Writes, write_under_lock-Writes}
use sol_project.Server.WriteFile.Append.{Appends, append_under_lock-Appends}
use sol_project.Server.RemoveFile.{remove_under_lock}
use sol_project.Server.RemoveFile.Laws.{Removes, remove_under_lock-Removes}
use sol_project.Server.CloseFile.{close_under_lock}
use sol_project.Server.CloseFile.Laws.{Closes, close_under_lock-Closes}
use sol_project.Server.CloseFile.{close_client}
use sol_project.Server.CloseFile.Client.{ClosesAll, close_client-ClosesAll}
use sol_project.Server.FileLocks.{reader_unlock}
use sol_project.Server.ReadFile.{files_to_read, read_under_lock, read_n_under_lock}
use sol_project.Server.ReadFile.Many.{LocksFirst, reader_unlock-IsConsistent}
use sol_project.Server.ReadFile.Several.{read_n_under_lock-LocksFirst}
use sol_project.Hash.HashMap.{entries}
use sol_project.Server.ReadFile.Laws.{Begins, read_under_lock-Begins}
use sol_project.Server.Invariant.{IsFile, IsConfigured, IsConsistent}
use sol_project.Server.Invariant.Steps.{init-IsStored}

-- `HASH_N_LIST`, and the state that `main` sets up
unfoldable pub boot : Config → (FileName → ℕ → ℕ) → Server
boot config hash = record {
  config = config;
  files = HashMap.init 8 hash;
  curr_state = record {
    files = 0;
    space = 0;
    conn = 0;
    no_lru = 0;
    max_files = 0;
    max_space = 0;
    max_conn = 0;
  };
}

-- One critical section that completes. The contents that arrive fill the buffer, and a file has
-- fewer than 2 ^ 32 - 1 readers. A transfer has no step of its own but its last: when it gives the
-- reader's lock on a file back, at any later time.
pub data Step (s s' : Server) : Type 0 where
  opening :
      (path : FileName) (flags fd : ℕ) (now : Timespec) (code : Code)
      → open_existing s path flags fd now ≡ done (s', code)
      → Step s s'
  creating :
      (path : FileName) (flags fd : ℕ) (created used : Timespec) (expelled : Option File)
      (code : Code)
      → open_create s path flags fd created used ≡ done (s', expelled, code)
      → Step s s'
  writing :
      (path : FileName) (size : ℕ) (buf : List ℕ) (fd : ℕ) (now : Timespec) (expelled : List File)
      (code : Code)
      → length buf ≡ size
      → write_under_lock s path size buf fd now ≡ done (s', expelled, code)
      → Step s s'
  appending :
      (path : FileName) (size : ℕ) (buf : List ℕ) (fd : ℕ) (now : Timespec) (expelled : List File)
      (code : Code)
      → length buf ≡ size
      → size < 2 ^ 63
      → append_under_lock s path size buf fd now ≡ done (s', expelled, code)
      → Step s s'
  removing :
      (path : FileName) (fd : ℕ) (code : Code)
      → remove_under_lock s path fd ≡ done (s', code)
      → Step s s'
  closing :
      (path : FileName) (fd : ℕ) (code : Code)
      → close_under_lock s path fd ≡ done (s', code)
      → Step s s'
  reading :
      (path : FileName) (fd : ℕ) (now : Timespec) (code : Code) (found : Option File)
      → ((f : File) → HashMap.get s.files path ≡ some f → f.n_readers + 1 < 2 ^ 32)
      → read_under_lock s path fd now ≡ done (s', code, found)
      → Step s s'
  reading_several :
      (n : ℕ) (file_list : List (FileName × File))
      → 0 < files_to_read n s.curr_state.files
      → files_to_read n s.curr_state.files < 2 ^ 31
      → read_n_under_lock s n ≡ done (s', file_list)
      → Step s s'
  giving_back :
      (path : FileName) (file : File)
      → HashMap.get s.files path ≡ some file
      → s' ≡ through s path reader_unlock
      → Step s s'
  leaving : (fd : ℕ) → close_client s fd ≡ done s' → Step s s'

-- The states that the server comes to.
pub data Reachable (config : Config) (hash : FileName → ℕ → ℕ) : Server → Type 0 where
  booted : Reachable config hash (boot config hash)
  stepped : {s s' : Server} → Reachable config hash s → Step s s' → Reachable config hash s'

completed :
    {A : Type 0} (B : Type 0) (P : A → Type 0) (r : Outcome A) (a : A)
    → Ends B r P
    → r ≡ done a
    → P a
completed B P r a h e = subst (λ x. Ends B x P) e h

boot-IsConsistent :
    (config : Config) (hash : FileName → ℕ → ℕ)
    → IsConfigured (boot config hash)
    → IsConsistent (boot config hash)
unfolding boot
boot-IsConsistent config hash c = record {
  config = c;
  stored = init-IsStored IsFile 8 hash (omega arith);
  few = omega arith;
  small = omega arith;
  files_peak = omega arith;
  space_peak = omega arith;
  files_bound = omega arith;
  space_bound = omega arith;
}

Step-IsConsistent : (s s' : Server) → IsConsistent s → Step s s' → IsConsistent s'
Step-IsConsistent s s' i (opening path flags fd now code e) =
    (completed _ (Opens s path flags fd) _ (s', code) (open_existing-Opens s path flags fd now i)
      e).0
Step-IsConsistent s s' i (creating path flags fd created used expelled code e) =
    elim (completed _ (Creates s path flags fd created used) _ (s', expelled, code)
      (open_create-Creates s path flags fd created used i) e) [
        | inl (_, _, same) ↦ subst⁻¹ IsConsistent same i
        | inr (_, _, h) ↦ h.consistent
      ]
Step-IsConsistent s s' i (writing path size buf fd now expelled code sized e) =
    elim (completed _ (Writes s path size buf fd now) _ (s', expelled, code)
      (write_under_lock-Writes s path size buf fd now i sized) e) [
        | inl (_, _, same) ↦ subst⁻¹ IsConsistent same i
        | inr (_, _, inl (_, same)) ↦ subst⁻¹ IsConsistent same i
        | inr (_, _, inr (_, _, h)) ↦ h.consistent
      ]
Step-IsConsistent s s' i (appending path size buf fd now expelled code sized small e) =
    elim (completed _ (Appends s path size buf fd now) _ (s', expelled, code)
      (append_under_lock-Appends s path size buf fd now i sized small) e) [
        | inl (_, _, same) ↦ subst⁻¹ IsConsistent same i
        | inr (inl (_, _, same)) ↦ subst⁻¹ IsConsistent same i
        | inr (inr (_, _, inl (_, same))) ↦ subst⁻¹ IsConsistent same i
        | inr (inr (_, _, inr (_, _, h))) ↦ h.consistent
      ]
Step-IsConsistent s s' i (removing path fd code e) =
    (completed _ (Removes s path fd) _ (s', code) (remove_under_lock-Removes s path fd i) e).0
Step-IsConsistent s s' i (closing path fd code e) =
    (completed _ (Closes s path fd) _ (s', code) (close_under_lock-Closes s path fd i) e).0
Step-IsConsistent s s' i (reading path fd now code found few e) =
    (completed _ (Begins s path fd now) _ (s', code, found)
      (read_under_lock-Begins s path fd now i few) e).0
Step-IsConsistent s s' i (reading_several n file_list pos small e) =
    (completed _ (LocksFirst (files_to_read n s.curr_state.files) (entries s.files) s []) _
      (s', file_list) (read_n_under_lock-LocksFirst s n i pos small) e).done_walk.consistent
Step-IsConsistent s s' i (giving_back path file there e) =
    subst⁻¹ IsConsistent e (reader_unlock-IsConsistent s path file i there)
Step-IsConsistent s s' i (leaving fd e) =
    (completed _ (ClosesAll s fd) _ s' (close_client-ClosesAll s fd i) e).0

-- If the configuration allows at least one file and fits the machine's integers, every state that
-- the server comes to, from its start through completed critical sections of open, create, write,
-- append, remove, close and read requests, of transfers that end, and of clients that leave, in
-- any order, is consistent: the map is well formed, the counts are those of the stored files, and
-- neither they nor their peaks are above the configured bounds. The contents of a write or an
-- append fill their buffer, an append has fewer than 2 ^ 63 bytes, a file that is read has fewer
-- than 2 ^ 32 - 1 readers, and a request for several files has some to read, fewer than 2 ^ 31.
pub Reachable-IsConsistent :
    (config : Config) (hash : FileName → ℕ → ℕ) (s : Server)
    → IsConfigured (boot config hash)
    → Reachable config hash s
    → IsConsistent s
Reachable-IsConsistent config hash s c booted = boot-IsConsistent config hash c
Reachable-IsConsistent config hash s c (stepped {s = before} r step) =
    Step-IsConsistent before s (Reachable-IsConsistent config hash before c r) step
