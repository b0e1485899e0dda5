-- ===== src/Server/Invariant.antt =====
-- What holds of the shared state whenever no thread is under `files_mtx`.
pub mod Steps
pub mod Preserve
pub mod Walk
use sol_project.Prelude.{ℕ, ◌+◌, ◌^◌, ◌≤◌, ◌<◌, ◌≡◌, true, some, List, length, bytes_key, weigh}
use sol_project.Hash.HashMap
use sol_project.Hash.HashMap.{entries}
use sol_project.Hash.HashMap.Growth.{IsValid}
use sol_project.Hash.HashTable
use sol_project.Hash.HashTable.Laws.{IsTable}
use sol_project.Server.State.{FileName, File, Files, Server}

-- A stored file under its path name: its size is that of its contents, no writer is at work,
-- it may be expelled, and the client that holds its lock has it open.
pub record IsFile (k : FileName) (f : File) : Type 0 where
  pub named : f.path_name ≡ k
  pub sized : f.size ≡ length f.contents
  pub idle : f.n_writers ≡ 0
  pub expellable : f.can_be_expelled ≡ true
  pub table : IsTable f.fd_open
  pub holder : (c : ℕ) → f.fd_lock ≡ some c → HashTable.contains f.fd_open c ≡ true

abbrev pub size_of : FileName × File → ℕ
size_of e = e.1.size

-- The map is well formed, its files satisfy `P`, and it holds `n` files of `b` bytes in all.
pub record IsStored (P : FileName → File → Type 0) (m : Files) (n b : ℕ) : Type 0 where
  pub valid : IsValid m
  pub files : n ≡ weigh (λ _. 1) (entries m)
  pub space : b ≡ weigh size_of (entries m)
  pub each : (k : FileName) (f : File) → HashMap.get m k ≡ some f → P k f

-- The configuration fits the machine's integers, and allows at least one file.
pub record IsConfigured (s : Server) : Type 0 where
  pub some_files : 0 < s.config.max_files
  pub files_fit : s.config.max_files < 2 ^ 32
  pub space_fits : s.config.max_space < 2 ^ 63

-- The store never holds more files or bytes than configured, nor did it ever.
pub record IsConsistent (s : Server) : Type 0 where
  pub config : IsConfigured s
  pub stored : IsStored IsFile s.files s.curr_state.files s.curr_state.space
  pub few : s.curr_state.files ≤ s.config.max_files
  pub small : s.curr_state.space ≤ s.config.max_space
  pub files_peak : s.curr_state.files ≤ s.curr_state.max_files
  pub space_peak : s.curr_state.space ≤ s.curr_state.max_space
  pub files_bound : s.curr_state.max_files ≤ s.config.max_files
  pub space_bound : s.curr_state.max_space ≤ s.config.max_space

-- Some stored file is being read by another thread.
abbrev pub IsBusy : Files → Type 0
IsBusy m = (k : FileName) × (f : File) × (HashMap.get m k ≡ some f) × (0 < f.n_readers)
