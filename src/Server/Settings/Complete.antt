-- ===== src/Server/Settings/Complete.antt =====
-- What a configuration that is read has.
use sol_project.Prelude.{
  ℕ, zero, suc, ◌+◌, ◌^◌, ◌≡◌, ◌<◌, refl, Bool, true, false, not, ◌&&◌, Option, none, some, List,
  arith, if◌then◌else◌, if_true, bytes_key, ◌==◌,
}
use sol_project.Hash.Chain.{to_nat}
use sol_project.Server.State.{Server, Config, Policy}
use sol_project.Server.Settings.{
  Settings, Seen, max_files_key, max_space_key, no_worker_key, sock_path_key, path_dlog_key,
  cache_pol_key, spelling, Progress, scan_key, scan_unsigned, path_line, fgets, to_policy,
  with_files, with_space, with_workers, with_socket_path, with_log_dir, with_known, with_policy,
  read_option, after_key, then_next, read_options, nothing_seen, all_seen, when_complete,
  get_server_config,
}

-- how many options have been seen
abbrev pub seen_count : Seen → ℕ
seen_count seen =
    to_nat seen.log_file
    + to_nat seen.max_files
    + to_nat seen.max_space
    + to_nat seen.socket_name
    + to_nat seen.no_workers
    + to_nat seen.policy

-- The numbers fit the fields of `server_config_t`.
pub record Fits (c : Config) : Type 0 where
  pub files_fit : c.max_files < 2 ^ 32
  pub space_fits : c.max_space < 2 ^ 64
  pub workers_fit : c.n_workers < 2 ^ 32

module _ (s : Settings) (seen : Seen) (f : Fits s.config) where
  -- An option that is read is a new one, and the numbers still fit.
  abbrev pub Reads : Option Progress → Type 0
  Reads none = Unit {0}
  Reads (some (s', seen', rest)) = (seen_count seen' ≡ seen_count seen + 1) × Fits s'.config

  with_files-Reads :
      (o : Option (ℕ × List ℕ)) → seen.max_files ≡ false → Reads (with_files s seen o)
  with_files-Reads none e = tt
  with_files-Reads (some (n, rest)) e = (
    ground (arith, e),
    record { files_fit = omega arith; space_fits = f.space_fits; workers_fit = f.workers_fit },
  )

  with_space-Reads :
      (o : Option (ℕ × List ℕ)) → seen.max_space ≡ false → Reads (with_space s seen o)
  with_space-Reads none e = tt
  with_space-Reads (some (n, rest)) e = (
    ground (arith, e),
    record { files_fit = f.files_fit; space_fits = omega arith; workers_fit = f.workers_fit },
  )

  with_workers-Reads :
      (o : Option (ℕ × List ℕ)) → seen.no_workers ≡ false → Reads (with_workers s seen o)
  with_workers-Reads none e = tt
  with_workers-Reads (some (n, rest)) e = (
    ground (arith, e),
    record { files_fit = f.files_fit; space_fits = f.space_fits; workers_fit = omega arith },
  )

  with_socket_path-Reads :
      (o : Option (List ℕ × List ℕ)) → seen.socket_name ≡ false → Reads (with_socket_path s seen o)
  with_socket_path-Reads none e = tt
  with_socket_path-Reads (some (l, rest)) e = (ground (arith, e), f)

  with_log_dir-Reads :
      (o : Option (List ℕ × List ℕ)) → seen.log_file ≡ false → Reads (with_log_dir s seen o)
  with_log_dir-Reads none e = tt
  with_log_dir-Reads (some (l, rest)) e = (ground (arith, e), f)

  with_known-Reads :
      (rest : List ℕ) (o : Option Policy) → seen.policy ≡ false → Reads (with_known s seen rest o)
  with_known-Reads rest none e = tt
  with_known-Reads rest (some p) e = (
    ground (arith, e),
    record { files_fit = f.files_fit; space_fits = f.space_fits; workers_fit = f.workers_fit },
  )

  with_policy-Reads :
      (o : Option (List ℕ × List ℕ)) → seen.policy ≡ false → Reads (with_policy s seen o)
  with_policy-Reads none e = tt
  with_policy-Reads (some (code, rest)) e = with_known-Reads rest (to_policy code) e

  -- one case of the chain of options
  option-Reads :
      (same had : Bool) (x y : Option Progress)
      → (had ≡ false → Reads x)
      → Reads y
      → Reads (if same && not had then x else y)
  option-Reads true false x y h k = h refl
  option-Reads true true x y h k = k
  option-Reads false had x y h k = k

  read_option-Reads : (key file : List ℕ) → Reads (read_option s seen key file)
  unfolding read_option
  read_option-Reads key file =
      option-Reads (key == spelling max_files_key) seen.max_files _ _
        (with_files-Reads (scan_unsigned s.config.max_files file))
        (option-Reads (key == spelling max_space_key) seen.max_space _ _
          (with_space-Reads (scan_unsigned s.config.max_space file))
          (option-Reads (key == spelling no_worker_key) seen.no_workers _ _
            (with_workers-Reads (scan_unsigned s.config.n_workers file))
            (option-Reads (key == spelling sock_path_key) seen.socket_name _ _
              (with_socket_path-Reads (path_line file))
              (option-Reads (key == spelling path_dlog_key) seen.log_file _ _
                (with_log_dir-Reads (path_line file))
                (option-Reads (key == spelling cache_pol_key) seen.policy _ none
                  (with_policy-Reads (fgets 4 file)) tt)))))

  after_key-Reads : (o : Option (List ℕ × List ℕ)) → Reads (after_key s seen o)
  after_key-Reads none = tt
  after_key-Reads (some (key, rest)) = read_option-Reads key rest

-- After so many rounds as many more options have been seen.
abbrev pub Counts : ℕ → Seen → Option (Settings × Seen) → Type 0
Counts rounds seen none = Unit {0}
Counts rounds seen (some (s', seen')) =
    (seen_count seen' ≡ seen_count seen + rounds) × Fits s'.config

read_options-Counts :
    (rounds : ℕ) (s : Settings) (seen : Seen) (file : List ℕ)
    → Fits s.config
    → Counts rounds seen (read_options rounds s seen file)
unfolding read_options
read_options-Counts zero s seen file f = (omega arith, f)
read_options-Counts (suc rounds) s seen file f =
    next (after_key s seen (scan_key file)) (after_key-Reads s seen f (scan_key file))
      (λ s1 seen1 rest g. read_options-Counts rounds s1 seen1 rest g)
  where
    more :
        (seen1 : Seen) (o : Option (Settings × Seen))
        → seen_count seen1 ≡ seen_count seen + 1
        → Counts rounds seen1 o
        → Counts (suc rounds) seen o
    more seen1 none e c = tt
    more seen1 (some (s', seen')) e (n, g) = (omega (arith, n, e), g)

    next :
        (o : Option Progress)
        → Reads s seen f o
        → ((s1 : Settings) (seen1 : Seen) (rest : List ℕ)
            → Fits s1.config
            → Counts rounds seen1 (read_options rounds s1 seen1 rest))
        → Counts (suc rounds) seen (then_next o (read_options rounds))
    next none h k = tt
    next (some (s1, seen1, rest)) (e, g) k = more seen1 _ e (k s1 seen1 rest g)

full-all_seen : (seen : Seen) → seen_count seen ≡ 6 → all_seen seen ≡ true
full-all_seen seen e = ground (arith, e)

-- The configuration that is read, if the loop ends well.
abbrev pub Accepted : Option (Settings × Seen) → Option Settings → Type 0
Accepted none r = r ≡ none
Accepted (some (s, seen)) r = (r ≡ some s) × (all_seen seen ≡ true) × Fits s.config

-- A configuration file from which six options are read without an error has all of the options,
-- each once, in any order, so that the check for missing ones after the loop never fails; and the
-- numbers that are set fit their fields, the wrap-around of the megabytes included.
pub get_server_config-Accepted :
    (s : Settings) (file : List ℕ)
    → Fits s.config
    → Accepted (read_options 6 s nothing_seen file) (get_server_config s file)
unfolding get_server_config
get_server_config-Accepted s file f =
    complete (read_options 6 s nothing_seen file) (read_options-Counts 6 s nothing_seen file f)
  where
    complete :
        (o : Option (Settings × Seen)) → Counts 6 nothing_seen o → Accepted o (when_complete o)
    complete none c = refl
    complete (some (s', seen')) (n, g) =
        let all = full-all_seen seen' (omega (arith, n)) in (if_true _ _ all, all, g)
