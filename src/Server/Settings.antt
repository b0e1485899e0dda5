-- ===== src/Server/Settings.antt =====
-- src/server/get_server_config.c: the configuration file, as its bytes. `fscanf` and `fgets` are
-- written out for the formats that the source uses. A key that the end of the file cuts short
-- always ends in -1, since its value is missing too, and is an error at once here.
pub mod Complete
use sol_project.Prelude.{
  ℕ, zero, suc, ◌+◌, ◌-◌, ◌*◌, ◌%◌, ◌^◌, Bool, true, false, not, ◌&&◌, ◌||◌, Option, none, some,
  List, [], ◌∷◌, length, take, drop, eqb, leb, ltb, if◌then◌else◌, bytes_key, ◌==◌,
}
use sol_project.Server.State.{Config, Policy, lru, fifo}

-- `server_config_t`
pub record Settings : Type 0 where
  pub config : Config
  pub socket_path : List ℕ
  pub log_dir_path : List ℕ

-- the options that have been read
pub record Seen : Type 0 where
  pub log_file : Bool
  pub max_files : Bool
  pub max_space : Bool
  pub socket_name : Bool
  pub no_workers : Bool
  pub policy : Bool

abbrev pub is_space : ℕ → Bool
is_space b = eqb b 32 || (leb 9 b && leb b 13)

-- white space in a format
unfoldable pub skip_space : List ℕ → List ℕ
skip_space [] = []
skip_space (b ∷ bs) = let rest = skip_space bs in if is_space b then rest else b ∷ bs

-- `=` in a format: where it is missing `fscanf` ends, without an error for the caller
abbrev pub skip_equals : List ℕ → List ℕ
skip_equals [] = []
skip_equals (b ∷ bs) = if eqb b 61 then skip_space bs else b ∷ bs

-- `FSCANF(config, " %9c = ", ...)`
unfoldable pub scan_key : List ℕ → Option (List ℕ × List ℕ)
scan_key file =
    let rest = skip_space file in
    if ltb (length rest) 9 then none else some (take 9 rest, skip_equals (skip_space (drop 9 rest)))

abbrev pub is_digit : ℕ → Bool
is_digit b = leb 48 b && leb b 57

-- the digits, as a number, with those before them
unfoldable pub digits : ℕ → List ℕ → ℕ × List ℕ
digits n [] = (n, [])
digits n (b ∷ bs) =
    let rest = digits (10 * n + (b - 48)) bs in if is_digit b then rest else (n, b ∷ bs)

abbrev pub first_digit : List ℕ → Bool
first_digit [] = false
first_digit (b ∷ bs) = is_digit b

-- `strtoul`: on 64 bits, at its maximum on overflow; without a digit the variable stays as it was
abbrev pub number_from : ℕ → (ℕ → ℕ) → List ℕ → ℕ × List ℕ
number_from old sign bs =
    let (n, rest) = digits 0 bs in
    if first_digit bs then (if ltb n (2 ^ 64) then sign n else 2 ^ 64 - 1, rest) else (old, bs)

-- a minus sign negates
abbrev pub signed_from : ℕ → List ℕ → ℕ × List ℕ
signed_from old [] = (old, [])
signed_from old (b ∷ bs) =
    if eqb b 45
    then number_from old (λ n. (2 ^ 64 - n) % 2 ^ 64) bs
    else if eqb b 43
    then number_from old (λ n. n) bs
    else number_from old (λ n. n) (b ∷ bs)

abbrev pub unless_end : List ℕ → ℕ × List ℕ → Option (ℕ × List ℕ)
unless_end [] r = none
unless_end (b ∷ bs) r = some r

-- `FSCANF(config, "%lu", ...)`, and with `% 2 ^ 32` `%u`, on a variable that holds `old`
unfoldable pub scan_unsigned : ℕ → List ℕ → Option (ℕ × List ℕ)
scan_unsigned old file = unless_end (skip_space file) (signed_from old (skip_space file))

-- `fgets` for a buffer with room for `room` bytes beside the zero, up to the end of the line
unfoldable pub line : ℕ → List ℕ → List ℕ × List ℕ
line zero bs = ([], bs)
line (suc room) [] = ([], [])
line (suc room) (b ∷ bs) =
    let (l, rest) = line room bs in if eqb b 10 then (10 ∷ [], bs) else (b ∷ l, rest)

abbrev pub fgets : ℕ → List ℕ → Option (List ℕ × List ℕ)
fgets room [] = none
fgets room (b ∷ bs) = some (line room (b ∷ bs))

-- the string up to a newline or a zero
unfoldable pub up_to_newline : List ℕ → List ℕ
up_to_newline [] = []
up_to_newline (b ∷ bs) = let rest = up_to_newline bs in if eqb b 10 || eqb b 0 then [] else b ∷ rest

-- A path: `fgets` with PATH_MAX bytes.
abbrev pub path_line : List ℕ → Option (List ℕ × List ℕ)
path_line file = elim (fgets 4095 file) [
  | none ↦ none
  | some (l, rest) ↦ some (up_to_newline l, rest)
]

-- `strncmp(policy_code, "LRU", 3)`, then `strncmp(policy_code, "FIFO", 4)`
unfoldable pub to_policy : List ℕ → Option Policy
to_policy code =
    if take 3 code == (76 ∷ 82 ∷ 85 ∷ [])
    then some lru
    else if take 4 code == (70 ∷ 73 ∷ 70 ∷ 79 ∷ [])
    then some fifo
    else none

-- The keys: max_files, max_space, no_worker, sock_path, path_dlog and cache_pol.
pub data Key : Type 0 where
  max_files_key max_space_key no_worker_key sock_path_key path_dlog_key cache_pol_key : Key

abbrev pub spelling : Key → List ℕ
spelling max_files_key = 109 ∷ 97 ∷ 120 ∷ 95 ∷ 102 ∷ 105 ∷ 108 ∷ 101 ∷ 115 ∷ []
spelling max_space_key = 109 ∷ 97 ∷ 120 ∷ 95 ∷ 115 ∷ 112 ∷ 97 ∷ 99 ∷ 101 ∷ []
spelling no_worker_key = 110 ∷ 111 ∷ 95 ∷ 119 ∷ 111 ∷ 114 ∷ 107 ∷ 101 ∷ 114 ∷ []
spelling sock_path_key = 115 ∷ 111 ∷ 99 ∷ 107 ∷ 95 ∷ 112 ∷ 97 ∷ 116 ∷ 104 ∷ []
spelling path_dlog_key = 112 ∷ 97 ∷ 116 ∷ 104 ∷ 95 ∷ 100 ∷ 108 ∷ 111 ∷ 103 ∷ []
spelling cache_pol_key = 99 ∷ 97 ∷ 99 ∷ 104 ∷ 101 ∷ 95 ∷ 112 ∷ 111 ∷ 108 ∷ []

-- What the loop goes on with: the settings, what has been seen, and the rest of the file.
abbrev pub Progress : Type 0
Progress = Settings × Seen × List ℕ

abbrev pub with_files : Settings → Seen → Option (ℕ × List ℕ) → Option Progress
with_files s seen none = none
with_files s seen (some (n, rest)) = some (
  record s { config = record s.config { max_files = n % 2 ^ 32 } },
  record seen { max_files = true },
  rest,
)

-- megabytes, multiplied on 64 bits
abbrev pub with_space : Settings → Seen → Option (ℕ × List ℕ) → Option Progress
with_space s seen none = none
with_space s seen (some (n, rest)) = some (
  record s { config = record s.config { max_space = n * 1000000 % 2 ^ 64 } },
  record seen { max_space = true },
  rest,
)

abbrev pub with_workers : Settings → Seen → Option (ℕ × List ℕ) → Option Progress
with_workers s seen none = none
with_workers s seen (some (n, rest)) = some (
  record s { config = record s.config { n_workers = n % 2 ^ 32 } },
  record seen { no_workers = true },
  rest,
)

abbrev pub with_socket_path : Settings → Seen → Option (List ℕ × List ℕ) → Option Progress
with_socket_path s seen none = none
with_socket_path s seen (some (l, rest)) =
    some (record s { socket_path = l }, record seen { socket_name = true }, rest)

abbrev pub with_log_dir : Settings → Seen → Option (List ℕ × List ℕ) → Option Progress
with_log_dir s seen none = none
with_log_dir s seen (some (l, rest)) =
    some (record s { log_dir_path = l }, record seen { log_file = true }, rest)

abbrev pub with_known : Settings → Seen → List ℕ → Option Policy → Option Progress
with_known s seen rest none = none
with_known s seen rest (some p) =
    some (record s { config = record s.config { policy = p } }, record seen { policy = true }, rest)

abbrev pub with_policy : Settings → Seen → Option (List ℕ × List ℕ) → Option Progress
with_policy s seen none = none
with_policy s seen (some (code, rest)) = with_known s seen rest (to_policy code)

-- the body of the loop after the key: an unknown or repeated option is an error
unfoldable pub read_option : Settings → Seen → List ℕ → List ℕ → Option Progress
read_option s seen key file =
    if key == spelling max_files_key && not seen.max_files
    then with_files s seen (scan_unsigned s.config.max_files file)
    else if key == spelling max_space_key && not seen.max_space
    then with_space s seen (scan_unsigned s.config.max_space file)
    else if key == spelling no_worker_key && not seen.no_workers
    then with_workers s seen (scan_unsigned s.config.n_workers file)
    else if key == spelling sock_path_key && not seen.socket_name
    then with_socket_path s seen (path_line file)
    else if key == spelling path_dlog_key && not seen.log_file
    then with_log_dir s seen (path_line file)
    else if key == spelling cache_pol_key && not seen.policy
    then with_policy s seen (fgets 4 file)
    else none

abbrev pub after_key : Settings → Seen → Option (List ℕ × List ℕ) → Option Progress
after_key s seen none = none
after_key s seen (some (key, rest)) = read_option s seen key rest

abbrev pub then_next :
    Option Progress
    → (Settings → Seen → List ℕ → Option (Settings × Seen))
    → Option (Settings × Seen)
then_next none next = none
then_next (some (s, seen, rest)) next = next s seen rest

-- the loop, with so many rounds left
unfoldable pub read_options : ℕ → Settings → Seen → List ℕ → Option (Settings × Seen)
read_options zero s seen file = some (s, seen)
read_options (suc rounds) s seen file =
    then_next (after_key s seen (scan_key file)) (read_options rounds)

abbrev pub nothing_seen : Seen
nothing_seen = record {
  log_file = false;
  max_files = false;
  max_space = false;
  socket_name = false;
  no_workers = false;
  policy = false;
}

abbrev pub all_seen : Seen → Bool
all_seen seen =
    seen.policy
    && (seen.max_files
        && (seen.max_space && (seen.log_file && (seen.socket_name && seen.no_workers))))

abbrev pub when_complete : Option (Settings × Seen) → Option Settings
when_complete none = none
when_complete (some (s, seen)) = if all_seen seen then some s else none

-- `get_server_config`, for a file that can be read, on the globals as they are; `none` for -1
unfoldable pub get_server_config : Settings → List ℕ → Option Settings
get_server_config s file = when_complete (read_options 6 s nothing_seen file)
