-- ===== src/Server/State.antt =====
-- includes/server.h: the state that the worker threads share, and what a request can come to.
-- A client is its descriptor, which is never negative: `fd_lock` is `none` for -1. The buffers of
-- a file are its bytes; `files` maps a path name, without its terminating zero, to its file.
use sol_project.Prelude.{ℕ, ◌+◌, ◌-◌, ◌%◌, ◌^◌, Bool, Option, List, ◌≡◌, refl, ◌&&◌, bytes_key, ltb}
use sol_project.Hash.HashMap
use sol_project.Hash.HashMap.{HashMap}
use sol_project.Hash.HashTable.{HashTable}

abbrev pub FileName : Type 0
FileName = List ℕ

pub record Timespec : Type 0 where
  pub tv_sec : ℕ
  pub tv_nsec : ℕ

-- `file_t`
pub record File : Type 0 where
  pub path_name : FileName
  pub contents : List ℕ
  pub size : ℕ
  pub fd_lock : Option ℕ
  pub fd_open : HashTable
  pub n_readers : ℕ
  pub n_writers : ℕ
  pub creation_time : Timespec
  pub last_use : Timespec
  pub can_be_expelled : Bool

-- `policy_t`
pub data Policy : Type 0 where
  lru : Policy
  fifo : Policy

-- `server_config_t`, without the paths
pub record Config : Type 0 where
  pub n_workers : ℕ
  pub max_space : ℕ
  pub max_files : ℕ
  pub policy : Policy

-- `server_state_t`; the last three are the peaks that the final statistics print
pub record Stats : Type 0 where
  pub files : ℕ
  pub space : ℕ
  pub conn : ℕ
  pub no_lru : ℕ
  pub max_files : ℕ
  pub max_space : ℕ
  pub max_conn : ℕ

abbrev pub Files : Type 0
Files = HashMap FileName File

-- The globals `server_config`, `files` and `curr_state`.
pub record Server : Type 0 where
  pub config : Config
  pub files : Files
  pub curr_state : Stats

-- The codes of server-api-protocol.h.
pub data Code : Type 0 where
  sa_success sa_error sa_close : Code
  sa_exists sa_no_file sa_already_locked : Code
  sa_not_locked sa_not_empty sa_too_big sa_no_open : Code

-- What a critical section comes to: it completes; it waits for a lock that another thread holds;
-- `exit(EXIT_FAILURE)`; undefined behaviour, such as a NULL dereference; no end.
pub data Outcome {ℓ} (A : Type ℓ) : Type ℓ where
  done : A → Outcome A
  blocked : Outcome A
  aborted : Outcome A
  crashed : Outcome A
  diverged : Outcome A

infixl 5 ◌>>=◌
abbrev pub ◌>>=◌ {ℓ κ} : {A : Type ℓ} {B : Type κ} → Outcome A → (A → Outcome B) → Outcome B
done a >>= f = f a
blocked >>= f = blocked
aborted >>= f = aborted
crashed >>= f = crashed
diverged >>= f = diverged

-- `r` completes with `P`, or waits for a lock, which happens only if `B`; and nothing else.
abbrev pub Ends {ℓ} : {A : Type ℓ} → Type 0 → Outcome A → (A → Type 0) → Type 0
Ends B (done a) P = P a
Ends B blocked P = B
Ends B aborted P = ⊥
Ends B crashed P = ⊥
Ends B diverged P = ⊥

pub Ends-bind {ℓ κ} :
    {A : Type ℓ} {C : Type κ} (B : Type 0) (P : A → Type 0) (Q : C → Type 0) (r : Outcome A)
    (f : A → Outcome C)
    → Ends B r P
    → ((a : A) → r ≡ done a → P a → Ends B (f a) Q)
    → Ends B (r >>= f) Q
Ends-bind B P Q (done a) f h k = k a refl h
Ends-bind B P Q blocked f h k = h
Ends-bind B P Q aborted f h k = absurd h
Ends-bind B P Q crashed f h k = absurd h
Ends-bind B P Q diverged f h k = absurd h

pub Ends-map {ℓ} :
    {A : Type ℓ} (B : Type 0) (P Q : A → Type 0) (r : Outcome A)
    → ((a : A) → P a → Q a)
    → Ends B r P
    → Ends B r Q
Ends-map B P Q (done a) f h = f a h
Ends-map B P Q blocked f h = h
Ends-map B P Q aborted f h = absurd h
Ends-map B P Q crashed f h = absurd h
Ends-map B P Q diverged f h = absurd h

-- A weaker reason to wait.
pub Ends-busy {ℓ} :
    {A : Type ℓ} (B C : Type 0) (P : A → Type 0) (r : Outcome A) → (B → C) → Ends B r P → Ends C r P
Ends-busy B C P (done a) f h = h
Ends-busy B C P blocked f h = f h
Ends-busy B C P aborted f h = absurd h
Ends-busy B C P crashed f h = absurd h
Ends-busy B C P diverged f h = absurd h

-- `unsigned int` and `size_t`.
abbrev pub inc32 : ℕ → ℕ
inc32 n = (n + 1) % 2 ^ 32

abbrev pub dec32 : ℕ → ℕ
dec32 n = (n + 2 ^ 32 - 1) % 2 ^ 32

abbrev pub add64 : ℕ → ℕ → ℕ
add64 a b = (a + b) % 2 ^ 64

abbrev pub sub64 : ℕ → ℕ → ℕ
sub64 a b = (a + 2 ^ 64 - b) % 2 ^ 64

-- `long d = a - b; d > 0`, for values of type `size_t`
abbrev pub long_positive : ℕ → Bool
long_positive d = ltb 0 d && ltb d (2 ^ 63)

-- A file pointer that a lookup returned points into the map: a change through it changes the
-- file under that path name. `put_back` writes the whole file.
abbrev pub through : Server → FileName → (File → File) → Server
through s path f = record s { files = HashMap.modify s.files path f }

abbrev pub put_back : Server → FileName → File → Server
put_back s path file = through s path (λ _. file)
