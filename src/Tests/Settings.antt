-- ===== src/Tests/Settings.antt =====
-- Instances of the theorems about the configuration, on a file of six lines.
use sol_project.Prelude.{ℕ, false, List, [], ◌∷◌, arith}
use sol_project.Hash.HashMap
use sol_project.Server.State.{lru, Timespec, Server}
use sol_project.Server.OpenFile.{install}
use sol_project.Server.OpenFile.Create.{new_file}
use sol_project.Server.History.{boot}
use sol_project.Server.Settings.{Settings, read_options, nothing_seen, get_server_config}
use sol_project.Server.Settings.Complete.{Fits, Accepted, get_server_config-Accepted}
use sol_project.Tests.Main.{hash_zero}

-- the globals before they are set
abbrev zeros : Settings
zeros = record {
  config = record { n_workers = 0; max_space = 0; max_files = 0; policy = lru };
  socket_path = [];
  log_dir_path = [];
}

zeros-Fits : Fits zeros.config
zeros-Fits = record { files_fit = omega arith; space_fits = omega arith; workers_fit = omega arith }

abbrev config_file : List ℕ
config_file =
    109 ∷ 97 ∷ 120 ∷ 95 ∷ 102 ∷ 105 ∷ 108 ∷ 101 ∷ 115 ∷ 32 ∷ 61 ∷ 32 ∷ 49 ∷ 48 ∷ 10 ∷ 109 ∷ 97 ∷ 120
    ∷ 95 ∷ 115 ∷ 112 ∷ 97 ∷ 99 ∷ 101 ∷ 32 ∷ 61 ∷ 32 ∷ 49 ∷ 10 ∷ 110 ∷ 111 ∷ 95 ∷ 119 ∷ 111 ∷ 114
    ∷ 107 ∷ 101 ∷ 114 ∷ 32 ∷ 61 ∷ 32 ∷ 50 ∷ 10 ∷ 115 ∷ 111 ∷ 99 ∷ 107 ∷ 95 ∷ 112 ∷ 97 ∷ 116 ∷ 104
    ∷ 32 ∷ 61 ∷ 32 ∷ 46 ∷ 47 ∷ 115 ∷ 10 ∷ 112 ∷ 97 ∷ 116 ∷ 104 ∷ 95 ∷ 100 ∷ 108 ∷ 111 ∷ 103 ∷ 32
    ∷ 61 ∷ 32 ∷ 46 ∷ 47 ∷ 108 ∷ 10 ∷ 99 ∷ 97 ∷ 99 ∷ 104 ∷ 101 ∷ 95 ∷ 112 ∷ 111 ∷ 108 ∷ 32 ∷ 61 ∷ 32
    ∷ 76 ∷ 82 ∷ 85 ∷ 10 ∷ []

abbrev as_written : Settings
as_written = record {
  config = record { n_workers = 2; max_space = 1000000; max_files = 10; policy = lru };
  socket_path = 46 ∷ 47 ∷ 115 ∷ [];
  log_dir_path = 46 ∷ 47 ∷ 108 ∷ [];
}

get_server_config-Accepted_example :
    Accepted (read_options 6 zeros nothing_seen config_file) (get_server_config zeros config_file)
get_server_config-Accepted_example = get_server_config-Accepted zeros config_file zeros-Fits

-- A client opens a new file.
abbrev time : Timespec
time = record { tv_sec = 30; tv_nsec = 1 }

abbrev first_state : Server
first_state =
    install (boot as_written.config hash_zero) (47 ∷ 98 ∷ [])
      (record (new_file (47 ∷ 98 ∷ []) 3 7 time time) { n_writers = 1; can_be_expelled = false })
