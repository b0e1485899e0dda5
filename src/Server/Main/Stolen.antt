-- ===== src/Server/Main/Stolen.antt =====
-- The wait of a worker stands under `if` (src/server/workers.c): a request for which it is woken can be
-- gone before it runs.
use sol_project.Server.Main.World.{World}
use sol_project.Server.Main.Runs.{Runs}
