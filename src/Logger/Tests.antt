-- ===== src/Logger/Tests.antt =====
-- A log statement to an open stream.
use librocks_dll.Prelude.{some, [], ◌∷◌, ◌++◌, ◌≡◌, refl, true}
use librocks_dll.Prelude.Tests.{if◌then◌else◌}
use librocks_dll.Prelude.Text.{codes}
use librocks_dll.Logger.Defs.{
  log_warning, log_info, to_int, Host, LogState, is_log_level_enabled, log,
}
use librocks_dll.Logger.Lines.{line}
use librocks_dll.Logger.Output.{log_lem}

abbrev host : Host
host = record {
  module_path = some (codes "C:\\librocks.dll");
  date_suffix = some (codes "_2024_01_01");
  date = some (codes "2024-01-01");
  time_ok = true;
  formatted_time = some (codes "10:00:00.000");
  thread_id = codes "7";
  open_file = λ name. some 0;
}

abbrev logs : LogState
logs = record { max_log_level = log_info; stream = some 3; written = [] }

log_lem_example : log host logs log_warning (codes "slow" ∷ []) ≡ (
    if is_log_level_enabled (to_int log_warning) logs
    then record logs {
      written = logs.written ++ (3, line host log_warning (codes "slow" ∷ []) ++ codes "\n") ∷ [];
    }
    else logs)
log_lem_example = log_lem host logs log_warning (codes "slow" ∷ []) 3 refl
