-- ===== src/Tests/Startup.antt =====
-- src/logger.c and src/main.c on concrete answers.
use Prim.Native.String.{String}
use kia.Base.{◌≡◌, ◌⊎◌, replicate, drop, ◌↔◌, refl, true, false, [], ◌∷◌, none, some, arith, ◌≤◌}
use kia.Text.{decimal, decimal_onto, codes, cstr, zeros}
use kia.Auth.{idle}
use kia.Controller.Loop.{controller_cleanup}
use kia.Logger.{
  Logger, LogSystem, Message, null_format, bad_format, formatted, entry, iso8601, behind_year,
  put_string, timestamp_at, timestamp_of, strftime, two_digits, logger_log, get_iso8601_timestamp,
}
use kia.Logger.Gate.{logger_log-written_iff}
use kia.Logger.Timestamp.{Holds, stamp, calendar, get_iso8601_timestamp-Holds}
use kia.Logger.Replay.{replay}
use kia.Main.{MainEnv, exit_success, cleanup_and_exit, main}
use kia.Main.Startup.{acts, main-acts_iff, LeavesCleared, main-LeavesCleared}
use kia.Main.Shutdown.{cleanup_and_exit-written}
use kia.Tests.Program.{terminal, round_with, at_login}

abbrev sys : LogSystem
sys = record {
  opens = λ _. true;
  time = some 0;
  gmtime = λ _.
      some
        (record { tm_year = 126; tm_mon = 10; tm_mday = 26; tm_hour = 17; tm_min = 5; tm_sec = 9 });
  writes = true;
  flushes = true;
  garbles = λ b. b;
  memory = zeros 32;
}

abbrev logger : Logger
logger = record { log_file = true; logging_enabled = true; min_log_level = 0 }

timestamp : cstr (get_iso8601_timestamp sys (zeros 32)) ≡ codes "2026-11-26T17:05:09Z"
unfolding get_iso8601_timestamp timestamp_at timestamp_of strftime iso8601 behind_year two_digits
    decimal decimal_onto put_string cstr zeros replicate drop
timestamp = refl

-- Too small for the time.
get_iso8601_timestamp-Holds_example :
    Holds 8 (stamp 8 (calendar sys sys.time)) (get_iso8601_timestamp sys (codes "garbage!"))
get_iso8601_timestamp-Holds_example =
    get_iso8601_timestamp-Holds sys (λ b. refl) (codes "garbage!") (omega arith)

logger_log-written_iff_example :
    let lines = (logger_log sys 2 (formatted (codes "hello")) logger).1 in
    let one = entry sys 2 (codes "hello") ∷ [] in
    ((lines ≡ one) ↔ (
      (logger.logging_enabled ≡ true)
      × (logger.log_file ≡ true)
      × (logger.min_log_level ≤ 2)
      × (2 ≤ 3)
      × (sys.writes ≡ true)))
    × ((lines ≡ one) ⊎ (lines ≡ []))
    × ((logger_log sys 2 null_format logger).1 ≡ [])
    × ((logger_log sys 2 bad_format logger).1 ≡ [])
logger_log-written_iff_example = logger_log-written_iff sys 2 (codes "hello") logger

abbrev pub main_env : MainEnv
main_env = record {
  arguments = [];
  euid = 0;
  handles_term = true;
  handles_int = true;
  memory = at_login;
  fopen = λ _. none;
  rounds = round_with false [] ∷ [];
  signals = [];
  log_system = sys;
  terminal = terminal;
}

main-acts_iff_example : (acts (main main_env).1 ≡ true) ↔ (
    (main_env.arguments ≡ [])
    × (main_env.euid ≡ 0)
    × (main_env.handles_term ≡ true)
    × (main_env.handles_int ≡ true))
main-acts_iff_example = main-acts_iff main_env

main-LeavesCleared_example : LeavesCleared (main main_env).0
main-LeavesCleared_example = main-LeavesCleared main_env

abbrev plain_format : String → Message
plain_format m = formatted (codes m)

cleanup_and_exit-written_example :
    (replay sys
      (codes "/var/log/kia.log")
      plain_format
      (cleanup_and_exit terminal (some at_login) idle exit_success).1
      logger).1
    ≡ (replay sys
        (codes "/var/log/kia.log")
        plain_format
        (controller_cleanup terminal (some at_login) idle).1
        logger).1
cleanup_and_exit-written_example =
    cleanup_and_exit-written sys (codes "/var/log/kia.log") plain_format terminal at_login idle
      exit_success logger
