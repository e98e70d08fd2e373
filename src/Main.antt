-- ===== src/Main.antt =====
-- src/main.c: the options, the checks at the start, and how the parts are begun and ended.
pub mod Startup
pub mod Shutdown
pub mod Login
use Prim.Native.String.{String}
use kia.Base.{
  ℕ, ◌++◌, zero, suc, Bool, true, false, not, ◌&&◌, List, [], ◌∷◌, Option, none, some, ◌==◌,
  if◌then◌else◌, ℤ, pos, negsuc,
}
use kia.Code.{Code, success, error_system, succeeded}
use kia.Text.{Bytes, codes, equal}
use kia.Stdio.{File}
use kia.Effect.{
  Effect, Stream, stdout, stderr, printed, Eff, pure, call, ◌>>=◌, ◌>>◌, info, warn, error, log,
  logger_started, logger_closed, signalled,
}
use kia.Config.{Config, config_load}
use kia.Auth.{AuthGlobals, Terminal, idle}
use kia.Logger.{Logger, LogSystem, logger_init}
use kia.Controller.{AppContext, Round, controller_init}
use kia.Controller.Loop.{controller_run, controller_cleanup}

abbrev pub default_config_path : Bytes
default_config_path = codes "/etc/kia/config"

abbrev pub default_log_path : Bytes
default_log_path = codes "/var/log/kia.log"

abbrev kia_version : Bytes
kia_version = codes "1.0.0"

-- One line.
abbrev put : Stream → Bytes → Eff (Unit {0})
put stream text = call (printed stream (text ++ b'\n' ∷ []))

-- `g_shutdown_requested` after a signal.
unfoldable pub signal_handler : ℕ → Bool → Bool
signal_handler signum shutdown_requested = true

-- The signals that interrupt a call, as its trace has them.
abbrev pub signals_of : List Effect → List ℕ
signals_of [] = []
signals_of (signalled signum ∷ es) = signum ∷ signals_of es
signals_of (_ ∷ es) = signals_of es

-- After all signals that have come.
unfoldable pub shutdown_requested : List ℕ → Bool
unfolding signal_handler
shutdown_requested [] = false
shutdown_requested (signum ∷ more) = signal_handler signum (shutdown_requested more)

unfoldable pub print_version : Eff (Unit {0})
print_version = do
  put stdout (codes "Kia Display Manager v" ++ kia_version)
  put stdout (codes "Lightweight TUI-based display manager for Linux")

unfoldable pub print_help : Eff (Unit {0})
print_help = do
  put stdout (codes "Usage: kia [OPTIONS]" ++ b'\n' ∷ [])
  put stdout (codes "Options:")
  put stdout (codes "  --version    Display version information")
  put stdout (codes "  --help       Display this help message")
  put stdout []
  put stdout (codes "Configuration:")
  put stdout (codes "  Config file: " ++ default_config_path)
  put stdout (codes "  Log file:    " ++ default_log_path)
  put stdout []
  put stdout (codes "Kia must be run as root to manage user sessions.")

-- The first option decides. 0 is to go on, 1 to exit with success, -1 to exit with failure.
unfoldable pub parse_arguments : List Bytes → Eff ℤ
unfolding print_version print_help
parse_arguments [] = pure (pos 0)
parse_arguments (argument ∷ more) =
    if equal argument (codes "--version")
    then (do print_version; pure (pos 1))
    else if equal argument (codes "--help")
    then (do print_help; pure (pos 1))
    else (do
      put stderr (codes "Error: Unknown option '" ++ argument ++ codes "'")
      put stderr (codes "Try 'kia --help' for more information")
      pure (negsuc 0))

-- Of the effective user.
unfoldable pub check_root_privileges : ℕ → Eff Code
check_root_privileges euid = if euid == 0 then pure success else (do
  put stderr (codes "Error: Kia must be run as root")
  put stderr (codes "Please run with sudo or as root user")
  pure error_system)

-- Whether `sigaction` works for SIGTERM, and for SIGINT.
unfoldable pub setup_signal_handlers : Bool → Bool → Eff Code
setup_signal_handlers term int =
    if not term
    then (do put stderr (codes "Error: Failed to setup SIGTERM handler"); pure error_system)
    else if not int
    then (do put stderr (codes "Error: Failed to setup SIGINT handler"); pure error_system)
    else pure success

-- What the system answers. The arguments are those behind the program's name, and `memory` is what
-- stands in the uninitialised context. `signals` are those that come before the loop ends and
-- interrupt no `waitpid`; what one does to `getch` is the key of that turn.
pub record MainEnv : Type 0 where
  pub arguments : List Bytes
  pub euid : ℕ
  pub handles_term : Bool
  pub handles_int : Bool
  pub memory : AppContext
  pub fopen : Bytes → Option File
  pub rounds : List Round
  pub signals : List ℕ
  pub log_system : LogSystem
  pub terminal : Terminal

-- How the program ends: with a status, or not yet.
pub data Exit : Type 0 where
  exit_success exit_failure still_running : Exit

abbrev pub status_of : Code → Exit
status_of code = if succeeded code then exit_success else exit_failure

-- `g_app_context` may be null.
unfoldable pub cleanup_and_exit :
    Terminal → Option AppContext → AuthGlobals → Exit → Eff (Exit × Option AppContext)
cleanup_and_exit t ctx g status = do
  (ctx', _) ← controller_cleanup t ctx g
  call (log info "Kia display manager shutting down")
  call logger_closed
  pure (status, ctx')

-- The loop has come back, with a result or still running.
unfoldable pub after_run :
    MainEnv
    → List ℕ
    → Option Code × Option AppContext × AuthGlobals
    → Eff (Exit × Option AppContext)
after_run env signals (none, ctx, g) = pure (still_running, ctx)
after_run env signals (some code, ctx, g) = do
  (if succeeded code then pure tt else call (log error "Controller exited with error: %d"))
  (if shutdown_requested signals then call (log info "Shutdown requested by signal") else pure tt)
  cleanup_and_exit env.terminal ctx g (status_of code)

abbrev pub with_config : Config → Option Config → Config
with_config c none = c
with_config c (some c') = c'

-- The static variables of the logger at first. Whether it starts does not depend on them.
abbrev closed_logger : Logger
closed_logger = record { log_file = false; logging_enabled = false; min_log_level = 0 }

-- A log that does not start is reported, and the program goes on.
unfoldable pub start_logger : LogSystem → Bool → String → Eff (Unit {0})
start_logger sys enabled warning = do
  call (logger_started enabled)
  (if succeeded (logger_init sys (some default_log_path) enabled closed_logger).0
      then pure tt
      else put stderr (codes warning))

-- The context is initialised.
unfoldable pub run_context : MainEnv → AppContext → Eff (Exit × Option AppContext)
run_context env ctx = do
  let (code, loaded) = config_load env.fopen (some default_config_path) (some ctx.config)
  let config = with_config ctx.config loaded
  (if succeeded code
      then pure tt
      else call (log warn "Failed to load config from %s, using defaults"))
  call logger_closed
  start_logger env.log_system config.enable_logs "Warning: Failed to reinitialize logger"
  call (log info "Configuration loaded, logging %s")
  call (log info "Starting main controller loop")
  let run = controller_run env.rounds (some (record ctx { config = config })) idle
  ran ← run
  after_run env (env.signals ++ signals_of run.1) ran

unfoldable pub after_init : MainEnv → Code × Option AppContext → Eff (Exit × Option AppContext)
unfolding run_context
after_init env (code, none) = pure (exit_failure, none)
after_init env (code, some ctx) = if succeeded code then run_context env ctx else (do
  call (log error "Failed to initialize controller: %d")
  cleanup_and_exit env.terminal (some ctx) idle exit_failure)

-- Behind the options.
unfoldable pub main_with : MainEnv → ℤ → Eff (Exit × Option AppContext)
main_with env (pos zero) = do
  root ← check_root_privileges env.euid
  if not (succeeded root) then pure (exit_failure, none) else (do
    handled ← setup_signal_handlers env.handles_term env.handles_int
    if not (succeeded handled) then pure (exit_failure, none) else (do
      start_logger env.log_system true "Warning: Failed to initialize logger"
      call (log info "Kia display manager v%s starting")
      after_init env (controller_init (some env.memory))))
main_with env (pos (suc n)) = pure (exit_success, none)
main_with env (negsuc n) = pure (exit_failure, none)

unfoldable pub main : MainEnv → Eff (Exit × Option AppContext)
unfolding main_with
main env = do result ← parse_arguments env.arguments; main_with env result
