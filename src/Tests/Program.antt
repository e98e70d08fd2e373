-- ===== src/Tests/Program.antt =====
-- src/controller.c on concrete answers.
use kia.Base.{
  ◌≡◌, refl, Bool, true, false, List, [], ◌∷◌, none, some, pos, negsuc, arith, take, ◌++◌,
}
use kia.Code.{success, error_system}
use kia.Text.{Bytes, codes, zeros, pad, equal}
use kia.Text.Buffers.{length-zeros}
use kia.Effect.{PamStatus, pam_success, pam_failure}
use kia.Config.{Config, name_size}
use kia.Config.Bounds.{IsSized}
use kia.Auth.{Terminal, Pam, started, idle, auth_init}
use kia.Session.{session_x11, SessionInfo, exec_size}
use kia.Session.Desktop.Fields.{IsSlot}
use kia.Session.Discover.{SessionList}
use kia.Session.Start.{found, StartEnv, exited_with}
use kia.Tui.{Turn, char, key_enter}
use kia.Tui.Drawing.{tui_init}
use kia.Tui.Menu.Choice.{press}
use kia.Controller.{
  state_load_config, state_show_login, state_exit, AppContext, Round, initial_context,
  find_default_session,
}
use kia.Controller.Handlers.{handle_init, start_screen}
use kia.Controller.Loop.{handle, is_exit, run_rounds, controller_run, controller_cleanup}
use kia.Controller.Stages.{IsCleared, IsStaged, Reachable, begin, round}
use kia.Controller.Safety.{Reachable-IsStaged}
use kia.Controller.Run.{begun, controller_run-IsCleared}
use kia.Controller.Default.{IsDefault, names, find_default_session-IsDefault}
use kia.Controller.Cleanup.{IsClean, controller_cleanup-IsClean}

abbrev pub blank : Config
blank = record {
  autologin_user = zeros name_size;
  autologin_enabled = false;
  default_session = zeros name_size;
  max_attempts = pos 3;
  enable_logs = false;
  lockout_duration = pos 60;
}

blank-IsSized : IsSized blank
blank-IsSized = record {
  user_sized = length-zeros name_size;
  session_sized = length-zeros name_size;
}

abbrev fresh : SessionInfo
fresh = record { name = zeros name_size; exec = zeros exec_size; type = session_x11 }

fresh-IsSlot : IsSlot fresh
fresh-IsSlot = record { name_sized = length-zeros name_size; exec_sized = length-zeros exec_size }

abbrev pub terminal : Terminal
terminal = record { opens = some 3; locks = true; unlocks = true }

abbrev taken_if : Bool → PamStatus
taken_if true = pam_success
taken_if false = pam_failure 7

abbrev pam : Pam
pam = record {
  starts = λ u. started 7;
  authenticates = λ u p. taken_if (equal p (codes "pw"));
  accounts = λ u. pam_success;
}

abbrev pub start_env : StartEnv
start_env = record {
  getpwnam = λ u.
      found
        (record { pw_dir = some (codes "/home"); pw_shell = none; pw_uid = 1000; pw_gid = 1000 });
  forks = some 42;
  interrupts = none;
  waits = exited_with 0;
}

-- A round in which the screen starts or not, with the keys pressed.
abbrev pub round_with : Bool → List Turn → Round
round_with starts turns = record {
  screen_starts = starts;
  files = record { fopen = λ _. none; opendir = λ _. none; grows = λ _. true; fresh = fresh };
  getpwnam = start_env.getpwnam;
  names_host = false;
  hostname = zeros name_size;
  screen = record { started = true; max_y = 24; max_x = 80; colors = true };
  turns = turns;
  clock = pos 100;
  auth = record { terminal = terminal; pam = pam; now = pos 100; later = pos 101 };
  start = start_env;
}

-- The first two rounds: the program starts, and finds no session.
pub reached :
    Reachable
      (round_with true [] ∷ round_with true [] ∷ [])
      (handle state_load_config
        (round_with true [])
        success
        (record (begun blank) { state = state_load_config })
        idle).0.0.1
      (handle state_load_config
        (round_with true [])
        success
        (record (begun blank) { state = state_load_config })
        idle).0.1
unfolding handle handle_init start_screen tui_init is_exit initial_context auth_init
reached =
    round (round (begin blank idle blank-IsSized) success (round_with true []) refl fresh-IsSlot)
      success (round_with true []) refl fresh-IsSlot

Reachable-IsStaged_example :
    IsStaged
      (round_with true [] ∷ round_with true [] ∷ [])
      (handle state_load_config
        (round_with true [])
        success
        (record (begun blank) { state = state_load_config })
        idle).0.0.1
Reachable-IsStaged_example = Reachable-IsStaged reached

broken_run :
    (controller_run (round_with false [] ∷ []) (some (begun blank)) idle).0.0 ≡ some error_system
unfolding controller_run run_rounds handle handle_init start_screen tui_init is_exit initial_context
    auth_init
broken_run = refl

controller_run-IsCleared_example :
    (ctx : AppContext) × ((controller_run (round_with false [] ∷ []) (some (begun blank)) idle).0.1
      ≡ some ctx)
    × (ctx.state ≡ state_exit)
    × IsCleared ctx.password
controller_run-IsCleared_example =
    controller_run-IsCleared (round_with false [] ∷ []) blank idle error_system blank-IsSized
      (fresh-IsSlot, tt) broken_run

abbrev pub xfce : SessionInfo
xfce = record {
  name = pad name_size (codes "Xfce");
  exec = pad exec_size (codes "startxfce4");
  type = session_x11;
}

abbrev sessions : SessionList
sessions = record { sessions = some (xfce ∷ []); count = 1 }

find_default_session-IsDefault_example :
    IsDefault
      (codes "Xfce")
      (names (take 1 (xfce ∷ [])))
      (find_default_session (some sessions) (some (codes "Xfce"))).0
find_default_session-IsDefault_example =
    find_default_session-IsDefault sessions (xfce ∷ []) (codes "Xfce") refl (omega arith) refl

abbrev pub at_login : AppContext
at_login = record {
  state = state_show_login;
  config = blank;
  auth_state = record { username = zeros name_size; failed_attempts = 0; lockout_until = pos 0 };
  sessions = sessions;
  username = zeros name_size;
  password = zeros name_size;
  selected_session = negsuc 0;
  running = true;
}

controller_cleanup-IsClean_example :
    (ctx' : AppContext) × ((controller_cleanup terminal (some at_login) idle).0.0 ≡ some ctx')
    × IsClean ctx' (controller_cleanup terminal (some at_login) idle).0.1
controller_cleanup-IsClean_example = controller_cleanup-IsClean terminal at_login idle

abbrev pub type_keys : Bytes → List Turn
type_keys [] = []
type_keys (c ∷ cs) = press (char c) ∷ type_keys cs

abbrev pub typing : List Turn
typing =
    type_keys (codes "ada") ++ press (char b'\t') ∷ type_keys (codes "pw") ++ press key_enter ∷ []
