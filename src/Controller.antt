-- ===== src/Controller.antt =====
-- src/controller.c: the state machine of the login, with its context and its handlers.
pub mod Handlers
pub mod Loop
pub mod Default
pub mod Stages
pub mod Keeps
pub mod Autologin
pub mod Safety
pub mod Run
pub mod Cleanup
pub mod Login
pub mod Beginning
pub mod Graph
pub mod Strings
pub mod Limit
pub mod Progress
pub mod Interrupted
pub mod Quiet
pub mod Resources
use kia.Base.{
  ℕ, Bool, true, false, not, ◌&&◌, ◌||◌, ◌-◌, zero, suc, List, [], ◌∷◌, Option, none, some, take,
  set, ltb, ◌==◌, if◌then◌else◌, length, ℤ, pos, negsuc, ltb_ℤ, leb_ℤ, get_elem?,
}
use kia.Code.{Code, success, error_system}
use kia.Text.{Bytes, codes, cstr, equal, is_empty, zeros, copy_string}
use kia.Effect.{Effect, Eff, pure, call, ◌>>=◌, ◌>>◌, debug, warn, log}
use kia.Config.{Config, name_size}
use kia.Auth.{AuthState, AuthGlobals, AuthEnv}
use kia.Session.{SessionInfo}
use kia.Session.Discover.{SessionList, Files, entries, no_sessions}
use kia.Session.Start.{UserEntry, found, unknown_user, unreadable, StartEnv}
use kia.Tui.{Turn, Screen}

-- `app_state_t`
pub data AppState : Type 0 where
  state_init state_load_config state_check_autologin state_show_login state_get_credentials :
      AppState
  state_select_session state_authenticate state_start_session state_exit : AppState

-- `app_context_t`
pub record AppContext : Type 0 where
  pub state : AppState
  pub config : Config
  pub auth_state : AuthState
  pub sessions : SessionList
  pub username : Bytes
  pub password : Bytes
  pub selected_session : ℤ
  pub running : Bool

-- What the system, PAM and the user answer in one round of the loop. The clock is read once
-- before `auth_authenticate` reads its own.
pub record Round : Type 0 where
  pub screen_starts : Bool
  pub files : Files
  pub getpwnam : Bytes → UserEntry
  pub names_host : Bool
  pub hostname : Bytes
  pub screen : Screen
  pub turns : List Turn
  pub clock : ℤ
  pub auth : AuthEnv
  pub start : StartEnv

-- `while (len--) *p++ = 0;`
unfoldable pub secure_memzero : Bytes → Bytes
secure_memzero [] = []
secure_memzero (c ∷ cs) = 0 ∷ secure_memzero cs

-- The array after `gethostname`, which may leave it without a terminator.
unfoldable pub get_hostname : Bool → Option Bytes → ℕ → Option Bytes
get_hostname names_host none len = none
get_hostname names_host (some array) len =
    if len == 0
    then some array
    else if names_host
    then some (set array (len - 1) 0)
    else some (copy_string len array (codes "localhost"))

unfoldable pub user_known : UserEntry → Eff Bool
user_known (found pw) = pure true
user_known unknown_user = pure false
user_known unreadable = do call (log warn "Error checking user '%s': %s"); pure false

-- A null pointer is `none`.
unfoldable pub user_exists : (Bytes → UserEntry) → Option Bytes → Eff Bool
unfolding user_known
user_exists getpwnam none = pure false
user_exists getpwnam (some username) =
    if is_empty username
    then pure false
    else if ltb 255 (length username)
    then pure false
    else user_known (getpwnam username)

-- The loop: the first of the entries that has the name.
unfoldable pub find_name : Bytes → List SessionInfo → Option ℕ
find_name name [] = none
find_name name (s ∷ l) =
    let rest = find_name name l in
    if not (is_empty (cstr s.name)) && equal (cstr s.name) name
    then some 0
    else elim rest [ none ↦ none | some i ↦ some (suc i) ]

unfoldable pub index_or_first : Option ℕ → Eff ℤ
index_or_first none = do
  call (log debug "Default session '%s' not found, using first session")
  pure (pos 0)
index_or_first (some i) = pure (pos i)

unfoldable pub find_in : SessionList → Option (List SessionInfo) → Bytes → Eff ℤ
unfolding find_name index_or_first
find_in l none name = pure (pos 0)
find_in l (some array) name =
    if l.count == 0
    then pure (pos 0)
    else if is_empty name
    then pure (pos 0)
    else index_or_first (find_name name (take l.count array))

name_or_empty : Option Bytes → Bytes
name_or_empty none = []
name_or_empty (some name) = name

-- A null list, and a null name, are `none`.
unfoldable pub find_default_session : Option SessionList → Option Bytes → Eff ℤ
unfolding find_in name_or_empty
find_default_session none name = pure (pos 0)
find_default_session (some l) name = find_in l l.sessions (name_or_empty name)

-- The context that `memset` clears, with the fields that are then set.
unfoldable pub initial_context : AppContext
initial_context = record {
  state = state_init;
  config = record {
    autologin_user = zeros name_size;
    autologin_enabled = false;
    default_session = zeros name_size;
    max_attempts = pos 0;
    enable_logs = false;
    lockout_duration = pos 0;
  };
  auth_state = record { username = zeros name_size; failed_attempts = 0; lockout_until = pos 0 };
  sessions = no_sessions;
  username = zeros name_size;
  password = zeros name_size;
  selected_session = negsuc 0;
  running = true;
}

-- A null context is `none`.
unfoldable pub controller_init : Option AppContext → Code × Option AppContext
unfolding initial_context
controller_init none = (error_system, none)
controller_init (some ctx) = (success, some initial_context)

-- `index < 0 || index >= count`
abbrev pub out_of_range : ℤ → ℕ → Bool
out_of_range i count = ltb_ℤ i (pos 0) || leb_ℤ (pos count) i

-- `&sessions[index]`
unfoldable pub session_at : SessionList → ℤ → Option SessionInfo
session_at l (pos i) = get_elem? (entries l) i
session_at l (negsuc i) = none
