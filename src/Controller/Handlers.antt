-- ===== src/Controller/Handlers.antt =====
-- The handlers of src/controller.c, one for each state; Authenticate is that of the password.
pub mod Authenticate
use Prim.Native.String.{String}
use kia.Base.{
  Bool, true, false, not, ◌&&◌, ◌||◌, Option, none, some, ltb, leb, ◌==◌, if◌then◌else◌, length, ℤ,
  pos, negsuc, ℕ, ◌+◌, ◌++◌, ◌∷◌, take,
}
use kia.Code.{Code, success, error_session, succeeded}
use kia.Text.{decimal, Bytes, codes, cstr, is_empty, zeros, copy_string}
use kia.Effect.{Eff, Level, pure, call, ◌>>=◌, ◌>>◌, info, warn, error, log}
use kia.Config.{name_size, config_load, config_validate}
use kia.Auth.{
  AuthGlobals, Outcome, auth_init, auth_is_locked_out, authenticate, auth_reset_attempts,
}
use kia.Session.Discover.{SessionList, session_discover}
use kia.Session.Start.{Account, session_start}
use kia.Tui.{Screen}
use kia.Tui.Drawing.{tui_init, tui_draw_login_screen, tui_show_error, tui_show_message}
use kia.Tui.Credentials.{tui_get_credentials}
use kia.Tui.Menu.{tui_select_session}
use kia.Controller.{
  AppState, state_load_config, state_check_autologin, state_show_login, state_get_credentials,
  state_select_session, state_authenticate, state_start_session, state_exit, AppContext, Round,
  secure_memzero, get_hostname, user_exists, find_default_session, out_of_range, session_at,
}

abbrev pub Handled : Type 0
Handled = Code × AppContext

-- A message for the log and one for the user, then another state.
abbrev turn_to : Screen → Level → String → String → AppState → Code → AppContext → Eff Handled
turn_to screen level logged shown state code ctx = do
  call (log level logged)
  tui_show_error screen (some (codes shown))
  pure (code, record ctx { state = state })

-- `tui_init` has come back.
unfoldable pub start_screen : Code → AppContext → Eff Handled
start_screen code ctx =
    if succeeded code then pure (success, record ctx { state = state_load_config }) else (do
      call (log error "Failed to initialize TUI")
      pure (code, record ctx { state = state_exit }))

-- `auth_init` has no other answer than success.
unfoldable pub handle_init : Round → AppContext → Eff Handled
unfolding start_screen
handle_init r ctx = do
  call (log info "Kia display manager started (version %s)")
  code ← auth_init
  if succeeded code
      then (do started ← tui_init r.screen_starts r.screen.colors; start_screen started ctx)
      else (do
        call (log error "Failed to initialize authentication module")
        pure (code, record ctx { state = state_exit }))

unfoldable pub config_path : Bytes
config_path = codes "/etc/kia/config"

abbrev pub or_same {ℓ} : {A : Type ℓ} → A → Option A → A
or_same a none = a
or_same a (some b) = b

unfoldable pub discovered : Screen → AppContext → Code × SessionList → Eff Handled
discovered screen ctx (code, l) =
    if not (succeeded code) || l.count == 0
    then turn_to screen error "No sessions found"
        "No sessions available. Please install a desktop environment." state_exit error_session
        (record ctx { sessions = l })
    else (do
      call (log info "Discovered %d session(s)")
      pure (success, record ctx { sessions = l; state = state_check_autologin }))

unfoldable pub handle_load_config : Round → AppContext → Eff Handled
unfolding discovered config_path
handle_load_config r ctx = do
  let (code, loaded) = config_load r.files.fopen (some config_path) (some ctx.config)
  let config = or_same ctx.config loaded
  (if succeeded code
      then pure tt
      else call (log warn "Failed to load config from %s, using defaults"))
  (if succeeded (config_validate (some config))
      then pure tt
      else call (log warn "Configuration validation failed, using defaults"))
  scan ← session_discover r.files
  discovered r.screen (record ctx { config = config }) scan

unfoldable pub autologin_checked : Round → Bytes → AppContext → ℤ → Eff Handled
autologin_checked r user ctx selected =
    let ctx' = record ctx {
      username = copy_string name_size ctx.username user;
      selected_session = selected;
    } in
    if out_of_range selected ctx.sessions.count
    then turn_to r.screen error "Invalid session index for autologin: %d"
        "Invalid session configuration. Falling back to manual login." state_show_login success ctx'
    else (do
      call (log info "Autologin enabled for user '%s' with session '%s'")
      pure (success, record ctx' { state = state_start_session }))

unfoldable pub autologin_known : Round → Bytes → AppContext → Bool → Eff Handled
unfolding autologin_checked
autologin_known r user ctx false =
    turn_to r.screen error "Autologin user '%s' does not exist"
      "Autologin user not found. Falling back to manual login." state_show_login success ctx
autologin_known r user ctx true = do
  selected ← find_default_session (some ctx.sessions) (some (cstr ctx.config.default_session))
  autologin_checked r user ctx selected

unfoldable pub handle_check_autologin : Round → AppContext → Eff Handled
unfolding autologin_known
handle_check_autologin r ctx =
    let user = cstr ctx.config.autologin_user in
    if ctx.config.autologin_enabled && not (is_empty user)
    then (if length user == 0 || leb name_size (length user)
        then turn_to r.screen error "Invalid autologin username length: %zu"
            "Invalid autologin configuration. Falling back to manual login." state_show_login
            success ctx
        else (do known ← user_exists r.getpwnam (some user); autologin_known r user ctx known))
    else pure (success, record ctx { state = state_show_login })

unfoldable pub handle_show_login : Round → AppContext → Eff Handled
handle_show_login r ctx = do
  let hostname = or_same r.hostname (get_hostname r.names_host (some r.hostname) name_size)
  tui_draw_login_screen r.screen (some (cstr hostname)) (some (codes "1.0.0"))
  pure (success, record ctx { state = state_get_credentials })

-- `tui_get_credentials` has filled the arrays.
unfoldable pub check_credentials : Screen → Code → AppContext → Eff Handled
check_credentials screen code ctx =
    if not (succeeded code)
    then turn_to screen error "Failed to get credentials from TUI: %d"
        "Failed to read credentials. Please try again." state_show_login code ctx
    else if is_empty (cstr ctx.username)
    then turn_to screen warn "Empty username provided" "Username cannot be empty." state_show_login
        success ctx
    else if ltb 255 (length (cstr ctx.username))
    then turn_to screen warn "Username too long: %zu characters" "Username too long."
        state_show_login success
        (record ctx { username = zeros name_size; password = secure_memzero ctx.password })
    else if is_empty (cstr ctx.password)
    then turn_to screen warn "Empty password provided for user '%s'" "Password cannot be empty."
        state_show_login success ctx
    else pure (success, record ctx { state = state_select_session })

unfoldable pub handle_get_credentials : Round → AppContext → Eff Handled
handle_get_credentials r ctx = do
  (code, username, password) ←
      tui_get_credentials r.screen r.turns (some ctx.username) name_size (some ctx.password)
        name_size
  check_credentials r.screen code (record ctx {
    username = or_same ctx.username username;
    password = or_same ctx.password password;
  })

unfoldable pub check_selection : Screen → AppContext → Eff Handled
check_selection screen ctx =
    if out_of_range ctx.selected_session ctx.sessions.count
    then turn_to screen error "Invalid session selection: %d" "Invalid session selection."
        state_show_login error_session ctx
    else (do
      call (log info "User '%s' selected session: %s")
      pure (success, record ctx { state = state_authenticate }))

unfoldable pub handle_select_session : Round → AppContext → Eff Handled
handle_select_session r ctx = do
  default_idx ← find_default_session (some ctx.sessions) (some (cstr ctx.config.default_session))
  selected ← tui_select_session r.screen r.turns (some ctx.sessions) default_idx
  check_selection r.screen (record ctx { selected_session = selected })

unfoldable pub session_ended : Screen → AppContext → Code × Option Account → Eff Handled
session_ended screen ctx (code, _) =
    if succeeded code
    then (do
      call (log info "Session started successfully, exiting display manager")
      pure (success, record ctx { state = state_exit }))
    else turn_to screen error "Failed to start session for user '%s'"
        "Failed to start session. Please try again." state_show_login code ctx

unfoldable pub handle_start_session : Round → AppContext → Eff Handled
unfolding session_ended
handle_start_session r ctx =
    if out_of_range ctx.selected_session ctx.sessions.count
    then turn_to r.screen error "Invalid session index: %d" "Invalid session. Please try again."
        state_show_login error_session ctx
    else (do
      call (log info "Starting %s session '%s' for user '%s'")
      tui_show_message r.screen (some (codes "Starting session..."))
      ended ←
          session_start r.start (session_at ctx.sessions ctx.selected_session)
            (some (cstr ctx.username))
      session_ended r.screen ctx ended)
