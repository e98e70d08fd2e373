-- ===== src/Controller/Quiet.antt =====
-- The handlers of src/controller.c that leave the terminal's lock and PAM alone.
use kia.Base.{
  ℕ, refl, Bool, true, false, List, [], ◌++◌, Option, none, some, take, arith, Bool-cases, inl, inr,
  ℤ,
}
use kia.Code.{Code}
use kia.Text.{Bytes, cstr, codes}
use kia.Effect.Quiet.{IsQuiet, IsQuiet-append}
use kia.Config.{name_size, config_load}
use kia.Auth.{auth_init}
use kia.Session.{SessionInfo}
use kia.Session.Discover.{SessionList, session_discover}
use kia.Session.Discover.Quiet.{session_discover-IsQuiet}
use kia.Session.Start.{UserEntry, Account, session_start}
use kia.Session.Start.Quiet.{session_start-IsQuiet}
use kia.Tui.{Screen}
use kia.Tui.Drawing.{tui_init, tui_show_error, tui_show_message, tui_draw_login_screen}
use kia.Tui.Credentials.{tui_get_credentials}
use kia.Tui.Menu.{tui_select_session}
use kia.Tui.Quiet.{
  tui_init-IsQuiet, tui_draw_login_screen-IsQuiet, show_text-IsQuiet, tui_get_credentials-IsQuiet,
  tui_select_session-IsQuiet,
}
use kia.Controller.{
  get_hostname, out_of_range, session_at, AppContext, Round, user_exists, user_known,
  find_default_session, find_in, find_name, index_or_first,
}
use kia.Controller.Handlers.{
  handle_init, handle_load_config, handle_check_autologin, handle_show_login,
  handle_get_credentials, handle_select_session, handle_start_session, start_screen, discovered,
  autologin_checked, autologin_known, check_credentials, check_selection, session_ended, or_same,
  config_path,
}

pub tui_show_error-IsQuiet : (s : Screen) (m : Option Bytes) → IsQuiet (tui_show_error s m).1
unfolding tui_show_error
tui_show_error-IsQuiet s m = show_text-IsQuiet _ _ s m

tui_show_message-IsQuiet : (s : Screen) (m : Option Bytes) → IsQuiet (tui_show_message s m).1
unfolding tui_show_message
tui_show_message-IsQuiet s m = show_text-IsQuiet _ _ s m

pub error-IsQuiet : (s : Screen) (m : Bytes) → IsQuiet ((tui_show_error s (some m)).1 ++ [])
error-IsQuiet s m =
    IsQuiet-append (tui_show_error s (some m)).1 [] (tui_show_error-IsQuiet s (some m)) refl

module _ (r : Round) where
  start_screen-IsQuiet : (code : Code) (ctx : AppContext) → IsQuiet (start_screen code ctx).1
  unfolding start_screen
  start_screen-IsQuiet code ctx = ground arith

  pub handle_init-IsQuiet : (ctx : AppContext) → IsQuiet (handle_init r ctx).1
  unfolding handle_init auth_init
  handle_init-IsQuiet ctx =
      let started = tui_init r.screen_starts r.screen.colors in
      IsQuiet-append started.1 (start_screen started.0 ctx).1
        (tui_init-IsQuiet r.screen_starts r.screen.colors) (start_screen-IsQuiet started.0 ctx)

  discovered-IsQuiet :
      (ctx : AppContext) (d : Code × SessionList) → IsQuiet (discovered r.screen ctx d).1
  unfolding discovered
  discovered-IsQuiet ctx d =
      let shown =
        error-IsQuiet r.screen
          (codes "No sessions available. Please install a desktop environment.") in
      ground (arith, shown)

  user_known-IsQuiet : (e : UserEntry) → IsQuiet (user_known e).1
  unfolding user_known
  user_known-IsQuiet e = ground arith

  user_exists-IsQuiet : (user : Bytes) → IsQuiet (user_exists r.getpwnam (some user)).1
  unfolding user_exists
  user_exists-IsQuiet user =
      let known = user_known-IsQuiet (r.getpwnam user) in ground (arith, known)

  index_or_first-IsQuiet : (i : Option ℕ) → IsQuiet (index_or_first i).1
  unfolding index_or_first
  index_or_first-IsQuiet i = ground arith

  find_in-IsQuiet :
      (l : SessionList) (a : Option (List SessionInfo)) (name : Bytes)
      → IsQuiet (find_in l a name).1
  unfolding find_in
  find_in-IsQuiet l none name = refl
  find_in-IsQuiet l (some array) name =
      let chosen = index_or_first-IsQuiet (find_name name (take l.count array)) in
      ground (arith, chosen)

  find_default_session-IsQuiet :
      (l : SessionList) (name : Bytes) → IsQuiet (find_default_session (some l) (some name)).1
  unfolding find_default_session
  find_default_session-IsQuiet l name = find_in-IsQuiet l l.sessions name

  check_credentials-IsQuiet :
      (code : Code) (ctx : AppContext) → IsQuiet (check_credentials r.screen code ctx).1
  unfolding check_credentials
  check_credentials-IsQuiet code ctx = grind (arith, error-IsQuiet)

  check_selection-IsQuiet : (ctx : AppContext) → IsQuiet (check_selection r.screen ctx).1
  unfolding check_selection
  check_selection-IsQuiet ctx = grind (arith, error-IsQuiet)

  session_ended-IsQuiet :
      (ctx : AppContext) (e : Code × Option Account) → IsQuiet (session_ended r.screen ctx e).1
  unfolding session_ended
  session_ended-IsQuiet ctx e = grind (arith, error-IsQuiet)

  autologin_checked-IsQuiet :
      (user : Bytes) (ctx : AppContext) (selected : ℤ)
      → IsQuiet (autologin_checked r user ctx selected).1
  unfolding autologin_checked
  autologin_checked-IsQuiet user ctx selected = grind (arith, error-IsQuiet)

  autologin_known-IsQuiet :
      (user : Bytes) (ctx : AppContext) (known : Bool)
      → IsQuiet (autologin_known r user ctx known).1
  unfolding autologin_known
  autologin_known-IsQuiet user ctx false = grind (arith, error-IsQuiet)
  autologin_known-IsQuiet user ctx true =
      let name = cstr ctx.config.default_session in
      IsQuiet-append (find_default_session (some ctx.sessions) (some name)).1 _
        (find_default_session-IsQuiet ctx.sessions name)
        (autologin_checked-IsQuiet user ctx
          (find_default_session (some ctx.sessions) (some name)).0)

  pub handle_load_config-IsQuiet : (ctx : AppContext) → IsQuiet (handle_load_config r ctx).1
  unfolding handle_load_config
  handle_load_config-IsQuiet ctx =
      let config =
        or_same ctx.config (config_load r.files.fopen (some config_path) (some ctx.config)).1 in
      let scan = session_discover r.files in
      let found = discovered r.screen (record ctx { config = config }) scan.0 in
      let go =
        IsQuiet-append scan.1 found.1 (session_discover-IsQuiet r.files)
          (discovered-IsQuiet (record ctx { config = config }) scan.0) in
      ground (arith, go)

  pub handle_check_autologin-IsQuiet : (ctx : AppContext) → IsQuiet (handle_check_autologin r ctx).1
  unfolding handle_check_autologin
  handle_check_autologin-IsQuiet ctx =
      let user = cstr ctx.config.autologin_user in
      let known = user_exists r.getpwnam (some user) in
      let go =
        IsQuiet-append known.1 (autologin_known r user ctx known.0).1 (user_exists-IsQuiet user)
          (autologin_known-IsQuiet user ctx known.0) in
      grind (arith, go, error-IsQuiet)

  pub handle_show_login-IsQuiet : (ctx : AppContext) → IsQuiet (handle_show_login r ctx).1
  unfolding handle_show_login
  handle_show_login-IsQuiet ctx =
      let hostname = or_same r.hostname (get_hostname r.names_host (some r.hostname) name_size) in
      IsQuiet-append
        (tui_draw_login_screen r.screen (some (cstr hostname)) (some (codes "1.0.0"))).1 []
        (tui_draw_login_screen-IsQuiet r.screen (some (cstr hostname)) (some (codes "1.0.0"))) refl

  pub handle_get_credentials-IsQuiet : (ctx : AppContext) → IsQuiet (handle_get_credentials r ctx).1
  unfolding handle_get_credentials
  handle_get_credentials-IsQuiet ctx =
      IsQuiet-append
        (tui_get_credentials r.screen r.turns (some ctx.username) name_size (some ctx.password)
          name_size).1
        _
        (tui_get_credentials-IsQuiet r.screen r.turns (some ctx.username) name_size
          (some ctx.password) name_size)
        (check_credentials-IsQuiet _ _)

  pub handle_select_session-IsQuiet : (ctx : AppContext) → IsQuiet (handle_select_session r ctx).1
  unfolding handle_select_session
  handle_select_session-IsQuiet ctx =
      let name = cstr ctx.config.default_session in
      let default = find_default_session (some ctx.sessions) (some name) in
      let choice = tui_select_session r.screen r.turns (some ctx.sessions) default.0 in
      let checked = check_selection r.screen (record ctx { selected_session = choice.0 }) in
      IsQuiet-append default.1 _ (find_default_session-IsQuiet ctx.sessions name) (
        IsQuiet-append choice.1 checked.1
          (tui_select_session-IsQuiet r.screen r.turns ctx.sessions default.0)
          (check_selection-IsQuiet (record ctx { selected_session = choice.0 })))

  pub handle_start_session-IsQuiet : (ctx : AppContext) → IsQuiet (handle_start_session r ctx).1
  unfolding handle_start_session
  handle_start_session-IsQuiet ctx =
      let session = session_at ctx.sessions ctx.selected_session in
      let started = session_start r.start session (some (cstr ctx.username)) in
      let message = tui_show_message r.screen (some (codes "Starting session...")) in
      let go = IsQuiet-append message.1 _ (tui_show_message-IsQuiet r.screen _) (
        IsQuiet-append started.1 (session_ended r.screen ctx started.0).1
          (session_start-IsQuiet r.start session (some (cstr ctx.username)))
          (session_ended-IsQuiet ctx started.0)) in
      let failed = error-IsQuiet r.screen (codes "Invalid session. Please try again.") in
      elim (Bool-cases (out_of_range ctx.selected_session ctx.sessions.count)) [
        | inl bad ↦ rw bad failed
        | inr good ↦ rw good go
      ]
