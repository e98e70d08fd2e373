-- ===== src/Controller/Loop.antt =====
-- `controller_run` and `controller_cleanup` of src/controller.c.
use kia.Base.{
  Bool, true, false, not, ◌&&◌, ◌||◌, List, [], ◌∷◌, ◌++◌, Option, none, some, if◌then◌else◌,
}
use kia.Code.{Code, success, error_system, succeeded}
use kia.Effect.{Eff, pure, call, ◌>>=◌, ◌>>◌, logger_closed}
use kia.Config.{config_free}
use kia.Auth.{AuthGlobals, Terminal, auth_cleanup}
use kia.Session.Discover.{session_list_free}
use kia.Tui.Drawing.{tui_cleanup}
use kia.Controller.{
  AppState, state_init, state_load_config, state_check_autologin, state_show_login,
  state_get_credentials, state_select_session, state_authenticate, state_start_session, state_exit,
  AppContext, Round, secure_memzero,
}
use kia.Controller.Handlers.{
  Handled, handle_init, handle_load_config, handle_check_autologin, handle_show_login,
  handle_get_credentials, handle_select_session, handle_start_session,
}
use kia.Controller.Handlers.Authenticate.{HandledAuth, handle_authenticate}

abbrev with_globals : AuthGlobals → Eff Handled → Eff HandledAuth
with_globals g (h, es) = ((h, g), es)

-- The `switch` of the loop. `result` is what the round before left in the variable.
unfoldable pub handle : AppState → Round → Code → AppContext → AuthGlobals → Eff HandledAuth
handle state_init r result ctx g = with_globals g (handle_init r ctx)
handle state_load_config r result ctx g = with_globals g (handle_load_config r ctx)
handle state_check_autologin r result ctx g = with_globals g (handle_check_autologin r ctx)
handle state_show_login r result ctx g = with_globals g (handle_show_login r ctx)
handle state_get_credentials r result ctx g = with_globals g (handle_get_credentials r ctx)
handle state_select_session r result ctx g = with_globals g (handle_select_session r ctx)
handle state_authenticate r result ctx g = handle_authenticate r ctx g
handle state_start_session r result ctx g = with_globals g (handle_start_session r ctx)
handle state_exit r result ctx g = pure ((result, ctx), g)

unfoldable pub is_exit : AppState → Bool
is_exit state_exit = true
is_exit _ = false

-- The loop, for as many rounds as there are answers; `none` is a loop that still runs then.
unfoldable pub run_rounds :
    List Round → Code → AppContext → AuthGlobals → Eff (Option Code × AppContext × AuthGlobals)
unfolding handle is_exit
run_rounds [] result ctx g =
    pure (if not ctx.running || is_exit ctx.state then some result else none, ctx, g)
run_rounds (r ∷ rs) result ctx g =
    let ((h, g'), es) = handle ctx.state r result ctx g in
    let (more, fs) = run_rounds rs h.0 h.1 g' in
    if not ctx.running || is_exit ctx.state
    then pure (some result, ctx, g)
    else if not (succeeded h.0) && is_exit h.1.state
    then ((some h.0, h.1, g'), es)
    else (more, es ++ fs)

-- A null context is `none`.
unfoldable pub controller_run :
    List Round
    → Option AppContext
    → AuthGlobals
    → Eff (Option Code × Option AppContext × AuthGlobals)
unfolding run_rounds
controller_run rs none g = pure (some error_system, none, g)
controller_run rs (some ctx) g = do
  (result, ctx', g') ← run_rounds rs success ctx g
  pure (result, some ctx', g')

unfoldable pub controller_cleanup :
    Terminal → Option AppContext → AuthGlobals → Eff (Option AppContext × AuthGlobals)
controller_cleanup t none g = pure (none, g)
controller_cleanup t (some ctx) g = do
  let ctx' = record ctx {
    password = secure_memzero ctx.password;
    config = config_free ctx.config;
    sessions = session_list_free ctx.sessions;
  }
  g' ← auth_cleanup t g
  tui_cleanup
  call logger_closed
  pure (some ctx', g')
