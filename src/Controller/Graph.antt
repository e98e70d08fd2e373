-- ===== src/Controller/Graph.antt =====
-- The transitions of the state machine of src/controller.c.
use mathlib.Core.Bool.{true≢false}
use kia.Base.{◌≡◌, false, arith}
use kia.Code.{Code, success, error_session, error_system, succeeded}
use kia.Auth.{AuthGlobals, auth_init}
use kia.Tui.Drawing.{tui_init}
use kia.Controller.{
  AppState, state_init, state_load_config, state_check_autologin, state_show_login,
  state_get_credentials, state_select_session, state_authenticate, state_start_session, state_exit,
  AppContext, Round,
}
use kia.Controller.Handlers.{
  handle_init, handle_load_config, handle_check_autologin, handle_show_login,
  handle_get_credentials, handle_select_session, handle_start_session, start_screen, discovered,
  autologin_checked, autologin_known, check_credentials, check_selection, session_ended,
}
use kia.Controller.Handlers.Authenticate.{handle_authenticate, authenticated}
use kia.Controller.Loop.{handle, is_exit}

-- The graph of the states, with the code that a handler returns on each edge.
pub data Edge : AppState → Code → AppState → Type 0 where
  started : Edge state_init success state_load_config
  no_screen : Edge state_init error_system state_exit
  found_sessions : Edge state_load_config success state_check_autologin
  no_sessions : Edge state_load_config error_session state_exit
  automatic : Edge state_check_autologin success state_start_session
  by_hand : Edge state_check_autologin success state_show_login
  drawn : Edge state_show_login success state_get_credentials
  typed : Edge state_get_credentials success state_select_session
  not_accepted : Edge state_get_credentials success state_show_login
  not_typed :
      {code : Code} → succeeded code ≡ false → Edge state_get_credentials code state_show_login
  chosen : Edge state_select_session success state_authenticate
  not_chosen : Edge state_select_session error_session state_show_login
  let_in : Edge state_authenticate success state_start_session
  not_let_in : Edge state_authenticate success state_show_login
  ended : Edge state_start_session success state_exit
  not_started :
      {code : Code} → succeeded code ≡ false → Edge state_start_session code state_show_login

ruleset edges = (
  started, no_screen, found_sessions, no_sessions, automatic, by_hand, drawn, typed, not_accepted,
  not_typed, chosen, not_chosen, let_in, not_let_in, ended, not_started,
)

-- Every handler follows an edge of the graph, with the code of the edge.
pub handle-Edge :
    (state : AppState) (r : Round) (result : Code) (ctx : AppContext) (g : AuthGlobals)
    → is_exit state ≡ false
    → let next = (handle state r result ctx g).0.0 in Edge state next.0 next.1.state
unfolding handle is_exit handle_init handle_load_config handle_check_autologin handle_show_login
    handle_get_credentials handle_select_session handle_authenticate handle_start_session auth_init
    discovered check_credentials autologin_checked autologin_known check_selection authenticated
    session_ended start_screen tui_init
handle-Edge state_init r result ctx g run = grind (arith, edges)
handle-Edge state_load_config r result ctx g run = grind (arith, edges)
handle-Edge state_check_autologin r result ctx g run = grind (arith, edges)
handle-Edge state_show_login r result ctx g run = drawn
handle-Edge state_get_credentials r result ctx g run = grind (arith, edges)
handle-Edge state_select_session r result ctx g run = grind (arith, edges)
handle-Edge state_authenticate r result ctx g run = grind (arith, edges)
handle-Edge state_start_session r result ctx g run = grind (arith, edges)
handle-Edge state_exit r result ctx g run = absurd (true≢false run)
