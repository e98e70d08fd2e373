-- ===== src/Controller/Strings/Reached.antt =====
-- The strings in each context that the loop of src/controller.c reaches.
use kia.Base.{List, arith}
use kia.Code.{Code}
use kia.Text.Buffers.{zeros-IsBuffer}
use kia.Config.{name_size}
use kia.Auth.{AuthGlobals}
use kia.Controller.{
  AppState, state_init, state_load_config, state_check_autologin, state_show_login,
  state_get_credentials, state_select_session, state_authenticate, state_start_session, state_exit,
  AppContext, Round, initial_context,
}
use kia.Controller.Handlers.{
  handle_init, handle_load_config, handle_show_login, handle_select_session, handle_start_session,
}
use kia.Controller.Loop.{handle}
use kia.Controller.Stages.{Reachable, begin, round}
use kia.Controller.Strings.{
  Holding, untouched, handle_init-arrays, handle_load_config-arrays, handle_select_session-arrays,
  handle_start_session-arrays, handle_show_login-arrays, handle_check_autologin-Holding,
}
use kia.Controller.Strings.Entered.{handle_get_credentials-Holding}
use kia.Controller.Strings.Authenticated.{handle_authenticate-Holding}

module _ (r : Round) where
  handle-Holding :
      (state : AppState) (result : Code) (ctx : AppContext) (g : AuthGlobals)
      → Holding ctx
      → Holding (handle state r result ctx g).0.0.1
  unfolding handle
  handle-Holding state_init result ctx g h =
      untouched ctx (handle_init r ctx).0.1 (handle_init-arrays r ctx) h
  handle-Holding state_load_config result ctx g h =
      untouched ctx (handle_load_config r ctx).0.1 (handle_load_config-arrays r ctx) h
  handle-Holding state_check_autologin result ctx g h = handle_check_autologin-Holding r ctx h
  handle-Holding state_show_login result ctx g h =
      untouched ctx (handle_show_login r ctx).0.1 (handle_show_login-arrays r ctx) h
  handle-Holding state_get_credentials result ctx g h = handle_get_credentials-Holding r ctx h
  handle-Holding state_select_session result ctx g h =
      untouched ctx (handle_select_session r ctx).0.1 (handle_select_session-arrays r ctx) h
  handle-Holding state_authenticate result ctx g h = handle_authenticate-Holding r ctx g h
  handle-Holding state_start_session result ctx g h =
      untouched ctx (handle_start_session r ctx).0.1 (handle_start_session-arrays r ctx) h
  handle-Holding state_exit result ctx g h = h

-- In every context that the loop of `controller_run` reaches from the cleared one, the arrays of
-- the user name, of the password, and of the user that the authentication knows have their
-- declared size of 256 bytes and hold a string that ends inside it, whatever was typed and
-- whatever the system answered.
pub Reachable-Holding :
    {rs : List Round} {ctx : AppContext} {g : AuthGlobals} → Reachable rs ctx g → Holding ctx
unfolding initial_context
Reachable-Holding (begin c g h) = record {
  user_held = zeros-IsBuffer name_size (omega arith);
  password_held = zeros-IsBuffer name_size (omega arith);
  known_held = zeros-IsBuffer name_size (omega arith);
}
Reachable-Holding (round {rs} {ctx} {g} h result r run slot) =
    handle-Holding r ctx.state result ctx g (Reachable-Holding h)
