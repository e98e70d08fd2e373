-- ===== src/Controller/Safety.antt =====
-- The handlers of src/controller.c keep what holds in each state.
use kia.Base.{◌≡◌, false, List, ◌∷◌}
use mathlib.Core.Bool.{true≢false}
use kia.Code.{Code}
use kia.Auth.{AuthGlobals}
use kia.Session.Desktop.Fields.{IsSlot}
use kia.Controller.{
  AppState, state_init, state_load_config, state_check_autologin, state_show_login,
  state_get_credentials, state_select_session, state_authenticate, state_start_session, state_exit,
  AppContext, Round,
}
use kia.Controller.Loop.{handle, is_exit}
use kia.Controller.Stages.{Stage, IsStaged, Reachable, begin, round}
use kia.Controller.Keeps.{
  initial-IsStaged, handle_init-IsStaged, handle_load_config-IsStaged, handle_show_login-IsStaged,
  handle_select_session-IsStaged, handle_get_credentials-IsStaged,
}
use kia.Controller.Keeps.Granted.{handle_authenticate-IsStaged, handle_start_session-IsStaged}
use kia.Controller.Autologin.{handle_check_autologin-IsStaged}

module _ (rs : List Round) (r : Round) (slot : IsSlot r.files.fresh) where
  handle-IsStaged :
      (state : AppState) (result : Code) (ctx : AppContext) (g : AuthGlobals)
      → is_exit state ≡ false
      → Stage state rs ctx
      → IsStaged (r ∷ rs) (handle state r result ctx g).0.0.1
  unfolding handle is_exit
  handle-IsStaged state_init result ctx g run h = handle_init-IsStaged rs r ctx h
  handle-IsStaged state_load_config result ctx g run h = handle_load_config-IsStaged rs r ctx slot h
  handle-IsStaged state_check_autologin result ctx g run h =
      handle_check_autologin-IsStaged rs r ctx h
  handle-IsStaged state_show_login result ctx g run h = handle_show_login-IsStaged rs r ctx h
  handle-IsStaged state_get_credentials result ctx g run h =
      handle_get_credentials-IsStaged rs r ctx h
  handle-IsStaged state_select_session result ctx g run h =
      handle_select_session-IsStaged rs r ctx h
  handle-IsStaged state_authenticate result ctx g run h = handle_authenticate-IsStaged rs r ctx g h
  handle-IsStaged state_start_session result ctx g run h = handle_start_session-IsStaged rs r ctx h
  handle-IsStaged state_exit result ctx g run h = absurd (true≢false run)

-- In every context that the loop of `controller_run` reaches from the cleared one, what its state
-- asks for holds. In START_SESSION the selected session is an index of the list, the password is
-- cleared, and the user was logged in by the configuration and found, or PAM has taken a password
-- of the user and the account. In EXIT the password is cleared. The loop begins with a
-- configuration of the declared sizes, and `realloc` gives room for arrays of theirs.
pub Reachable-IsStaged :
    {rs : List Round} {ctx : AppContext} {g : AuthGlobals} → Reachable rs ctx g → IsStaged rs ctx
Reachable-IsStaged (begin c g h) = initial-IsStaged c h
Reachable-IsStaged (round {rs} {ctx} {g} h result r run slot) =
    handle-IsStaged rs r slot ctx.state result ctx g run (Reachable-IsStaged h)
