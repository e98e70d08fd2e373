-- ===== src/Controller/Beginning.antt =====
-- The rounds of src/controller.c before the login screen.
use kia.Base.{◌<◌, ◌≡◌, refl, ◌∙◌, true, false, not, ◌&&◌, ◌||◌, List, ◌∷◌, some, ◌==◌, arith}
use kia.Code.{success, succeeded}
use kia.Text.{cstr, is_empty}
use kia.Config.{Config, config_load}
use kia.Auth.{AuthGlobals, auth_init}
use kia.Session.Discover.{session_discover}
use kia.Tui.Drawing.{tui_init}
use kia.Controller.{
  state_init, state_load_config, state_check_autologin, state_show_login, AppContext, Round,
  initial_context,
}
use kia.Controller.Handlers.{
  handle_init, handle_load_config, handle_check_autologin, start_screen, discovered, config_path,
  or_same,
}
use kia.Controller.Loop.{handle, is_exit, run_rounds}
use kia.Controller.Run.{begun}
use kia.Controller.Login.Rounds.{run_rounds-step}

-- The context at the login screen, from the configuration that `main` has loaded.
unfoldable pub at_login : Config → Round → AppContext
unfolding initial_context config_path
at_login c loading = record initial_context {
  config = or_same c (config_load loading.files.fopen (some config_path) (some c)).1;
  sessions = (session_discover loading.files).0.1;
  state = state_show_login;
}

-- What is asked of the first three rounds: the screen starts, there is a session, and no user is
-- logged in by the configuration.
pub record BeginsWell (c : Config) (starting loading : Round) : Type 0 where
  pub screen_on : starting.screen_starts ≡ true
  pub scanned : (session_discover loading.files).0.0 ≡ success
  pub filled : 0 < (session_discover loading.files).0.1.count
  pub by_hand : (at_login c loading).config.autologin_enabled ≡ false

module _ (c : Config) (starting loading checking : Round) (g : AuthGlobals)
    (w : BeginsWell c starting loading) where
  abbrev loaded : AppContext
  loaded = record (at_login c loading) { state = state_check_autologin }

  begun_on :
      (handle state_init starting success (begun c) g).0
      ≡ ((success, record (begun c) { state = state_load_config }), g)
  unfolding handle handle_init auth_init start_screen tui_init
  begun_on = rw w.screen_on refl

  scanned_on :
      (handle state_load_config loading success
        (record (begun c) { state = state_load_config })
        g).0
      ≡ ((success, loaded), g)
  unfolding handle handle_load_config discovered at_login
  scanned_on =
      let d = (session_discover loading.files).0 in
      let good : (not (succeeded d.0) || d.1.count == 0) ≡ false =
        ground (arith, w.scanned, w.filled) in
      rw good refl

  checked_on :
      (handle state_check_autologin checking success loaded g).0
      ≡ ((success, at_login c loading), g)
  unfolding handle handle_check_autologin at_login
  checked_on =
      let c' = (at_login c loading).config in
      let off : (c'.autologin_enabled && not (is_empty (cstr c'.autologin_user))) ≡ false =
        ground (arith, w.by_hand) in
      rw off refl

  -- Three rounds lead to the login screen.
  pub run_rounds-begins :
      (rs : List Round)
      → (run_rounds (starting ∷ loading ∷ checking ∷ rs) success (begun c) g).0
        ≡ (run_rounds rs success (at_login c loading) g).0
  unfolding is_exit initial_context at_login
  run_rounds-begins rs =
      let c1 = record (begun c) { state = state_load_config } in
      run_rounds-step starting _ success (begun c) c1 g g refl refl begun_on
      ∙ run_rounds-step loading _ success c1 loaded g g refl refl scanned_on
      ∙ run_rounds-step checking rs success loaded (at_login c loading) g g refl refl checked_on
