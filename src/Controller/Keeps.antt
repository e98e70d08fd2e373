-- ===== src/Controller/Keeps.antt =====
-- The handlers of src/controller.c up to the authentication, but for the automatic login, keep
-- what holds in each state.
pub mod Granted
use kia.Base.{
  ℕ, zero, suc, ◌≡◌, refl, true, false, not, ◌||◌, List, [], ◌∷◌, Option, some, length, replicate,
  ℤ, pos, negsuc, ltb, ◌==◌, arith, Bool-cases, inl, inr,
}
use kia.Code.{Code, success, succeeded}
use kia.Text.{Bytes, cstr, zeros, is_empty}
use kia.Text.Buffers.{length-zeros}
use kia.Config.{Config, name_size}
use kia.Config.Bounds.{IsSized, IsValid, config_load-IsValid}
use kia.Auth.{AuthState, AuthGlobals, Outcome, auth_init, auth_is_locked_out, authenticate}
use kia.Auth.Lockout.{authenticate-success_iff}
use kia.Session.Desktop.Fields.{IsSlot}
use kia.Session.Discover.{SessionList, session_discover}
use kia.Session.Discover.Entries.{IsDiscovered, session_discover-IsDiscovered}
use kia.Session.Start.{Account, session_start}
use kia.Tui.Drawing.{tui_init}
use kia.Tui.Menu.{tui_select_session}
use kia.Controller.{
  state_init, state_load_config, state_show_login, state_get_credentials, state_select_session,
  state_authenticate, state_start_session, AppContext, Round, initial_context, secure_memzero,
  out_of_range, find_default_session, session_at,
}
use kia.Controller.Handlers.{
  handle_init, handle_load_config, handle_show_login, handle_get_credentials, handle_select_session,
  handle_start_session, start_screen, config_path, discovered, check_credentials, check_selection,
  session_ended,
}
use kia.Controller.Handlers.Authenticate.{handle_authenticate, authenticated}
use kia.Controller.Stages.{
  IsCleared, IsReady, IsFresh, IsSelected, IsGranted, by_password, Stage, IsStaged,
}

pub secure_memzero-IsCleared : (s : Bytes) → IsCleared (secure_memzero s)
unfolding secure_memzero
secure_memzero-IsCleared [] = tt
secure_memzero-IsCleared (c ∷ cs) = (refl, secure_memzero-IsCleared cs)

zeros-IsCleared : (n : ℕ) → IsCleared (zeros n)
unfolding zeros replicate
zeros-IsCleared zero = tt
zeros-IsCleared (suc n) = (refl, zeros-IsCleared n)

pub in_range : (l : SessionList) (i : ℤ) → out_of_range i l.count ≡ false → IsSelected l i
in_range l (pos i) h = record { index = i; as_int = refl; within = ground arith }
in_range l (negsuc i) h = absurd (ground arith)

pub initial-IsStaged :
    (c : Config) → IsSized c → IsStaged [] (record initial_context { config = c })
unfolding initial_context Stage
initial-IsStaged c h =
    (record { cleared = zeros-IsCleared name_size; user_sized = length-zeros name_size }, h)

pub succeeded_success : (code : Code) → succeeded code ≡ true → code ≡ success
succeeded_success code h = ground arith

module _ (rs : List Round) (r : Round) where
  start_screen-IsStaged :
      (code : Code) (ctx : AppContext)
      → Stage state_init rs ctx
      → IsStaged (r ∷ rs) (start_screen code ctx).0.1
  unfolding start_screen Stage
  start_screen-IsStaged code ctx h = elim (Bool-cases (succeeded code)) [
    | inr failed ↦ rw failed h.0.cleared
    | inl ok ↦ rw ok h
  ]

  pub handle_init-IsStaged :
      (ctx : AppContext) → Stage state_init rs ctx → IsStaged (r ∷ rs) (handle_init r ctx).0.1
  unfolding handle_init auth_init
  handle_init-IsStaged ctx h =
      start_screen-IsStaged (tui_init r.screen_starts r.screen.colors).0 ctx h

  discovered-IsStaged :
      (ctx : AppContext) (d : Code × SessionList)
      → IsFresh ctx.username ctx.password
      → IsValid ctx.config
      → IsDiscovered d
      → IsStaged (r ∷ rs) (discovered r.screen ctx d).0.1
  unfolding discovered Stage
  discovered-IsStaged ctx (code, l) f v d =
      elim (Bool-cases (not (succeeded code) || l.count == 0)) [
        | inl bad ↦ rw bad f.cleared
        | inr good ↦ rw good (f, record { valid = v; scanned = d.0; some_session = ground arith })
      ]

  pub handle_load_config-IsStaged :
      (ctx : AppContext)
      → IsSlot r.files.fresh
      → Stage state_load_config rs ctx
      → IsStaged (r ∷ rs) (handle_load_config r ctx).0.1
  unfolding handle_load_config Stage
  handle_load_config-IsStaged ctx slot (f, s) =
      let (c', loaded, valid) = config_load-IsValid r.files.fopen (some config_path) ctx.config s in
      rw loaded (
        discovered-IsStaged (record ctx { config = c' }) (session_discover r.files).0 f valid
          (session_discover-IsDiscovered r.files slot))

  pub handle_show_login-IsStaged :
      (ctx : AppContext)
      → Stage state_show_login rs ctx
      → IsStaged (r ∷ rs) (handle_show_login r ctx).0.1
  unfolding handle_show_login Stage
  handle_show_login-IsStaged ctx h = h

  check_selection-IsStaged :
      (ctx : AppContext)
      → IsReady ctx.config ctx.sessions
      → IsStaged (r ∷ rs) (check_selection r.screen ctx).0.1
  unfolding check_selection Stage
  check_selection-IsStaged ctx h =
      elim (Bool-cases (out_of_range ctx.selected_session ctx.sessions.count)) [
        | inl bad ↦ rw bad h
        | inr good ↦ rw good (h, in_range ctx.sessions ctx.selected_session good)
      ]

  pub handle_select_session-IsStaged :
      (ctx : AppContext)
      → Stage state_select_session rs ctx
      → IsStaged (r ∷ rs) (handle_select_session r ctx).0.1
  unfolding handle_select_session Stage
  handle_select_session-IsStaged ctx h =
      check_selection-IsStaged
        (record ctx {
          selected_session =
              (tui_select_session r.screen r.turns (some ctx.sessions)
                (find_default_session (some ctx.sessions)
                  (some (cstr ctx.config.default_session))).0).0;
        })
        h

  check_credentials-IsStaged :
      (code : Code) (ctx : AppContext)
      → IsReady ctx.config ctx.sessions
      → IsStaged (r ∷ rs) (check_credentials r.screen code ctx).0.1
  unfolding check_credentials Stage
  check_credentials-IsStaged code ctx h = elim (Bool-cases (succeeded code)) [
    | inr failed ↦ rw failed h
    | inl ok ↦ elim (Bool-cases (is_empty (cstr ctx.username))) [
      | inl empty ↦ rw (ok, empty) h
      | inr named ↦ elim (Bool-cases (ltb 255 (length (cstr ctx.username)))) [
        | inl long ↦ rw (ok, named, long) h
        | inr short ↦ elim (Bool-cases (is_empty (cstr ctx.password))) [
          | inl open' ↦ rw (ok, named, short, open') h
          | inr secret ↦ rw (ok, named, short, secret) h
        ]
      ]
    ]
  ]

  pub handle_get_credentials-IsStaged :
      (ctx : AppContext)
      → Stage state_get_credentials rs ctx
      → IsStaged (r ∷ rs) (handle_get_credentials r ctx).0.1
  unfolding handle_get_credentials Stage
  handle_get_credentials-IsStaged ctx h = check_credentials-IsStaged _ _ h
