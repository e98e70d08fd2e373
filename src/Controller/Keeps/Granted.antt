-- ===== src/Controller/Keeps/Granted.antt =====
-- What holds in src/controller.c from the authentication to the end of the session.
use mathlib.Core.List.{Memᴰ}
use kia.Base.{◌≡◌, refl, List, ◌∷◌, Option, some, Bool-cases, inl, inr}
use kia.Code.{Code, success, succeeded}
use kia.Text.{cstr}
use kia.Auth.{AuthState, AuthGlobals, Outcome, auth_is_locked_out, authenticate}
use kia.Auth.Lockout.{authenticate-success_iff}
use kia.Session.Start.{Account, session_start}
use kia.Controller.{
  state_authenticate, state_start_session, AppContext, Round, out_of_range, session_at,
}
use kia.Controller.Handlers.{handle_start_session, session_ended}
use kia.Controller.Handlers.Authenticate.{handle_authenticate, authenticated}
use kia.Controller.Stages.{IsCleared, IsReady, IsSelected, IsGranted, by_password, Stage, IsStaged}
use kia.Controller.Keeps.{secure_memzero-IsCleared, succeeded_success}

module _ (rs : List Round) (r : Round) where
  -- A login that succeeds has been granted by PAM, to the user of the context.
  IsGranted-login :
      (ctx : AppContext) (s : AuthState) (g : AuthGlobals)
      → (authenticate r.auth (cstr ctx.username) (cstr ctx.password) ctx.config s g).0.0 ≡ success
      → IsGranted (r ∷ rs) ctx.config (cstr ctx.username)
  IsGranted-login ctx s g ok =
      by_password r (cstr ctx.password) (Memᴰ.head refl)
        ((authenticate-success_iff r.auth (cstr ctx.username) (cstr ctx.password) ctx.config s g).0
          ok).1

  authenticated-IsStaged :
      (ctx : AppContext) (o : Outcome)
      → IsReady ctx.config ctx.sessions
      → IsSelected ctx.sessions ctx.selected_session
      → (o.0 ≡ success → IsGranted (r ∷ rs) ctx.config (cstr ctx.username))
      → IsStaged (r ∷ rs) (authenticated r.screen ctx o).0.0.1
  unfolding authenticated Stage
  authenticated-IsStaged ctx (code, s, g) h i grant = elim (Bool-cases (succeeded code)) [
    | inr failed ↦ rw failed h
    | inl ok ↦ rw ok (record {
      ready = h;
      selected = i;
      cleared = secure_memzero-IsCleared ctx.password;
      granted_to = grant (succeeded_success code ok);
    })
  ]

  pub handle_authenticate-IsStaged :
      (ctx : AppContext) (g : AuthGlobals)
      → Stage state_authenticate rs ctx
      → IsStaged (r ∷ rs) (handle_authenticate r ctx g).0.0.1
  unfolding handle_authenticate Stage
  handle_authenticate-IsStaged ctx g (h, i) =
      elim (Bool-cases (auth_is_locked_out r.clock ctx.auth_state).0) [
        | inl locked ↦ rw locked h
        | inr free ↦ rw free (
            authenticated-IsStaged ctx _ h i
              (IsGranted-login ctx (auth_is_locked_out r.clock ctx.auth_state).1 g))
      ]

  session_ended-IsStaged :
      (ctx : AppContext) (e : Code × Option Account)
      → IsReady ctx.config ctx.sessions
      → IsCleared ctx.password
      → IsStaged (r ∷ rs) (session_ended r.screen ctx e).0.1
  unfolding session_ended Stage
  session_ended-IsStaged ctx (code, a) h z = elim (Bool-cases (succeeded code)) [
    | inl ok ↦ rw ok z
    | inr failed ↦ rw failed h
  ]

  pub handle_start_session-IsStaged :
      (ctx : AppContext)
      → Stage state_start_session rs ctx
      → IsStaged (r ∷ rs) (handle_start_session r ctx).0.1
  unfolding handle_start_session Stage
  handle_start_session-IsStaged ctx h =
      elim (Bool-cases (out_of_range ctx.selected_session ctx.sessions.count)) [
        | inl bad ↦ rw bad h.ready
        | inr good ↦ rw good (
            session_ended-IsStaged ctx
              (session_start r.start (session_at ctx.sessions ctx.selected_session)
                (some (cstr ctx.username))).0
              h.ready h.cleared)
      ]
