-- ===== src/Controller/Interrupted.antt =====
-- What a signal does to the loop of src/controller.c while a session runs.
use kia.Base.{
  ℕ, ◌≡◌, refl, sym, subst, ap, true, false, not, ◌||◌, List, ◌∷◌, Option, some, arith, Bool-cases,
  inl, inr,
}
use kia.Code.{Code, error_session}
use kia.Text.{cstr}
use kia.Auth.{AuthGlobals}
use kia.Session.Start.{Account, session_start}
use kia.Session.Start.Interrupted.{unwaited, session_start_interrupted}
use kia.Controller.{
  state_show_login, state_start_session, AppContext, Round, session_at, out_of_range,
}
use kia.Controller.Handlers.{handle_start_session, session_ended}
use kia.Controller.Loop.{handle, is_exit, run_rounds}

module _ (r : Round) (ctx : AppContext) (signum : ℕ)
    (comes : r.start.interrupts ≡ some signum) where
  session_ended_failed :
      (e : Code × Option Account)
      → e.0 ≡ error_session
      → (session_ended r.screen ctx e).0 ≡ (error_session, record ctx { state = state_show_login })
  unfolding session_ended
  session_ended_failed (code, a) failed = rw failed refl

  handle_start_session_interrupted :
      (handle_start_session r ctx).0 ≡ (error_session, record ctx { state = state_show_login })
  unfolding handle_start_session
  handle_start_session_interrupted =
      elim (Bool-cases (out_of_range ctx.selected_session ctx.sessions.count)) [
        | inl bad ↦ rw bad refl
        | inr good ↦ rw good (
            session_ended_failed
              (session_start r.start (session_at ctx.sessions ctx.selected_session)
                (some (cstr ctx.username))).0
              (session_start_interrupted r.start signum comes
                (session_at ctx.sessions ctx.selected_session) (some (cstr ctx.username))).0)
      ]

  handle_interrupted :
      (result : Code) (g : AuthGlobals)
      → (handle state_start_session r result ctx g).0
        ≡ ((error_session, record ctx { state = state_show_login }), g)
  unfolding handle
  handle_interrupted result g = ap (λ h. (h, g)) handle_start_session_interrupted

-- A signal that comes while the loop waits for a session does not end the loop: from
-- START_SESSION, with `running` set, it goes on at the login screen with the code of a failed
-- session and the rest of the context as it was, and no child has been waited for.
pub run_rounds-interrupted :
    (r : Round) (rs : List Round) (result : Code) (ctx : AppContext) (g : AuthGlobals) (signum : ℕ)
    → ctx.state ≡ state_start_session
    → ctx.running ≡ true
    → r.start.interrupts ≡ some signum
    → ((run_rounds (r ∷ rs) result ctx g).0
        ≡ (run_rounds rs error_session (record ctx { state = state_show_login }) g).0)
      × (unwaited
            (session_start r.start
              (session_at ctx.sessions ctx.selected_session)
              (some (cstr ctx.username))).1
          ≡ true)
unfolding run_rounds is_exit
run_rounds-interrupted r rs result ctx g signum at on comes =
    let back = record ctx { state = state_show_login } in
    let ended : (handle ctx.state r result ctx g).0 ≡ ((error_session, back), g) =
      subst (λ s. (handle s r result ctx g).0 ≡ ((error_session, back), g)) (sym at)
        (handle_interrupted r ctx signum comes result g) in
    let go : (not ctx.running || is_exit ctx.state) ≡ false = ground arith in
    (
      rw (go, run_rounds) (rw (ended, run_rounds) refl),
      (session_start_interrupted r.start signum comes (session_at ctx.sessions ctx.selected_session)
          (some (cstr ctx.username))).1,
    )
