-- ===== src/Controller/Run.antt =====
-- How the loop of src/controller.c ends.
use mathlib.Core.Option.{none-ne-some}
use kia.Base.{
  ◌≡◌, refl, ◌⊎◌, sym, ◌∙◌, subst, true, false, not, ◌&&◌, ◌||◌, List, [], ◌∷◌, Option, none, some,
  All, arith, Bool-cases, inl, inr,
}
use kia.Code.{Code, success, succeeded}
use kia.Auth.{AuthGlobals, auth_init}
use kia.Config.{Config}
use kia.Config.Bounds.{IsSized}
use kia.Session.Desktop.Fields.{IsSlot}
use kia.Tui.Drawing.{tui_init}
use kia.Controller.{
  AppState, state_init, state_load_config, state_check_autologin, state_show_login,
  state_get_credentials, state_select_session, state_authenticate, state_start_session, state_exit,
  AppContext, Round, initial_context,
}
use kia.Controller.Handlers.{
  handle_init, handle_load_config, handle_check_autologin, handle_show_login,
  handle_get_credentials, handle_select_session, handle_start_session, start_screen, discovered,
  autologin_checked, autologin_known, check_credentials, check_selection, session_ended,
}
use kia.Controller.Handlers.Authenticate.{handle_authenticate, authenticated}
use kia.Controller.Loop.{handle, is_exit, run_rounds, controller_run}
use kia.Controller.Stages.{IsCleared, Stage, IsStaged, Reachable, begin, round}
use kia.Controller.Safety.{Reachable-IsStaged}

start_screen-running :
    (code : Code) (ctx : AppContext) → (start_screen code ctx).0.1.running ≡ ctx.running
unfolding start_screen
start_screen-running code ctx = ground arith

-- No handler writes `running`.
pub handle-running :
    (state : AppState) (r : Round) (result : Code) (ctx : AppContext) (g : AuthGlobals)
    → (handle state r result ctx g).0.0.1.running ≡ ctx.running
unfolding handle handle_init handle_load_config handle_check_autologin handle_show_login
    handle_get_credentials handle_select_session handle_authenticate handle_start_session auth_init
    discovered check_credentials autologin_checked autologin_known check_selection authenticated
    session_ended
handle-running state_init r result ctx g =
    start_screen-running (tui_init r.screen_starts r.screen.colors).0 ctx
handle-running state_load_config r result ctx g = ground arith
handle-running state_check_autologin r result ctx g = ground arith
handle-running state_show_login r result ctx g = refl
handle-running state_get_credentials r result ctx g = ground arith
handle-running state_select_session r result ctx g = ground arith
handle-running state_authenticate r result ctx g = ground arith
handle-running state_start_session r result ctx g = ground arith
handle-running state_exit r result ctx g = refl

-- The loop has gone through reachable contexts only, and if it has ended, then in the state for it.
record IsRun (o : Option Code × AppContext × AuthGlobals) : Type 0 where
  history : List Round
  reached : Reachable history o.1 o.2
  ended : o.0 ≡ none ⊎ (is_exit o.1.state ≡ true)

run_rounds-IsRun :
    (rs history : List Round) (result : Code) (ctx : AppContext) (g : AuthGlobals)
    → All (λ r. IsSlot r.files.fresh) rs
    → ctx.running ≡ true
    → Reachable history ctx g
    → IsRun (run_rounds rs result ctx g).0
unfolding run_rounds
run_rounds-IsRun [] history result ctx g slots on h = elim (Bool-cases (is_exit ctx.state)) [
  | inl done ↦
      let stop : (not ctx.running || is_exit ctx.state) ≡ true = ground arith in
      rw stop (record { history = history; reached = h; ended = inr done })
  | inr more ↦
      let go : (not ctx.running || is_exit ctx.state) ≡ false = ground arith in
      rw go (record { history = history; reached = h; ended = inl refl })
]
run_rounds-IsRun (r ∷ rs) history result ctx g slots on h = elim (Bool-cases (is_exit ctx.state)) [
  | inl done ↦
      let stop : (not ctx.running || is_exit ctx.state) ≡ true = ground arith in
      rw stop (record { history = history; reached = h; ended = inr done })
  | inr more ↦
      let go : (not ctx.running || is_exit ctx.state) ≡ false = ground arith in
      let next = round h result r more slots.0 in
      let hg = (handle ctx.state r result ctx g).0 in
      elim (Bool-cases (not (succeeded hg.0.0) && is_exit hg.0.1.state)) [
        | inl broken ↦
            rw (go, run_rounds, broken)
              (record { history = r ∷ history; reached = next; ended = inr (ground arith) })
        | inr fine ↦
            rw (go, run_rounds, fine)
              (run_rounds-IsRun rs (r ∷ history) hg.0.0 hg.0.1 hg.1 slots.1
                (handle-running ctx.state r result ctx g ∙ on) next)
      ]
]

exit_state : (state : AppState) → is_exit state ≡ true → state ≡ state_exit
unfolding is_exit
exit_state state h = ground arith

exit-IsCleared :
    (history : List Round) (ctx : AppContext)
    → IsStaged history ctx
    → is_exit ctx.state ≡ true
    → IsCleared ctx.password
unfolding Stage
exit-IsCleared history ctx h done = subst (λ s. Stage s history ctx) (exit_state ctx.state done) h

-- The context that `main` hands to the loop.
abbrev pub begun : Config → AppContext
begun c = record initial_context { config = c }

-- If the loop, begun on a cleared context with any configuration of the declared sizes, has come
-- to an end, it returns in the state EXIT and with a cleared password, whatever happened in its
-- rounds. The room that `realloc` gives in them holds arrays of the declared sizes.
pub controller_run-IsCleared :
    (rs : List Round) (c : Config) (g : AuthGlobals) (code : Code)
    → IsSized c
    → All (λ r. IsSlot r.files.fresh) rs
    → (controller_run rs (some (begun c)) g).0.0 ≡ some code
    → (ctx : AppContext) × ((controller_run rs (some (begun c)) g).0.1 ≡ some ctx)
      × (ctx.state ≡ state_exit)
      × IsCleared ctx.password
unfolding controller_run
controller_run-IsCleared rs c g code sized slots e =
    let run = run_rounds-IsRun rs [] success (begun c) g slots on (begin c g sized) in
    elim run.ended [
      | inl running ↦ absurd (none-ne-some code (sym running ∙ e))
      | inr done ↦ (
        _,
        refl,
        exit_state _ done,
        exit-IsCleared run.history _ (Reachable-IsStaged run.reached) done,
      )
    ]
  where
    on : (begun c).running ≡ true
    on = unfold initial_context in refl
