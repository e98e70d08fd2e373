-- ===== src/Tests/Rounds.antt =====
-- The loop of src/controller.c in concrete rounds.
use kia.Base.{◌≡◌, some, pos, Bool, ◌<◌, ◌≤◌, refl, true, List, [], ◌∷◌, arith, take, ℕ}
use kia.Code.{success, error_session}
use kia.Text.{cstr, codes, pad}
use kia.Config.{name_size}
use kia.Auth.{idle}
use kia.Controller.{state_load_config, state_authenticate}
use kia.Controller.Loop.{handle, run_rounds, is_exit}
use kia.Controller.Run.{begun}
use kia.Controller.Strings.{Holding}
use kia.Controller.Strings.Reached.{Reachable-Holding}
use kia.Controller.Limit.{WithinLimit, Reachable-WithinLimit}
use kia.Controller.Graph.{Edge, handle-Edge}
use kia.Controller.Interrupted.{run_rounds-interrupted}
use kia.Session.Start.{session_start}
use kia.Session.Start.Interrupted.{unwaited}
use kia.Controller.Progress.{IsBack, run_rounds-IsBack}
use kia.Controller.{AppContext, Round, state_start_session, state_show_login, session_at}
use kia.Controller.Resources.{IsOrderly, Returned, run_rounds-Returned}
use kia.Tui.{Turn}
use kia.Tests.Program.{typing, blank, reached, round_with, at_login, start_env}

abbrev loaded : AppContext
loaded =
    (handle state_load_config (round_with true []) success
      (record (begun blank) { state = state_load_config }) idle).0.0.1

Reachable-Holding_example : Holding loaded
Reachable-Holding_example = Reachable-Holding reached

Reachable-WithinLimit_example : WithinLimit loaded
Reachable-WithinLimit_example = Reachable-WithinLimit (ground arith, (ground arith, tt)) reached

abbrev five : List Round
five =
    round_with true []
    ∷ round_with true []
    ∷ round_with true []
    ∷ round_with true []
    ∷ round_with true []
    ∷ []

run_rounds-IsBack_example :
    (n : ℕ) × (0 < n) × (n ≤ 5) × IsBack (run_rounds (take n five) success at_login idle).0
unfolding is_exit
run_rounds-IsBack_example = run_rounds-IsBack five success at_login idle refl refl (omega arith)

handle-Edge_example :
    let next = (handle state_authenticate (round_with true []) success at_login idle).0.0 in
    Edge state_authenticate next.0 next.1.state
unfolding is_exit
handle-Edge_example = handle-Edge state_authenticate (round_with true []) success at_login idle refl

round_with-IsOrderly : (starts : Bool) (turns : List Turn) → IsOrderly (round_with starts turns)
round_with-IsOrderly starts turns = refl

-- Three rounds of the login.
run_rounds-Returned_example :
    let run =
      run_rounds
        (round_with true [] ∷ round_with true typing ∷ round_with true [] ∷ [])
        success
        at_login
        idle in
    Returned 0 run.0.2 run.1
run_rounds-Returned_example =
    run_rounds-Returned (round_with true [] ∷ round_with true typing ∷ round_with true [] ∷ [])
      success at_login
      (
        round_with-IsOrderly true [],
        (round_with-IsOrderly true typing, (round_with-IsOrderly true [], tt)),
      )

-- A session of a user runs.
abbrev in_session : AppContext
in_session = record at_login {
  state = state_start_session;
  username = pad name_size (codes "ada");
  selected_session = pos 0;
}

abbrev terminated : Round
terminated = record (round_with true []) { start = record start_env { interrupts = some 15 } }

run_rounds-interrupted_example :
    ((run_rounds (terminated ∷ five) success in_session idle).0
      ≡ (run_rounds five error_session (record in_session { state = state_show_login }) idle).0)
    × (unwaited
          (session_start terminated.start
            (session_at in_session.sessions in_session.selected_session)
            (some (cstr in_session.username))).1
        ≡ true)
run_rounds-interrupted_example =
    run_rounds-interrupted terminated five success in_session idle 15 refl refl refl
