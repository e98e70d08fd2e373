-- ===== src/Controller/Progress.antt =====
-- How often the loop of src/controller.c shows the login screen.
use kia.Base.{
  ℕ, suc, ◌≤◌, ◌<◌, ◌≡◌, refl, sym, subst, ◌∙◌, ◌⊎◌, Bool, true, false, not, ◌&&◌, ◌||◌, List, [],
  ◌∷◌, Option, some, length, take, if◌then◌else◌, arith, Bool-cases, inl, inr,
}
use kia.Code.{Code, succeeded}
use kia.Auth.{AuthGlobals}
use kia.Controller.{
  AppState, state_init, state_load_config, state_check_autologin, state_show_login,
  state_get_credentials, state_select_session, state_authenticate, state_start_session, state_exit,
  AppContext, Round,
}
use kia.Controller.Loop.{handle, is_exit, run_rounds}
use kia.Controller.Graph.{Edge, started, handle-Edge}
use kia.Controller.Run.{handle-running}

-- The rounds until the login screen is drawn next or the loop ends, at most.
abbrev pub rounds_left : AppState → ℕ
rounds_left state_init = 4
rounds_left state_load_config = 3
rounds_left state_check_autologin = 2
rounds_left state_show_login = 5
rounds_left state_get_credentials = 4
rounds_left state_select_session = 3
rounds_left state_authenticate = 2
rounds_left state_start_session = 1
rounds_left state_exit = 0

abbrev is_login : AppState → Bool
is_login state_show_login = true
is_login _ = false

Edge-rounds_left :
    {s t : AppState} {code : Code}
    → Edge s code t
    → is_login t ≡ false
    → is_exit t ≡ false
    → rounds_left t < rounds_left s
unfolding is_exit
Edge-rounds_left started h x = omega arith
Edge-rounds_left e h x = ground arith

-- The loop has ended, or it is about to draw the login screen.
abbrev pub IsBack : Option Code × AppContext × AuthGlobals → Type 0
IsBack o = ((code : Code) × (o.0 ≡ some code)) ⊎ (o.1.state ≡ state_show_login)

one_round :
    (r : Round) (rs : List Round) (result : Code) (ctx : AppContext) (g : AuthGlobals)
    → ctx.running ≡ true
    → is_exit ctx.state ≡ false
    → let hg = (handle ctx.state r result ctx g).0 in
      (run_rounds (r ∷ rs) result ctx g).0 ≡ (
        if not (succeeded hg.0.0) && is_exit hg.0.1.state
        then (some hg.0.0, hg.0.1, hg.1)
        else (run_rounds rs hg.0.0 hg.0.1 hg.1).0)
unfolding run_rounds
one_round r rs result ctx g on more =
    let go : (not ctx.running || is_exit ctx.state) ≡ false = ground arith in
    let hg = (handle ctx.state r result ctx g).0 in
    elim (Bool-cases (not (succeeded hg.0.0) && is_exit hg.0.1.state)) [
      | inl broken ↦ rw (go, run_rounds, broken) refl
      | inr fine ↦ rw (go, run_rounds, fine) refl
    ]

at_exit :
    (result : Code) (ctx : AppContext) (g : AuthGlobals)
    → is_exit ctx.state ≡ true
    → IsBack (run_rounds [] result ctx g).0
unfolding run_rounds
at_exit result ctx g done =
    let stop : (not ctx.running || is_exit ctx.state) ≡ true = ground arith in
    rw stop (inl (result, refl))

at_login :
    (result : Code) (ctx : AppContext) (g : AuthGlobals)
    → is_login ctx.state ≡ true
    → IsBack (run_rounds [] result ctx g).0
unfolding run_rounds
at_login result ctx g shown = inr (ground arith)

some_rounds : (s : AppState) → is_exit s ≡ false → 0 < rounds_left s
unfolding is_exit
some_rounds s more = ground arith

if_ended :
    (b : Bool) (code : Code) (ctx : AppContext) (g : AuthGlobals)
    (o : Option Code × AppContext × AuthGlobals)
    → IsBack o
    → IsBack (if b then (some code, ctx, g) else o)
if_ended true code ctx g o h = inl (code, refl)
if_ended false code ctx g o h = h

-- From every state but EXIT, if `running` is set and there are answers for as many rounds as are
-- left to the state, the loop has ended or is about to draw the login screen after at least one
-- round and no more than those: five from SHOW_LOGIN, and less from every other state.
pub run_rounds-IsBack :
    (rs : List Round) (result : Code) (ctx : AppContext) (g : AuthGlobals)
    → ctx.running ≡ true
    → is_exit ctx.state ≡ false
    → rounds_left ctx.state ≤ length rs
    → (n : ℕ) × (0 < n)
      × (n ≤ rounds_left ctx.state)
      × IsBack (run_rounds (take n rs) result ctx g).0
unfolding take
run_rounds-IsBack [] result ctx g on more enough =
    absurd (omega (arith, some_rounds ctx.state more))
run_rounds-IsBack (r ∷ rs) result ctx g on more enough =
    let hg = (handle ctx.state r result ctx g).0 in
    let on' = handle-running ctx.state r result ctx g ∙ on in
    let left = some_rounds ctx.state more in
    let first : (n : ℕ)
        → IsBack (run_rounds (take n rs) hg.0.0 hg.0.1 hg.1).0
        → IsBack (run_rounds (r ∷ take n rs) result ctx g).0 =
      λ n back.
        subst IsBack (sym (one_round r (take n rs) result ctx g on more))
          (if_ended (not (succeeded hg.0.0) && is_exit hg.0.1.state) hg.0.0 hg.0.1 hg.1 _ back) in
    elim (Bool-cases (is_exit hg.0.1.state)) [
      | inl done ↦ (1, omega arith, omega (arith, left), first 0 (at_exit hg.0.0 hg.0.1 hg.1 done))
      | inr open' ↦ elim (Bool-cases (is_login hg.0.1.state)) [
        | inl shown ↦
            (1, omega arith, omega (arith, left), first 0 (at_login hg.0.0 hg.0.1 hg.1 shown))
        | inr away ↦
            let less = Edge-rounds_left (handle-Edge ctx.state r result ctx g more) away open' in
            let (n, some_n, most, back) =
              run_rounds-IsBack rs hg.0.0 hg.0.1 hg.1 on' open' (omega (arith, less, enough)) in
            (suc n, omega arith, omega (arith, less, most), first n back)
      ]
    ]
