-- ===== src/Main/Login.antt =====
-- A login that goes well, from the start of src/main.c to its end.
use kia.Base.{ℕ, ◌≡◌, refl, ap, ◌∙◌, true, [], ◌∷◌, Option, some, List}
use kia.Code.{Code, success}
use kia.Text.{Bytes}
use kia.Config.{Config, config_load}
use kia.Auth.{AuthGlobals, idle}
use kia.Controller.{state_show_login, AppContext, Round, initial_context, controller_init}
use kia.Controller.Loop.{controller_run, run_rounds}
use kia.Controller.Run.{begun}
use kia.Controller.Beginning.{BeginsWell, at_login, run_rounds-begins}
use kia.Controller.Login.{GoesWell, run_rounds-login}
use kia.Main.{
  MainEnv, exit_success, parse_arguments, check_root_privileges, setup_signal_handlers,
  cleanup_and_exit, after_run, run_context, after_init, main_with, main, with_config,
  default_config_path,
}

-- The configuration that `main` loads into the cleared context.
unfoldable pub first_config : MainEnv → Config
unfolding initial_context
first_config env =
    with_config initial_context.config
      (config_load env.fopen (some default_config_path) (some initial_context.config)).1

-- The program is started by root without arguments, and both signals have their handler.
pub record StartsWell (env : MainEnv) : Type 0 where
  pub no_arguments : env.arguments ≡ []
  pub is_root : env.euid ≡ 0
  pub term_handled : env.handles_term ≡ true
  pub int_handled : env.handles_int ≡ true

module _ (env : MainEnv) where
  after_run_success :
      (signals : List ℕ) (result : Option Code) (ctx : Option AppContext) (g : AuthGlobals)
      → result ≡ some success
      → (after_run env signals (result, ctx, g)).0.0 ≡ exit_success
  unfolding after_run cleanup_and_exit
  after_run_success signals result ctx g h = rw h refl

  run_context_success :
      (run_rounds env.rounds success (begun (first_config env)) idle).0.0 ≡ some success
      → (run_context env initial_context).0.0 ≡ exit_success
  unfolding run_context first_config controller_run initial_context
  run_context_success h = after_run_success _ _ _ _ h

-- The program exits with success if it is started by root without arguments, both signals have
-- their handler, and its eight rounds go well: the screen starts, there is a session, the
-- configuration logs nobody in, and then the login goes as `GoesWell` says.
pub main_login :
    (env : MainEnv) (starting loading checking drawing typing choosing login session : Round)
    (u p : Bytes) (i : ℕ)
    → StartsWell env
    → env.rounds
      ≡ starting ∷ loading ∷ checking ∷ drawing ∷ typing ∷ choosing ∷ login ∷ session ∷ []
    → BeginsWell (first_config env) starting loading
    → GoesWell (at_login (first_config env) loading) typing choosing login session u p i
    → (main env).0.0 ≡ exit_success
unfolding main main_with parse_arguments check_root_privileges setup_signal_handlers after_init
    controller_init
main_login env starting loading checking drawing typing choosing login session u p i s e b w =
    let c = first_config env in
    let run =
      ap (λ rs. (run_rounds rs success (begun c) idle).0) e
      ∙ run_rounds-begins c starting loading checking idle b
          (drawing ∷ typing ∷ choosing ∷ login ∷ session ∷ []) in
    let done =
      run_rounds-login (at_login c loading) drawing typing choosing login session idle u p i shown
        on w in
    simp (s.no_arguments, s.is_root, s.term_handled, s.int_handled)
      (run_context_success env (ap (λ o. o.0) run ∙ done.0))
  where
    shown : (at_login (first_config env) loading).state ≡ state_show_login
    shown = unfold at_login in refl

    on : (at_login (first_config env) loading).running ≡ true
    on = unfold at_login initial_context in refl
