-- ===== src/Main/Startup.antt =====
-- When the program of src/main.c starts at all, and how it leaves its context.
use kia.Base.{
  ℕ, ◌++◌, zero, suc, ◌≡◌, ◌↔◌, Bool, true, false, List, [], ◌∷◌, Option, none, some, ℤ, pos,
  negsuc, arith, Bool-cases, inl, inr,
}
use kia.Code.{Code, succeeded}
use kia.Effect.{Effect, printed}
use kia.Config.{config_load}
use kia.Auth.{AuthGlobals, Terminal, idle}
use kia.Controller.{AppContext, controller_init}
use kia.Controller.Stages.{IsCleared}
use kia.Controller.Keeps.{secure_memzero-IsCleared}
use kia.Controller.Loop.{controller_cleanup, controller_run}
use kia.Main.{
  parse_arguments, print_version, print_help, start_logger, check_root_privileges,
  setup_signal_handlers, MainEnv, Exit, exit_success, exit_failure, still_running, status_of,
  cleanup_and_exit, after_run, run_context, after_init, main_with, main, with_config,
  default_config_path, signals_of,
}

-- Whether a trace holds any call but those that print.
abbrev pub acts : List Effect → Bool
acts [] = false
acts (printed _ _ ∷ es) = acts es
acts (_ ∷ _) = true

-- The program calls anything of its parts exactly when it has no argument, runs as root, and both
-- signals have their handler; else it prints at most.
pub main-acts_iff :
    (env : MainEnv)
    → (acts (main env).1 ≡ true) ↔ (
        (env.arguments ≡ [])
        × (env.euid ≡ 0)
        × (env.handles_term ≡ true)
        × (env.handles_int ≡ true))
unfolding main main_with parse_arguments check_root_privileges setup_signal_handlers print_version
    print_help start_logger
main-acts_iff env = ground arith

-- What a program that has exited leaves in its context.
abbrev pub LeavesCleared : Exit × Option AppContext → Type 0
LeavesCleared (status, none) = Unit {0}
LeavesCleared (still_running, some ctx) = Unit {0}
LeavesCleared (exit_success, some ctx) = IsCleared ctx.password
LeavesCleared (exit_failure, some ctx) = IsCleared ctx.password

cleanup_and_exit-LeavesCleared :
    (t : Terminal) (ctx : Option AppContext) (g : AuthGlobals) (status : Exit)
    → LeavesCleared (cleanup_and_exit t ctx g status).0
unfolding cleanup_and_exit controller_cleanup
cleanup_and_exit-LeavesCleared t none g status = tt
cleanup_and_exit-LeavesCleared t (some ctx) g still_running = tt
cleanup_and_exit-LeavesCleared t (some ctx) g exit_success = secure_memzero-IsCleared ctx.password
cleanup_and_exit-LeavesCleared t (some ctx) g exit_failure = secure_memzero-IsCleared ctx.password

after_run-LeavesCleared :
    (env : MainEnv) (signals : List ℕ) (r : Option Code × Option AppContext × AuthGlobals)
    → LeavesCleared (after_run env signals r).0
unfolding after_run
after_run-LeavesCleared env signals (none, none, g) = tt
after_run-LeavesCleared env signals (none, some ctx, g) = tt
after_run-LeavesCleared env signals (some code, ctx, g) =
    cleanup_and_exit-LeavesCleared env.terminal ctx g (status_of code)

run_context-LeavesCleared :
    (env : MainEnv) (ctx : AppContext) → LeavesCleared (run_context env ctx).0
unfolding run_context
run_context-LeavesCleared env ctx =
    let config =
      with_config ctx.config
        (config_load env.fopen (some default_config_path) (some ctx.config)).1 in
    let run = controller_run env.rounds (some (record ctx { config = config })) idle in
    after_run-LeavesCleared env (env.signals ++ signals_of run.1) run.0

after_init-LeavesCleared :
    (env : MainEnv) (r : Code × Option AppContext) → LeavesCleared (after_init env r).0
unfolding after_init
after_init-LeavesCleared env (code, none) = tt
after_init-LeavesCleared env (code, some ctx) = elim (Bool-cases (succeeded code)) [
  | inl ok ↦ rw ok (run_context-LeavesCleared env ctx)
  | inr failed ↦
      rw failed (cleanup_and_exit-LeavesCleared env.terminal (some ctx) idle exit_failure)
]

main_with-LeavesCleared : (env : MainEnv) (n : ℤ) → LeavesCleared (main_with env n).0
unfolding main_with
main_with-LeavesCleared env (pos (suc n)) = tt
main_with-LeavesCleared env (negsuc n) = tt
main_with-LeavesCleared env (pos zero) =
    elim (Bool-cases (succeeded (check_root_privileges env.euid).0)) [
      | inr user ↦ rw user tt
      | inl root ↦
          elim (Bool-cases (succeeded (setup_signal_handlers env.handles_term env.handles_int).0)) [
            | inr broken ↦ rw (root, broken) tt
            | inl ready ↦
                rw (root, ready) (after_init-LeavesCleared env (controller_init (some env.memory)))
          ]
    ]

-- Whenever the program exits and has a context, no byte of the password is left in it.
pub main-LeavesCleared : (env : MainEnv) → LeavesCleared (main env).0
unfolding main
main-LeavesCleared env = main_with-LeavesCleared env (parse_arguments env.arguments).0
