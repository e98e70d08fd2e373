-- ===== src/Tests/Login.antt =====
-- src/auth.c with a terminal and a PAM that answer in a fixed way.
use kia.Base.{
  Option, ◌≡◌, ◌+◌, ◌↔◌, ◌+ℤ◌, ℕ, refl, Bool, true, false, List, [], ◌∷◌, none, some, pos, arith,
  ◌==◌,
}
use kia.Code.{success, error_auth}
use kia.Text.{Bytes, codes, zeros, equal, is_space, is_digit}
use kia.Text.Buffers.{length-zeros, cstr-zeros}
use kia.Effect.{log, warn, PamStatus, pam_success, pam_failure}
use kia.Stdio.{File}
use kia.Config.{Config, name_size, config_set_defaults, config_load}
use kia.Config.Bounds.{IsSized}
use kia.Config.Settings.{IsValue, setting}
use kia.Config.Spec.{unlines}
use kia.Auth.{
  AuthState, AuthEnv, Terminal, Pam, started, idle, is_zero_ℤ, auth_is_locked_out, authenticate,
}
use kia.Auth.Attempt.{granted, denied, answer, attempt, decision, authenticate-attempt}
use kia.Auth.Lockout.{authenticate-success_iff, authenticate_all, lockout_enforced}
use kia.Auth.Disabled.{lockout_word_disables}
use kia.Auth.Evasion.{authenticate_each, Alternates, alternating_never_locks}
use kia.Auth.Conversation.{
  Style, prompt_echo_off, text_info, pam_conversation, Answers, pam_conversation-IsClean,
}

abbrev config : Config
config = record {
  autologin_user = zeros name_size;
  autologin_enabled = false;
  default_session = zeros name_size;
  max_attempts = pos 2;
  enable_logs = true;
  lockout_duration = pos 60;
}

abbrev state : AuthState
state = record { username = zeros name_size; failed_attempts = 0; lockout_until = pos 0 }

abbrev terminal : Terminal
terminal = record { opens = some 3; locks = true; unlocks = true }

-- It takes one password, of whatever user.
abbrev pam : Pam
pam = record {
  starts = λ u. started 7;
  authenticates = λ u p. if_taken (equal p (codes "secret"));
  accounts = λ u. pam_success;
}
  where
    if_taken : Bool → PamStatus
    if_taken true = pam_success
    if_taken false = pam_failure 7

abbrev env_at : ℕ → AuthEnv
env_at t = record { terminal = terminal; pam = pam; now = pos t; later = pos (t + 1) }

authenticate-attempt_example :
    decision (authenticate (env_at 100) (codes "ada") (codes "secret") config state idle)
    ≡ attempt
        (answer pam (codes "ada") (codes "secret"))
        (pos 100)
        (pos 101)
        (codes "ada")
        config
        state
authenticate-attempt_example =
    authenticate-attempt (env_at 100) (codes "ada") (codes "secret") config state idle

authenticate-success_iff_example :
    ((authenticate (env_at 100) (codes "ada") (codes "secret") config state idle).0.0 ≡ success) ↔ (
      ((auth_is_locked_out (pos 100) state).0 ≡ false)
      × (answer pam (codes "ada") (codes "secret") ≡ granted))
authenticate-success_iff_example =
    authenticate-success_iff (env_at 100) (codes "ada") (codes "secret") config state idle

wrong_denied : (u : Bytes) → answer pam u (codes "wrong") ≡ denied
unfolding answer equal
wrong_denied u = refl

abbrev denied_twice : List (AuthEnv × Bytes)
denied_twice = (env_at 101, codes "wrong") ∷ []

lockout_enforced_example :
    let (s', g') =
      authenticate_all ((env_at 100, codes "wrong") ∷ denied_twice) [] config state idle in
    authenticate (env_at 110) (codes "bob") (codes "secret") config s' g'
    ≡ ((error_auth, s', g'), log warn "User '%s' is locked out for %d more seconds" ∷ [])
lockout_enforced_example =
    lockout_enforced (env_at 100, codes "wrong") denied_twice [] 0 config state idle (env_at 110)
      (codes "bob") (codes "secret") refl
      (record { known = cstr-zeros name_size; no_lockout = refl; failures = refl })
      (wrong_denied [], (wrong_denied [], tt)) (unfold ◌+ℤ◌ in omega arith)
      (unfold ◌+ℤ◌ in omega arith)

abbrev styles : List Style
styles = prompt_echo_off ∷ text_info ∷ []

pam_conversation-IsClean_example :
    Answers 2 none (pam_conversation 32 styles none true true (λ n. n == 0))
pam_conversation-IsClean_example = pam_conversation-IsClean 32 styles none true true (λ n. n == 0)

abbrev two_users : List (AuthEnv × Bytes × Bytes)
two_users =
    (env_at 100, codes "ada", codes "wrong")
    ∷ (env_at 101, codes "bob", codes "wrong")
    ∷ (env_at 102, codes "ada", codes "wrong")
    ∷ []

two_users-Alternates : Alternates [] two_users
two_users-Alternates = (
  ground arith,
  (ground arith, omega arith),
  wrong_denied (codes "ada"),
  (
    ground arith,
    (ground arith, omega arith),
    wrong_denied (codes "bob"),
    (ground arith, (ground arith, omega arith), wrong_denied (codes "ada"), tt),
  ),
)

alternating_never_locks_example :
    is_zero_ℤ (authenticate_each two_users config state idle).0.lockout_until ≡ true
alternating_never_locks_example =
    alternating_never_locks two_users [] config state idle 2 refl (omega arith)
      (record { named = cstr-zeros name_size; sized = length-zeros name_size; no_lockout = refl })
      two_users-Alternates

abbrev never_locked : Bytes → Option File
never_locked _ = some (record {
  contents = unlines (setting (codes "lockout_duration") (codes "never") ∷ []);
  read_error = false;
})

never-IsValue : IsValue (codes "never")
unfolding is_space
never-IsValue = record {
  text = ground arith;
  one_line = ground arith;
  starts_firm = ground arith;
  ends_firm = ground arith;
  fits = omega arith;
}

config-IsSized : IsSized config
config-IsSized = record {
  user_sized = length-zeros name_size;
  session_sized = length-zeros name_size;
}

abbrev last_chance : AuthState
last_chance = record state { failed_attempts = 2 }

-- The third failure, and the check behind it.
lockout_word_disables_example :
    let read = record (config_set_defaults config) { lockout_duration = pos 0 } in
    (config_load never_locked (some (codes "/etc/kia/config")) (some config) ≡ (success, some read))
    × ((auth_is_locked_out
          (pos 101)
          (authenticate (env_at 100) [] (codes "wrong") read last_chance idle).0.1).0
        ≡ false)
lockout_word_disables_example =
    lockout_word_disables never_locked (codes "/etc/kia/config") (codes "never") config (env_at 100)
      [] (codes "wrong") last_chance idle (pos 101) refl refl config-IsSized never-IsValue
      (unfold is_space is_digit in ground arith) refl (omega arith)
