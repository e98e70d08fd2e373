-- ===== src/Auth/Disabled.antt =====
-- What a lockout_duration that is no number does: src/config.c reads it, src/auth.c applies it.
use kia.Base.{
  ◌≡◌, refl, ap, ◌∙◌, true, false, [], ◌∷◌, Option, some, ℤ, pos, ◌+ℤ◌, ◌≤ℤ◌, leb_ℤ, arith,
  +ℤ_parts,
}
use kia.Code.{success}
use kia.Text.{Bytes, codes, is_empty}
use kia.Stdio.{File}
use kia.Config.Bounds.{IsSized}
use kia.Config.Numbers.{StartsWord, apply_key_lockout_word}
use kia.Config.Settings.{IsValue, setting, setting-IsPlain, parse-setting, lockout_duration-IsKey}
use kia.Config.Spec.{unlines, config_load-unlines}
use kia.Config.{Config, config_set_defaults, config_load}
use kia.Auth.Attempt.{
  Answer, answer, no_session, denied, granted, punish, settle, attempt, authenticate-attempt,
}
use kia.Auth.{
  AuthState, AuthGlobals, AuthEnv, auth_is_locked_out, auth_reset_attempts, change_user,
  authenticate, is_zero_ℤ,
}

-- A lockout that has no length has passed when it is set.
module _ (c : Config) (off : c.lockout_duration ≡ pos 0) (later now : ℤ)
    (after : later ≤ℤ now) where
  end_is_now : leb_ℤ (later +ℤ c.lockout_duration) now ≡ true
  end_is_now = ground (arith, +ℤ_parts later c.lockout_duration)

  punish_free :
      (s : AuthState)
      → is_zero_ℤ s.lockout_until ≡ true
      → (auth_is_locked_out now (punish later c s)).0 ≡ false
  unfolding punish auth_is_locked_out
  punish_free s z = ground (arith, end_is_now)

  settle_free :
      (a : Answer) (s : AuthState)
      → is_zero_ℤ s.lockout_until ≡ true
      → (auth_is_locked_out now (settle a later c s).1).0 ≡ false
  unfolding settle auth_is_locked_out auth_reset_attempts
  settle_free no_session s z = ground arith
  settle_free denied s z = punish_free s z
  settle_free granted s z = ground arith

  change_user_free :
      (u : Bytes) (s : AuthState)
      → is_zero_ℤ s.lockout_until ≡ true
      → is_zero_ℤ (change_user u s).lockout_until ≡ true
  unfolding change_user
  change_user_free u s z = ground arith

  attempt_free :
      (a : Answer) (before : ℤ) (u : Bytes) (s : AuthState)
      → is_zero_ℤ s.lockout_until ≡ true
      → (auth_is_locked_out now (attempt a before later u c s).1).0 ≡ false
  unfolding attempt auth_is_locked_out
  attempt_free a before u s z = rw z (settle_free a (change_user u s) (change_user_free u s z))

-- A file of the one line `lockout_duration=v`, where v begins with none of a space, a digit and a
-- sign, loads with success, and no attempt under its configuration locks anyone out: from a state
-- with no lockout, whatever PAM answers, the next check does not refuse, at any time that is not
-- before the clock that the attempt read. The value can be written in a line; the path is not
-- empty, the file opens and is read with no error, and the arrays of the configuration have their
-- declared sizes.
pub lockout_word_disables :
    (fopen : Bytes → Option File) (path v : Bytes) (c : Config) (env : AuthEnv) (u p : Bytes)
    (s : AuthState) (g : AuthGlobals) (now : ℤ)
    → is_empty path ≡ false
    → fopen path
      ≡ some (record {
        contents = unlines (setting (codes "lockout_duration") v ∷ []);
        read_error = false;
      })
    → IsSized c
    → IsValue v
    → StartsWord v
    → is_zero_ℤ s.lockout_until ≡ true
    → env.later ≤ℤ now
    → let read = record (config_set_defaults c) { lockout_duration = pos 0 } in
      (config_load fopen (some path) (some c) ≡ (success, some read))
      × ((auth_is_locked_out now (authenticate env u p read s g).0.1).0 ≡ false)
lockout_word_disables fopen path v c env u p s g now given opens sized value word z after =
    let read = record (config_set_defaults c) { lockout_duration = pos 0 } in
    let line =
      parse-setting lockout_duration-IsKey value (config_set_defaults c)
      ∙ apply_key_lockout_word v (config_set_defaults c) word in
    (
      config_load-unlines fopen path (setting (codes "lockout_duration") v ∷ []) c given opens sized
            (setting-IsPlain lockout_duration-IsKey value, tt)
          ∙ rw line refl,
      rw (ap (λ d. d.1) (authenticate-attempt env u p read s g))
          (attempt_free read refl env.later now after (answer env.pam u p) env.now u s z),
    )
