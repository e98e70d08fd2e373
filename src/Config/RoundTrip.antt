-- ===== src/Config/RoundTrip.antt =====
-- A configuration written as a file of src/config.c's format is read back as it was.
use kia.Base.{
  ℕ, ◌≤◌, ◌≡◌, refl, ap, ◌∙◌, false, List, [], ◌∷◌, Option, some, length, All, arith, leb, pos,
}
use kia.Code.{success}
use kia.Stdio.{File}
use kia.Text.{atoi, Bytes, is_empty, cstr, copy_string}
use kia.Text.Buffers.{cstr-copy_string_fits}
use kia.Config.Bounds.{IsSized, IsValid-IsSized, config_set_defaults-IsValid}
use kia.Config.Spec.{IsPlain, unlines, apply_lines, outcome, config_load-unlines}
use kia.Config.{
  Config, Key, apply_key, trim_whitespace, parse_config_line, name_size, config_set_defaults,
  config_load,
}
use kia.Config.Settings.{
  IsValue, Settings, flag, setting, render, IsKey, setting-IsPlain, parse-setting,
  autologin_enabled-IsKey, autologin_user-IsKey, default_session-IsKey, max_attempts-IsKey,
  enable_logs-IsKey, lockout_duration-IsKey, flag-IsValue, parse_bool-flag,
}

-- The values can be written, and the two numbers are in range, however they are spelled.
pub record IsWritable (s : Settings) (attempts duration : ℕ) : Type 0 where
  pub user_value : IsValue s.user
  pub session_value : IsValue s.session
  pub attempts_value : IsValue s.attempts
  pub duration_value : IsValue s.duration
  pub attempts_given : is_empty s.attempts ≡ false
  pub duration_given : is_empty s.duration ≡ false
  pub attempts_read : atoi s.attempts ≡ pos attempts
  pub duration_read : atoi s.duration ≡ pos duration
  pub attempts_range : (1 ≤ attempts) × (attempts ≤ 10)
  pub duration_range : duration ≤ 3600

-- The defaults with the settings put in.
abbrev pub with_settings : Settings → ℕ → ℕ → Config → Config
with_settings s attempts duration c = record {
  autologin_user = copy_string name_size c.autologin_user s.user;
  autologin_enabled = s.enabled;
  default_session = copy_string name_size c.default_session s.session;
  max_attempts = pos attempts;
  enable_logs = s.logs;
  lockout_duration = pos duration;
}

-- The lines take one configuration to another, each with no error.
data Runs : List Bytes → Config → Config → Type 0 where
  done : {c : Config} → Runs [] c c
  line :
      {t : Bytes} {ts : List Bytes} {c c' c'' : Config}
      → parse_config_line (trim_whitespace t) c ≡ (success, c')
      → Runs ts c' c''
      → Runs (t ∷ ts) c c''

apply_lines-Runs :
    {ts : List Bytes} {c c' : Config} → Runs ts c c' → apply_lines ts c false ≡ (c', false)
apply_lines-Runs done = refl
apply_lines-Runs (line h r) = rw h (apply_lines-Runs r)

module _ (s : Settings) (n d : ℕ) (w : IsWritable s n d) where
  accepted :
      {k v : Bytes} {key : Key} (c c' : Config)
      → IsKey k key
      → IsValue v
      → apply_key key v c ≡ (success, c')
      → parse_config_line (trim_whitespace (setting k v)) c ≡ (success, c')
  accepted c c' n w e = parse-setting n w c ∙ e

  apply_key-user :
      (c : Config)
      → apply_key Key.autologin_user s.user c
        ≡ (success, record c { autologin_user = copy_string name_size c.autologin_user s.user })
  unfolding apply_key
  apply_key-user c =
      let fits : leb name_size (length s.user) ≡ false = ground (arith, w.user_value.fits) in
      rw fits refl

  apply_key-session :
      (c : Config)
      → apply_key Key.default_session s.session c ≡ (
        success,
        record c { default_session = copy_string name_size c.default_session s.session },
      )
  unfolding apply_key
  apply_key-session c =
      let fits : leb name_size (length s.session) ≡ false = ground (arith, w.session_value.fits) in
      rw fits refl

  apply_key-attempts :
      (c : Config)
      → apply_key Key.max_attempts s.attempts c ≡ (success, record c { max_attempts = pos n })
  unfolding apply_key
  apply_key-attempts c = rw (w.attempts_given, w.attempts_read) (ground (arith, w.attempts_range))

  apply_key-duration :
      (c : Config)
      → apply_key Key.lockout_duration s.duration c
        ≡ (success, record c { lockout_duration = pos d })
  unfolding apply_key
  apply_key-duration c = rw (w.duration_given, w.duration_read) (ground (arith, w.duration_range))

  apply_key-enabled :
      (c : Config)
      → apply_key Key.autologin_enabled (flag s.enabled) c
        ≡ (success, record c { autologin_enabled = s.enabled })
  unfolding apply_key
  apply_key-enabled c = rw (parse_bool-flag s.enabled)

  apply_key-logs :
      (c : Config)
      → apply_key Key.enable_logs (flag s.logs) c ≡ (success, record c { enable_logs = s.logs })
  unfolding apply_key
  apply_key-logs c = rw (parse_bool-flag s.logs)

  render-Runs : (c : Config) → Runs (render s) c (with_settings s n d c)
  render-Runs c =
      line (accepted _ _ autologin_enabled-IsKey (flag-IsValue s.enabled) (apply_key-enabled c)) (
        line (accepted _ _ autologin_user-IsKey w.user_value (apply_key-user _)) (
          line (accepted _ _ default_session-IsKey w.session_value (apply_key-session _)) (
            line (accepted _ _ max_attempts-IsKey w.attempts_value (apply_key-attempts _)) (
              line (accepted _ _ lockout_duration-IsKey w.duration_value (apply_key-duration _)) (
                line (accepted _ _ enable_logs-IsKey (flag-IsValue s.logs) (apply_key-logs _))
                  done)))))

  render-IsPlain : All IsPlain (render s)
  render-IsPlain = (
    setting-IsPlain autologin_enabled-IsKey (flag-IsValue s.enabled),
    (
      setting-IsPlain autologin_user-IsKey w.user_value,
      (
        setting-IsPlain default_session-IsKey w.session_value,
        (
          setting-IsPlain max_attempts-IsKey w.attempts_value,
          (
            setting-IsPlain lockout_duration-IsKey w.duration_value,
            (setting-IsPlain enable_logs-IsKey (flag-IsValue s.logs), tt),
          ),
        ),
      ),
    ),
  )

  -- What a load of the written file must leave.
  pub record Carries (c : Config) : Type 0 where
    pub enabled_kept : c.autologin_enabled ≡ s.enabled
    pub user_kept : cstr c.autologin_user ≡ s.user
    pub session_kept : cstr c.default_session ≡ s.session
    pub attempts_kept : c.max_attempts ≡ pos n
    pub logs_kept : c.enable_logs ≡ s.logs
    pub duration_kept : c.lockout_duration ≡ pos d

  with_settings-Carries : (c : Config) → IsSized c → Carries (with_settings s n d c)
  with_settings-Carries c z = record {
    enabled_kept = refl;
    user_kept =
        cstr-copy_string_fits name_size c.autologin_user s.user w.user_value.fits z.user_sized
          w.user_value.text;
    session_kept =
        cstr-copy_string_fits name_size c.default_session s.session w.session_value.fits
          z.session_sized w.session_value.text;
    attempts_kept = refl;
    logs_kept = refl;
    duration_kept = refl;
  }

  -- A file that says the settings loads with no error, and every setting is kept. The values hold
  -- no line end and no space at their ends and fit their arrays, and the two numbers are in range;
  -- the path is not empty, the file opens and is read with no error, and the arrays of the
  -- configuration have their declared sizes.
  pub config_load-render :
      (fopen : Bytes → Option File) (path : Bytes) (c : Config)
      → is_empty path ≡ false
      → fopen path ≡ some (record { contents = unlines (render s); read_error = false })
      → IsSized c
      → (c' : Config) × (config_load fopen (some path) (some c) ≡ (success, some c')) × Carries c'
  config_load-render fopen path c p o z = (
    with_settings s n d (config_set_defaults c),
    config_load-unlines fopen path (render s) c p o z render-IsPlain
        ∙ ap (λ r. outcome r false) (apply_lines-Runs (render-Runs (config_set_defaults c))),
    with_settings-Carries (config_set_defaults c)
        (IsValid-IsSized (config_set_defaults-IsValid c z)),
  )
