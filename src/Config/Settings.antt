-- ===== src/Config/Settings.antt =====
-- The settings of config/kia.config as text: values, the lines with a key, and how src/config.c reads
-- one of them.
use kia.Base.{
  ℕ, ◌<◌, ◌≡◌, ◌≢◌, refl, ap, ◌∙◌, Bool, true, false, List, [], ◌∷◌, ◌++◌, length, length-append,
  All, All-append, arith, if◌then◌else◌,
}
use kia.Text.{Bytes, IsText, is_space, codes}
use kia.Text.Scan.{StartsFirm}
use kia.Config.Trim.{EndsFirm, trim_whitespace_firm}
use kia.Config.Lines.{IsKeyText, StartsKey, parse_config_line-setting}
use kia.Config.Spec.{IsPlain}
use kia.Config.{
  Config, Key, apply_key, key_of, trim_whitespace, parse_config_line, name_size, parse_bool,
}

-- A value that the format can carry: no line end, no NUL, no space at its ends.
pub record IsValue (v : Bytes) : Type 0 where
  pub text : IsText v
  pub one_line : All (λ c. (c ≢ b'\n') × (c ≢ b'\r')) v
  pub starts_firm : StartsFirm v
  pub ends_firm : EndsFirm v
  pub fits : length v < name_size

-- What the file says.
pub record Settings : Type 0 where
  pub enabled : Bool
  pub user : Bytes
  pub session : Bytes
  pub attempts : Bytes
  pub logs : Bool
  pub duration : Bytes

abbrev pub flag : Bool → Bytes
flag b = if b then codes "true" else codes "false"

abbrev pub setting : Bytes → Bytes → Bytes
setting key value = key ++ b'=' ∷ value

-- The file, in the order of config/kia.config.
abbrev pub render : Settings → List Bytes
render s =
    setting (codes "autologin_enabled") (flag s.enabled)
    ∷ setting (codes "autologin_user") s.user
    ∷ setting (codes "default_session") s.session
    ∷ setting (codes "max_attempts") s.attempts
    ∷ setting (codes "lockout_duration") s.duration
    ∷ setting (codes "enable_logs") (flag s.logs)
    ∷ []

EndsFirm-append : (k : Bytes) (y : ℕ) (t : Bytes) → EndsFirm (y ∷ t) → EndsFirm (k ++ y ∷ t)
EndsFirm-append [] y t h = h
EndsFirm-append (c ∷ []) y t h = h
EndsFirm-append (c ∷ d ∷ k) y t h = EndsFirm-append (d ∷ k) y t h

EndsFirm-equals : (v : Bytes) → EndsFirm v → EndsFirm (b'=' ∷ v)
EndsFirm-equals [] h = unfold is_space in refl
EndsFirm-equals (y ∷ t) h = h

-- A key as the program spells it.
pub record IsKey (k : Bytes) (key : Key) : Type 0 where
  starts : StartsKey k
  plain : IsKeyText k
  text : IsText k
  one_line : All (λ c. (c ≢ b'\n') × (c ≢ b'\r')) k
  short : length k < 20
  starts_firm : (t : Bytes) → StartsFirm (k ++ t)
  trimmed : trim_whitespace k ≡ k
  named : key_of k ≡ key

module _ {k v : Bytes} {key : Key} (n : IsKey k key) (w : IsValue v) where
  pub setting-IsPlain : IsPlain (setting k v)
  setting-IsPlain = record {
    text = All-append _ k (b'=' ∷ v) n.text (omega arith, w.text);
    one_line = All-append _ k (b'=' ∷ v) n.one_line (omega arith, w.one_line);
    fits = omega (arith, length-append {0} k (b'=' ∷ v), n.short, w.fits);
  }

  pub parse-setting :
      (c : Config) → parse_config_line (trim_whitespace (setting k v)) c ≡ apply_key key v c
  parse-setting c =
      let whole =
        trim_whitespace_firm (setting k v) (n.starts_firm (b'=' ∷ v))
          (EndsFirm-append k b'=' v (EndsFirm-equals v w.ends_firm)) in
      rw whole (
        parse_config_line-setting k v c n.starts n.plain n.trimmed
          (trim_whitespace_firm v w.starts_firm w.ends_firm)
        ∙ ap (λ x. apply_key x v c) n.named)

pub autologin_enabled-IsKey : IsKey (codes "autologin_enabled") Key.autologin_enabled
unfolding trim_whitespace key_of is_space
autologin_enabled-IsKey = record {
  starts = omega arith;
  plain = omega arith;
  text = omega arith;
  one_line = omega arith;
  short = omega arith;
  starts_firm = λ t. refl;
  trimmed = refl;
  named = refl;
}

pub autologin_user-IsKey : IsKey (codes "autologin_user") Key.autologin_user
unfolding trim_whitespace key_of is_space
autologin_user-IsKey = record {
  starts = omega arith;
  plain = omega arith;
  text = omega arith;
  one_line = omega arith;
  short = omega arith;
  starts_firm = λ t. refl;
  trimmed = refl;
  named = refl;
}

pub default_session-IsKey : IsKey (codes "default_session") Key.default_session
unfolding trim_whitespace key_of is_space
default_session-IsKey = record {
  starts = omega arith;
  plain = omega arith;
  text = omega arith;
  one_line = omega arith;
  short = omega arith;
  starts_firm = λ t. refl;
  trimmed = refl;
  named = refl;
}

pub max_attempts-IsKey : IsKey (codes "max_attempts") Key.max_attempts
unfolding trim_whitespace key_of is_space
max_attempts-IsKey = record {
  starts = omega arith;
  plain = omega arith;
  text = omega arith;
  one_line = omega arith;
  short = omega arith;
  starts_firm = λ t. refl;
  trimmed = refl;
  named = refl;
}

pub enable_logs-IsKey : IsKey (codes "enable_logs") Key.enable_logs
unfolding trim_whitespace key_of is_space
enable_logs-IsKey = record {
  starts = omega arith;
  plain = omega arith;
  text = omega arith;
  one_line = omega arith;
  short = omega arith;
  starts_firm = λ t. refl;
  trimmed = refl;
  named = refl;
}

pub lockout_duration-IsKey : IsKey (codes "lockout_duration") Key.lockout_duration
unfolding trim_whitespace key_of is_space
lockout_duration-IsKey = record {
  starts = omega arith;
  plain = omega arith;
  text = omega arith;
  one_line = omega arith;
  short = omega arith;
  starts_firm = λ t. refl;
  trimmed = refl;
  named = refl;
}

pub flag-IsValue : (b : Bool) → IsValue (flag b)
unfolding is_space
flag-IsValue true = record {
  text = omega arith;
  one_line = omega arith;
  starts_firm = refl;
  ends_firm = refl;
  fits = omega arith;
}
flag-IsValue false = record {
  text = omega arith;
  one_line = omega arith;
  starts_firm = refl;
  ends_firm = refl;
  fits = omega arith;
}

pub parse_bool-flag : (b : Bool) → parse_bool (flag b) ≡ b
unfolding parse_bool
parse_bool-flag true = refl
parse_bool-flag false = refl
