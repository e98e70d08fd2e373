-- ===== src/Tests/ConfigFile.antt =====
-- src/config.c on concrete files and lines.
use kia.Base.{
  ℕ, zero, suc, replicate, ◌≡◌, ◌≢◌, refl, true, false, List, [], ◌∷◌, Option, some, take, All, pos,
  arith, if◌then◌else◌,
}
use kia.Code.{success, error_config}
use kia.Text.{
  Bytes, skip_spaces, is_space, is_digit, atoi_signed, read_digits, to_int, int_of_low, codes,
  zeros, atoi,
}
use kia.Text.Buffers.{length-zeros}
use kia.Stdio.{File}
use kia.Config.{
  Config, name_size, config_set_defaults, trim_whitespace, parse_config_line, split_equals,
  parse_setting, rtrim, config_load,
}
use kia.Config.Trim.{IsTrimOf, trim_whitespace-IsTrimOf}
use kia.Config.Bounds.{IsSized, IsValid, config_load-IsValid}
use kia.Config.Files.{IsLine, file_of, apply_file, config_load-file_of}
use kia.Config.Refused.{any_refused, accepted, config_load-skips}
use kia.Config.Spec.{IsPlain, unlines, outcome}
use kia.Config.Settings.{Settings, render}
use kia.Config.RoundTrip.{IsWritable, Carries, config_load-render}

abbrev blank : Config
blank = record {
  autologin_user = zeros name_size;
  autologin_enabled = false;
  default_session = zeros name_size;
  max_attempts = pos 0;
  enable_logs = false;
  lockout_duration = pos 0;
}

blank-IsSized : IsSized blank
blank-IsSized = record {
  user_sized = length-zeros name_size;
  session_sized = length-zeros name_size;
}

abbrev path : Bytes
path = codes "/etc/kia/config"

abbrev lines : List Bytes
lines = codes "# kia" ∷ codes "max_attempts = 5" ∷ codes "nonsense" ∷ []

abbrev fopen : Bytes → Option File
fopen _ = some (record { contents = unlines lines; read_error = false })

lines-IsPlain : All IsPlain lines
lines-IsPlain = (
  record { text = ground arith; one_line = ground arith; fits = omega arith },
  (
    record { text = ground arith; one_line = ground arith; fits = omega arith },
    (record { text = ground arith; one_line = ground arith; fits = omega arith }, tt),
  ),
)

spaces_trimmed : trim_whitespace (codes "  a b  ") ≡ codes "a b"
unfolding trim_whitespace skip_spaces rtrim take is_space
spaces_trimmed = refl

overflow_accepted : atoi (codes "4294967299") ≡ pos 3
unfolding atoi atoi_signed skip_spaces read_digits to_int int_of_low is_space is_digit
overflow_accepted = refl

trim_whitespace-IsTrimOf_example : IsTrimOf (codes "  key ") (trim_whitespace (codes "  key "))
trim_whitespace-IsTrimOf_example = trim_whitespace-IsTrimOf (codes "  key ")

config_load-IsValid_example :
    (c' : Config) × ((config_load fopen (some path) (some blank)).1 ≡ some c') × IsValid c'
config_load-IsValid_example = config_load-IsValid fopen (some path) blank blank-IsSized

nonsense_refused : (parse_config_line (codes "nonsense") blank).0 ≢ success
unfolding parse_config_line parse_setting split_equals
nonsense_refused e = cc

config_load-skips_example :
    ((config_load fopen (some path) (some blank)).1
      ≡ (config_load
          (λ _. some (record { contents = unlines (accepted blank lines); read_error = false }))
          (some path)
          (some blank)).1)
    × ((config_load
          (λ _. some (record { contents = unlines (accepted blank lines); read_error = false }))
          (some path)
          (some blank)).0
        ≡ success)
    × ((config_load fopen (some path) (some blank)).0
        ≡ (if any_refused blank lines then error_config else success))
config_load-skips_example =
    config_load-skips fopen path lines blank refl refl blank-IsSized lines-IsPlain

abbrev settings : Settings
settings = record {
  enabled = true;
  user = codes "ada";
  session = codes "xfce";
  attempts = codes "5";
  logs = false;
  duration = codes "120";
}

settings-IsWritable : IsWritable settings 5 120
unfolding is_space is_digit atoi atoi_signed skip_spaces read_digits to_int int_of_low
settings-IsWritable = record {
  user_value = record {
    text = ground arith;
    one_line = ground arith;
    starts_firm = ground arith;
    ends_firm = ground arith;
    fits = omega arith;
  };
  session_value = record {
    text = ground arith;
    one_line = ground arith;
    starts_firm = ground arith;
    ends_firm = ground arith;
    fits = omega arith;
  };
  attempts_value = record {
    text = ground arith;
    one_line = ground arith;
    starts_firm = ground arith;
    ends_firm = ground arith;
    fits = omega arith;
  };
  duration_value = record {
    text = ground arith;
    one_line = ground arith;
    starts_firm = ground arith;
    ends_firm = ground arith;
    fits = omega arith;
  };
  attempts_given = refl;
  duration_given = refl;
  attempts_read = refl;
  duration_read = refl;
  attempts_range = ground arith;
  duration_range = omega arith;
}

abbrev settings_fopen : Bytes → Option File
settings_fopen _ = some (record { contents = unlines (render settings); read_error = false })

config_load-render_example :
    (c' : Config) × (config_load settings_fopen (some path) (some blank) ≡ (success, some c'))
    × Carries settings 5 120 settings-IsWritable c'
config_load-render_example =
    config_load-render settings 5 120 settings-IsWritable settings_fopen path blank refl refl
      blank-IsSized

-- 1100 bytes, more than the buffer holds.
abbrev long_line : Bytes
long_line = replicate 1100 b'x'

many-IsLine : (n : ℕ) → IsLine (replicate n b'x')
unfolding replicate
many-IsLine zero = record { text = tt; one_line = tt }
many-IsLine (suc n) =
    let rest = many-IsLine n in
    record {
      text = (omega arith, rest.text);
      one_line = ((ground arith, ground arith), rest.one_line);
    }

-- A line that does not fit, one that does, and a last one without its newline.
abbrev long_file : Bytes → Option File
long_file _ = some (record {
  contents = file_of (long_line ∷ codes "max_attempts = 5" ∷ []) (codes "enable_logs=0");
  read_error = false;
})

config_load-file_of_example :
    config_load long_file (some path) (some blank)
    ≡ outcome
        (apply_file
          (long_line ∷ codes "max_attempts = 5" ∷ [])
          (codes "enable_logs=0")
          (config_set_defaults blank)
          false)
        false
config_load-file_of_example =
    config_load-file_of long_file path (long_line ∷ codes "max_attempts = 5" ∷ [])
      (codes "enable_logs=0") false blank refl refl blank-IsSized
      (many-IsLine 1100, (record { text = ground arith; one_line = ground arith }, tt))
      (record { text = ground arith; one_line = ground arith })
