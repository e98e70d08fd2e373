-- ===== src/Config.antt =====
-- src/config.c: the defaults, the parser of one line, the loop over the file, the validation.
pub mod Trim
pub mod Bounds
pub mod Lines
pub mod Spec
pub mod Refused
pub mod Files
pub mod Numbers
pub mod Settings
pub mod RoundTrip
use kia.Base.{
  ℕ, zero, suc, ◌+◌, ◌-◌, Bool, true, false, not, ◌||◌, List, [], ◌∷◌, Option, none, some, length,
  take, get_or, leb, ◌==◌, if◌then◌else◌, ℤ, pos, ltb_ℤ,
}
use kia.Code.{Code, success, error_config, succeeded}
use kia.Text.{Bytes, codes, cstr, equal, is_empty, copy_string, is_space, skip_spaces, atoi}
use kia.Stdio.{File, Line, fgets, skip_line, is_truncated}

-- `kia_config_t`
pub record Config : Type 0 where
  pub autologin_user : Bytes
  pub autologin_enabled : Bool
  pub default_session : Bytes
  pub max_attempts : ℤ
  pub enable_logs : Bool
  pub lockout_duration : ℤ

abbrev pub name_size : ℕ
name_size = 256

abbrev pub min_max_attempts : ℤ
min_max_attempts = pos 1

abbrev pub max_max_attempts : ℤ
max_max_attempts = pos 10

abbrev pub max_lockout_duration : ℤ
max_lockout_duration = pos 3600

unfoldable pub config_set_defaults : Config → Config
unfolding copy_string
config_set_defaults c = record c {
  autologin_enabled = false;
  autologin_user = copy_string name_size c.autologin_user (codes "");
  default_session = copy_string name_size c.default_session (codes "xfce");
  max_attempts = pos 3;
  enable_logs = true;
  lockout_duration = pos 60;
}

-- The loop `while (end > str && isspace(*end)) end--`, on the index of `end`.
unfoldable pub rtrim : Bytes → ℕ → ℕ
unfolding is_space
rtrim s zero = zero
rtrim s (suc e) = let back = rtrim s e in if is_space (get_or s (suc e) 0) then back else suc e

unfoldable pub trim_whitespace : Bytes → Bytes
unfolding skip_spaces rtrim take
trim_whitespace s =
    let str = skip_spaces s in
    if is_empty str then str else take (suc (rtrim str (length str - 1))) str

unfoldable pub parse_bool : Bytes → Bool
unfolding equal
parse_bool v =
    equal v (codes "true") || equal v (codes "1") || equal v (codes "yes") || equal v (codes "on")

-- `strchr(line, '=')` and `*equals = '\0'`: the texts on the two sides.
unfoldable pub split_equals : Bytes → Option (Bytes × Bytes)
split_equals [] = none
split_equals (c ∷ cs) =
    let rest = split_equals cs in
    if c == b'=' then some ([], cs) else elim rest [ none ↦ none | some (k, v) ↦ some (c ∷ k, v) ]

-- The keys of the `if` chain, in its order.
pub data Key : Type 0 where
  autologin_enabled autologin_user default_session : Key
  max_attempts enable_logs lockout_duration unknown_key : Key

unfoldable pub key_of : Bytes → Key
unfolding equal
key_of k =
    if equal k (codes "autologin_enabled")
    then autologin_enabled
    else if equal k (codes "autologin_user")
    then autologin_user
    else if equal k (codes "default_session")
    then default_session
    else if equal k (codes "max_attempts")
    then max_attempts
    else if equal k (codes "enable_logs")
    then enable_logs
    else if equal k (codes "lockout_duration")
    then lockout_duration
    else unknown_key

-- The branches of the `if` chain.
unfoldable pub apply_key : Key → Bytes → Config → Code × Config
unfolding parse_bool copy_string atoi
apply_key autologin_enabled v c = (success, record c { autologin_enabled = parse_bool v })
apply_key autologin_user v c =
    if leb name_size (length v)
    then (error_config, c)
    else (success, record c { autologin_user = copy_string name_size c.autologin_user v })
apply_key default_session v c =
    if leb name_size (length v)
    then (error_config, c)
    else (success, record c { default_session = copy_string name_size c.default_session v })
apply_key max_attempts v c =
    if is_empty v
    then (error_config, c)
    else if ltb_ℤ (atoi v) min_max_attempts || ltb_ℤ max_max_attempts (atoi v)
    then (error_config, c)
    else (success, record c { max_attempts = atoi v })
apply_key enable_logs v c = (success, record c { enable_logs = parse_bool v })
apply_key lockout_duration v c =
    if is_empty v
    then (error_config, c)
    else if ltb_ℤ (atoi v) (pos 0) || ltb_ℤ max_lockout_duration (atoi v)
    then (error_config, c)
    else (success, record c { lockout_duration = atoi v })
apply_key unknown_key v c = (success, c)

-- The line at its `=` sign.
unfoldable pub parse_setting : Option (Bytes × Bytes) → Config → Code × Config
unfolding trim_whitespace key_of apply_key
parse_setting none c = (error_config, c)
parse_setting (some (k, v)) c =
    let key = trim_whitespace k in
    if is_empty key then (error_config, c) else apply_key (key_of key) (trim_whitespace v) c

unfoldable pub parse_config_line : Bytes → Config → Code × Config
unfolding parse_setting split_equals
parse_config_line [] c = (success, c)
parse_config_line (x ∷ xs) c =
    if x == b'#' then (success, c) else parse_setting (split_equals (x ∷ xs)) c

-- `line[strcspn(line, "\r\n")] = '\0'`
unfoldable pub cut_newline : Bytes → Bytes
cut_newline [] = []
cut_newline (c ∷ cs) = if c == b'\r' || c == b'\n' then [] else c ∷ cut_newline cs

-- The body of the loop on a line that is whole; the flag is `has_error`.
unfoldable pub load_line : Bytes → Config × Bool → Config × Bool
unfolding cut_newline trim_whitespace parse_config_line cstr
load_line line (c, has_error) =
    let (code, c') = parse_config_line (trim_whitespace (cut_newline (cstr line))) c in
    (c', has_error || not (succeeded code))

abbrev pub line_size : ℕ
line_size = 1024

-- The loop over the lines. Each round shortens the file, so its length is fuel enough.
unfoldable pub load_lines : ℕ → Bytes → Config × Bool → Config × Bool
unfolding fgets is_truncated skip_line load_line
load_lines zero s (c, has_error) = (c, has_error)
load_lines (suc fuel) s (c, has_error) = elim (fgets line_size s) [
  | none ↦ (c, has_error)
  | some l ↦ elim (is_truncated l) [
    | true ↦ load_lines fuel (skip_line l.rest) (c, true)
    | false ↦ load_lines fuel l.rest (load_line l.text (c, has_error))
  ]
]

-- A null pointer is `none`.
unfoldable pub config_validate : Option Config → Code
config_validate none = error_config
config_validate (some c) =
    if ltb_ℤ c.max_attempts min_max_attempts || ltb_ℤ max_max_attempts c.max_attempts
    then error_config
    else if ltb_ℤ c.lockout_duration (pos 0)
    then error_config
    else success

-- The last part of `config_load`, on what the loop left and on `ferror`.
finish_load : Bool → Config × Bool → Code × Config
unfolding config_validate config_set_defaults
finish_load read_error (c, has_error) =
    if succeeded (config_validate (some c))
    then (if has_error || read_error then error_config else success, c)
    else (error_config, config_set_defaults c)

load_file : Option File → Config → Code × Config
unfolding load_lines finish_load
load_file none c = (success, c)
load_file (some f) c =
    finish_load f.read_error (load_lines (suc (length f.contents)) f.contents (c, false))

-- `fopen` is the function from paths to files. The path and the configuration may be null.
unfoldable pub config_load :
    (Bytes → Option File) → Option Bytes → Option Config → Code × Option Config
unfolding load_file config_set_defaults
config_load fopen path none = (error_config, none)
config_load fopen none (some c) = (error_config, some (config_set_defaults c))
config_load fopen (some path) (some c) =
    if is_empty path
    then (error_config, some (config_set_defaults c))
    else let (code, c') = load_file (fopen path) (config_set_defaults c) in (code, some c')

-- There is nothing to free.
unfoldable pub config_free : Config → Config
config_free c = c
