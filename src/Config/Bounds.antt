-- ===== src/Config/Bounds.antt =====
-- Whatever the file holds, the configuration that src/config.c leaves is well formed.
use kia.Base.{
  ℕ, zero, suc, ◌<◌, ◌≡◌, refl, Bool, true, false, [], ◌∷◌, Option, none, some, length, arith,
  Bool-cases, inl, inr, pos, ◌≤ℤ◌, Option-cases, leb, ◌==◌,
}
use kia.Code.{success}
use kia.Text.{Bytes, IsText, IsBuffer, cstr, codes, copy_string, is_empty}
use kia.Text.Buffers.{copy_string-IsBuffer, cstr-IsText}
use kia.Stdio.{File, fgets, skip_line, is_truncated}
use kia.Config.Trim.{trim_whitespace-IsText}
use kia.Config.{
  Config, name_size, min_max_attempts, max_max_attempts, max_lockout_duration, config_set_defaults,
  split_equals, Key, apply_key, key_of, trim_whitespace, parse_setting, parse_config_line,
  cut_newline, load_line, load_lines, config_validate, finish_load, load_file, config_load,
}

-- The two arrays have their declared size.
pub record IsSized (c : Config) : Type 0 where
  pub user_sized : length c.autologin_user ≡ name_size
  pub session_sized : length c.default_session ≡ name_size

-- The strings are terminated inside their arrays, and the numbers are in range.
pub record IsValid (c : Config) : Type 0 where
  pub user_buffer : IsBuffer name_size c.autologin_user
  pub session_buffer : IsBuffer name_size c.default_session
  pub attempts_from : min_max_attempts ≤ℤ c.max_attempts
  pub attempts_to : c.max_attempts ≤ℤ max_max_attempts
  pub lockout_from : pos 0 ≤ℤ c.lockout_duration
  pub lockout_to : c.lockout_duration ≤ℤ max_lockout_duration

pub IsValid-IsSized : {c : Config} → IsValid c → IsSized c
IsValid-IsSized v = record {
  user_sized = v.user_buffer.sized;
  session_sized = v.session_buffer.sized;
}

pub config_set_defaults-IsValid : (c : Config) → IsSized c → IsValid (config_set_defaults c)
unfolding config_set_defaults
config_set_defaults-IsValid c s = record {
  user_buffer =
      copy_string-IsBuffer name_size c.autologin_user (codes "") (omega arith) s.user_sized tt;
  session_buffer =
      copy_string-IsBuffer name_size c.default_session (codes "xfce") (omega arith) s.session_sized
        (omega arith);
  attempts_from = omega arith;
  attempts_to = omega arith;
  lockout_from = omega arith;
  lockout_to = omega arith;
}

copied-IsValid_user :
    (v : Bytes) (c : Config)
    → IsText v
    → IsValid c
    → IsValid (record c { autologin_user = copy_string name_size c.autologin_user v })
copied-IsValid_user v c t h = record {
  user_buffer =
      copy_string-IsBuffer name_size c.autologin_user v (omega arith) h.user_buffer.sized t;
  session_buffer = h.session_buffer;
  attempts_from = h.attempts_from;
  attempts_to = h.attempts_to;
  lockout_from = h.lockout_from;
  lockout_to = h.lockout_to;
}

copied-IsValid_session :
    (v : Bytes) (c : Config)
    → IsText v
    → IsValid c
    → IsValid (record c { default_session = copy_string name_size c.default_session v })
copied-IsValid_session v c t h = record {
  user_buffer = h.user_buffer;
  session_buffer =
      copy_string-IsBuffer name_size c.default_session v (omega arith) h.session_buffer.sized t;
  attempts_from = h.attempts_from;
  attempts_to = h.attempts_to;
  lockout_from = h.lockout_from;
  lockout_to = h.lockout_to;
}

pub apply_key-IsValid :
    (k : Key) (v : Bytes) (c : Config) → IsText v → IsValid c → IsValid (apply_key k v c).1
unfolding apply_key
apply_key-IsValid Key.autologin_enabled v c t h = ground arith
apply_key-IsValid Key.autologin_user v c t h = elim (Bool-cases (leb name_size (length v))) [
  | inl e ↦ rw e h
  | inr e ↦ rw e (copied-IsValid_user v c t h)
]
apply_key-IsValid Key.default_session v c t h = elim (Bool-cases (leb name_size (length v))) [
  | inl e ↦ rw e h
  | inr e ↦ rw e (copied-IsValid_session v c t h)
]
apply_key-IsValid Key.max_attempts v c t h = ground arith
apply_key-IsValid Key.enable_logs v c t h = ground arith
apply_key-IsValid Key.lockout_duration v c t h = ground arith
apply_key-IsValid Key.unknown_key v c t h = h

abbrev SplitText : Option (Bytes × Bytes) → Type 0
SplitText none = Unit {0}
SplitText (some (k, v)) = IsText k × IsText v

extend-SplitText :
    (c : ℕ) (o : Option (Bytes × Bytes))
    → 0 < c
    → SplitText o
    → SplitText (elim o [ none ↦ none | some (k, v) ↦ some (c ∷ k, v) ])
extend-SplitText c none p t = tt
extend-SplitText c (some (k, v)) p t = ((p, t.0), t.1)

-- The halves of a line are texts.
split_equals-SplitText : (s : Bytes) → IsText s → SplitText (split_equals s)
unfolding split_equals
split_equals-SplitText [] t = tt
split_equals-SplitText (c ∷ cs) t = elim (Bool-cases (c == b'=')) [
  | inl e ↦ rw e (tt, t.1)
  | inr e ↦ rw e (extend-SplitText c (split_equals cs) t.0 (split_equals-SplitText cs t.1))
]

parse_setting-IsValid :
    (o : Option (Bytes × Bytes)) (c : Config)
    → SplitText o
    → IsValid c
    → IsValid (parse_setting o c).1
unfolding parse_setting
parse_setting-IsValid none c t h = h
parse_setting-IsValid (some (k, v)) c t h =
    let kept =
      apply_key-IsValid (key_of (trim_whitespace k)) (trim_whitespace v) c
        (trim_whitespace-IsText v t.1) h in
    elim (Bool-cases (is_empty (trim_whitespace k))) [ inl e ↦ rw e h | inr e ↦ rw e kept ]

pub parse_config_line-IsValid :
    (line : Bytes) (c : Config) → IsText line → IsValid c → IsValid (parse_config_line line c).1
unfolding parse_config_line
parse_config_line-IsValid [] c t h = h
parse_config_line-IsValid (x ∷ xs) c t h =
    ground
      (arith, parse_setting-IsValid (split_equals (x ∷ xs)) c (split_equals-SplitText (x ∷ xs) t) h)

cut_newline-IsText : (s : Bytes) → IsText s → IsText (cut_newline s)
unfolding cut_newline
cut_newline-IsText [] h = tt
cut_newline-IsText (c ∷ cs) h = ground (arith, cut_newline-IsText cs h.1)

load_line-IsValid :
    (line : Bytes) (c : Config) (e : Bool) → IsValid c → IsValid (load_line line (c, e)).0
unfolding load_line
load_line-IsValid line c e h =
    parse_config_line-IsValid _ c
      (trim_whitespace-IsText (cut_newline (cstr line))
        (cut_newline-IsText (cstr line) (cstr-IsText line)))
      h

pub load_lines-IsValid :
    (fuel : ℕ) (s : Bytes) (c : Config) (e : Bool)
    → IsValid c
    → IsValid (load_lines fuel s (c, e)).0
unfolding load_lines
load_lines-IsValid zero s c e h = h
load_lines-IsValid (suc fuel) s c e h = elim (Option-cases (fgets 1024 s)) [
  | inl end ↦ rw (end, load_lines) h
  | inr (l, got) ↦ elim (Bool-cases (is_truncated l)) [
    | inl long ↦ rw (got, load_lines, long) (load_lines-IsValid fuel (skip_line l.rest) c true h)
    | inr whole ↦
        rw (got, load_lines, whole)
          (load_lines-IsValid fuel l.rest (load_line l.text (c, e)).0 (load_line l.text (c, e)).1
            (load_line-IsValid l.text c e h))
  ]
]

pub config_validate_valid : (c : Config) → IsValid c → config_validate (some c) ≡ success
unfolding config_validate
config_validate_valid c h = ground arith

load_file-IsValid : (f : Option File) (c : Config) → IsValid c → IsValid (load_file f c).1
unfolding load_file finish_load
load_file-IsValid none c h = h
load_file-IsValid (some f) c h =
    let loaded = load_lines-IsValid (suc (length f.contents)) f.contents c false h in
    rw (config_validate_valid _ loaded) loaded

-- For every path and every file, `config_load` leaves a well-formed configuration behind,
-- whatever code it returns, provided that the arrays have their declared sizes.
pub config_load-IsValid :
    (fopen : Bytes → Option File) (path : Option Bytes) (c : Config)
    → IsSized c
    → (c' : Config) × ((config_load fopen path (some c)).1 ≡ some c') × IsValid c'
unfolding config_load
config_load-IsValid fopen none c s = (config_set_defaults c, refl, config_set_defaults-IsValid c s)
config_load-IsValid fopen (some []) c s =
    (config_set_defaults c, refl, config_set_defaults-IsValid c s)
config_load-IsValid fopen (some (x ∷ xs)) c s =
    (_, refl, load_file-IsValid (fopen (x ∷ xs)) _ (config_set_defaults-IsValid c s))
