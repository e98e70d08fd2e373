-- ===== src/Config/Refused.antt =====
-- What the lines that `parse_config_line` of src/config.c refuses do to the load of a file.
use kia.Base.{
  ◌≡◌, refl, sym, ap, ◌∙◌, Bool, true, false, not, ◌||◌, List, [], ◌∷◌, Option, none, some, All,
  arith, Bool-cases, inl, inr, if◌then◌else◌,
}
use kia.Code.{success, error_config, succeeded}
use kia.Text.{Bytes, is_empty}
use kia.Stdio.{File}
use kia.Config.Bounds.{IsSized}
use kia.Config.Lines.{parse_config_line_atomic}
use kia.Config.Spec.{IsPlain, unlines, apply_lines, outcome, config_load-unlines}
use kia.Config.{
  Config, Key, config_set_defaults, trim_whitespace, apply_key, key_of, parse_setting,
  parse_config_line, split_equals, config_load,
}

apply_key_code : (k : Key) (v : Bytes) (c d : Config) → (apply_key k v c).0 ≡ (apply_key k v d).0
unfolding apply_key
apply_key_code _ v c d = ground arith

parse_setting_code :
    (o : Option (Bytes × Bytes)) (c d : Config) → (parse_setting o c).0 ≡ (parse_setting o d).0
unfolding parse_setting
parse_setting_code none c d = refl
parse_setting_code (some (k, v)) c d =
    ground (arith, apply_key_code (key_of (trim_whitespace k)) (trim_whitespace v) c d)

-- Whether a line is refused does not depend on the settings that it meets.
parse_config_line_code :
    (line : Bytes) (c d : Config) → (parse_config_line line c).0 ≡ (parse_config_line line d).0
unfolding parse_config_line
parse_config_line_code [] c d = refl
parse_config_line_code (x ∷ xs) c d = ground (arith, parse_setting_code (split_equals (x ∷ xs)) c d)

-- A line that is refused on the configuration `d`, and so on any.
abbrev pub is_refused : Config → Bytes → Bool
is_refused d t = not (succeeded (parse_config_line (trim_whitespace t) d).0)

unfoldable pub any_refused : Config → List Bytes → Bool
any_refused d [] = false
any_refused d (t ∷ ts) = is_refused d t || any_refused d ts

-- The lines that are not refused.
unfoldable pub accepted : Config → List Bytes → List Bytes
accepted d [] = []
accepted d (t ∷ ts) = let rest = accepted d ts in if is_refused d t then rest else t ∷ rest

accepted-IsPlain : (d : Config) (ts : List Bytes) → All IsPlain ts → All IsPlain (accepted d ts)
unfolding accepted
accepted-IsPlain d [] p = tt
accepted-IsPlain d (t ∷ ts) p = elim (Bool-cases (is_refused d t)) [
  | inl bad ↦ rw bad (accepted-IsPlain d ts p.1)
  | inr good ↦ rw good (p.0, accepted-IsPlain d ts p.1)
]

-- A refused line sets the flag and changes no setting.
refused_step :
    (d : Config) (t : Bytes) (ts : List Bytes) (c : Config) (e : Bool)
    → is_refused d t ≡ true
    → apply_lines (t ∷ ts) c e ≡ apply_lines ts c true
refused_step d t ts c e bad =
    let line = trim_whitespace t in
    let failed : succeeded (parse_config_line line c).0 ≡ false =
      rw (parse_config_line_code line c d) (ground arith) in
    let same : (parse_config_line line c).1 ≡ c = parse_config_line_atomic line c (ground arith) in
    rw (failed, same) (ap (apply_lines ts c) (ground arith))

-- One that is taken changes no flag.
taken_step :
    (d : Config) (t : Bytes) (ts : List Bytes) (c : Config) (e : Bool)
    → is_refused d t ≡ false
    → apply_lines (t ∷ ts) c e ≡ apply_lines ts (parse_config_line (trim_whitespace t) c).1 e
taken_step d t ts c e good =
    let line = trim_whitespace t in
    let ok : succeeded (parse_config_line line c).0 ≡ true =
      rw (parse_config_line_code line c d) (ground arith) in
    ap (apply_lines ts (parse_config_line line c).1) (ground arith)

-- The settings are those of the lines that are taken; the flag tells whether one was refused.
apply_lines-accepted :
    (d : Config) (ts : List Bytes) (c : Config) (e : Bool)
    → apply_lines ts c e ≡ ((apply_lines (accepted d ts) c false).0, e || any_refused d ts)
unfolding accepted any_refused
apply_lines-accepted d [] c e = ground arith
apply_lines-accepted d (t ∷ ts) c e = elim (Bool-cases (is_refused d t)) [
  | inl bad ↦
      refused_step d t ts c e bad
      ∙ apply_lines-accepted d ts c true
      ∙ rw bad (ap (λ b. ((apply_lines (accepted d ts) c false).0, b)) (ground arith))
  | inr good ↦
      taken_step d t ts c e good
      ∙ apply_lines-accepted d ts _ e
      ∙ rw good (
          ap (λ q. (q.0, e || any_refused d ts))
            (sym (taken_step d t (accepted d ts) c false good)))
]

-- Of the lines that are taken, none sets the flag.
accepted-IsTaken :
    (d : Config) (ts : List Bytes) (c : Config) (e : Bool) → (apply_lines (accepted d ts) c e).1 ≡ e
unfolding accepted
accepted-IsTaken d [] c e = refl
accepted-IsTaken d (t ∷ ts) c e = elim (Bool-cases (is_refused d t)) [
  | inl bad ↦ rw bad (accepted-IsTaken d ts c e)
  | inr good ↦ rw good (
      ap (λ q. q.1) (taken_step d t (accepted d ts) c e good)
      ∙ accepted-IsTaken d ts (parse_config_line (trim_whitespace t) c).1 e)
]

-- A file of plain lines gives the configuration of the file without the lines that are refused,
-- which loads with success; the load itself reports an error exactly when a line is refused. The
-- lines hold no NUL and no line end and are shorter than 1023 bytes; the path is not empty, the
-- file opens and is read with no error, and the arrays of the configuration have their declared
-- sizes.
pub config_load-skips :
    (fopen : Bytes → Option File) (path : Bytes) (ts : List Bytes) (c : Config)
    → is_empty path ≡ false
    → fopen path ≡ some (record { contents = unlines ts; read_error = false })
    → IsSized c
    → All IsPlain ts
    → let loaded = config_load fopen (some path) (some c) in
      let kept =
        config_load
          (λ _. some (record { contents = unlines (accepted c ts); read_error = false }))
          (some path)
          (some c) in
      (loaded.1 ≡ kept.1)
      × (kept.0 ≡ success)
      × (loaded.0 ≡ (if any_refused c ts then error_config else success))
config_load-skips fopen path ts c p o s plain =
    let d = config_set_defaults c in
    let kept = accepted c ts in
    let all =
      config_load-unlines fopen path ts c p o s plain
      ∙ ap (λ r. outcome r false) (apply_lines-accepted c ts d false) in
    let good =
      config_load-unlines (λ _. some (record { contents = unlines kept; read_error = false })) path
        kept c p refl s (accepted-IsPlain c ts plain) in
    (
      ap (λ r. r.1) all ∙ sym (ap (λ r. r.1) good),
      ap (λ r. r.0) good
          ∙ ap (λ e. (outcome ((apply_lines kept d false).0, e) false).0)
              (accepted-IsTaken c ts d false),
      ap (λ r. r.0) all ∙ ap (λ e. if e then error_config else success) (ground arith),
    )
