-- ===== src/Config/Spec.antt =====
-- The loop of `config_load` in src/config.c against a specification by lines.
use kia.Base.{
  ℕ, zero, suc, ◌<◌, ◌≡◌, ◌≢◌, refl, ap, ◌∙◌, Bool, true, false, not, ◌||◌, List, [], ◌∷◌, ◌++◌,
  Option, some, length, All, All-append, length-append, arith, if◌then◌else◌,
}
use kia.Code.{Code, success, error_config, succeeded}
use kia.Text.{Bytes, IsText, cstr, is_empty}
use kia.Text.Buffers.{cstr_of_text}
use kia.Stdio.Lines.{IsOneLine, read_line_whole}
use kia.Stdio.{File, Line, fgets, is_truncated, ends_line}
use kia.Config.Bounds.{
  IsSized, config_set_defaults-IsValid, load_lines-IsValid, config_validate_valid,
}
use kia.Config.{
  Config, line_size, config_set_defaults, trim_whitespace, parse_config_line, cut_newline,
  load_line, load_lines, finish_load, load_file, config_load,
}

-- A line that the buffer holds with its newline, with no NUL or line end inside.
pub record IsPlain (t : Bytes) : Type 0 where
  pub text : IsText t
  pub one_line : All (λ c. (c ≢ b'\n') × (c ≢ b'\r')) t
  pub fits : length t < 1023

abbrev pub unlines : List Bytes → Bytes
unlines [] = []
unlines (t ∷ ts) = t ++ b'\n' ∷ unlines ts

-- The specification: the settings are applied line by line, and one bad line is an error.
abbrev pub apply_lines : List Bytes → Config → Bool → Config × Bool
apply_lines [] c e = (c, e)
apply_lines (t ∷ ts) c e =
    apply_lines ts (parse_config_line (trim_whitespace t) c).1
      (e || not (succeeded (parse_config_line (trim_whitespace t) c).0))

IsOneLine-plain : (t : Bytes) → All (λ c. (c ≢ b'\n') × (c ≢ b'\r')) t → IsOneLine t
IsOneLine-plain [] h = tt
IsOneLine-plain (c ∷ t) h = (h.0.0, IsOneLine-plain t h.1)

pub cut_newline-plain :
    (t : Bytes) → All (λ c. (c ≢ b'\n') × (c ≢ b'\r')) t → cut_newline (t ++ b'\n' ∷ []) ≡ t
unfolding cut_newline
cut_newline-plain [] h = refl
cut_newline-plain (c ∷ t) h = ground (arith, cut_newline-plain t h.1)

ends_line-append : (t : Bytes) → ends_line (t ++ b'\n' ∷ []) ≡ true
unfolding ends_line
ends_line-append [] = refl
ends_line-append (c ∷ []) = refl
ends_line-append (c ∷ d ∷ t) = ends_line-append (d ∷ t)

pub cstr-line : (t : Bytes) → IsText t → cstr (t ++ b'\n' ∷ []) ≡ t ++ b'\n' ∷ []
cstr-line t h = cstr_of_text _ (All-append (λ c. 0 < c) t (b'\n' ∷ []) h (omega arith))

abbrev pub line_of : Bytes → Bytes → Line
line_of t rest = record { text = t ++ b'\n' ∷ []; rest = rest; at_eof = false }

pub fgets-plain :
    (t rest : Bytes) → IsPlain t → fgets line_size (t ++ b'\n' ∷ rest) ≡ some (line_of t rest)
unfolding fgets
fgets-plain [] rest p = ap some (read_line_whole 1023 [] rest tt (omega arith))
fgets-plain (c ∷ t) rest p =
    ap some (read_line_whole 1023 (c ∷ t) rest (IsOneLine-plain (c ∷ t) p.one_line) p.fits)

pub is_truncated-plain : (t rest : Bytes) → IsPlain t → is_truncated (line_of t rest) ≡ false
unfolding is_truncated
is_truncated-plain t rest p = rw (cstr-line t p.text) (ground (arith, ends_line-append t))

pub load_line-plain :
    (t : Bytes) (c : Config) (e : Bool)
    → IsPlain t
    → load_line (t ++ b'\n' ∷ []) (c, e) ≡ apply_lines (t ∷ []) c e
unfolding load_line
load_line-plain t c e p = rw (cstr-line t p.text, cut_newline-plain t p.one_line)

-- On a file of plain lines the loop is the specification.
pub load_lines-unlines :
    (fuel : ℕ) (ts : List Bytes) (c : Config) (e : Bool)
    → All IsPlain ts
    → length (unlines ts) < fuel
    → load_lines fuel (unlines ts) (c, e) ≡ apply_lines ts c e
unfolding load_lines
load_lines-unlines zero ts c e p h = absurd (omega arith)
load_lines-unlines (suc fuel) [] c e p h = unfold fgets in refl
load_lines-unlines (suc fuel) (t ∷ ts) c e p h =
    let room = length-append {0} t (b'\n' ∷ unlines ts) in
    rw
      (
        fgets-plain t (unlines ts) p.0,
        load_lines,
        is_truncated-plain t (unlines ts) p.0,
        load_line-plain t c e p.0,
      )
      (load_lines-unlines fuel ts _ _ p.1 (omega arith))

-- The loop's result as the result of the load; the flag is an error in the file.
abbrev pub outcome : Config × Bool → Bool → Code × Option Config
outcome (c, e) broken = (if e || broken then error_config else success, some c)

-- What `config_load` returns for a file, in terms of the loop: the reset to the defaults behind
-- the validation is never taken.
pub config_load-load_lines :
    (fopen : Bytes → Option File) (path : Bytes) (f : File) (c : Config)
    → is_empty path ≡ false
    → fopen path ≡ some f
    → IsSized c
    → config_load fopen (some path) (some c)
      ≡ outcome
          (load_lines (suc (length f.contents)) f.contents (config_set_defaults c, false))
          f.read_error
unfolding config_load load_file finish_load
config_load-load_lines fopen path f c p o s =
    rw (p, o, load_file)
      (rw
        (config_validate_valid _ (
          load_lines-IsValid (suc (length f.contents)) f.contents (config_set_defaults c) false
            (config_set_defaults-IsValid c s)))
        refl)

pub config_load-unlines :
    (fopen : Bytes → Option File) (path : Bytes) (ts : List Bytes) (c : Config)
    → is_empty path ≡ false
    → fopen path ≡ some (record { contents = unlines ts; read_error = false })
    → IsSized c
    → All IsPlain ts
    → config_load fopen (some path) (some c)
      ≡ outcome (apply_lines ts (config_set_defaults c) false) false
config_load-unlines fopen path ts c p o s plain =
    config_load-load_lines fopen path _ c p o s
    ∙ ap (λ r. outcome r false)
        (load_lines-unlines (suc (length (unlines ts))) ts (config_set_defaults c) false plain
          (omega arith))
