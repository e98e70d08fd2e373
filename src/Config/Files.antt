-- ===== src/Config/Files.antt =====
-- The loop of `config_load` in src/config.c on a whole file: lines of any length, and a last one
-- without its newline.
use kia.Base.{
  ℕ, zero, suc, ◌≤◌, ◌<◌, ◌≡◌, ◌≢◌, refl, ap, ◌∙◌, Bool, true, false, List, [], ◌∷◌, ◌++◌, Option,
  some, take, drop, length, All, ltb, length-append, length-take, arith, Bool-cases, inl, inr,
  if◌then◌else◌, subst, append-nil,
}
use kia.Text.{Bytes, IsText, is_empty}
use kia.Text.Buffers.{cstr_of_text}
use kia.Stdio.{File, Line, fgets, skip_line, is_truncated}
use kia.Stdio.Lines.{
  IsOneLine, read_line_cut, read_line_last, skip_line_rest, skip_line_end, ends_line_not,
}
use kia.Config.Bounds.{IsSized}
use kia.Config.Spec.{
  IsPlain, apply_lines, outcome, fgets-plain, is_truncated-plain, load_line-plain,
  config_load-load_lines,
}
use kia.Config.{
  Config, line_size, config_set_defaults, cut_newline, load_line, load_lines, config_load,
}

-- A line of any length, with no NUL or line end inside.
pub record IsLine (t : Bytes) : Type 0 where
  pub text : IsText t
  pub one_line : All (λ c. (c ≢ b'\n') × (c ≢ b'\r')) t

-- Lines with their newline, and what stands behind the last newline.
abbrev pub file_of : List Bytes → Bytes → Bytes
file_of [] last = last
file_of (t ∷ ts) last = t ++ b'\n' ∷ file_of ts last

-- The specification of one line: it is applied if it is short, and else it is an error.
abbrev pub apply_line : Bytes → Config → Bool → Config × Bool
apply_line t c e = if ltb (length t) 1023 then apply_lines (t ∷ []) c e else (c, true)

-- The specification of a file: all lines in their order, the last one if it is not empty.
abbrev pub apply_file : List Bytes → Bytes → Config → Bool → Config × Bool
apply_file [] last c e = if is_empty last then (c, e) else apply_line last c e
apply_file (t ∷ ts) last c e = let r = apply_line t c e in apply_file ts last r.0 r.1

IsOneLine-line : (t : Bytes) → IsLine t → IsOneLine t
IsOneLine-line [] h = tt
IsOneLine-line (c ∷ t) h =
    (h.one_line.0.0, IsOneLine-line t (record { text = h.text.1; one_line = h.one_line.1 }))

take-IsLine : (n : ℕ) (t : Bytes) → IsLine t → IsLine (take n t)
unfolding take
take-IsLine zero t h = record { text = tt; one_line = tt }
take-IsLine (suc n) [] h = record { text = tt; one_line = tt }
take-IsLine (suc n) (c ∷ t) h =
    let rest = take-IsLine n t (record { text = h.text.1; one_line = h.one_line.1 }) in
    record { text = (h.text.0, rest.text); one_line = (h.one_line.0, rest.one_line) }

drop-IsOneLine : (n : ℕ) (t : Bytes) → IsOneLine t → IsOneLine (drop n t)
unfolding drop
drop-IsOneLine zero t o = o
drop-IsOneLine (suc n) [] o = tt
drop-IsOneLine (suc n) (c ∷ t) o = drop-IsOneLine n t o.1

cut_newline-line : (t : Bytes) → IsLine t → cut_newline t ≡ t
unfolding cut_newline
cut_newline-line [] h = refl
cut_newline-line (c ∷ t) h =
    let rest = cut_newline-line t (record { text = h.text.1; one_line = h.one_line.1 }) in
    ground (arith, rest, h.one_line.0)

-- The first 1023 bytes of a line that does not fit.
abbrev cut_of : Bytes → Bytes → Line
cut_of t rest = record { text = take 1023 t; rest = drop 1023 t ++ rest; at_eof = false }

fgets-cut :
    (t rest : Bytes)
    → IsLine t
    → 1023 ≤ length t
    → fgets line_size (t ++ rest) ≡ some (cut_of t rest)
unfolding fgets
fgets-cut [] rest p h = absurd (omega arith)
fgets-cut (c ∷ t) rest p h = ap some (read_line_cut 1023 (c ∷ t) rest (IsOneLine-line (c ∷ t) p) h)

is_truncated-cut :
    (t rest : Bytes) → IsLine t → 1023 ≤ length t → is_truncated (cut_of t rest) ≡ true
unfolding is_truncated
is_truncated-cut t rest p h =
    let cut = take-IsLine 1023 t p in
    rw (cstr_of_text (take 1023 t) cut.text, ends_line_not (take 1023 t) (IsOneLine-line _ cut))
      (ground (arith, length-take 1023 t))

-- The last line, without a newline.
abbrev last_of : Bytes → Line
last_of t = record { text = t; rest = []; at_eof = true }

fgets-last :
    (t : Bytes)
    → is_empty t ≡ false
    → IsLine t
    → length t < 1023
    → fgets line_size t ≡ some (last_of t)
unfolding fgets
fgets-last [] n p h = absurd (ground arith)
fgets-last (c ∷ t) n p h = ap some (read_line_last 1023 (c ∷ t) (IsOneLine-line (c ∷ t) p) h)

is_truncated-last : (t : Bytes) → is_truncated (last_of t) ≡ false
unfolding is_truncated
is_truncated-last t = ground arith

load_line-last :
    (t : Bytes) (c : Config) (e : Bool) → IsLine t → load_line t (c, e) ≡ apply_lines (t ∷ []) c e
unfolding load_line
load_line-last t c e p = rw (cstr_of_text t p.text, cut_newline-line t p) refl

load_lines-end : (fuel : ℕ) (c : Config) (e : Bool) → load_lines fuel [] (c, e) ≡ (c, e)
unfolding load_lines
load_lines-end zero c e = refl
load_lines-end (suc fuel) c e = unfold fgets in refl

-- A line that does not fit is skipped, and sets the flag.
load_lines-cut :
    (fuel : ℕ) (t rest : Bytes) (c : Config) (e : Bool)
    → IsLine t
    → 1023 ≤ length t
    → load_lines (suc fuel) (t ++ rest) (c, e)
      ≡ load_lines fuel (skip_line (drop 1023 t ++ rest)) (c, true)
unfolding load_lines
load_lines-cut fuel t rest c e p h =
    rw (fgets-cut t rest p h, load_lines, is_truncated-cut t rest p h) refl

load_lines-plain :
    (fuel : ℕ) (t rest : Bytes) (c : Config) (e : Bool)
    → IsLine t
    → length t < 1023
    → load_lines (suc fuel) (t ++ b'\n' ∷ rest) (c, e)
      ≡ load_lines fuel rest (apply_lines (t ∷ []) c e)
unfolding load_lines
load_lines-plain fuel t rest c e p h =
    let plain : IsPlain t = record { text = p.text; one_line = p.one_line; fits = h } in
    rw
      (
        fgets-plain t rest plain,
        load_lines,
        is_truncated-plain t rest plain,
        load_line-plain t c e plain,
      )
      refl

load_lines-last_short :
    (fuel : ℕ) (t : Bytes) (c : Config) (e : Bool)
    → is_empty t ≡ false
    → IsLine t
    → length t < 1023
    → load_lines (suc fuel) t (c, e) ≡ load_lines fuel [] (apply_lines (t ∷ []) c e)
unfolding load_lines
load_lines-last_short fuel t c e n p h =
    rw (fgets-last t n p h, load_lines, is_truncated-last t, load_line-last t c e p) refl

load_lines-last :
    (fuel x : ℕ) (xs : Bytes) (c : Config) (e : Bool)
    → IsLine (x ∷ xs)
    → load_lines (suc fuel) (x ∷ xs) (c, e) ≡ apply_line (x ∷ xs) c e
load_lines-last fuel x xs c e p = elim (Bool-cases (ltb (length (x ∷ xs)) 1023)) [
  | inl short ↦
      rw short
        (load_lines-last_short fuel (x ∷ xs) c e refl p (ground arith) ∙ load_lines-end fuel _ _)
  | inr long ↦ rw long (
      subst
        (λ s.
          load_lines (suc fuel) s (c, e)
          ≡ load_lines fuel (skip_line (drop 1023 (x ∷ xs) ++ [])) (c, true))
        (append-nil (x ∷ xs)) (load_lines-cut fuel (x ∷ xs) [] c e p (ground arith))
      ∙ ap (λ s. load_lines fuel s (c, true))
          (ap skip_line (append-nil (drop 1023 (x ∷ xs)))
            ∙ skip_line_end (drop 1023 (x ∷ xs))
                (drop-IsOneLine 1023 (x ∷ xs) (IsOneLine-line (x ∷ xs) p)))
      ∙ load_lines-end fuel c true)
]

load_lines-file :
    (fuel : ℕ) (ts : List Bytes) (last : Bytes) (c : Config) (e : Bool)
    → All IsLine ts
    → IsLine last
    → length (file_of ts last) < fuel
    → load_lines fuel (file_of ts last) (c, e) ≡ apply_file ts last c e
load_lines-file zero ts last c e p q h = absurd (omega arith)
load_lines-file (suc fuel) [] [] c e p q h = load_lines-end (suc fuel) c e
load_lines-file (suc fuel) [] (x ∷ xs) c e p q h = load_lines-last fuel x xs c e q
load_lines-file (suc fuel) (t ∷ ts) last c e (p, ps) q h =
    let rest = file_of ts last in
    let room : length rest < fuel = omega (arith, length-append {0} t (b'\n' ∷ rest)) in
    elim (Bool-cases (ltb (length t) 1023)) [
      | inl short ↦ rw short (
          load_lines-plain fuel t rest c e p (ground arith)
          ∙ load_lines-file fuel ts last _ _ ps q room)
      | inr long ↦ rw long (
          load_lines-cut fuel t (b'\n' ∷ rest) c e p (ground arith)
          ∙ ap (λ s. load_lines fuel s (c, true))
              (skip_line_rest (drop 1023 t) rest (drop-IsOneLine 1023 t (IsOneLine-line t p)))
          ∙ load_lines-file fuel ts last c true ps q room)
    ]

-- The loop over a file ends behind its last line, and what it has done is the specification:
-- every line shorter than 1023 bytes is applied in its order, a longer one is skipped to its end
-- and makes the load an error, and so for the last line if it has no newline. The lines hold no
-- NUL and no line end; the path is not empty, the file opens, and the arrays of the configuration
-- have their declared sizes. A read error makes the load an error.
pub config_load-file_of :
    (fopen : Bytes → Option File) (path : Bytes) (ts : List Bytes) (last : Bytes)
    (read_error : Bool) (c : Config)
    → is_empty path ≡ false
    → fopen path ≡ some (record { contents = file_of ts last; read_error = read_error })
    → IsSized c
    → All IsLine ts
    → IsLine last
    → config_load fopen (some path) (some c)
      ≡ outcome (apply_file ts last (config_set_defaults c) false) read_error
config_load-file_of fopen path ts last read_error c p o s lines end =
    config_load-load_lines fopen path _ c p o s
    ∙ ap (λ r. outcome r read_error)
        (load_lines-file (suc (length (file_of ts last))) ts last (config_set_defaults c) false
          lines end (omega arith))
