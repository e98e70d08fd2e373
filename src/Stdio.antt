-- ===== src/Stdio.antt =====
-- What the program uses of <stdio.h> to read a file by lines, and its idiom for a line that does
-- not fit the buffer, which src/config.c and src/session.c share.
pub mod Lines
use kia.Base.{
  ℕ, zero, suc, ◌-◌, Bool, true, false, not, ◌&&◌, List, [], ◌∷◌, Option, none, some, ltb, ◌==◌,
  if◌then◌else◌, length,
}
use kia.Text.{Bytes, cstr}

-- A file open for reading: what is left of it, and whether `ferror` is set at the end.
pub record File : Type 0 where
  pub contents : Bytes
  pub read_error : Bool

-- One call of `fgets`: the line, what is left of the file, and `feof`.
pub record Line : Type 0 where
  pub text : Bytes
  pub rest : Bytes
  pub at_eof : Bool

-- The bytes up to a newline, or as many as there is room for.
unfoldable pub read_line : ℕ → Bytes → Line
read_line zero s = record { text = []; rest = s; at_eof = false }
read_line (suc room) [] = record { text = []; rest = []; at_eof = true }
read_line (suc room) (c ∷ cs) =
    let more = read_line room cs in
    if c == b'\n'
    then record { text = c ∷ []; rest = cs; at_eof = false }
    else record more { text = c ∷ more.text }

-- `none` is NULL: nothing was left.
unfoldable pub fgets : ℕ → Bytes → Option Line
unfolding read_line
fgets size [] = none
fgets size (c ∷ cs) = some (read_line (size - 1) (c ∷ cs))

-- `while ((ch = fgetc(file)) != EOF && ch != '\n') {}`
unfoldable pub skip_line : Bytes → Bytes
skip_line [] = []
skip_line (c ∷ cs) = let rest = skip_line cs in if c == b'\n' then cs else rest

unfoldable pub ends_line : Bytes → Bool
ends_line [] = false
ends_line (c ∷ []) = c == b'\n'
ends_line (c ∷ d ∷ cs) = ends_line (d ∷ cs)

-- `len > 0 && line[len - 1] != '\n' && !feof(file)`, where `len = strlen(line)`
unfoldable pub is_truncated : Line → Bool
unfolding ends_line cstr
is_truncated l = ltb 0 (length (cstr l.text)) && not (ends_line (cstr l.text)) && not l.at_eof
