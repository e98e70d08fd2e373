-- ===== src/Stdio/Lines.antt =====
-- A file is used up by reading it, and a short line is read whole.
use kia.Base.{
  ℕ, zero, suc, ◌≤◌, ◌<◌, ◌≡◌, ◌≢◌, refl, true, false, [], ◌∷◌, ◌++◌, some, All, length, arith,
  take, drop,
}
use kia.Text.{Bytes}
use kia.Stdio.{Line, read_line, fgets, skip_line, ends_line}

pub length-skip_line : (s : Bytes) → length (skip_line s) ≤ length s
unfolding skip_line
length-skip_line [] = omega arith
length-skip_line (c ∷ cs) = ground (arith, length-skip_line cs)

length-read_line : (room : ℕ) (s : Bytes) → length (read_line room s).rest ≤ length s
unfolding read_line
length-read_line zero s = omega arith
length-read_line (suc room) [] = omega arith
length-read_line (suc room) (c ∷ cs) = ground (arith, length-read_line room cs)

-- Each call of `fgets` that returns a line shortens the file.
pub fgets_shortens :
    (n : ℕ) (s : Bytes) {l : Line} → fgets (suc (suc n)) s ≡ some l → length l.rest < length s
unfolding fgets read_line
fgets_shortens n [] h = cc
fgets_shortens n (c ∷ cs) {l} h = ground (arith, length-read_line n cs)

-- A text with no newline in it.
abbrev pub IsOneLine : Bytes → Type 0
IsOneLine = All (λ c. c ≢ b'\n')

pub read_line_whole :
    (room : ℕ) (t rest : Bytes)
    → IsOneLine t
    → length t < room
    → read_line room (t ++ b'\n' ∷ rest)
      ≡ record { text = t ++ b'\n' ∷ []; rest = rest; at_eof = false }
unfolding read_line
read_line_whole zero t rest o h = absurd (omega arith)
read_line_whole (suc room) [] rest o h = refl
read_line_whole (suc room) (c ∷ t) rest o h =
    ground (arith, read_line_whole room t rest o.1 (omega arith))

-- A line that does not fit is read as far as there is room.
pub read_line_cut :
    (room : ℕ) (t rest : Bytes)
    → IsOneLine t
    → room ≤ length t
    → read_line room (t ++ rest)
      ≡ record { text = take room t; rest = drop room t ++ rest; at_eof = false }
unfolding read_line take drop
read_line_cut zero t rest o h = refl
read_line_cut (suc room) [] rest o h = absurd (omega arith)
read_line_cut (suc room) (c ∷ t) rest o h =
    ground (arith, read_line_cut room t rest o.1 (omega arith))

-- The last line of a file may have no newline.
pub read_line_last :
    (room : ℕ) (t : Bytes)
    → IsOneLine t
    → length t < room
    → read_line room t ≡ record { text = t; rest = []; at_eof = true }
unfolding read_line
read_line_last zero t o h = absurd (omega arith)
read_line_last (suc room) [] o h = refl
read_line_last (suc room) (c ∷ t) o h = ground (arith, read_line_last room t o.1 (omega arith))

pub skip_line_rest : (t rest : Bytes) → IsOneLine t → skip_line (t ++ b'\n' ∷ rest) ≡ rest
unfolding skip_line
skip_line_rest [] rest o = refl
skip_line_rest (c ∷ t) rest o = ground (arith, skip_line_rest t rest o.1)

pub skip_line_end : (t : Bytes) → IsOneLine t → skip_line t ≡ []
unfolding skip_line
skip_line_end [] o = refl
skip_line_end (c ∷ t) o = ground (arith, skip_line_end t o.1)

pub ends_line_not : (t : Bytes) → IsOneLine t → ends_line t ≡ false
unfolding ends_line
ends_line_not [] o = refl
ends_line_not (c ∷ []) o = ground (arith, o.0)
ends_line_not (c ∷ d ∷ t) o = ends_line_not (d ∷ t) o.1
