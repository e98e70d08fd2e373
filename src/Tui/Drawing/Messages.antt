-- ===== src/Tui/Drawing/Messages.antt =====
-- How a message of src/tui.c fits the screen.
use Prim.Native.Nat.{min}
use kia.Base.{
  ℕ, ◌+◌, ◌-◌, ◌≤◌, ◌<◌, ◌≡◌, refl, true, false, List, [], ◌∷◌, ◌++◌, some, length, length-append,
  length-take, ltb, leb, if◌then◌else◌, arith, Bool-cases, inl, inr, take, All,
}
use kia.Text.{Bytes, codes, cstr, IsText, is_empty, strncpy, zeros}
use kia.Text.Buffers.{cstr-set, length-zeros}
use kia.Effect.{Effect, screen, mvprintw, move, clrtoeol, refresh, napms, ◌>>◌}
use kia.Tui.{Screen, centred, too_small, draw, print_in}
use kia.Tui.Inside.{IsInside}
use kia.Tui.Drawing.{
  line_size, message_room, cut_message, draw_message, show_text, tui_show_error, tui_show_message,
  color_error, color_message,
}

pub record Print : Type 0 where
  pub row : ℕ
  pub col : ℕ
  pub text : Bytes

-- The texts that are printed, in order.
abbrev pub prints : List Effect → List Print
prints [] = []
prints (screen (mvprintw row col text) ∷ es) =
    record { row = row; col = col; text = text } ∷ prints es
prints (_ ∷ es) = prints es

-- A text that is too wide keeps what fits beside the dots, and no more than 511 bytes.
abbrev pub fitted : ℕ → Bytes → Bytes
fitted width m = if leb (length m) width then m else take (min (width - 3) 511) m ++ codes "..."

-- Where a message stands: centred if it is whole, and else at the left.
abbrev pub placed : Screen → Bytes → Print
placed s m = record {
  row = s.max_y - 3;
  col = if leb (length m) s.max_x then centred s (length m) else 0;
  text = fitted s.max_x m;
}

cstr-cut_message :
    (m : Bytes) (n : ℕ) → IsText m → n < line_size → cstr (cut_message m n) ≡ take n m
unfolding cut_message strncpy
cstr-cut_message m n h small =
    cstr-set n (zeros line_size) m (omega (arith, length-zeros line_size)) h

-- One text is printed, and nothing leaves the screen.
pub record IsShown (s : Screen) (p : Print) (es : List Effect) : Type 0 where
  pub once : prints es ≡ p ∷ []
  pub inside : All (IsInside s) es

one_line :
    (pair delay : ℕ) (s : Screen) (col : ℕ) (text : Bytes)
    → 3 ≤ s.max_y
    → 0 < s.max_x
    → col + length text ≤ s.max_x
    → IsShown s
        (record { row = s.max_y - 3; col = col; text = text })
        (do
          draw (move (s.max_y - 3) 0)
          draw clrtoeol
          print_in s pair (s.max_y - 3) col text
          draw refresh
          draw (napms delay)).1
one_line pair delay s col text tall wide fits =
    let row : s.max_y - 3 < s.max_y = omega arith in
    elim (Bool-cases s.colors) [
      | inl coloured ↦ rw coloured (record {
        once = refl;
        inside = ((row, wide), (tt, (tt, ((row, fits), (tt, (tt, (tt, tt)))))));
      })
      | inr plain ↦
          rw plain
            (record { once = refl; inside = ((row, wide), (tt, ((row, fits), (tt, (tt, tt))))) })
    ]

room_is : (s : Screen) → message_room s ≡ min (s.max_x - 3) 511
unfolding message_room
room_is s = ground arith

dotted_fits :
    (width : ℕ) (m : Bytes)
    → 3 ≤ width
    → length (take (min (width - 3) 511) m ++ codes "...") ≤ width
dotted_fits width m wide = omega (
  arith,
  length-append (take (min (width - 3) 511) m) (codes "..."),
  length-take (min (width - 3) 511) m,
)

draw_message-IsShown :
    (pair delay : ℕ) (s : Screen) (m : Bytes)
    → IsText m
    → 3 ≤ s.max_y
    → 10 ≤ s.max_x
    → IsShown s (placed s m) (draw_message pair delay s m).1
unfolding draw_message
draw_message-IsShown pair delay s m text tall wide = elim (Bool-cases (leb (length m) s.max_x)) [
  | inl fits ↦
      let whole : ltb s.max_x (length m) ≡ false = ground arith in
      rw (whole, fits)
        (one_line pair delay s (centred s (length m)) m tall (omega arith) (ground arith))
  | inr long ↦
      let cut : ltb s.max_x (length m) ≡ true = ground arith in
      let room = min (s.max_x - 3) 511 in
      rw (cut, long, room_is s, cstr-cut_message m room text (omega arith))
        (one_line pair delay s 0 (take room m ++ codes "...") tall (omega arith)
          (omega (arith, dotted_fits s.max_x m (omega arith))))
]

show_text-IsShown :
    (pair delay : ℕ) (s : Screen) (m : Bytes)
    → IsText m
    → is_empty m ≡ false
    → s.started ≡ true
    → too_small s 3 10 ≡ false
    → IsShown s (placed s m) (show_text pair delay s (some m)).1
unfolding show_text
show_text-IsShown pair delay s m text filled on large =
    simp (filled, on, large)
      (draw_message-IsShown pair delay s m text (ground arith) (ground arith))

-- On a screen that has started and is large enough, an error or another message that is not empty
-- is printed once, three rows above the bottom: centred and whole if it fits the width, and else
-- its first bytes, as many as fit beside three dots and 511 at most, with the dots behind them.
-- It stands inside the screen in one row.
pub tui_show_error-IsShown :
    (s : Screen) (m : Bytes)
    → IsText m
    → is_empty m ≡ false
    → s.started ≡ true
    → too_small s 3 10 ≡ false
    → IsShown s (placed s m) (tui_show_error s (some m)).1
      × IsShown s (placed s m) (tui_show_message s (some m)).1
unfolding tui_show_error tui_show_message
tui_show_error-IsShown s m text filled on large = (
  show_text-IsShown color_error 2000 s m text filled on large,
  show_text-IsShown color_message 1500 s m text filled on large,
)
