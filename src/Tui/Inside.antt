-- ===== src/Tui/Inside.antt =====
-- The calls of ncurses in src/tui.c that stay inside the screen.
use kia.Base.{ℕ, ◌+◌, ◌-◌, ◌≤◌, ◌<◌, ◌≡◌, length, length-append, length-replicate, arith, replicate}
use kia.Text.{Bytes}
use kia.Effect.{Effect, mvprintw, move, screen}
use kia.Tui.{Screen, pad_right}

-- A text stands in one row, and the cursor on a cell; the other calls draw nothing.
abbrev pub IsInside : Screen → Effect → Type 0
IsInside s (screen (mvprintw row col text)) = (row < s.max_y) × (col + length text ≤ s.max_x)
IsInside s (screen (move row col)) = (row < s.max_y) × (col < s.max_x)
IsInside s _ = Unit {0}

pub length-pad_right : (n : ℕ) (t : Bytes) → length t ≤ n → length (pad_right n t) ≡ n
unfolding pad_right
length-pad_right n t h = omega (
  arith,
  length-append {A = ℕ} t (replicate (n - length t) b' '),
  length-replicate {A = ℕ} (n - length t) b' ',
)
