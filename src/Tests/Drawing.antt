-- ===== src/Tests/Drawing.antt =====
-- What src/tui.c draws, on concrete screens.
use kia.Base.{
  ◌≡◌, refl, ℕ, zero, suc, [], some, arith, All, replicate, length-replicate, take, true,
}
use kia.Text.Buffers.{cstr-IsText}
use kia.Text.{Bytes, codes, zeros, cstr, pad}
use kia.Session.Discover.{SessionList}
use kia.Tui.{Screen}
use kia.Tui.Inside.{IsInside}
use kia.Tui.Credentials.{username_field, tui_get_credentials}
use kia.Tui.Credentials.Secrecy.{tui_get_credentials-hide}
use kia.Tui.Credentials.Secrecy.Hidden.{hide}
use kia.Tui.Credentials.Inside.{tui_get_credentials-IsInside}
use kia.Tui.Menu.{draw_menu, start_row}
use kia.Tui.Menu.Rows.{marks, IsNamed, marks-draw_menu}
use kia.Tui.Drawing.{tui_show_error, tui_show_message}
use kia.Tui.Drawing.Messages.{IsShown, placed, tui_show_error-IsShown}
use kia.Tests.Program.{xfce}
use kia.Tests.Screens.{screen, typing}

tui_get_credentials-hide_example :
    let shown =
      tui_get_credentials screen
        (hide username_field typing)
        (some (zeros 256))
        256
        (some (zeros 256))
        256 in
    let real = tui_get_credentials screen typing (some (zeros 256)) 256 (some (zeros 256)) 256 in
    (shown.0.0 ≡ real.0.0) × (shown.0.1 ≡ real.0.1) × (shown.1 ≡ real.1)
tui_get_credentials-hide_example =
    tui_get_credentials-hide screen typing (some (zeros 256)) 256 (some (zeros 256)) 256

tui_get_credentials-IsInside_example :
    All
      (IsInside screen)
      (tui_get_credentials screen typing (some (zeros 256)) 256 (some (zeros 256)) 256).1
tui_get_credentials-IsInside_example =
    tui_get_credentials-IsInside screen typing (some (zeros 256)) 256 (some (zeros 256)) 256

-- More sessions than there are rows.
abbrev many : SessionList
many = record { sessions = some (replicate 30 xfce); count = 30 }

named : (n : ℕ) → All IsNamed (replicate n xfce)
unfolding replicate cstr pad
named zero = tt
named (suc n) = (refl, named n)

marks-draw_menu_example : marks (draw_menu screen many 22).1 ≡ []
unfolding start_row
marks-draw_menu_example =
    marks-draw_menu screen many (replicate 30 xfce) 22 refl
      (omega (arith, length-replicate 30 xfce)) (named 30) (omega arith)

abbrev narrow : Screen
narrow = record { started = true; max_y = 24; max_x = 40; colors = true }

abbrev long : Bytes
long = codes "No sessions available. Please install a desktop environment."

tui_show_error-IsShown_example :
    IsShown narrow (placed narrow long) (tui_show_error narrow (some long)).1
    × IsShown narrow (placed narrow long) (tui_show_message narrow (some long)).1
unfolding cstr
tui_show_error-IsShown_example =
    tui_show_error-IsShown narrow long (cstr-IsText long) refl refl refl

cut : (placed narrow long).text ≡ codes "No sessions available. Please install..."
unfolding take
cut = refl
