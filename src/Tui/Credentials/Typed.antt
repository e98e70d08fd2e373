-- ===== src/Tui/Credentials/Typed.antt =====
-- What the arrays of `tui_get_credentials` of src/tui.c hold, whatever was typed.
use kia.Base.{ℕ, ◌≤◌, ◌<◌, ◌≡◌, ap, sym, subst, true, false, List, [], ◌∷◌, some, length, arith}
use kia.Code.{Code}
use kia.Text.{Bytes, IsText, cstr, pad}
use kia.Text.Buffers.{cstr-pad}
use kia.Tui.{Turn, Screen, too_small}
use kia.Tui.Credentials.{max_typed, tui_get_credentials}
use kia.Tui.Credentials.Texts.{IsPrintable, enter_texts, enter_texts-IsTyped, no_texts}
use kia.Tui.Credentials.Refinement.{tui_get_credentials-enter_texts}

pub IsPrintable-IsText : (t : Bytes) → IsPrintable t → IsText t
IsPrintable-IsText [] h = tt
IsPrintable-IsText (c ∷ t) h = (omega (arith, h.0), IsPrintable-IsText t h.1)

-- The array holds a string of at most 20 printable bytes.
pub record HoldsTyped (array : Bytes) : Type 0 where
  pub printable : IsPrintable (cstr array)
  pub short : length (cstr array) ≤ max_typed

pad-HoldsTyped :
    (n : ℕ) (t : Bytes)
    → IsPrintable t
    → length t ≤ max_typed
    → max_typed < n
    → HoldsTyped (pad n t)
pad-HoldsTyped n t h short room =
    let same = cstr-pad n t (IsPrintable-IsText t h) (omega arith) in
    record { printable = subst IsPrintable (sym same) h; short = omega (arith, ap length same) }

-- With a screen that has started and is large enough, and arrays of more than 20 bytes, both arrays
-- hold strings of at most 20 printable bytes when `tui_get_credentials` returns, whatever keys were
-- pressed and whether or not it succeeds.
pub tui_get_credentials-HoldsTyped :
    (screen : Screen) (ts : List Turn) (u p : Bytes) (user_len pass_len : ℕ)
    → max_typed < user_len
    → max_typed < pass_len
    → screen.started ≡ true
    → too_small screen 10 50 ≡ false
    → (code : Code) × (u' p' : Bytes) × ((tui_get_credentials screen ts
          (some u)
          user_len
          (some p)
          pass_len).0
        ≡ (code, some u', some p'))
      × HoldsTyped u'
      × HoldsTyped p'
tui_get_credentials-HoldsTyped screen ts u p user_len pass_len hu hp started large =
    let e = (enter_texts user_len pass_len ts no_texts).1 in
    let typed = enter_texts-IsTyped user_len pass_len ts no_texts (record {
      user_printable = tt;
      secret_printable = tt;
      user_short = omega arith;
      secret_short = omega arith;
    }) in
    (
      (enter_texts user_len pass_len ts no_texts).0,
      pad user_len e.user,
      pad pass_len e.secret,
      tui_get_credentials-enter_texts screen ts u p user_len pass_len (omega arith) (omega arith)
          started large,
      pad-HoldsTyped user_len e.user typed.user_printable typed.user_short hu,
      pad-HoldsTyped pass_len e.secret typed.secret_printable typed.secret_short hp,
    )
