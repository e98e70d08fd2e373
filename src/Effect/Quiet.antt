-- ===== src/Effect/Quiet.antt =====
-- Calls that take nothing of the terminal's lock and of PAM, and give nothing of them back.
use kia.Base.{◌≡◌, Bool, true, false, ◌&&◌, arith, List, [], ◌∷◌, ◌++◌}
use kia.Effect.{
  Effect, tty_opened, vt_locked, vt_unlocked, descriptor_closed, pam_started, pam_authenticated,
  pam_account_checked, pam_ended,
}

abbrev pub is_quiet : Effect → Bool
is_quiet (tty_opened _) = false
is_quiet (vt_locked _) = false
is_quiet (vt_unlocked _) = false
is_quiet (descriptor_closed _) = false
is_quiet (pam_started _ _) = false
is_quiet (pam_authenticated _) = false
is_quiet (pam_account_checked _) = false
is_quiet (pam_ended _ _) = false
is_quiet _ = true

abbrev pub quiet : List Effect → Bool
quiet [] = true
quiet (e ∷ es) = is_quiet e && quiet es

abbrev pub IsQuiet : List Effect → Type 0
IsQuiet es = quiet es ≡ true

pub IsQuiet-append : (es fs : List Effect) → IsQuiet es → IsQuiet fs → IsQuiet (es ++ fs)
IsQuiet-append [] fs he hf = hf
IsQuiet-append (e ∷ es) fs he hf =
    let tail : IsQuiet (es ++ fs) = IsQuiet-append es fs (ground arith) hf in ground (arith, tail)
