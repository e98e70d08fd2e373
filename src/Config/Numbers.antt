-- ===== src/Config/Numbers.antt =====
-- `atoi` as src/config.c uses it: decimal numbers are read back, and what else is accepted.
use kia.Base.{
  ℕ, zero, suc, ◌+◌, ◌-◌, ◌*◌, ◌/◌, ◌%◌, ◌^◌, ◌<◌, ◌≡◌, ◌≢◌, ap, ◌∙◌, true, false, [], ◌∷◌, arith,
  Bool-cases, inl, inr, ltb, pos,
}
use kia.Code.{success}
use kia.Text.{
  decimal_onto, decimal, Bytes, is_space, is_digit, atoi, atoi_signed, read_digits, skip_spaces,
  to_int, int_of_low,
}
use kia.Config.{Config, Key, apply_key}

read_digits-cons :
    (a n : ℕ) (rest : Bytes)
    → read_digits a ((b'0' + n % 10) ∷ rest) ≡ read_digits (a * 10 + n % 10) rest
unfolding read_digits is_digit
read_digits-cons a n rest =
    let same : a * 10 + (b'0' + n % 10 - b'0') ≡ a * 10 + n % 10 = omega arith in
    rw same (ground arith)

read_digits-decimal_onto :
    (f n : ℕ) (rest : Bytes) → n < f → read_digits 0 (decimal_onto f n rest) ≡ read_digits n rest
unfolding decimal_onto
read_digits-decimal_onto zero n rest h = absurd (omega arith)
read_digits-decimal_onto (suc f) n rest h = elim (Bool-cases (ltb n 10)) [
  | inl small ↦
      let same : 0 * 10 + n % 10 ≡ n = ground arith in
      rw small (read_digits-cons 0 n rest ∙ ap (λ a. read_digits a rest) same)
  | inr large ↦
      let fits : n / 10 < f = ground arith in
      let same : n / 10 * 10 + n % 10 ≡ n = omega arith in
      rw large (
        read_digits-decimal_onto f (n / 10) _ fits
        ∙ read_digits-cons (n / 10) n rest
        ∙ ap (λ a. read_digits a rest) same)
]

-- A text that starts with a digit.
abbrev pub StartsDigit : Bytes → Type 0
StartsDigit [] = ⊥
StartsDigit (c ∷ _) = is_digit c ≡ true

decimal_onto-StartsDigit : (f n : ℕ) (rest : Bytes) → n < f → StartsDigit (decimal_onto f n rest)
unfolding decimal_onto is_digit
decimal_onto-StartsDigit zero n rest h = absurd (omega arith)
decimal_onto-StartsDigit (suc f) n rest h =
    ground (arith, decimal_onto-StartsDigit f (n / 10) ((b'0' + n % 10) ∷ rest))

pub decimal-StartsDigit : (n : ℕ) → StartsDigit (decimal n)
unfolding decimal
decimal-StartsDigit n = decimal_onto-StartsDigit (suc n) n [] (omega arith)

to_int_small : (n : ℕ) → n < 2 ^ 31 → to_int false n ≡ pos n
unfolding to_int int_of_low
to_int_small n h = ground arith

atoi-StartsDigit : (s : Bytes) → StartsDigit s → atoi s ≡ to_int false (read_digits 0 s)
unfolding atoi atoi_signed skip_spaces is_digit is_space
atoi-StartsDigit [] h = absurd h
atoi-StartsDigit (c ∷ cs) h = ground arith

-- `atoi` reads back every number that an `int` can hold.
pub atoi-decimal : (n : ℕ) → n < 2 ^ 31 → atoi (decimal n) ≡ pos n
unfolding decimal read_digits
atoi-decimal n h =
    atoi-StartsDigit (decimal n) (decimal-StartsDigit n)
    ∙ ap (to_int false) (read_digits-decimal_onto (suc n) n [] (omega arith))
    ∙ to_int_small n h

-- A text that starts with none of a space, a digit or a sign.
abbrev pub StartsWord : Bytes → Type 0
StartsWord [] = ⊥
StartsWord (c ∷ _) = (is_space c ≡ false) × (is_digit c ≡ false) × (c ≢ b'-') × (c ≢ b'+')

-- A value of lockout_duration that begins with none of a space, a digit and a sign is taken as 0,
-- which switches the lockout off, and no error is reported.
pub apply_key_lockout_word :
    (v : Bytes) (c : Config)
    → StartsWord v
    → apply_key Key.lockout_duration v c ≡ (success, record c { lockout_duration = pos 0 })
unfolding apply_key atoi atoi_signed skip_spaces read_digits to_int
apply_key_lockout_word [] c h = absurd h
apply_key_lockout_word (x ∷ xs) c h = ground arith
