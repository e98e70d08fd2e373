-- ===== src/Text.antt =====
-- The C strings of the program and what it uses of <string.h>, <ctype.h> and <stdlib.h>.
-- A `char *` to a NUL-terminated string is the list of its bytes before the NUL; a `char` array
-- inside a structure is the list of all its bytes, and `cstr` reads the string that it holds.
pub mod Buffers
pub mod Scan
use Prim.Native.Char.{code}
use Prim.Native.String.{String}
use kia.Base.{
  ℕ, zero, suc, ◌+◌, ◌-◌, ◌*◌, ◌/◌, ◌%◌, ◌^◌, ◌<◌, ◌≡◌, Bool, true, false, ◌&&◌, ◌||◌, List, [],
  ◌∷◌, ◌++◌, All, length, set, drop, get_or, replicate, ltb, leb, ◌==◌, if◌then◌else◌, ℤ, pos,
  negsuc,
}

abbrev pub Bytes : Type 0
Bytes = List ℕ

-- The bytes of an ASCII literal.
abbrev pub codes : String → Bytes
codes String.[] = []
codes (String.◌∷◌ c s) = code c ∷ codes s

-- No NUL inside.
abbrev pub IsText : Bytes → Type 0
IsText = All (λ c. 0 < c)

unfoldable pub cstr : Bytes → Bytes
cstr [] = []
cstr (c ∷ cs) = if c == 0 then [] else c ∷ cstr cs

-- `strcmp(a, b) == 0`
unfoldable pub equal : Bytes → Bytes → Bool
equal [] [] = true
equal [] (d ∷ t) = false
equal (c ∷ s) [] = false
equal (c ∷ s) (d ∷ t) = c == d && equal s t

abbrev pub is_empty : Bytes → Bool
is_empty [] = true
is_empty (_ ∷ _) = false

-- `memset(p, 0, n)` over a whole array of n bytes
unfoldable pub zeros : ℕ → Bytes
unfolding replicate
zeros n = replicate n 0

-- The first n bytes that `strncpy` writes: the source, then NULs.
unfoldable pub pad : ℕ → Bytes → Bytes
pad zero s = []
pad (suc n) [] = 0 ∷ pad n []
pad (suc n) (c ∷ s) = c ∷ pad n s

unfoldable pub strncpy : Bytes → Bytes → ℕ → Bytes
unfolding pad drop
strncpy dst src n = pad n src ++ drop n dst

-- `strncpy(dst, src, size - 1); dst[size - 1] = '\0';`
unfoldable pub copy_string : ℕ → Bytes → Bytes → Bytes
unfolding strncpy set
copy_string size dst src = set (strncpy dst src (size - 1)) (size - 1) 0

-- An array of `size` bytes that holds a terminated string.
pub record IsBuffer (size : ℕ) (b : Bytes) : Type 0 where
  pub sized : length b ≡ size
  pub terminated : length (cstr b) < size

-- `isspace` in the C locale
unfoldable pub is_space : ℕ → Bool
is_space c = c == b' ' || (leb 9 c && leb c 13)

unfoldable pub is_digit : ℕ → Bool
is_digit c = leb b'0' c && leb c b'9'

unfoldable pub skip_spaces : Bytes → Bytes
unfolding is_space
skip_spaces [] = []
skip_spaces (c ∷ cs) = let rest = skip_spaces cs in if is_space c then rest else c ∷ cs

-- The value of the leading digits.
unfoldable pub read_digits : ℕ → Bytes → ℕ
unfolding is_digit
read_digits acc [] = acc
read_digits acc (c ∷ cs) =
    let rest = read_digits (acc * 10 + (c - b'0')) cs in if is_digit c then rest else acc

-- The conversion of `long` to `int`, which keeps the low 32 bits.
unfoldable pub int_of_low : ℕ → ℤ
int_of_low r = if ltb r (2 ^ 31) then pos r else negsuc (2 ^ 32 - r - 1)

abbrev cap : ℕ → ℕ → ℕ
cap most n = if ltb most n then most else n

-- `atoi` of glibc is `(int) strtol(s, NULL, 10)`: `strtol` stops at the range of `long`.
unfoldable pub to_int : Bool → ℕ → ℤ
unfolding int_of_low
to_int negative n =
    if negative
    then int_of_low ((2 ^ 32 - cap (2 ^ 63) n % 2 ^ 32) % 2 ^ 32)
    else int_of_low (cap (2 ^ 63 - 1) n % 2 ^ 32)

unfoldable pub atoi_signed : Bytes → ℤ
unfolding read_digits to_int
atoi_signed [] = pos 0
atoi_signed (c ∷ cs) =
    if c == b'-'
    then to_int true (read_digits 0 cs)
    else if c == b'+'
    then to_int false (read_digits 0 cs)
    else to_int false (read_digits 0 (c ∷ cs))

unfoldable pub atoi : Bytes → ℤ
unfolding atoi_signed skip_spaces
atoi s = atoi_signed (skip_spaces s)

-- The decimal digits of n in front of `rest`; any fuel above n is enough.
unfoldable pub decimal_onto : ℕ → ℕ → Bytes → Bytes
decimal_onto zero n rest = rest
decimal_onto (suc f) n rest =
    let more = decimal_onto f (n / 10) ((b'0' + n % 10) ∷ rest) in
    if ltb n 10 then (b'0' + n % 10) ∷ rest else more

unfoldable pub decimal : ℕ → Bytes
unfolding decimal_onto
decimal n = decimal_onto (suc n) n []
