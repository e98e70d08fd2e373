-- ===== src/Tui/Credentials/Arrays.antt =====
-- An array of `tui_get_credentials` in src/tui.c that holds a text and zeros behind it.
use kia.Base.{
  ℕ, zero, suc, ◌+◌, ◌-◌, ◌<◌, ◌≡◌, refl, ap, sym, ◌∙◌, Bool, true, false, ◌&&◌, [], ◌∷◌, ◌++◌, set,
  ltb, length, length-append, arith,
}
use kia.Text.{Bytes, zeros, pad}
use kia.Text.Buffers.{zeros-pad}
use kia.Tui.Credentials.{Fields, max_typed}
use kia.Tui.Credentials.Texts.{Entry, drop_last, add_last, length-drop_last}

-- The array holds the text, and nothing but zeros behind it.
pub record Holds (size : ℕ) (t array : Bytes) (pos : ℕ) : Type 0 where
  pub array_is : array ≡ pad size t
  pub pos_is : pos ≡ length t
  pub room : length t < size

pub record Represents (user_len pass_len : ℕ) (e : Entry) (f : Fields) : Type 0 where
  pub same_field : f.field ≡ e.field
  pub user_holds : Holds user_len e.user f.username f.username_pos
  pub secret_holds : Holds pass_len e.secret f.password f.password_pos

set-pad_end : (n : ℕ) (t : Bytes) → length t < n → set (pad n t) (length t) 0 ≡ pad n t
unfolding set pad
set-pad_end zero t h = absurd (omega arith)
set-pad_end (suc n) [] h = refl
set-pad_end (suc n) (c ∷ t) h = ap (◌∷◌ c) (set-pad_end n t (omega arith))

set-pad_add :
    (n c : ℕ) (t : Bytes)
    → suc (length t) < n
    → set (set (pad n t) (length t) c) (suc (length t)) 0 ≡ pad n (t ++ c ∷ [])
unfolding set pad
set-pad_add zero c t h = absurd (omega arith)
set-pad_add (suc zero) c t h = absurd (omega arith)
set-pad_add (suc (suc n)) c [] h = refl
set-pad_add (suc (suc n)) c (d ∷ t) h = ap (◌∷◌ d) (set-pad_add (suc n) c t (omega arith))

set-pad_drop :
    (n c : ℕ) (t : Bytes)
    → length (c ∷ t) < n
    → set (pad n (c ∷ t)) (length t) 0 ≡ pad n (drop_last (c ∷ t))
unfolding set pad
set-pad_drop zero c t h = absurd (omega arith)
set-pad_drop (suc n) c [] h = refl
set-pad_drop (suc n) c (d ∷ t) h = ap (◌∷◌ c) (set-pad_drop n d t (omega arith))

pub Holds-drop :
    {n : ℕ} (t : Bytes) {array : Bytes} {pos : ℕ}
    → Holds n t array pos
    → 0 < pos
    → Holds n (drop_last t) (set array (pos - 1) 0) (pos - 1)
Holds-drop [] h p = absurd (omega (arith, h.pos_is))
Holds-drop {n} (c ∷ t) h p =
    let back : suc (length t) - 1 ≡ length t = omega arith in
    record {
      array_is = rw (h.array_is, h.pos_is, back) (set-pad_drop n c t h.room);
      pos_is = omega (arith, h.pos_is, length-drop_last c t);
      room = omega (arith, h.room, length-drop_last c t);
    }

Holds-add :
    {n : ℕ} (t : Bytes) {array : Bytes} {pos : ℕ} (c : ℕ)
    → Holds n t array pos
    → pos < n - 1
    → Holds n (t ++ c ∷ []) (set (set array pos c) (pos + 1) 0) (pos + 1)
Holds-add {n} t c h p =
    let longer = length-append {0} t (c ∷ []) in
    let next : length t + 1 ≡ suc (length t) = omega arith in
    record {
      array_is = rw (h.array_is, h.pos_is, next) (set-pad_add n c t (omega (arith, h.pos_is)));
      pos_is = omega (arith, h.pos_is, longer);
      room = omega (arith, h.pos_is, longer);
    }

pub Holds-nil : (n : ℕ) → 0 < n → Holds n [] (zeros n) 0
Holds-nil n p = record { array_is = zeros-pad n; pos_is = refl; room = p }

pub Holds-end :
    {n : ℕ} (t : Bytes) {array : Bytes} {pos : ℕ} → Holds n t array pos → set array pos 0 ≡ pad n t
Holds-end {n} t h = rw (h.array_is, h.pos_is) (set-pad_end n t h.room)

-- The cases in which a field stays as it is.
pub Holds-drop_nil :
    {n : ℕ} (t : Bytes) {array : Bytes} {pos : ℕ}
    → Holds n t array pos
    → ltb 0 pos ≡ false
    → Holds n (drop_last t) array pos
Holds-drop_nil [] h e = h
Holds-drop_nil (c ∷ t) h e = absurd (ground (arith, h.pos_is))

-- Whether a byte can be typed.
abbrev pub has_room : ℕ → ℕ → Bool
has_room n pos = ltb pos (n - 1) && ltb pos max_typed

pub Holds-typed :
    {n : ℕ} (t : Bytes) {array : Bytes} {pos : ℕ} (c : ℕ)
    → Holds n t array pos
    → has_room n pos ≡ true
    → Holds n (add_last n c t) (set (set array pos c) (pos + 1) 0) (pos + 1)
Holds-typed {n} t {pos = pos} c h e =
    let e' : has_room n (length t) ≡ true = ap (has_room n) (sym h.pos_is) ∙ e in
    rw e' (Holds-add t c h (ground (arith, e)))

pub Holds-full :
    {n : ℕ} (t : Bytes) {array : Bytes} {pos : ℕ} (c : ℕ)
    → Holds n t array pos
    → has_room n pos ≡ false
    → Holds n (add_last n c t) array pos
Holds-full {n} t c h e =
    let e' : has_room n (length t) ≡ false = ap (has_room n) (sym h.pos_is) ∙ e in rw e' h
