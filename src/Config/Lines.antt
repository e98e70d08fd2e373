-- ===== src/Config/Lines.antt =====
-- One line of the configuration file: what an error leaves, and how a setting is read.
use kia.Base.{◌≡◌, ◌≢◌, refl, [], ◌∷◌, ◌++◌, Option, none, some, All, arith}
use kia.Code.{success}
use kia.Text.{Bytes}
use kia.Config.{
  Config, Key, apply_key, key_of, trim_whitespace, parse_setting, parse_config_line, split_equals,
}

apply_key_atomic :
    (k : Key) (v : Bytes) (c : Config) → (apply_key k v c).0 ≢ success → (apply_key k v c).1 ≡ c
unfolding apply_key
apply_key_atomic Key.autologin_enabled v c h = absurd (h refl)
apply_key_atomic _ v c h = ground arith

parse_setting_atomic :
    (o : Option (Bytes × Bytes)) (c : Config)
    → (parse_setting o c).0 ≢ success
    → (parse_setting o c).1 ≡ c
unfolding parse_setting
parse_setting_atomic none c h = refl
parse_setting_atomic (some (k, v)) c h =
    ground (arith, apply_key_atomic (key_of (trim_whitespace k)) (trim_whitespace v) c)

-- A line that `parse_config_line` refuses leaves the configuration as it was.
pub parse_config_line_atomic :
    (line : Bytes) (c : Config)
    → (parse_config_line line c).0 ≢ success
    → (parse_config_line line c).1 ≡ c
unfolding parse_config_line
parse_config_line_atomic [] c h = refl
parse_config_line_atomic (x ∷ xs) c h =
    ground (arith, parse_setting_atomic (split_equals (x ∷ xs)) c)

-- No `=` inside.
abbrev pub IsKeyText : Bytes → Type 0
IsKeyText = All (λ c. c ≢ b'=')

pub split_equals-append : (k v : Bytes) → IsKeyText k → split_equals (k ++ b'=' ∷ v) ≡ some (k, v)
unfolding split_equals
split_equals-append [] v h = refl
split_equals-append (c ∷ k) v h = ground (arith, split_equals-append k v h.1)

-- The first byte of a key starts no comment.
abbrev pub StartsKey : Bytes → Type 0
StartsKey [] = ⊥
StartsKey (c ∷ _) = c ≢ b'#'

-- A line `key=value`, with neither side padded, is the branch of its key.
pub parse_config_line-setting :
    (k v : Bytes) (c : Config)
    → StartsKey k
    → IsKeyText k
    → trim_whitespace k ≡ k
    → trim_whitespace v ≡ v
    → parse_config_line (k ++ b'=' ∷ v) c ≡ apply_key (key_of k) v c
unfolding parse_config_line parse_setting
parse_config_line-setting [] v c n e tk tv = absurd n
parse_config_line-setting (x ∷ xs) v c n e tk tv =
    rw (split_equals-append (x ∷ xs) v e, parse_setting, tk, tv) (ground arith)
