-- ===== src/Logger/Gate.antt =====
-- When src/logger.c writes, and what its variables keep.
use kia.Base.{ℕ, ◌≤◌, ◌≡◌, ◌↔◌, ◌⊎◌, refl, Bool, true, [], ◌∷◌, Option, arith}
use kia.Text.{Bytes}
use kia.Logger.{
  Logger, LogSystem, Message, null_format, bad_format, formatted, logger_init, entry, write_entry,
  logger_log,
}

-- A call writes its entry exactly when logging is on, the file is open, the level is one of the
-- four and not below the least one, and the write works; otherwise it writes nothing. A null
-- format, and one that cannot be formatted, write nothing at all.
pub logger_log-written_iff :
    (sys : LogSystem) (level : ℕ) (message : Bytes) (s : Logger)
    → let lines = (logger_log sys level (formatted message) s).1 in
      let one = entry sys level message ∷ [] in
      ((lines ≡ one) ↔ (
        (s.logging_enabled ≡ true)
        × (s.log_file ≡ true)
        × (s.min_log_level ≤ level)
        × (level ≤ 3)
        × (sys.writes ≡ true)))
      × ((lines ≡ one) ⊎ (lines ≡ []))
      × ((logger_log sys level null_format s).1 ≡ [])
      × ((logger_log sys level bad_format s).1 ≡ [])
unfolding logger_log write_entry
logger_log-written_iff sys level message s = (ground arith, ground arith, refl, ground arith)

-- Logging is on only while the file is open.
abbrev pub IsOpen : Logger → Type 0
IsOpen s = s.logging_enabled ≡ true → s.log_file ≡ true

-- `logger_log` keeps that logging is on only while the file is open.
pub logger_log-IsOpen :
    (sys : LogSystem) (level : ℕ) (m : Message) (s : Logger)
    → IsOpen s
    → IsOpen (logger_log sys level m s).0
unfolding logger_log write_entry
logger_log-IsOpen sys level null_format s h = h
logger_log-IsOpen sys level bad_format s h = ground arith
logger_log-IsOpen sys level (formatted message) s h = ground arith

-- `logger_init` keeps that logging is on only while the file is open.
pub logger_init-IsOpen :
    (sys : LogSystem) (path : Option Bytes) (enabled : Bool) (s : Logger)
    → IsOpen s
    → IsOpen (logger_init sys path enabled s).1
unfolding logger_init
logger_init-IsOpen sys path enabled s h = ground arith
