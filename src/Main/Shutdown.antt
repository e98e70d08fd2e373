-- ===== src/Main/Shutdown.antt =====
-- What the end of src/main.c writes to the log.
use Prim.Native.String.{String}
use kia.Base.{ℕ, ◌≡◌, refl, ap, ◌∙◌, List, [], ◌∷◌, ◌++◌, some, append-nil}
use kia.Text.{Bytes}
use kia.Effect.{Effect, log, info, logger_closed, screen, endwin}
use kia.Auth.{AuthGlobals, Terminal, auth_cleanup}
use kia.Tui.Drawing.{tui_cleanup}
use kia.Controller.{AppContext}
use kia.Controller.Loop.{controller_cleanup}
use kia.Logger.{
  Logger, LogSystem, Message, null_format, bad_format, formatted, logger_log, logger_close,
}
use kia.Logger.Replay.{written, replay, replay-append}
use kia.Main.{Exit, cleanup_and_exit}

logger_log_closed :
    (sys : LogSystem) (level : ℕ) (m : Message) (s : Logger)
    → logger_log sys level m (logger_close s) ≡ (logger_close s, [])
unfolding logger_log logger_close
logger_log_closed sys level null_format s = refl
logger_log_closed sys level bad_format s = refl
logger_log_closed sys level (formatted message) s = refl

module _ (sys : LogSystem) (path : Bytes) (format : String → Message) where
  -- A close, then a message and another close, write nothing.
  closed_silent :
      (message : String) (s : Logger)
      → (replay sys path format (logger_closed ∷ log info message ∷ logger_closed ∷ []) s).1 ≡ []
  unfolding replay written
  closed_silent message s = rw (logger_log_closed sys 1 (format message) s) refl

  silent_end :
      (es : List Effect) (message : String) (s : Logger)
      → (replay sys path format
          (log info message ∷ logger_closed ∷ [])
          (replay sys path format (es ++ screen endwin ∷ logger_closed ∷ []) s).0).1
        ≡ []
  unfolding replay written
  silent_end es message s =
      rw (replay-append sys path format es (screen endwin ∷ logger_closed ∷ []) s)
        (rw (logger_log_closed sys 1 (format message) (replay sys path format es s).0) refl)

  -- Whatever the log is at first, the end of the program writes no more than `controller_cleanup`
  -- does: the message that the program shuts down comes behind the close of the log, and is lost.
  pub cleanup_and_exit-written :
      (t : Terminal) (ctx : AppContext) (g : AuthGlobals) (status : Exit) (s : Logger)
      → (replay sys path format (cleanup_and_exit t (some ctx) g status).1 s).1
        ≡ (replay sys path format (controller_cleanup t (some ctx) g).1 s).1
  unfolding cleanup_and_exit controller_cleanup tui_cleanup
  cleanup_and_exit-written t ctx g status s =
      ap (λ r. r.1)
        (replay-append sys path format (controller_cleanup t (some ctx) g).1
          (log info "Kia display manager shutting down" ∷ logger_closed ∷ []) s)
      ∙ ap (λ l. (replay sys path format (controller_cleanup t (some ctx) g).1 s).1 ++ l)
          (silent_end (auth_cleanup t g).1 "Kia display manager shutting down" s)
      ∙ append-nil _
