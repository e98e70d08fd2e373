-- ===== src/Logger/Replay.antt =====
-- What src/logger.c writes of the calls that the program makes, in their order.
use Prim.Native.String.{String}
use kia.Base.{List, [], ◌∷◌, ◌++◌, ◌≡◌, some, refl, ap, sym, append_assoc}
use kia.Text.{Bytes}
use kia.Effect.{Effect, log, logger_started, logger_closed}
use kia.Logger.{Logger, LogSystem, Message, level_number, logger_init, logger_log, logger_close}

module _ (sys : LogSystem) (path : Bytes) (format : String → Message) where
  -- One call, with the lines that it writes.
  unfoldable pub written : Effect → Logger → Logger × List Bytes
  unfolding logger_log logger_close logger_init
  written (log level m) s = logger_log sys (level_number level) (format m) s
  written (logger_started enabled) s = ((logger_init sys (some path) enabled s).1, [])
  written logger_closed s = (logger_close s, [])
  written _ s = (s, [])

  unfoldable pub replay : List Effect → Logger → Logger × List Bytes
  unfolding written
  replay [] s = (s, [])
  replay (e ∷ es) s =
      let (s', lines) = written e s in let (s'', more) = replay es s' in (s'', lines ++ more)

  pub replay-append :
      (es fs : List Effect) (s : Logger)
      → replay (es ++ fs) s
        ≡ ((replay fs (replay es s).0).0, (replay es s).1 ++ (replay fs (replay es s).0).1)
  unfolding replay
  replay-append [] fs s = refl
  replay-append (e ∷ es) fs s = rw (replay-append es fs (written e s).0) (
      ap (λ l. ((replay fs (replay es (written e s).0).0).0, l))
        (sym (
          append_assoc (written e s).1 (replay es (written e s).0).1
            (replay fs (replay es (written e s).0).0).1)))
