-- ===== src/Sweeper.antt =====
-- src/application/services/expired_record_sweeper.service.ts: the sweep that the program runs every ten
-- minutes. The timer is left out, and so are the log lines.
pub mod Harmless
use kinetix_identity_service.Attempts
use kinetix_identity_service.Passkeys
use kinetix_identity_service.SignInAttempts
use kinetix_identity_service.Tokens.{sweep_expired_revocations}
use kinetix_identity_service.World.{Request, Done, Failure, ◌>>=◌, pure, try_catch}

unfoldable pub sweep_records : Request Done
sweep_records = do
  attempts ← SignInAttempts.sweep
  revocations ← sweep_expired_revocations
  challenges ← Passkeys.sweep
  pure tt

-- The handler only writes a log line.
abbrev pub try_later : Failure → Request Done
try_later failure = pure tt

unfoldable pub sweep : Request Done
sweep = try_catch sweep_records try_later
