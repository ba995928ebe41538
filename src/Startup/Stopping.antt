-- ===== src/Startup/Stopping.antt =====
-- The end of beatstream/cmd/worker/main.go: the two workers, until the analytics worker returns.
use system_design_lab.Prelude.{Bool, true, false, List, [], ◌∷◌, ◌&&◌, if◌then◌else◌}

-- What happens to the process. A worker returns after the signal only, once the delivery that it works
-- on is done.
pub data Occurrence : Type 0 where
  signalled analytics_returns upload_returns : Occurrence

pub record Process : Type 0 where
  pub cancelled : Bool
  pub uploading : Bool
  pub ended : Bool

abbrev pub running : Process
running = record { cancelled = false; uploading = true; ended = false }

-- `main` returns with the analytics worker, and with it the process ends.
unfoldable pub advance : Occurrence → Process → Process
advance signalled p = if p.ended then p else record p { cancelled = true }
advance analytics_returns p = if p.cancelled then record p { ended = true } else p
advance upload_returns p =
    if p.ended then p else if p.cancelled then record p { uploading = false } else p

unfoldable pub run_workers : List Occurrence → Process → Process
unfolding advance
run_workers [] p = p
run_workers (o ∷ os) p = run_workers os (advance o p)

-- Whether the end of the process has cut off the upload worker.
abbrev pub cuts_off : Process → Bool
cuts_off p = p.ended && p.uploading
