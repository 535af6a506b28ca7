-- ===== src/System.antt =====
-- The gateway's reporter (gateway/reporter.py) and the backend's endpoint (backend/app.py) together: a
-- report is posted until an answer arrives, over a network that loses requests and responses.
pub mod Once
pub mod Stored
pub mod Lost
pub mod Named
pub mod Accepted
pub mod Provisioned
pub mod Metered
pub mod Commands
pub mod Billing
pub mod Recovery
mod Tests
use ble_usage_meter.Common.{ℕ, zero, suc, Str, Result, ok, err}
use ble_usage_meter.Common.Ed25519.{Ed25519}
use ble_usage_meter.Gateway.Reporter.{Attempt, answered, failed}
use ble_usage_meter.Backend.Models.{UsageReport}
use ble_usage_meter.Backend.Db.{Database}
use ble_usage_meter.Backend.App.{status_of, post_report}

-- What becomes of a request.
pub data Fate : Type 0 where
  lost_request lost_response arrives : Fate

-- What the endpoint answers to a report, and the tables after it.
abbrev pub answer : Ed25519 → UsageReport → Str → Database → ℕ × Database
answer scheme report now db =
    (status_of (post_report scheme db report now).0, (post_report scheme db report now).1)

-- The backend's side of a request is `serve`, from the time and the tables.
module _ (serve : Str → Database → ℕ × Database) where
  -- One attempt, as the reporter sees it, and what it does to the backend.
  unfoldable pub send : Fate → Str → Database → Attempt × Database
  send lost_request now db = (failed, db)
  send lost_response now db = (failed, (serve now db).1)
  send arrives now db = (answered (serve now db).0, (serve now db).1)

  module _ (fates : ℕ → Fate) (now : ℕ → Str) (db : Database) where
    -- The backend after so many attempts, and what comes of an attempt. The first one is 1.
    unfoldable pub backend : ℕ → Database
    backend zero = db
    backend (suc n) = (send (fates (suc n)) (now (suc n)) (backend n)).1

    unfoldable pub network : ℕ → Attempt
    unfolding backend
    network zero = failed
    network (suc n) = (send (fates (suc n)) (now (suc n)) (backend n)).0
