-- ===== src/Gateway/Reporter.antt =====
-- gateway/reporter.py and the `report` command of gateway/cli.py: the reports of one run, and how one
-- of them is posted.
pub mod Delivery
pub mod Ends
pub mod Delays
pub mod Runs
mod Tests
use ble_usage_meter.Common.{
  ℕ, zero, suc, ◌+◌, ◌-◌, ◌*◌, Str, Bytes, List, [], ◌∷◌, Bool, true, false, ◌&&◌, Option, none,
  some, Result, ok, err, ◌>>=◌, if◌then◌else◌, leb, ltb,
}
use ble_usage_meter.Common.Int.{ℤ, pos, ◌-ℤ◌}
use ble_usage_meter.Common.Dict.{Dict}
use ble_usage_meter.Common.Base64.{b64encode}
use ble_usage_meter.Common.Ed25519.{Ed25519}
use ble_usage_meter.Gateway.Signer.{ReportTuple, sign}
use ble_usage_meter.Gateway.Counter.{Counter, snapshot, next_sequence}
use ble_usage_meter.Gateway.Store.{Store, save_sequence}
use ble_usage_meter.Gateway.Pipeline.{load}

-- The members of the JSON object that `build_payload` returns.
pub record Payload : Type 0 where
  pub device_id : Str
  pub count : ℤ
  pub sequence : ℤ
  pub window_start : ℤ
  pub window_end : ℤ
  pub sig : Str

unfoldable pub build_payload : Ed25519 → Bytes → ReportTuple → Result Payload
build_payload scheme key r = do
  sig ← sign scheme key r
  ok (record {
    device_id = r.device_id;
    count = r.count;
    sequence = r.sequence;
    window_start = r.window_start;
    window_end = r.window_end;
    sig = b64encode sig;
  })

-- What comes of one request: a status, or an `httpx.HTTPError`.
pub data Attempt : Type 0 where
  answered : ℕ → Attempt
  failed : Attempt

pub record PostResult : Type 0 where
  pub delivered : Bool
  pub status : Option ℕ
  pub attempts : ℕ

abbrev pub is_success : ℕ → Bool
is_success status = leb 200 status && ltb status 300

abbrev pub is_rejection : ℕ → Bool
is_rejection status = leb 400 status && ltb status 500

-- The result that ends the loop at this attempt, where there is one.
unfoldable pub result_of : ℕ → Attempt → Option PostResult
result_of attempt failed = none
result_of attempt (answered status) =
    if is_success status
    then some (record { delivered = true; status = some status; attempts = attempt })
    else if is_rejection status
    then some (record { delivered = false; status = some status; attempts = attempt })
    else none

abbrev pub min_ℕ : ℕ → ℕ → ℕ
min_ℕ a b = if leb a b then a else b

-- The rest of the loop comes where an attempt is not conclusive: a sleep, unless it was the last.
unfoldable pub or_next : Option PostResult → Bool → ℕ → PostResult × List ℕ → PostResult × List ℕ
or_next (some r) again delay next = (r, [])
or_next none again delay (r, sleeps) = (r, if again then delay ∷ sleeps else [])

-- The loop: what the result is, and for how long it slept after each attempt. `server attempt` is what
-- comes of that attempt; the last number counts the attempts still to be made. A delay is in seconds.
unfoldable pub attempts_from : (ℕ → Attempt) → ℕ → ℕ → ℕ → ℕ → ℕ → PostResult × List ℕ
attempts_from server max_attempts max_delay attempt delay zero =
    (record { delivered = false; status = none; attempts = max_attempts }, [])
attempts_from server max_attempts max_delay attempt delay (suc left) =
    or_next (result_of attempt (server attempt)) (ltb attempt max_attempts) delay
      (attempts_from server max_attempts max_delay (suc attempt) (min_ℕ (delay * 2) max_delay) left)

-- `Reporter.post` with the reporter's base delay, longest delay and number of attempts. The payload is
-- built before, once; what the server does with it is `server`.
unfoldable pub post : (ℕ → Attempt) → ℕ → ℕ → ℕ → PostResult × List ℕ
post server base_delay max_delay max_attempts =
    attempts_from server max_attempts max_delay 1 base_delay max_attempts

unfoldable pub tuples_of : Dict Str ℤ → ℤ → ℤ → ℤ → List ReportTuple
tuples_of [] sequence start end = []
tuples_of ((device_id, count) ∷ counts) sequence start end =
    record {
      device_id = device_id;
      count = count;
      sequence = sequence;
      window_start = start;
      window_end = end;
    }
    ∷ tuples_of counts sequence start end

-- `cmd_report` up to its posts: the reports of one run, and the tables once the sequence is saved.
unfoldable pub prepare : ℤ → ℤ → Store → Result (List ReportTuple × Store)
prepare now interval s = do
  counter ← load s
  s' ← save_sequence (next_sequence counter).0 s
  ok (tuples_of (snapshot counter) (next_sequence counter).0 (now -ℤ interval) now, s')

-- Its exit code, from the results of the posts.
unfoldable pub exit_code : List PostResult → ℕ
exit_code [] = 0
exit_code (r ∷ rs) = if r.delivered then exit_code rs else 1
