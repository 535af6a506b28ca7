-- ===== src/System/Lost.antt =====
-- What the reporter makes of lost requests and responses.
use ble_usage_meter.Common.{
  ℕ, zero, suc, ◌≤◌, ◌≡◌, refl, ap, ◌∙◌, ◌&&◌, Str, true, false, none, some, ok, arith, str_is_eq,
}
use ble_usage_meter.Common.Dict.{lookup}
use ble_usage_meter.Common.Ed25519.{Ed25519}
use ble_usage_meter.Gateway.Reporter.{Attempt, answered, failed, PostResult, result_of, post}
use ble_usage_meter.Gateway.Reporter.Ends.{post-ends}
use ble_usage_meter.Backend.Models.{UsageReport, DeviceRecord}
use ble_usage_meter.Backend.Db.{Database}
use ble_usage_meter.Backend.Verify.Signed.{IsAuthentic, IsFresh}
use ble_usage_meter.Backend.App.{
  usage, count_reports, get_usage, report_accepted, status_for, reject, is_int64, append_report,
  post_report,
}
use ble_usage_meter.Backend.App.History.{IsConsistent}
use ble_usage_meter.Backend.App.Accept.{post_report_accepts}
use ble_usage_meter.System.{
  answer, Fate, lost_request, lost_response, arrives, send, backend, network,
}
use ble_usage_meter.System.Stored.{get_usage-stored, post_report-again}

-- The result of an undelivered report that was rejected at this attempt.
abbrev pub rejected_at : ℕ → PostResult
rejected_at n = record { delivered = false; status = some 409; attempts = n }

abbrev pub accepted_at : ℕ → PostResult
accepted_at n = record { delivered = true; status = some 200; attempts = n }

module _ (scheme : Ed25519) (db : Database) (d : DeviceRecord) (report : UsageReport)
    (c : IsConsistent db) (found : lookup report.device_id db.devices ≡ some d)
    (authentic : IsAuthentic scheme d report) (fresh : IsFresh d report)
    (fits : (is_int64 report.count && is_int64 report.sequence) ≡ true) (fates : ℕ → Fate)
    (now : ℕ → Str) where
  first_post :
      (n : ℕ)
      → post_report scheme db report (now n) ≡ (
        ok (report_accepted report.device_id report.sequence report.count),
        append_report db d report (now n),
      )
  first_post n = post_report_accepts scheme db d report (now n) c found authentic fresh fits

  send-lost :
      (fate : Fate) (later : Str) (before : Database)
      → fate ≡ lost_request
      → send (answer scheme report) fate later before ≡ (failed, before)
  unfolding send
  send-lost fate later before h = rw h refl

  send-stored :
      (later : Str)
      → send (answer scheme report) arrives later (append_report db d report (now 1))
        ≡ (answered 409, append_report db d report (now 1))
  unfolding send reject status_for
  send-stored later = rw (post_report-again scheme db d report (now 1) later authentic) refl

  send-first :
      (n : ℕ)
      → send (answer scheme report) arrives (now n) db
        ≡ (answered 200, append_report db d report (now n))
  unfolding send
  send-first n = rw (first_post n) refl

  -- While requests are lost the backend does not change.
  backend-lost :
      (n : ℕ)
      → ((i : ℕ) → 1 ≤ i → i ≤ n → fates i ≡ lost_request)
      → backend (answer scheme report) fates now db n ≡ db
  unfolding backend
  backend-lost zero h = refl
  backend-lost (suc n) h =
      ap (λ x. x.1)
        (send-lost (fates (suc n)) (now (suc n)) (backend (answer scheme report) fates now db n)
          (h (suc n) (omega arith) (omega arith)))
      ∙ backend-lost n (λ i lo hi. h i lo (omega arith))

  network-lost :
      (n : ℕ) → fates n ≡ lost_request → network (answer scheme report) fates now db n ≡ failed
  unfolding network
  network-lost zero h = refl
  network-lost (suc n) h =
      ap (λ x. x.0)
        (send-lost (fates (suc n)) (now (suc n)) (backend (answer scheme report) fates now db n) h)

  -- The answer to a request, and the backend after it, where the backend before it is known.
  attempt_after :
      (n : ℕ) (before after : Database) (a : Attempt) (fate : Fate)
      → backend (answer scheme report) fates now db n ≡ before
      → fates (suc n) ≡ fate
      → send (answer scheme report) fate (now (suc n)) before ≡ (a, after)
      → (network (answer scheme report) fates now db (suc n) ≡ a)
        × (backend (answer scheme report) fates now db (suc n) ≡ after)
  unfolding network backend
  attempt_after n before after a fate b f e = (ap (λ x. x.0) (same ∙ e), ap (λ x. x.1) (same ∙ e))
    where
      same :
          send
            (answer scheme report)
            (fates (suc n))
            (now (suc n))
            (backend (answer scheme report) fates now db n)
          ≡ send (answer scheme report) fate (now (suc n)) before
      same = rw (f, b) refl

  inconclusive :
      (n : ℕ)
      → fates n ≡ lost_request
      → result_of n (network (answer scheme report) fates now db n) ≡ none
  unfolding result_of
  inconclusive n h = rw (network-lost n h) refl

  -- A report that the backend would take is delivered and stored, in as many attempts as it takes for
  -- a request to arrive whose answer arrives as well, if the requests before it were lost and the
  -- reporter makes that many attempts; and the backend answers the device's usage with its count and
  -- sequence, and with one report more.
  pub delivers :
      (n base_delay max_delay max_attempts : ℕ)
      → suc n ≤ max_attempts
      → ((i : ℕ) → 1 ≤ i → i ≤ n → fates i ≡ lost_request)
      → fates (suc n) ≡ arrives
      → let after = backend (answer scheme report) fates now db (suc n) in
        ((post (network (answer scheme report) fates now db) base_delay max_delay max_attempts).0
          ≡ accepted_at (suc n))
        × (after ≡ append_report db d report (now (suc n)))
        × (get_usage after report.device_id
            ≡ usage report.device_id report.count report.sequence
                (suc (count_reports report.device_id db.usage_reports)))
  unfolding result_of
  delivers n base_delay max_delay max_attempts h lost last =
      let (reply, stored) =
        attempt_after n db _ _ arrives (backend-lost n lost) last (send-first (suc n)) in
      (
        post-ends (network (answer scheme report) fates now db) base_delay max_delay max_attempts
            (suc n) (accepted_at (suc n)) (omega arith) h
            (λ i lo hi. inconclusive i (lost i lo (omega arith))) (rw reply refl),
        stored,
        ap (λ after. get_usage after report.device_id) stored
            ∙ get_usage-stored scheme db d report (now (suc n)),
      )

  -- A report that the backend has stored is given up as undelivered where the response to it is lost
  -- and the next request arrives: the backend answers that one as a replay, and the reporter takes the
  -- answer for a rejection.
  pub lost_response_undelivered :
      (base_delay max_delay max_attempts : ℕ)
      → 2 ≤ max_attempts
      → fates 1 ≡ lost_response
      → fates 2 ≡ arrives
      → ((post (network (answer scheme report) fates now db) base_delay max_delay max_attempts).0
          ≡ rejected_at 2)
        × (backend (answer scheme report) fates now db 2 ≡ append_report db d report (now 1))
  unfolding result_of backend send
  lost_response_undelivered base_delay max_delay max_attempts h one two =
      let (silent, first) =
        attempt_after 0 db _ failed lost_response refl one
          (ap (λ x. (failed, x.1)) (first_post 1)) in
      let (reply, second) = attempt_after 1 _ _ _ arrives first two (send-stored (now 2)) in
      (
        post-ends (network (answer scheme report) fates now db) base_delay max_delay max_attempts 2
            (rejected_at 2) (omega arith) h (λ i lo hi. first_inconclusive i (omega arith) silent)
            (rw reply refl),
        second,
      )
    where
      first_inconclusive :
          (i : ℕ)
          → i ≡ 1
          → network (answer scheme report) fates now db 1 ≡ failed
          → result_of i (network (answer scheme report) fates now db i) ≡ none
      first_inconclusive i at e = rw (at, e) refl
