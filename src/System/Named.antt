-- ===== src/System/Named.antt =====
-- The JSON object that the gateway posts (gateway/reporter.py) and the one that the backend reads
-- (backend/models.py): they name the signature differently.
use ble_usage_meter.Common.{
  ℕ, zero, suc, ◌≡◌, ◌⊎◌, inl, inr, refl, sym, ap, subst, ◌∙◌, Str, text, [], ◌∷◌, Bool, true,
  false, Option, none, some, Error, value_error, config_error, overflow_error, struct_error,
  unicode_error, key_error, type_error, integrity_error, operational_error, runtime_error,
  missing_file, os_error, Result, ok, err, ◌>>=◌, arith, str_is_eq, str_eq,
}
use ble_usage_meter.Common.Dict.{Dict, lookup}
use ble_usage_meter.Common.Ed25519.{Ed25519}
use ble_usage_meter.Gateway.Reporter.{Payload, Attempt, answered, is_success, post, attempts_from}
use ble_usage_meter.Gateway.Reporter.Delivery.{post_lem}
use ble_usage_meter.Backend.Models.{UsageReport, validate}
use ble_usage_meter.Backend.Db.{Database}
use ble_usage_meter.Backend.Wire.{
  Json, string, integer, Pydantic, valid, read_member, required, fields, compare_windows,
  parse_report, receive_parsed, receive,
}
use ble_usage_meter.System.{Fate, lost_request, lost_response, arrives, send, backend, network}

-- The object with a payload's members, where the signature has this name. The gateway's is `sig`.
unfoldable pub members : Str → Payload → Dict Str Json
members name payload =
    (text "device_id", string payload.device_id)
    ∷ (text "count", integer payload.count)
    ∷ (text "sequence", integer payload.sequence)
    ∷ (text "window_start", integer payload.window_start)
    ∷ (text "window_end", integer payload.window_end)
    ∷ (name, string payload.sig)
    ∷ []

valid-cases {ℓ} :
    {A : Type ℓ} (o : Option A) → (valid o ≡ err value_error) ⊎ ((a : A) × (valid o ≡ ok a))
unfolding valid
valid-cases none = inl refl
valid-cases (some a) = inr (a, refl)

read_member-cases {ℓ} :
    {A : Type ℓ} (read : Json → Option A) (o : Option Json)
    → (read_member read o ≡ err value_error) ⊎ ((a : A) × (read_member read o ≡ ok a))
unfolding read_member
read_member-cases read none = inl refl
read_member-cases read (some v) = valid-cases (read v)

-- A validation error after a field is one of the whole.
after_field {ℓ κ} :
    {A : Type ℓ} {B : Type κ} (read : Json → Option A) (key : Str) (body : Dict Str Json)
    (next : A → Result B)
    → ((a : A) → next a ≡ err value_error)
    → (required read key body >>= next) ≡ err value_error
unfolding required
after_field read key body next h = elim (read_member-cases read (lookup key body)) [
  | inl e ↦ rw e refl
  | inr (a, e) ↦ rw e (h a)
]

-- An answer that is no success, from a backend that is as before.
abbrev Refused : Database → ℕ × Database → Type 0
Refused db (status, db') = (is_success status ≡ false) × (db' ≡ db)

module _ (p : Pydantic) where
  unread :
      (o : Option Json) (next : Str → Result UsageReport)
      → o ≡ none
      → (read_member p.read_str o >>= next) ≡ err value_error
  unfolding read_member
  unread o next h = rw h refl

  -- An object without a `signature` is no report.
  fields-unsigned :
      (body : Dict Str Json)
      → lookup (text "signature") body ≡ none
      → fields p body ≡ err value_error
  unfolding fields required read_member
  fields-unsigned body h = after_field p.read_str (text "device_id") body _ (λ a.
      after_field p.read_int (text "count") body _ (λ b.
        after_field p.read_int (text "sequence") body _ (λ c.
          after_field p.read_datetime (text "window_start") body _ (λ d.
            after_field p.read_datetime (text "window_end") body _
              (λ e. unread (lookup (text "signature") body) _ h)))))

  parse_report-unsigned :
      (body : Dict Str Json)
      → lookup (text "signature") body ≡ none
      → (e : Error) × (parse_report p body ≡ err e)
  unfolding parse_report
  parse_report-unsigned body h = rw (fields-unsigned body h) (
      either_error (
        compare_windows p (required p.read_datetime (text "window_start") body)
          (required p.read_datetime (text "window_end") body)))
    where
      either_error :
          (m : Result Bool)
          → (e : Error) × ((m >>= (λ unordered. err value_error >>= validate)) ≡ err e)
      either_error (ok unordered) = (value_error, refl)
      either_error (err e) = (e, refl)

  receive_parsed-Refused :
      (scheme : Ed25519) (db : Database) (now : Str) (e : Error)
      → Refused db (receive_parsed p scheme db now (err e))
  unfolding receive_parsed
  receive_parsed-Refused scheme db now value_error = (refl, refl)
  receive_parsed-Refused scheme db now config_error = (refl, refl)
  receive_parsed-Refused scheme db now overflow_error = (refl, refl)
  receive_parsed-Refused scheme db now struct_error = (refl, refl)
  receive_parsed-Refused scheme db now unicode_error = (refl, refl)
  receive_parsed-Refused scheme db now key_error = (refl, refl)
  receive_parsed-Refused scheme db now type_error = (refl, refl)
  receive_parsed-Refused scheme db now integrity_error = (refl, refl)
  receive_parsed-Refused scheme db now operational_error = (refl, refl)
  receive_parsed-Refused scheme db now runtime_error = (refl, refl)
  receive_parsed-Refused scheme db now missing_file = (refl, refl)
  receive_parsed-Refused scheme db now os_error = (refl, refl)

  receive-Refused :
      (scheme : Ed25519) (body : Dict Str Json) (now : Str) (db : Database)
      → lookup (text "signature") body ≡ none
      → Refused db (receive p scheme body now db)
  unfolding receive
  receive-Refused scheme body now db h =
      let (e, same) = parse_report-unsigned body h in
      rw same (receive_parsed-Refused scheme db now e)

-- A post is not delivered where no request is answered with a success.
abbrev Unsuccessful : Attempt → Type 0
Unsuccessful a = (status : ℕ) → a ≡ answered status → is_success status ≡ false

module _ (server : ℕ → Attempt) where
  post-Unsuccessful :
      (base_delay max_delay max_attempts : ℕ)
      → ((i : ℕ) → Unsuccessful (server i))
      → (post server base_delay max_delay max_attempts).0.delivered ≡ false
  unfolding post attempts_from
  post-Unsuccessful base_delay max_delay zero h = refl
  post-Unsuccessful base_delay max_delay (suc left) h =
      elim (post_lem server base_delay max_delay (suc left) (omega arith)).0 [
        | inl (undelivered, silent, most, last) ↦ undelivered
        | inr (status, answer, told, inl (good, done)) ↦ absurd (clash good (h _ status answer))
        | inr (status, answer, told, inr (bad, undelivered)) ↦ undelivered
      ]
    where
      clash : {b : Bool} → b ≡ true → b ≡ false → ⊥
      clash e f = ground (arith, e, f)

module _ (serve : Str → Database → ℕ × Database) (db : Database)
    (refuses : (now : Str) → Refused db (serve now db)) (fates : ℕ → Fate) (now : ℕ → Str) where
  send-Refused :
      (fate : Fate) (n : ℕ)
      → Unsuccessful (send serve fate (now n) db).0 × ((send serve fate (now n) db).1 ≡ db)
  unfolding send
  send-Refused lost_request n = (λ status e. absurd (cc), refl)
  send-Refused lost_response n = (λ status e. absurd (cc), (refuses (now n)).1)
  send-Refused arrives n = (
    λ status e. subst (λ s. is_success s ≡ false) (answered-injective e) (refuses (now n)).0,
    (refuses (now n)).1,
  )
    where
      answered-injective : {s t : ℕ} → answered s ≡ answered t → s ≡ t
      answered-injective e = cc

  backend-Refused : (n : ℕ) → backend serve fates now db n ≡ db
  unfolding backend
  backend-Refused zero = refl
  backend-Refused (suc n) =
      ap (λ x. (send serve (fates (suc n)) (now (suc n)) x).1) (backend-Refused n)
      ∙ (send-Refused (fates (suc n)) (suc n)).1

  network-Refused : (n : ℕ) → Unsuccessful (network serve fates now db n)
  unfolding network
  network-Refused zero = λ status e. absurd (cc)
  network-Refused (suc n) =
      subst (λ x. Unsuccessful (send serve (fates (suc n)) (now (suc n)) x).0)
        (sym (backend-Refused n)) (send-Refused (fates (suc n)) (suc n)).0

-- A payload of the gateway is never delivered and never changes the backend's tables, whatever the
-- requests' fates, the number of attempts and pydantic's conversions: the backend requires a member
-- `signature`, and the gateway's is named `sig`.
pub unsigned_undelivered :
    (p : Pydantic) (scheme : Ed25519) (payload : Payload) (db : Database) (fates : ℕ → Fate)
    (now : ℕ → Str) (base_delay max_delay max_attempts : ℕ)
    → let serve = receive p scheme (members (text "sig") payload) in
      ((post (network serve fates now db) base_delay max_delay max_attempts).0.delivered ≡ false)
      × ((n : ℕ) → backend serve fates now db n ≡ db)
unfolding members lookup str_eq
unsigned_undelivered p scheme payload db fates now base_delay max_delay max_attempts =
    let refuses : (at : Str) → Refused db (receive p scheme (members (text "sig") payload) at db) =
      λ at. receive-Refused p scheme (members (text "sig") payload) at db refl in
    (
      post-Unsuccessful _ base_delay max_delay max_attempts
          (network-Refused (receive p scheme (members (text "sig") payload)) db refuses fates now),
      backend-Refused (receive p scheme (members (text "sig") payload)) db refuses fates now,
    )
