-- ===== src/Gateway/Config/Settings/Checked.antt =====
-- What the settings of a gateway that starts satisfy.
use ble_usage_meter.Common.{
  ◌≡◌, ◌≢◌, refl, ap, Str, text, List, [], Bool, true, false, not, Option, none, some, ok,
  config_error, raise_if, bind-eq-ok, raise_if-eq-ok, ok-injective, str_is_eq, arith, All,
}
use ble_usage_meter.Common.Int.{ℤ, pos, ◌≤ℤ◌, ltb_ℤ}
use ble_usage_meter.Common.Dict.{Dict, lookup}
use ble_usage_meter.Gateway.Config.{EventRule}
use ble_usage_meter.Gateway.Config.Valid.{IsRule, AreDistinct, load_events_lem}
use ble_usage_meter.Gateway.Config.Settings.{
  Scalar, string, str_of, req, get_int, is_http, GatewayConfig, events_file_of, Machine,
  load_events_file, given, load_gateway,
}

-- Settings that were checked: the interval is at least ten seconds, the endpoint is a URL of HTTP or
-- HTTPS, there are rules, each of them a rule, no two of them alike, and the required keys are there.
pub record IsChecked (m : Machine) (doc : Dict Str Scalar) (cfg : GatewayConfig) : Type 0 where
  pub interval : pos 10 ≤ℤ cfg.report_interval_sec
  pub endpoint : is_http cfg.report_endpoint ≡ true
  pub key_path :
      (v : Scalar) × (lookup (text "private_key_path") doc ≡ some v)
      × (cfg.private_key_path ≡ m.expanduser (str_of v))
  pub meter : (v : Scalar) × (lookup (text "meter_id") doc ≡ some v) × (cfg.meter_id ≡ str_of v)
  pub some_rule : cfg.rules ≢ []
  pub rules : All IsRule cfg.rules
  pub distinct : AreDistinct cfg.rules

given-found : (o : Option Scalar) (v : Scalar) → given o ≡ ok v → o ≡ some v
given-found none v h = absurd (cc)
given-found (some w) v h = ap some (ok-injective h)

req-found :
    (key : Str) (doc : Dict Str Scalar) (v : Scalar) → req key doc ≡ ok v → lookup key doc ≡ some v
unfolding req
req-found key doc v h = given-found (lookup key doc) v h

not-false : (b : Bool) → not b ≡ false → b ≡ true
not-false true h = refl
not-false false h = absurd (cc)

interval-above : (n : ℤ) → ltb_ℤ n (pos 10) ≡ false → pos 10 ≤ℤ n
interval-above n h = ground (arith, h)

load_events_file-lem :
    (m : Machine) (v : Scalar) (rules : List EventRule)
    → load_events_file m v ≡ ok rules
    → (rules ≢ []) × All IsRule rules × AreDistinct rules
unfolding load_events_file
load_events_file-lem m (string path) rules h =
    let (items, e, loaded) = bind-eq-ok (m.read_events path) _ h in
    let (listed, same, n, some_rule, are, distinct) = load_events_lem items rules loaded in
    (some_rule, are, distinct)
load_events_file-lem m v rules h = absurd (cc)

-- Settings that load were checked, whatever the rest of the document is.
pub load_gateway-IsChecked :
    (m : Machine) (doc : Dict Str Scalar) (events_path : Option Str) (cfg : GatewayConfig)
    → load_gateway m doc events_path ≡ ok cfg
    → IsChecked m doc cfg
unfolding load_gateway
load_gateway-IsChecked m doc events_path cfg h =
    let (interval, _, h1) = bind-eq-ok (get_int (text "report_interval_sec") (pos 300) doc) _ h in
    let (u, long, h2) = bind-eq-ok (raise_if (ltb_ℤ interval (pos 10)) config_error) _ h1 in
    let (key_path, has_key, h3) = bind-eq-ok (req (text "private_key_path") doc) _ h2 in
    let (endpoint, _, h4) = bind-eq-ok (req (text "report_endpoint") doc) _ h3 in
    let (u', url, h5) = bind-eq-ok (raise_if (not (is_http (str_of endpoint))) config_error) _ h4 in
    let (file, _, h6) = bind-eq-ok (given (events_file_of events_path doc)) _ h5 in
    let (meter, has_meter, h7) = bind-eq-ok (req (text "meter_id") doc) _ h6 in
    let (base, _, h8) = bind-eq-ok (get_int (text "retry_base_sec") (pos 5) doc) _ h7 in
    let (most, _, h9) = bind-eq-ok (get_int (text "retry_max_sec") (pos 600) doc) _ h8 in
    let (attempts, _, h10) = bind-eq-ok (get_int (text "retry_max_attempts") (pos 8) doc) _ h9 in
    let (rules, loaded, h11) = bind-eq-ok (load_events_file m file) _ h10 in
    let (some_rule, are, distinct) = load_events_file-lem m file rules loaded in
    rw (← ok-injective h11) (record {
      interval =
          interval-above interval (raise_if-eq-ok (ltb_ℤ interval (pos 10)) config_error long);
      endpoint =
          not-false (is_http (str_of endpoint))
            (raise_if-eq-ok (not (is_http (str_of endpoint))) config_error url);
      key_path = (key_path, req-found (text "private_key_path") doc key_path has_key, refl);
      meter = (meter, req-found (text "meter_id") doc meter has_meter, refl);
      some_rule = some_rule;
      rules = are;
      distinct = distinct;
    })
