-- ===== src/Gateway/Config/Valid.antt =====
-- What the rules of a loaded configuration satisfy.
use ble_usage_meter.Common.{
  ℕ, suc, ◌≡◌, ◌≢◌, refl, sym, ap, ◌∙◌, Str, Bytes, text, List, [], ◌∷◌, false, Option, none, some,
  ok, config_error, raise_if, bind-eq-ok, raise_if-eq-ok, ok-injective, length, arith, All,
  triple_eq_iff, triple_is_eq, str_is_eq,
}
use ble_usage_meter.Common.Dict.{lookup}
use ble_usage_meter.Gateway.Config.{
  EventRule, Item, mapping, no_mapping, required, rule_of, triple_of, is_seen, load_items,
  load_events, normalise_uuid, parse_prefix, strip, is_nil,
}
use ble_usage_meter.Gateway.Config.Uuid.{IsUuid, normalise_uuid_lem}

-- A rule with full, normalised UUIDs and a name.
pub record IsRule (r : EventRule) : Type 0 where
  pub service : IsUuid r.service
  pub characteristic : IsUuid r.characteristic
  pub event : is_nil r.event ≡ false

-- No two rules have one triple of service, characteristic and prefix.
abbrev pub AreDistinct : List EventRule → Type 0
AreDistinct [] = Unit
AreDistinct (r ∷ rules) = All (λ s. triple_of r ≢ triple_of s) rules × AreDistinct rules

rule_of-IsRule : (item : Item) (r : EventRule) → rule_of item ≡ ok r → IsRule r
unfolding rule_of
rule_of-IsRule no_mapping r h = cc
rule_of-IsRule (mapping item) r h =
    let (raw_service, _, h1) = bind-eq-ok (required (text "service") item) _ h in
    let (service, es, h2) = bind-eq-ok (normalise_uuid raw_service) _ h1 in
    let (raw_characteristic, _, h3) = bind-eq-ok (required (text "characteristic") item) _ h2 in
    let (characteristic, ec, h4) = bind-eq-ok (normalise_uuid raw_characteristic) _ h3 in
    let (raw_name, _, h5) = bind-eq-ok (required (text "event") item) _ h4 in
    let (u, en, h6) = bind-eq-ok (raise_if (is_nil (strip raw_name)) config_error) _ h5 in
    let (prefix, _, h7) = bind-eq-ok (parse_prefix (lookup (text "prefix") item)) _ h6 in
    rw (← ok-injective h7) (record {
      service = (normalise_uuid_lem raw_service service es).0;
      characteristic = (normalise_uuid_lem raw_characteristic characteristic ec).0;
      event = raise_if-eq-ok (is_nil (strip raw_name)) config_error en;
    })

-- A triple that was not seen is that of none of the rules so far.
is_seen-false :
    (key : Str × Str × Bytes) (rules : List EventRule)
    → is_seen key rules ≡ false
    → All (λ s. triple_of s ≢ key) rules
unfolding is_seen
is_seen-false key [] h = tt
is_seen-false key (r ∷ rules) h = (
  λ e. absurd (ground (arith, (triple_eq_iff (triple_of r) key).1 e)),
  is_seen-false key rules (ground arith),
)

-- The rules that the loop adds are rules, distinct, none of them seen before, and as many as the items.
abbrev Loaded : List EventRule → List EventRule → ℕ → Type 0
Loaded seen rules n =
    All IsRule rules
    × AreDistinct rules
    × All (λ r. All (λ s. triple_of s ≢ triple_of r) seen) rules
    × (length rules ≡ n)

heads :
    (r : EventRule) (seen rules : List EventRule)
    → All (λ x. All (λ s. triple_of s ≢ triple_of x) (r ∷ seen)) rules
    → All (λ s. triple_of r ≢ triple_of s) rules
heads r seen [] h = tt
heads r seen (x ∷ rules) h = (h.0.0, heads r seen rules h.1)

tails :
    (r : EventRule) (seen rules : List EventRule)
    → All (λ x. All (λ s. triple_of s ≢ triple_of x) (r ∷ seen)) rules
    → All (λ x. All (λ s. triple_of s ≢ triple_of x) seen) rules
tails r seen [] h = tt
tails r seen (x ∷ rules) h = (h.0.1, tails r seen rules h.1)

load_items-Loaded :
    (items : List Item) (seen rules : List EventRule)
    → load_items items seen ≡ ok rules
    → Loaded seen rules (length items)
unfolding load_items
load_items-Loaded [] seen rules h = rw (← ok-injective h) (tt, tt, tt, refl)
load_items-Loaded (item ∷ items) seen rules h =
    let (r, er, h1) = bind-eq-ok (rule_of item) _ h in
    let (u, es, h2) = bind-eq-ok (raise_if (is_seen (triple_of r) seen) config_error) _ h1 in
    let (rest, el, h3) = bind-eq-ok (load_items items (r ∷ seen)) _ h2 in
    let (are, distinct, unseen, n) = load_items-Loaded items (r ∷ seen) rest el in
    let new =
      is_seen-false (triple_of r) seen
        (raise_if-eq-ok (is_seen (triple_of r) seen) config_error es) in
    rw (← ok-injective h3) (
      (rule_of-IsRule item r er, are),
      (heads r seen rest unseen, distinct),
      (new, tails r seen rest unseen),
      ap suc n,
    )

-- A configuration that loads has at least one rule, and one for each of its items; every rule has full
-- UUIDs in normal form and a name, and no two rules have one service, characteristic and prefix.
pub load_events_lem :
    (items : Option (List Item)) (rules : List EventRule)
    → load_events items ≡ ok rules
    → (listed : List Item) × (items ≡ some listed)
      × (length rules ≡ length listed)
      × (rules ≢ [])
      × All IsRule rules
      × AreDistinct rules
unfolding load_events
load_events_lem none rules h = cc
load_events_lem (some []) rules h = cc
load_events_lem (some (item ∷ items)) rules h =
    let (are, distinct, _, n) = load_items-Loaded (item ∷ items) [] rules h in
    (item ∷ items, refl, n, (λ e. absurd (no_rule (sym (ap length e) ∙ n))), are, distinct)
  where
    no_rule : 0 ≡ suc (length items) → ⊥
    no_rule e = omega arith
