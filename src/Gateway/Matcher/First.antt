-- ===== src/Gateway/Matcher/First.antt =====
-- gateway/matcher.py and a scan of all rules.
use ble_usage_meter.Common.{
  ℕ, zero, suc, ◌+◌, ◌≡◌, refl, sym, ap, ◌∙◌, ◌↔◌, Str, Bytes, List, [], ◌∷◌, ◌++◌, true, ◌&&◌,
  Option, none, some, length, length-append, take, drop, take-append, lower, str_eq_iff,
  pair_eq_iff, if◌then◌else◌, pair_is_eq, ◌==◌, arith, Bool-cases, inl, inr,
}
use ble_usage_meter.Common.Dict.{lookup, get_or, insert, get_or-insert}
use ble_usage_meter.Gateway.Config.{EventRule}
use ble_usage_meter.Gateway.Matcher.{
  GattWrite, Matcher, rule_key, add_rule, add_rules, matcher_of, rule_count, has_prefix,
  match_rules, match,
}

abbrev write_key : GattWrite → Str × Str
write_key w = (lower w.service, lower w.characteristic)

-- The first rule, in the order of the configuration, for the characteristic and the payload.
unfoldable pub first_match : List EventRule → GattWrite → Option Str
first_match [] w = none
first_match (r ∷ rules) w =
    if (rule_key r == write_key w) && has_prefix r.prefix w.payload
    then some r.event
    else first_match rules w

or_else : Option Str → Option Str → Option Str
or_else none o = o
or_else (some e) o = some e

match_rules-append :
    (xs ys : List EventRule) (payload : Bytes)
    → match_rules (xs ++ ys) payload ≡ or_else (match_rules xs payload) (match_rules ys payload)
unfolding match_rules or_else
match_rules-append [] ys payload = refl
match_rules-append (x ∷ xs) ys payload = ground (arith, match_rules-append xs ys payload)

match-get_or :
    (m : Matcher) (w : GattWrite) → match m w ≡ match_rules (get_or (write_key w) [] m) w.payload
unfolding match get_or match_rules
match-get_or m w = ground arith

or_else-none : (o : Option Str) → or_else o none ≡ o
unfolding or_else
or_else-none none = refl
or_else-none (some e) = refl

-- What a new rule adds to the candidates for a key.
match_rules-insert :
    (r : EventRule) (m : Matcher) (key : Str × Str) (payload : Bytes)
    → match_rules
        (if rule_key r == key then get_or (rule_key r) [] m ++ r ∷ [] else get_or key [] m)
        payload
      ≡ or_else
          (match_rules (get_or key [] m) payload)
          (if (rule_key r == key) && has_prefix r.prefix payload then some r.event else none)
unfolding match_rules
match_rules-insert r m key payload = elim (Bool-cases (rule_key r == key)) [
  | inl same ↦
      rw (same, (pair_eq_iff (rule_key r) key).0 same)
        (match_rules-append (get_or key [] m) (r ∷ []) payload)
  | inr other ↦ rw (other, or_else-none) refl
]

match-add_rule :
    (r : EventRule) (m : Matcher) (w : GattWrite)
    → match (add_rule r m) w
      ≡ or_else (match m w) (
          if (rule_key r == write_key w) && has_prefix r.prefix w.payload
          then some r.event
          else none)
unfolding add_rule
match-add_rule r m w =
    match-get_or (add_rule r m) w
    ∙ ap (λ rules. match_rules rules w.payload)
        (get_or-insert (rule_key r) (write_key w) (get_or (rule_key r) [] m ++ r ∷ []) [] m)
    ∙ match_rules-insert r m (write_key w) w.payload
    ∙ rw (match-get_or m w) refl

match-add_rules :
    (rules : List EventRule) (m : Matcher) (w : GattWrite)
    → match (add_rules rules m) w ≡ or_else (match m w) (first_match rules w)
unfolding add_rules first_match or_else
match-add_rules [] m w = sym (or_else-none (match m w))
match-add_rules (r ∷ rules) m w =
    match-add_rules rules (add_rule r m) w ∙ ground (arith, match-add_rule r m w)

-- A write is given the event of the first rule, in the order of the configuration, whose service and
-- characteristic are the write's but for case and whose prefix the payload has; none, if none is so.
pub match-first_match :
    (rules : List EventRule) (w : GattWrite) → match (matcher_of rules) w ≡ first_match rules w
unfolding match lookup or_else
match-first_match rules w = match-add_rules rules [] w

-- The number of rules, over all characteristics, is that of the configuration.
rule_count-insert :
    (k : Str × Str) (rules : List EventRule) (m : Matcher)
    → rule_count (insert k rules m) + length (get_or k [] m) ≡ rule_count m + length rules
unfolding rule_count insert get_or lookup
rule_count-insert k rules [] = omega arith
rule_count-insert k rules ((j, old) ∷ m) = ground (arith, rule_count-insert k rules m)

rule_count-add_rules :
    (rules : List EventRule) (m : Matcher)
    → rule_count (add_rules rules m) ≡ rule_count m + length rules
unfolding add_rules add_rule
rule_count-add_rules [] m = omega arith
rule_count-add_rules (r ∷ rules) m =
    let old = get_or (rule_key r) [] m in
    omega (
      arith,
      rule_count-add_rules rules (add_rule r m),
      rule_count-insert (rule_key r) (old ++ r ∷ []) m,
      length-append old (r ∷ []),
    )

-- No rule of the configuration is lost: the matcher counts as many rules as there are.
pub rule_count_lem : (rules : List EventRule) → rule_count (matcher_of rules) ≡ length rules
unfolding rule_count
rule_count_lem rules = omega (arith, rule_count-add_rules rules [])

take-drop : (n : ℕ) (xs : Bytes) → take n xs ++ drop n xs ≡ xs
take-drop zero xs = refl
take-drop (suc n) [] = refl
take-drop (suc n) (x ∷ xs) = ap (λ l. x ∷ l) (take-drop n xs)

-- The prefix test holds exactly where the payload is the prefix and something behind it.
pub has_prefix_iff :
    (prefix payload : Bytes)
    → (has_prefix prefix payload ≡ true) ↔ ((rest : Bytes) × (payload ≡ prefix ++ rest))
unfolding has_prefix
has_prefix_iff [] payload = (λ h. (payload, refl), λ p. refl)
has_prefix_iff (b ∷ bs) payload = (
  λ h.
      let n = length (b ∷ bs) in
      (
        drop n payload,
        sym (take-drop n payload)
            ∙ ap (λ p. p ++ drop n payload)
                ((str_eq_iff (take n payload) (b ∷ bs)).0 (ground arith)),
      ),
  λ (rest, e).
      rw (e, take-append (b ∷ bs) rest, (str_eq_iff (b ∷ bs) (b ∷ bs)).1 refl)
        (ground (arith, length-append (b ∷ bs) rest)),
)

-- Of two rules on one characteristic, one of them without a prefix, the first in the configuration
-- decides the event of every write that has the other's prefix.
pub order_matters :
    (any narrow : EventRule) (w : GattWrite)
    → rule_key any ≡ write_key w
    → rule_key narrow ≡ write_key w
    → any.prefix ≡ []
    → has_prefix narrow.prefix w.payload ≡ true
    → (match (matcher_of (any ∷ narrow ∷ [])) w ≡ some any.event)
      × (match (matcher_of (narrow ∷ any ∷ [])) w ≡ some narrow.event)
unfolding first_match has_prefix
order_matters any narrow w ha hn empty hp = (
  match-first_match (any ∷ narrow ∷ []) w
      ∙ ground (arith, pair_eq_iff (rule_key any) (write_key w)),
  match-first_match (narrow ∷ any ∷ []) w
      ∙ rw (hp, (pair_eq_iff (rule_key narrow) (write_key w)).1 hn) refl,
)
