-- ===== src/Gateway/Matcher.antt =====
-- gateway/matcher.py: which event an observed write stands for.
pub mod First
mod Tests
use ble_usage_meter.Common.{
  ℕ, ◌+◌, Str, Bytes, text, List, [], ◌∷◌, ◌++◌, Bool, true, false, ◌&&◌, ◌||◌, Option, none, some,
  length, take, leb, lower, str_eq, if◌then◌else◌, pair_is_eq,
}
use ble_usage_meter.Common.Dict.{Dict, lookup, get_or, insert}
use ble_usage_meter.Gateway.Config.{EventRule}

unfoldable pub unknown : Str
unknown = text "unknown"

-- One complete, reassembled attribute value.
pub record GattWrite : Type 0 where
  pub peer_addr : Str
  pub service : Str
  pub characteristic : Str
  pub payload : Bytes

-- `_by_char`: the rules of each service and characteristic, in the order of the configuration.
abbrev pub Matcher : Type 0
Matcher = Dict (Str × Str) (List EventRule)

abbrev pub rule_key : EventRule → Str × Str
rule_key r = (lower r.service, lower r.characteristic)

-- `setdefault(key, []).append(r)`
unfoldable pub add_rule : EventRule → Matcher → Matcher
add_rule r m = insert (rule_key r) (get_or (rule_key r) [] m ++ r ∷ []) m

unfoldable pub add_rules : List EventRule → Matcher → Matcher
add_rules [] m = m
add_rules (r ∷ rules) m = add_rules rules (add_rule r m)

-- `Matcher(rules)`
abbrev pub matcher_of : List EventRule → Matcher
matcher_of rules = add_rules rules []

unfoldable pub rule_count : Matcher → ℕ
rule_count [] = 0
rule_count ((k, rules) ∷ m) = length rules + rule_count m

abbrev pub is_empty : Bytes → Bool
is_empty [] = true
is_empty (b ∷ bs) = false

-- The test of one candidate against a payload.
unfoldable pub has_prefix : Bytes → Bytes → Bool
has_prefix prefix payload =
    is_empty prefix
    || (leb (length prefix) (length payload) && str_eq (take (length prefix) payload) prefix)

-- The loop over the candidates.
unfoldable pub match_rules : List EventRule → Bytes → Option Str
match_rules [] payload = none
match_rules (r ∷ rules) payload =
    if has_prefix r.prefix payload then some r.event else match_rules rules payload

unfoldable pub match : Matcher → GattWrite → Option Str
match m w = elim (lookup (lower w.service, lower w.characteristic) m) [
  | none ↦ none
  | some candidates ↦ match_rules candidates w.payload
]

-- `self.match(write) or UNKNOWN`: an empty name is no name either.
abbrev pub or_unknown : Option Str → Str
or_unknown none = unknown
or_unknown (some []) = unknown
or_unknown (some (c ∷ s)) = c ∷ s

unfoldable pub classify : Matcher → GattWrite → Str
classify m w = or_unknown (match m w)
