-- ===== src/Gateway/Command/Status.antt =====
-- gateway/cli.py: the `status` command.
use ble_usage_meter.Common.{
  ℕ, ◌≡◌, refl, sym, Str, List, [], ◌++◌, map, Bool, true, false, not, ◌&&◌, ◌||◌, Option, none,
  some, Result, ok, ◌>>=◌, if◌then◌else◌, length, drop, min, inl, inr, Bool-cases, append-nil,
  take-drop, length-take, str_eq, str_is_eq, str_eq_iff, arith,
}
use ble_usage_meter.Common.Int.{ℤ, pos, negsuc, ◌≤ℤ◌, leb_ℤ, eqb_ℤ, max_ℤ}
use ble_usage_meter.Common.Dict.{IsDict}
use ble_usage_meter.Common.Sorting.{
  leb_str, leb_str_total, leb_str_trans, leb_str_antisym, Order, sort, IsSorted, sort-IsSorted,
  sort-Perm,
}
use ble_usage_meter.Gateway.Config.Settings.{GatewayConfig}
use ble_usage_meter.Gateway.Counter.{restore_sequence, snapshot}
use ble_usage_meter.Gateway.Store.{
  Store, EventRow, load_counters, load_sequence, limited, is_int64, recent_events, event_count,
}
use ble_usage_meter.Gateway.Pipeline.{load}
use ble_usage_meter.Gateway.Store.AppendOnly.{stored_count}
use ble_usage_meter.Gateway.Pipeline.Loaded.{load-counts}
use mathlib.Core.List.{Perm}

-- What a line on an event shows.
pub record Shown : Type 0 where
  pub ts : ℤ
  pub device_id : Str
  pub event : Str

-- What is printed. `recent` is none where no tail is asked for.
pub record Status : Type 0 where
  pub meter_id : Str
  pub db_path : Str
  pub rules_loaded : ℕ
  pub sequence : ℤ
  pub events_logged : ℕ
  pub counters : List (Str × ℤ)
  pub recent : Option (List Shown)

-- `<=` on the pairs of a device and its count.
unfoldable pub leb_count : Str × ℤ → Str × ℤ → Bool
leb_count (d, m) (e, n) = (leb_str d e && not (str_eq d e)) || (str_eq d e && leb_ℤ m n)

pub leb_count_total : (p q : Str × ℤ) → leb_count p q ≡ false → leb_count q p ≡ true
unfolding leb_count
leb_count_total (d, m) (e, n) h =
    ground (arith, h, leb_str_total d e, str_eq_iff d e, str_eq_iff e d)

pub leb_count_trans :
    (p q r : Str × ℤ) → leb_count p q ≡ true → leb_count q r ≡ true → leb_count p r ≡ true
unfolding leb_count
leb_count_trans (d, m) (e, n) (f, o) h k = ground (
  arith,
  h,
  k,
  leb_str_trans d e f,
  leb_str_antisym d e,
  str_eq_iff d e,
  str_eq_iff e f,
  str_eq_iff d f,
)

abbrev pub by_device : Order (Str × ℤ)
by_device = record { precedes = leb_count; total = leb_count_total; trans = leb_count_trans }

abbrev pub shown : EventRow → Shown
shown e = record { ts = e.ts; device_id = e.device_id; event = e.event }

-- The tail: none is asked for with 0.
unfoldable pub tail_of : ℤ → Store → Result (Option (List Shown))
tail_of events_tail s =
    if eqb_ℤ events_tail (pos 0)
    then ok none
    else (do rows ← recent_events events_tail s; ok (some (map shown rows)))

-- `cmd_status` after the configuration is loaded: what it prints, or what it raises, without what it
-- printed before, and the tables after it.
unfoldable pub cmd_status : GatewayConfig → ℤ → Store → Result Status × Store
unfolding tail_of event_count
cmd_status cfg events_tail s = (
  do
    counter ← load s
    tail ← tail_of events_tail s
    ok (record {
      meter_id = cfg.meter_id;
      db_path = cfg.db_path;
      rules_loaded = length cfg.rules;
      sequence = counter.sequence;
      events_logged = event_count none s;
      counters = sort by_device (snapshot counter);
      recent = tail;
    }),
  s,
)

-- How many of so many events a tail has.
abbrev pub wanted : ℤ → ℕ → ℕ
wanted (pos n) m = min n m
wanted (negsuc n) m = m

-- The lines are those of the newest events, as many as are wanted; there are none for a tail of 0.
abbrev pub IsTail : ℤ → List EventRow → Option (List Shown) → Type 0
IsTail events_tail events none = events_tail ≡ pos 0
IsTail events_tail events (some rows) =
    (newest : List EventRow) × (older : List EventRow) × (events ≡ newest ++ older)
    × (length newest ≡ wanted events_tail (length events))
    × (rows ≡ map shown newest)

limited-parts :
    (n : ℤ) (events : List EventRow)
    → (older : List EventRow) × (events ≡ limited n events ++ older)
      × (length (limited n events) ≡ wanted n (length events))
unfolding limited
limited-parts (pos n) events = (drop n events, sym (take-drop n events), length-take n events)
limited-parts (negsuc n) events = ([], sym (append-nil events), refl)

tail_of-IsTail :
    (events_tail : ℤ) (s : Store)
    → is_int64 events_tail ≡ true
    → (tail : Option (List Shown)) × (tail_of events_tail s ≡ ok tail)
      × IsTail events_tail s.events tail
unfolding tail_of recent_events
tail_of-IsTail events_tail s fits = elim (Bool-cases (eqb_ℤ events_tail (pos 0))) [
  | inl e ↦ (none, rw e refl, ground (arith, e))
  | inr e ↦
      let (older, all, enough) = limited-parts events_tail s.events in
      (
        some (map shown (limited events_tail s.events)),
        rw (e, fits) refl,
        (limited events_tail s.events, older, all, enough, refl),
      )
]

-- Where no stored count is negative and none is twice there, and the tail that is asked for has 64
-- bits: the command shows every stored count once, by device, with the stored sequence, or 0 where that
-- is negative, the number of the events and the newest of them, as many as are asked for, and
-- changes nothing.
pub cmd_status_lem :
    (cfg : GatewayConfig) (events_tail : ℤ) (s : Store)
    → IsDict s.counters
    → ((d : Str) → pos 0 ≤ℤ stored_count s d)
    → is_int64 events_tail ≡ true
    → (r : Status) × (cmd_status cfg events_tail s ≡ (ok r, s))
      × IsSorted by_device r.counters
      × Perm r.counters (load_counters s)
      × (r.sequence ≡ max_ℤ (pos 0) (load_sequence s))
      × (r.events_logged ≡ length s.events)
      × IsTail events_tail s.events r.recent
unfolding cmd_status event_count restore_sequence
cmd_status_lem cfg events_tail s dict h fits =
    let (tail, shows, is_tail) = tail_of-IsTail events_tail s fits in
    let c =
      restore_sequence (load_sequence s) (record { counts = load_counters s; sequence = pos 0 }) in
    let counts : c.counts ≡ load_counters s = ground arith in
    (
      record {
        meter_id = cfg.meter_id;
        db_path = cfg.db_path;
        rules_loaded = length cfg.rules;
        sequence = c.sequence;
        events_logged = length s.events;
        counters = sort by_device c.counts;
        recent = tail;
      },
      rw (load-counts s dict h, shows) refl,
      sort-IsSorted by_device c.counts,
      rw counts (sort-Perm by_device (load_counters s)),
      ground arith,
      refl,
      is_tail,
    )
