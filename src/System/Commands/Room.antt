-- ===== src/System/Commands/Room.antt =====
-- What one run of a command (gateway/cli.py) may do to the tables, and the room that it needs.
use ble_usage_meter.Common.{
  ℕ, suc, ◌+◌, ◌≤◌, ◌≡◌, refl, sym, Str, List, [], ◌∷◌, length, true, some, ok, arith, str_is_eq,
}
use ble_usage_meter.Common.Int.{ℤ, pos, ◌≤ℤ◌, ◌+ℤ◌, max_ℤ, +ℤ_parts, +ℤ_zero}
use ble_usage_meter.Gateway.Config.{EventRule}
use ble_usage_meter.Gateway.Config.Settings.{GatewayConfig}
use ble_usage_meter.Gateway.Counter.{Counter}
use ble_usage_meter.Gateway.Matcher.{GattWrite}
use ble_usage_meter.Gateway.Store.{Store, is_int64, load_sequence}
use ble_usage_meter.Gateway.Store.AppendOnly.{stored_count}
use ble_usage_meter.Gateway.Pipeline.{load}
use ble_usage_meter.Gateway.Pipeline.Counts.{IsExact, load-get}
use ble_usage_meter.Gateway.Pipeline.Uses.{IsReady}
use ble_usage_meter.Gateway.Reporter.Runs.{run_sequence}
use ble_usage_meter.Gateway.Command.Watch.{pipeline_of}
use ble_usage_meter.System.Metered.{uses_among}
use ble_usage_meter.System.Commands.{AgreesWithLog, HasRoom}

-- What one run comes to, where it meets so many uses of each device.
pub record Counted (s t : Store) (uses : Str → ℕ) : Type 0 where
  pub agrees : AgreesWithLog t
  pub counts : (d : Str) → stored_count t d ≡ stored_count s d +ℤ pos (uses d)
  pub sequence : load_sequence t ≤ℤ max_ℤ (pos 0) (load_sequence s) +ℤ pos 1

pub below_next : (q : ℤ) → q ≤ℤ max_ℤ (pos 0) q +ℤ pos 1
below_next q = ground (arith, +ℤ_parts (max_ℤ (pos 0) q) (pos 1))

below_room :
    (q : ℤ) (k : ℕ)
    → max_ℤ (pos 0) q +ℤ pos k ≤ℤ pos 9223372036854775807
    → (q ≤ℤ pos 9223372036854775807) × (is_int64 (max_ℤ (pos 0) q) ≡ true)
below_room q k h = ground (arith, h, +ℤ_parts (max_ℤ (pos 0) q) (pos k))

pub saved_next :
    (s : Store)
    → load_sequence (record s { sequence = some (run_sequence s) })
      ≤ℤ max_ℤ (pos 0) (load_sequence s) +ℤ pos 1
unfolding load_sequence
saved_next s = omega arith

pub nothing-Counted : (s : Store) → AgreesWithLog s → Counted s s (λ d. 0)
nothing-Counted s a = record {
  agrees = a;
  counts = λ d. sym (+ℤ_zero (stored_count s d));
  sequence = below_next (load_sequence s);
}

pub uses_among-length :
    (rules : List EventRule) (d : Str) (ws : List GattWrite) → uses_among rules d ws ≤ length ws
unfolding uses_among
uses_among-length rules d [] = omega arith
uses_among-length rules d (w ∷ ws) = ground (arith, uses_among-length rules d ws)

-- The room for the first writes, and what is left of it after them.
pub first_room : (b n k : ℕ) (s : Store) → HasRoom (b + n) k s → HasRoom b k s
first_room b n k s room = record {
  counts = λ d. ground (
    arith,
    room.counts d,
    +ℤ_parts (stored_count s d) (pos (b + n)),
    +ℤ_parts (stored_count s d) (pos b),
  );
  sequence = room.sequence;
}

pub left_room :
    (b n k : ℕ) (s t : Store) (uses : Str → ℕ)
    → HasRoom (b + n) (suc k) s
    → Counted s t uses
    → ((d : Str) → uses d ≤ b)
    → HasRoom n k t
left_room b n k s t uses room done few = record {
  counts =
      λ d. rw (done.counts d) (count_left (stored_count s d) b n (uses d) (few d) (room.counts d));
  sequence = sequence_left (load_sequence s) (load_sequence t) k done.sequence room.sequence;
}
  where
    count_left :
        (c : ℤ) (b n u : ℕ)
        → u ≤ b
        → c +ℤ pos (b + n) ≤ℤ pos 9223372036854775807
        → (c +ℤ pos u) +ℤ pos n ≤ℤ pos 9223372036854775807
    count_left c b n u h k =
        ground
          (arith, h, k, +ℤ_parts c (pos (b + n)), +ℤ_parts c (pos u), +ℤ_parts (c +ℤ pos u) (pos n))

    sequence_left :
        (p q : ℤ) (k : ℕ)
        → q ≤ℤ max_ℤ (pos 0) p +ℤ pos 1
        → max_ℤ (pos 0) p +ℤ pos (suc k) ≤ℤ pos 9223372036854775807
        → max_ℤ (pos 0) q +ℤ pos k ≤ℤ pos 9223372036854775807
    sequence_left p q k h i = ground (
      arith,
      h,
      i,
      +ℤ_parts (max_ℤ (pos 0) p) (pos 1),
      +ℤ_parts (max_ℤ (pos 0) p) (pos (suc k)),
      +ℤ_parts (max_ℤ (pos 0) q) (pos k),
    )

-- What a process starts from.
pub load-AgreesWithLog :
    (s : Store)
    → AgreesWithLog s
    → (c : Counter) × (load s ≡ ok c) × IsExact s c × (c.sequence ≡ max_ℤ (pos 0) (load_sequence s))
load-AgreesWithLog s a =
    let nonneg : (d : Str) → pos 0 ≤ℤ stored_count s d = λ d. ground (arith, a.stored d) in
    let (c, e, g, q) = load-get s a.dict nonneg in
    (
      c,
      e,
      record {
        backed = record {
          dict = a.dict;
          counts = nonneg;
          live = λ d. rw (g d) (omega arith);
          log = λ d. rw (g d, a.stored d) (omega arith);
        };
        stored = a.stored;
      },
      q,
    )

pub pipeline_of-IsReady :
    (cfg : GatewayConfig) (n k : ℕ) (s : Store) (c : Counter)
    → IsExact s c
    → c.sequence ≡ max_ℤ (pos 0) (load_sequence s)
    → HasRoom n k s
    → IsReady cfg.rules n (pipeline_of cfg s c)
pipeline_of-IsReady cfg n k s c exact q room =
    let (small, fits) = below_room (load_sequence s) k room.sequence in
    record {
      matcher = refl;
      exact = exact;
      sequence = rw q fits;
      in_range = small;
      room = room.counts;
    }
