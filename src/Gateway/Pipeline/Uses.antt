-- ===== src/Gateway/Pipeline/Uses.antt =====
-- The meter against its specification: the number of uses among the writes that were observed.
use ble_usage_meter.Common.{
  ℕ, suc, ◌+◌, ◌≡◌, refl, sym, ap, ◌∙◌, Str, List, [], ◌∷◌, Bool, true, false, not, ◌&&◌, Result,
  ok, err, arith, if◌then◌else◌, ◌==◌, str_is_eq, Result-cases, inl, inr, length,
}
use ble_usage_meter.Common.Int.{ℤ, pos, ◌+ℤ◌, +ℤ_parts, +ℤ_zero, +ℤ_pos_assoc, ◌≤ℤ◌, ◌<ℤ◌}
use ble_usage_meter.Gateway.Config.{EventRule}
use ble_usage_meter.Gateway.Counter.{Counter, get}
use ble_usage_meter.Gateway.Matcher.{matcher_of, GattWrite, unknown, or_unknown, classify}
use ble_usage_meter.Gateway.Matcher.First.{first_match, match-first_match}
use ble_usage_meter.Gateway.Store.{is_int64, load_sequence}
use ble_usage_meter.Gateway.Store.AppendOnly.{stored_count}
use ble_usage_meter.Gateway.Pipeline.{Pipeline, handle, load}
use ble_usage_meter.Gateway.Pipeline.Counts.{IsExact, load-get}
use ble_usage_meter.Gateway.Pipeline.Steps.{is_known, one_if}
use ble_usage_meter.Gateway.Pipeline.Runs.{load-IsBacked}
use ble_usage_meter.Gateway.Pipeline.Same.{handle-Same}
use ble_usage_meter.Gateway.Pipeline.Exact.{handle_lem}

-- A write of a device for which a rule names an event other than `unknown`.
abbrev pub is_use : List EventRule → Str → GattWrite → Bool
is_use rules d w = (w.peer_addr == d) && not (or_unknown (first_match rules w) == unknown)

-- What is observed, with the instants of its two statements, or a process that takes over.
pub data Action : Type 0 where
  observed : GattWrite → ℤ → ℤ → Action
  restart : Action

abbrev pub take_over : Pipeline → Result Counter → Pipeline
take_over p (ok c) = record p { counter = c }
take_over p (err e) = p

unfoldable pub act : Action → Pipeline → Pipeline
act (observed w now later) p = (handle w now later p).1
act restart p = take_over p (load p.store)

unfoldable pub act_all : List Action → Pipeline → Pipeline
act_all [] p = p
act_all (a ∷ rest) p = act_all rest (act a p)

-- The specification: how many uses of a device are among what was observed.
unfoldable pub uses : List EventRule → Str → List Action → ℕ
uses rules d [] = 0
uses rules d (observed w now later ∷ rest) = (if is_use rules d w then 1 else 0) + uses rules d rest
uses rules d (restart ∷ rest) = uses rules d rest

-- A meter with these rules whose counts agree with its log, and that has room for so many more writes.
pub record IsReady (rules : List EventRule) (n : ℕ) (p : Pipeline) : Type 0 where
  pub matcher : p.matcher ≡ matcher_of rules
  pub exact : IsExact p.store p.counter
  pub sequence : is_int64 p.counter.sequence ≡ true
  pub in_range : load_sequence p.store ≤ℤ pos 9223372036854775807
  pub room : (d : Str) → stored_count p.store d +ℤ pos n ≤ℤ pos 9223372036854775807

is_known-is_use :
    (rules : List EventRule) (p : Pipeline) (w : GattWrite) (d : Str)
    → p.matcher ≡ matcher_of rules
    → is_known (classify p.matcher w) w.peer_addr d ≡ is_use rules d w
unfolding classify
is_known-is_use rules p w d h = rw (h, match-first_match rules w) refl

one_if_pos : (b : Bool) → one_if b ≡ pos (if b then 1 else 0)
one_if_pos true = refl
one_if_pos false = refl

-- One write of so many raises a count by one at most.
room_left :
    (c : ℤ) (n : ℕ) (b : Bool)
    → pos 0 ≤ℤ c
    → c +ℤ pos (suc n) ≤ℤ pos 9223372036854775807
    → (c +ℤ pos (if b then 1 else 0)) +ℤ pos n ≤ℤ pos 9223372036854775807
room_left c n b h k = ground (
  arith,
  +ℤ_parts c (pos (suc n)),
  +ℤ_parts c (pos (if b then 1 else 0)),
  +ℤ_parts (c +ℤ pos (if b then 1 else 0)) (pos n),
)

module _ (rules : List EventRule) (n : ℕ) (p : Pipeline) (r : IsReady rules (suc n) p) where
  -- The live count is the stored one.
  room_for : (w : GattWrite) → get p.counter w.peer_addr <ℤ pos 9223372036854775807
  room_for w =
      let d = w.peer_addr in
      ground (
        arith,
        r.room d,
        r.exact.stored d,
        r.exact.backed.live d,
        r.exact.backed.log d,
        +ℤ_parts (stored_count p.store d) (pos (suc n)),
      )

  observed-IsReady :
      (w : GattWrite) (now later : ℤ)
      → IsReady rules n (handle w now later p).1
        × ((d : Str)
            → stored_count (handle w now later p).1.store d
              ≡ stored_count p.store d +ℤ pos (if is_use rules d w then 1 else 0))
  observed-IsReady w now later =
      let h = room_for w in
      let (done, row, exact, counted_up) = handle_lem w now later p r.exact r.sequence h in
      let (m, q, c) = handle-Same w now later p in
      let stored = λ (d : Str).
        counted_up d
        ∙ ap (λ z. stored_count p.store d +ℤ z)
            (ap one_if (is_known-is_use rules p w d r.matcher) ∙ one_if_pos (is_use rules d w)) in
      (
        record {
          matcher = m ∙ r.matcher;
          exact = exact;
          sequence = rw c r.sequence;
          in_range = rw q r.in_range;
          room = λ d. rw (stored d) (
              room_left (stored_count p.store d) n (is_use rules d w) (r.exact.backed.counts d)
                (r.room d));
        },
        stored,
      )

  restart-IsReady :
      IsReady rules n (take_over p (load p.store))
      × ((d : Str) → stored_count (take_over p (load p.store)).store d ≡ stored_count p.store d)
  restart-IsReady =
      let (c, e, g, q) = load-get p.store r.exact.backed.dict r.exact.backed.counts in
      rw e (
        record {
          matcher = r.matcher;
          exact = record {
            backed = load-IsBacked p.store p.counter c r.exact.backed e;
            stored = r.exact.stored;
          };
          sequence = rw q (ground (arith, r.in_range));
          in_range = r.in_range;
          room = λ d. ground (
            arith,
            r.room d,
            +ℤ_parts (stored_count p.store d) (pos (suc n)),
            +ℤ_parts (stored_count p.store d) (pos n),
          );
        },
        λ d. refl,
      )

-- Every action leaves room for the others, and counts its uses.
pub act_all-IsReady :
    (rules : List EventRule) (actions : List Action) (p : Pipeline)
    → IsReady rules (length actions) p
    → IsReady rules 0 (act_all actions p)
      × ((d : Str)
          → stored_count (act_all actions p).store d
            ≡ stored_count p.store d +ℤ pos (uses rules d actions))
unfolding act_all uses act
act_all-IsReady rules [] p r = (r, λ d. sym (+ℤ_zero (stored_count p.store d)))
act_all-IsReady rules (observed w now later ∷ rest) p r =
    let (r', one) = observed-IsReady rules (length rest) p r w now later in
    let (ready, more) = act_all-IsReady rules rest (handle w now later p).1 r' in
    (
      ready,
      λ d.
          more d
          ∙ ap (λ z. z +ℤ pos (uses rules d rest)) (one d)
          ∙ +ℤ_pos_assoc (stored_count p.store d) (if is_use rules d w then 1 else 0)
              (uses rules d rest),
    )
act_all-IsReady rules (restart ∷ rest) p r =
    let (r', same) = restart-IsReady rules (length rest) p r in
    let (ready, more) = act_all-IsReady rules rest (take_over p (load p.store)) r' in
    (ready, λ d. more d ∙ ap (λ z. z +ℤ pos (uses rules d rest)) (same d))

act-sequence : (a : Action) (p : Pipeline) → load_sequence (act a p).store ≡ load_sequence p.store
unfolding act
act-sequence (observed w now later) p = (handle-Same w now later p).1
act-sequence restart p = elim (Result-cases (load p.store)) [
  | inl (c, e) ↦ rw e refl
  | inr (raised, e) ↦ rw e refl
]

-- No action saves a sequence.
pub act_all-sequence :
    (actions : List Action) (p : Pipeline)
    → load_sequence (act_all actions p).store ≡ load_sequence p.store
unfolding act_all
act_all-sequence [] p = refl
act_all-sequence (a ∷ rest) p = act_all-sequence rest (act a p) ∙ act-sequence a p

-- However often processes take over in between: the stored count of a device goes up by exactly the
-- number of its uses among what was observed, for a meter whose counts agree with its log, and as long
-- as every count has 64 bits. The log agrees in the end, too.
pub act_all_refines :
    (rules : List EventRule) (actions : List Action) (p : Pipeline)
    → IsReady rules (length actions) p
    → IsExact (act_all actions p).store (act_all actions p).counter
      × ((d : Str)
          → stored_count (act_all actions p).store d
            ≡ stored_count p.store d +ℤ pos (uses rules d actions))
act_all_refines rules actions p r =
    let (ready, more) = act_all-IsReady rules actions p r in (ready.exact, more)
