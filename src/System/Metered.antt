-- ===== src/System/Metered.antt =====
-- The proxy (gateway/proxy.py) with the pipeline (gateway/cli.py) for its meter, as `cmd_proxy` puts them
-- together.
use ble_usage_meter.Common.{
  ℕ, suc, ◌+◌, ◌≡◌, refl, sym, ap, subst, ◌∙◌, Str, List, [], ◌∷◌, ◌++◌, map, if◌then◌else◌, length,
}
use ble_usage_meter.Common.Int.{ℤ, pos, ◌+ℤ◌}
use ble_usage_meter.Gateway.Config.{EventRule}
use ble_usage_meter.Gateway.Matcher.{GattWrite}
use ble_usage_meter.Gateway.Store.{load_sequence}
use ble_usage_meter.Gateway.Store.AppendOnly.{stored_count}
use ble_usage_meter.Gateway.Command.Watch.{Metered, on_write}
use ble_usage_meter.Gateway.Pipeline.Uses.{
  is_use, Action, observed, act, act_all, uses, IsReady, act_all-IsReady, act_all-sequence,
}
use ble_usage_meter.Gateway.Proxy.{Proxy, Event, relay}
use ble_usage_meter.Gateway.Proxy.Transparent.{passed, notified, shown, count_all, relay_refines}

-- How many uses of a device are among these writes.
unfoldable pub uses_among : List EventRule → Str → List GattWrite → ℕ
uses_among rules d [] = 0
uses_among rules d (w ∷ ws) = (if is_use rules d w then 1 else 0) + uses_among rules d ws

module _ (clock : ℕ → ℤ) where
  actions_of : ℕ → List GattWrite → List Action
  actions_of ticks [] = []
  actions_of ticks (w ∷ ws) =
      observed w (clock ticks) (clock (suc ticks)) ∷ actions_of (suc (suc ticks)) ws

  count_all-act_all :
      (ws : List GattWrite) (m : Metered)
      → (count_all (on_write clock) ws m).pipeline ≡ act_all (actions_of m.ticks ws) m.pipeline
  unfolding on_write act_all act actions_of
  count_all-act_all [] m = refl
  count_all-act_all (w ∷ ws) m = count_all-act_all ws (on_write clock w m).1

  uses-actions_of :
      (rules : List EventRule) (d : Str) (ws : List GattWrite) (ticks : ℕ)
      → uses rules d (actions_of ticks ws) ≡ uses_among rules d ws
  unfolding uses uses_among actions_of
  uses-actions_of rules d [] ticks = refl
  uses-actions_of rules d (w ∷ ws) ticks =
      ap (λ n. (if is_use rules d w then 1 else 0) + n)
        (uses-actions_of rules d ws (suc (suc ticks)))

  length-actions_of : (ws : List GattWrite) (ticks : ℕ) → length (actions_of ticks ws) ≡ length ws
  unfolding actions_of
  length-actions_of [] ticks = refl
  length-actions_of (w ∷ ws) ticks = ap suc (length-actions_of ws (suc (suc ticks)))

  -- Writes that are handed to the pipeline one after the other.
  pub count_all-IsReady :
      (rules : List EventRule) (ws : List GattWrite) (m : Metered)
      → IsReady rules (length ws) m.pipeline
      → let q = (count_all (on_write clock) ws m).pipeline in
        IsReady rules 0 q
        × (load_sequence q.store ≡ load_sequence m.pipeline.store)
        × ((d : Str)
            → stored_count q.store d
              ≡ stored_count m.pipeline.store d +ℤ pos (uses_among rules d ws))
  count_all-IsReady rules ws m ready =
      let acts = actions_of m.ticks ws in
      let same = count_all-act_all ws m in
      let (after, more) =
        act_all-IsReady rules acts m.pipeline
          (subst (λ n. IsReady rules n m.pipeline) (sym (length-actions_of ws m.ticks)) ready) in
      (
        subst (IsReady rules 0) (sym same) after,
        ap (λ q. load_sequence q.store) same ∙ act_all-sequence acts m.pipeline,
        λ d.
            ap (λ q. stored_count q.store d) same
            ∙ more d
            ∙ ap (λ n. stored_count m.pipeline.store d +ℤ pos n)
                (uses-actions_of rules d ws m.ticks),
      )

  -- The proxy passes on exactly the writes of the app that the Bluetooth stack takes, and all
  -- notifications of the appliance, unchanged and in order, and the stored count of a device goes up by
  -- the number of its uses among the writes that were passed on: none of those is missed, and none
  -- that was not passed on is counted. The meter's counts agree with its log before, and have room.
  pub metered_proxy :
      (rules : List EventRule) (es : List Event) (p : Proxy Metered)
      → IsReady rules (length (map (shown p.address) (passed p.has_client es))) p.meter.pipeline
      → let q = relay (on_write clock) es p in
        let xs = passed p.has_client es in
        (q.to_appliance ≡ p.to_appliance ++ map (λ x. x.sent) xs)
        × (q.to_app ≡ p.to_app ++ notified es)
        × ((d : Str)
            → stored_count q.meter.pipeline.store d
              ≡ stored_count p.meter.pipeline.store d
                +ℤ pos (uses_among rules d (map (shown p.address) xs)))
  metered_proxy rules es p ready =
      let (sent, told, metered) = relay_refines (on_write clock) es p in
      let (_, _, more) =
        count_all-IsReady rules (map (shown p.address) (passed p.has_client es)) p.meter ready in
      (sent, told, λ d. ap (λ m. stored_count m.pipeline.store d) metered ∙ more d)
