-- ===== src/Gateway/Observer/Fragments.antt =====
-- gateway/observer.py: a value that comes in several fragments.
use ble_usage_meter.Common.{
  ℕ, ◌≤◌, ◌≡◌, ◌≢◌, refl, ap, sym, ◌∙◌, Str, Bytes, List, [], ◌∷◌, ◌++◌, append_assoc, none, some,
  length, arith, All,
}
use ble_usage_meter.Gateway.Matcher.{GattWrite}
use ble_usage_meter.Gateway.Observer.{handler, observe}

abbrev pub join : List Bytes → Bytes
join [] = []
join (xs ∷ xss) = xs ++ join xss

abbrev pub write_of : Str → Str → Str → Bytes → GattWrite
write_of address service_uuid char_uuid payload = record {
  peer_addr = address;
  service = service_uuid;
  characteristic = char_uuid;
  payload = payload;
}

module _ (address service_uuid char_uuid : Str) (mtu_payload : ℕ) where
  full_fragment :
      (received buf : Bytes)
      → 1 ≤ mtu_payload
      → length received ≡ mtu_payload
      → handler address service_uuid char_uuid mtu_payload received buf ≡ (none, buf ++ received)
  unfolding handler
  full_fragment received buf h k = ground (arith, k)

  last_fragment :
      (received buf : Bytes)
      → length received ≢ mtu_payload
      → handler address service_uuid char_uuid mtu_payload received buf
        ≡ (some (write_of address service_uuid char_uuid (buf ++ received)), [])
  unfolding handler
  last_fragment received buf k = ground (arith, k)

  -- Fragments of exactly the size of a full one, and then one of another size, make one write of all
  -- their bytes in order, behind what was in the buffer; the notifications after them begin with an
  -- empty buffer.
  pub observe-fragments :
      (fragments : List Bytes) (last buf : Bytes) (later : List Bytes)
      → 1 ≤ mtu_payload
      → All (λ f. length f ≡ mtu_payload) fragments
      → length last ≢ mtu_payload
      → observe address service_uuid char_uuid mtu_payload (fragments ++ last ∷ later) buf ≡ (
          let r = observe address service_uuid char_uuid mtu_payload later [] in
          (write_of address service_uuid char_uuid (buf ++ (join fragments ++ last)) ∷ r.0, r.1))
  unfolding observe
  observe-fragments [] last buf later h full short = rw (last_fragment last buf short) refl
  observe-fragments (f ∷ fragments) last buf later h full short =
      let r = observe address service_uuid char_uuid mtu_payload later [] in
      rw (full_fragment f buf h full.0) (
        observe-fragments fragments last (buf ++ f) later h full.1 short
        ∙ ap (λ p. (write_of address service_uuid char_uuid p ∷ r.0, r.1))
            (append_assoc buf f (join fragments ++ last)
              ∙ ap (λ p. buf ++ p) (sym (append_assoc f (join fragments) last))))
