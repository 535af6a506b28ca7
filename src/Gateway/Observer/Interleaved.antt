-- ===== src/Gateway/Observer/Interleaved.antt =====
-- The notifications of several characteristics, interleaved.
use ble_usage_meter.Common.{
  ◌≡◌, refl, ap, ◌∙◌, Str, Bytes, List, [], ◌∷◌, true, false, some, if◌then◌else◌, ◌==◌,
  pair_eq_iff, pair_is_eq, arith, Option-cases, Bool-cases, inl, inr,
}
use ble_usage_meter.Common.Dict.{Dict, lookup, insert, lookup-insert}
use ble_usage_meter.Gateway.Matcher.{GattWrite}
use ble_usage_meter.Gateway.Observer.{
  handler, passed_on, Notification, key_of, handle_with, deliver_to, deliver, observe_all,
}

-- The notifications, and the writes, of one characteristic.
unfoldable pub notifications_of : Str × Str → List Notification → List Notification
notifications_of key [] = []
notifications_of key (n ∷ ns) =
    if key_of n == key then n ∷ notifications_of key ns else notifications_of key ns

unfoldable pub writes_of : Str × Str → List GattWrite → List GattWrite
writes_of key [] = []
writes_of key (w ∷ ws) =
    if (w.service, w.characteristic) == key then w ∷ writes_of key ws else writes_of key ws

-- One handler alone, with its buffer.
unfoldable pub alone : Str → List Notification → Bytes → List GattWrite
alone address [] buf = []
alone address (n ∷ ns) buf =
    let (w, buf') = handle_with address n buf in passed_on w (alone address ns buf')

module _ (address : Str) (key : Str × Str) where
  -- What a handler passes on is of its characteristic.
  writes_of-own :
      (n : Notification) (buf : Bytes) (ws : List GattWrite)
      → (key_of n == key) ≡ true
      → writes_of key (passed_on (handle_with address n buf).0 ws)
        ≡ passed_on (handle_with address n buf).0 (writes_of key ws)
  unfolding handler writes_of
  writes_of-own n buf ws h = ground (arith, h)

  writes_of-foreign :
      (n : Notification) (buf : Bytes) (ws : List GattWrite)
      → (key_of n == key) ≡ false
      → writes_of key (passed_on (handle_with address n buf).0 ws) ≡ writes_of key ws
  unfolding handler writes_of
  writes_of-foreign n buf ws h = ground (arith, h)

  own_delivered :
      (n : Notification) (bufs : Dict (Str × Str) Bytes) (buf : Bytes)
      → lookup key bufs ≡ some buf
      → (key_of n == key) ≡ true
      → deliver address n bufs
        ≡ ((handle_with address n buf).0, insert (key_of n) (handle_with address n buf).1 bufs)
  unfolding deliver_to
  own_delivered n bufs buf h own =
      rw (ap (λ k. lookup k bufs) ((pair_eq_iff (key_of n) key).0 own) ∙ h) refl

  lookup_own :
      (n : Notification) (bufs : Dict (Str × Str) Bytes) (buf : Bytes)
      → (key_of n == key) ≡ true
      → lookup key (insert (key_of n) buf bufs) ≡ some buf
  lookup_own n bufs buf own = lookup-insert (key_of n) key buf bufs ∙ rw own refl

  foreign_writes :
      (n : Notification) (bufs : Dict (Str × Str) Bytes) (ws : List GattWrite)
      → (key_of n == key) ≡ false
      → writes_of key (passed_on (deliver address n bufs).0 ws) ≡ writes_of key ws
  unfolding deliver_to
  foreign_writes n bufs ws h = elim (Option-cases (lookup (key_of n) bufs)) [
    | inl e ↦ rw e refl
    | inr (buf, e) ↦ rw e (writes_of-foreign n buf ws h)
  ]

  lookup_foreign :
      (n : Notification) (bufs : Dict (Str × Str) Bytes) (buf : Bytes)
      → lookup key bufs ≡ some buf
      → (key_of n == key) ≡ false
      → lookup key (deliver address n bufs).1 ≡ some buf
  unfolding deliver_to
  lookup_foreign n bufs buf h foreign = elim (Option-cases (lookup (key_of n) bufs)) [
    | inl e ↦ rw e h
    | inr (other, e) ↦
        rw e (lookup-insert (key_of n) key (handle_with address n other).1 bufs ∙ rw foreign h)
  ]

  -- However the notifications of the characteristics interleave, the writes of each characteristic
  -- that has a handler are those that its handler makes of its own notifications, in their order.
  pub observe_all-alone :
      (ns : List Notification) (bufs : Dict (Str × Str) Bytes) (buf : Bytes)
      → lookup key bufs ≡ some buf
      → writes_of key (observe_all address ns bufs) ≡ alone address (notifications_of key ns) buf
  unfolding observe_all alone notifications_of
  observe_all-alone [] bufs buf h = unfold writes_of in refl
  observe_all-alone (n ∷ ns) bufs buf h = elim (Bool-cases (key_of n == key)) [
    | inl own ↦
        rw (own, own_delivered n bufs buf h own)
          (writes_of-own n buf _ own
            ∙ ap (passed_on (handle_with address n buf).0) (
                observe_all-alone ns (insert (key_of n) (handle_with address n buf).1 bufs)
                  (handle_with address n buf).1 (lookup_own n bufs _ own)))
    | inr foreign ↦ rw foreign (
        foreign_writes n bufs _ foreign
        ∙ observe_all-alone ns (deliver address n bufs).1 buf (lookup_foreign n bufs buf h foreign))
  ]
