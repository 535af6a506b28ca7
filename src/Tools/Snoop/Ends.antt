-- ===== src/Tools/Snoop/Ends.antt =====
-- tools/parse_snoop.py: how many turns the loop of `iter_records` takes.
use ble_usage_meter.Common.{
  ℕ, zero, suc, ◌≤◌, ◌≡◌, ap, sym, ◌∙◌, Bytes, [], ◌∷◌, length, length-drop, take, drop, ltb, ◌||◌,
  if◌then◌else◌, arith,
}
use ble_usage_meter.Common.BigEndian.{read_big_endian}
use ble_usage_meter.Tools.Snoop.{records_from}
use ble_usage_meter.Tools.Snoop.Records.{records_from-nil}

-- On any bytes, as many turns as there are bytes are enough: further turns read no further record, so
-- the loop of the source, which counts no turns, ends and has read the same records.
pub records_from-ends :
    (m n : ℕ) (rest : Bytes)
    → length rest ≤ m
    → length rest ≤ n
    → records_from m rest ≡ records_from n rest
unfolding records_from
records_from-ends m n [] hm hn = records_from-nil m ∙ sym (records_from-nil n)
records_from-ends zero n (b ∷ rest) hm hn = absurd (omega arith)
records_from-ends (suc m) zero (b ∷ rest) hm hn = absurd (omega arith)
records_from-ends (suc m) (suc n) (b ∷ rest) hm hn =
    let whole = b ∷ rest in
    let included = read_big_endian (take 4 (drop 4 whole)) in
    let body = drop 24 whole in
    let shorter : length (drop included body) ≤ length rest =
      omega (arith, length-drop included body, length-drop 24 whole) in
    ap
      (λ later.
        if ltb (length whole) 24 || ltb (length body) included
        then []
        else (read_big_endian (take 4 (drop 8 whole)), take included body) ∷ later)
      (records_from-ends m n (drop included body) (omega (arith, shorter)) (omega (arith, shorter)))
