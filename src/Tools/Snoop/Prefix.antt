-- ===== src/Tools/Snoop/Prefix.antt =====
-- A prefix that tools/parse_snoop.py prints, in an event rule that gateway/config.py loads.
use ble_usage_meter.Common.{
  ℕ, ◌+◌, ◌*◌, ◌/◌, ◌%◌, ◌<◌, ◌≡◌, refl, ap, Bytes, Str, [], ◌∷◌, true, false, some, ok, length,
  All, lower, lower_char, str_eq, arith,
}
use ble_usage_meter.Common.BigEndian.{IsByte}
use ble_usage_meter.Gateway.Config.{
  string, other, is_hex, all_chars, without, drop_0x, hex_value, from_hex, parse_hex, parse_prefix,
}
use ble_usage_meter.Tools.Snoop.Groups.{hex_digit, hex}

-- A digit is read back as its value.
digit-is_hex : (d : ℕ) → d < 16 → is_hex (hex_digit d) ≡ true
digit-is_hex d h = ground arith

digit-value : (d : ℕ) → d < 16 → hex_value (hex_digit d) ≡ d
digit-value d h = ground arith

hex-all_chars : (bs : Bytes) → All IsByte bs → all_chars is_hex (hex bs) ≡ true
unfolding hex all_chars
hex-all_chars [] h = refl
hex-all_chars (b ∷ bs) h =
    rw
      (
        digit-is_hex (b / 16) (omega (arith, h.0)),
        digit-is_hex (b % 16) (omega arith),
        hex-all_chars bs h.1,
      )
      refl

from_hex-hex : (bs : Bytes) → All IsByte bs → from_hex (hex bs) ≡ bs
unfolding hex from_hex
from_hex-hex [] h = refl
from_hex-hex (b ∷ bs) h =
    rw
      (
        digit-value (b / 16) (omega (arith, h.0)),
        digit-value (b % 16) (omega arith),
        from_hex-hex bs h.1,
      )
      (ap (λ c. c ∷ bs) (whole b))
  where
    whole : (b : ℕ) → b / 16 * 16 + b % 16 ≡ b
    whole b = omega arith

length-hex : (bs : Bytes) → length (hex bs) % 2 ≡ 0
unfolding hex
length-hex [] = refl
length-hex (b ∷ bs) = omega (arith, length-hex bs)

-- Hexadecimal digits hold no separator, no capital and no `x`.
without-hex : (d : ℕ) (s : Str) → is_hex d ≡ false → all_chars is_hex s ≡ true → without d s ≡ s
unfolding without all_chars
without-hex d [] k h = refl
without-hex d (c ∷ s) k h = ground (arith, h, k, without-hex d s k)

lower-hex : (s : Str) → all_chars is_hex s ≡ true → lower s ≡ s
unfolding all_chars lower_char
lower-hex [] h = refl
lower-hex (c ∷ s) h = ground (arith, h, lower-hex s)

drop_0x-hex : (s : Str) → all_chars is_hex s ≡ true → drop_0x s ≡ s
unfolding drop_0x all_chars str_eq
drop_0x-hex [] h = refl
drop_0x-hex (c ∷ []) h = ground (arith, h)
drop_0x-hex (c ∷ d ∷ s) h = ground (arith, h)

parse_hex-hex : (bs : Bytes) → All IsByte bs → parse_hex (hex bs) ≡ ok bs
unfolding parse_hex
parse_hex-hex bs h =
    let digits = hex-all_chars bs h in
    rw
      (
        without-hex b' ' (hex bs) refl digits,
        without-hex b':' (hex bs) refl digits,
        lower-hex (hex bs) digits,
        drop_0x-hex (hex bs) digits,
        length-hex bs,
        digits,
        from_hex-hex bs h,
      )
      refl

-- Any prefix of bytes, printed in hexadecimal and given as an event rule's prefix, is loaded as those
-- bytes, whether YAML makes a text of the digits or a value with the digits for its `str`.
pub parse_prefix-hex :
    (bs : Bytes)
    → All IsByte bs
    → (parse_prefix (some (string (hex bs))) ≡ ok bs)
      × (parse_prefix (some (other (hex bs))) ≡ ok bs)
unfolding parse_prefix hex
parse_prefix-hex [] h = (refl, parse_hex-hex [] h)
parse_prefix-hex (b ∷ bs) h = (parse_hex-hex (b ∷ bs) h, parse_hex-hex (b ∷ bs) h)
