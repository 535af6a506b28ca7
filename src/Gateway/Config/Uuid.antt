-- ===== src/Gateway/Config/Uuid.antt =====
-- gateway/config.py: the UUIDs that `_normalise_uuid` gives.
use ble_usage_meter.Common.{
  ◌≡◌, refl, ◌∙◌, Str, text, [], ◌∷◌, ◌++◌, true, not, ◌&&◌, ◌||◌, ok, err, config_error,
  if◌then◌else◌, length, length-append, eqb, lower, lower_char, arith, Bool-cases, inl, inr,
  ok-injective,
}
use ble_usage_meter.Gateway.Config.{
  is_space, lstrip, rstrip, strip, is_hex, all_chars, count_char, is_uuid_char, base_uuid,
  full_uuid, normalise_uuid,
}

-- 36 lower-case hexadecimal digits and dashes, of which 4 are dashes.
pub record IsUuid (u : Str) : Type 0 where
  pub long : length u ≡ 36
  pub chars : all_chars is_uuid_char u ≡ true
  pub dashes : count_char b'-' u ≡ 4

hex_chars :
    (s t : Str)
    → all_chars is_hex s ≡ true
    → all_chars is_uuid_char t ≡ true
    → all_chars is_uuid_char (s ++ t) ≡ true
unfolding all_chars
hex_chars [] t h k = k
hex_chars (c ∷ s) t h k = ground (arith, hex_chars s t)

hex_dashes : (s t : Str) → all_chars is_hex s ≡ true → count_char b'-' (s ++ t) ≡ count_char b'-' t
unfolding all_chars count_char
hex_dashes [] t h = refl
hex_dashes (c ∷ s) t h = ground (arith, hex_dashes s t)

base_lem :
    (length base_uuid ≡ 28)
    × (all_chars is_uuid_char base_uuid ≡ true)
    × (count_char b'-' base_uuid ≡ 4)
unfolding base_uuid all_chars count_char
base_lem = (refl, refl, refl)

-- Eight hexadecimal digits before the base are a UUID.
short-IsUuid : (s : Str) → length s ≡ 8 → all_chars is_hex s ≡ true → IsUuid (s ++ base_uuid)
short-IsUuid s n h = record {
  long = omega (arith, length-append s base_uuid, base_lem);
  chars = hex_chars s base_uuid h base_lem.1;
  dashes = hex_dashes s base_uuid h ∙ base_lem.2;
}

zeros_hex : (s : Str) → all_chars is_hex s ≡ true → all_chars is_hex (text "0000" ++ s) ≡ true
unfolding all_chars
zeros_hex s h = h

full_uuid-IsUuid : (s u : Str) → full_uuid s ≡ ok u → IsUuid u
unfolding full_uuid
full_uuid-IsUuid s u h = elim (Bool-cases (eqb (length s) 4 && all_chars is_hex s)) [
  | inl four ↦
      rw (← ok-injective (rw four at h))
        (short-IsUuid (text "0000" ++ s) (ground arith) (zeros_hex s (ground arith)))
  | inr not_four ↦ elim (Bool-cases (eqb (length s) 8 && all_chars is_hex s)) [
    | inl eight ↦
        rw (← ok-injective (rw (not_four, eight) at h))
          (short-IsUuid s (ground arith) (ground arith))
    | inr neither ↦ long-IsUuid (rw (not_four, neither) at h)
  ]
]
  where
    long-IsUuid :
        (if not (eqb (length s) 36) || not (eqb (count_char b'-' s) 4)
            then err config_error
            else if not (all_chars is_uuid_char s)
            then err config_error
            else ok s)
          ≡ ok u
        → IsUuid u
    long-IsUuid h = record { long = ground arith; chars = ground arith; dashes = ground arith }

-- A UUID has no white space and no capitals.
clean :
    (u : Str) → all_chars is_uuid_char u ≡ true → (lstrip u ≡ u) × (rstrip u ≡ u) × (lower u ≡ u)
unfolding all_chars lstrip rstrip is_space lower_char
clean [] h = (refl, refl, refl)
clean (c ∷ u) h =
    let (l, r, low) = clean u (ground arith) in (ground arith, ground arith, ground arith)

full_uuid_fixed : (u : Str) → IsUuid u → full_uuid u ≡ ok u
unfolding full_uuid
full_uuid_fixed u i = ground (arith, i.long, i.chars, i.dashes)

-- What normalising returns is a full lower-case UUID, and it is its own normal form.
pub normalise_uuid_lem :
    (raw u : Str) → normalise_uuid raw ≡ ok u → IsUuid u × (normalise_uuid u ≡ ok u)
unfolding normalise_uuid
normalise_uuid_lem raw u h =
    let i = full_uuid-IsUuid (lower (strip raw)) u h in
    let (l, r, low) = clean u i.chars in (i, rw (l, r, low) (full_uuid_fixed u i))
