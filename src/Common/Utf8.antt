-- ===== src/Common/Utf8.antt =====
-- `str.encode("utf-8")`, which refuses lone surrogates, and a decoder that shows it loses nothing.
use ble_usage_meter.Common.{
  ℕ, zero, suc, ◌+◌, ◌-◌, ◌*◌, ◌/◌, ◌%◌, ◌<◌, ◌≤◌, ◌≡◌, refl, ap, Str, Bytes, [], ◌∷◌, ◌++◌, length,
  length-append, Option, none, some, Result, ok, err, unicode_error, ◌>>=◌, ltb, leb, ◌&&◌,
  if◌then◌else◌, arith, bind-eq-ok, All, All-append,
}
use ble_usage_meter.Common.BigEndian.{IsByte}

unfoldable pub utf8_char : ℕ → Result Bytes
utf8_char c =
    if ltb c 0x80
    then ok (c ∷ [])
    else if ltb c 0x800
    then ok ((0xc0 + c / 64) ∷ (0x80 + c % 64) ∷ [])
    else if leb 0xd800 c && ltb c 0xe000
    then err unicode_error
    else if ltb c 0x10000
    then ok ((0xe0 + c / 4096) ∷ (0x80 + c / 64 % 64) ∷ (0x80 + c % 64) ∷ [])
    else if ltb c 0x110000
    then ok
        ((0xf0 + c / 262144) ∷ (0x80 + c / 4096 % 64) ∷ (0x80 + c / 64 % 64) ∷ (0x80 + c % 64) ∷ [])
    else err unicode_error

unfoldable pub utf8 : Str → Result Bytes
utf8 [] = ok []
utf8 (c ∷ s) = do b ← utf8_char c; rest ← utf8 s; ok (b ++ rest)

-- The rest of a character of two, three or four bytes, after its lead byte.
two_bytes : ℕ → Bytes → Option (ℕ × Bytes)
two_bytes a (b ∷ r) = some ((a - 0xc0) * 64 + (b - 0x80), r)
two_bytes a _ = none

three_bytes : ℕ → Bytes → Option (ℕ × Bytes)
three_bytes a (b ∷ c ∷ r) = some ((a - 0xe0) * 4096 + (b - 0x80) * 64 + (c - 0x80), r)
three_bytes a _ = none

four_bytes : ℕ → Bytes → Option (ℕ × Bytes)
four_bytes a (b ∷ c ∷ d ∷ r) =
    some ((a - 0xf0) * 262144 + (b - 0x80) * 4096 + (c - 0x80) * 64 + (d - 0x80), r)
four_bytes a _ = none

-- The first character of well-formed UTF-8, by its lead byte.
unfoldable pub first_char : Bytes → Option (ℕ × Bytes)
unfolding two_bytes three_bytes four_bytes
first_char [] = none
first_char (a ∷ r) =
    if ltb a 0x80
    then some (a, r)
    else if ltb a 0xe0
    then two_bytes a r
    else if ltb a 0xf0
    then three_bytes a r
    else four_bytes a r

cons_char : ℕ → Option Str → Option Str
cons_char c none = none
cons_char c (some s) = some (c ∷ s)

-- One round for each character; the number of bytes is fuel enough.
unfoldable pub utf8_decode : ℕ → Bytes → Option Str
unfolding cons_char
utf8_decode zero [] = some []
utf8_decode zero (b ∷ bs) = none
utf8_decode (suc f) [] = some []
utf8_decode (suc f) (b ∷ bs) = elim (first_char (b ∷ bs)) [
  | none ↦ none
  | some (c, rest) ↦ cons_char c (utf8_decode f rest)
]

first_char-utf8_char :
    (c : ℕ) (b x : Bytes) → utf8_char c ≡ ok b → first_char (b ++ x) ≡ some (c, x)
unfolding utf8_char first_char
first_char-utf8_char c b x h = ground arith

utf8_char-nonempty : (c : ℕ) (b : Bytes) → utf8_char c ≡ ok b → 0 < length b
unfolding utf8_char
utf8_char-nonempty c b h = ground arith

decode_step :
    (f c : ℕ) (b x : Bytes) (s : Str)
    → utf8_char c ≡ ok b
    → utf8_decode f x ≡ some s
    → utf8_decode (suc f) (b ++ x) ≡ some (c ∷ s)
unfolding utf8_decode
decode_step f c [] x s h e = absurd (omega (arith, utf8_char-nonempty c [] h))
decode_step f c (a ∷ b) x s h e = rw (first_char-utf8_char c (a ∷ b) x h, utf8_decode) (rw e refl)

-- An encoded text is the encoding of its first character before that of the rest.
utf8-cons :
    (c : ℕ) (s : Str) {bs : Bytes}
    → utf8 (c ∷ s) ≡ ok bs
    → (b : Bytes) × (r : Bytes) × (utf8_char c ≡ ok b) × (utf8 s ≡ ok r) × (bs ≡ b ++ r)
unfolding utf8
utf8-cons c s h =
    let (b, hb, h') = bind-eq-ok (utf8_char c) _ h in
    let (r, hr, e) = bind-eq-ok (utf8 s) (λ rest. ok (b ++ rest)) h' in (b, r, hb, hr, cc)

-- What `utf8` encodes, the decoder reads back.
pub utf8_decode-utf8 :
    (s : Str) (f : ℕ) (bs : Bytes) → utf8 s ≡ ok bs → length bs ≤ f → utf8_decode f bs ≡ some s
unfolding utf8_decode
utf8_decode-utf8 [] zero [] h le = refl
utf8_decode-utf8 [] (suc f) [] h le = refl
utf8_decode-utf8 [] f (b ∷ bs) h le = unfold utf8 in cc
utf8_decode-utf8 (c ∷ s) zero bs h le =
    let (b, r, hb, hr, e) = utf8-cons c s h in
    absurd (omega (arith, utf8_char-nonempty c b hb, length-append b r, ap length e))
utf8_decode-utf8 (c ∷ s) (suc f) bs h le =
    let (b, r, hb, hr, e) = utf8-cons c s h in
    let short : length r ≤ f =
      omega (arith, utf8_char-nonempty c b hb, length-append b r, ap length e) in
    rw e (decode_step f c b r s hb (utf8_decode-utf8 s f r hr short))

-- Two texts with one encoding are one text.
pub utf8-injective : (s t : Str) (bs : Bytes) → utf8 s ≡ ok bs → utf8 t ≡ ok bs → s ≡ t
utf8-injective s t bs hs ht = cc (
  utf8_decode-utf8 s (length bs) bs hs (omega arith),
  utf8_decode-utf8 t (length bs) bs ht (omega arith),
)

utf8_char-IsByte : (c : ℕ) (b : Bytes) → utf8_char c ≡ ok b → All IsByte b
unfolding utf8_char
utf8_char-IsByte c b h = ground arith

pub utf8-IsByte : (s : Str) (bs : Bytes) → utf8 s ≡ ok bs → All IsByte bs
utf8-IsByte [] [] h = tt
utf8-IsByte [] (b ∷ bs) h = unfold utf8 in cc
utf8-IsByte (c ∷ s) bs h =
    let (b, r, hb, hr, e) = utf8-cons c s h in
    rw e (All-append IsByte b r (utf8_char-IsByte c b hb) (utf8-IsByte s r hr))
