-- ===== src/Common/Base64.antt =====
-- `base64.b64encode`, and `b64decode` with `validate=True`: the scanner of `binascii.a2b_base64` in
-- its strict mode, which holds the position in a group of four, the bits left over, and the pads.
use ble_usage_meter.Common.{
  ℕ, ◌+◌, ◌-◌, ◌*◌, ◌/◌, ◌%◌, ◌<◌, ◌≡◌, refl, ap, Str, Bytes, Bool, true, false, [], ◌∷◌, All,
  Option, none, some, Result, ok, err, value_error, ltb, leb, eqb, ◌&&◌, if◌then◌else◌, arith,
}
use ble_usage_meter.Common.BigEndian.{IsByte}

-- The sign of a six-bit value, and the value of a sign.
unfoldable pub sign_of : ℕ → ℕ
sign_of v =
    if ltb v 26
    then 65 + v
    else if ltb v 52
    then 97 + (v - 26)
    else if ltb v 62
    then 48 + (v - 52)
    else if eqb v 62
    then 43
    else 47

unfoldable pub value_of : ℕ → Option ℕ
value_of c =
    if leb 65 c && ltb c 91
    then some (c - 65)
    else if leb 97 c && ltb c 123
    then some (c - 97 + 26)
    else if leb 48 c && ltb c 58
    then some (c - 48 + 52)
    else if eqb c 43
    then some 62
    else if eqb c 47
    then some 63
    else none

unfoldable pub b64encode : Bytes → Str
unfolding sign_of
b64encode [] = []
b64encode (a ∷ []) = sign_of (a / 4) ∷ sign_of (a % 4 * 16) ∷ b'=' ∷ b'=' ∷ []
b64encode (a ∷ b ∷ []) =
    sign_of (a / 4) ∷ sign_of (a % 4 * 16 + b / 16) ∷ sign_of (b % 16 * 4) ∷ b'=' ∷ []
b64encode (a ∷ b ∷ c ∷ r) =
    sign_of (a / 4)
    ∷ sign_of (a % 4 * 16 + b / 16)
    ∷ sign_of (b % 16 * 4 + c / 64)
    ∷ sign_of (c % 64)
    ∷ b64encode r

-- The scanner's variables: `quad_pos`, `leftchar`, `pads`, `padding_started`.
pub record Scan : Type 0 where
  pub quad_pos : ℕ
  pub leftchar : ℕ
  pub pads : ℕ
  pub padding_started : Bool

abbrev pub scan_start : Scan
scan_start = record { quad_pos = 0; leftchar = 0; pads = 0; padding_started = false }

-- A data sign: the byte that it completes, if any, and the scanner after it.
abbrev take_sign : ℕ → Scan → Option ℕ × Scan
take_sign v s =
    if eqb s.quad_pos 0
    then (none, record s { quad_pos = 1; leftchar = v; pads = 0 })
    else if eqb s.quad_pos 1
    then (some (s.leftchar * 4 + v / 16), record s { quad_pos = 2; leftchar = v % 16; pads = 0 })
    else if eqb s.quad_pos 2
    then (some (s.leftchar * 16 + v / 4), record s { quad_pos = 3; leftchar = v % 4; pads = 0 })
    else (some (s.leftchar * 64 + v), record s { quad_pos = 0; leftchar = 0; pads = 0 })

abbrev prepend : Option ℕ → Option Bytes → Option Bytes
prepend none o = o
prepend (some b) none = none
prepend (some b) (some bs) = some (b ∷ bs)

-- A pad: it ends the text if it fills a group that has two or three signs, and then nothing may
-- follow it.
abbrev ends_group : Scan → Bool
ends_group s = leb 2 s.quad_pos && leb 4 (s.quad_pos + s.pads + 1)

abbrev take_pad : Scan → Scan
take_pad s =
    if leb 2 s.quad_pos
    then record s { pads = s.pads + 1; padding_started = true }
    else record s { padding_started = true }

unfoldable pub scan : Str → Scan → Option Bytes
scan [] s = if eqb s.quad_pos 0 then some [] else none
scan (c ∷ cs) s =
    let after_pad = scan cs (take_pad s) in
    if eqb c b'='
    then (if ends_group s then elim cs [ [] ↦ some [] | _ ∷ _ ↦ none ] else after_pad)
    else elim (value_of c) [
      | none ↦ none
      | some v ↦
          let (b, s') = take_sign v s in
          let rest = prepend b (scan cs s') in if s.padding_started then none else rest
    ]

-- `b64decode(s, validate=True)`; text outside ASCII is no base64 either. It raises a `ValueError`.
unfoldable pub b64decode : Str → Result Bytes
b64decode [] = ok []
b64decode (c ∷ cs) =
    if eqb c b'='
    then err value_error
    else elim (scan (c ∷ cs) scan_start) [ none ↦ err value_error | some bs ↦ ok bs ]

value_of-sign_of : (v : ℕ) → v < 64 → value_of (sign_of v) ≡ some v
unfolding value_of sign_of
value_of-sign_of v h = ground arith

sign_of-ne-pad : (v : ℕ) → v < 64 → eqb (sign_of v) b'=' ≡ false
unfolding sign_of
sign_of-ne-pad v h = ground arith

-- The scanner inside a group, before any pad.
abbrev at : ℕ → ℕ → Scan
at q l = record { quad_pos = q; leftchar = l; pads = 0; padding_started = false }

module _ (v l : ℕ) (cs : Str) (h : v < 64) where
  first_sign : scan (sign_of v ∷ cs) (at 0 l) ≡ scan cs (at 1 v)
  unfolding scan
  first_sign = rw (sign_of-ne-pad v h, value_of-sign_of v h) refl

  second_sign :
      scan (sign_of v ∷ cs) (at 1 l) ≡ prepend (some (l * 4 + v / 16)) (scan cs (at 2 (v % 16)))
  unfolding scan
  second_sign = rw (sign_of-ne-pad v h, value_of-sign_of v h) refl

  third_sign :
      scan (sign_of v ∷ cs) (at 2 l) ≡ prepend (some (l * 16 + v / 4)) (scan cs (at 3 (v % 4)))
  unfolding scan
  third_sign = rw (sign_of-ne-pad v h, value_of-sign_of v h) refl

  fourth_sign : scan (sign_of v ∷ cs) (at 3 l) ≡ prepend (some (l * 64 + v)) (scan cs (at 0 0))
  unfolding scan
  fourth_sign = rw (sign_of-ne-pad v h, value_of-sign_of v h) refl

one_pad : (l : ℕ) → scan (b'=' ∷ []) (at 3 l) ≡ some []
unfolding scan
one_pad l = refl

two_pads : (l : ℕ) → scan (b'=' ∷ b'=' ∷ []) (at 2 l) ≡ some []
unfolding scan
two_pads l = refl

scan-b64encode : (bs : Bytes) → All IsByte bs → scan (b64encode bs) (at 0 0) ≡ some bs
unfolding b64encode
scan-b64encode [] h = unfold scan in refl
scan-b64encode (a ∷ []) h =
    rw
      (
        first_sign (a / 4) 0 _ (omega arith),
        second_sign (a % 4 * 16) (a / 4) _ (omega arith),
        two_pads,
      )
      (ap (λ x. some (x ∷ [])) (omega arith))
scan-b64encode (a ∷ b ∷ []) h =
    rw
      (
        first_sign (a / 4) 0 _ (omega arith),
        second_sign (a % 4 * 16 + b / 16) (a / 4) _ (omega arith),
        third_sign (b % 16 * 4) _ _ (omega arith),
        one_pad,
      )
      (ground arith)
scan-b64encode (a ∷ b ∷ c ∷ r) h =
    rw
      (
        first_sign (a / 4) 0 _ (omega arith),
        second_sign (a % 4 * 16 + b / 16) (a / 4) _ (omega arith),
        third_sign (b % 16 * 4 + c / 64) _ _ (omega arith),
        fourth_sign (c % 64) _ _ (omega arith),
        scan-b64encode r h.1.1.1,
      )
      (ground arith)

decode_signs :
    (v : ℕ) (cs : Str) (bs : Bytes)
    → v < 64
    → scan (sign_of v ∷ cs) (at 0 0) ≡ some bs
    → b64decode (sign_of v ∷ cs) ≡ ok bs
unfolding b64decode
decode_signs v cs bs h e = rw (sign_of-ne-pad v h, e) refl

-- Every byte string is read back from its base64.
pub b64decode-b64encode : (bs : Bytes) → All IsByte bs → b64decode (b64encode bs) ≡ ok bs
unfolding b64encode
b64decode-b64encode [] h = unfold b64decode in refl
b64decode-b64encode (a ∷ []) h = decode_signs (a / 4) _ _ (omega arith) (scan-b64encode (a ∷ []) h)
b64decode-b64encode (a ∷ b ∷ []) h =
    decode_signs (a / 4) _ _ (omega arith) (scan-b64encode (a ∷ b ∷ []) h)
b64decode-b64encode (a ∷ b ∷ c ∷ r) h =
    decode_signs (a / 4) _ _ (omega arith) (scan-b64encode (a ∷ b ∷ c ∷ r) h)
