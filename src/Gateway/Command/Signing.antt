-- ===== src/Gateway/Command/Signing.antt =====
-- gateway/signer.py as the report command uses it: the exceptions of signing, of which `main` of
-- gateway/cli.py takes one for a bad configuration.
use ble_usage_meter.Common.{
  ◌≢◌, ap, Str, Bytes, [], ◌∷◌, ◌++◌, ◌+◌, ◌/◌, ◌%◌, Bool, true, false, ◌&&◌, Error, config_error,
  value_error, struct_error, unicode_error, Result, ok, err, ◌>>=◌, raise_if, ltb, leb,
  if◌then◌else◌, ℕ, length,
}
use ble_usage_meter.Common.Int.{ℤ, pos, negsuc}
use ble_usage_meter.Common.Utf8.{utf8_char, utf8}
use ble_usage_meter.Common.BigEndian.{pack_int, pack_four}
use ble_usage_meter.Common.Ed25519.{Ed25519}
use ble_usage_meter.Gateway.Signer
use ble_usage_meter.Gateway.Signer.{ReportTuple}
use ble_usage_meter.Gateway.Reporter.{build_payload}

-- What is raised, if anything is, is no `ConfigError`.
abbrev pub IsSettled {ℓ} : {A : Type ℓ} → Result A → Type ℓ
IsSettled m = m ≢ err config_error

pub ok-IsSettled {ℓ} : {A : Type ℓ} (a : A) → IsSettled (ok a)
ok-IsSettled a h = absurd (cc)

pub value_error-IsSettled {ℓ} : {A : Type ℓ} → IsSettled {A = A} (err value_error)
value_error-IsSettled h = absurd (cc)

struct_error-IsSettled {ℓ} : {A : Type ℓ} → IsSettled {A = A} (err struct_error)
struct_error-IsSettled h = absurd (cc)

unicode_error-IsSettled {ℓ} : {A : Type ℓ} → IsSettled {A = A} (err unicode_error)
unicode_error-IsSettled h = absurd (cc)

-- What is raised, or else the second argument.
abbrev raised_or {ℓ} : {A : Type ℓ} → Error → Result A → Error
raised_or d (err e) = e
raised_or d (ok a) = d

pub bind-IsSettled {ℓ κ} :
    {A : Type ℓ} {B : Type κ} (m : Result A) (next : A → Result B)
    → IsSettled m
    → ((a : A) → IsSettled (next a))
    → IsSettled (m >>= next)
bind-IsSettled (ok a) next h k = k a
bind-IsSettled (err e) next h k = λ same. h (ap err (ap (raised_or e) same))

pub if-IsSettled {ℓ} :
    {A : Type ℓ} (b : Bool) (m n : Result A)
    → IsSettled m
    → IsSettled n
    → IsSettled (if b then m else n)
if-IsSettled true m n h k = h
if-IsSettled false m n h k = k

utf8_char-IsSettled : (c : ℕ) → IsSettled (utf8_char c)
unfolding utf8_char
utf8_char-IsSettled c = if-IsSettled (ltb c 0x80) _ _ (ok-IsSettled (c ∷ [])) (
    if-IsSettled (ltb c 0x800) _ _ (ok-IsSettled ((0xc0 + c / 64) ∷ (0x80 + c % 64) ∷ [])) (
      if-IsSettled (leb 0xd800 c && ltb c 0xe000) _ _ unicode_error-IsSettled (
        if-IsSettled (ltb c 0x10000) _ _
          (ok-IsSettled ((0xe0 + c / 4096) ∷ (0x80 + c / 64 % 64) ∷ (0x80 + c % 64) ∷ []))
          (if-IsSettled (ltb c 0x110000) _ _
            (ok-IsSettled (
              (0xf0 + c / 262144)
              ∷ (0x80 + c / 4096 % 64)
              ∷ (0x80 + c / 64 % 64)
              ∷ (0x80 + c % 64)
              ∷ []))
            unicode_error-IsSettled))))

utf8-IsSettled : (s : Str) → IsSettled (utf8 s)
unfolding utf8
utf8-IsSettled [] = ok-IsSettled []
utf8-IsSettled (c ∷ s) =
    bind-IsSettled (utf8_char c) _ (utf8_char-IsSettled c)
      (λ b. bind-IsSettled (utf8 s) _ (utf8-IsSettled s) (λ rest. ok-IsSettled (b ++ rest)))

pack_int-IsSettled : (k : ℕ) (z : ℤ) → IsSettled (pack_int struct_error k z)
unfolding pack_int
pack_int-IsSettled k (pos v) = if-IsSettled _ _ _ (ok-IsSettled _) struct_error-IsSettled
pack_int-IsSettled k (negsuc v) = struct_error-IsSettled

pack_four-IsSettled : (p q r s : ℤ) → IsSettled (pack_four p q r s)
unfolding pack_four
pack_four-IsSettled p q r s = bind-IsSettled _ _ (pack_int-IsSettled 8 p) (λ a.
    bind-IsSettled _ _ (pack_int-IsSettled 8 q) (λ b.
      bind-IsSettled _ _ (pack_int-IsSettled 8 r) (λ c.
        bind-IsSettled _ _ (pack_int-IsSettled 8 s) (λ d. ok-IsSettled (a ++ (b ++ (c ++ d)))))))

raise_if-IsSettled : (b : Bool) → IsSettled (raise_if b value_error)
raise_if-IsSettled true = value_error-IsSettled
raise_if-IsSettled false = ok-IsSettled tt

canonical_bytes-IsSettled : (r : ReportTuple) → IsSettled (Signer.canonical_bytes r)
unfolding Signer.canonical_bytes
canonical_bytes-IsSettled r =
    bind-IsSettled (utf8 r.device_id) _ (utf8-IsSettled r.device_id) (λ dev.
      bind-IsSettled (raise_if (ltb 0xffff (length dev)) value_error) _
        (raise_if-IsSettled (ltb 0xffff (length dev)))
        (λ u. bind-IsSettled _ _ (pack_int-IsSettled 2 (pos (length dev))) (λ size.
          bind-IsSettled _ _ (pack_four-IsSettled r.count r.sequence r.window_start r.window_end)
            (λ words. ok-IsSettled _))))

pub build_payload-IsSettled :
    (scheme : Ed25519) (key : Bytes) (r : ReportTuple) → IsSettled (build_payload scheme key r)
unfolding build_payload Signer.sign
build_payload-IsSettled scheme key r =
    bind-IsSettled _ _
      (bind-IsSettled (Signer.canonical_bytes r) _ (canonical_bytes-IsSettled r)
        (λ message. ok-IsSettled _))
      (λ sig. ok-IsSettled _)
