-- ===== src/Backend/Verify/Origin.antt =====
-- What a valid signature says of a report's origin.
use ble_usage_meter.Common.{Bytes, ◌≡◌, refl, ok, All, bind-eq-ok, length, ok-injective}
use ble_usage_meter.Common.Int.{ℤ}
use ble_usage_meter.Common.BigEndian.{IsByte}
use ble_usage_meter.Common.Base64.{b64encode, b64decode-b64encode}
use ble_usage_meter.Common.Ed25519.{Ed25519}
use ble_usage_meter.Gateway.Signer
use ble_usage_meter.Gateway.Signer.RoundTrip.{canonical_bytes-IsByte}
use ble_usage_meter.Backend.Models.{UsageReport, DeviceRecord, canonical_unix_seconds}
use ble_usage_meter.Backend.Models.Agreement.{tuple_of, signed_bytes}
use ble_usage_meter.Backend.Verify.{load_public_key}
use ble_usage_meter.Backend.Verify.Signed.{IsAuthentic}

-- A registered key of 32 bytes loads as those bytes.
load_public_key-b64encode :
    (key : Bytes) → All IsByte key → length key ≡ 32 → load_public_key (b64encode key) ≡ ok key
unfolding load_public_key
load_public_key-b64encode key h n = rw (b64decode-b64encode key h, n) refl

-- A report that the gateway signs with the private half of the registered key is authentic for the
-- backend: the bytes, the base64 and the signature all go through.
pub gateway_report-IsAuthentic :
    (scheme : Ed25519) (private_key : Bytes) (device : DeviceRecord) (r : UsageReport)
    (start end : ℤ) (sig : Bytes)
    → device.public_key ≡ b64encode (scheme.public_of private_key)
    → canonical_unix_seconds r.window_start ≡ ok start
    → canonical_unix_seconds r.window_end ≡ ok end
    → Signer.sign scheme private_key (tuple_of r start end) ≡ ok sig
    → r.signature ≡ b64encode sig
    → IsAuthentic scheme device r
unfolding Signer.sign
gateway_report-IsAuthentic scheme private_key device r start end sig hk hs he hsig hr =
    let (m, hm, e) = bind-eq-ok (Signer.canonical_bytes (tuple_of r start end)) _ hsig in
    let signed : scheme.sign private_key m ≡ sig = ok-injective e in
    let bytes : All IsByte sig =
      rw (← signed)
        (scheme.sign-IsByte private_key m (canonical_bytes-IsByte (tuple_of r start end) m hm)) in
    record {
      key = scheme.public_of private_key;
      sig = sig;
      message = m;
      loads = rw hk (
          load_public_key-b64encode (scheme.public_of private_key)
            (scheme.public_of-IsByte private_key) (scheme.length-public_of private_key));
      decodes = rw hr (b64decode-b64encode sig bytes);
      serialises = signed_bytes r start end m hs he hm;
      verifies = rw (← signed) (scheme.sign_accepts private_key m);
    }
