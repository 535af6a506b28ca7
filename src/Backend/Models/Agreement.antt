-- ===== src/Backend/Models/Agreement.antt =====
-- gateway/signer.py and backend/models.py: the bytes of one report on both sides.
use ble_usage_meter.Common.{
  ℕ, ◌≡◌, refl, ap, ◌∙◌, sym, Bytes, [], ◌∷◌, ◌++◌, some, Error, ok, value_error, struct_error,
  overflow_error, raise_if, length, ltb, append_assoc, arith, bind-eq-ok, bind_assoc, bind-agree,
  value_or_none, value_or_none-eq-some,
}
use ble_usage_meter.Common.Int.{ℤ, pos, negsuc}
use ble_usage_meter.Common.BigEndian.{pack_int, pack_four}
use ble_usage_meter.Common.Utf8.{utf8}
use ble_usage_meter.Gateway.Signer
use ble_usage_meter.Gateway.Signer.{ReportTuple, domain, format_version}
use ble_usage_meter.Gateway.Signer.RoundTrip.{canonical_bytes-injective}
use ble_usage_meter.Backend.Models.{
  UsageReport, canonical_domain, canonical_format_version, canonical_unix_seconds,
  canonical_message, canonical_bytes,
}

-- The gateway's tuple for a report whose windows are the given whole seconds.
abbrev pub tuple_of : UsageReport → ℤ → ℤ → ReportTuple
tuple_of r start end = record {
  device_id = r.device_id;
  count = r.count;
  sequence = r.sequence;
  window_start = start;
  window_end = end;
}

-- Whether an integer fits does not depend on what is raised.
pack_int-error :
    (d e : Error) (k : ℕ) (z : ℤ) → value_or_none (pack_int d k z) ≡ value_or_none (pack_int e k z)
unfolding pack_int
pack_int-error d e k (pos v) = ground arith
pack_int-error d e k (negsuc v) = refl

same_domain : canonical_domain ≡ domain
unfolding canonical_domain domain
same_domain = refl

-- The backend appends one field after the other, the gateway joins a tuple of them.
regroup :
    (size did c s a b : Bytes)
    → canonical_domain ++ canonical_format_version ∷ [] ++ size ++ did ++ c ++ s ++ a ++ b
      ≡ domain ++ (format_version ∷ [] ++ (size ++ (did ++ (c ++ (s ++ (a ++ b))))))
regroup size did c s a b = rw same_domain (simp append_assoc)

-- Where both windows have whole seconds in UTC, the two implementations write the same bytes for the
-- same report, or both raise.
pub canonical_bytes_agree :
    (r : UsageReport) (start end : ℤ)
    → canonical_unix_seconds r.window_start ≡ ok start
    → canonical_unix_seconds r.window_end ≡ ok end
    → value_or_none (canonical_bytes r)
      ≡ value_or_none (Signer.canonical_bytes (tuple_of r start end))
unfolding canonical_bytes canonical_message Signer.canonical_bytes pack_four
canonical_bytes_agree r start end hs he =
    simp (hs, he, bind_assoc)
      (bind-agree (utf8 r.device_id) _ _ _ refl λ did.
        bind-agree (raise_if (ltb 0xffff (length did)) value_error) _ _ _ refl λ _.
          bind-agree _ _ _ _ (pack 2 (pos (length did))) λ size.
            bind-agree _ _ _ _ (pack 8 r.count) λ c. bind-agree _ _ _ _ (pack 8 r.sequence) λ s.
              bind-agree _ _ _ _ (pack 8 start)
                λ a. bind-agree _ _ _ _ (pack 8 end) λ b. ap some (regroup size did c s a b))
  where
    pack :
        (k : ℕ) (z : ℤ)
        → value_or_none (pack_int overflow_error k z) ≡ value_or_none (pack_int struct_error k z)
    pack = pack_int-error overflow_error struct_error

-- The windows of a report that serialises have whole seconds.
pub windows_of :
    (r : UsageReport) {m : Bytes}
    → canonical_bytes r ≡ ok m
    → (start : ℤ) × (end : ℤ) × (canonical_unix_seconds r.window_start ≡ ok start)
      × (canonical_unix_seconds r.window_end ≡ ok end)
unfolding canonical_bytes canonical_message
windows_of r h0 =
    let (did, _, h1) = bind-eq-ok (utf8 r.device_id) _ h0 in
    let (_, _, h2) = bind-eq-ok (raise_if (ltb 0xffff (length did)) value_error) _ h1 in
    let (_, _, h3) = bind-eq-ok (pack_int overflow_error 2 (pos (length did))) _ h2 in
    let (_, _, h4) = bind-eq-ok (pack_int overflow_error 8 r.count) _ h3 in
    let (_, _, h5) = bind-eq-ok (pack_int overflow_error 8 r.sequence) _ h4 in
    let (start, hs, h6) = bind-eq-ok (canonical_unix_seconds r.window_start) _ h5 in
    let (_, _, h7) = bind-eq-ok (pack_int overflow_error 8 start) _ h6 in
    let (end, he, _) = bind-eq-ok (canonical_unix_seconds r.window_end) _ h7 in (start, end, hs, he)

-- What the gateway signs for the same report is what the backend verifies.
pub signed_bytes :
    (r : UsageReport) (start end : ℤ) (m : Bytes)
    → canonical_unix_seconds r.window_start ≡ ok start
    → canonical_unix_seconds r.window_end ≡ ok end
    → Signer.canonical_bytes (tuple_of r start end) ≡ ok m
    → canonical_bytes r ≡ ok m
signed_bytes r start end m hs he h =
    value_or_none-eq-some (canonical_bytes_agree r start end hs he ∙ ap value_or_none h)

-- What two reports with the same bytes have in common: all that is counted, and the windows to the
-- second.
pub record SameReport (r s : UsageReport) : Type 0 where
  pub device_id : r.device_id ≡ s.device_id
  pub count : r.count ≡ s.count
  pub sequence : r.sequence ≡ s.sequence
  pub window_start : canonical_unix_seconds r.window_start ≡ canonical_unix_seconds s.window_start
  pub window_end : canonical_unix_seconds r.window_end ≡ canonical_unix_seconds s.window_end

-- Reports with the same canonical bytes agree in the device, the count, the sequence and the whole
-- seconds of both windows.
pub canonical_bytes-SameReport :
    (r s : UsageReport) (m : Bytes)
    → canonical_bytes r ≡ ok m
    → canonical_bytes s ≡ ok m
    → SameReport r s
canonical_bytes-SameReport r s m hr hs =
    let (a, b, ha, hb) = windows_of r hr in
    let (c, d, hc, hd) = windows_of s hs in
    let gr =
      value_or_none-eq-some (sym (canonical_bytes_agree r a b ha hb) ∙ ap value_or_none hr) in
    let gs =
      value_or_none-eq-some (sym (canonical_bytes_agree s c d hc hd) ∙ ap value_or_none hs) in
    let e = canonical_bytes-injective (tuple_of r a b) (tuple_of s c d) m gr gs in
    record {
      device_id = ap (λ t. t.device_id) e;
      count = ap (λ t. t.count) e;
      sequence = ap (λ t. t.sequence) e;
      window_start = ha ∙ ap (λ t. ok t.window_start) e ∙ sym hc;
      window_end = hb ∙ ap (λ t. ok t.window_end) e ∙ sym hd;
    }
