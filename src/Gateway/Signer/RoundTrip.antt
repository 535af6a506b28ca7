-- ===== src/Gateway/Signer/RoundTrip.antt =====
-- gateway/signer.py: a reader for the canonical bytes, written from their layout.
use ble_usage_meter.Common.{
  ℕ, ◌≤◌, ◌≡◌, refl, ap, ◌∙◌, sym, Str, Bytes, [], ◌∷◌, ◌++◌, false, Option, none, some, ok,
  value_error, struct_error, raise_if, raise_if-eq-ok, bind-eq-ok, ok-injective, length, ltb,
  take-append, drop-append, take, drop, take-append_of, drop-append_of, str_eq, str_eq_iff,
  if◌then◌else◌, arith, append_assoc, All, All-append,
}
use ble_usage_meter.Common.Int.{ℤ, pos}
use ble_usage_meter.Common.BigEndian.{
  IsByte, numbers-IsByte, big_endian-IsByte, pack_int, pack_int-eq-ok, pack_four, Packed,
  pack_four-Packed, numbers_words, big_endian, read_big_endian, read_big_endian-big_endian,
  length-big_endian,
}
use ble_usage_meter.Common.Utf8.{utf8-IsByte, utf8, utf8_decode, utf8_decode-utf8}
use ble_usage_meter.Gateway.Signer.{ReportTuple, domain, format_version, canonical_bytes}

abbrev header : Bytes
header = domain ++ format_version ∷ []

-- The next eight bytes as a number, and the bytes behind them.
abbrev word : Bytes → ℤ
word bs = pos (read_big_endian (take 8 bs))

read_numbers : Str → Bytes → ReportTuple
read_numbers device_id bs =
    let from_sequence = drop 8 bs in
    let from_start = drop 8 from_sequence in
    record {
      device_id = device_id;
      count = word bs;
      sequence = word from_sequence;
      window_start = word from_start;
      window_end = word (drop 8 from_start);
    }

with_device : Option Str → Bytes → Option ReportTuple
with_device none bs = none
with_device (some device_id) bs = some (read_numbers device_id bs)

read_sized : ℕ → Bytes → Option ReportTuple
read_sized size bs = with_device (utf8_decode size (take size bs)) (drop size bs)

read_body : Bytes → Option ReportTuple
read_body body = read_sized (read_big_endian (take 2 body)) (drop 2 body)

-- The report that a message stands for; `none` under another domain or version.
pub read_message : Bytes → Option ReportTuple
read_message m = if str_eq (take 26 m) header then read_body (drop 26 m) else none

length-header : length header ≡ 26
unfolding domain
length-header = refl

-- What a serialised report is made of.
pub record Serialised (r : ReportTuple) (m : Bytes) : Type 0 where
  pub dev : Bytes
  pub words : Bytes
  pub encoded : utf8 r.device_id ≡ ok dev
  pub short : length dev ≤ 0xffff
  pub packed : pack_four r.count r.sequence r.window_start r.window_end ≡ ok words
  pub bytes : m ≡ header ++ (big_endian 2 (length dev) ++ (dev ++ words))

short_of : (n : ℕ) → ltb 0xffff n ≡ false → n ≤ 0xffff
short_of n h = ground arith

join_header :
    (dev words : Bytes) {size : Bytes}
    → size ≡ big_endian 2 (length dev)
    → domain ++ (format_version ∷ [] ++ (size ++ (dev ++ words)))
      ≡ header ++ (big_endian 2 (length dev) ++ (dev ++ words))
join_header dev words e = rw e (sym (append_assoc domain (format_version ∷ []) _))

pub canonical_bytes-Serialised :
    (r : ReportTuple) (m : Bytes) → canonical_bytes r ≡ ok m → Serialised r m
unfolding canonical_bytes
canonical_bytes-Serialised r m h0 =
    let (dev, hdev, h1) = bind-eq-ok (utf8 r.device_id) _ h0 in
    let (u, hu, h2) = bind-eq-ok (raise_if (ltb 0xffff (length dev)) value_error) _ h1 in
    let (size, hsize, h3) = bind-eq-ok (pack_int struct_error 2 (pos (length dev))) _ h2 in
    let (words, hw, h4) =
      bind-eq-ok (pack_four r.count r.sequence r.window_start r.window_end) _ h3 in
    let (n, en, fn, bn) = pack_int-eq-ok struct_error 2 (pos (length dev)) hsize in
    record {
      dev = dev;
      words = words;
      encoded = hdev;
      short = short_of (length dev) (raise_if-eq-ok (ltb 0xffff (length dev)) value_error hu);
      packed = hw;
      bytes = sym (ok-injective h4) ∙ join_header dev words (cc);
    }

read-numbers :
    (r : ReportTuple) (words : Bytes)
    → Packed r.count r.sequence r.window_start r.window_end words
    → read_numbers r.device_id words ≡ r
unfolding read_numbers
read-numbers r words p =
    let (wa, wb, wc, wd) = numbers_words p.a p.b p.c p.d p.fits in cc (wa, wb, wc, wd)

read-sized :
    (r : ReportTuple) (dev words : Bytes)
    → utf8 r.device_id ≡ ok dev
    → read_numbers r.device_id words ≡ r
    → read_sized (length dev) (dev ++ words) ≡ some r
unfolding read_sized
read-sized r dev words he hn =
    rw
      (
        take-append dev words,
        drop-append dev words,
        utf8_decode-utf8 r.device_id (length dev) dev he (omega arith),
      )
      (unfold with_device in ap some hn)

read-body :
    (dev words : Bytes)
    → length dev ≤ 0xffff
    → read_body (big_endian 2 (length dev) ++ (dev ++ words))
      ≡ read_sized (length dev) (dev ++ words)
unfolding read_body
read-body dev words hs =
    let size = big_endian 2 (length dev) in
    let two : length size ≡ 2 = length-big_endian 2 (length dev) in
    rw
      (
        take-append_of 2 size (dev ++ words) two,
        drop-append_of 2 size (dev ++ words) two,
        read_big_endian-big_endian 2 (length dev) (omega arith),
      )
      refl

-- The canonical bytes of a report, where there are any, read back as that very report.
pub read_message-canonical_bytes :
    (r : ReportTuple) (m : Bytes) → canonical_bytes r ≡ ok m → read_message m ≡ some r
unfolding read_message
read_message-canonical_bytes r m h =
    let p = canonical_bytes-Serialised r m h in
    let body = big_endian 2 (length p.dev) ++ (p.dev ++ p.words) in
    let start : length header ≡ 26 = length-header in
    rw
      (
        p.bytes,
        take-append_of 26 header body start,
        drop-append_of 26 header body start,
        (str_eq_iff header header).1 refl,
        read-body p.dev p.words p.short,
      )
      (read-sized r p.dev p.words p.encoded
        (read-numbers r p.words (pack_four-Packed _ _ _ _ p.packed)))

-- Two reports with the same canonical bytes are the same report.
pub canonical_bytes-injective :
    (r s : ReportTuple) (m : Bytes) → canonical_bytes r ≡ ok m → canonical_bytes s ≡ ok m → r ≡ s
canonical_bytes-injective r s m hr hs =
    cc (read_message-canonical_bytes r m hr, read_message-canonical_bytes s m hs)

header-IsByte : All IsByte header
unfolding domain
header-IsByte = omega arith

-- The canonical bytes are bytes.
pub canonical_bytes-IsByte : (r : ReportTuple) (m : Bytes) → canonical_bytes r ≡ ok m → All IsByte m
canonical_bytes-IsByte r m h =
    let p = canonical_bytes-Serialised r m h in
    let w = pack_four-Packed _ _ _ _ p.packed in
    rw p.bytes (
      All-append IsByte header _ header-IsByte (
        All-append IsByte _ _ (big_endian-IsByte 2 (length p.dev)) (
          All-append IsByte _ _ (utf8-IsByte r.device_id p.dev p.encoded)
            (rw w.bytes (numbers-IsByte w.a w.b w.c w.d)))))
