-- ===== src/Common/BigEndian.antt =====
-- Fixed-width big-endian integers: `int.to_bytes(k, "big")`, `struct.pack`, and a reader for them.
use native.Mathlib.Nat.{pow-suc}
use ble_usage_meter.Common.{
  ℕ, zero, suc, ◌+◌, ◌*◌, ◌/◌, ◌%◌, ◌^◌, ◌<◌, ◌≡◌, refl, Bytes, [], ◌∷◌, ◌++◌, length,
  length-append, All, All-append, Error, Result, ok, err, ltb, if◌then◌else◌, arith, ◌∙◌, sym,
  ◌>>=◌, struct_error, bind-eq-ok, ok-injective, take, drop, take-append_of, drop-append_of,
  append-nil,
}
use ble_usage_meter.Common.Int.{ℤ, pos, negsuc}

abbrev pub IsByte : ℕ → Type 0
IsByte b = b < 256

-- The `k` low bytes of `v`, highest first.
unfoldable pub big_endian : ℕ → ℕ → Bytes
big_endian zero v = []
big_endian (suc k) v = big_endian k (v / 256) ++ v % 256 ∷ []

unfoldable pub read_from : ℕ → Bytes → ℕ
read_from acc [] = acc
read_from acc (b ∷ bs) = read_from (acc * 256 + b) bs

-- `int.from_bytes(bs, "big")`
unfoldable pub read_big_endian : Bytes → ℕ
unfolding read_from
read_big_endian bs = read_from 0 bs

-- A Python integer in `k` bytes; `e` is what the encoder raises for one that does not fit.
unfoldable pub pack_int : Error → ℕ → ℤ → Result Bytes
pack_int e k (pos v) = if ltb v (256 ^ k) then ok (big_endian k v) else err e
pack_int e k (negsuc v) = err e

read_from-snoc :
    (acc : ℕ) (bs : Bytes) (b : ℕ) → read_from acc (bs ++ b ∷ []) ≡ read_from acc bs * 256 + b
unfolding read_from
read_from-snoc acc [] b = refl
read_from-snoc acc (c ∷ bs) b = read_from-snoc (acc * 256 + c) bs b

read_from-big_endian : (k v : ℕ) → v < 256 ^ k → read_from 0 (big_endian k v) ≡ v
unfolding big_endian
read_from-big_endian zero v h = unfold read_from in omega arith
read_from-big_endian (suc k) v h =
    read_from-snoc 0 (big_endian k (v / 256)) (v % 256)
    ∙ omega (arith, read_from-big_endian k (v / 256) (omega (arith, pow-suc 256 k)))

-- A number below 256 ^ k is read back from its `k` bytes.
pub read_big_endian-big_endian : (k v : ℕ) → v < 256 ^ k → read_big_endian (big_endian k v) ≡ v
unfolding read_big_endian
read_big_endian-big_endian k v h = read_from-big_endian k v h

pub length-big_endian : (k v : ℕ) → length (big_endian k v) ≡ k
unfolding big_endian
length-big_endian zero v = refl
length-big_endian (suc k) v =
    omega
      (arith, length-append (big_endian k (v / 256)) (v % 256 ∷ []), length-big_endian k (v / 256))

pub big_endian-IsByte : (k v : ℕ) → All IsByte (big_endian k v)
unfolding big_endian
big_endian-IsByte zero v = tt
big_endian-IsByte (suc k) v =
    All-append IsByte (big_endian k (v / 256)) (v % 256 ∷ []) (big_endian-IsByte k (v / 256))
      (omega arith, tt)

-- What an encoding that went well says of its integer.
pub pack_int-eq-ok :
    (e : Error) (k : ℕ) (z : ℤ) {bs : Bytes}
    → pack_int e k z ≡ ok bs
    → (v : ℕ) × (z ≡ pos v) × (v < 256 ^ k) × (bs ≡ big_endian k v)
unfolding pack_int
pack_int-eq-ok e k (pos v) h = (v, refl, ground arith, ground arith)
pack_int-eq-ok e k (negsuc v) h = cc

pub pack_int_fits : (e : Error) (k v : ℕ) → v < 256 ^ k → pack_int e k (pos v) ≡ ok (big_endian k v)
unfolding pack_int
pack_int_fits e k v h = ground arith

-- `struct.pack(">QQQQ", …)`: four unsigned 64-bit integers, or `struct.error`.
unfoldable pub pack_four : ℤ → ℤ → ℤ → ℤ → Result Bytes
pack_four p q r s = do
  a ← pack_int struct_error 8 p
  b ← pack_int struct_error 8 q
  c ← pack_int struct_error 8 r
  d ← pack_int struct_error 8 s
  ok (a ++ (b ++ (c ++ d)))

abbrev pub Is64 : ℕ → Type 0
Is64 v = v < 256 ^ 8

-- Four numbers, eight bytes each.
unfoldable pub numbers : ℕ → ℕ → ℕ → ℕ → Bytes
numbers c s a b = big_endian 8 c ++ (big_endian 8 s ++ (big_endian 8 a ++ big_endian 8 b))

-- Four integers that were packed are 64-bit numbers, and their bytes are those of the numbers.
pub record Packed (p q r s : ℤ) (bs : Bytes) : Type 0 where
  pub a : ℕ
  pub b : ℕ
  pub c : ℕ
  pub d : ℕ
  pub first : p ≡ pos a
  pub second : q ≡ pos b
  pub third : r ≡ pos c
  pub fourth : s ≡ pos d
  pub fits : Is64 a × Is64 b × Is64 c × Is64 d
  pub bytes : bs ≡ numbers a b c d

join_numbers :
    (a b c d : ℕ) {p q r s : Bytes}
    → p ≡ big_endian 8 a
    → q ≡ big_endian 8 b
    → r ≡ big_endian 8 c
    → s ≡ big_endian 8 d
    → p ++ (q ++ (r ++ s)) ≡ numbers a b c d
unfolding numbers
join_numbers a b c d e f g h = cc

pub pack_four-Packed : (p q r s : ℤ) {bs : Bytes} → pack_four p q r s ≡ ok bs → Packed p q r s bs
unfolding pack_four
pack_four-Packed p q r s h0 =
    let (pb, hp, h1) = bind-eq-ok (pack_int struct_error 8 p) _ h0 in
    let (qb, hq, h2) = bind-eq-ok (pack_int struct_error 8 q) _ h1 in
    let (rb, hr, h3) = bind-eq-ok (pack_int struct_error 8 r) _ h2 in
    let (sb, hs, h4) = bind-eq-ok (pack_int struct_error 8 s) _ h3 in
    let (a, ea, fa, ba) = pack_int-eq-ok struct_error 8 p hp in
    let (b, eb, fb, bb) = pack_int-eq-ok struct_error 8 q hq in
    let (c, ec, fc, bc) = pack_int-eq-ok struct_error 8 r hr in
    let (d, ed, fd, bd) = pack_int-eq-ok struct_error 8 s hs in
    record {
      a = a;
      b = b;
      c = c;
      d = d;
      first = ea;
      second = eb;
      third = ec;
      fourth = ed;
      fits = (fa, fb, fc, fd);
      bytes = sym (ok-injective h4) ∙ join_numbers a b c d ba bb bc bd;
    }

word-append :
    (v : ℕ) (rest : Bytes)
    → Is64 v
    → (read_big_endian (take 8 (big_endian 8 v ++ rest)) ≡ v)
      × (drop 8 (big_endian 8 v ++ rest) ≡ rest)
word-append v rest h = (
  rw (take-append_of 8 (big_endian 8 v) rest (length-big_endian 8 v))
      (read_big_endian-big_endian 8 v h),
  drop-append_of 8 (big_endian 8 v) rest (length-big_endian 8 v),
)

last_word : (v : ℕ) → Is64 v → read_big_endian (take 8 (big_endian 8 v)) ≡ v
last_word v h = rw append-nil at ((word-append v [] h).0)

-- The four numbers are read back, eight bytes at a time.
pub numbers_words :
    (a b c d : ℕ)
    → Is64 a × Is64 b × Is64 c × Is64 d
    → let m = numbers a b c d in
      (read_big_endian (take 8 m) ≡ a)
      × (read_big_endian (take 8 (drop 8 m)) ≡ b)
      × (read_big_endian (take 8 (drop 8 (drop 8 m))) ≡ c)
      × (read_big_endian (take 8 (drop 8 (drop 8 (drop 8 m)))) ≡ d)
unfolding numbers
numbers_words a b c d (ha, hb, hc, hd) =
    let (ra, da) = word-append a (big_endian 8 b ++ (big_endian 8 c ++ big_endian 8 d)) ha in
    let (rb, db) = word-append b (big_endian 8 c ++ big_endian 8 d) hb in
    let (rc, dc) = word-append c (big_endian 8 d) hc in
    (ra, rw da rb, rw (da, db) rc, rw (da, db, dc) (last_word d hd))

pub numbers-IsByte : (a b c d : ℕ) → All IsByte (numbers a b c d)
unfolding numbers
numbers-IsByte a b c d =
    let byte : (v : ℕ) → All IsByte (big_endian 8 v) = big_endian-IsByte 8 in
    All-append IsByte _ _ (byte a)
      (All-append IsByte _ _ (byte b) (All-append IsByte _ _ (byte c) (byte d)))
