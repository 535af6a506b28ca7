-- ===== src/Tools/Snoop/Records.antt =====
-- Reading back a btsnoop file that was written from its records.
use ble_usage_meter.Common.{
  ℕ, zero, suc, ◌+◌, ◌^◌, ◌≤◌, ◌<◌, ◌≡◌, refl, sym, ap, ◌∙◌, Bytes, List, [], ◌∷◌, ◌++◌,
  append_assoc, ok, length, length-append, take, drop, take-append, take-append_of, drop-append,
  drop-append_of, str_eq_iff, arith, All,
}
use ble_usage_meter.Common.BigEndian.{
  big_endian, read_big_endian, read_big_endian-big_endian, length-big_endian,
}
use ble_usage_meter.Tools.Snoop.{btsnoop_magic, records_from, iter_records}

-- A record of a capture.
pub record Entry : Type 0 where
  pub original_length : ℕ
  pub flags : ℕ
  pub drops : ℕ
  pub timestamp : ℕ
  pub packet : Bytes

-- Its bytes, by the layout of the format.
abbrev pub entry_bytes : Entry → Bytes
entry_bytes e =
    big_endian 4 e.original_length
    ++ (big_endian 4 (length e.packet)
        ++ (big_endian 4 e.flags
            ++ (big_endian 4 e.drops ++ (big_endian 8 e.timestamp ++ e.packet))))

abbrev pub entries_bytes : List Entry → Bytes
entries_bytes [] = []
entries_bytes (e ∷ es) = entry_bytes e ++ entries_bytes es

abbrev pub entry_record : Entry → ℕ × Bytes
entry_record e = (e.flags, e.packet)

-- The length of the packet and the flags have 32 bits.
abbrev pub Fits : Entry → Type 0
Fits e = (length e.packet < 256 ^ 4) × (e.flags < 256 ^ 4)

abbrev pub entry_records : List Entry → List (ℕ × Bytes)
entry_records [] = []
entry_records (e ∷ es) = entry_record e ∷ entry_records es

drop_by : (j k : ℕ) (xs : Bytes) → j ≡ k → drop j xs ≡ drop k xs
drop_by j k xs h = ap (λ n. drop n xs) h

drop_two : (m n : ℕ) (xs : Bytes) → drop (m + n) xs ≡ drop n (drop m xs)
drop_two zero n xs = drop_by (0 + n) n xs (omega arith)
drop_two (suc m) n [] = drop_nil (suc m + n) ∙ sym (drop_nil n)
  where
    drop_nil : (n : ℕ) → drop {A = ℕ} n [] ≡ []
    drop_nil zero = refl
    drop_nil (suc n) = refl
drop_two (suc m) n (x ∷ xs) =
    drop_by (suc m + n) (suc (m + n)) (x ∷ xs) (omega arith) ∙ drop_two m n xs

module _ (e : Entry) (rest : Bytes) where
  abbrev whole : Bytes
  whole = entry_bytes e ++ rest

  abbrev from_times : Bytes
  from_times = big_endian 4 e.drops ++ (big_endian 8 e.timestamp ++ (e.packet ++ rest))

  -- The fields of the header, one after the other.
  regroup :
      whole
      ≡ big_endian 4 e.original_length
        ++ (big_endian 4 (length e.packet) ++ (big_endian 4 e.flags ++ from_times))
  regroup = simp append_assoc

  after_four : drop 4 whole ≡ big_endian 4 (length e.packet) ++ (big_endian 4 e.flags ++ from_times)
  after_four =
      ap (drop 4) regroup
      ∙ drop-append_of 4 (big_endian 4 e.original_length) _ (length-big_endian 4 e.original_length)

  after_eight : drop 8 whole ≡ big_endian 4 e.flags ++ from_times
  after_eight =
      drop_two 4 4 whole
      ∙ ap (drop 4) after_four
      ∙ drop-append_of 4 (big_endian 4 (length e.packet)) _ (length-big_endian 4 (length e.packet))

  after_header : drop 24 whole ≡ e.packet ++ rest
  after_header =
      drop_two 8 16 whole
      ∙ ap (drop 16) after_eight
      ∙ drop_two 4 12 (big_endian 4 e.flags ++ from_times)
      ∙ ap (drop 12)
          (drop-append_of 4 (big_endian 4 e.flags) from_times (length-big_endian 4 e.flags))
      ∙ drop_two 4 8 from_times
      ∙ ap (drop 8) (drop-append_of 4 (big_endian 4 e.drops) _ (length-big_endian 4 e.drops))
      ∙ drop-append_of 8 (big_endian 8 e.timestamp) _ (length-big_endian 8 e.timestamp)

  length-whole : length whole ≡ 24 + (length e.packet + length rest)
  length-whole =
      ap length regroup
      ∙ omega (
        arith,
        length-append (big_endian 4 e.original_length)
            (big_endian 4 (length e.packet) ++ (big_endian 4 e.flags ++ from_times)),
        length-append (big_endian 4 (length e.packet)) (big_endian 4 e.flags ++ from_times),
        length-append (big_endian 4 e.flags) from_times,
        length-append (big_endian 4 e.drops) (big_endian 8 e.timestamp ++ (e.packet ++ rest)),
        length-append (big_endian 8 e.timestamp) (e.packet ++ rest),
        length-append e.packet rest,
        length-big_endian 4 e.original_length,
        length-big_endian 4 (length e.packet),
        length-big_endian 4 e.flags,
        length-big_endian 4 e.drops,
        length-big_endian 8 e.timestamp,
      )

  included : Fits e → read_big_endian (take 4 (drop 4 whole)) ≡ length e.packet
  included f =
      ap (λ bs. read_big_endian (take 4 bs)) after_four
      ∙ ap read_big_endian (
          take-append_of 4 (big_endian 4 (length e.packet)) _
            (length-big_endian 4 (length e.packet)))
      ∙ read_big_endian-big_endian 4 (length e.packet) f.0

  flags_of : Fits e → read_big_endian (take 4 (drop 8 whole)) ≡ e.flags
  flags_of f =
      ap (λ bs. read_big_endian (take 4 bs)) after_eight
      ∙ ap read_big_endian (take-append_of 4 (big_endian 4 e.flags) _ (length-big_endian 4 e.flags))
      ∙ read_big_endian-big_endian 4 e.flags f.1

  -- One turn of the loop reads one record.
  turn :
      (turns : ℕ)
      → Fits e
      → records_from (suc turns) whole ≡ entry_record e ∷ records_from turns rest
  unfolding records_from
  turn turns f =
      rw
        (included f, flags_of f, after_header, take-append e.packet rest, drop-append e.packet rest)
        (ground (arith, length-whole, length-append e.packet rest))

-- More turns than there are bytes read nothing more.
pub records_from-nil : (turns : ℕ) → records_from turns [] ≡ []
unfolding records_from
records_from-nil zero = refl
records_from-nil (suc turns) = refl

records_from-entries :
    (es : List Entry) (turns : ℕ)
    → All Fits es
    → length (entries_bytes es) ≤ turns
    → records_from turns (entries_bytes es) ≡ entry_records es
records_from-entries [] turns f h = records_from-nil turns
records_from-entries (e ∷ es) zero f h = absurd (omega (arith, length-whole e (entries_bytes es)))
records_from-entries (e ∷ es) (suc turns) f h =
    turn e (entries_bytes es) turns f.0
    ∙ ap (λ rs. entry_record e ∷ rs)
        (records_from-entries es turns f.1 (omega (arith, length-whole e (entries_bytes es))))

length-magic : length btsnoop_magic ≡ 8
unfolding btsnoop_magic
length-magic = refl

-- A file that starts with the magic and eight more bytes, and goes on with records whose lengths and
-- flags have 32 bits, is read as exactly those records, in their order: the turns that the loop may take
-- are enough.
pub iter_records-entries :
    (header : Bytes) (es : List Entry)
    → length header ≡ 8
    → All Fits es
    → iter_records (btsnoop_magic ++ (header ++ entries_bytes es)) ≡ ok (entry_records es)
unfolding iter_records
iter_records-entries header es n f =
    let tail = entries_bytes es in
    let file = btsnoop_magic ++ (header ++ tail) in
    let start : drop 16 file ≡ tail =
      drop_two 8 8 file
      ∙ ap (drop 8) (drop-append_of 8 btsnoop_magic (header ++ tail) length-magic)
      ∙ drop-append_of 8 header tail n in
    rw
      (
        take-append_of 8 btsnoop_magic (header ++ tail) length-magic,
        (str_eq_iff btsnoop_magic btsnoop_magic).1 refl,
        start,
        records_from-entries es (length file) f (
            omega (arith, length-append btsnoop_magic (header ++ tail), length-append header tail)),
      )
      refl
