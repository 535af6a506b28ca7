-- ===== src/Backend/Policy/Cutoff.antt =====
-- Where the cutoff of a period lies: the stored texts of the window ends are compared with the text
-- of the cutoff.
use ble_usage_meter.Common.{
  ℕ, ◌/◌, ◌%◌, ◌≤◌, Str, [], ◌∷◌, ◌++◌, append_assoc, true, false, ◌≡◌, refl, sym, ◌∙◌, Option,
  none, some, arith, if◌then◌else◌, length, str_eq, str_eq_iff, Bool-cases, inl, inr,
}
use ble_usage_meter.Common.Int.{ℤ, pos, negsuc}
use ble_usage_meter.Common.Calendar.{
  iso_seconds, strftime_z, year_text, year_of, after_year, pad4, date_time_text,
}
use ble_usage_meter.Backend.Models.{DateTime}
use ble_usage_meter.Backend.Db.{ReportRow}
use ble_usage_meter.Backend.TimeText.{isoformat, text_lt, fraction_text, zone_text, since_year_one}
use ble_usage_meter.Backend.Policy.{ended_before}

-- Texts with the same beginning compare by what follows it.
text_lt-append : (p s t : Str) → text_lt (p ++ s) (p ++ t) ≡ text_lt s t
unfolding text_lt
text_lt-append [] s t = refl
text_lt-append (c ∷ p) s t = ground (arith, text_lt-append p s t)

-- Texts whose beginnings differ and are of one length compare by those.
text_lt-differ :
    (p q s t : Str)
    → length p ≡ length q
    → str_eq p q ≡ false
    → text_lt (p ++ s) (q ++ t) ≡ text_lt p q
unfolding text_lt str_eq
text_lt-differ [] [] s t n d = cc
text_lt-differ [] (c ∷ q) s t n d = absurd (omega arith)
text_lt-differ (c ∷ p) [] s t n d = absurd (omega arith)
text_lt-differ (c ∷ p) (d ∷ q) s t n e = ground (arith, text_lt-differ p q s t)

-- Whatever follows the seconds in an `isoformat` text sorts before `Z`.
fraction_before_z :
    (u : ℕ) (zone : Option ℤ) → text_lt (fraction_text u ++ zone_text zone) (b'Z' ∷ []) ≡ true
unfolding text_lt zone_text
fraction_before_z u none = ground arith
fraction_before_z u (some (pos o)) = ground arith
fraction_before_z u (some (negsuc o)) = ground arith

length-iso_seconds : (t : ℕ) → length (iso_seconds t) ≡ 19
unfolding iso_seconds pad4 after_year date_time_text
length-iso_seconds t = refl

year_text-pad4 : (y : ℕ) → 1000 ≤ y → year_text y ≡ pad4 y
unfolding year_text
year_text-pad4 y h = ground arith

-- From the year 1000 on the cutoff's text is that of its seconds and a `Z`.
strftime_z-iso_seconds : (t : ℕ) → 1000 ≤ year_of t → strftime_z t ≡ iso_seconds t ++ b'Z' ∷ []
unfolding strftime_z iso_seconds
strftime_z-iso_seconds t h =
    rw (year_text-pad4 (year_of t) h) (sym (append_assoc (pad4 (year_of t)) (after_year t) _))

same_day : (a b : ℕ) → a / 1000000 ≡ b / 1000000 → a / 86400000000 ≡ b / 86400000000
same_day a b h = omega arith

iso_seconds-same : (a b : ℕ) → a / 1000000 ≡ b / 1000000 → iso_seconds a ≡ iso_seconds b
unfolding iso_seconds year_of after_year
iso_seconds-same a b h = cc (same_day a b h)

-- The text of a window's end, of whatever zone, against the text of the cutoff.
isoformat_before_cutoff :
    (w : DateTime) (t : ℕ)
    → 1000 ≤ year_of t
    → let p = iso_seconds (since_year_one w.wall) in
      text_lt (isoformat w) (strftime_z t)
      ≡ (if str_eq p (iso_seconds t) then true else text_lt p (iso_seconds t))
unfolding isoformat
isoformat_before_cutoff w t h =
    let u = since_year_one w.wall in
    let rest = fraction_text (u % 1000000) ++ zone_text w.utcoffset in
    let p = iso_seconds u in
    let q = iso_seconds t in
    elim (Bool-cases (str_eq p q)) [
      | inl same ↦
          rw (strftime_z-iso_seconds t h, same, (str_eq_iff p q).0 same)
            (text_lt-append q rest (b'Z' ∷ []) ∙ fraction_before_z (u % 1000000) w.utcoffset)
      | inr differ ↦
          rw (strftime_z-iso_seconds t h, differ)
            (text_lt-differ p q rest (b'Z' ∷ []) (length-iso_seconds u ∙ sym (length-iso_seconds t))
              differ)
    ]

-- A window that ends in the very second of the cutoff counts as ended before it, on whatever zone
-- its clock is.
pub ended_before_same_second :
    (r : ReportRow) (cutoff : ℕ)
    → 1000 ≤ year_of cutoff
    → since_year_one r.window_end.wall / 1000000 ≡ cutoff / 1000000
    → ended_before (strftime_z cutoff) r ≡ true
unfolding ended_before
ended_before_same_second r cutoff h same =
    let p = iso_seconds (since_year_one r.window_end.wall) in
    let e : p ≡ iso_seconds cutoff = iso_seconds-same _ cutoff same in
    isoformat_before_cutoff r.window_end cutoff h
    ∙ rw ((str_eq_iff p (iso_seconds cutoff)).1 e) refl

-- The test reads the clock of a window's end and not its zone: two ends with one clock reading, hours
-- apart in time, are on the same side of every cutoff from the year 1000 on.
pub ended_before_ignores_zone :
    (r s : ReportRow) (cutoff : ℕ)
    → 1000 ≤ year_of cutoff
    → r.window_end.wall ≡ s.window_end.wall
    → ended_before (strftime_z cutoff) r ≡ ended_before (strftime_z cutoff) s
unfolding ended_before
ended_before_ignores_zone r s cutoff h same =
    isoformat_before_cutoff r.window_end cutoff h
    ∙ rw same refl
    ∙ sym (isoformat_before_cutoff s.window_end cutoff h)
