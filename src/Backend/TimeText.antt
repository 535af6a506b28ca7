-- ===== src/Backend/TimeText.antt =====
-- The texts of times that backend/app.py stores and backend/policy.py compares.
use ble_usage_meter.Common.{
  ℕ, suc, ◌/◌, ◌%◌, Str, [], ◌∷◌, ◌++◌, Bool, true, false, ◌&&◌, ◌||◌, Option, none, some, ltb, eqb,
  if◌then◌else◌,
}
use ble_usage_meter.Common.Int.{ℤ, pos, negsuc, pos_part, ◌-ℤ◌}
use ble_usage_meter.Common.Calendar.{iso_seconds, pad2, pad6}
use ble_usage_meter.Backend.Models.{DateTime, min_wall}

-- The offset at the end of `isoformat`: `+HH:MM`, with seconds and microseconds where it has any.
unfoldable pub offset_text : ℕ → Str
offset_text u =
    let s = u / 1000000 in
    pad2 (s / 3600)
    ++ (b':'
        ∷ (pad2 (s / 60 % 60)
            ++ (if eqb (u % 60000000) 0
                then []
                else b':'
                  ∷ (pad2 (s % 60)
                      ++ (if eqb (u % 1000000) 0 then [] else b'.' ∷ pad6 (u % 1000000))))))

unfoldable pub zone_text : Option ℤ → Str
zone_text none = []
zone_text (some (pos u)) = b'+' ∷ offset_text u
zone_text (some (negsuc u)) = b'-' ∷ offset_text (suc u)

-- Microseconds since the start of the year 1.
abbrev pub since_year_one : ℤ → ℕ
since_year_one wall = pos_part (wall -ℤ min_wall)

abbrev pub fraction_text : ℕ → Str
fraction_text u = if eqb u 0 then [] else b'.' ∷ pad6 u

-- `datetime.isoformat()`, the text that `usage_reports.window_end` holds.
unfoldable pub isoformat : DateTime → Str
isoformat d =
    let t = since_year_one d.wall in
    iso_seconds t ++ (fraction_text (t % 1000000) ++ zone_text d.utcoffset)

-- SQLite's `<` on texts: the order of their bytes.
unfoldable pub text_lt : Str → Str → Bool
text_lt s [] = false
text_lt [] (d ∷ t) = true
text_lt (c ∷ s) (d ∷ t) = ltb c d || (eqb c d && text_lt s t)
