-- ===== src/Common/IsoDate.antt =====
-- `date.fromisoformat`, to the ordinal of the date: `YYYY-MM-DD`, `YYYYMMDD` and the ISO week dates.
use ble_usage_meter.Common.{
  ℕ, ◌+◌, ◌-◌, ◌*◌, ◌%◌, Str, [], ◌∷◌, Bool, true, false, ◌&&◌, ◌||◌, Option, none, some, ltb, leb,
  eqb, if◌then◌else◌, length,
}
use ble_usage_meter.Common.Calendar.{is_leap, days_in_month, ymd2ord, max_ordinal, take_number}

infixl 5 ◌>>=◌
abbrev ◌>>=◌ {ℓ κ} : {A : Type ℓ} {B : Type κ} → Option A → (A → Option B) → Option B
none >>= f = none
some a >>= f = f a

-- `date(y, m, d)`, which raises for what is no date.
date_of : ℕ → ℕ → ℕ → Option ℕ
unfolding days_in_month ymd2ord
date_of y m d =
    if leb 1 y && (leb 1 m && (leb m 12 && (leb 1 d && leb d (days_in_month y m))))
    then some (ymd2ord y m d)
    else none

-- The ordinal of the Monday of the year's first ISO week, plus 7 to stay above 0.
first_monday_plus_7 : ℕ → ℕ
unfolding ymd2ord
first_monday_plus_7 y =
    let first = ymd2ord y 1 1 in
    let weekday = (first + 6) % 7 in
    if ltb 3 weekday then first + 14 - weekday else first + 7 - weekday

has_week : ℕ → ℕ → Bool
unfolding ymd2ord
has_week y w =
    (leb 1 w && ltb w 53)
    || (eqb w 53 && (eqb (ymd2ord y 1 1 % 7) 4 || (eqb (ymd2ord y 1 1 % 7) 3 && is_leap y)))

week_date_of : ℕ → ℕ → ℕ → Option ℕ
unfolding first_monday_plus_7 has_week
week_date_of y w d =
    let ordinal_plus_7 = first_monday_plus_7 y + (w - 1) * 7 + (d - 1) in
    if leb 1 y
      && (has_week y w
          && (leb 1 d
              && (leb d 7 && (ltb 7 ordinal_plus_7 && leb ordinal_plus_7 (max_ordinal + 7)))))
    then some (ordinal_plus_7 - 7)
    else none

-- A dash where there is one after the year, and nothing where there is none.
separator : Bool → Str → Option Str
separator false s = some s
separator true [] = none
separator true (c ∷ s) = if eqb c b'-' then some s else none

all_read : Str → ℕ → Option ℕ
all_read [] v = some v
all_read (c ∷ s) v = none

-- The week and, unless the text ends, the day of the week.
read_week : ℕ → Bool → Str → Option ℕ
unfolding week_date_of separator take_number all_read
read_week y dashed s = do
  (w, rest) ← take_number 2 s
  elim rest [
    | [] ↦ week_date_of y w 1
    | c ∷ cs ↦ separator dashed (c ∷ cs) >>= λ after.
        take_number 1 after >>= λ (d, end). all_read end d >>= λ day. week_date_of y w day
  ]

read_month : ℕ → Bool → Str → Option ℕ
unfolding date_of separator take_number all_read
read_month y dashed s = do
  (m, rest) ← take_number 2 s
  after ← separator dashed rest
  (d, end) ← take_number 2 after
  day ← all_read end d
  date_of y m day

read_after_year : ℕ → Bool → Str → Option ℕ
unfolding read_week read_month
read_after_year y dashed [] = none
read_after_year y dashed (c ∷ s) =
    if eqb c b'W' then read_week y dashed s else read_month y dashed (c ∷ s)

read_rest : ℕ → Str → Option ℕ
unfolding read_after_year
read_rest y [] = none
read_rest y (c ∷ s) =
    if eqb c b'-' then read_after_year y true s else read_after_year y false (c ∷ s)

unfoldable pub date_fromisoformat : Str → Option ℕ
unfolding read_rest take_number
date_fromisoformat s =
    if eqb (length s) 7 || (eqb (length s) 8 || eqb (length s) 10)
    then (do (y, rest) ← take_number 4 s; read_rest y rest)
    else none
