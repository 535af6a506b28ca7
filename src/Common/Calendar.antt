-- ===== src/Common/Calendar.antt =====
-- The calendar of Python's `datetime`: ordinals, dates, and the texts that `isoformat`, `strftime` and
-- `date.fromisoformat` write and read.
mod Tests
use ble_usage_meter.Common.{
  ℕ, zero, suc, ◌+◌, ◌-◌, ◌*◌, ◌/◌, ◌%◌, ◌≡◌, refl, Str, List, [], ◌∷◌, ◌++◌, Bool, true, false,
  not, ◌&&◌, ◌||◌, Option, none, some, ltb, leb, eqb, if◌then◌else◌, text, length, take, drop,
}

abbrev pub is_leap : ℕ → Bool
is_leap y = eqb (y % 4) 0 && (not (eqb (y % 100) 0) || eqb (y % 400) 0)

-- The days of all years before a year from 1 on.
unfoldable pub days_before_year : ℕ → ℕ
days_before_year year = let y = year - 1 in y * 365 + y / 4 - y / 100 + y / 400

unfoldable pub days_in_month : ℕ → ℕ → ℕ
days_in_month y m =
    if eqb m 2
    then (if is_leap y then 29 else 28)
    else if eqb m 4 || (eqb m 6 || (eqb m 9 || eqb m 11))
    then 30
    else 31

-- The days of the year's first `n` months.
unfoldable pub days_of_months : ℕ → ℕ → ℕ
unfolding days_in_month
days_of_months y zero = 0
days_of_months y (suc n) = days_of_months y n + days_in_month y (suc n)

-- `date(y, m, d).toordinal()`: 1 is the first of January of the year 1.
unfoldable pub ymd2ord : ℕ → ℕ → ℕ → ℕ
unfolding days_before_year days_of_months
ymd2ord y m d = days_before_year y + days_of_months y (m - 1) + d

abbrev pub max_ordinal : ℕ
max_ordinal = 3652059

-- The month and the day of the `n`-th day of a year, counted from 0, looking at the months from `m` on.
unfoldable pub month_day : ℕ → ℕ → ℕ → ℕ → ℕ × ℕ
unfolding days_in_month
month_day zero y m n = (m, n + 1)
month_day (suc f) y m n =
    let rest = month_day f y (m + 1) (n - days_in_month y m) in
    if ltb n (days_in_month y m) then (m, n + 1) else rest

-- The year, and the day of the year from 0, of a day counted from 0 at the first of January of 1.
unfoldable pub year_day : ℕ → ℕ × ℕ
year_day n =
    let n400 = n / 146097 in
    let r400 = n % 146097 in
    let n100 = r400 / 36524 in
    let r100 = r400 % 36524 in
    let n4 = r100 / 1461 in
    let r4 = r100 % 1461 in
    let n1 = r4 / 365 in
    let year = n400 * 400 + 1 + n100 * 100 + n4 * 4 + n1 in
    if eqb n1 4 || eqb n100 4 then (year - 1, 365) else (year, r4 % 365)

unfoldable pub ord2ymd : ℕ → ℕ × ℕ × ℕ
unfolding year_day month_day
ord2ymd ordinal =
    let (y, n) = year_day (ordinal - 1) in let (m, d) = month_day 11 y 1 n in (y, m, d)

digit : ℕ → ℕ
digit n = 48 + n % 10

-- `%02d`, `%04d` and `%06d` of a number that has no more digits.
unfoldable pub pad2 : ℕ → Str
unfolding digit
pad2 n = digit (n / 10) ∷ digit n ∷ []

unfoldable pub pad4 : ℕ → Str
unfolding digit
pad4 n = digit (n / 1000) ∷ digit (n / 100) ∷ digit (n / 10) ∷ digit n ∷ []

unfoldable pub pad6 : ℕ → Str
unfolding pad2 pad4
pad6 n = pad2 (n / 10000) ++ pad4 (n % 10000)

-- `strftime`'s `%Y` does not pad.
unfoldable pub year_text : ℕ → Str
unfolding digit
year_text y =
    if ltb y 10
    then digit y ∷ []
    else if ltb y 100
    then digit (y / 10) ∷ digit y ∷ []
    else if ltb y 1000
    then digit (y / 100) ∷ digit (y / 10) ∷ digit y ∷ []
    else pad4 y

-- `-MM-DDTHH:MM:SS` of a day and of a second of it.
unfoldable pub date_time_text : ℕ → ℕ → Str
unfolding ord2ymd pad2
date_time_text ordinal s =
    let (y, m, d) = ord2ymd ordinal in
    b'-'
    ∷ (pad2 m
        ++ (b'-'
            ∷ (pad2 d
                ++ (b'T'
                    ∷ (pad2 (s / 3600)
                        ++ (b':' ∷ (pad2 (s / 60 % 60) ++ (b':' ∷ pad2 (s % 60)))))))))

-- Of a time in microseconds since the start of the year 1: the ordinal of its day, its second, what
-- follows the year in its texts, and the year.
abbrev pub ordinal_of : ℕ → ℕ
ordinal_of t = t / 86400000000 + 1

unfoldable pub after_year : ℕ → Str
after_year t = date_time_text (ordinal_of t) (t / 1000000 % 86400)

unfoldable pub year_of : ℕ → ℕ
year_of t = let (y, m, d) = ord2ymd (ordinal_of t) in y

-- `YYYY-MM-DDTHH:MM:SS`, the part that every `isoformat` begins with.
unfoldable pub iso_seconds : ℕ → Str
iso_seconds t = pad4 (year_of t) ++ after_year t

-- `strftime("%Y-%m-%dT%H:%M:%SZ")`
unfoldable pub strftime_z : ℕ → Str
strftime_z t = year_text (year_of t) ++ (after_year t ++ b'Z' ∷ [])

-- The value of a text of ASCII digits.
unfoldable pub number_from : ℕ → Str → Option ℕ
number_from acc [] = some acc
number_from acc (c ∷ s) =
    let rest = number_from (acc * 10 + (c - 48)) s in if leb 48 c && ltb c 58 then rest else none

-- `n` digits at the front, and what follows them.
unfoldable pub take_number : ℕ → Str → Option (ℕ × Str)
unfolding number_from
take_number n s =
    if ltb (length s) n
    then none
    else elim (number_from 0 (take n s)) [ none ↦ none | some v ↦ some (v, drop n s) ]
