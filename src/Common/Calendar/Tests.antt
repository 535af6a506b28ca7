-- ===== src/Common/Calendar/Tests.antt =====
-- Dates and texts of Python's `datetime` on examples.
use ble_usage_meter.Common.{◌+◌, ◌≡◌, refl, none, some, text}
use ble_usage_meter.Common.Calendar.{
  ord2ymd, iso_seconds, pad4, year_of, after_year, date_time_text,
}
use ble_usage_meter.Common.IsoDate.{date_fromisoformat}

example_day : ord2ymd 738000 ≡ (2021, 7, 29)
unfolding ord2ymd
example_day = refl

epoch : iso_seconds 62135596800000000 ≡ text "1970-01-01T00:00:00"
unfolding iso_seconds pad4 year_of after_year date_time_text
epoch = refl

leap_day : iso_seconds (62135596800000000 + 951782400000000) ≡ text "2000-02-29T00:00:00"
unfolding iso_seconds pad4 year_of after_year date_time_text
leap_day = refl

calendar_date : date_fromisoformat (text "2026-02-28") ≡ some 739675
unfolding date_fromisoformat
calendar_date = refl

basic_date : date_fromisoformat (text "20260228") ≡ some 739675
unfolding date_fromisoformat
basic_date = refl

week_date : date_fromisoformat (text "2026-W01") ≡ some 739614
unfolding date_fromisoformat
week_date = refl

no_such_day : date_fromisoformat (text "2026-02-29") ≡ none
unfolding date_fromisoformat
no_such_day = refl
