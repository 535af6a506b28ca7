-- ===== src/Backend/Db.antt =====
-- backend/schema.sql and the state that backend/*.py reads and writes: the tables of the database.
-- `usage_reports` is kept newest first, the order of `ORDER BY id DESC`; an INSERT puts a row in front.
use ble_usage_meter.Common.{Str, List, Option}
use ble_usage_meter.Common.Int.{ℤ}
use ble_usage_meter.Common.Dict.{Dict}
use ble_usage_meter.Backend.Models.{DateTime, DeviceRecord}

-- A row of `usage_reports`. The texts of the two windows are kept as the times that they write.
pub record ReportRow : Type 0 where
  pub device_id : Str
  pub count : ℤ
  pub sequence : ℤ
  pub window_start : DateTime
  pub window_end : DateTime
  pub signature : Str
  pub received_at : Str

-- A row of `policies`. `active` is an integer; `expires_on` is a text.
pub record PolicyRow : Type 0 where
  pub active : ℤ
  pub quota_units : Option ℤ
  pub period_days : Option ℤ
  pub expires_on : Option Str

-- The three tables. Devices and policies have the device id as their key.
pub record Database : Type 0 where
  pub devices : Dict Str DeviceRecord
  pub usage_reports : List ReportRow
  pub policies : Dict Str PolicyRow
