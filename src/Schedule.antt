-- ===== src/Schedule.antt =====
-- Schedules of jobs: src/vanth/schedules.py. A text is the list of its code points.
pub mod Parse
pub mod Cron
pub mod Fire
pub mod Zone
pub mod Tests
use vanth.Prelude.{ℕ, List}

-- What the functions raise, each a `ValueError` with its own message.
pub data Error : Type 0 where
  empty_field invalid_step step_too_small invalid_range invalid_value : Error
  start_after_end out_of_range empty_cron unknown_macro not_five_fields : Error
  no_fire_time empty_timezone unknown_timezone one_of_two interval_too_short cron_required : Error

pub data Result {ℓ} (A : Type ℓ) : Type ℓ where
  ok : A → Result A
  err : Error → Result A

-- _FIELD_ORDER
pub data Field : Type 0 where
  minute hour dom month dow : Field

-- _FIELD_RANGES
unfoldable pub low_of : Field → ℕ
low_of minute = 0
low_of hour = 0
low_of dom = 1
low_of month = 1
low_of dow = 0

unfoldable pub high_of : Field → ℕ
high_of minute = 59
high_of hour = 23
high_of dom = 31
high_of month = 12
high_of dow = 6

-- The five sets of `parse_cron`. A set is the list of its elements.
pub record Fields : Type 0 where
  pub minutes : List ℕ
  pub hours : List ℕ
  pub doms : List ℕ
  pub months : List ℕ
  pub dows : List ℕ
