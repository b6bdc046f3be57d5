-- ===== src/Schedule/Fire.antt =====
-- `next_cron_fire`, `next_cron_fires`, `validate_schedule_spec` and `compute_next_fire` of
-- src/vanth/schedules.py.
pub mod Earliest
use vanth.Prelude.{
  ℕ, zero, suc, ◌+◌, ◌*◌, ◌/◌, max, Bool, true, false, Option, none, some, List, [], ◌∷◌, ◌==◌,
  if◌then◌else◌,
}
use vanth.Time.{seconds}
use vanth.Schedule.{
  Fields, Result, ok, err, no_fire_time, one_of_two, interval_too_short, cron_required,
}
use vanth.Schedule.Cron.{LocalTime, parse_cron, validate_cron, matches}

-- An instant in microseconds, of a minute counted from 1970.
abbrev pub at_minute : ℕ → ℕ
at_minute m = m * 60000000

-- The first whole minute strictly after an instant.
unfoldable pub minute_after : ℕ → ℕ
minute_after after = after / 60000000 + 1

-- The minutes of `max_years` years of 366 days.
abbrev pub horizon : ℕ → ℕ
horizon max_years = 366 * max_years * 1440

-- `zone` is `astimezone(tz)` at a minute of UTC, for the schedule's timezone.
module _ (zone : ℕ → LocalTime) where
  -- The loop over the minutes; the first argument counts those up to `limit`, which is included.
  unfoldable pub scan : ℕ → Fields → ℕ → Option ℕ
  scan zero fields current = none
  scan (suc left) fields current =
      let later = scan left fields (current + 1) in
      if matches fields (zone current) then some current else later

  unfoldable pub fire_of : Option ℕ → Result ℕ
  fire_of none = err no_fire_time
  fire_of (some m) = ok (at_minute m)

  unfoldable pub fire_with : ℕ → ℕ → Result Fields → Result ℕ
  unfolding scan fire_of
  fire_with max_years after (err e) = err e
  fire_with max_years after (ok fields) =
      fire_of (scan (suc (horizon max_years)) fields (minute_after after))

  unfoldable pub next_cron_fire : List ℕ → ℕ → ℕ → Result ℕ
  unfolding fire_with
  next_cron_fire expr after max_years = fire_with max_years after (parse_cron expr)

  unfoldable pub cons_fire : Result ℕ → Result (List ℕ) → Result (List ℕ)
  cons_fire (err e) rest = err e
  cons_fire (ok m) (err e) = err e
  cons_fire (ok m) (ok ms) = ok (m ∷ ms)

  unfoldable pub cursor_of : ℕ → Result ℕ → ℕ
  cursor_of cursor (err e) = cursor
  cursor_of cursor (ok m) = m

  -- The loop of the preview: the next cursor is the fire time. Nothing runs after an error.
  unfoldable pub fires_from : List ℕ → ℕ → ℕ → Result (List ℕ)
  unfolding cons_fire cursor_of
  fires_from expr zero cursor = ok []
  fires_from expr (suc n) cursor =
      cons_fire (next_cron_fire expr cursor 5)
        (fires_from expr n (cursor_of cursor (next_cron_fire expr cursor 5)))

  unfoldable pub next_cron_fires : List ℕ → ℕ → ℕ → Result (List ℕ)
  unfolding fires_from
  next_cron_fires expr after count = fires_from expr (max 1 count) after

  unfoldable pub compute_next_fire : Option (List ℕ) → Option ℕ → ℕ → Result ℕ
  unfolding next_cron_fire
  compute_next_fire cron (some interval) after = ok (after + seconds interval)
  compute_next_fire none none after = err cron_required
  compute_next_fire (some expr) none after = next_cron_fire expr after 5

unit_of : Result (List ℕ) → Result (Unit {0})
unit_of (err e) = err e
unit_of (ok text) = ok tt

unfoldable pub validate_schedule_spec : Option (List ℕ) → Option ℕ → Result (Unit {0})
unfolding unit_of
validate_schedule_spec none none = err one_of_two
validate_schedule_spec (some expr) (some interval) = err one_of_two
validate_schedule_spec (some expr) none = unit_of (validate_cron expr)
validate_schedule_spec none (some interval) =
    if interval == 0 then err interval_too_short else ok tt
