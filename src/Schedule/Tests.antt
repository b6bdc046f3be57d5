-- ===== src/Schedule/Tests.antt =====
-- Concrete expressions and times, and the theorems of this folder at work on them.
use vanth.Prelude.{
  ℕ, ◌+◌, ◌%◌, ◌/◌, ◌≤◌, ◌≡◌, refl, true, ◌&&◌, ◌||◌, List, [], ◌∷◌, arith, codes, All,
  if◌then◌else◌,
}
use vanth.Schedule.{dow, low_of, high_of, Fields, ok}
use vanth.Prelude.Text.{
  strip, skip_space, reverse_onto, is_space, split_at, words, partition, int, lower, same_text,
}
use vanth.Schedule.Parse.{
  memb, range_on, range, parse_high, checked, between_ends, single, body_values, stepped,
  part_values, join, parts_values, discard, normalized, normal, parse_field,
}
use vanth.Schedule.Parse.Bounds.{parse_field-bounded}
use vanth.Schedule.Cron.{
  macros, lookup, expanded, starts_at, pack, five, fields_of, stripped_if, parse_valid, within,
  LocalTime, parse_cron, validate_cron, matches, day_matches, restricted, cron_dow,
}
use vanth.Schedule.Cron.Matching.{day_matches-eq}
use vanth.Schedule.Fire.{
  fires_from, cons_fire, cursor_of, fire_with, fire_of, scan, at_minute, minute_after,
  next_cron_fire, next_cron_fires,
}
use vanth.Schedule.Fire.Earliest.{next_cron_fire_earliest}

-- The first minutes of 1970 in UTC.
abbrev utc : ℕ → LocalTime
utc m = record {
  minute = m % 60;
  hour = m / 60 % 24;
  day = m / 1440 % 31 + 1;
  month = 1;
  weekday = (m / 1440 + 3) % 7;
}

abbrev every_quarter : List ℕ
every_quarter = codes "*/15 0-12/4 * 1,2 5-7"

abbrev quarter_fields : Fields
quarter_fields = record {
  minutes = 0 ∷ 15 ∷ 30 ∷ 45 ∷ [];
  hours = 0 ∷ 4 ∷ 8 ∷ 12 ∷ [];
  doms = range 1 32 1;
  months = 1 ∷ 2 ∷ [];
  dows = 0 ∷ 5 ∷ 6 ∷ [];
}

quarter_parses : parse_cron every_quarter ≡ ok quarter_fields
unfolding strip skip_space reverse_onto is_space split_at words partition int lower same_text memb
    range_on range parse_high checked between_ends single body_values stepped part_values join
    parts_values discard normalized normal parse_field low_of high_of macros lookup expanded
    starts_at pack five fields_of stripped_if validate_cron parse_valid parse_cron
quarter_parses = refl

-- Seven in the morning of the first of January 1970, a Thursday: Friday at midnight is next.
abbrev morning : ℕ
morning = 25230000000

abbrev friday : ℕ
friday = 1440

friday_fits : matches quarter_fields (utc friday) ≡ true
unfolding matches day_matches restricted within memb cron_dow range range_on
friday_fits = refl

next_cron_fire_earliest_example :
    (t : ℕ) × (next_cron_fire utc every_quarter morning 5 ≡ ok t) × (t ≤ at_minute friday)
unfolding minute_after
next_cron_fire_earliest_example =
    next_cron_fire_earliest utc every_quarter morning 5 friday quarter_parses (omega arith)
      (omega arith) friday_fits

abbrev each_minute : List ℕ
each_minute = codes "* * * * *"

abbrev minute_fields : Fields
minute_fields = record {
  minutes = range 0 60 1;
  hours = range 0 24 1;
  doms = range 1 32 1;
  months = range 1 13 1;
  dows = 0 ∷ range 0 7 1;
}

minute_parses : parse_cron each_minute ≡ ok minute_fields
unfolding strip skip_space reverse_onto is_space split_at words partition int lower same_text memb
    range_on range parse_high checked between_ends single body_values stepped part_values join
    parts_values discard normalized normal parse_field low_of high_of macros lookup expanded
    starts_at pack five fields_of stripped_if validate_cron parse_valid parse_cron
minute_parses = refl

one_minute : next_cron_fire utc each_minute 5 5 ≡ ok 60000000
unfolding strip skip_space reverse_onto is_space split_at words partition int lower same_text memb
    range_on range parse_high checked between_ends single body_values stepped part_values join
    parts_values discard normalized normal parse_field low_of high_of macros lookup expanded
    starts_at pack five fields_of stripped_if validate_cron parse_valid parse_cron next_cron_fire
    fire_with fire_of scan minute_after matches day_matches restricted within cron_dow
one_minute = refl

three_minutes : next_cron_fires utc each_minute 5 3 ≡ ok (60000000 ∷ 120000000 ∷ 180000000 ∷ [])
unfolding strip skip_space reverse_onto is_space split_at words partition int lower same_text memb
    range_on range parse_high checked between_ends single body_values stepped part_values join
    parts_values discard normalized normal parse_field low_of high_of macros lookup expanded
    starts_at pack five fields_of stripped_if validate_cron parse_valid parse_cron next_cron_fires
    fires_from cons_fire cursor_of next_cron_fire fire_with fire_of scan minute_after matches
    day_matches restricted within cron_dow
three_minutes = refl

day_matches-eq_example : day_matches quarter_fields (utc friday) ≡ (
    if restricted quarter_fields.doms 1 31 && restricted quarter_fields.dows 0 7
    then memb 2 quarter_fields.doms || memb (cron_dow (utc friday)) quarter_fields.dows
    else memb 2 quarter_fields.doms && memb (cron_dow (utc friday)) quarter_fields.dows)
day_matches-eq_example = day_matches-eq quarter_fields (utc friday) (omega arith) (omega arith)

sunday_parses : parse_field dow (codes "5-7") ≡ ok (0 ∷ 5 ∷ 6 ∷ [])
unfolding strip skip_space reverse_onto is_space split_at words partition int lower same_text memb
    range_on range parse_high checked between_ends single body_values stepped part_values join
    parts_values discard normalized normal parse_field low_of high_of macros lookup expanded
    starts_at pack five fields_of stripped_if validate_cron parse_valid parse_cron
sunday_parses = refl

parse_field-bounded_example : All (λ v. (low_of dow ≤ v) × (v ≤ high_of dow)) (0 ∷ 5 ∷ 6 ∷ [])
parse_field-bounded_example = parse_field-bounded dow (codes "5-7") sunday_parses

daily_validates : validate_cron (codes " @Daily ") ≡ ok (codes "@Daily")
unfolding strip skip_space reverse_onto is_space split_at words partition int lower same_text memb
    range_on range parse_high checked between_ends single body_values stepped part_values join
    parts_values discard normalized normal parse_field low_of high_of macros lookup expanded
    starts_at pack five fields_of stripped_if validate_cron parse_valid parse_cron
daily_validates = refl
