-- ===== src/Schedule/Cron.antt =====
-- `validate_cron`, `parse_cron` and `_matches` of src/vanth/schedules.py.
pub mod Matching
pub mod Validated
use vanth.Prelude.{
  ℕ, zero, suc, ◌+◌, ◌%◌, Bool, true, false, not, ◌&&◌, ◌||◌, Option, none, some, List, [], ◌∷◌,
  leb, ◌==◌, codes, if◌then◌else◌,
}
use vanth.Schedule.{
  Field, minute, hour, dom, month, dow, Fields, Result, ok, err, empty_cron, unknown_macro,
  not_five_fields,
}
use vanth.Prelude.Text.{strip, words, lower, same_text}
use vanth.Schedule.Parse.{memb, parse_field}

-- _MACROS
unfoldable pub macros : List (List ℕ × List ℕ)
macros =
    (codes "@hourly", codes "0 * * * *")
    ∷ (codes "@daily", codes "0 0 * * *")
    ∷ (codes "@midnight", codes "0 0 * * *")
    ∷ (codes "@weekly", codes "0 0 * * 0")
    ∷ (codes "@monthly", codes "0 0 1 * *")
    ∷ (codes "@yearly", codes "0 0 1 1 *")
    ∷ (codes "@annually", codes "0 0 1 1 *")
    ∷ []

unfoldable pub lookup : List ℕ → List (List ℕ × List ℕ) → Option (List ℕ)
lookup text [] = none
lookup text ((name, meaning) ∷ rest) =
    if same_text name text then some meaning else lookup text rest

unfoldable pub starts_at : List ℕ → Bool
starts_at [] = false
starts_at (c ∷ cs) = c == 64

-- The expression that is parsed: a macro's meaning, or the stripped text itself.
unfoldable pub expanded : List ℕ → Result (List ℕ)
unfolding starts_at lookup macros
expanded expr =
    if starts_at (strip expr)
    then (elim (lookup (lower (strip expr)) macros) [
      | none ↦ err unknown_macro
      | some text ↦ ok text
    ])
    else ok (strip expr)

unfoldable pub pack :
    Result (List ℕ)
    → Result (List ℕ)
    → Result (List ℕ)
    → Result (List ℕ)
    → Result (List ℕ)
    → Result Fields
pack (ok a) (ok b) (ok c) (ok d) (ok e) =
    ok (record { minutes = a; hours = b; doms = c; months = d; dows = e })
pack (err x) _ _ _ _ = err x
pack _ (err x) _ _ _ = err x
pack _ _ (err x) _ _ = err x
pack _ _ _ (err x) _ = err x
pack _ _ _ _ (err x) = err x

unfoldable pub five : List (List ℕ) → Result Fields
unfolding pack
five (a ∷ b ∷ c ∷ d ∷ e ∷ []) =
    pack (parse_field minute a) (parse_field hour b) (parse_field dom c) (parse_field month d)
      (parse_field dow e)
five _ = err not_five_fields

unfoldable pub fields_of : Result (List ℕ) → Result Fields
unfolding five
fields_of (err e) = err e
fields_of (ok text) = five (words text)

unfoldable pub stripped_if : List ℕ → Result Fields → Result (List ℕ)
stripped_if expr (err e) = err e
stripped_if expr (ok fields) = ok (strip expr)

unfoldable pub validate_cron : List ℕ → Result (List ℕ)
unfolding fields_of expanded stripped_if
validate_cron expr =
    if same_text (strip expr) []
    then err empty_cron
    else stripped_if expr (fields_of (expanded expr))

unfoldable pub parse_valid : List ℕ → Result (List ℕ) → Result Fields
unfolding fields_of expanded
parse_valid expr (err e) = err e
parse_valid expr (ok text) = fields_of (expanded expr)

unfoldable pub parse_cron : List ℕ → Result Fields
unfolding parse_valid
parse_cron expr = parse_valid expr (validate_cron expr)

-- The fields of a local `datetime` that are read. `weekday` counts from Monday, as Python does.
pub record LocalTime : Type 0 where
  pub minute : ℕ
  pub hour : ℕ
  pub day : ℕ
  pub month : ℕ
  pub weekday : ℕ

unfoldable pub cron_dow : LocalTime → ℕ
cron_dow local = (local.weekday + 1) % 7

abbrev up_from : ℕ → ℕ → List ℕ
up_from start zero = []
up_from start (suc n) = start ∷ up_from (suc start) n

unfoldable pub within : List ℕ → List ℕ → Bool
within [] vs = true
within (x ∷ xs) vs = memb x vs && within xs vs

-- `values != set(range(start, start + n))`
unfoldable pub restricted : List ℕ → ℕ → ℕ → Bool
unfolding within
restricted vs start n = not (within vs (up_from start n) && within (up_from start n) vs)

-- The day part of `_matches`: with both day fields restricted, either may match.
unfoldable pub day_matches : Fields → LocalTime → Bool
unfolding restricted
day_matches fields local =
    if restricted fields.doms 1 31 && restricted fields.dows 0 7
    then memb local.day fields.doms || memb (cron_dow local) fields.dows
    else if restricted fields.doms 1 31
    then memb local.day fields.doms
    else if restricted fields.dows 0 7
    then memb (cron_dow local) fields.dows
    else true

unfoldable pub matches : Fields → LocalTime → Bool
unfolding day_matches
matches fields local =
    if not (memb local.minute fields.minutes)
      || (not (memb local.hour fields.hours) || not (memb local.month fields.months))
    then false
    else day_matches fields local
