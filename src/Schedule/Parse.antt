-- ===== src/Schedule/Parse.antt =====
-- `_parse_field` of src/vanth/schedules.py.
pub mod Bounds
use vanth.Prelude.{
  ℕ, zero, suc, ◌+◌, ◌-◌, Bool, true, false, not, ◌&&◌, ◌||◌, Option, none, some, List, [], ◌∷◌,
  ◌++◌, ltb, leb, ◌==◌, codes, if◌then◌else◌,
}
use vanth.Schedule.{
  Field, dow, low_of, high_of, Result, ok, err, empty_field, invalid_step, step_too_small,
  invalid_range, invalid_value, start_after_end, out_of_range,
}
use vanth.Prelude.Text.{ℤ, pos, negsuc, strip, split_at, partition, int, same_text}

unfoldable pub memb : ℕ → List ℕ → Bool
memb v [] = false
memb v (x ∷ xs) = (v == x) || memb v xs

-- range(start, stop, step), on the fuel stop - start, which a step of at least 1 never uses up.
unfoldable pub range_on : ℕ → ℕ → ℕ → ℕ → List ℕ
range_on zero start stop step = []
range_on (suc fuel) start stop step =
    let rest = range_on fuel (start + step) stop step in if ltb start stop then start ∷ rest else []

unfoldable pub range : ℕ → ℕ → ℕ → List ℕ
unfolding range_on
range start stop step = range_on (stop - start) start stop step

-- The upper bound while parsing: 7 is accepted as Sunday.
unfoldable pub parse_high : Field → ℕ
parse_high dow = 7
parse_high f = high_of f

-- The two tests of a part, and the values it adds.
unfoldable pub checked : Field → ℕ → ℤ → ℤ → Result (List ℕ)
unfolding range
checked f step (pos start) (pos end) =
    if ltb end start
    then err start_after_end
    else if ltb start (low_of f) || ltb (parse_high f) end
    then err out_of_range
    else ok (range start (end + 1) step)
checked f step (pos start) (negsuc end) = err start_after_end
checked f step (negsuc start) (pos end) = err out_of_range
checked f step (negsuc start) (negsuc end) =
    if ltb start end then err start_after_end else err out_of_range

unfoldable pub between_ends : Field → ℕ → Option ℤ → Option ℤ → Result (List ℕ)
unfolding checked
between_ends f step (some start) (some end) = checked f step start end
between_ends f step _ _ = err invalid_range

unfoldable pub single : Field → ℕ → Option ℤ → Result (List ℕ)
unfolding checked
single f step none = err invalid_value
single f step (some v) = checked f step v v

-- The part without its step: "*" or nothing, a range, or one value.
unfoldable pub body_values : Field → ℕ → List ℕ → Result (List ℕ)
unfolding between_ends single checked
body_values f step part =
    if same_text part (codes "*") || same_text part []
    then checked f step (pos (low_of f)) (pos (parse_high f))
    else (elim (partition 45 part) [
      | none ↦ single f step (int part)
      | some p ↦ between_ends f step (int p.0) (int p.1)
    ])

unfoldable pub stepped : Field → List ℕ → Option ℤ → Result (List ℕ)
unfolding body_values
stepped f part none = err invalid_step
stepped f part (some (negsuc n)) = err step_too_small
stepped f part (some (pos zero)) = err step_too_small
stepped f part (some (pos (suc n))) = body_values f (suc n) part

unfoldable pub part_values : Field → List ℕ → Result (List ℕ)
unfolding stepped body_values
part_values f [] = err empty_field
part_values f (c ∷ cs) = elim (partition 47 (c ∷ cs)) [
  | none ↦ body_values f 1 (c ∷ cs)
  | some p ↦ stepped f p.0 (int p.1)
]

unfoldable pub join : Result (List ℕ) → Result (List ℕ) → Result (List ℕ)
join (err e) rest = err e
join (ok vs) (err e) = err e
join (ok vs) (ok ws) = ok (vs ++ ws)

-- The loop over the parts: the first part that is refused ends it.
unfoldable pub parts_values : Field → List (List ℕ) → Result (List ℕ)
unfolding join part_values
parts_values f [] = ok []
parts_values f (part ∷ parts) = join (part_values f (strip part)) (parts_values f parts)

-- values.discard(v)
unfoldable pub discard : ℕ → List ℕ → List ℕ
discard v [] = []
discard v (x ∷ xs) = if v == x then discard v xs else x ∷ discard v xs

-- 7 is Sunday, as 0 is.
unfoldable pub normalized : Field → List ℕ → List ℕ
unfolding discard
normalized dow vs = if memb 7 vs then 0 ∷ discard 7 vs else vs
normalized _ vs = vs

unfoldable pub normal : Field → Result (List ℕ) → Result (List ℕ)
unfolding normalized
normal f (err e) = err e
normal f (ok vs) = ok (normalized f vs)

unfoldable pub parse_field : Field → List ℕ → Result (List ℕ)
unfolding normal parts_values
parse_field f text = normal f (parts_values f (split_at 44 text))
