-- ===== src/Schedule/Zone.antt =====
-- `_zone` and `validate_timezone` of src/vanth/schedules.py.
use vanth.Prelude.{ℕ, Bool, false, ◌||◌, List, [], ◌∷◌, codes, if◌then◌else◌}
use vanth.Prelude.Text.{strip, same_text}
use vanth.Schedule.{Result, ok, err, empty_timezone, unknown_timezone}

any_same : List ℕ → List (List ℕ) → Bool
any_same name [] = false
any_same name (n ∷ ns) = same_text n name || any_same name ns

-- _UTC_ALIASES
unfoldable pub is_utc : List ℕ → Bool
unfolding any_same
is_utc name = any_same name (codes "UTC" ∷ codes "Etc/UTC" ∷ codes "GMT" ∷ codes "Z" ∷ [])

-- `known` says whether the timezone database has a name.
module _ (known : List ℕ → Bool) where
  -- The zone's own name, or the error.
  unfoldable pub zone : List ℕ → Result (List ℕ)
  zone name = if is_utc name || known name then ok name else err unknown_timezone

  unfoldable pub validate_timezone : List ℕ → Result (List ℕ)
  unfolding zone
  validate_timezone name =
      if same_text (strip name) [] then err empty_timezone else zone (strip name)
