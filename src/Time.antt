-- ===== src/Time.antt =====
-- Timestamps of src/vanth/server.py: `now_iso`, and the order of the texts that it writes.
-- An instant is a number of microseconds. `isoformat` drops the fraction of a whole second, and
-- "." sorts before "Z", so as texts the whole second stands behind every fraction of it.
use vanth.Prelude.{
  ℕ, ◌+◌, ◌*◌, ◌/◌, ◌%◌, ◌≤◌, ◌<◌, ◌≡◌, Bool, true, false, Option, none, some, arith, leb, ltb,
}

abbrev pub seconds : ℕ → ℕ
seconds n = n * 1000000

-- The place of an instant's text among all texts, in the order of `str` and of SQLite's TEXT.
unfoldable pub text_rank : ℕ → ℕ
text_rank t = t / 1000000 * 1000000 + (t + 999999) % 1000000

-- `a <= b` on two stored texts
unfoldable pub text_le : ℕ → ℕ → Bool
unfolding text_rank
text_le a b = leb (text_rank a) (text_rank b)

-- `a < b` on two stored texts
unfoldable pub text_lt : ℕ → ℕ → Bool
unfolding text_rank
text_lt a b = ltb (text_rank a) (text_rank b)

-- `column <= ?` where the column may be NULL
unfoldable pub elapsed : Option ℕ → ℕ → Bool
elapsed none now = false
elapsed (some t) now = text_le t now

-- `column IS NULL OR column <= ?`
unfoldable pub unset_or_elapsed : Option ℕ → ℕ → Bool
unset_or_elapsed none now = true
unset_or_elapsed (some t) now = text_le t now

pub text_le_early : (t now : ℕ) → text_le t now ≡ true → t < now + 1000000
unfolding text_le
text_le_early t now h = ground arith

pub text_le_late : (t now : ℕ) → t + 1000000 ≤ now → text_le t now ≡ true
unfolding text_le
text_le_late t now h = ground arith

-- The text order is the order of time where neither instant is a whole second.
pub text_le_exact : (t now : ℕ) → 0 < t % 1000000 → 0 < now % 1000000 → text_le t now ≡ leb t now
unfolding text_le
text_le_exact t now h k = ground arith

pub text_le_refl : (t : ℕ) → text_le t t ≡ true
unfolding text_le
text_le_refl t = ground arith

pub text_le_trans : (a b c : ℕ) → text_le a b ≡ true → text_le b c ≡ true → text_le a c ≡ true
unfolding text_le
text_le_trans a b c h k = ground arith

pub text_le_total : (a b : ℕ) → text_le a b ≡ false → text_le b a ≡ true
unfolding text_le
text_le_total a b h = ground arith
