-- ===== src/Schedule/Cron/Validated.antt =====
-- What `validate_cron` accepts, `parse_cron` parses, to values in range.
use vanth.Prelude.{ℕ, ◌≤◌, ◌≡◌, refl, inl, inr, true, false, List, [], ◌∷◌, All, Bool-cases}
use vanth.Schedule.{
  Field, minute, hour, dom, month, dow, low_of, high_of, Fields, Result, ok, err, empty_cron,
}
use vanth.Prelude.Text.{strip, words, same_text}
use vanth.Schedule.Parse.{parse_field}
use vanth.Schedule.Parse.Bounds.{parse_field-bounded}
use vanth.Schedule.Cron.{
  expanded, pack, five, fields_of, stripped_if, validate_cron, parse_valid, parse_cron,
}

abbrev pub InRange : Field → List ℕ → Type 0
InRange f vs = All (λ v. (low_of f ≤ v) × (v ≤ high_of f)) vs

abbrev pub AllInRange : Fields → Type 0
AllInRange fields =
    InRange minute fields.minutes
    × InRange hour fields.hours
    × InRange dom fields.doms
    × InRange month fields.months
    × InRange dow fields.dows

abbrev Good : Result Fields → Type 0
Good (err e) = Unit {0}
Good (ok fields) = AllInRange fields

abbrev GoodField : Field → Result (List ℕ) → Type 0
GoodField f (err e) = Unit {0}
GoodField f (ok vs) = InRange f vs

good_field : (f : Field) (text : List ℕ) → GoodField f (parse_field f text)
good_field f text = at (parse_field f text) refl
  where
    at : (o : Result (List ℕ)) → parse_field f text ≡ o → GoodField f o
    at (err e) h = tt
    at (ok vs) h = parse_field-bounded f text h

pack-Good :
    (a b c d e : Result (List ℕ))
    → GoodField minute a
    → GoodField hour b
    → GoodField dom c
    → GoodField month d
    → GoodField dow e
    → Good (pack a b c d e)
unfolding pack
pack-Good (ok a) (ok b) (ok c) (ok d) (ok e) ha hb hc hd he = (ha, hb, hc, hd, he)
pack-Good (err x) b c d e ha hb hc hd he = tt
pack-Good (ok a) (err x) c d e ha hb hc hd he = tt
pack-Good (ok a) (ok b) (err x) d e ha hb hc hd he = tt
pack-Good (ok a) (ok b) (ok c) (err x) e ha hb hc hd he = tt
pack-Good (ok a) (ok b) (ok c) (ok d) (err x) ha hb hc hd he = tt

five-Good : (ws : List (List ℕ)) → Good (five ws)
unfolding five
five-Good (a ∷ b ∷ c ∷ d ∷ e ∷ []) =
    pack-Good (parse_field minute a) (parse_field hour b) (parse_field dom c) (parse_field month d)
      (parse_field dow e) (good_field minute a) (good_field hour b) (good_field dom c)
      (good_field month d) (good_field dow e)
five-Good [] = tt
five-Good (a ∷ []) = tt
five-Good (a ∷ b ∷ []) = tt
five-Good (a ∷ b ∷ c ∷ []) = tt
five-Good (a ∷ b ∷ c ∷ d ∷ []) = tt
five-Good (a ∷ b ∷ c ∷ d ∷ e ∷ g ∷ rest) = tt

fields_of-Good : (o : Result (List ℕ)) → Good (fields_of o)
unfolding fields_of
fields_of-Good (err e) = tt
fields_of-Good (ok text) = five-Good (words text)

accepted :
    (expr : List ℕ) (o : Result Fields) {t : List ℕ}
    → Good o
    → stripped_if expr o ≡ ok t
    → (fields : Fields) × (o ≡ ok fields) × (t ≡ strip expr) × AllInRange fields
unfolding stripped_if
accepted expr (err e) g h = absurd (cc)
accepted expr (ok fields) g h = (fields, refl, cc, g)

-- An expression that is validated is returned stripped, and parses: to five sets of values that are
-- each in their field's range.
pub parse_cron-validated :
    (expr : List ℕ) {t : List ℕ}
    → validate_cron expr ≡ ok t
    → (fields : Fields) × (parse_cron expr ≡ ok fields) × (t ≡ strip expr) × AllInRange fields
unfolding parse_cron parse_valid
parse_cron-validated expr h = elim (Bool-cases (same_text (strip expr) [])) [
  | inl e ↦ absurd (cc (empty_refused e, h))
  | inr e ↦
      let (fields, parsed, stripped, good) =
        accepted expr (fields_of (expanded expr)) (fields_of-Good (expanded expr)) (opened e h) in
      (fields, rw h parsed, stripped, good)
]
  where
    empty_refused : same_text (strip expr) [] ≡ true → validate_cron expr ≡ err empty_cron
    empty_refused e = unfold validate_cron in rw e refl

    opened :
        {t : List ℕ}
        → same_text (strip expr) [] ≡ false
        → validate_cron expr ≡ ok t
        → stripped_if expr (fields_of (expanded expr)) ≡ ok t
    opened e k = unfold validate_cron in rw e at k
