-- ===== src/Schedule/Parse/Bounds.antt =====
-- The values of a cron field: what a range holds, and the bounds of what a field parses to.
use native.Mathlib.Nat.{mod-eq-sub-mod, mod-eq_of_lt}
use vanth.Prelude.{
  ℕ, zero, suc, ◌+◌, ◌-◌, ◌%◌, ◌≤◌, ◌<◌, ◌≡◌, sym, subst, inl, inr, Bool, false, ◌&&◌, ◌||◌, Option,
  none, some, List, [], ◌∷◌, arith, ltb, leb, ◌==◌, codes, All, All-append, Bool-cases,
  Option-cases,
}
use vanth.Schedule.{Field, minute, hour, dom, month, dow, low_of, high_of, Result, ok, err}
use vanth.Prelude.Text.{ℤ, pos, negsuc, strip, split_at, partition, int, same_text}
use vanth.Schedule.Parse.{
  memb, range_on, range, parse_high, checked, between_ends, single, body_values, stepped,
  part_values, join, parts_values, discard, normalized, normal, parse_field,
}

ok_inj {ℓ} : {A : Type ℓ} {a b : A} → ◌≡◌ {A = Result A} (ok a) (ok b) → a ≡ b
ok_inj h = cc

module _ (step : ℕ) where
  abbrev on_range : ℕ → ℕ → ℕ → Bool
  on_range start stop v = leb start v && (ltb v stop && ((v - start) % suc step == 0))

  on_range-next :
      (start stop v : ℕ)
      → start < stop
      → on_range start stop v ≡ ((v == start) || on_range (start + suc step) stop v)
  on_range-next start stop v h = elim (Bool-cases (leb (start + suc step) v)) [
    | inl far ↦
        let far' : start + suc step ≤ v = ground arith in
        let shift : (v - start) % suc step ≡ (v - start - suc step) % suc step =
          mod-eq-sub-mod (omega arith) in
        let same_place : v - start - suc step ≡ v - (start + suc step) = omega arith in
        rw (shift, same_place) (ground arith)
    | inr near ↦
        let near' : v < start + suc step = ground arith in
        let small : (v - start) % suc step ≡ v - start = mod-eq_of_lt (omega arith) in
        rw (small, near) (ground arith)
  ]

  memb-range_on :
      (fuel start stop v : ℕ)
      → stop ≤ start + fuel
      → memb v (range_on fuel start stop (suc step)) ≡ on_range start stop v
  unfolding memb range_on
  memb-range_on zero start stop v h = ground arith
  memb-range_on (suc fuel) start stop v h = elim (Bool-cases (ltb start stop)) [
    | inl more ↦
        let start_lt : start < stop = ground arith in
        let rest : memb v (range_on fuel (start + suc step) stop (suc step))
            ≡ on_range (start + suc step) stop v =
          memb-range_on fuel (start + suc step) stop v (omega arith) in
        rw (more, rest) (sym (on_range-next start stop v start_lt))
    | inr done ↦ rw done (ground arith)
  ]

  -- A range holds exactly the numbers from its start, short of its stop, at multiples of its step.
  pub memb-range :
      (start stop v : ℕ)
      → memb v (range start stop (suc step))
        ≡ (leb start v && (ltb v stop && ((v - start) % suc step == 0)))
  unfolding range
  memb-range start stop v = memb-range_on (stop - start) start stop v (omega arith)

abbrev Within : ℕ → ℕ → ℕ → Type 0
Within low high v = (low ≤ v) × (v ≤ high)

range_on-Within :
    (low high fuel start stop step : ℕ)
    → low ≤ start
    → stop ≤ suc high
    → All (Within low high) (range_on fuel start stop step)
unfolding range_on
range_on-Within low high zero start stop step l h = tt
range_on-Within low high (suc fuel) start stop step l h = elim (Bool-cases (ltb start stop)) [
  | inl more ↦
      let start_lt : start < stop = ground arith in
      rw more
        ((l, omega arith), range_on-Within low high fuel (start + step) stop step (omega arith) h)
  | inr done ↦ rw done tt
]

-- The parsed values keep the bounds, if there are any.
abbrev Kept : Field → Result (List ℕ) → Type 0
Kept f (err e) = Unit {0}
Kept f (ok vs) = All (Within (low_of f) (parse_high f)) vs

checked-Kept : (f : Field) (step : ℕ) (start end : ℤ) → Kept f (checked f step start end)
unfolding checked range
checked-Kept f step (pos start) (pos end) = elim (Bool-cases (ltb end start)) [
  | inl e ↦ rw e tt
  | inr e ↦ rw e (elim (Bool-cases (ltb start (low_of f) || ltb (parse_high f) end)) [
    | inl out ↦ rw out tt
    | inr inside ↦ rw inside (
        range_on-Within (low_of f) (parse_high f) _ start (end + 1) step (ground arith)
          (ground arith))
  ])
]
checked-Kept f step (pos start) (negsuc end) = tt
checked-Kept f step (negsuc start) (pos end) = tt
checked-Kept f step (negsuc start) (negsuc end) = elim (Bool-cases (ltb start end)) [
  | inl e ↦ rw e tt
  | inr e ↦ rw e tt
]

single-Kept : (f : Field) (step : ℕ) (o : Option ℤ) → Kept f (single f step o)
unfolding single
single-Kept f step none = tt
single-Kept f step (some v) = checked-Kept f step v v

between_ends-Kept : (f : Field) (step : ℕ) (a b : Option ℤ) → Kept f (between_ends f step a b)
unfolding between_ends
between_ends-Kept f step (some a) (some b) = checked-Kept f step a b
between_ends-Kept f step (some a) none = tt
between_ends-Kept f step none b = tt

body_values-Kept : (f : Field) (step : ℕ) (part : List ℕ) → Kept f (body_values f step part)
unfolding body_values
body_values-Kept f step part = elim (Bool-cases (same_text part (codes "*") || same_text part [])) [
  | inl e ↦ rw e (checked-Kept f step (pos (low_of f)) (pos (parse_high f)))
  | inr e ↦ rw e (elim (Option-cases (partition 45 part)) [
    | inl o ↦ rw o (single-Kept f step (int part))
    | inr (p, o) ↦ rw o (between_ends-Kept f step (int p.0) (int p.1))
  ])
]

stepped-Kept : (f : Field) (part : List ℕ) (o : Option ℤ) → Kept f (stepped f part o)
unfolding stepped
stepped-Kept f part none = tt
stepped-Kept f part (some (negsuc n)) = tt
stepped-Kept f part (some (pos zero)) = tt
stepped-Kept f part (some (pos (suc n))) = body_values-Kept f (suc n) part

part_values-Kept : (f : Field) (part : List ℕ) → Kept f (part_values f part)
unfolding part_values
part_values-Kept f [] = tt
part_values-Kept f (c ∷ cs) = elim (Option-cases (partition 47 (c ∷ cs))) [
  | inl o ↦ rw (o, part_values) (body_values-Kept f 1 (c ∷ cs))
  | inr (p, o) ↦ rw (o, part_values) (stepped-Kept f p.0 (int p.1))
]

join-Kept : (f : Field) (a b : Result (List ℕ)) → Kept f a → Kept f b → Kept f (join a b)
unfolding join
join-Kept f (err e) b h k = tt
join-Kept f (ok vs) (err e) h k = tt
join-Kept f (ok vs) (ok ws) h k = All-append (Within (low_of f) (parse_high f)) vs ws h k

parts_values-Kept : (f : Field) (parts : List (List ℕ)) → Kept f (parts_values f parts)
unfolding parts_values
parts_values-Kept f [] = tt
parts_values-Kept f (part ∷ parts) =
    join-Kept f _ _ (part_values-Kept f (strip part)) (parts_values-Kept f parts)

discard-Within : (vs : List ℕ) → All (Within 0 7) vs → All (Within 0 6) (discard 7 vs)
unfolding discard
discard-Within [] h = tt
discard-Within (v ∷ vs) h = elim (Bool-cases (7 == v)) [
  | inl e ↦ rw e (discard-Within vs h.1)
  | inr e ↦ rw e ((omega arith, ground (arith, h.0.1)), discard-Within vs h.1)
]

without-Within : (vs : List ℕ) → memb 7 vs ≡ false → All (Within 0 7) vs → All (Within 0 6) vs
unfolding memb
without-Within [] e h = tt
without-Within (v ∷ vs) e h =
    ((omega arith, ground (arith, h.0.1)), without-Within vs (ground arith) h.1)

normalized-Within :
    (f : Field) (vs : List ℕ)
    → All (Within (low_of f) (parse_high f)) vs
    → All (Within (low_of f) (high_of f)) (normalized f vs)
unfolding normalized low_of high_of parse_high
normalized-Within minute vs h = h
normalized-Within hour vs h = h
normalized-Within dom vs h = h
normalized-Within month vs h = h
normalized-Within dow vs h = elim (Bool-cases (memb 7 vs)) [
  | inl e ↦ rw e ((omega arith, omega arith), discard-Within vs h)
  | inr e ↦ rw e (without-Within vs e h)
]

-- Every value that a field parses to is in the field's range: Sunday is 0, also where 7 was written.
pub parse_field-bounded :
    (f : Field) (text : List ℕ) {vs : List ℕ}
    → parse_field f text ≡ ok vs
    → All (λ v. (low_of f ≤ v) × (v ≤ high_of f)) vs
unfolding parse_field
parse_field-bounded f text h =
    of_normal (parts_values f (split_at 44 text)) (parts_values-Kept f (split_at 44 text)) h
  where
    of_normal :
        (o : Result (List ℕ)) {vs : List ℕ}
        → Kept f o
        → normal f o ≡ ok vs
        → All (Within (low_of f) (high_of f)) vs
    of_normal (err e) k n = unfold normal in absurd (cc)
    of_normal (ok ws) k n =
        unfold normal in
        subst (λ l. All (Within (low_of f) (high_of f)) l) (ok_inj n) (normalized-Within f ws k)
