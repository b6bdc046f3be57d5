-- ===== src/Decision/Options.antt =====
-- The options of a decision once they are normalized.
use vanth.Prelude.{
  ℕ, ◌≡◌, refl, ◌∙◌, inl, inr, true, not, ◌&&◌, String, Option, none, some, List, [], ◌∷◌, arith,
  same, same_iff, codes, length, ltb, if◌then◌else◌, Bool-cases,
}
use vanth.Prelude.Rows.{count}
use vanth.Delivery.Destination.{member}
use vanth.Decision.{
  Result, ok, err, blank, default_decision_options, cons_new, normalize_from, normalize_choices,
  normalize_decision_options,
}

-- The options that are asked for.
abbrev pub asked : Option (List String) → List String
asked none = default_decision_options
asked (some options) = options

ok_inj {ℓ} : {A : Type ℓ} {a b : A} → ◌≡◌ {A = Result A} (ok a) (ok b) → a ≡ b
ok_inj h = cc

-- How often an option is kept: once where it is asked for, and not among those seen.
abbrev kept : String → List String → List String → ℕ
kept v seen options = if member v options && not (member v seen) then 1 else 0

module _ (v : String) where
  cons_new-count :
      (seen : List String) (o : String) (os : List String) (r : Result (List String))
      {vs : List String}
      → ((ws : List String) → r ≡ ok ws → count (same v) ws ≡ kept v (o ∷ seen) os)
      → cons_new seen o r ≡ ok vs
      → count (same v) vs ≡ kept v seen (o ∷ os)
  unfolding cons_new count member
  cons_new-count seen o os (err e) rest h = absurd (cc)
  cons_new-count seen o os (ok ws) rest h = rw⁻¹ (ok_inj h) (elim (Bool-cases (same v o)) [
    | inl hit ↦ hit_case ((same_iff v o).0 hit) hit
    | inr miss ↦ elim (Bool-cases (member o seen)) [
      | inl old ↦ rw (old, miss) (rest ws refl ∙ rw miss refl)
      | inr new ↦ rw (new, miss) (rest ws refl ∙ rw miss refl)
    ]
  ])
    where
      hit_case :
          v ≡ o
          → same v o ≡ true
          → count (same v) (if member o seen then ws else o ∷ ws) ≡ kept v seen (o ∷ os)
      hit_case at hit = elim (Bool-cases (member o seen)) [
        | inl old ↦ ground (arith, at, hit, old, rest ws refl)
        | inr new ↦ ground (arith, at, hit, new, rest ws refl)
      ]

  normalize_from-count :
      (seen options : List String) {vs : List String}
      → normalize_from seen options ≡ ok vs
      → count (same v) vs ≡ kept v seen options
  unfolding normalize_from count member
  normalize_from-count seen [] h = rw⁻¹ (ok_inj h) refl
  normalize_from-count seen (o ∷ os) h = elim (Bool-cases (blank (codes o))) [
    | inl e ↦ absurd (cc (rw e at h))
    | inr e ↦ elim (Bool-cases (ltb 200 (length (codes o)))) [
      | inl k ↦ absurd (cc (rw (e, k) at h))
      | inr k ↦
          cons_new-count seen o os (normalize_from (o ∷ seen) os)
            (λ ws r. normalize_from-count (o ∷ seen) os r) (rw (e, k) at h)
    ]
  ]

unseen :
    (v : String) (options : List String) → kept v [] options ≡ (if member v options then 1 else 0)
unfolding member
unseen v options = ground arith

no_choices : {vs : List String} → normalize_choices [] ≡ ok vs → ⊥
unfolding normalize_choices
no_choices h = cc

few :
    (o : String) (os : List String) {vs : List String}
    → normalize_choices (o ∷ os) ≡ ok vs
    → normalize_from [] (o ∷ os) ≡ ok vs
unfolding normalize_choices
few o os h = elim (Bool-cases (ltb 50 (length (o ∷ os)))) [
  | inl e ↦ absurd (cc (rw e at h))
  | inr e ↦ rw e at h
]

-- The normalized options are those that were asked for, or "approve" and "deny" where none were, each
-- of them once.
pub normalize_decision_options-once :
    (options : Option (List String)) (v : String) {vs : List String}
    → normalize_decision_options options ≡ ok vs
    → count (same v) vs ≡ (if member v (asked options) then 1 else 0)
normalize_decision_options-once options v h = by_choices (asked options) (opened options h)
  where
    opened :
        (o : Option (List String)) {vs : List String}
        → normalize_decision_options o ≡ ok vs
        → normalize_choices (asked o) ≡ ok vs
    opened none k = unfold normalize_decision_options in k
    opened (some os) k = unfold normalize_decision_options in k

    by_choices :
        (os : List String) {vs : List String}
        → normalize_choices os ≡ ok vs
        → count (same v) vs ≡ (if member v os then 1 else 0)
    by_choices [] k = absurd (no_choices k)
    by_choices (o ∷ os) k = normalize_from-count v [] (o ∷ os) (few o os k) ∙ unseen v (o ∷ os)
