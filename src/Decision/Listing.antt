-- ===== src/Decision/Listing.antt =====
-- `list_decisions` and `validate_limit` of src/vanth/server.py.
use Prim.Native.String.{compare}
use Prim.Native.Nat.{Ordering}
use vanth.Prelude.{
  ℕ, zero, suc, ◌≤◌, ◌≡◌, refl, subst, inl, inr, Bool, true, false, ◌&&◌, ◌||◌, String, Option,
  none, some, List, [], ◌∷◌, arith, All, length, length-take-le, take, same, leb, if◌then◌else◌,
  Bool-cases, some_inj,
}
use vanth.Prelude.Rows.{select}
use vanth.Time.{text_le, text_lt}
use vanth.Decision.{DecisionStatus, pending, resolved, withdrawn, expired, Decision}

abbrev pub status_eq : DecisionStatus → DecisionStatus → Bool
status_eq pending pending = true
status_eq resolved resolved = true
status_eq withdrawn withdrawn = true
status_eq expired expired = true
status_eq _ _ = false

-- What is asked for. An empty job id filters nothing.
abbrev pub wanted : Option String → Option DecisionStatus → Decision → Bool
wanted job status d =
    elim job [ none ↦ true | some j ↦ same j "" || same d.job_id j ]
    && elim status [ none ↦ true | some s ↦ status_eq d.status s ]

abbrev greater : String → String → Bool
greater a b = elim (compare a b) [ Ordering.gt ↦ true | _ ↦ false ]

-- created_at DESC, decision_id DESC
unfoldable pub stands_before : Decision → Decision → Bool
stands_before a b =
    text_lt b.created_at a.created_at
    || (text_le b.created_at a.created_at && greater a.decision_id b.decision_id)

unfoldable pub insert_newest : Decision → List Decision → List Decision
insert_newest d [] = d ∷ []
insert_newest d (x ∷ xs) = if stands_before d x then d ∷ x ∷ xs else x ∷ insert_newest d xs

unfoldable pub newest_first : List Decision → List Decision
unfolding insert_newest
newest_first [] = []
newest_first (d ∷ ds) = insert_newest d (newest_first ds)

-- A limit out of range raises.
unfoldable pub validate_limit : ℕ → ℕ → Option ℕ
validate_limit value maximum = if leb 1 value && leb value maximum then some value else none

unfoldable pub list_up_to :
    Option String → Option DecisionStatus → List Decision → Option ℕ → Option (List Decision)
unfolding newest_first
list_up_to job status rows none = none
list_up_to job status rows (some n) = some (take n (newest_first (select (wanted job status) rows)))

unfoldable pub list_decisions :
    Option String → Option DecisionStatus → ℕ → List Decision → Option (List Decision)
unfolding list_up_to
list_decisions job status limit rows = list_up_to job status rows (validate_limit limit 500)

module _ (p : Decision → Bool) where
  abbrev Pass : Decision → Type 0
  Pass d = p d ≡ true

  select-Pass : (rows : List Decision) → All Pass (select p rows)
  unfolding select
  select-Pass [] = tt
  select-Pass (d ∷ rows) = elim (Bool-cases (p d)) [
    | inl e ↦ rw e (e, select-Pass rows)
    | inr e ↦ rw e (select-Pass rows)
  ]

  insert-Pass :
      (d : Decision) (rows : List Decision)
      → Pass d
      → All Pass rows
      → All Pass (insert_newest d rows)
  unfolding insert_newest
  insert-Pass d [] h a = (h, tt)
  insert-Pass d (x ∷ rows) h a = elim (Bool-cases (stands_before d x)) [
    | inl e ↦ rw e (h, a)
    | inr e ↦ rw e (a.0, insert-Pass d rows h a.1)
  ]

  newest-Pass : (rows : List Decision) → All Pass rows → All Pass (newest_first rows)
  unfolding newest_first
  newest-Pass [] a = tt
  newest-Pass (d ∷ rows) a = insert-Pass d (newest_first rows) a.0 (newest-Pass rows a.1)

  take-Pass : (n : ℕ) (rows : List Decision) → All Pass rows → All Pass (take n rows)
  take-Pass zero rows a = tt
  take-Pass (suc n) [] a = tt
  take-Pass (suc n) (d ∷ rows) a = (a.0, take-Pass n rows a.1)

validate_limit-bounds :
    (value maximum : ℕ) {n : ℕ}
    → validate_limit value maximum ≡ some n
    → (n ≤ value) × (n ≤ maximum)
unfolding validate_limit
validate_limit-bounds value maximum h = elim (Bool-cases (leb 1 value && leb value maximum)) [
  | inr out ↦ absurd (cc (rw out at h))
  | inl fits ↦ let at : value ≡ _ = some_inj (rw fits at h) in ground (arith, at)
]

listed-bounded :
    (job : Option String) (status : Option DecisionStatus) (rows : List Decision) (o : Option ℕ)
    (limit : ℕ) {ds : List Decision}
    → ((n : ℕ) → o ≡ some n → (n ≤ limit) × (n ≤ 500))
    → list_up_to job status rows o ≡ some ds
    → (All (λ d. wanted job status d ≡ true) ds) × (length ds ≤ limit) × (length ds ≤ 500)
unfolding list_up_to
listed-bounded job status rows none limit bound h = absurd (cc)
listed-bounded job status rows (some n) limit bound h =
    let (low, high) = bound n refl in
    let listed : List Decision = newest_first (select (wanted job status) rows) in
    let short : length (take n listed) ≤ n = length-take-le n listed in
    subst (λ l. (All (λ d. wanted job status d ≡ true) l) × (length l ≤ limit) × (length l ≤ 500))
      (some_inj h)
      (
        take-Pass (wanted job status) n listed
            (newest-Pass (wanted job status) _ (select-Pass (wanted job status) rows)),
        omega (arith, short, low),
        omega (arith, short, high),
      )

-- A listing holds only decisions that match the filters, and no more than the limit, which is at most
-- 500.
pub list_decisions-bounded :
    (job : Option String) (status : Option DecisionStatus) (limit : ℕ) (rows : List Decision)
    {ds : List Decision}
    → list_decisions job status limit rows ≡ some ds
    → (All (λ d. wanted job status d ≡ true) ds) × (length ds ≤ limit) × (length ds ≤ 500)
unfolding list_decisions
list_decisions-bounded job status limit rows h =
    listed-bounded job status rows (validate_limit limit 500) limit
      (λ n e. validate_limit-bounds limit 500 e) h
