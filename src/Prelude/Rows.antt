-- ===== src/Prelude/Rows.antt =====
-- SQLite tables as lists of rows, and the statements that the program runs over them.
use Prim.Native.Nat.{ℕ, suc, ◌+◌, ◌≤◌}
use mathlib.Core.Path.{◌≡◌, refl, ap, subst}
use mathlib.Core.Logic.{inl, inr}
use mathlib.Core.Bool.{Bool, true, false}
use mathlib.Core.List.{List, [], ◌∷◌, ◌++◌}
use mathlib.Core.Option.{Option, none, some}
use native.Mathlib.Omega.{arith}
use vanth.Prelude.Tests.{if◌then◌else◌, Bool-cases}
use vanth.Prelude.Lists.{length, All}

module _ {R : Type 0} where
  -- SELECT * ... WHERE p, in the table's order
  unfoldable pub select : (R → Bool) → List R → List R
  select p [] = []
  select p (r ∷ rs) = if p r then r ∷ select p rs else select p rs

  -- the first row of SELECT * ... WHERE p
  unfoldable pub find : (R → Bool) → List R → Option R
  find p [] = none
  find p (r ∷ rs) = if p r then some r else find p rs

  -- UPDATE ... SET f WHERE p
  unfoldable pub update : (R → Bool) → (R → R) → List R → List R
  update p f [] = []
  update p f (r ∷ rs) = (if p r then f r else r) ∷ update p f rs

  -- the `rowcount` of an UPDATE or DELETE, and SELECT COUNT(*)
  unfoldable pub count : (R → Bool) → List R → ℕ
  count p [] = 0
  count p (r ∷ rs) = if p r then suc (count p rs) else count p rs

  -- DELETE ... WHERE p
  unfoldable pub delete : (R → Bool) → List R → List R
  delete p [] = []
  delete p (r ∷ rs) = if p r then delete p rs else r ∷ delete p rs

  pub update-none : (p : R → Bool) (f : R → R) (rs : List R) → count p rs ≡ 0 → update p f rs ≡ rs
  unfolding update count
  update-none p f [] h = refl
  update-none p f (r ∷ rs) h = ground (arith, update-none p f rs)

  pub length-update : (p : R → Bool) (f : R → R) (rs : List R) → length (update p f rs) ≡ length rs
  unfolding update
  length-update p f [] = refl
  length-update p f (r ∷ rs) = ap suc (length-update p f rs)

  pub count-update :
      (q p : R → Bool) (f : R → R)
      → ((r : R) → q (f r) ≡ q r)
      → (rs : List R) → count q (update p f rs) ≡ count q rs
  unfolding update count
  count-update q p f h [] = refl
  count-update q p f h (r ∷ rs) = ground (arith, h r, count-update q p f h rs)

  -- An update gives `q` at most the rows that it takes.
  pub count-update-le :
      (q p : R → Bool) (f : R → R) (rs : List R) → count q (update p f rs) ≤ count q rs + count p rs
  unfolding update count
  count-update-le q p f [] = omega arith
  count-update-le q p f (r ∷ rs) = ground (arith, count-update-le q p f rs)

  pub count-update-shrinks :
      (q p : R → Bool) (f : R → R)
      → ((r : R) → p r ≡ true → q (f r) ≡ true → q r ≡ true)
      → (rs : List R) → count q (update p f rs) ≤ count q rs
  unfolding update count
  count-update-shrinks q p f h [] = omega arith
  count-update-shrinks q p f h (r ∷ rs) = ground (arith, h r, count-update-shrinks q p f h rs)

  pub count-never : (p : R → Bool) → ((r : R) → p r ≡ false) → (rs : List R) → count p rs ≡ 0
  unfolding count
  count-never p h [] = refl
  count-never p h (r ∷ rs) = rw (h r) (count-never p h rs)

  pub count-append : (q : R → Bool) (rs ss : List R) → count q (rs ++ ss) ≡ count q rs + count q ss
  unfolding count
  count-append q [] ss = omega arith
  count-append q (r ∷ rs) ss = ground (arith, count-append q rs ss)

  pub count-le-length : (q : R → Bool) (rs : List R) → count q rs ≤ length rs
  unfolding count
  count-le-length q [] = omega arith
  count-le-length q (r ∷ rs) = ground (arith, count-le-length q rs)

  pub find-none : (p : R → Bool) (rs : List R) → find p rs ≡ none → count p rs ≡ 0
  unfolding find count
  find-none p [] h = refl
  find-none p (r ∷ rs) h = ground (arith, find-none p rs)

  pub find-some : (p : R → Bool) (rs : List R) {x : R} → find p rs ≡ some x → p x ≡ true
  unfolding find
  find-some p [] h = cc
  find-some p (r ∷ rs) {x} h = elim (Bool-cases (p r)) [
    | inl e ↦ subst (λ y. p y ≡ true) (ground arith) e
    | inr e ↦ find-some p rs (ground arith)
  ]

  pub find-All {κ} :
      (P : R → Type κ) (p : R → Bool) (rs : List R) {r : R} → All P rs → find p rs ≡ some r → P r
  unfolding find
  find-All P p [] a h = absurd (cc)
  find-All P p (x ∷ rs) a h = elim (Bool-cases (p x)) [
    | inl e ↦ subst P (ground arith) a.0
    | inr e ↦ find-All P p rs a.1 (ground arith)
  ]

  pub update-All {κ} :
      {P : R → Type κ} (p : R → Bool) (f : R → R) (rs : List R)
      → ((r : R) → p r ≡ true → P r → P (f r))
      → All P rs
      → All P (update p f rs)
  unfolding update
  update-All p f [] h a = tt
  update-All p f (r ∷ rs) h a = elim (Bool-cases (p r)) [
    | inl e ↦ (rw e (h r e a.0), update-All p f rs h a.1)
    | inr e ↦ (rw e a.0, update-All p f rs h a.1)
  ]

  pub delete-All {κ} :
      (P : R → Type κ) (p : R → Bool) (rs : List R) → All P rs → All P (delete p rs)
  unfolding delete
  delete-All P p [] a = tt
  delete-All P p (r ∷ rs) a = elim (Bool-cases (p r)) [
    | inl e ↦ rw e (delete-All P p rs a.1)
    | inr e ↦ rw e (a.0, delete-All P p rs a.1)
  ]

  -- What an update makes true of every row: of those that it takes, and of the others.
  pub update-turns {κ μ} :
      {P : R → Type κ} {Q : R → Type μ} (p : R → Bool) (f : R → R) (rs : List R)
      → ((r : R) → Q r → p r ≡ true → P (f r))
      → ((r : R) → Q r → p r ≡ false → P r)
      → All Q rs
      → All P (update p f rs)
  unfolding update
  update-turns p f [] hit miss a = tt
  update-turns p f (r ∷ rs) hit miss a = elim (Bool-cases (p r)) [
    | inl e ↦ (rw e (hit r a.0 e), update-turns p f rs hit miss a.1)
    | inr e ↦ (rw e (miss r a.0 e), update-turns p f rs hit miss a.1)
  ]

  pub find-never : (p : R → Bool) (rs : List R) → All (λ r. p r ≡ false) rs → find p rs ≡ none
  unfolding find
  find-never p [] a = refl
  find-never p (r ∷ rs) a = rw (a.0) (find-never p rs a.1)
