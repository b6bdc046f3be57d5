-- ===== src/Prelude/Keys.antt =====
-- Tables with a TEXT primary key: at most one row carries a key.
use Prim.Native.Nat.{ℕ, ◌<◌}
use Prim.Native.String.{String}
use mathlib.Core.Path.{◌≡◌, refl, sym, ap, subst, ◌∙◌}
use mathlib.Core.Logic.{inl, inr}
use mathlib.Core.Bool.{Bool, true, false}
use mathlib.Core.List.{List, [], ◌∷◌, ◌++◌}
use mathlib.Core.Option.{Option, none, some}
use native.Mathlib.Omega.{arith}
use vanth.Prelude.Tests.{if◌then◌else◌, Bool-cases, same, same_iff, same_self}
use vanth.Prelude.Rows.{find, update, count, count-update, count-append, find-some, delete}

-- What is found after an update.
abbrev pub touched : {R : Type 0} → (R → Bool) → (R → R) → Option R → Option R
touched p f none = none
touched p f (some r) = some (if p r then f r else r)

abbrev pub hits : {R : Type 0} → (R → Bool) → Option R → ℕ
hits p none = 0
hits p (some r) = if p r then 1 else 0

module _ {R : Type 0} where
  pub find-update-touched :
      (k p : R → Bool) (f : R → R)
      → ((r : R) → k (f r) ≡ k r)
      → (rs : List R) → find k (update p f rs) ≡ touched p f (find k rs)
  unfolding find update
  find-update-touched k p f h [] = refl
  find-update-touched k p f h (r ∷ rs) = elim (Bool-cases (p r)) [
    | inl e ↦ rw (e, h r) (ground (arith, find-update-touched k p f h rs))
    | inr e ↦ rw e (ground (arith, find-update-touched k p f h rs))
  ]

  pub find-append_none :
      (k : R → Bool) (rs ss : List R) → find k rs ≡ none → find k (rs ++ ss) ≡ find k ss
  unfolding find
  find-append_none k [] ss h = refl
  find-append_none k (r ∷ rs) ss h = ground (arith, find-append_none k rs ss)

  pub find-append_some :
      (k : R → Bool) (rs ss : List R) {r : R} → find k rs ≡ some r → find k (rs ++ ss) ≡ some r
  unfolding find
  find-append_some k [] ss h = absurd (cc)
  find-append_some k (x ∷ rs) ss {r} h =
      ground (arith, λ (e : find k rs ≡ some r). find-append_some k rs ss e)

  pub count-delete_none :
      (q p : R → Bool) (rs : List R) → count q rs ≡ 0 → count q (delete p rs) ≡ 0
  unfolding count delete
  count-delete_none q p [] h = refl
  count-delete_none q p (r ∷ rs) h = ground (arith, count-delete_none q p rs)

  pub count-delete_all :
      (q p : R → Bool)
      → ((r : R) → q r ≡ true → p r ≡ true)
      → (rs : List R) → count q (delete p rs) ≡ 0
  unfolding count delete
  count-delete_all q p h [] = refl
  count-delete_all q p h (r ∷ rs) = ground (arith, h r, count-delete_all q p h rs)

  pub find-delete_all :
      (q p : R → Bool)
      → ((r : R) → q r ≡ true → p r ≡ true)
      → (rs : List R) → find q (delete p rs) ≡ none
  unfolding find delete
  find-delete_all q p h [] = refl
  find-delete_all q p h (r ∷ rs) = ground (arith, h r, find-delete_all q p h rs)

  -- A row that is found stays where it is not deleted.
  pub find-delete :
      (k p : R → Bool) (rs : List R) {r : R}
      → p r ≡ false
      → find k rs ≡ some r
      → find k (delete p rs) ≡ some r
  unfolding find delete
  find-delete k p [] stays h = absurd (cc)
  find-delete k p (x ∷ rs) {r} stays h = elim (Bool-cases (k x)) [
    | inl hit ↦
        let at : x ≡ r = ground arith in
        let out : p x ≡ false = ap p at ∙ stays in rw (out, hit) (ap some at)
    | inr other ↦ elim (Bool-cases (p x)) [
      | inl gone ↦ rw gone (find-delete k p rs stays (ground arith))
      | inr kept ↦ rw (kept, other) (find-delete k p rs stays (ground arith))
    ]
  ]

  -- Where every row that `p` takes has the key, `p` takes the row that is found, or none.
  pub count_pos :
      (k p : R → Bool) (rs : List R) {r : R} → find k rs ≡ some r → p r ≡ true → 0 < count p rs
  unfolding find count
  count_pos k p [] h e = absurd (cc)
  count_pos k p (x ∷ rs) {r} h e = elim (Bool-cases (k x)) [
    | inl hit ↦ let q : x ≡ r = ground arith in rw (ap p q ∙ e) (omega arith)
    | inr miss ↦
        let rest : 0 < count p rs = count_pos k p rs (ground arith) e in ground (arith, rest)
  ]

module _ {R : Type 0} (key : R → String) where
  abbrev pub with_key : String → R → Bool
  with_key id r = same (key r) id

  abbrev pub Keyed : List R → Type 0
  Keyed [] = Unit {0}
  Keyed (r ∷ rs) = (count (with_key (key r)) rs ≡ 0) × Keyed rs

  pub count-with_key_none :
      (id : String) (p : R → Bool)
      → ((r : R) → p r ≡ true → key r ≡ id)
      → (rs : List R) → count (with_key id) rs ≡ 0
      → count p rs ≡ 0
  unfolding count
  count-with_key_none id p only [] h = refl
  count-with_key_none id p only (r ∷ rs) h = elim (Bool-cases (p r)) [
    | inl e ↦ absurd (ground (arith, (same_iff (key r) id).1 (only r e)))
    | inr e ↦ rw e (count-with_key_none id p only rs (ground arith))
  ]

  -- In a keyed table a statement about one key meets one row.
  pub count-key :
      (id : String) (p : R → Bool)
      → ((r : R) → p r ≡ true → key r ≡ id)
      → (rs : List R) → Keyed rs
      → count p rs ≡ hits p (find (with_key id) rs)
  unfolding count find
  count-key id p only [] h = refl
  count-key id p only (r ∷ rs) h = elim (Bool-cases (same (key r) id)) [
    | inl hit ↦
        let clear : count p rs ≡ 0 =
          count-with_key_none id p only rs
            (subst (λ i. count (with_key i) rs ≡ 0) ((same_iff (key r) id).0 hit) h.0) in
        rw (hit, clear)
    | inr miss ↦ elim (Bool-cases (p r)) [
      | inl e ↦ absurd (ground (arith, (same_iff (key r) id).1 (only r e)))
      | inr e ↦ rw (miss, e) (count-key id p only rs h.1)
    ]
  ]

  pub Keyed-update :
      (p : R → Bool) (f : R → R)
      → ((r : R) → key (f r) ≡ key r)
      → (rs : List R) → Keyed rs
      → Keyed (update p f rs)
  unfolding update
  Keyed-update p f h [] k = tt
  Keyed-update p f h (r ∷ rs) k = (first, Keyed-update p f h rs k.1)
    where
      same_keys : (id : String) → count (with_key id) (update p f rs) ≡ count (with_key id) rs
      same_keys id = count-update (with_key id) p f (λ x. ap (λ i. same i id) (h x)) rs

      new_key : key (if p r then f r else r) ≡ key r
      new_key = elim (Bool-cases (p r)) [ inl e ↦ rw e (h r) | inr e ↦ rw e refl ]

      first : count (with_key (key (if p r then f r else r))) (update p f rs) ≡ 0
      first = rw (new_key, same_keys (key r)) k.0

  pub touched-none :
      (id j : String) (p : R → Bool) (f : R → R)
      → ((r : R) → p r ≡ true → key r ≡ id)
      → same id j ≡ false
      → (o : Option R) → ((r : R) → o ≡ some r → key r ≡ j)
      → touched p f o ≡ o
  touched-none id j p f only differ none at = refl
  touched-none id j p f only differ (some r) at = elim (Bool-cases (p r)) [
    | inr e ↦ rw e
    | inl e ↦ absurd (ground (arith, (same_iff id j).1 (sym (only r e) ∙ at r refl)))
  ]

  -- A statement about one key changes what that key finds, and nothing that another key finds.
  pub find-update-key :
      (id j : String) (p : R → Bool) (f : R → R)
      → ((r : R) → p r ≡ true → key r ≡ id)
      → ((r : R) → key (f r) ≡ key r)
      → (rs : List R)
      → find (with_key j) (update p f rs)
        ≡ (if same id j then touched p f (find (with_key id) rs) else find (with_key j) rs)
  find-update-key id j p f only keep rs =
      find-update-touched (with_key j) p f (λ r. ap (λ i. same i j) (keep r)) rs ∙ split
    where
      split :
          touched p f (find (with_key j) rs)
          ≡ (if same id j then touched p f (find (with_key id) rs) else find (with_key j) rs)
      split = elim (Bool-cases (same id j)) [
        | inl e ↦ rw (e, (same_iff id j).0 e)
        | inr e ↦ rw e (
            touched-none id j p f only e (find (with_key j) rs)
              (λ r found. (same_iff (key r) j).0 (find-some (with_key j) rs found)))
      ]

  pub Keyed-append :
      (rs : List R) (r : R) → count (with_key (key r)) rs ≡ 0 → Keyed rs → Keyed (rs ++ r ∷ [])
  unfolding count
  Keyed-append [] r absent k = (refl, tt)
  Keyed-append (x ∷ rs) r absent k = elim (Bool-cases (same (key x) (key r))) [
    | inl hit ↦ absurd (ground arith)
    | inr miss ↦ (
      count-append (with_key (key x)) rs (r ∷ [])
          ∙ ground (arith, k.0, same_iff (key r) (key x), same_iff (key x) (key r)),
      Keyed-append rs r (ground arith) k.1,
    )
  ]

  pub Keyed-delete : (p : R → Bool) (rs : List R) → Keyed rs → Keyed (delete p rs)
  unfolding delete
  Keyed-delete p [] k = tt
  Keyed-delete p (r ∷ rs) k = elim (Bool-cases (p r)) [
    | inl gone ↦ rw gone (Keyed-delete p rs k.1)
    | inr kept ↦ rw kept (count-delete_none (with_key (key r)) p rs k.0, Keyed-delete p rs k.1)
  ]

  -- A row of a keyed table that some statement finds is the one that its key finds.
  pub Keyed-found :
      (p : R → Bool) (rs : List R) {r : R}
      → Keyed rs
      → find p rs ≡ some r
      → find (with_key (key r)) rs ≡ some r
  unfolding find
  Keyed-found p [] k h = absurd (cc)
  Keyed-found p (x ∷ rs) {r} k h = elim (Bool-cases (p x)) [
    | inl hit ↦ let at : x ≡ r = ground arith in rw (at, same_self (key r)) refl
    | inr miss ↦
        let rest : find p rs ≡ some r = ground arith in
        let later : find (with_key (key r)) rs ≡ some r = Keyed-found p rs k.1 rest in
        elim (Bool-cases (same (key x) (key r))) [
          | inr other ↦ rw other later
          | inl again ↦
              let clear : count (with_key (key r)) rs ≡ 0 =
                subst (λ i. count (with_key i) rs ≡ 0) ((same_iff (key x) (key r)).0 again) k.0 in
              absurd (
                omega (
                  arith,
                  clear,
                  count_pos (with_key (key r)) (with_key (key r)) rs later (same_self (key r)),
                ))
        ]
  ]
