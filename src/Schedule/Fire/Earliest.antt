-- ===== src/Schedule/Fire/Earliest.antt =====
-- A cron schedule fires at the first minute that matches it.
use vanth.Prelude.{
  ℕ, zero, suc, ◌+◌, ◌≤◌, ◌<◌, max, ◌≡◌, refl, sym, ap, ◌∙◌, inl, inr, Bool, true, ◌&&◌, Option,
  none, some, List, [], ◌∷◌, arith, length, ltb, Bool-cases, some_inj,
}
use vanth.Schedule.{Fields, Result, ok, err, one_of_two}
use vanth.Schedule.Cron.{LocalTime, parse_cron, matches}
use vanth.Schedule.Fire.{
  at_minute, minute_after, horizon, scan, fire_of, fire_with, next_cron_fire, cons_fire, cursor_of,
  fires_from, next_cron_fires, validate_schedule_spec, compute_next_fire,
}
use vanth.Time.{seconds}

ok_inj {ℓ} : {A : Type ℓ} {a b : A} → ◌≡◌ {A = Result A} (ok a) (ok b) → a ≡ b
ok_inj h = cc

module _ (zone : ℕ → LocalTime) (fields : Fields) where
  scan-some :
      (left current : ℕ) {m : ℕ}
      → scan zone left fields current ≡ some m
      → (current ≤ m) × (matches fields (zone m) ≡ true)
  unfolding scan
  scan-some zero current h = absurd (cc)
  scan-some (suc left) current {m} h = elim (Bool-cases (matches fields (zone current))) [
    | inl e ↦
        let at : current ≡ m = some_inj (rw e at h) in
        (omega arith, ap (λ k. matches fields (zone k)) (sym at) ∙ e)
    | inr e ↦ let (least, hit) = scan-some left (current + 1) (rw e at h) in (omega arith, hit)
  ]

  scan-reaches :
      (left current k : ℕ)
      → current ≤ k
      → k < current + left
      → matches fields (zone k) ≡ true
      → (m : ℕ) × (scan zone left fields current ≡ some m) × (m ≤ k)
  unfolding scan
  scan-reaches zero current k low high hit = absurd (omega arith)
  scan-reaches (suc left) current k low high hit =
      elim (Bool-cases (matches fields (zone current))) [
        | inl e ↦ (current, rw e refl, low)
        | inr e ↦
            let apart : current < k = ground (arith, hit, e) in
            let (m, found, least) =
              scan-reaches left (current + 1) k (omega arith) (omega arith) hit in
            (m, rw e found, least)
      ]

module _ (zone : ℕ → LocalTime) (expr : List ℕ) (after max_years : ℕ) where
  sound_of :
      (fields : Fields) (o : Option ℕ) {t : ℕ}
      → fire_of zone o ≡ ok t
      → ((m : ℕ) → o ≡ some m → (minute_after after ≤ m) × (matches fields (zone m) ≡ true))
      → (m : ℕ) × (t ≡ at_minute m) × (after < t) × (matches fields (zone m) ≡ true)
  unfolding fire_of minute_after
  sound_of fields none h found = absurd (cc)
  sound_of fields (some m) {t} h found =
      let at : at_minute m ≡ t = ok_inj h in
      let (least, hit) = found m refl in (m, sym at, omega arith, hit)

  -- A fire time is a whole minute, strictly after the given instant, and its local time in the
  -- schedule's zone matches the expression.
  pub next_cron_fire_sound :
      {fields : Fields} {t : ℕ}
      → parse_cron expr ≡ ok fields
      → next_cron_fire zone expr after max_years ≡ ok t
      → (m : ℕ) × (t ≡ at_minute m) × (after < t) × (matches fields (zone m) ≡ true)
  unfolding next_cron_fire fire_with
  next_cron_fire_sound {fields} p h =
      sound_of fields (scan zone (suc (horizon max_years)) fields (minute_after after)) (rw p at h)
        (λ m found. scan-some zone fields (suc (horizon max_years)) (minute_after after) found)

  -- Where a minute after the given instant matches the expression, and lies in the years that are
  -- searched, a fire time is returned, and no later one than that minute.
  pub next_cron_fire_earliest :
      {fields : Fields} (k : ℕ)
      → parse_cron expr ≡ ok fields
      → after < at_minute k
      → k ≤ minute_after after + horizon max_years
      → matches fields (zone k) ≡ true
      → (t : ℕ) × (next_cron_fire zone expr after max_years ≡ ok t) × (t ≤ at_minute k)
  unfolding next_cron_fire fire_with fire_of minute_after
  next_cron_fire_earliest {fields} k p later near hit =
      let (m, found, least) =
        scan-reaches zone fields (suc (horizon max_years)) (minute_after after) k (omega arith)
          (omega arith) hit in
      (at_minute m, rw (p, found) refl, omega arith)

abbrev pub ascending : ℕ → List ℕ → Bool
ascending after [] = true
ascending after (t ∷ ts) = ltb after t && ascending t ts

module _ (zone : ℕ → LocalTime) (expr : List ℕ) where
  parsed_of :
      (o : Result Fields) (after : ℕ) {t : ℕ}
      → fire_with zone 5 after o ≡ ok t
      → (fields : Fields) × (o ≡ ok fields)
  unfolding fire_with
  parsed_of (err e) after h = absurd (cc)
  parsed_of (ok fields) after h = (fields, refl)

  later : (after : ℕ) {t : ℕ} → next_cron_fire zone expr after 5 ≡ ok t → after < t
  unfolding next_cron_fire
  later after {t} h =
      let (fields, p) = parsed_of (parse_cron expr) after h in
      let (m, at, above, hit) = next_cron_fire_sound zone expr after 5 p h in above

  cons_fire-ok :
      (o : Result ℕ) (r : Result (List ℕ)) {ts : List ℕ}
      → cons_fire zone o r ≡ ok ts
      → (t : ℕ) × (rest : List ℕ) × (o ≡ ok t) × (r ≡ ok rest) × (ts ≡ t ∷ rest)
  unfolding cons_fire
  cons_fire-ok (err e) r h = absurd (cc)
  cons_fire-ok (ok t) (err e) h = absurd (cc)
  cons_fire-ok (ok t) (ok rest) h = (t, rest, refl, refl, sym (ok_inj h))

  fires_from-ascending :
      (n cursor : ℕ) {ts : List ℕ}
      → fires_from zone expr n cursor ≡ ok ts
      → (ascending cursor ts ≡ true) × (length ts ≡ n)
  unfolding fires_from cursor_of
  fires_from-ascending zero cursor {ts} h =
      let empty : [] ≡ ts = ok_inj h in rw (sym empty) (refl, refl)
  fires_from-ascending (suc n) cursor {ts} h =
      let (t, rest, first, more, at) = cons_fire-ok (next_cron_fire zone expr cursor 5) _ h in
      let (up, count) =
        fires_from-ascending n t
          (ap (λ o. fires_from zone expr n (cursor_of zone cursor o)) (sym first) ∙ more) in
      rw at (ground (arith, up, later cursor first), ap suc count)

  -- A preview has the number of fire times that was asked for, and at least one, in ascending order
  -- and all after the given instant.
  pub next_cron_fires_in_order :
      (after count : ℕ) {ts : List ℕ}
      → next_cron_fires zone expr after count ≡ ok ts
      → (ascending after ts ≡ true) × (length ts ≡ max 1 count)
  unfolding next_cron_fires
  next_cron_fires_in_order after count h = fires_from-ascending (max 1 count) after h

both_refused :
    (expr : List ℕ) (n : ℕ) → validate_schedule_spec (some expr) (some n) ≡ err one_of_two
unfolding validate_schedule_spec
both_refused expr n = refl

positive_interval :
    (after interval : ℕ) {t : ℕ}
    → validate_schedule_spec none (some interval) ≡ ok tt
    → ◌≡◌ {A = Result ℕ} (ok (after + seconds interval)) (ok t)
    → after < t
unfolding validate_schedule_spec
positive_interval after zero v h = absurd (cc)
positive_interval after (suc n) v h =
    let at : after + seconds (suc n) ≡ _ = ok_inj h in omega (arith, at)

-- A schedule that is validated, by a cron expression or by an interval, fires strictly after the
-- instant from which it is computed.
pub compute_next_fire_later :
    (zone : ℕ → LocalTime) (cron : Option (List ℕ)) (interval : Option ℕ) (after : ℕ) {t : ℕ}
    → validate_schedule_spec cron interval ≡ ok tt
    → compute_next_fire zone cron interval after ≡ ok t
    → after < t
unfolding compute_next_fire
compute_next_fire_later zone none none after v h = absurd (cc)
compute_next_fire_later zone (some expr) (some n) after v h = absurd (cc (both_refused expr n, v))
compute_next_fire_later zone (some expr) none after v h = later zone expr after h
compute_next_fire_later zone none (some n) after v h = positive_interval after n v h
