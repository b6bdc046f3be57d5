-- ===== src/Schedule/Cron/Matching.antt =====
-- The day fields of a cron expression.
use vanth.Prelude.{
  ℕ, zero, suc, ◌+◌, ◌≤◌, ◌<◌, ◌≡◌, inl, inr, true, false, ◌&&◌, ◌||◌, List, arith, ◌==◌,
  Bool-cases, and_true, if◌then◌else◌,
}
use vanth.Schedule.{Fields}
use vanth.Schedule.Parse.{memb}
use vanth.Schedule.Cron.{LocalTime, cron_dow, up_from, within, restricted, day_matches}

within-up_from :
    (vs : List ℕ) (start n d : ℕ)
    → within (up_from start n) vs ≡ true
    → start ≤ d
    → d < start + n
    → memb d vs ≡ true
unfolding within
within-up_from vs start zero d h low high = absurd (omega arith)
within-up_from vs start (suc n) d h low high =
    let (here, rest) = and_true (memb start vs) _ h in
    elim (Bool-cases (d == start)) [
      | inl e ↦ let at : d ≡ start = ground arith in rw at here
      | inr e ↦
          let apart : start < d = ground arith in
          within-up_from vs (suc start) n d rest (omega arith) (omega arith)
    ]

unrestricted :
    (vs : List ℕ) (start n d : ℕ)
    → restricted vs start n ≡ false
    → start ≤ d
    → d < start + n
    → memb d vs ≡ true
unfolding restricted
unrestricted vs start n d h low high = within-up_from vs start n d (ground arith) low high

-- On a day of a calendar, the day of the month and the day of the week must both match, except that
-- where both fields leave some day out, either will do.
pub day_matches-eq :
    (fields : Fields) (local : LocalTime)
    → 1 ≤ local.day
    → local.day ≤ 31
    → day_matches fields local ≡ (
        if restricted fields.doms 1 31 && restricted fields.dows 0 7
        then memb local.day fields.doms || memb (cron_dow local) fields.dows
        else memb local.day fields.doms && memb (cron_dow local) fields.dows)
unfolding day_matches
day_matches-eq fields local low high = elim (Bool-cases (restricted fields.doms 1 31)) [
  | inr e ↦
      let free : memb local.day fields.doms ≡ true =
        unrestricted fields.doms 1 31 local.day e low (omega arith) in
      rw (e, free) (by_week free)
  | inl e ↦ rw e (by_week_only)
]
  where
    week : cron_dow local < 0 + 7
    week = unfold cron_dow in omega arith

    by_week :
        memb local.day fields.doms ≡ true
        → (if restricted fields.dows 0 7 then memb (cron_dow local) fields.dows else true)
          ≡ memb (cron_dow local) fields.dows
    by_week f = elim (Bool-cases (restricted fields.dows 0 7)) [
      | inl r ↦ rw r
      | inr r ↦ rw (r, unrestricted fields.dows 0 7 (cron_dow local) r (omega arith) week)
    ]

    by_week_only :
        (if restricted fields.dows 0 7
          then memb local.day fields.doms || memb (cron_dow local) fields.dows
          else memb local.day fields.doms)
        ≡ (if restricted fields.dows 0 7
            then memb local.day fields.doms || memb (cron_dow local) fields.dows
            else memb local.day fields.doms && memb (cron_dow local) fields.dows)
    by_week_only = elim (Bool-cases (restricted fields.dows 0 7)) [
      | inl r ↦ rw r
      | inr r ↦
          rw (r, unrestricted fields.dows 0 7 (cron_dow local) r (omega arith) week) (ground arith)
    ]
