-- ===== src/Job/Gates.antt =====
-- What the dispatcher launches has passed its gates, and its pool's cap.
use vanth.Prelude.{
  ℕ, ◌+◌, ◌≤◌, ◌<◌, ◌≡◌, ◌⊎◌, refl, inl, inr, Bool, true, false, not, ◌&&◌, ◌||◌, String, Option,
  none, some, List, arith, same_iff, ◌==◌, ltb, Bool-cases, Nat-cases,
}
use vanth.Prelude.Rows.{find, update, count, count-update-le, count-update-shrinks, count-never}
use vanth.Prelude.Keys.{Keyed}
use vanth.Prelude.Text.{pos}
use vanth.Job.{failed, Job, Probe, Gate, with_id}
use vanth.Job.Claim.{rank, finish_row, restorable, restore_row, restore_pending_restart_after}
use vanth.Job.Launch.{
  Pool, JobDb, of_pool, active_in, pool_has_room, launchable, launch_row, claim_queued,
  launched_after, launch_queued_if_capacity, being_launched, worker_row, launch,
}
use vanth.Job.Queue.{
  Probing, Daemon, launches, Gated, never, closed, opened, gate_on, gate_of, gate_in, probe_in,
  probe_timed_out, probe_ready, probe_verdict, verdict_at, verdict_on, verdict,
}
use vanth.Job.Handover.{key, OnlyJob}
use vanth.Job.Quota.{count-le-one}

-- The parent has the status that the gate names, where there is a gate.
abbrev pub GateOpen : List Job → Option Gate → Type 0
GateOpen jobs none = Unit {0}
GateOpen jobs (some g) =
    (parent : Job) × (find (with_id g.parent) jobs ≡ some parent)
    × (rank parent.status ≡ rank g.status)

-- The probe answered so in this pass, where there is a probe.
abbrev pub ProbeReady : Daemon → String → Option Probe → Type 0
ProbeReady d id none = Unit {0}
ProbeReady d id (some probe) = d.evaluate id probe ≡ true

module _ (d : Daemon) where
  ready-evaluated :
      (id : String) (probe : Probe) (p : Probing)
      → (probe_ready d id probe p).0 ≡ true
      → d.evaluate id probe ≡ true
  unfolding probe_ready
  ready-evaluated id probe p h = ground arith

  verdict-ready : (r : Bool × Probing) → (probe_verdict d r).0 ≡ launches → r.0 ≡ true
  unfolding probe_verdict
  verdict-ready (true, p) h = refl
  verdict-ready (false, p) h = absurd (cc)

  launches-at :
      (room : Bool) (j : Job) (o : Option Probe) (start : ℕ) (p : Probing)
      → (verdict_at d room j o start p).0 ≡ launches
      → (j.paused ≡ false) × ProbeReady d j.job_id o
  unfolding verdict_at
  launches-at room j none start p h = elim (Bool-cases j.paused) [
    | inl e ↦ absurd (cc (rw e at h))
    | inr e ↦ (e, tt)
  ]
  launches-at room j (some probe) start p h =
      elim (Bool-cases (probe_timed_out (d.utc j.job_id) probe start)) [
        | inl e ↦ absurd (cc (rw e at h))
        | inr e ↦ elim (Bool-cases j.paused) [
          | inl k ↦ absurd (cc (rw (e, k) at h))
          | inr k ↦ elim (Bool-cases room) [
            | inr m ↦ absurd (cc (rw (e, k, m) at h))
            | inl m ↦ (
              k,
              ready-evaluated j.job_id probe p
                  (verdict-ready (probe_ready d j.job_id probe p) (rw (e, k, m) at h)),
            )
          ]
        ]
      ]

  parent-open :
      (jobs : List Job) (created : ℕ) (g : Gate) (o : Option Job) {start : ℕ}
      → find (with_id g.parent) jobs ≡ o
      → gate_on created g o ≡ opened start
      → GateOpen jobs (some g)
  unfolding gate_on
  parent-open jobs created g none e h = absurd (cc)
  parent-open jobs created g (some parent) e h = (parent, e, ground (arith, h))

  gate-open :
      (jobs : List Job) (created : ℕ) (o : Option Gate) {start : ℕ}
      → gate_of jobs created o ≡ opened start
      → GateOpen jobs o
  unfolding gate_of
  gate-open jobs created none h = tt
  gate-open jobs created (some g) h =
      parent-open jobs created g (find (with_id g.parent) jobs) refl h

  by_gate :
      (jobs : List Job) (room : Bool) (j : Job) (g : Gated) (p : Probing)
      → gate_of jobs j.created_at (gate_in j.trigger) ≡ g
      → (verdict_on d room j g p).0 ≡ launches
      → (j.paused ≡ false)
        × GateOpen jobs (gate_in j.trigger)
        × ProbeReady d j.job_id (probe_in j.trigger)
  unfolding verdict_on
  by_gate jobs room j (never r) p e h = absurd (cc)
  by_gate jobs room j closed p e h = absurd (cc)
  by_gate jobs room j (opened start) p e h =
      let (held, ready) = launches-at room j (probe_in j.trigger) start p h in
      (held, gate-open jobs j.created_at (gate_in j.trigger) e, ready)

  -- The dispatcher decides to launch a queued job only where it is not paused, the parent that its
  -- trigger names has the status that it names, and its probe answered in this pass that it is ready.
  pub verdict-launches :
      (jobs : List Job) (room : Bool) (j : Job) (p : Probing)
      → (verdict d jobs room j p).0 ≡ launches
      → (j.paused ≡ false)
        × GateOpen jobs (gate_in j.trigger)
        × ProbeReady d j.job_id (probe_in j.trigger)
  unfolding verdict
  verdict-launches jobs room j p h = by_gate jobs room j _ p refl h

-- At most `cap` of a pool's jobs are running or launching, where it has a cap.
abbrev pub WithinCap : String → ℕ → List Job → Type 0
WithinCap name cap jobs = (cap ≡ 0) ⊎ (count (active_in name) jobs ≤ cap)

launch-shrinks :
    (name id token : String) (stamp : ℕ) (spawned : Option ℕ) (jobs : List Job)
    → count (active_in name) (launch id token stamp spawned jobs).1 ≤ count (active_in name) jobs
unfolding launch restore_pending_restart_after restore_row finish_row worker_row
launch-shrinks name id token stamp (some pid) jobs =
    count-update-shrinks (active_in name) (being_launched id token) (worker_row pid stamp)
      (λ j e a. a) jobs
launch-shrinks name id token stamp none jobs = omega (
  arith,
  count-update-shrinks (active_in name) (restorable id (some token) none) (restore_row stamp)
      (λ j e a. a) (update (being_launched id token) (finish_row failed (some (pos 1)) stamp) jobs),
  count-update-shrinks (active_in name) (being_launched id token)
      (finish_row failed (some (pos 1)) stamp) (λ j e a. absurd (ground (arith, a))) jobs,
)

module _ (limit : ℕ) (id name token : String) (stamp : ℕ) (spawned : Option ℕ) (db : JobDb)
    (keyed : Keyed key db.jobs) where
  abbrev takes : Job → Bool
  takes = launchable limit id (some name) db

  pool-only : OnlyJob id takes
  unfolding launchable
  pool-only j h = (same_iff j.job_id id).0 (ground arith)

  claimed-count :
      (r : Bool × JobDb) → (launched_after id token stamp spawned r).0 ≡ true → r.0 ≡ true
  unfolding launched_after
  claimed-count (true, db₁) h = refl
  claimed-count (false, db₁) h = absurd (cc)

  launched-shrinks :
      (r : Bool × JobDb)
      → count (active_in name) (launched_after id token stamp spawned r).1.jobs
        ≤ count (active_in name) r.1.jobs
  unfolding launched_after
  launched-shrinks (true, db₁) = launch-shrinks name id token stamp spawned db₁.jobs
  launched-shrinks (false, db₁) = omega arith

  claim-room :
      (claim_queued limit id (some name) token stamp db).0 ≡ true
      → pool_has_room (some name) db ≡ true
  unfolding claim_queued
  claim-room h = elim (Bool-cases (pool_has_room (some name) db)) [
    | inl e ↦ e
    | inr e ↦
        absurd (
          ground
            (arith, h, count-never takes (unfold launchable in λ j. ground (arith, e)) db.jobs))
  ]

  claim-grows :
      count (active_in name) (claim_queued limit id (some name) token stamp db).1.jobs
      ≤ count (active_in name) db.jobs + 1
  unfolding claim_queued
  claim-grows = omega (
    arith,
    count-update-le (active_in name) takes (launch_row token stamp) db.jobs,
    count-le-one id takes db.jobs pool-only keyed,
  )

  -- In a table that is keyed by the job: where the dispatcher launches a job of a pool, that pool is
  -- not paused, and after the launch no more of its jobs are running or launching than its cap, unless
  -- it has none.
  pub launch_queued-within :
      {p : Pool}
      → find (of_pool name) db.pools ≡ some p
      → (launch_queued_if_capacity limit id (some name) token stamp spawned db).0 ≡ true
      → (p.paused ≡ false)
        × WithinCap name p.max_parallel
            (launch_queued_if_capacity limit id (some name) token stamp spawned db).1.jobs
  unfolding launch_queued_if_capacity pool_has_room
  launch_queued-within {p} found h =
      let room = claim-room (claimed-count (claim_queued limit id (some name) token stamp db) h) in
      let open_pool : (not p.paused
            && (p.max_parallel == 0 || ltb (count (active_in name) db.jobs) p.max_parallel))
          ≡ true =
        rw found at room in
      (ground (arith, open_pool), within open_pool)
    where
      within :
          (not p.paused
              && (p.max_parallel == 0 || ltb (count (active_in name) db.jobs) p.max_parallel))
            ≡ true
          → WithinCap name p.max_parallel
              (launched_after id token stamp spawned
                (claim_queued limit id (some name) token stamp db)).1.jobs
      within o = elim (Nat-cases p.max_parallel) [
        | inl e ↦ inl e
        | inr e ↦
            let below : count (active_in name) db.jobs < p.max_parallel = ground (arith, o, e) in
            inr (
              omega (
                arith,
                claim-grows,
                below,
                launched-shrinks (claim_queued limit id (some name) token stamp db),
              ))
      ]
