-- ===== src/Remote/Control/Once.antt =====
-- Feed batches in src/vanth/remote/control.py that are answered again, or late.
use vanth.Prelude.{
  ℕ, ◌≤◌, ◌<◌, ◌≡◌, refl, ap, subst, ◌∙◌, inl, inr, true, false, ◌&&◌, String, Option, some, List,
  [], ◌∷◌, arith, same, ltb, ◌==◌, Bool-cases, Option-cases,
}
use vanth.Prelude.Rows.{find, find-some, find-none, count}
use vanth.Prelude.Keys.{touched, find-update-touched}
use vanth.Remote.Store.{Reply, Reply-cases, raised, returned}
use vanth.Remote.Store.Remotes.{
  Cursor, Remote, with_remote, set_feed_cursor, get_feed_cursor, raise_state_epoch,
}
use vanth.Remote.Control.{Controller, epoch_raised}
use vanth.Remote.Control.Batches.{
  same_timeline, ahead, advance_feed_cursor, Batch, SkipReason, reject_reason, Counts,
  apply_changes, Fed, stale_batch_skipped, fed, published, unless_stale, apply_batch,
}

-- The remote's durable cursor is on this timeline, at this sequence number or after it.
pub record Passed (remote : String) (at : Cursor) (rows : List Remote) : Type 0 where
  pub row : Remote
  pub found : find (with_remote remote) rows ≡ some row
  pub stored : Cursor
  pub has : row.feed_cursor ≡ some stored
  pub timeline : same_timeline stored at ≡ true
  pub reached : at.seq ≤ stored.seq

module _ (remote : String) where
  set-found :
      (stamp : ℕ) (k : Option Cursor) (rows : List Remote) (r : Remote)
      → find (with_remote remote) rows ≡ some r
      → find (with_remote remote) (set_feed_cursor stamp remote k rows)
        ≡ some (record r { feed_cursor = k; updated_at = stamp })
  unfolding set_feed_cursor
  set-found stamp k rows r found =
      find-update-touched (with_remote remote) (with_remote remote) _ (λ x. refl) rows
      ∙ ap (touched (with_remote remote) (λ x. record x { feed_cursor = k; updated_at = stamp }))
          found
      ∙ rw (find-some (with_remote remote) rows found) refl

  raise-Passed :
      (stamp epoch : ℕ) (at : Cursor) (rows : List Remote)
      → Passed remote at rows
      → Passed remote at (raise_state_epoch stamp remote epoch rows)
  unfolding raise_state_epoch
  raise-Passed stamp epoch at rows p =
      let e =
        find-update-touched (with_remote remote)
          (λ (r : Remote). same r.remote_id remote && ltb r.state_epoch epoch)
          (λ r. record r { state_epoch = epoch; updated_at = stamp }) (λ r. refl) rows
        ∙ ap
            (touched (λ (r : Remote). same r.remote_id remote && ltb r.state_epoch epoch)
              (λ r. record r { state_epoch = epoch; updated_at = stamp }))
            p.found in
      elim (Bool-cases (same p.row.remote_id remote && ltb p.row.state_epoch epoch)) [
        | inl hit ↦ record {
          row = record (p.row) { state_epoch = epoch; updated_at = stamp };
          found = e ∙ rw hit refl;
          stored = p.stored;
          has = p.has;
          timeline = p.timeline;
          reached = p.reached;
        }
        | inr miss ↦ record {
          row = p.row;
          found = e ∙ rw miss refl;
          stored = p.stored;
          has = p.has;
          timeline = p.timeline;
          reached = p.reached;
        }
      ]

  -- An advance to a cursor on the timeline goes forward.
  advance-Passed :
      (stamp : ℕ) (at next : Cursor) (rows : List Remote) (p : Passed remote at rows)
      → same_timeline p.stored next ≡ true
      → Passed remote at (advance_feed_cursor stamp remote next rows)
  unfolding advance_feed_cursor ahead get_feed_cursor
  advance-Passed stamp at next rows p same_time =
      rw (p.found, p.has, same_time)
        (elim (Bool-cases (ltb next.seq p.stored.seq)) [
          | inl behind ↦ rw behind p
          | inr onward ↦ rw onward (record {
            row = record (p.row) { feed_cursor = some next; updated_at = stamp };
            found = set-found stamp (some next) rows p.row p.found;
            stored = next;
            has = refl;
            timeline = unfold same_timeline in ground (arith, p.timeline, same_time);
            reached = ground (arith, p.reached, onward);
          })
        ])

  advance-passes :
      (stamp : ℕ) (at : Cursor) (rows : List Remote) (r : Remote)
      → find (with_remote remote) rows ≡ some r
      → Passed remote at (advance_feed_cursor stamp remote at rows)
  unfolding advance_feed_cursor get_feed_cursor
  advance-passes stamp at rows r found = rw found (elim (Bool-cases (ahead at r.feed_cursor)) [
    | inr onward ↦ rw onward (record {
      row = record r { feed_cursor = some at; updated_at = stamp };
      found = set-found stamp (some at) rows r found;
      stored = at;
      has = refl;
      timeline = unfold same_timeline in ground arith;
      reached = omega arith;
    })
    | inl behind ↦ rw behind (elim (Option-cases r.feed_cursor) [
      | inl e ↦ absurd (unfold ahead in ground (arith, e, behind))
      | inr (k, e) ↦ record {
        row = r;
        found = found;
        stored = k;
        has = e;
        timeline = unfold ahead in ground (arith, e, behind);
        reached = unfold ahead in ground (arith, e, behind);
      }
    ])
  ])

  after_batch : Controller → Reply (Fed × Controller) → Controller
  after_batch c (raised e) = c
  after_batch c (returned (f, next)) = next

  -- The controller after these answers of the remote, each with the cursor that it was asked with.
  unfoldable pub run : List (ℕ × Option Cursor × Batch) → Controller → Controller
  unfolding after_batch
  run [] c = c
  run ((stamp, asked, b) ∷ bs) c = run bs (after_batch c (apply_batch stamp remote asked b c))

  apply-Passed :
      (stamp : ℕ) (asked : Option Cursor) (b : Batch) (at : Cursor) (c : Controller)
      → Passed remote at c.remotes
      → Passed remote at (after_batch c (apply_batch stamp remote asked b c)).remotes
  unfolding after_batch apply_batch unless_stale published get_feed_cursor epoch_raised
  apply-Passed stamp asked b at c p =
      rw (p.found, p.has)
        (elim (Option-cases (reject_reason (some p.stored) asked b.at)) [
          | inr (reason, e) ↦ rw e p
          | inl e ↦
              rw e
                (elim (Reply-cases
                  (apply_changes stamp remote b.at.state_epoch b.changes c.shadows)) [
                    | inl (bad, refused) ↦ rw refused p
                    | inr (next, done) ↦ rw done (
                        raise-Passed stamp b.at.state_epoch at _ (
                          advance-Passed stamp at b.at c.remotes p
                            (unfold reject_reason in ground (arith, e))))
                  ])
        ])

  run-Passed :
      (bs : List (ℕ × Option Cursor × Batch)) (at : Cursor) (c : Controller)
      → Passed remote at c.remotes
      → Passed remote at (run bs c).remotes
  unfolding run
  run-Passed [] at c p = p
  run-Passed ((stamp, asked, b) ∷ bs) at c p =
      run-Passed bs at _ (apply-Passed stamp asked b at c p)

  apply_batch-skipped :
      (stamp : ℕ) (asked : Option Cursor) (b : Batch) (c : Controller)
      → 0 < b.at.seq
      → Passed remote b.at c.remotes
      → (reason : SkipReason) × (apply_batch stamp remote asked b c
          ≡ returned (stale_batch_skipped reason (get_feed_cursor remote c.remotes), c))
  unfolding apply_batch unless_stale get_feed_cursor
  apply_batch-skipped stamp asked b c numbered p =
      elim (Option-cases (reject_reason (some p.stored) asked b.at)) [
        | inl e ↦
            absurd (unfold reject_reason in ground (arith, e, p.timeline, p.reached, numbered))
        | inr (reason, e) ↦
            let stored : get_feed_cursor remote c.remotes ≡ some p.stored = rw (p.found) (p.has) in
            (
              reason,
              ap (unless_stale stamp remote b c) (ap (λ o. reject_reason o asked b.at) stored ∙ e),
            )
      ]

  fed-Passed :
      (stamp : ℕ) (asked : Option Cursor) (b : Batch) (c next : Controller) (n : Counts)
      (k : Option Cursor)
      → (count (with_remote remote) c.remotes == 0) ≡ false
      → apply_batch stamp remote asked b c ≡ returned (fed n k, next)
      → Passed remote b.at next.remotes
  unfolding apply_batch unless_stale published epoch_raised after_batch
  fed-Passed stamp asked b c next n k known e =
      elim (Option-cases (reject_reason (get_feed_cursor remote c.remotes) asked b.at)) [
        | inr (reason, stale) ↦ absurd (ground (arith, e, stale))
        | inl fresh ↦
            elim (Reply-cases (apply_changes stamp remote b.at.state_epoch b.changes c.shadows)) [
              | inl (bad, refused) ↦ absurd (ground (arith, e, fresh, refused))
              | inr (done, counted) ↦
                  subst (λ x. Passed remote b.at x.remotes) (ap (after_batch c) e)
                    (rw (fresh, counted)
                      (raise-Passed stamp b.at.state_epoch b.at _
                        (elim (Option-cases (find (with_remote remote) c.remotes)) [
                          | inl absent ↦ absurd (
                              ground
                                (arith, known, find-none (with_remote remote) c.remotes absent))
                          | inr (r, found) ↦ advance-passes stamp b.at c.remotes r found
                        ])))
            ]
      ]

-- Where a batch with a sequence number was applied to a remote that is known, then after any other
-- batches of the remote, the same batch is skipped whenever it is answered again, with whatever
-- cursor it was asked for, and nothing changes.
pub fed-once :
    (remote : String) (stamp now : ℕ) (asked again : Option Cursor) (b : Batch)
    (c next : Controller) (n : Counts) (k : Option Cursor) (bs : List (ℕ × Option Cursor × Batch))
    → (count (with_remote remote) c.remotes == 0) ≡ false
    → 0 < b.at.seq
    → apply_batch stamp remote asked b c ≡ returned (fed n k, next)
    → (reason : SkipReason) × (apply_batch now remote again b (run remote bs next)
        ≡ returned (
          stale_batch_skipped reason (get_feed_cursor remote (run remote bs next).remotes),
          run remote bs next,
        ))
fed-once remote stamp now asked again b c next n k bs known numbered e =
    apply_batch-skipped remote now again b (run remote bs next) numbered
      (run-Passed remote bs b.at next (fed-Passed remote stamp asked b c next n k known e))
