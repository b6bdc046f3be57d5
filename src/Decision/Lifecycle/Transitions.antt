-- ===== src/Decision/Lifecycle/Transitions.antt =====
-- When a transition changes a decision: the row that it found, and what it wrote.
use vanth.Prelude.{
  ℕ, ◌≡◌, refl, sym, inl, inr, Bool, true, false, not, String, Option, none, some, List, [], ◌∷◌,
  ◌++◌, arith, same, ◌==◌, if◌then◌else◌, Bool-cases,
}
use vanth.Prelude.Rows.{find, update, count}
use vanth.Delivery.Destination.{member}
use vanth.Decision.{
  DecisionStatus, pending, resolved, withdrawn, expired, Decision, Payload, Job, World, Error,
  is_terminal, is_pending, with_token, open_token, row_isdue,
}
use vanth.Decision.Emit.{Mutation, changed, noop, refused}
use vanth.Decision.Requests.{
  Draw, resolve_row, resolve_pending, resolve_status, resolve_found, resolve_mutation, withdraw_row,
  withdraw_found, withdraw_mutation, fresh_decision, insert_decision, request_for, request_mutation,
  expire_row, expire_found, expire_mutation,
}

-- A guard that passed.
passed :
    (b : Bool) (e : Error) (m : Mutation) {w : World}
    → (if b then refused e else m) ≡ changed w
    → (b ≡ false) × (m ≡ changed w)
passed true e m h = absurd (cc)
passed false e m h = (refl, h)

passed_noop :
    (b : Bool) (m : Mutation) {w : World}
    → (if b then noop else m) ≡ changed w
    → (b ≡ false) × (m ≡ changed w)
passed_noop true m h = absurd (cc)
passed_noop false m h = (refl, h)

changed_inj : {a b : World} → changed a ≡ changed b → a ≡ b
changed_inj h = cc

-- A pending row of the token was found, and `f` written to it.
pub record Ends (token : String) (f : Decision → Decision) (w w₁ : World) : Type 0 where
  pub row : Decision
  pub found : find (with_token token) w.decisions ≡ some row
  pub idle : is_pending row.status ≡ true
  pub written : w₁ ≡ record w { decisions = update (open_token token) f w.decisions }

module _ (max_events : ℕ) (fits : Payload → Bool) (draw : Draw) where
  module _ (job token choice actor : String) where
    -- What a resolution requires of the row: the job's own, pending, in time, with the choice offered.
    pub record Resolves (w w₁ : World) : Type 0 where
      pub ends : Ends token (resolve_row max_events fits draw job token choice actor) w w₁
      pub in_time : row_isdue ends.row.expires_at ends.row.status draw.now ≡ false
      pub offered : member choice ends.row.options ≡ true
      pub own_job : same ends.row.job_id job ≡ true

    by_status :
        (d : Decision) (s : DecisionStatus) (w : World) {w₁ : World}
        → d.status ≡ s
        → find (with_token token) w.decisions ≡ some d
        → same d.job_id job ≡ true
        → resolve_status max_events fits draw job token choice actor s d w ≡ changed w₁
        → Resolves w w₁
    unfolding resolve_status resolve_pending
    by_status d resolved w s f j h = absurd (ground (arith, h))
    by_status d withdrawn w s f j h = absurd (cc)
    by_status d expired w s f j h = absurd (cc)
    by_status d pending w s f j h =
        let (on_time, h₁) = passed (row_isdue d.expires_at d.status draw.now) _ _ h in
        let (chosen, h₂) = passed (not (member choice d.options)) _ _ h₁ in
        let (there, h₃) = passed (count (open_token token) w.decisions == 0) _ _ h₂ in
        record {
          ends = record { row = d; found = f; idle = rw s refl; written = sym (changed_inj h₃) };
          in_time = on_time;
          offered = ground arith;
          own_job = j;
        }

    by_row :
        (o : Option Decision) (w : World) {w₁ : World}
        → find (with_token token) w.decisions ≡ o
        → resolve_found max_events fits draw job token choice actor o w ≡ changed w₁
        → Resolves w w₁
    unfolding resolve_found
    by_row none w f h = absurd (cc)
    by_row (some d) w f h = elim (Bool-cases (same d.job_id job)) [
      | inl j ↦ by_status d d.status w refl f j (rw j at h)
      | inr j ↦ absurd (cc (h, j))
    ]

    pub resolve_mutation-Resolves :
        (w : World) {w₁ : World}
        → resolve_mutation max_events fits draw job token choice actor w ≡ changed w₁
        → Resolves w w₁
    unfolding resolve_mutation
    resolve_mutation-Resolves w h = by_row (find (with_token token) w.decisions) w refl h

  module _ (job token actor : String) where
    withdraw_row-Ends :
        (o : Option Decision) (w : World) {w₁ : World}
        → find (with_token token) w.decisions ≡ o
        → withdraw_found max_events fits draw job token actor o w ≡ changed w₁
        → Ends token (withdraw_row max_events fits draw job token actor) w w₁
    unfolding withdraw_found
    withdraw_row-Ends none w f h = absurd (cc)
    withdraw_row-Ends (some d) w f h =
        let (own, h₁) = passed (not (same d.job_id job)) _ _ h in
        let (idle, h₂) = passed (not (is_pending d.status)) _ _ h₁ in
        let (on_time, h₃) = passed (row_isdue d.expires_at d.status draw.now) _ _ h₂ in
        let (there, h₄) = passed (count (open_token token) w.decisions == 0) _ _ h₃ in
        record { row = d; found = f; idle = ground arith; written = sym (changed_inj h₄) }

    pub withdraw_mutation-Ends :
        (w : World) {w₁ : World}
        → withdraw_mutation max_events fits draw job token actor w ≡ changed w₁
        → Ends token (withdraw_row max_events fits draw job token actor) w w₁
    unfolding withdraw_mutation
    withdraw_mutation-Ends w h = withdraw_row-Ends (find (with_token token) w.decisions) w refl h

  module _ (id : String) where
    expire_row-Ends :
        (o : Option Decision) (w : World) {w₁ : World}
        → find (with_token id) w.decisions ≡ o
        → expire_found max_events fits draw id o w ≡ changed w₁
        → Ends id (expire_row max_events fits draw id) w w₁
    unfolding expire_found
    expire_row-Ends none w f h = absurd (cc)
    expire_row-Ends (some d) w f h =
        let (due, h₁) = passed_noop (not (row_isdue d.expires_at d.status draw.now)) _ h in
        let (there, h₂) = passed_noop (count (open_token id) w.decisions == 0) _ h₁ in
        record {
          row = d;
          found = f;
          idle = due_pending d.expires_at d.status (ground arith);
          written = sym (changed_inj h₂);
        }
      where
        due_pending :
            (e : Option ℕ) (s : DecisionStatus)
            → row_isdue e s draw.now ≡ true
            → is_pending s ≡ true
        due_pending (some t) pending k = refl
        due_pending (some t) resolved k = absurd (unfold row_isdue in cc)
        due_pending (some t) withdrawn k = absurd (unfold row_isdue in cc)
        due_pending (some t) expired k = absurd (unfold row_isdue in cc)
        due_pending none s k = absurd (unfold row_isdue in cc)

    pub expire_mutation-Ends :
        (w : World) {w₁ : World}
        → expire_mutation max_events fits draw id w ≡ changed w₁
        → Ends id (expire_row max_events fits draw id) w w₁
    unfolding expire_mutation
    expire_mutation-Ends w h = expire_row-Ends (find (with_token id) w.decisions) w refl h

  module _ (id job prompt : String) where
    -- What a request requires, and what it wrote.
    pub record Begins (options : List String) (expires : Option ℕ) (w w₁ : World) : Type 0 where
      pub absent : count (with_token id) w.decisions ≡ 0
      pub written : w₁ ≡ record w {
        decisions =
            w.decisions ++ fresh_decision max_events fits draw id job prompt options expires ∷ [];
      }

    insert-Begins :
        (options : List String) (expires : Option ℕ) (w : World) {w₁ : World}
        → insert_decision max_events fits draw id job prompt options expires w ≡ changed w₁
        → Begins options expires w w₁
    unfolding insert_decision
    insert-Begins options expires w h = elim (Bool-cases (count (with_token id) w.decisions == 0)) [
      | inl e ↦ record { absent = ground arith; written = sym (changed_inj (rw e at h)) }
      | inr e ↦ absurd (cc (rw e at h))
    ]

    job-Begins :
        (options : List String) (expires : Option ℕ) (o : Option Job) (w : World) {w₁ : World}
        → request_for max_events fits draw id job prompt o options expires w ≡ changed w₁
        → Begins options expires w w₁
    unfolding request_for
    job-Begins options expires none w h = absurd (cc)
    job-Begins options expires (some j) w h =
        let (active, h₁) = passed (is_terminal j.status) _ _ h in insert-Begins options expires w h₁

    pub request_mutation-Begins :
        (options : List String) (expires : Option ℕ) (w : World) {w₁ : World}
        → request_mutation max_events fits draw id job prompt options expires w ≡ changed w₁
        → Begins options expires w w₁
    unfolding request_mutation
    request_mutation-Begins options expires w h =
        job-Begins options expires (find (λ (j : Job). same j.job_id job) w.jobs) w h
