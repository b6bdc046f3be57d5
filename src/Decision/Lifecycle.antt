-- ===== src/Decision/Lifecycle.antt =====
-- The events of a decision seen as the story of its row.
pub mod Transitions
pub mod Ended
pub mod Resolution
pub mod History
use vanth.Prelude.{
  ℕ, ◌+◌, ◌≡◌, refl, sym, ap, subst, ◌∙◌, inl, inr, Bool, true, false, not, ◌&&◌, String, Option,
  none, some, List, [], ◌∷◌, ◌++◌, arith, same, same_iff, same_self, if◌then◌else◌, Bool-cases,
  ◌==◌,
}
use vanth.Prelude.Rows.{find, update, count, find-none, find-some}
use vanth.Prelude.Keys.{
  touched, find-update-key, find-append_none, Keyed, Keyed-update, Keyed-append,
}
use vanth.Delivery.{or_else}
use vanth.Decision.{
  DecisionStatus, pending, resolved, withdrawn, expired, Decision, Payload, requested_data,
  resolved_data, withdrawn_data, expired_data, EventRow, World, is_pending, with_token, open_token,
}
use vanth.Decision.Emit.{EmitDraw, next_event, write_event}

abbrev pub decision_of : Payload → String
decision_of (requested_data id prompt options expires) = id
decision_of (resolved_data id choice actor) = id
decision_of (withdrawn_data id actor) = id
decision_of (expired_data id) = id

-- The payloads of the events about a decision, in the order of their rows.
unfoldable pub story : String → List EventRow → List Payload
story id [] = []
story id (e ∷ es) = if same (decision_of e.payload) id then e.payload ∷ story id es else story id es

-- What ended a decision, as its row records it.
unfoldable pub ending : Decision → DecisionStatus → List Payload
ending d pending = []
ending d resolved =
    resolved_data d.decision_id (or_else d.choice "") (or_else d.resolved_by "") ∷ []
ending d withdrawn = withdrawn_data d.decision_id (or_else d.resolved_by "") ∷ []
ending d expired = expired_data d.decision_id ∷ []

unfoldable pub told_by : Option Decision → List Payload
unfolding ending
told_by none = []
told_by (some d) = requested_data d.decision_id d.prompt d.options d.expires_at ∷ ending d d.status

abbrev pub key : Decision → String
key d = d.decision_id

-- Ids are unique, and the events about a decision are its request, and then, once it is no longer
-- pending, the one transition that its row records.
pub record IsLifecycle (w : World) : Type 0 where
  pub keys : Keyed key w.decisions
  pub told : (id : String) → story id w.events ≡ told_by (find (with_token id) w.decisions)

pub story-append :
    (id : String) (xs : List EventRow) (e : EventRow)
    → story id (xs ++ e ∷ [])
      ≡ story id xs ++ (if same (decision_of e.payload) id then e.payload ∷ [] else [])
unfolding story
story-append id [] e = ground arith
story-append id (x ∷ xs) e = elim (Bool-cases (same (decision_of x.payload) id)) [
  | inl h ↦ rw h (ap (λ l. x.payload ∷ l) (story-append id xs e))
  | inr h ↦ rw h (story-append id xs e)
]

append_nil {ℓ} : {A : Type ℓ} (xs : List A) → xs ++ [] ≡ xs
append_nil [] = refl
append_nil (x ∷ xs) = ap (λ l. x ∷ l) (append_nil xs)

open_token-key : (token : String) (d : Decision) → open_token token d ≡ true → d.decision_id ≡ token
unfolding open_token
open_token-key token d h = ground (arith, same_iff d.decision_id token)

count_zero : (p : Decision → Bool) (rows : List Decision) → count p rows ≡ 0 → find p rows ≡ none
unfolding count find
count_zero p [] h = refl
count_zero p (r ∷ rows) h = ground (arith, count_zero p rows)

append_other :
    (p : Decision → Bool) (rows : List Decision) (d : Decision)
    → p d ≡ false
    → find p (rows ++ d ∷ []) ≡ find p rows
unfolding find
append_other p [] d h = rw h
append_other p (r ∷ rows) d h = ground (arith, append_other p rows d h)

module _ (draw : EmitDraw) (job kind message : String) (payload : Payload) where
  -- A pending decision is ended: its row records the payload that its event carries.
  pub end-IsLifecycle :
      (w : World) (token : String) (f : Decision → Decision) {d : Decision}
      → IsLifecycle w
      → ((x : Decision) → (f x).decision_id ≡ x.decision_id)
      → find (with_token token) w.decisions ≡ some d
      → is_pending d.status ≡ true
      → decision_of payload ≡ token
      → told_by (some (f d)) ≡ told_by (some d) ++ payload ∷ []
      → IsLifecycle (
          write_event draw job kind message payload
            (record w { decisions = update (open_token token) f w.decisions }))
  unfolding write_event next_event
  end-IsLifecycle w token f {d} v keep found idle about tells = record {
    keys = Keyed-update key (open_token token) f keep w.decisions v.keys;
    told = λ j.
        story-append j w.events _
        ∙ ap (λ l. l ++ (if same (decision_of payload) j then payload ∷ [] else [])) (v.told j)
        ∙ joined j
        ∙ sym (
            ap told_by (
              find-update-key key token j (open_token token) f (open_token-key token) keep
                w.decisions));
  }
    where
      open_here : open_token token d ≡ true
      open_here = unfold open_token in rw (find-some (with_token token) w.decisions found) idle

      ended :
          told_by (touched (open_token token) f (find (with_token token) w.decisions))
          ≡ told_by (some d) ++ payload ∷ []
      ended = rw (found, open_here) tells

      joined :
          (j : String)
          → told_by (find (with_token j) w.decisions)
              ++ (if same (decision_of payload) j then payload ∷ [] else [])
            ≡ told_by (
                if same token j
                then touched (open_token token) f (find (with_token token) w.decisions)
                else find (with_token j) w.decisions)
      joined j = elim (Bool-cases (same token j)) [
        | inr e ↦ rw (about, e) (append_nil (told_by (find (with_token j) w.decisions)))
        | inl e ↦
            rw (about, e, ended)
              (ap (λ o. told_by o ++ payload ∷ [])
                (ap (λ i. find (with_token i) w.decisions) (sym ((same_iff token j).0 e)) ∙ found))
      ]

  -- A decision is requested: its row is new, and so is its story.
  pub begin-IsLifecycle :
      (w : World) (d : Decision)
      → IsLifecycle w
      → count (with_token d.decision_id) w.decisions ≡ 0
      → decision_of payload ≡ d.decision_id
      → told_by (some d) ≡ payload ∷ []
      → IsLifecycle (
          write_event draw job kind message payload
            (record w { decisions = w.decisions ++ d ∷ [] }))
  unfolding write_event next_event
  begin-IsLifecycle w d v absent about tells = record {
    keys = Keyed-append key w.decisions d absent v.keys;
    told = λ j.
        story-append j w.events _
        ∙ ap (λ l. l ++ (if same (decision_of payload) j then payload ∷ [] else [])) (v.told j)
        ∙ joined j;
  }
    where
      none_at : (j : String) → d.decision_id ≡ j → find (with_token j) w.decisions ≡ none
      none_at j at =
          count_zero (with_token j) w.decisions
            (subst (λ i. count (with_token i) w.decisions ≡ 0) at absent)

      added :
          (j : String)
          → find (with_token j) (w.decisions ++ d ∷ [])
            ≡ (if same d.decision_id j then some d else find (with_token j) w.decisions)
      added j = elim (Bool-cases (same d.decision_id j)) [
        | inl e ↦ rw e (
            find-append_none (with_token j) w.decisions (d ∷ [])
              (none_at j ((same_iff d.decision_id j).0 e))
            ∙ (unfold find in rw e refl))
        | inr e ↦ rw e (append_other (with_token j) w.decisions d e)
      ]

      joined :
          (j : String)
          → told_by (find (with_token j) w.decisions)
              ++ (if same (decision_of payload) j then payload ∷ [] else [])
            ≡ told_by (find (with_token j) (w.decisions ++ d ∷ []))
      joined j = elim (Bool-cases (same d.decision_id j)) [
        | inr e ↦ rw (added j, about, e) (append_nil (told_by (find (with_token j) w.decisions)))
        | inl e ↦
            rw (added j, about, e, none_at j ((same_iff d.decision_id j).0 e), tells)
              (unfold told_by in refl)
      ]
