-- ===== src/Decision/Requests/Shared.antt =====
-- What the methods on decisions of src/vanth/server.py share: the reload of a row, `_decision_for`.
use vanth.Prelude.{ℕ, Bool, false, String, Option, none, some, ◌==◌, same, if◌then◌else◌}
use vanth.Prelude.Rows.{find}
use vanth.Decision.{Decision, World, Result, ok, err, empty_token, unknown_decision, with_token}
use vanth.Decision.Emit.{EmitDraw}

-- What one transition draws: the clock where the deadline is tested and where the change is stamped.
pub record Draw : Type 0 where
  pub now : ℕ
  pub stamp : ℕ
  pub emit : EmitDraw

abbrev pub same_as_zero : Option ℕ → Bool
same_as_zero none = false
same_as_zero (some n) = n == 0

unfoldable pub reload_row : Option Decision → World → Result Decision × World
reload_row none w = (err unknown_decision, w)
reload_row (some d) w = (ok d, w)

unfoldable pub reload : String → World → Result Decision × World
unfolding reload_row
reload token w = reload_row (find (with_token token) w.decisions) w

unfoldable pub decision_found : String → Option Decision → Result Decision
decision_found job none = err unknown_decision
decision_found job (some d) = if same d.job_id job then ok d else err unknown_decision

-- `_decision_for`
unfoldable pub decision_for : String → String → World → Result Decision
unfolding decision_found
decision_for job token w =
    if same token ""
    then err empty_token
    else decision_found job (find (with_token token) w.decisions)
