-- ===== src/Instances/Agree.antt =====
-- The two ways to start one instance (backend/api/instances.py): the handler of its own route and
-- the helper of the batch.
use manage_deploy.Common.{◌∙◌, ap, Bool, ap, false, true, ◌∙◌, ◌≡◌}
use manage_deploy.Instances.{opened}
use manage_deploy.Instances.{
  Attempt, Detail, Session, StartReply, answered, http_error, message, opened, raised, server_error,
  started,
}
use manage_deploy.Routing.Board.{Board}

-- What a caller learns: it went well, or why not.
pub data Outcome : Type 0 where
  went_well : Outcome
  went_wrong : Detail → Outcome
  went_up : Outcome

abbrev pub reply_outcome : StartReply → Outcome
reply_outcome (message d) = went_well
reply_outcome started = went_well
reply_outcome (http_error c d) = went_wrong d
reply_outcome server_error = went_up

abbrev pub attempt_outcome : Attempt → Outcome
attempt_outcome raised = went_up
attempt_outcome (answered true d) = went_well
attempt_outcome (answered false d) = went_wrong d

abbrev pub is_well : Outcome → Bool
is_well went_well = true
is_well _ = false

-- Both leave the same session and the same outcome.
abbrev AreSame : Session × StartReply → Session × Attempt → Type 0
AreSame r a = (r.0 ≡ a.0) × (reply_outcome r.1 ≡ attempt_outcome a.1)
