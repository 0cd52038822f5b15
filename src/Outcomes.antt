-- ===== src/Outcomes.antt =====
-- How a run of an issue ends: Outcome of internal/service/issueflow/result.go, and its error.
use symphony_go.Prelude.{Text}

-- `unset` is the zero value "".
pub data Outcome : Type 0 where
  unset done wait_human retry_failure retry_continuation stopped : Outcome

-- An error that wraps context.Canceled, or another.
pub data RunError : Type 0 where
  canceled : RunError
  failed : Text → RunError
