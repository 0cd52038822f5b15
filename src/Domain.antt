-- ===== src/Domain.antt =====
-- The data that the service packages share: internal/service/issue/types.go, the parts of
-- internal/runtime/config/types.go that orchestration reads, and the live projection of
-- internal/runtime/observability/snapshot.go. A time is the number of nanoseconds since the zero
-- time of package time, so `IsZero` is a comparison with 0.
use symphony_go.Prelude.{ℕ, ℤ, Text, Map, Bool, Option, List}

pub record BlockerRef : Type 0 where
  pub id : Text
  pub identifier : Text
  pub state : Text

-- `blocked_by` is none for a nil slice: a refresh keeps the old blockers then.
pub record Issue : Type 0 where
  pub id : Text
  pub identifier : Text
  pub title : Text
  pub description : Text
  pub priority : Option ℤ
  pub state : Text
  pub branch_name : Text
  pub url : Text
  pub assignee_id : Text
  pub assigned_to_worker : Option Bool
  pub labels : List Text
  pub blocked_by : Option (List BlockerRef)
  pub created_at : Option ℕ
  pub updated_at : Option ℕ

pub record TrackerConfig : Type 0 where
  pub active_states : List Text
  pub terminal_states : List Text

pub record ReviewPolicyConfig : Type 0 where
  pub mode : Text
  pub allow_manual_ai_review : Bool

pub record AiReviewConfig : Type 0 where
  pub enabled : Bool
  pub auto_merge : Bool

pub record AgentConfig : Type 0 where
  pub max_concurrent_agents : ℤ
  pub max_turns : ℤ
  pub max_retry_backoff_ms : ℤ
  pub max_concurrent_agents_by_state : Map ℤ
  pub review_policy : ReviewPolicyConfig
  pub ai_review : AiReviewConfig

-- `stall_timeout_ms` is from CodexConfig, `interval_ms` from PollingConfig.
pub record Config : Type 0 where
  pub tracker : TrackerConfig
  pub agent : AgentConfig
  pub stall_timeout_ms : ℤ
  pub interval_ms : ℤ

pub record TokenUsage : Type 0 where
  pub input_tokens : ℤ
  pub output_tokens : ℤ
  pub total_tokens : ℤ

pub record RunningEntry : Type 0 where
  pub issue_id : Text
  pub issue_identifier : Text
  pub state : Text
  pub agent_phase : Text
  pub stage : Text
  pub workspace_path : Text
  pub attempt : ℕ
  pub session_id : Text
  pub thread_id : Text
  pub turn_id : Text
  pub pid : ℤ
  pub turn_count : ℕ
  pub last_event : Text
  pub last_message : Text
  pub started_at : ℕ
  pub last_event_at : ℕ
  pub tokens : TokenUsage

pub record RetryEntry : Type 0 where
  pub issue_id : Text
  pub issue_identifier : Text
  pub attempt : ℕ
  pub due_at : ℕ
  pub error : Text

-- `nanos_running` is SecondsRunning.
pub record CodexTotals : Type 0 where
  pub input_tokens : ℤ
  pub output_tokens : ℤ
  pub total_tokens : ℤ
  pub nanos_running : ℕ
