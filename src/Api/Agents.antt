-- ===== src/Api/Agents.antt =====
-- api/v1alpha1/agent_types.go.
use kontext.Prelude.{ℕ, Bool, List, Option, Text, ℤ}
use kontext.Api.Meta.{Time, Condition, ObjectMeta}

-- A string type; `other` is any string without a constant.
pub data AgentMode : Type 0 where
  task service scheduled : AgentMode
  other : Text → AgentMode

-- The empty string takes the default, `forbid`.
pub data ConcurrencyPolicy : Type 0 where
  unset allow forbid : ConcurrencyPolicy
  other : Text → ConcurrencyPolicy

pub data ResultSource : Type 0 where
  stdout : ResultSource
  other : Text → ResultSource

pub data ResultFormat : Type 0 where
  last_line kontext_envelope : ResultFormat
  other : Text → ResultFormat

pub record ScheduleSpec : Type 0 where
  pub expression : Text
  pub time_zone : Text
  pub concurrency_policy : ConcurrencyPolicy
  pub starting_deadline_seconds : Option ℤ
  pub suspend : Bool
  pub successful_runs_history_limit : Option ℤ
  pub failed_runs_history_limit : Option ℤ

pub record RuntimeDeliverySpec : Type 0 where
  pub port : ℤ

pub record RuntimeCapabilities : Type 0 where
  pub drop : List Text

pub record RuntimeSeccompProfile : Type 0 where
  pub type : Text
  pub localhost_profile : Text

pub record RuntimeSecurityContext : Type 0 where
  pub allow_privilege_escalation : Option Bool
  pub read_only_root_filesystem : Option Bool
  pub run_as_non_root : Option Bool
  pub capabilities : Option RuntimeCapabilities
  pub seccomp_profile : Option RuntimeSeccompProfile

pub record RuntimeResultSpec : Type 0 where
  pub source : ResultSource
  pub format : ResultFormat

pub record RuntimeSpec : Type 0 where
  pub image : Text
  pub command : Option (List Text)
  pub args : Option (List Text)
  pub result : Option RuntimeResultSpec
  pub delivery : Option RuntimeDeliverySpec
  pub security_context : Option RuntimeSecurityContext

-- `dollars` is the 64 bits of a float64.
pub record BudgetSpec : Type 0 where
  pub tokens : Option ℤ
  pub wallclock : Text
  pub dollars : Option ℕ

pub record SecretRef : Type 0 where
  pub name : Text

pub record ConfigMapRef : Type 0 where
  pub name : Text

pub record SecretKeySelector : Type 0 where
  pub name : Text
  pub key : Text

pub record EnvVarSource : Type 0 where
  pub secret_key_ref : SecretKeySelector

pub record EnvVar : Type 0 where
  pub name : Text
  pub value : Option Text
  pub value_from : Option EnvVarSource

pub record BackoffSpec : Type 0 where
  pub initial_seconds : ℤ
  pub max_seconds : ℤ

pub record AgentSpec : Type 0 where
  pub mode : AgentMode
  pub runtime : RuntimeSpec
  pub goal : Text
  pub goal_template : Text
  pub provider : Text
  pub model : Text
  pub tools : Option (List Text)
  pub budget : Option BudgetSpec
  pub secret_ref : Option SecretRef
  pub knowledge_config_map_ref : Option ConfigMapRef
  pub service_account_name : Text
  pub env : Option (List EnvVar)
  pub schedule : Option ScheduleSpec
  pub backoff : Option BackoffSpec

pub record AgentStatus : Type 0 where
  pub conditions : List Condition
  pub current_run_name : Text
  pub last_run_name : Text
  pub runs_created : ℕ
  pub restarts : ℕ
  pub last_schedule_time : Option Time
  pub next_schedule_time : Option Time
  pub observed_generation : ℕ

pub record Agent : Type 0 where
  pub meta : ObjectMeta
  pub open meta use {name, namespace, uid, generation}
  pub spec : AgentSpec
  pub status : AgentStatus
