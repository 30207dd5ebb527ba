-- ===== src/Api/Runs.antt =====
-- api/v1alpha1/agentrun_types.go.
use kontext.Prelude.{ℕ, Bool, true, false, List, Option, Text, ℤ}
use kontext.Api.Meta.{Time, Message, Condition, TypeMeta, ObjectMeta}
use kontext.Api.Agents.{RuntimeSpec, BudgetSpec, SecretRef, ConfigMapRef, EnvVar}

-- The CRD's enumeration, and the empty string of a run with no status yet.
pub data AgentRunPhase : Type 0 where
  unset pending running succeeded failed budget_exceeded : AgentRunPhase

-- AgentRunPhase.IsTerminal.
abbrev pub is_terminal : AgentRunPhase → Bool
is_terminal succeeded = true
is_terminal failed = true
is_terminal budget_exceeded = true
is_terminal _ = false

pub record AgentRef : Type 0 where
  pub name : Text

pub record AgentRunDeliverySpec : Type 0 where
  pub port : ℤ

pub record AgentRunSpec : Type 0 where
  pub agent_ref : Option AgentRef
  pub parameters : Option (List (Text × Text))
  pub delivery : Option AgentRunDeliverySpec
  pub goal : Text
  pub provider : Text
  pub model : Text
  pub tools : Option (List Text)
  pub budget : Option BudgetSpec
  pub secret_ref : Option SecretRef
  pub knowledge_config_map_ref : Option ConfigMapRef
  pub service_account_name : Text
  pub runtime : RuntimeSpec
  pub env : Option (List EnvVar)

-- `value` is the raw JSON.
pub record OutputStatus : Type 0 where
  pub media_type : Text
  pub value : Text

-- `dollars` is the 64 bits of a float64.
pub record UsageStatus : Type 0 where
  pub tokens : Option ℤ
  pub input_tokens : Option ℤ
  pub output_tokens : Option ℤ
  pub dollars : Option ℕ

pub record AgentRunStatus : Type 0 where
  pub phase : AgentRunPhase
  pub pod_name : Text
  pub result : Text
  pub output : Option OutputStatus
  pub usage : Option UsageStatus
  pub start_time : Option Time
  pub completion_time : Option Time
  pub message : Message
  pub conditions : List Condition

pub record AgentRun : Type 0 where
  pub type_meta : TypeMeta
  pub meta : ObjectMeta
  pub open meta use {name, namespace, uid, generation, creation_timestamp, annotations}
  pub spec : AgentRunSpec
  pub status : AgentRunStatus
