-- ===== src/RunFactory/Errors.antt =====
-- internal/runfactory/runfactory.go: ResolutionError.
use kontext.Prelude.{
  ◌≡◌, refl, ◌⊎◌, inl, inr, List, [], ◌∷◌, ◌++◌, Text, text, join, list_eq, nat_eq,
}
use kontext.Api.{AgentMode, task, service, scheduled, Message, plain, sprintf}

pub data ResolutionErrorCode : Type 0 where
  missing_agent wrong_mode delivery_disabled invalid_delivery reserved_name invalid_template
        missing_parameters unused_parameters conflicting_fields :
      ResolutionErrorCode

-- A field that the source leaves out has its zero value.
pub record ResolutionError : Type 0 where
  pub code : ResolutionErrorCode
  pub agent_name : Text
  pub mode : AgentMode
  pub names : List Text
  pub detail : Message

abbrev pub error_of : ResolutionErrorCode → ResolutionError
error_of c = record {
  code = c;
  agent_name = [];
  mode = AgentMode.other [];
  names = [];
  detail = plain [];
}

pub data Result {ℓ} (A : Type ℓ) : Type ℓ where
  ok : A → Result A
  err : ResolutionError → Result A

infixl 5 ◌>>=◌
abbrev pub ◌>>=◌ {ℓ κ} : {A : Type ℓ} {B : Type κ} → Result A → (A → Result B) → Result B
ok a >>= f = f a
err e >>= f = err e

-- To split on a computed result and keep the equation.
pub Result-cases {ℓ} :
    {A : Type ℓ} (m : Result A) → ((e : ResolutionError) × (m ≡ err e)) ⊎ ((a : A) × (m ≡ ok a))
Result-cases (ok a) = inr (a, refl)
Result-cases (err e) = inl (e, refl)

abbrev code_text : ResolutionErrorCode → Text
code_text missing_agent = text "MissingAgent"
code_text wrong_mode = text "WrongMode"
code_text delivery_disabled = text "DeliveryDisabled"
code_text invalid_delivery = text "InvalidDelivery"
code_text reserved_name = text "ReservedName"
code_text invalid_template = text "InvalidTemplate"
code_text missing_parameters = text "MissingParameters"
code_text unused_parameters = text "UnusedParameters"
code_text conflicting_fields = text "ConflictingFields"

abbrev pub mode_text : AgentMode → Text
mode_text task = text "Task"
mode_text service = text "Service"
mode_text scheduled = text "Scheduled"
mode_text (AgentMode.other t) = t

abbrev comma : List Text → Text
comma = join (text ", ")

-- A detail that is formatted in its turn: its format and arguments stand behind the outer ones.
abbrev with_detail : Text → Message → Message
with_detail code m = sprintf (text "AgentRun resolution failed [%s]: " ++ m.format) (code ∷ m.args)

abbrev unused : Text → List Text → Message
unused c [] =
    sprintf (text "AgentRun resolution failed [%s]: static goals do not accept parameters") (c ∷ [])
unused c (n ∷ ns) =
    sprintf (text "AgentRun resolution failed [%s]: unused parameters: %s")
      (c ∷ comma (n ∷ ns) ∷ [])

abbrev message_for : ResolutionErrorCode → Text → ResolutionError → Message
message_for missing_agent c e =
    sprintf (text "AgentRun resolution failed [%s]: Agent %q was not found") (c ∷ e.agent_name ∷ [])
message_for wrong_mode c e =
    sprintf (text "AgentRun resolution failed [%s]: Agent %q has unsupported mode %q")
      (c ∷ e.agent_name ∷ mode_text e.mode ∷ [])
message_for delivery_disabled c e =
    sprintf
      (text "AgentRun resolution failed [%s]: Service Agent %q does not declare runtime.delivery")
      (c ∷ e.agent_name ∷ [])
message_for invalid_delivery c e = with_detail c e.detail
message_for reserved_name c e = with_detail c e.detail
message_for invalid_template c e = with_detail c e.detail
message_for missing_parameters c e =
    sprintf (text "AgentRun resolution failed [%s]: missing parameters: %s")
      (c ∷ comma e.names ∷ [])
message_for unused_parameters c e = unused c e.names
message_for conflicting_fields c e =
    sprintf (text "AgentRun resolution failed [%s]: invocation supplies locked fields: %s")
      (c ∷ comma e.names ∷ [])

-- ResolutionError.Error.
pub error_message : ResolutionError → Message
error_message e = message_for e.code (code_text e.code) e
