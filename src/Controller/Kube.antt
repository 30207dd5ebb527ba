-- ===== src/Controller/Kube.antt =====
-- What the reconcilers call and do not implement: the API server behind the cached client and the
-- uncached APIReader, the clock, and helpers of apimachinery and controller-runtime.
-- The server answers a call from the calls before it, so its answers may be stale, may fail, and may
-- reflect what other clients did. An action takes the history of calls, the latest first, and gives
-- its outcome and the history after it.
pub mod Writes
use kontext.Prelude.{
  ℕ, zero, suc, ◌%◌, ◌-◌, ◌≡◌, refl, Bool, true, false, List, [], ◌∷◌, Option, none, some, Text, ℤ,
  pos, negsuc, ◌⊎◌, inl, inr,
}
use kontext.Api.{
  Time, Duration, Condition, ObjectMeta, OwnerReference, Agent, AgentStatus, AgentRun,
  AgentRunStatus, wrap64,
}
use kontext.RunFactory.Resolve.{SetControllerReference}
use kontext.Schedule.Policies.{CronLibrary}
use kontext.Schedule.Metadata.{TimeCodec}
use kontext.PodBuilder.Core.{Pod}

pub data CreateReply : Type 0 where
  created already_exists create_failed : CreateReply

pub data GetReply (A : Type 0) : Type 0 where
  found : A → GetReply A
  not_found get_failed : GetReply A

pub data DeleteReply : Type 0 where
  deleted already_gone delete_failed : DeleteReply

pub record Secret : Type 0 where
  pub meta : ObjectMeta
  pub immutable : Bool
  pub type : Text
  pub data_entries : List (Text × Text)

-- An HTTP request with its deadline, and its response; a body that cannot be read is `none`.
pub record HttpRequest : Type 0 where
  pub url : Text
  pub host : Text
  pub headers : List (Text × Text)
  pub body : Text
  pub deadline : Time

pub record HttpResponse : Type 0 where
  pub status_code : ℕ
  pub headers : List (Text × Text)
  pub body : Option Text

pub data PostReply : Type 0 where
  response : HttpResponse → PostReply
  no_response : PostReply

-- What the AgentRun reconciler asks for beyond reading. A patch goes from the run as it was read to a
-- status, and is answered by the run after it.
pub data RunCall : Type 0 where
  create_pod : Pod → CreateReply → RunCall
  delete_pod : Pod → DeleteReply → RunCall
  create_secret : Secret → CreateReply → RunCall
  patch_run : AgentRun → AgentRunStatus → Option AgentRun → RunCall
  post : HttpRequest → PostReply → RunCall

-- A call with what matters of its answer.
pub data Event : Type 0 where
  read_clock : Time → Event
  listed : Text → Text → Event
  create : AgentRun → CreateReply → Event
  get_live : Text → Text → Event
  delete : AgentRun → DeleteReply → Event
  patch_agent : Agent → AgentStatus → Bool → Event
  read_random : Event
  get_cached : Text → Text → Event
  call : RunCall → Event

abbrev pub History : Type 0
History = List Event

pub record Environment : Type 0 where
  -- Clock.Now.
  pub now : History → Time
  -- List by namespace and controlling owner's UID, from the cache; `none` is an error.
  pub list_owned : History → Text → Text → Option (List AgentRun)
  pub create_run : History → AgentRun → CreateReply
  -- Get by namespace and name, not from the cache.
  pub get_run : History → Text → Text → GetReply AgentRun
  pub delete_run : History → AgentRun → DeleteReply
  -- Status().Patch with a merge patch from the object as it was read; false is an error.
  pub patch_agent_status : History → Agent → AgentStatus → Bool
  -- Whether APIReader is set.
  pub has_api_reader : Bool
  -- metav1.IsControlledBy and controllerutil.SetControllerReference.
  pub is_controlled_by : ObjectMeta → Agent → Bool
  pub set_controller_reference : SetControllerReference
  -- meta.SetStatusCondition.
  pub set_status_condition : List Condition → Condition → List Condition
  pub cron : CronLibrary
  pub codec : TimeCodec
  -- The first eight hexadecimal digits of the SHA-256 of a string.
  pub hash8 : Text → Text

pub data ControllerError : Type 0 where
  api_error no_uid no_api_reader reference_failed suffix_exhausted counter_exhausted too_many_runs
        name_collision prune_failed no_random bad_credential :
      ControllerError

pub data Outcome (A : Type 0) : Type 0 where
  done : A → Outcome A
  failed : ControllerError → Outcome A
  -- The source's loop did not end within the fuel.
  stuck : Outcome A

abbrev pub Action : Type 0 → Type 0
Action A = History → Outcome A × History

unfoldable pub pure : {A : Type 0} → A → Action A
pure a h = (done a, h)

unfoldable pub spin : {A : Type 0} → Action A
spin h = (stuck, h)

unfoldable pub raise : {A : Type 0} → ControllerError → Action A
raise e h = (failed e, h)

-- What an action goes on with; an error ends it where it is.
abbrev pub carry_on : {A B : Type 0} → (A → Action B) → Outcome A → Action B
carry_on f (done a) h = f a h
carry_on f (failed e) h = (failed e, h)
carry_on f stuck h = (stuck, h)

infixl 5 ◌>>=◌ ◌>>◌
unfoldable pub ◌>>=◌ : {A B : Type 0} → Action A → (A → Action B) → Action B
◌>>=◌ m f h = carry_on f (m h).0 (m h).1

abbrev pub ◌>>◌ : {B : Type 0} → Action (Unit {0}) → Action B → Action B
m >> k = m >>= λ _. k

-- ctrl.Result.
pub record Requeue : Type 0 where
  pub requeue : Bool
  pub requeue_after : Duration

abbrev pub no_requeue : Requeue
no_requeue = record { requeue = false; requeue_after = pos 0 }

abbrev pub requeue_now : Requeue
requeue_now = record { requeue = true; requeue_after = pos 0 }

abbrev pub requeue_in : Duration → Requeue
requeue_in d = record { requeue = false; requeue_after = d }

-- An int64 in two's complement, from an integer.
unfoldable pub wrap_int : ℤ → Duration
unfolding wrap64
wrap_int (pos n) = wrap64 n
wrap_int (negsuc n) = wrap64 (18446744073709551615 - n % 18446744073709551616)

abbrev pub outcome_of : {A : Type 0} → Option A → Outcome A
outcome_of none = failed api_error
outcome_of (some a) = done a

abbrev pub unit_or_error : Bool → Outcome (Unit {0})
unit_or_error true = done tt
unit_or_error false = failed api_error

module _ (env : Environment) where
  unfoldable pub clock : Action Time
  clock h = let t = env.now h in (done t, read_clock t ∷ h)

  unfoldable pub list_runs : Text → Text → Action (List AgentRun)
  list_runs ns uid h = (outcome_of (env.list_owned h ns uid), listed ns uid ∷ h)

  unfoldable pub create_run : AgentRun → Action CreateReply
  create_run run h = let r = env.create_run h run in (done r, create run r ∷ h)

  unfoldable pub get_run : Text → Text → Action (GetReply AgentRun)
  get_run ns name h = (done (env.get_run h ns name), get_live ns name ∷ h)

  unfoldable pub delete_run : AgentRun → Action DeleteReply
  delete_run run h = let r = env.delete_run h run in (done r, delete run r ∷ h)

  unfoldable pub patch_agent_status : Agent → AgentStatus → Action (Unit {0})
  patch_agent_status agent next h =
      let ok = env.patch_agent_status h agent next in
      (unit_or_error ok, patch_agent agent next ok ∷ h)

-- An action that succeeds did so at each of its steps.
module _ {A B : Type 0} where
  done-carry_on :
      (o : Outcome A) (f : A → Action B) (h : History) (b : B)
      → (carry_on f o h).0 ≡ done b
      → (a : A) × (o ≡ done a) × ((f a h).0 ≡ done b)
  done-carry_on (done a) f h b e = (a, refl, e)
  done-carry_on (failed x) f h b e = absurd (cc e)
  done-carry_on stuck f h b e = absurd (cc e)

  pub done-bind :
      (m : Action A) (f : A → Action B) (h : History) (b : B)
      → ((m >>= f) h).0 ≡ done b
      → (a : A) × ((m h).0 ≡ done a) × ((f a (m h).1).0 ≡ done b)
  unfolding ◌>>=◌
  done-bind m f h b e = done-carry_on (m h).0 f (m h).1 b e
