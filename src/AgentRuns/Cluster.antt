-- ===== src/AgentRuns/Cluster.antt =====
-- What the AgentRun reconciler calls and does not implement: the API server behind the cached client and
-- the uncached APIReader, the clock, randomness, HTTP, and libraries.
use kontext.Prelude.{ℕ, Bool, ◌∷◌, Option, none, some, Text}
use kontext.Api.{Time, Duration, ObjectMeta, OwnerReference, Agent, AgentRun, AgentRunStatus}
use kontext.Result.{Json}
use kontext.DeliveryContract.{RequestJson, Crypto}
use kontext.PodBuilder.Core.{Pod}
use kontext.Controller.Kube.{
  CreateReply, GetReply, DeleteReply, Secret, HttpRequest, PostReply, RunCall, read_clock,
  read_random, get_cached, get_live, call, History, ControllerError, api_error, no_random, Outcome,
  done, failed, Action,
}
use kontext.Controller.Status.{SetStatusCondition}

pub record RunEnvironment : Type 0 where
  -- Clock.Now.
  pub now : History → Time
  -- Get by namespace and name, from the cache.
  pub cached_run : History → Text → Text → GetReply AgentRun
  pub cached_pod : History → Text → Text → GetReply Pod
  -- Get by namespace and name, not from the cache.
  pub live_run : History → Text → Text → GetReply AgentRun
  pub live_pod : History → Text → Text → GetReply Pod
  pub live_agent : History → Text → Text → GetReply Agent
  pub live_secret : History → Text → Text → GetReply Secret
  pub create_pod : History → Pod → CreateReply
  pub delete_pod : History → Pod → DeleteReply
  pub create_secret : History → Secret → CreateReply
  -- Status().Patch with a merge patch from the run as it was read: the run as the server has it
  -- afterwards, or an error.
  pub patch_run_status : History → AgentRun → AgentRunStatus → Option AgentRun
  -- HTTPDoer.Do.
  pub post : History → HttpRequest → PostReply
  -- 32 random bytes in unpadded URL base64; `none` is an error of crypto/rand.
  pub random_token : History → Option Text
  -- Whether APIReader is set.
  pub has_api_reader : Bool
  -- metav1.IsControlledBy and controllerutil.SetControllerReference.
  pub is_controlled_by_run : ObjectMeta → AgentRun → Bool
  pub is_controlled_by_agent : ObjectMeta → Agent → Bool
  pub set_controller_reference : AgentRun → ObjectMeta → Option OwnerReference
  pub set_status_condition : SetStatusCondition
  pub json : Json
  pub request_json : RequestJson
  -- Whether http.NewRequest accepts a URL.
  pub is_url : Text → Bool
  -- mime.ParseMediaType, without the parameters.
  pub media_type : Text → Option Text
  pub crypto : Crypto
  -- time.ParseDuration and Duration.String; printing a float64 with %g.
  pub parse_duration : Text → Option Duration
  pub show_duration : Duration → Text
  pub show_float : ℕ → Text
  -- The first eight and sixteen hexadecimal digits of the SHA-256 of a string.
  pub hash8 : Text → Text
  pub hash16 : Text → Text
  pub reporter_image : Text

abbrev pub or_error : {A : Type 0} → ControllerError → Option A → Outcome A
or_error e none = failed e
or_error e (some a) = done a

module _ (env : RunEnvironment) where
  unfoldable pub now : Action Time
  now h = let t = env.now h in (done t, read_clock t ∷ h)

  unfoldable pub get_cached_run : Text → Text → Action (GetReply AgentRun)
  get_cached_run ns name h = (done (env.cached_run h ns name), get_cached ns name ∷ h)

  unfoldable pub get_cached_pod : Text → Text → Action (GetReply Pod)
  get_cached_pod ns name h = (done (env.cached_pod h ns name), get_cached ns name ∷ h)

  unfoldable pub get_live_run : Text → Text → Action (GetReply AgentRun)
  get_live_run ns name h = (done (env.live_run h ns name), get_live ns name ∷ h)

  unfoldable pub get_live_pod : Text → Text → Action (GetReply Pod)
  get_live_pod ns name h = (done (env.live_pod h ns name), get_live ns name ∷ h)

  unfoldable pub get_live_agent : Text → Text → Action (GetReply Agent)
  get_live_agent ns name h = (done (env.live_agent h ns name), get_live ns name ∷ h)

  unfoldable pub get_live_secret : Text → Text → Action (GetReply Secret)
  get_live_secret ns name h = (done (env.live_secret h ns name), get_live ns name ∷ h)

  unfoldable pub random_token : Action Text
  random_token h = (or_error no_random (env.random_token h), read_random ∷ h)

  unfoldable pub try_random_token : Action (Option Text)
  try_random_token h = (done (env.random_token h), read_random ∷ h)

  unfoldable pub create_pod : Pod → Action CreateReply
  create_pod pod h = let r = env.create_pod h pod in (done r, call (RunCall.create_pod pod r) ∷ h)

  unfoldable pub delete_pod : Pod → Action DeleteReply
  delete_pod pod h = let r = env.delete_pod h pod in (done r, call (RunCall.delete_pod pod r) ∷ h)

  unfoldable pub create_secret : Secret → Action CreateReply
  create_secret secret h =
      let r = env.create_secret h secret in (done r, call (RunCall.create_secret secret r) ∷ h)

  -- patchStatus of status.go: the run that is left in memory.
  unfoldable pub patch_status : AgentRun → AgentRunStatus → Action AgentRun
  patch_status run next h =
      let r = env.patch_run_status h run next in
      (or_error api_error r, call (RunCall.patch_run run next r) ∷ h)

  unfoldable pub post : HttpRequest → Action PostReply
  post request h = let r = env.post h request in (done r, call (RunCall.post request r) ∷ h)
