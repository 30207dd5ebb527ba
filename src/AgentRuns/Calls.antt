-- ===== src/AgentRuns/Calls.antt =====
-- What an action asks of the cluster, and what is known of its result when it succeeds.
use kontext.Prelude.{
  ◌⊎◌, ◌≡◌, refl, Bool, true, false, List, [], ◌∷◌, Option, none, some, Text, if◌then◌else◌,
}
use kontext.Api.{AgentRun, AgentRunStatus}
use kontext.PodBuilder.Core.{Pod}
use kontext.Controller.Kube.{
  CreateReply, DeleteReply, Secret, HttpRequest, PostReply, RunCall, call, History, ControllerError,
  Outcome, done, failed, stuck, Action, pure, raise, carry_on, ◌>>=◌,
}
use kontext.AgentRuns.Cluster.{
  RunEnvironment, or_error, now, get_cached_run, get_cached_pod, get_live_run, get_live_pod,
  get_live_agent, get_live_secret, random_token, try_random_token, create_pod, delete_pod,
  create_secret, patch_status, post,
}

-- Every call beyond reading is a `P`.
unfoldable pub Calls : (RunCall → Type 0) → History → Type 0
Calls P [] = Unit
Calls P (call c ∷ h) = P c × Calls P h
Calls P (e ∷ h) = Calls P h

-- A call in a history.
unfoldable pub Requested : RunCall → History → Type 0
Requested c [] = ⊥
Requested c (call d ∷ h) = (c ≡ d) ⊎ Requested c h
Requested c (e ∷ h) = Requested c h

-- The calls of a history beyond reading, the latest first.
unfoldable pub calls_of : History → List RunCall
calls_of [] = []
calls_of (call c ∷ h) = c ∷ calls_of h
calls_of (e ∷ h) = calls_of h

abbrev Result : {A : Type 0} → (A → Type 0) → Outcome A → Type 0
Result Q (done a) = Q a
Result Q _ = Unit

-- Each call of the action is a `P`, whether it succeeds or not, and its result, if it has one, is a `Q`.
pub record Ensures {A : Type 0} (P : RunCall → Type 0) (m : Action A) (Q : A → Type 0)
    : Type 0 where
  pub calls : (h : History) → Calls P h → Calls P (m h).1
  pub result : (h : History) → Result Q (m h).0

abbrev pub Anything : {A : Type 0} → A → Type 0
Anything a = Unit

module _ {A : Type 0} (P : RunCall → Type 0) where
  pub Ensures-pure : (Q : A → Type 0) (a : A) → Q a → Ensures P (pure a) Q
  unfolding pure
  Ensures-pure Q a q = record { calls = λ h c. c; result = λ h. q }

  pub Ensures-raise : (Q : A → Type 0) (e : ControllerError) → Ensures P (raise {A = A} e) Q
  unfolding raise
  Ensures-raise Q e = record { calls = λ h c. c; result = λ h. tt }

  pub Ensures-if :
      (Q : A → Type 0) (b : Bool) (m n : Action A)
      → (b ≡ true → Ensures P m Q)
      → (b ≡ false → Ensures P n Q)
      → Ensures P (if b then m else n) Q
  Ensures-if Q true m n hm hn = hm refl
  Ensures-if Q false m n hm hn = hn refl

  Result-map : (Q R : A → Type 0) (o : Outcome A) → ((a : A) → Q a → R a) → Result Q o → Result R o
  Result-map Q R (done a) f q = f a q
  Result-map Q R (failed e) f q = tt
  Result-map Q R stuck f q = tt

  pub Ensures-weaken :
      (Q R : A → Type 0) (m : Action A) → ((a : A) → Q a → R a) → Ensures P m Q → Ensures P m R
  Ensures-weaken Q R m f e = record {
    calls = e.calls;
    result = λ h. Result-map Q R (m h).0 f (e.result h);
  }

module _ {A B : Type 0} (P : RunCall → Type 0) where
  carry_on-Calls :
      (Q : A → Type 0) (R : B → Type 0) (f : A → Action B) (o : Outcome A) (h : History)
      → Result Q o
      → ((a : A) → Q a → Ensures P (f a) R)
      → Calls P h
      → Calls P (carry_on f o h).1 × Result R (carry_on f o h).0
  carry_on-Calls Q R f (done a) h q e c = ((e a q).calls h c, (e a q).result h)
  carry_on-Calls Q R f (failed x) h q e c = (c, tt)
  carry_on-Calls Q R f stuck h q e c = (c, tt)

  carry_on-result :
      (Q : A → Type 0) (R : B → Type 0) (f : A → Action B) (o : Outcome A) (h : History)
      → Result Q o
      → ((a : A) → Q a → Ensures P (f a) R)
      → Result R (carry_on f o h).0
  carry_on-result Q R f (done a) h q e = (e a q).result h
  carry_on-result Q R f (failed x) h q e = tt
  carry_on-result Q R f stuck h q e = tt

  pub Ensures-bind :
      (Q : A → Type 0) (R : B → Type 0) (m : Action A) (f : A → Action B)
      → Ensures P m Q
      → ((a : A) → Q a → Ensures P (f a) R)
      → Ensures P (m >>= f) R
  unfolding ◌>>=◌
  Ensures-bind Q R m f em ef = record {
    calls = λ h c. (carry_on-Calls Q R f (m h).0 (m h).1 (em.result h) ef (em.calls h c)).0;
    result = λ h. carry_on-result Q R f (m h).0 (m h).1 (em.result h) ef;
  }

module _ (P : RunCall → Type 0) (env : RunEnvironment) where
  pub Ensures-now : Ensures P (now env) Anything
  unfolding now Calls
  Ensures-now = record { calls = λ h c. c; result = λ h. tt }

  pub Ensures-get_cached_run : (ns name : Text) → Ensures P (get_cached_run env ns name) Anything
  unfolding get_cached_run Calls
  Ensures-get_cached_run ns name = record { calls = λ h c. c; result = λ h. tt }

  pub Ensures-get_cached_pod : (ns name : Text) → Ensures P (get_cached_pod env ns name) Anything
  unfolding get_cached_pod Calls
  Ensures-get_cached_pod ns name = record { calls = λ h c. c; result = λ h. tt }

  pub Ensures-get_live_run : (ns name : Text) → Ensures P (get_live_run env ns name) Anything
  unfolding get_live_run Calls
  Ensures-get_live_run ns name = record { calls = λ h c. c; result = λ h. tt }

  pub Ensures-get_live_pod : (ns name : Text) → Ensures P (get_live_pod env ns name) Anything
  unfolding get_live_pod Calls
  Ensures-get_live_pod ns name = record { calls = λ h c. c; result = λ h. tt }

  pub Ensures-get_live_agent : (ns name : Text) → Ensures P (get_live_agent env ns name) Anything
  unfolding get_live_agent Calls
  Ensures-get_live_agent ns name = record { calls = λ h c. c; result = λ h. tt }

  -- What is read is what the server answered at some time.
  pub Ensures-get_live_secret :
      (ns name : Text)
      → Ensures P
          (get_live_secret env ns name)
          (λ r. (h : History) × (env.live_secret h ns name ≡ r))
  unfolding get_live_secret Calls
  Ensures-get_live_secret ns name = record { calls = λ h c. c; result = λ h. (h, refl) }

  Result-or_error :
      {A : Type 0} (e : ControllerError) (o : Option A) → Result Anything (or_error e o)
  Result-or_error e none = tt
  Result-or_error e (some a) = tt

  pub Ensures-random_token : Ensures P (random_token env) Anything
  unfolding random_token Calls
  Ensures-random_token = record {
    calls = λ h c. c;
    result = λ h. Result-or_error _ (env.random_token h);
  }

  pub Ensures-try_random_token :
      Ensures P (try_random_token env) (λ o. (h : History) × (env.random_token h ≡ o))
  unfolding try_random_token Calls
  Ensures-try_random_token = record { calls = λ h c. c; result = λ h. (h, refl) }

  pub Ensures-create_pod :
      (pod : Pod)
      → ((r : CreateReply) → P (RunCall.create_pod pod r))
      → Ensures P (create_pod env pod) Anything
  unfolding create_pod Calls
  Ensures-create_pod pod p = record { calls = λ h c. (p _, c); result = λ h. tt }

  pub Ensures-delete_pod :
      (pod : Pod)
      → ((r : DeleteReply) → P (RunCall.delete_pod pod r))
      → Ensures P (delete_pod env pod) Anything
  unfolding delete_pod Calls
  Ensures-delete_pod pod p = record { calls = λ h c. (p _, c); result = λ h. tt }

  pub Ensures-create_secret :
      (secret : Secret)
      → ((r : CreateReply) → P (RunCall.create_secret secret r))
      → Ensures P (create_secret env secret) Anything
  unfolding create_secret Calls
  Ensures-create_secret secret p = record { calls = λ h c. (p _, c); result = λ h. tt }

  pub Ensures-post :
      (request : HttpRequest)
      → ((r : PostReply) → P (RunCall.post request r))
      → Ensures P (post env request) (λ r. (h : History) × (env.post h request ≡ r))
  unfolding post Calls
  Ensures-post request p = record { calls = λ h c. (p _, c); result = λ h. (h, refl) }

  Result-patched :
      (Q : AgentRun → Type 0) (e : ControllerError) (o : Option AgentRun)
      → ((after : AgentRun) → o ≡ some after → Q after)
      → Result Q (or_error e o)
  Result-patched Q e none q = tt
  Result-patched Q e (some after) q = q after refl

  -- The run behind a patch is the server's answer.
  pub Ensures-patch_status :
      (Q : AgentRun → Type 0) (run : AgentRun) (next : AgentRunStatus)
      → ((r : Option AgentRun) → P (RunCall.patch_run run next r))
      → ((h : History) (after : AgentRun) → env.patch_run_status h run next ≡ some after → Q after)
      → Ensures P (patch_status env run next) Q
  unfolding patch_status Calls
  Ensures-patch_status Q run next p q = record {
    calls = λ h c. (p _, c);
    result = λ h. Result-patched Q _ (env.patch_run_status h run next) (q h);
  }
