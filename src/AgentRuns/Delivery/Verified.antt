-- ===== src/AgentRuns/Delivery/Verified.antt =====
-- What is known of a resolved target and of a delivery.
use kontext.Prelude.{
  ℕ, ◌≡◌, ◌≤◌, refl, inl, inr, Bool, true, false, ◌||◌, not, [], Option, none, some, Text, text,
  ltb, length, take, ◌+◌, is_some, ◌==◌, nat_eq, list_eq, option_eq, Bool-cases, arith,
  if◌then◌else◌,
}
use kontext.AgentRuns.PodBacked.{is_running}
use kontext.Api.{ObjectMeta, Time, Message, Agent, AgentRef, AgentRun}
use kontext.Result.{Envelope, parse_versioned}
use kontext.DeliveryContract.{signature_header, max_response_bytes, verify_response_signature}
use kontext.PodBuilder.Core.{Pod}
use kontext.Controller.Kube.{
  GetReply, found, not_found, get_failed, HttpResponse, PostReply, response, no_response, RunCall,
  History,
}
use kontext.AgentRuns.Cluster.{RunEnvironment}
use kontext.AgentRuns.Calls.{
  Anything, Ensures, Ensures-bind, Ensures-get_live_agent, Ensures-get_live_pod,
  Ensures-get_live_run, Ensures-if, Ensures-post, Ensures-pure, Ensures-raise,
  Ensures-try_random_token,
}
use kontext.AgentRuns.Credential.{Loaded, credential, no_secret, invalid_credential}
use kontext.AgentRuns.Secrets.{IsTokenOf, IsLoaded, load_delivery_credential-Ensures}
use kontext.AgentRuns.Delivery.Target.{
  Resolution, Target, agent_reply, by_ref, confirm_delivery_target, confirmed, delivery_pod_ready,
  is_service, is_unready, misconfigured, pod_reply, resolve_delivery_target, resolved, run_port,
  runtime_port, same_port, same_target, standing_reply, unavailable, with_credential,
}
use kontext.AgentRuns.Delivery.Send.{
  Delivery, deliver, delivered, endpoint, header, http_request, json_type, of_body, of_envelope,
  of_reply, read_response, refused, with_challenge,
}

from_false : (b : Bool) → not b ≡ false → b ≡ true
from_false true h = refl
from_false false h = absurd (cc h)

neither : (a b : Bool) → a || b ≡ false → (a ≡ false) × (b ≡ false)
neither true b h = absurd (cc h)
neither false b h = (refl, h)

not_longer : (m n : ℕ) → ltb m n ≡ false → n ≤ m
not_longer m n h = ground arith

module _ (env : RunEnvironment) where
  -- The running run, without a delivery of its own, of a Service Agent that controls both it and the run
  -- with some metadata.
  pub record IsStanding (meta : ObjectMeta) (standing : AgentRun) : Type 0 where
    pub agent : Agent
    pub service : is_service agent.spec.mode ≡ true
    pub owns_run : env.is_controlled_by_agent meta agent ≡ true
    pub owns_standing : env.is_controlled_by_agent standing.meta agent ≡ true
    pub undelivered : is_some standing.spec.delivery ≡ false
    pub running : is_running standing.status.phase ≡ true

  -- A target to which the run with some metadata may go: a ready Pod, controlled by the standing run of
  -- its Service, with the token of that run's delivery Secret.
  pub record IsTarget (meta : ObjectMeta) (t : Target) : Type 0 where
    pub ready : delivery_pod_ready t.pod ≡ true
    pub standing : AgentRun
    pub stands : IsStanding meta standing
    pub owned : env.is_controlled_by_run t.pod.meta standing ≡ true
    pub token : IsTokenOf env standing t.credential

  abbrev pub IsReady : ObjectMeta → Resolution → Type 0
  IsReady meta (resolved t) = IsTarget meta t
  IsReady meta _ = Unit

  -- A confirmed target is also the expected one.
  abbrev pub IsConfirmed : ObjectMeta → Target → Resolution → Type 0
  IsConfirmed meta expected (resolved t) = IsTarget meta t × (same_target t expected ≡ true)
  IsConfirmed meta expected _ = Unit

  -- A body with which a Pod answered the request that delivers a run under a random challenge.
  pub record IsAnswer (uid : Text) (pod : Pod) (challenge : Text) (reply : HttpResponse)
      (body : Text) : Type 0 where
    pub run : AgentRun
    pub delivers : run.uid ≡ uid
    pub drawn_at : History
    pub drawn : env.random_token drawn_at ≡ some challenge
    pub deadline : Time
    pub asked_at : History
    pub answered : env.post asked_at (http_request env run pod challenge deadline) ≡ response reply
    pub whole : Text
    pub read : reply.body ≡ some whole
    pub cut : body ≡ take (max_response_bytes + 1) whole

  -- An envelope that the target sent in answer to this run, in a body of bounded size, signed with its
  -- credential for this run and the challenge of the request.
  pub record IsVerified (uid : Text) (target : Target) (e : Envelope) : Type 0 where
    pub challenge : Text
    pub reply : HttpResponse
    pub body : Text
    pub answer : IsAnswer uid target.pod challenge reply body
    pub small : length body ≤ max_response_bytes
    pub accepted : (reply.status_code == 200) ≡ true
    pub signed :
        verify_response_signature env.crypto target.credential challenge uid body
          (header signature_header reply)
        ≡ true
    pub parsed : parse_versioned env.json body ≡ some e

  abbrev pub Genuine : Text → Target → Delivery → Type 0
  Genuine uid target (delivered e) = IsVerified uid target e
  Genuine uid target _ = Unit

  of_envelope-Genuine :
      (uid : Text) (target : Target) (o : Option Envelope)
      → ((e : Envelope) → o ≡ some e → IsVerified uid target e)
      → Genuine uid target (of_envelope o)
  of_envelope-Genuine uid target none f = tt
  of_envelope-Genuine uid target (some e) f = f e refl

  Genuine-if :
      (uid : Text) (target : Target) (b : Bool) (m : Message) (d : Delivery)
      → (b ≡ false → Genuine uid target d)
      → Genuine uid target (if b then refused m else d)
  Genuine-if uid target true m d f = tt
  Genuine-if uid target false m d f = f refl

  read_response-Genuine :
      (run : AgentRun) (target : Target) (challenge : Text) (r : HttpResponse) (body : Text)
      → IsAnswer run.uid target.pod challenge r body
      → Genuine run.uid target (read_response env run target challenge r body)
  unfolding read_response
  read_response-Genuine run target challenge r body answer =
      let verifies =
        verify_response_signature env.crypto target.credential challenge run.uid body
          (header signature_header r) in
      Genuine-if run.uid target (ltb max_response_bytes (length body)) _ _ λ small.
        Genuine-if run.uid target (not (r.status_code == 200)) _ _ λ ok.
          Genuine-if run.uid target (not verifies) _ _ λ signed.
            Genuine-if run.uid target
              (not (env.media_type (header (text "Content-Type") r) == some json_type)) _ _
              λ typed. of_envelope-Genuine run.uid target _ λ e parsed. record {
                challenge = challenge;
                reply = r;
                body = body;
                answer = answer;
                small = not_longer _ _ small;
                accepted = from_false _ ok;
                signed = from_false _ signed;
                parsed = parsed;
              }

  of_reply-Genuine :
      (run : AgentRun) (target : Target) (challenge : Text) (deadline : Time) (r : PostReply)
      (drawn_at asked_at : History)
      → env.random_token drawn_at ≡ some challenge
      → env.post asked_at (http_request env run target.pod challenge deadline) ≡ r
      → Genuine run.uid target (of_reply env run target challenge r)
  of_reply-Genuine run target challenge deadline no_response h k drawn answered = tt
  of_reply-Genuine run target challenge deadline (response r) h k drawn answered =
      of_read r.body refl
    where
      of_read :
          (o : Option Text)
          → r.body ≡ o
          → Genuine run.uid target (of_body env run target challenge r o)
      of_read none e = tt
      of_read (some whole) e = read_response-Genuine run target challenge r _ (record {
        run = run;
        delivers = refl;
        drawn_at = h;
        drawn = drawn;
        deadline = deadline;
        asked_at = k;
        answered = answered;
        whole = whole;
        read = e;
        cut = refl;
      })

  confirmed-IsConfirmed :
      (meta : ObjectMeta) (expected : Target) (r : Resolution)
      → IsReady meta r
      → IsConfirmed meta expected (confirmed expected r)
  unfolding confirmed
  confirmed-IsConfirmed meta expected (unavailable reason m) h = tt
  confirmed-IsConfirmed meta expected (misconfigured m) h = tt
  confirmed-IsConfirmed meta expected (resolved t) h = elim (Bool-cases (same_target t expected)) [
    | inl b ↦ rw b (h, b)
    | inr b ↦ rw b tt
  ]

  module _ (P : RunCall → Type 0) where
    -- Each POST that is allowed for a target and a challenge.
    pub deliver-Genuine :
        (run : AgentRun) (target : Target) (deadline : Time)
        → ((challenge : Text) (r : PostReply)
            → P (RunCall.post (http_request env run target.pod challenge deadline) r))
        → Ensures P (deliver env run target deadline) (Genuine run.uid target)
    unfolding deliver
    deliver-Genuine run target deadline p =
        Ensures-bind P _ _ _ _ (Ensures-try_random_token P env) λ o (h, e). of_challenge o h e
      where
        of_challenge :
            (o : Option Text) (h : History)
            → env.random_token h ≡ o
            → Ensures P (with_challenge env run target deadline o) (Genuine run.uid target)
        of_challenge none h e = Ensures-pure P _ _ tt
        of_challenge (some challenge) h e =
            Ensures-if P _ (not (env.is_url (endpoint target.pod run))) _ _
              (λ b. Ensures-pure P _ _ tt)
              (λ b.
                Ensures-bind P _ _ _ _ (Ensures-post P env _ (λ r. p challenge r)) λ reply (k, a).
                  Ensures-pure P _ _ (of_reply-Genuine run target challenge deadline reply h k e a))

    with_credential-IsReady :
        (meta : ObjectMeta) (pod : Pod) (standing : AgentRun) (l : Loaded)
        → IsStanding meta standing
        → delivery_pod_ready pod ≡ true
        → env.is_controlled_by_run pod.meta standing ≡ true
        → IsLoaded env standing l
        → Ensures P (with_credential env pod l) (IsReady meta)
    with_credential-IsReady meta pod standing (credential token) stands ready owned loaded' =
        Ensures-pure P _ _ (record {
          ready = ready;
          standing = standing;
          stands = stands;
          owned = owned;
          token = loaded';
        })
    with_credential-IsReady meta pod standing no_secret stands ready owned loaded' =
        Ensures-pure P _ _ tt
    with_credential-IsReady meta pod standing invalid_credential stands ready owned loaded' =
        Ensures-pure P _ _ tt

    pod_reply-IsReady :
        (meta : ObjectMeta) (standing : AgentRun) (r : GetReply Pod)
        → IsStanding meta standing
        → Ensures P (pod_reply env standing r) (IsReady meta)
    pod_reply-IsReady meta standing get_failed stands = Ensures-raise P _ _
    pod_reply-IsReady meta standing not_found stands = Ensures-pure P _ _ tt
    pod_reply-IsReady meta standing (found pod) stands =
        Ensures-if P _
          (not (env.is_controlled_by_run pod.meta standing) || not (delivery_pod_ready pod)) _ _
          (λ b. Ensures-pure P _ _ tt)
          (λ b.
            let (owned, ready) = neither _ _ b in
            Ensures-bind P _ _ _ _ (load_delivery_credential-Ensures P env standing) λ l loaded'.
              with_credential-IsReady meta pod standing l stands (from_false _ ready)
                (from_false _ owned) loaded')

    standing_reply-IsReady :
        (run : AgentRun) (agent : Agent) (r : GetReply AgentRun)
        → is_service agent.spec.mode ≡ true
        → env.is_controlled_by_agent run.meta agent ≡ true
        → Ensures P (standing_reply env run agent r) (IsReady run.meta)
    standing_reply-IsReady run agent get_failed service owns = Ensures-raise P _ _
    standing_reply-IsReady run agent not_found service owns = Ensures-pure P _ _ tt
    standing_reply-IsReady run agent (found standing) service owns =
        Ensures-if P _ (is_unready env agent standing) _ _ (λ b. Ensures-pure P _ _ tt)
          (λ b.
            let (first, named) = neither _ (standing.status.pod_name == []) b in
            let (second, running) = neither _ (not (is_running standing.status.phase)) first in
            let (controlled, undelivered) =
              neither (not (env.is_controlled_by_agent standing.meta agent))
                (is_some standing.spec.delivery) second in
            let stands : IsStanding run.meta standing = record {
              agent = agent;
              service = service;
              owns_run = owns;
              owns_standing = from_false _ controlled;
              undelivered = undelivered;
              running = from_false _ running;
            } in
            Ensures-if P _
              (not (
                same_port (runtime_port standing.spec.runtime.delivery)
                  (run_port run.spec.delivery)))
              _ _ (λ c. Ensures-pure P _ _ tt)
              (λ c.
                Ensures-bind P Anything _ _ _ (Ensures-get_live_pod P env _ _)
                  λ r _. pod_reply-IsReady run.meta standing r stands))

    agent_reply-IsReady :
        (run : AgentRun) (name : Text) (r : GetReply Agent)
        → Ensures P (agent_reply env run name r) (IsReady run.meta)
    agent_reply-IsReady run name get_failed = Ensures-raise P _ _
    agent_reply-IsReady run name not_found = Ensures-pure P _ _ tt
    agent_reply-IsReady run name (found agent) =
        Ensures-if P _
          (not (is_service agent.spec.mode) || not (env.is_controlled_by_agent run.meta agent)) _ _
          (λ b. Ensures-pure P _ _ tt)
          (λ b.
            let (service, owns) = neither _ _ b in
            Ensures-if P _ (agent.status.current_run_name == []) _ _ (λ c. Ensures-pure P _ _ tt)
              (λ c. Ensures-bind P Anything _ _ _ (Ensures-get_live_run P env _ _) λ r _.
                standing_reply-IsReady run agent r (from_false _ service) (from_false _ owns)))

    by_ref-IsReady :
        (run : AgentRun) (o : Option AgentRef) → Ensures P (by_ref env run o) (IsReady run.meta)
    by_ref-IsReady run none = Ensures-pure P _ _ tt
    by_ref-IsReady run (some ref) =
        Ensures-if P _ (ref.name == []) _ _ (λ b. Ensures-pure P _ _ tt)
          (λ b.
            Ensures-bind P Anything _ _ _ (Ensures-get_live_agent P env _ _)
              λ r _. agent_reply-IsReady run ref.name r)

    -- Resolving only reads, and what it finds is ready.
    pub resolve-IsReady :
        (run : AgentRun) → Ensures P (resolve_delivery_target env run) (IsReady run.meta)
    unfolding resolve_delivery_target
    resolve-IsReady run =
        Ensures-if P _ (not env.has_api_reader) _ _ (λ b. Ensures-raise P _ _)
          (λ b. by_ref-IsReady run run.spec.agent_ref)

    pub confirm-IsConfirmed :
        (run : AgentRun) (expected : Target)
        → Ensures P (confirm_delivery_target env run expected) (IsConfirmed run.meta expected)
    unfolding confirm_delivery_target
    confirm-IsConfirmed run expected =
        Ensures-bind P (IsReady run.meta) _ _ _ (resolve-IsReady run)
          λ r h. Ensures-pure P _ _ (confirmed-IsConfirmed run.meta expected r h)
