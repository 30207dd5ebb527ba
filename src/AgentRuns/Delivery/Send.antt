-- ===== src/AgentRuns/Delivery/Send.antt =====
-- internal/controller/agentrun_delivery.go: deliver. Of an error only the text is kept.
use kontext.Prelude.{
  ◌+◌, Bool, false, ◌||◌, not, [], ◌∷◌, ◌++◌, Option, none, some, Text, text, ltb, length, take,
  ◌==◌, nat_eq, list_eq, option_eq, show_nat, show_int, map_get, if◌then◌else◌,
}
use kontext.Api.{Time, AgentRunDeliverySpec, Message, plain, sprintf, AgentRun}
use kontext.Result.{Envelope, parse_versioned}
use kontext.DeliveryContract.{
  delivery_api_version, endpoint_path, challenge_header, signature_header, max_response_bytes,
  Request, verify_response_signature,
}
use kontext.PodBuilder.Core.{Pod}
use kontext.Controller.Kube.{
  HttpRequest, HttpResponse, PostReply, response, no_response, Action, pure, ◌>>=◌,
}
use kontext.AgentRuns.Cluster.{RunEnvironment, try_random_token, post}
use kontext.AgentRuns.Delivery.Target.{Target}

-- What deliver returns: an envelope, or an error that may be tried again or not.
pub data Delivery : Type 0 where
  delivered : Envelope → Delivery
  retryable : Message → Delivery
  refused : Message → Delivery

abbrev pub json_type : Text
json_type = text "application/json"

abbrev pub has_colon : Text → Bool
has_colon [] = false
has_colon (c ∷ s) = c == b':' || has_colon s

-- net.JoinHostPort; an address has no zone.
unfoldable pub join_host_port : Text → Text → Text
join_host_port host port =
    if has_colon host then text "[" ++ host ++ text "]:" ++ port else host ++ text ":" ++ port

abbrev pub port_text : Option AgentRunDeliverySpec → Text
port_text none = []
port_text (some d) = show_int d.port

unfoldable pub endpoint : Pod → AgentRun → Text
endpoint pod run =
    text "http://" ++ join_host_port pod.pod_ip (port_text run.spec.delivery) ++ endpoint_path

unfoldable pub delivery_request : AgentRun → Pod → Request
delivery_request run pod = record {
  api_version = delivery_api_version;
  run = record { name = run.name; namespace = run.namespace; uid = run.uid };
  target = record { name = pod.name; uid = pod.uid };
  goal = run.spec.goal;
}

abbrev pub value_of : Option Text → Text
value_of none = []
value_of (some t) = t

abbrev pub header : Text → HttpResponse → Text
header name r = value_of (map_get name r.headers)

abbrev pub of_envelope : Option Envelope → Delivery
of_envelope none = refused (plain (text "Service delivery response is invalid: %v."))
of_envelope (some e) = delivered e

module _ (env : RunEnvironment) where
  unfoldable pub http_request : AgentRun → Pod → Text → Time → HttpRequest
  http_request run pod challenge deadline = record {
    url = endpoint pod run;
    host = pod.name;
    headers =
        (text "Content-Type", json_type)
        ∷ (text "Accept", json_type)
        ∷ (challenge_header, challenge)
        ∷ [];
    body = env.request_json.write (delivery_request run pod);
    deadline = deadline;
  }

  -- The checks of a body that was read, in the order of the source.
  unfoldable pub read_response : AgentRun → Target → Text → HttpResponse → Text → Delivery
  read_response run target challenge r body =
      if ltb max_response_bytes (length body)
      then refused (
          sprintf (text "Service delivery response exceeded %d bytes.")
            (show_nat max_response_bytes ∷ []))
      else if not (r.status_code == 200)
      then refused
          (sprintf (text "Service delivery returned HTTP %d.") (show_nat r.status_code ∷ []))
      else if not (
          verify_response_signature env.crypto target.credential challenge run.uid body
            (header signature_header r))
      then refused (plain (text "Service delivery response authentication failed."))
      else if not (env.media_type (header (text "Content-Type") r) == some json_type)
      then refused (plain (text "Service delivery response Content-Type must be application/json."))
      else of_envelope (parse_versioned env.json body)

  abbrev pub of_body : AgentRun → Target → Text → HttpResponse → Option Text → Delivery
  of_body run target challenge r none =
      retryable (plain (text "read Service delivery response: %w"))
  of_body run target challenge r (some body) =
      read_response run target challenge r (take (max_response_bytes + 1) body)

  abbrev pub of_reply : AgentRun → Target → Text → PostReply → Delivery
  of_reply run target challenge no_response = retryable (plain (text "%w"))
  of_reply run target challenge (response r) = of_body run target challenge r r.body

  abbrev pub with_challenge : AgentRun → Target → Time → Option Text → Action Delivery
  with_challenge run target deadline none =
      pure (refused (plain (text "generate Service delivery challenge: %w")))
  with_challenge run target deadline (some challenge) =
      if not (env.is_url (endpoint target.pod run))
      then pure (refused (plain (text "build Service delivery request: %w")))
      else post env (http_request run target.pod challenge deadline) >>= λ reply.
          pure (of_reply run target challenge reply)

  unfoldable pub deliver : AgentRun → Target → Time → Action Delivery
  deliver run target deadline = try_random_token env >>= with_challenge run target deadline
