-- ===== src/DeliveryContract.antt =====
-- pkg/delivery/v1alpha1/types.go: the request that delivers a goal to a Service, and the signature of its
-- response. encoding/json, base64 and HMAC-SHA-256 are parameters. `Binding` is about the signature.
pub mod Binding
pub mod Tests
use kontext.Prelude.{
  ℕ, Bool, true, false, not, ◌&&◌, ◌||◌, List, [], ◌∷◌, ◌++◌, Option, none, some, Text, text, ◌==◌,
  nat_eq, list_eq, if◌then◌else◌,
}
use kontext.Api.{Message, plain, sprintf}

abbrev pub delivery_api_version : Text
delivery_api_version = text "kontext.dev/delivery/v1alpha1"

abbrev pub endpoint_path : Text
endpoint_path = text "/kontext.dev/v1alpha1/agent-runs"

abbrev pub challenge_header : Text
challenge_header = text "Kontext-Delivery-Challenge"

abbrev pub signature_header : Text
signature_header = text "Kontext-Delivery-Signature"

-- resultv1alpha1.MaxTerminationMessageBytes.
abbrev pub max_response_bytes : ℕ
max_response_bytes = 4096

pub record RunIdentity : Type 0 where
  pub name : Text
  pub namespace : Text
  pub uid : Text

pub record PodIdentity : Type 0 where
  pub name : Text
  pub uid : Text

pub record Request : Type 0 where
  pub api_version : Text
  pub run : RunIdentity
  pub target : PodIdentity
  pub goal : Text

-- json.Marshal of a request; and Decode of the first value of a text, with unknown fields refused, with
-- what is left of the text.
pub record RequestJson : Type 0 where
  pub write : Request → Text
  pub read : Text → Option (Request × Text)

-- base64.RawURLEncoding, and HMAC-SHA-256 by key and data.
pub record Crypto : Type 0 where
  pub encode_base64 : Text → Text
  pub decode_base64 : Text → Option Text
  pub hmac_sha256 : Text → Text → Text

abbrev unless_empty : Text → Text → Option Message → Option Message
unless_empty value message rest = if value == [] then some (plain message) else rest

-- Request.Validate; `none` is nil.
unfoldable pub validate : Request → Option Message
validate request =
    if not (request.api_version == delivery_api_version)
    then some (sprintf (text "unsupported delivery apiVersion %q") (request.api_version ∷ []))
    else unless_empty request.run.name (text "delivery run name is required") (
        unless_empty request.run.namespace (text "delivery run namespace is required") (
          unless_empty request.run.uid (text "delivery run uid is required") (
            unless_empty request.target.name (text "delivery target pod name is required") (
              unless_empty request.target.uid (text "delivery target pod uid is required")
                (unless_empty request.goal (text "delivery goal is required") none)))))

-- Whitespace of JSON.
abbrev is_json_space : ℕ → Bool
is_json_space c = c == 32 || c == 9 || c == 10 || c == 13

-- Whether Decode finds no further value and no other character: io.EOF.
unfoldable pub at_end : Text → Bool
at_end [] = true
at_end (c ∷ s) = is_json_space c && at_end s

abbrev pub valid_only : Request → Option Message → Option Request
valid_only request none = some request
valid_only request (some m) = none

abbrev pub alone : Option (Request × Text) → Option Request
alone none = none
alone (some (request, rest)) =
    if not (at_end rest) then none else valid_only request (validate request)

-- Parse; `none` is any error.
unfoldable pub parse : RequestJson → Text → Option Request
parse json data_bytes = alone (json.read data_bytes)

-- What is signed: the parts, with a zero byte behind each but the last.
unfoldable pub signed_bytes : Text → Text → Text → Text
signed_bytes challenge run_uid body =
    delivery_api_version ++ 0 ∷ (challenge ++ 0 ∷ (run_uid ++ 0 ∷ body))

module _ (crypto : Crypto) where
  unfoldable pub response_mac : Text → Text → Text → Text → Text
  response_mac token challenge run_uid body =
      crypto.hmac_sha256 token (signed_bytes challenge run_uid body)

  unfoldable pub response_signature : Text → Text → Text → Text → Text
  response_signature token challenge run_uid body =
      crypto.encode_base64 (response_mac token challenge run_uid body)

  abbrev pub equals : Text → Option Text → Bool
  equals mac none = false
  equals mac (some decoded) = decoded == mac

  unfoldable pub verify_response_signature : Text → Text → Text → Text → Text → Bool
  verify_response_signature token challenge run_uid body signature =
      equals (response_mac token challenge run_uid body) (crypto.decode_base64 signature)
