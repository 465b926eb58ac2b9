-- ===== src/Utils/Requests.antt =====
-- shared/utils.py: the logger, the responses, and the parts of a request.
pub mod Outcomes
use Prim.Native.String.{◌++◌ as ◌<>◌}
use pay_ledger.Prelude.{
  ℕ, String, Option, none, some, List, [], ◌∷◌, Bool, true, false, ◌==◌, if◌then◌else◌,
}
use pay_ledger.Prelude.Int.{ℤ}
use pay_ledger.Errors.{ApiError, bad_request, status_code}
use pay_ledger.Domain.{Body}
use pay_ledger.Store.Key.{concat}
use pay_ledger.Program.{Prog, pure, raise, ◌>>=◌, or_raise, api_error, value_error}
use pay_ledger.Runtime.{or_else, get_or}
use pay_ledger.Utils.{error_body}
use pay_ledger.Utils.Decimals.{Unknown, Encoded, json_default}

-- What `json.loads` gives.
mutual
  pub data Json : Type 0 where
    null : Json
    boolean : Bool → Json
    integer : ℤ → Json
    float : String → Json
    text : String → Json
    array : Elements → Json
    object : Members → Json

  pub data Elements : Type 0 where
    empty_array : Elements
    element : Json → Elements → Elements

  pub data Members : Type 0 where
    empty_object : Members
    member : String → Json → Members → Members

pub data Loaded : Type 0 where
  loaded : Json → Loaded
  decode_error : String → Loaded

-- The functions of Python's library that utils.py calls. Bytes are numbers.
pub record Library : Type 0 where
  pub upper : String → String
  pub strip : String → String
  pub b64decode : String → Option (List ℕ)
  pub decode_utf8 : List ℕ → Option String
  pub loads : String → Loaded

pub record Http : Type 0 where
  pub method : Option String

pub record RequestContext : Type 0 where
  pub http : Option Http

-- An event of the payload format 2.0: a key may be missing.
pub record HttpEvent : Type 0 where
  pub request_context : Option RequestContext
  pub route_key : Option String
  pub raw_path : Option String
  pub body : Option String
  pub is_base64_encoded : Option Bool
  pub path_parameters : Option (List (String × String))

pub record HttpResponse : Type 0 where
  pub status_code : ℤ
  pub headers : List (String × String)
  pub body : String
  pub is_base64_encoded : Bool

pub record Logger : Type 0 where
  pub name : String
  pub level : ℕ

-- The names of levels that `setLevel` knows.
unfoldable pub level_of : String → Option ℕ
level_of level =
    if level == "CRITICAL"
    then some 50
    else if level == "FATAL"
    then some 50
    else if level == "ERROR"
    then some 40
    else if level == "WARN"
    then some 30
    else if level == "WARNING"
    then some 30
    else if level == "INFO"
    then some 20
    else if level == "DEBUG"
    then some 10
    else if level == "NOTSET"
    then some 0
    else none

abbrev pub bad : {A : Type 0} → String → Prog A
bad message = raise (api_error (record { error_class = bad_request; message = message }))

-- `dumps` is `json.dumps`: given a function for the values that it does not know.
module _ {A : Type 0} (dumps : (Unknown → Encoded) → A → Prog String) where
  unfoldable pub json_response : ℤ → A → Prog HttpResponse
  json_response status_code body = do
    dumped ← dumps json_default body
    pure (record {
      status_code = status_code;
      headers = ("content-type", "application/json") ∷ [];
      body = dumped;
      is_base64_encoded = false;
    })

unfoldable pub error_response :
    ((Unknown → Encoded) → Body → Prog String) → ApiError → Prog HttpResponse
error_response dumps error = json_response dumps (status_code error.error_class) (error_body error)

abbrev pub method_of : Option RequestContext → String
method_of none = ""
method_of (some context) = elim context.http as (λ _. String) [
  | none ↦ ""
  | some http ↦ get_or http.method ""
]

-- `event.get("pathParameters") or {}`, at a name
abbrev pub parameter : Option (List (String × String)) → String → Option String
parameter none name = none
parameter (some []) name = none
parameter (some ((n, value) ∷ rest)) name =
    let later = parameter (some rest) name in if n == name then some value else later

unfoldable pub path_parameter : HttpEvent → String → Prog String
path_parameter event name =
    or_else (parameter event.path_parameters name) pure
      (bad (concat ("path parameter '" ∷ name ∷ "' is required" ∷ [])))

-- `payload.get(name)`
abbrev pub payload_get : Members → String → Option Json
payload_get empty_object name = none
payload_get (member n value rest) name =
    let later = payload_get rest name in if n == name then some value else later

abbrev pub text_or_none : Option Json → Option String
text_or_none (some (text value)) = some value
text_or_none _ = none

unfoldable pub required_str : Members → String → Prog String
required_str payload name =
    or_else (text_or_none (payload_get payload name)) pure
      (bad (concat ("'" ∷ name ∷ "' is required and must be a non-empty string" ∷ [])))

abbrev pub object_or_bad : Loaded → Prog Members
object_or_bad (loaded (object members)) = pure members
object_or_bad (loaded _) = bad "request body must be a JSON object"
object_or_bad (decode_error exc) = bad ("request body is not valid JSON: " <> exc)

module _ (lib : Library) where
  unfoldable pub get_logger : (String → Option String) → String → Prog Logger
  get_logger environ name = do
    number ← or_raise (level_of (lib.upper (get_or (environ "LOG_LEVEL") "INFO"))) value_error
    pure (record { name = name; level = number })

  abbrev pub or_derived : Option String → String → String
  or_derived declared derived =
      or_else declared (λ route. if route == "$default" then derived else route) derived

  unfoldable pub route_key : HttpEvent → String
  route_key event =
      or_derived event.route_key
        (lib.strip (method_of event.request_context <> " " <> get_or event.raw_path ""))

  -- `base64.b64decode(raw).decode("utf-8")`
  abbrev pub decoded : Option (List ℕ) → Option String
  decoded none = none
  decoded (some bytes) = lib.decode_utf8 bytes

  -- The text that is parsed: both exceptions of decoding are a ValueError.
  abbrev pub body_text : Option Bool → String → Option String
  body_text (some true) raw = decoded (lib.b64decode raw)
  body_text _ raw = some raw

  unfoldable pub parse_json_body : HttpEvent → Prog Members
  parse_json_body event = do
    raw ← or_else event.body pure (bad "request body is required")
    content ← or_raise (body_text event.is_base64_encoded raw) value_error
    object_or_bad (lib.loads content)
