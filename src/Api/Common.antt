-- ===== src/Api/Common.antt =====
-- The events of API Gateway, and the exception handlers that the two HTTP services register.
use pay_ledger.Prelude.{String, Option, some, List, [], ◌∷◌, map}
use pay_ledger.Prelude.Int.{pos}
use pay_ledger.Store.Item.{str}
use pay_ledger.Errors.{ApiError, ErrorClass, status_code}
use pay_ledger.Store.Key.{concat}
use pay_ledger.Domain.{ErrorDetails, Response}
use pay_ledger.Program.{
  Prog, pure, raise, catch, Exception, api_error, validation_error, value_error,
}
use pay_ledger.Runtime.{or_else, Validated, valid, not_valid, malformed}
use pay_ledger.Utils.{error_body}

-- `sub` is the validated claim of the caller's token.
pub record Event : Type 0 where
  pub body : String
  pub sub : String
  pub idempotency_key : Option String

-- `Model.model_validate(event.json_body)`
abbrev pub validated : {A : Type 0} → Validated A → Prog A
validated (valid a) = pure a
validated (not_valid errors) = raise (validation_error errors)
validated malformed = raise value_error

abbrev pub api : {A : Type 0} → ErrorClass → String → Prog A
api c message = raise (api_error (record { error_class = c; message = message }))

-- `separator.join(texts)`
abbrev pub join : String → List String → String
join separator [] = ""
join separator (text ∷ []) = text
join separator (text ∷ next ∷ texts) =
    concat (text ∷ separator ∷ join separator (next ∷ texts) ∷ [])

-- `f"{'.'.join(str(loc) for loc in err['loc']) or 'body'}: {err['msg']}"`
abbrev pub error_text : ErrorDetails → String
error_text err =
    concat (or_else (some (join "." err.loc)) (λ loc. loc) "body" ∷ ": " ∷ err.msg ∷ [])

unfoldable pub handle_validation_error : List ErrorDetails → Response
handle_validation_error errors = record {
  status_code = pos 400;
  body =
      ("error", str "InvalidRequest") ∷ ("message", str (join "; " (map error_text errors))) ∷ [];
}

unfoldable pub handle_api_error : ApiError → Response
unfolding status_code error_body
handle_api_error e = record { status_code = status_code e.error_class; body = error_body e }

-- Any other exception leaves the resolver.
abbrev pub to_response : Exception → Prog Response
to_response (validation_error errors) = pure (handle_validation_error errors)
to_response (api_error e) = pure (handle_api_error e)
to_response e = raise e

-- `app.resolve`, at the route of the event.
unfoldable pub resolve : Prog Response → Prog Response
unfolding handle_validation_error handle_api_error
resolve route = catch route to_response
