-- ===== src/Tests/Resources.antt =====
-- The resources of a process with a small boto3, whose resources are numbered.
use pay_ledger.Prelude.{
  ℕ, suc, String, List, ◌≡◌, refl, Option, some, none, [], ◌∷◌, ◌==◌, if◌then◌else◌,
}
use pay_ledger.Dynamo.{
  Environ, target, ResourceArguments, Process, resource, get_table, get_dynamodb_resource,
}
use pay_ledger.Dynamo.Cached.{
  Call, table_call, resource_call, after_calls, get_table-IsMadeFor, IsMadeFor,
}

abbrev boto3_resource : ResourceArguments → ℕ → Option (ℕ × ResourceArguments) × ℕ
boto3_resource arguments n = (some (n, arguments), suc n)

abbrev in_lambda : Environ
in_lambda name = if name == "AWS_REGION" then some "eu-west-1" else none

abbrev in_tests : Environ
in_tests name = if name == "DYNAMODB_ENDPOINT_URL" then some "http://localhost:8000" else none

abbrev cold : Process ℕ (ℕ × ResourceArguments)
cold = record { resources = []; world = 0 }

abbrev first_resource : ℕ × ResourceArguments
first_resource = (0, record { target = target in_lambda; max_attempts = 5; mode = "standard" })

abbrev other_name : String
other_name = "other"

abbrev calls : List Call
calls = table_call in_tests "ledger" ∷ resource_call in_lambda ∷ []

get_table-IsMadeFor_example :
    IsMadeFor boto3_resource (target in_lambda) first_resource × (other_name ≡ other_name)
unfolding get_table resource target get_dynamodb_resource
get_table-IsMadeFor_example =
    get_table-IsMadeFor boto3_resource (table_call in_lambda "ledger" ∷ calls) 0 in_lambda "other"
      (record { resource = first_resource; name = "other" })
      (after_calls boto3_resource (table_call in_lambda "ledger" ∷ calls) cold) refl
