-- ===== src/Api/Deposit.antt =====
-- src/lambdas/deposit_service/handler.py.
use pay_ledger.Prelude.{String, some, [], ◌∷◌}
use pay_ledger.Prelude.Int.{pos}
use pay_ledger.Store.Item.{num}
use pay_ledger.Store.Key.{concat}
use pay_ledger.Errors.{not_found}
use pay_ledger.Domain.{Account, Response}
use pay_ledger.Program.{Prog, raise, ◌>>=◌, catch, Exception, account_not_found}
use pay_ledger.Runtime.{Runtime}
use pay_ledger.Utils.{deposit_request}
use pay_ledger.Idempotency.{require_key, check_replay}
use pay_ledger.Ledger.Accounts.{deposit}
use pay_ledger.Api.Common.{Event, validated, api}
use pay_ledger.Api.Authorization.{or_proceed}

-- The local function `build_response`.
unfoldable pub build_response : Account → Response
build_response account = record {
  status_code = pos 201;
  body =
      ("current_balance", num account.current_balance)
      ∷ ("available_balance", num account.available_balance)
      ∷ [];
}

-- `except domain.AccountNotFound`
unfoldable pub deposit_failed : String → Exception → Prog Response
deposit_failed account_id account_not_found =
    api not_found (concat ("Account " ∷ account_id ∷ " not found" ∷ []))
deposit_failed account_id e = raise e

-- The route calls `deposit` with its default of five attempts.
unfoldable pub create_deposit : Runtime → Event → Prog Response
unfolding deposit_failed
create_deposit rt event = do
  request ← validated (rt.validate_deposit event.body)
  let account_id = event.sub
  idempotency_key ← require_key event.idempotency_key
  replay ← check_replay rt idempotency_key (some (deposit_request request))
  or_proceed replay (
      catch
        (deposit rt account_id request.amount idempotency_key (deposit_request request)
          build_response 5)
        (deposit_failed account_id))
