-- ===== src/Api/Functions.antt =====
-- The functions with no HTTP route: src/lambdas/create_account/handler.py, which Cognito calls
-- after a sign-up, and src/lambdas/expired_hold_sweeper/handler.py, which a schedule calls.
use pay_ledger.Prelude.{ℕ, zero, suc, ◌*◌, ◌-◌, String, if◌then◌else◌, eqb}
use pay_ledger.Prelude.Int.{pos}
use pay_ledger.Domain.{Account}
use pay_ledger.Program.{
  Prog, pure, raise, call, ◌>>=◌, catch, sleep, Exception, connection_error, account_already_exists,
}
use pay_ledger.Runtime.{Runtime}
use pay_ledger.Ledger.Accounts.{insert_account}
use pay_ledger.Ledger.Sweep.{get_expired_holds, update_expired_holds}

abbrev pub insert_account_max_attempts : ℕ
insert_account_max_attempts = 3

-- In milliseconds.
abbrev pub insert_account_retry_backoff : ℕ
insert_account_retry_backoff = 200

-- `except BotoConnectionError`, at an attempt: the last one raises again.
unfoldable pub unreachable_at : ℕ → Prog (Unit {0}) → Exception → Prog (Unit {0})
unreachable_at attempt next connection_error =
    if eqb attempt insert_account_max_attempts
    then raise connection_error
    else call (sleep (insert_account_retry_backoff * attempt)) λ _. next
unreachable_at attempt next e = raise e

-- The loop of `_insert_account_with_retry`, by the attempts left.
unfoldable pub insert_account_attempts : Account → ℕ → Prog (Unit {0})
unfolding unreachable_at
insert_account_attempts account zero = pure tt
insert_account_attempts account (suc left) =
    catch (insert_account account)
      (unreachable_at (insert_account_max_attempts - left) (insert_account_attempts account left))

unfoldable pub insert_account_with_retry : Account → Prog (Unit {0})
unfolding insert_account_attempts
insert_account_with_retry account = insert_account_attempts account insert_account_max_attempts

unfoldable pub account_exists : Exception → Prog (Unit {0})
account_exists account_already_exists = pure tt
account_exists e = raise e

-- `lambda_handler` of create_account, at the `sub` of the event, which it returns.
unfoldable pub create_account : String → Prog (Unit {0})
unfolding account_exists
create_account sub =
    catch
      (insert_account_with_retry
        (record { account_id = sub; current_balance = pos 0; available_balance = pos 0 }))
      account_exists

-- `lambda_handler` of expired_hold_sweeper: the count of the response.
unfoldable pub sweep : Runtime → ℕ → Prog ℕ
sweep rt fuel = do expired_holds ← get_expired_holds rt fuel; update_expired_holds rt expired_holds
