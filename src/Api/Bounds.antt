-- ===== src/Api/Bounds.antt =====
-- How long a sign-up waits, and how often it tries.
use pay_ledger.Prelude.{ℕ, ◌+◌, ◌*◌, ◌≤◌, String, arith, eqb, Bool, true, false, if◌then◌else◌}
use pay_ledger.Domain.{Account}
use pay_ledger.Program.{
  Request, sleep, Reply, reply, lost, Prog, raise, call, ◌>>=◌, received, connection_error,
  account_already_exists, Exception, PutOutcome, stored, check_failed,
}
use pay_ledger.Program.Service.{DynamoDb}
use pay_ledger.Program.Cost.{waited, puts, spent, Within, spent-Within, Within-catch}
use pay_ledger.Ledger.Accounts.{insert_account}
use pay_ledger.Ledger.Merchants.{or_exists}
use pay_ledger.Api.Functions.{
  create_account, insert_account_with_retry, insert_account_attempts, unreachable_at,
  account_exists, insert_account_max_attempts, insert_account_retry_backoff,
}

module _ (cost : Request → ℕ) where
  or_exists-Within : (n : ℕ) (o : PutOutcome) → Within cost n (or_exists account_already_exists o)
  or_exists-Within n stored = tt
  or_exists-Within n check_failed = tt

  put_answer-Within :
      (n : ℕ) (x : Reply PutOutcome)
      → Within cost n (received x >>= or_exists account_already_exists)
  put_answer-Within n (reply o) = or_exists-Within n o
  put_answer-Within n (lost f) = tt

  unreachable_at-Within :
      (attempt n : ℕ) (next : Prog (Unit {0})) (e : Exception)
      → Within cost n next
      → Within cost
          (cost (sleep (insert_account_retry_backoff * attempt)) + n)
          (unreachable_at attempt next e)
  unfolding unreachable_at
  unreachable_at-Within attempt n next connection_error w =
      pause (eqb attempt insert_account_max_attempts)
    where
      pause :
          (last : Bool)
          → Within cost (cost (sleep (insert_account_retry_backoff * attempt)) + n) (
              if last
              then raise connection_error
              else call (sleep (insert_account_retry_backoff * attempt)) λ _. next)
      pause true = tt
      pause false = (n, omega arith, λ _. w)
  unreachable_at-Within attempt n next _ w = tt

  account_exists-Within : (e : Exception) → Within cost 0 (account_exists e)
  unfolding account_exists
  account_exists-Within account_already_exists = tt
  account_exists-Within _ = tt

  last-Within :
      (next : Prog (Unit {0})) (e : Exception)
      → Within cost 0 (unreachable_at insert_account_max_attempts next e)
  unfolding unreachable_at
  last-Within next connection_error = tt
  last-Within next _ = tt

  -- The three attempts, where each puts at the price `put`.
  attempts-Within :
      (put : ℕ) (account : Account)
      → Within cost put (insert_account account)
      → Within cost
          (put + (cost (sleep 200) + (put + (cost (sleep 400) + (put + 0)))))
          (insert_account_with_retry account)
  unfolding insert_account_with_retry insert_account_attempts
  attempts-Within put account w = Within-catch cost put _ (insert_account account) _ w λ e.
      unreachable_at-Within 1 _ _ e (
        Within-catch cost put _ (insert_account account) _ w λ e'. unreachable_at-Within 2 _ _ e' (
          Within-catch cost put 0 (insert_account account) _ w
            (λ e''. last-Within (insert_account_attempts account 0) e'')))

  pub create_account-Within :
      (put : ℕ) (sub : String)
      → ((account : Account) → Within cost put (insert_account account))
      → Within cost
          (put + (cost (sleep 200) + (put + (cost (sleep 400) + (put + 0)))) + 0)
          (create_account sub)
  unfolding create_account
  create_account-Within put sub w =
      Within-catch cost _ 0 (insert_account_with_retry _) account_exists
        (attempts-Within put _ (w _)) account_exists-Within

insert_account-waited : (account : Account) → Within waited 0 (insert_account account)
unfolding insert_account
insert_account-waited account = (0, omega arith, put_answer-Within waited 0)

insert_account-puts : (account : Account) → Within puts 1 (insert_account account)
unfolding insert_account
insert_account-puts account = (0, omega arith, put_answer-Within puts 0)

-- `create_account` sleeps at most 600 milliseconds in all, and puts at most three times, whatever
-- the service answers.
pub create_account-bounds :
    (d : DynamoDb) (s : d.State) (sub : String)
    → (spent waited d (create_account sub) s ≤ 600) × (spent puts d (create_account sub) s ≤ 3)
create_account-bounds d s sub = (
  spent-Within waited d 600 (create_account sub) s
      (create_account-Within waited 0 sub insert_account-waited),
  spent-Within puts d 3 (create_account sub) s
      (create_account-Within puts 1 sub insert_account-puts),
)
