-- ===== src/Api/SignUp.antt =====
-- A sign-up that Cognito delivers again.
use pay_ledger.Prelude.{String, ◌≡◌, refl, ap, false, ◌+◌}
use pay_ledger.Program.Cost.{spent, puts}
use pay_ledger.Store.Key.{ledger_pk_name}
use pay_ledger.Store.Table.{lookup}
use pay_ledger.Store.Transact.{holds, attribute_not_exists}
use pay_ledger.Program.{
  Prog, ◌>>=◌, catch, received, put_item, Reply, reply, PutOutcome, check_failed,
  account_already_exists,
}
use pay_ledger.Program.Service
use pay_ledger.Program.Service.{DynamoDb, Documented, PutServed, Result, returned, run}
use pay_ledger.Ledger.Accounts.{account_key, account_item, insert_account}
use pay_ledger.Ledger.Merchants.{or_exists}
use pay_ledger.Api.Functions.{
  create_account, insert_account_with_retry, insert_account_attempts, unreachable_at,
  account_exists,
}

module _ (d : DynamoDb) (laws : Documented d) (s : d.State) (sub : String) where
  open d use {State, table, past, answer}

  refused_put :
      (x : Reply PutOutcome) (u : State) (next : Prog (Unit {0}))
      → x ≡ reply check_failed
      → table u ≡ table s
      → let rest =
          catch
            (catch (received x >>= or_exists account_already_exists) (unreachable_at 1 next))
            account_exists in
        ((run d rest u).0 ≡ returned tt)
        × (table (run d rest u).1 ≡ table s)
        × (spent puts d rest u ≡ 0)
  unfolding unreachable_at account_exists
  refused_put x u next e kept = rw e (refl, kept, refl)

  -- Where the account's row is there already, and the reply of the conditional put is not lost, the
  -- function ends well, the table is as it was, and the run has made one put.
  pub create_account-again :
      holds (attribute_not_exists ledger_pk_name) (lookup (account_key sub) (table s)) ≡ false
      → (outcome : PutOutcome)
      → (answer (put_item (account_item sub) (attribute_not_exists ledger_pk_name)) s).0
        ≡ reply outcome
      → ((run d (create_account sub) s).0 ≡ returned tt)
        × (table (run d (create_account sub) s).1 ≡ table s)
        × (spent puts d (create_account sub) s ≡ 1)
  unfolding create_account insert_account_with_retry insert_account_attempts insert_account
      unreachable_at account_exists
  create_account-again there outcome answered =
      after (laws.put_served (account_item sub) (attribute_not_exists ledger_pk_name) s)
    where
      after :
          PutServed
            (account_item sub)
            (attribute_not_exists ledger_pk_name)
            (table s)
            (table (answer (put_item (account_item sub) (attribute_not_exists ledger_pk_name)) s).1)
            (answer (put_item (account_item sub) (attribute_not_exists ledger_pk_name)) s).0
          → ((run d (create_account sub) s).0 ≡ returned tt)
            × (table (run d (create_account sub) s).1 ≡ table s)
            × (spent puts d (create_account sub) s ≡ 1)
      after (Service.PutServed.done h e a) = absurd (cc (h, there))
      after (Service.PutServed.refused h e a) =
          let (ends, kept, none_more) = refused_put _ _ _ a e in
          (ends, kept, ap (λ n. 1 + n) none_more)
      after (Service.PutServed.lost_before f e a) = absurd (cc (a, answered))
      after (Service.PutServed.lost_after f h e a) = absurd (cc (a, answered))
