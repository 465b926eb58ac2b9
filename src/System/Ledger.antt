-- ===== src/System/Ledger.antt =====
-- The repository methods that write.
use pay_ledger.Prelude.{ℕ, zero, suc, String, Option, none, some, List, [], ◌∷◌}
use pay_ledger.Prelude.Int.{ℤ, pos, ◌≤ℤ◌}
use pay_ledger.Store.Key.{concat, has_prefix-authorization_sort_key}
use pay_ledger.Store.Table.{Table}
use pay_ledger.Store.Transact.{WriteItem, Code, Outcome, committed, cancelled}
use pay_ledger.Domain.{Account, Merchant, Authorization, Response}
use pay_ledger.Program.{
  Prog, pure, ◌>>=◌, ◌>>◌, catch, Reply, reply, lost, PutOutcome, stored, check_failed, fault_error,
  received, or_cancel, transact, transact_write_items, Exception, transaction_canceled,
}
use pay_ledger.Runtime.{Runtime}
use pay_ledger.Utils.{RequestModel}
use pay_ledger.Idempotency.{transact_item, resolve_conflict, check_failed_at}
use pay_ledger.Ledger.Merchants.{or_exists, insert_merchant}
use pay_ledger.Ledger.Accounts.{
  get_account, insert_account, replay_or_retry, deposit_canceled, deposit_attempt, deposited,
  or_next, deposit,
}
use pay_ledger.Ledger.Authorizations.{
  new_authorization, replay_or_raise, insert_canceled, insert_authorization,
}
use pay_ledger.Books.View.{IsSound, Evolves}
use pay_ledger.Books.Transactions.Deposit.{deposit-Advances}
use pay_ledger.Books.Transactions.Hold.{hold-Advances}
use pay_ledger.Books.Transactions.Open.{open-Advances, merchant-Advances}
use pay_ledger.System.Safe.{Safe, Anything, IsAllowed, Safe-bind, Safe-or_raise, Safe-if}
use pay_ledger.System.Reads.{resolve_conflict-Safe, get_account-Safe}

module _ {A : Type 0} (a : A) (h : Exception → Prog A) where
  -- A transaction under `try`, and its `except`.
  pub Safe-transact :
      (ws : List WriteItem) (t : Table)
      → ((u : Table) → Evolves t u → IsSound u → IsAllowed (transact_write_items ws) u)
      → ((u : Table) (e : Exception) → Safe Anything (h e) u)
      → Safe Anything (catch (transact ws >> pure a) h) t
  Safe-transact ws t allowed handled = (allowed, λ u x ev told. after u x)
    where
      after :
          (u : Table) (x : Reply Outcome)
          → Safe Anything (catch ((received x >>= or_cancel) >> pure a) h) u
      after u (reply committed) = tt
      after u (reply (cancelled codes)) = handled u (transaction_canceled codes)
      after u (lost f) = handled u (fault_error f)

or_exists-Safe :
    (e : Exception) (x : Reply PutOutcome) (t : Table)
    → Safe Anything (received x >>= or_exists e) t
or_exists-Safe e (reply stored) t = tt
or_exists-Safe e (reply check_failed) t = tt
or_exists-Safe e (lost f) t = tt

pub insert_account-Safe : (account : Account) (t : Table) → Safe Anything (insert_account account) t
unfolding insert_account
insert_account-Safe account t =
    (λ u ev s h. open-Advances u account.account_id s h, λ u x ev told. or_exists-Safe _ x u)

pub insert_merchant-Safe :
    (rt : Runtime) (m : Merchant) (t : Table) → Safe Anything (insert_merchant rt m) t
unfolding insert_merchant
insert_merchant-Safe rt m t = (
  λ u ev s. tt,
  λ u now ev told.
      (λ v ev' s h. merchant-Advances rt v m now s h, λ v x ev' told'. or_exists-Safe _ x v),
)

module _ (rt : Runtime) where
  insert_canceled-Safe :
      (key : String) (e : Exception) (t : Table) → Safe Anything (insert_canceled rt key e) t
  unfolding insert_canceled
  insert_canceled-Safe key (transaction_canceled codes) t =
      Safe-if Anything (check_failed_at 0 codes) _ _ t tt (
        Safe-bind Anything Anything (resolve_conflict rt key codes 2) (replay_or_raise rt codes) t
          (resolve_conflict-Safe rt key codes 2 t) (λ u o ev q. after o u))
    where
      after : (o : Option Response) (u : Table) → Safe Anything (replay_or_raise rt codes o) u
      after (some r) u = tt
      after none u = tt
  insert_canceled-Safe key _ t = tt

  pub insert_authorization-Safe :
      (account_id merchant_id : String) (amount : ℤ) (key : String) (request : RequestModel)
      (build : Authorization → Response) (t : Table)
      → pos 0 ≤ℤ amount
      → Safe Anything (insert_authorization rt account_id merchant_id amount key request build) t
  unfolding insert_authorization transact_item
  insert_authorization-Safe account_id merchant_id amount key request build t positive = (
    λ u ev s. tt,
    λ u now ev told. (
      λ u ev s. tt,
      λ u today ev told. (
        λ u ev s. tt,
        λ u hex ev told. (
          λ u ev s. tt,
          λ u at ev told.
              let id = concat ("authorization_" ∷ hex ∷ []) in
              let a = new_authorization rt account_id merchant_id amount now today id in
              Safe-transact (build a) (insert_canceled rt key) _ u
                (λ v ev' s rows p fresh.
                  hold-Advances rt v a (has_prefix-authorization_sort_key id (rt.isoformat now))
                    positive s key (some request) (build a) at rows p fresh)
                (λ v e. insert_canceled-Safe key e v),
        ),
      ),
    ),
  )

  replay_or_retry-Safe :
      (codes : List Code) (o : Option Response) (t : Table)
      → Safe Anything (replay_or_retry rt codes o) t
  replay_or_retry-Safe codes (some r) t = tt
  replay_or_retry-Safe codes none t = Safe-if Anything (check_failed_at 0 codes) _ _ t tt tt

  deposit_canceled-Safe :
      (key : String) (e : Exception) (t : Table) → Safe Anything (deposit_canceled rt key e) t
  unfolding deposit_canceled
  deposit_canceled-Safe key (transaction_canceled codes) t =
      Safe-bind Anything Anything (resolve_conflict rt key codes 3) (replay_or_retry rt codes) t
        (resolve_conflict-Safe rt key codes 3 t) (λ u o ev q. replay_or_retry-Safe codes o u)
  deposit_canceled-Safe key _ t = tt

  module _ (b : String) (amount : ℤ) (key : String) (request : RequestModel)
      (build : Account → Response) (positive : pos 0 ≤ℤ amount) where
    deposit_attempt-Safe :
        (t : Table) → Safe Anything (deposit_attempt rt b amount key request build) t
    unfolding deposit_attempt transact_item
    deposit_attempt-Safe t =
        Safe-bind Anything Anything (get_account b) _ t (get_account-Safe b t) λ u found ev q.
          Safe-or_raise Anything found _ _ u λ account e. (
            λ u ev s. tt,
            λ u hex ev told. (
              λ u ev s. tt,
              λ u now ev told. (
                λ u ev s. tt,
                λ u at ev told.
                    let response = build (deposited rt account b amount) in
                    Safe-transact (some response) (deposit_canceled rt key) _ u
                      (λ v ev' s rows p fresh.
                        deposit-Advances rt v s b account amount positive (rt.isoformat now)
                          (concat ("transaction_" ∷ hex ∷ [])) key (some request) response at rows p
                          fresh)
                      (λ v e. deposit_canceled-Safe key e v),
              ),
            ),
          )

    or_next-Safe :
        (o : Option Response) (next : Prog Response) (t : Table)
        → Safe Anything next t
        → Safe Anything (or_next rt o next) t
    or_next-Safe (some r) next t s = tt
    or_next-Safe none next t s = s

    pub deposit-Safe :
        (attempts : ℕ) (t : Table)
        → Safe Anything (deposit rt b amount key request build attempts) t
    unfolding deposit
    deposit-Safe zero t = tt
    deposit-Safe (suc n) t =
        Safe-bind Anything Anything (deposit_attempt rt b amount key request build) _ t
          (deposit_attempt-Safe t)
          (λ u o ev q.
            or_next-Safe o (deposit rt b amount key request build n) u (deposit-Safe n u))
