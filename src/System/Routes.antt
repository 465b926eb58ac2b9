-- ===== src/System/Routes.antt =====
-- The routes of src/lambdas and the functions with no route, as programs in the sense of
-- System/Safe.
use pay_ledger.Prelude.{
  ℕ, zero, suc, ◌-◌, String, ◌≡◌, refl, Option, none, some, ◌==◌, arith, inl, inr, Bool-cases,
  eq_iff, eqb,
}
use pay_ledger.Store.Table.{Table}
use pay_ledger.Errors.{ErrorClass}
use pay_ledger.Domain.{Account, Merchant, Authorization, AuthorizationStatus, Response}
use pay_ledger.Program
use pay_ledger.Program.{
  Prog, pure, raise, call, ◌>>=◌, ◌>>◌, catch, Exception, authorization_not_pending,
  connection_error, account_already_exists, account_not_found, validation_error, api_error,
}
use pay_ledger.Runtime.{Runtime, Validated, valid, not_valid, malformed, PositiveAmounts}
use pay_ledger.Utils.{authorization_request, deposit_request}
use pay_ledger.Idempotency.{require_key, check_replay}
use pay_ledger.Ledger.Merchants.{get_merchant}
use pay_ledger.Ledger.Accounts.{insert_account}
use pay_ledger.Ledger.Authorizations.{get_authorization}
use pay_ledger.Ledger.Sweep.{get_expired_holds, update_expired_holds}
use pay_ledger.Api.Common.{Event, validated, to_response, resolve}
use pay_ledger.Api.Authorization.{
  terminal_status_errors, raise_class, terminal_status_error, or_proceed,
  build_authorization_response, hold_failed, known_merchant, with_authorization_id, body_value,
  create_authorization, owned, not_pending, capture, void, merchant_exists, create_merchant,
}
use pay_ledger.Api.Deposit.{build_response, deposit_failed, create_deposit}
use pay_ledger.Api.Functions.{
  unreachable_at, insert_account_attempts, insert_account_max_attempts, insert_account_with_retry,
  account_exists, create_account, sweep,
}
use pay_ledger.Books.View.{Evolves}
use pay_ledger.System.Safe.{Safe-or_raise, Safe, Anything, Safe-bind, Safe-catch, Safe-if}
use pay_ledger.System.Reads.{
  check_replay-Safe, get_merchant-Safe, IsKnown, IsKnown?, get_authorization-Safe,
}
use pay_ledger.System.Ledger.{
  insert_account-Safe, insert_merchant-Safe, insert_authorization-Safe, deposit-Safe,
}
use pay_ledger.System.Holds.{
  capture_authorization-Safe, void_authorization-Safe, AllShadows, get_expired_holds-Safe,
  update_expired_holds-Safe,
}

Safe-validated :
    {A B : Type 0} (v : Validated A) (f : A → Prog B) (t : Table)
    → ((a : A) → v ≡ valid a → Safe Anything (f a) t)
    → Safe Anything (validated v >>= f) t
Safe-validated (valid a) f t g = g a refl
Safe-validated (not_valid m) f t g = tt
Safe-validated malformed f t g = tt

Safe-require_key :
    {B : Type 0} (key : Option String) (f : String → Prog B) (t : Table)
    → ((k : String) → Safe Anything (f k) t)
    → Safe Anything (require_key key >>= f) t
unfolding require_key
Safe-require_key none f t g = tt
Safe-require_key (some k) f t g = elim (Bool-cases (k == "")) [
  | inl e ↦ rw e tt
  | inr e ↦ rw e (g k)
]

or_proceed-Safe :
    (o : Option Response) (rest : Prog Response) (t : Table)
    → Safe Anything rest t
    → Safe Anything (or_proceed o rest) t
or_proceed-Safe (some r) rest t s = tt
or_proceed-Safe none rest t s = s

raise_class-Safe :
    (id : String) (s : AuthorizationStatus) (o : Option ErrorClass) (t : Table)
    → Safe Anything (raise_class id s o) t
raise_class-Safe id s (some c) t = tt
raise_class-Safe id s none t = tt

module _ (rt : Runtime) where
  hold_failed-Safe : (b : String) (e : Exception) (t : Table) → Safe Anything (hold_failed rt b e) t
  unfolding hold_failed
  hold_failed-Safe b Program.insufficient_funds t = tt
  hold_failed-Safe b _ t = tt

  not_pending-Safe :
      (id : String) (e : Exception) (t : Table) → Safe Anything (not_pending rt id e) t
  unfolding not_pending terminal_status_error
  not_pending-Safe id (authorization_not_pending s) t =
      raise_class-Safe id s (terminal_status_errors s) t
  not_pending-Safe id _ t = tt

  merchant_exists-Safe : (e : Exception) (t : Table) → Safe Anything (merchant_exists rt e) t
  unfolding merchant_exists
  merchant_exists-Safe Program.merchant_already_exists t = tt
  merchant_exists-Safe _ t = tt

  known_merchant-Safe :
      (m : String) (o : Option Merchant) (t : Table) → Safe Anything (known_merchant rt m o) t
  known_merchant-Safe m (some x) t = tt
  known_merchant-Safe m none t = tt

  pub create_authorization-Safe :
      PositiveAmounts rt
      → (event : Event) (t : Table) → Safe Anything (create_authorization rt event) t
  unfolding create_authorization
  create_authorization-Safe amounts event t =
      Safe-validated (rt.validate_authorization event.body) _ t λ request e.
        Safe-require_key event.idempotency_key _ t λ key.
          let model = authorization_request request in
          let positive = amounts.authorization_amount event.body request e in
          Safe-bind Anything Anything (check_replay rt key (some model)) _ t
            (check_replay-Safe rt key (some model) t)
            λ u replay ev q. or_proceed-Safe replay _ u (
              Safe-bind Anything Anything (get_merchant request.merchant_id) _ u
                (get_merchant-Safe request.merchant_id u)
                λ u found ev q.
                  Safe-bind Anything Anything (known_merchant rt request.merchant_id found) _ u
                    (known_merchant-Safe request.merchant_id found u)
                    λ u merchant ev q.
                      Safe-bind Anything Anything _ with_authorization_id u
                        (Safe-catch Anything _ (hold_failed rt event.sub) u
                          (insert_authorization-Safe rt event.sub request.merchant_id request.amount
                            key model _ u (omega (arith, positive)))
                          λ v e ev. hold_failed-Safe event.sub e v)
                        λ v response ev q.
                          Safe-or_raise Anything (body_value "authorization_id" response.body) _ _ v
                            λ i ei. tt)

  -- The authorization that a route goes on with is the caller's.
  Safe-owned :
      (id b : String) (o : Option Authorization) (f : Authorization → Prog Response) (t : Table)
      → IsKnown? o t
      → ((a : Authorization) → IsKnown a t → b ≡ a.account_id → Safe Anything (f a) t)
      → Safe Anything (owned rt id b o >>= f) t
  Safe-owned id b none f t known g = tt
  Safe-owned id b (some a) f t known g = elim (Bool-cases (a.account_id == b)) [
    | inl e ↦ rw e (g a known (rw ((eq_iff a.account_id b).0 e) refl))
    | inr e ↦ rw e tt
  ]

  pub capture-Safe :
      (id : String) (event : Event) (t : Table) → Safe Anything (capture rt id event) t
  unfolding capture
  capture-Safe id event t = Safe-require_key event.idempotency_key _ t λ key.
      Safe-bind Anything Anything (check_replay rt key none) _ t (check_replay-Safe rt key none t)
        λ u replay ev q. or_proceed-Safe replay _ u (
          Safe-bind IsKnown? Anything (get_authorization rt id) _ u (get_authorization-Safe rt id u)
            λ u found ev known. Safe-owned id event.sub found _ u known λ a placed own. rw own (
              Safe-catch Anything _ (not_pending rt id) u
                (capture_authorization-Safe rt a key (build_authorization_response rt) u placed)
                λ v e ev. not_pending-Safe id e v))

  pub void-Safe : (id : String) (event : Event) (t : Table) → Safe Anything (void rt id event) t
  unfolding void
  void-Safe id event t = Safe-require_key event.idempotency_key _ t λ key.
      Safe-bind Anything Anything (check_replay rt key none) _ t (check_replay-Safe rt key none t)
        λ u replay ev q. or_proceed-Safe replay _ u (
          Safe-bind IsKnown? Anything (get_authorization rt id) _ u (get_authorization-Safe rt id u)
            λ u found ev known. Safe-owned id event.sub found _ u known λ a placed own. rw own (
              Safe-catch Anything _ (not_pending rt id) u
                (void_authorization-Safe rt a key (build_authorization_response rt) u placed)
                λ v e ev. not_pending-Safe id e v))

  pub create_merchant-Safe :
      (event : Event) (t : Table) → Safe Anything (create_merchant rt event) t
  unfolding create_merchant
  create_merchant-Safe event t = Safe-validated (rt.validate_merchant event.body) _ t λ request e.
      Safe-bind Anything Anything _ _ t
        (Safe-catch Anything _ (merchant_exists rt) t (insert_merchant-Safe rt _ t)
          λ v e ev. merchant_exists-Safe e v)
        λ u x ev q. tt

  pub sweep-Safe : (fuel : ℕ) (t : Table) → Safe Anything (sweep rt fuel) t
  unfolding sweep
  sweep-Safe fuel t =
      Safe-bind AllShadows Anything (get_expired_holds rt fuel) (update_expired_holds rt) t
        (get_expired_holds-Safe rt fuel t)
        λ u items ev shadows. update_expired_holds-Safe rt items u shadows

  deposit_failed-Safe :
      (b : String) (e : Exception) (t : Table) → Safe Anything (deposit_failed b e) t
  unfolding deposit_failed
  deposit_failed-Safe b account_not_found t = tt
  deposit_failed-Safe b _ t = tt

  pub create_deposit-Safe :
      PositiveAmounts rt → (event : Event) (t : Table) → Safe Anything (create_deposit rt event) t
  unfolding create_deposit
  create_deposit-Safe amounts event t =
      Safe-validated (rt.validate_deposit event.body) _ t λ request e.
        Safe-require_key event.idempotency_key _ t λ key.
          let model = deposit_request request in
          let positive = amounts.deposit_amount event.body request e in
          Safe-bind Anything Anything (check_replay rt key (some model)) _ t
            (check_replay-Safe rt key (some model) t)
            λ u replay ev q. or_proceed-Safe replay _ u (
              Safe-catch Anything _ (deposit_failed event.sub) u
                (deposit-Safe rt event.sub request.amount key model build_response
                  (omega (arith, positive)) 5 u)
                λ v e ev. deposit_failed-Safe event.sub e v)

  to_response-Safe : (e : Exception) (t : Table) → Safe Anything (to_response e) t
  to_response-Safe (validation_error m) t = tt
  to_response-Safe (api_error e) t = tt
  to_response-Safe _ t = tt

  pub resolve-Safe :
      (route : Prog Response) (t : Table) → Safe Anything route t → Safe Anything (resolve route) t
  unfolding resolve
  resolve-Safe route t s = Safe-catch Anything route to_response t s λ u e ev. to_response-Safe e u

unreachable_at-Safe :
    (n : ℕ) (next : Prog (Unit {0})) (e : Exception) (t : Table)
    → ((u : Table) → Evolves t u → Safe Anything next u)
    → Safe Anything (unreachable_at n next e) t
unfolding unreachable_at
unreachable_at-Safe n next connection_error t g =
    Safe-if Anything (eqb n insert_account_max_attempts) _ _ t tt
      ((λ u ev s. tt, λ u x ev told. g u ev))
unreachable_at-Safe n next _ t g = tt

insert_account_attempts-Safe :
    (account : Account) (left : ℕ) (t : Table)
    → Safe Anything (insert_account_attempts account left) t
unfolding insert_account_attempts
insert_account_attempts-Safe account zero t = tt
insert_account_attempts-Safe account (suc left) t =
    Safe-catch Anything (insert_account account) _ t (insert_account-Safe account t) λ u e ev.
      unreachable_at-Safe (insert_account_max_attempts - left) _ e u
        λ v ev'. insert_account_attempts-Safe account left v

account_exists-Safe : (e : Exception) (t : Table) → Safe Anything (account_exists e) t
unfolding account_exists
account_exists-Safe account_already_exists t = tt
account_exists-Safe _ t = tt

pub create_account-Safe : (sub : String) (t : Table) → Safe Anything (create_account sub) t
unfolding create_account insert_account_with_retry
create_account-Safe sub t =
    Safe-catch Anything _ account_exists t (insert_account_attempts-Safe _ 3 t)
      λ u e ev. account_exists-Safe e u
