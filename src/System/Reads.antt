-- ===== src/System/Reads.antt =====
-- The parts of the handlers that only read.
use pay_ledger.Prelude.{
  ℕ, String, ◌≡◌, refl, sym, ◌∙◌, Option, none, some, List, [], ◌∷◌, Bool, true, false, some_inj,
  ap,
}
use pay_ledger.Prelude.Int.{ℤ}
use pay_ledger.Store.Item.{Item, Value, str, num, as_text, as_number}
use pay_ledger.Store.Key.{Key, ledger_sort_key_name}
use pay_ledger.Store.Table.{Table}
use pay_ledger.Store.Transact.{Code}
use pay_ledger.Domain.{Authorization, status_of}
use pay_ledger.Program.{pure, ◌>>=◌, Reply, reply, lost, get, received}
use pay_ledger.Program.Service.{All}
use pay_ledger.Runtime.{Runtime}
use pay_ledger.Utils.{RequestModel}
use pay_ledger.Idempotency.{
  IdempotencyRecord, idempotency_item_key, read_record, get_record, check_replay, resolve_conflict,
  stored_response, check_failed_at, replay_unless_reused, replay_winner, hash_differs,
}
use pay_ledger.Ledger.Merchants.{merchant_key, get_merchant, read_merchant}
use pay_ledger.Ledger.Accounts.{account_key, get_account, read_account}
use pay_ledger.Ledger.Authorizations.{
  hold_key, read_status, read_status_item, read_authorization, first_authorization,
  get_authorization,
}
use pay_ledger.Books.View.{IsPlaced}
use pay_ledger.System.Safe.{Safe, Anything, Safe-bind, Safe-or_raise, Safe-if, IsShadow}

pub Safe-received : {A : Type 0} (x : Reply A) (t : Table) → Safe Anything (received x) t
Safe-received (reply a) t = tt
Safe-received (lost f) t = tt

pub Safe-get : (k : Key) (consistent : Bool) (t : Table) → Safe Anything (get k consistent) t
Safe-get k consistent t = (λ u ev s. tt, λ u x ev told. Safe-received x u)

read_record-Safe :
    (key : String) (o : Option Item) (t : Table) → Safe Anything (read_record key o) t
read_record-Safe key none t = tt
read_record-Safe key (some item) t = Safe-or_raise Anything (item "request_hash") _ _ t λ h eh.
    Safe-or_raise Anything (as_number (item "status_code")) _ _ t
      λ c ec. Safe-or_raise Anything (as_text (item "response_snapshot")) _ _ t λ r er. tt

pub get_record-Safe : (key : String) (t : Table) → Safe Anything (get_record key) t
unfolding get_record
get_record-Safe key t =
    Safe-bind Anything Anything (get (idempotency_item_key key) false) (read_record key) t
      (Safe-get (idempotency_item_key key) false t) (λ u o ev q. read_record-Safe key o u)

module _ (rt : Runtime) where
  stored_response-Safe :
      (r : IdempotencyRecord) (t : Table) → Safe Anything (stored_response rt r) t
  stored_response-Safe r t = Safe-or_raise Anything (rt.loads r.response_snapshot) _ _ t (λ b e. tt)

  some_response-Safe :
      (r : IdempotencyRecord) (t : Table)
      → Safe Anything (stored_response rt r >>= λ response. pure (some response)) t
  some_response-Safe r t =
      Safe-bind Anything Anything (stored_response rt r) _ t (stored_response-Safe r t)
        (λ u b ev q. tt)

  replay_unless_reused-Safe :
      (request : Option RequestModel) (o : Option IdempotencyRecord) (t : Table)
      → Safe Anything (replay_unless_reused rt request o) t
  replay_unless_reused-Safe request none t = tt
  replay_unless_reused-Safe request (some r) t =
      Safe-if Anything (hash_differs rt request r.request_hash) _ _ t tt (some_response-Safe r t)

  pub check_replay-Safe :
      (key : String) (request : Option RequestModel) (t : Table)
      → Safe Anything (check_replay rt key request) t
  unfolding check_replay
  check_replay-Safe key request t =
      Safe-bind Anything Anything (get_record key) (replay_unless_reused rt request) t
        (get_record-Safe key t) (λ u o ev q. replay_unless_reused-Safe request o u)

  replay_winner-Safe :
      (o : Option IdempotencyRecord) (t : Table) → Safe Anything (replay_winner rt o) t
  replay_winner-Safe none t = tt
  replay_winner-Safe (some r) t = some_response-Safe r t

  pub resolve_conflict-Safe :
      (key : String) (codes : List Code) (i : ℕ) (t : Table)
      → Safe Anything (resolve_conflict rt key codes i) t
  unfolding resolve_conflict
  resolve_conflict-Safe key codes i t =
      Safe-if Anything (check_failed_at i codes) _ _ t
        (Safe-bind Anything Anything (get_record key) (replay_winner rt) t (get_record-Safe key t)
          (λ u o ev q. replay_winner-Safe o u))
        tt

read_merchant-Safe : (o : Option Item) (t : Table) → Safe Anything (read_merchant o) t
read_merchant-Safe none t = tt
read_merchant-Safe (some item) t =
    Safe-or_raise Anything (as_text (item "merchant_id")) _ _ t λ m em.
      Safe-or_raise Anything (as_text (item "name")) _ _ t
        λ n en. Safe-or_raise Anything (as_number (item "payable_balance")) _ _ t λ p ep. tt

pub get_merchant-Safe : (m : String) (t : Table) → Safe Anything (get_merchant m) t
unfolding get_merchant
get_merchant-Safe m t =
    Safe-bind Anything Anything (get (merchant_key m) false) read_merchant t
      (Safe-get (merchant_key m) false t) (λ u o ev q. read_merchant-Safe o u)

read_account-Safe : (o : Option Item) (t : Table) → Safe Anything (read_account o) t
read_account-Safe none t = tt
read_account-Safe (some item) t = Safe-or_raise Anything (as_text (item "account_id")) _ _ t λ m em.
    Safe-or_raise Anything (as_number (item "current_balance")) _ _ t
      λ n en. Safe-or_raise Anything (as_number (item "available_balance")) _ _ t λ p ep. tt

pub get_account-Safe : (a : String) (t : Table) → Safe Anything (get_account a) t
unfolding get_account
get_account-Safe a t =
    Safe-bind Anything Anything (get (account_key a) false) read_account t
      (Safe-get (account_key a) false t) (λ u o ev q. read_account-Safe o u)

read_status_item-Safe : (o : Option Item) (t : Table) → Safe Anything (read_status_item o) t
read_status_item-Safe none t = tt
read_status_item-Safe (some item) t =
    Safe-or_raise Anything (as_text (item "status")) _ _ t
      λ s es. Safe-or_raise Anything (status_of s) _ _ t λ st est. tt

pub read_status-Safe : (a sk : String) (t : Table) → Safe Anything (read_status a sk) t
unfolding read_status
read_status-Safe a sk t =
    Safe-bind Anything Anything (get (hold_key a sk) true) read_status_item t
      (Safe-get (hold_key a sk) true t) (λ u o ev q. read_status_item-Safe o u)

-- An authorization that was read is placed, with its account, sort key and amount.
abbrev pub IsKnown : Authorization → Table → Type 0
IsKnown a t = IsPlaced a.account_id a.sort_key a.amount t

abbrev pub IsKnown? : Option Authorization → Table → Type 0
IsKnown? none t = Unit
IsKnown? (some a) t = IsKnown a t

pub text_of : (o : Option Value) {a b : String} → o ≡ some (str a) → as_text o ≡ some b → a ≡ b
text_of o p q = some_inj (ap as_text (sym p) ∙ q)

pub number_of : (o : Option Value) {a b : ℤ} → o ≡ some (num a) → as_number o ≡ some b → a ≡ b
number_of o p q = some_inj (ap as_number (sym p) ∙ q)

module _ (rt : Runtime) where
  read_authorization-Safe :
      (id : String) (item : Item) (t : Table)
      → IsShadow item t
      → Safe IsKnown (read_authorization rt id item) t
  read_authorization-Safe id item t s =
      Safe-or_raise IsKnown (as_text (item "merchant_id")) _ _ t λ m em.
        Safe-or_raise IsKnown (as_number (item "amount")) _ _ t λ n en.
          Safe-or_raise IsKnown (as_text (item "created_at")) _ _ t λ c ec.
            Safe-or_raise IsKnown (rt.fromisoformat c) _ _ t λ c' ec'.
              Safe-or_raise IsKnown (as_text (item "updated_at")) _ _ t λ d ed.
                Safe-or_raise IsKnown (rt.fromisoformat d) _ _ t λ d' ed'.
                  Safe-or_raise IsKnown (as_text (item "expires_at")) _ _ t λ x ex.
                    Safe-or_raise IsKnown (rt.date_fromisoformat x) _ _ t λ x' ex'.
                      Safe-or_raise IsKnown (as_text (item "status")) _ _ t λ w ew.
                        Safe-or_raise IsKnown (status_of w) _ _ t λ w' ew'.
                          Safe-or_raise IsKnown (as_text (item ledger_sort_key_name)) _ _ t λ k ek.
                            Safe-or_raise IsKnown (as_text (item "account_id")) _ _ t λ b eb.
                              rw
                                (
                                  ← text_of (item "account_id") s.owner eb,
                                  ← text_of (item ledger_sort_key_name) s.at ek,
                                  ← number_of (item "amount") s.holds_back en,
                                )
                                s.placed

  first_authorization-Safe :
      (id : String) (items : List Item) (t : Table)
      → All (λ item. IsShadow item t) items
      → Safe IsKnown? (first_authorization rt id items) t
  first_authorization-Safe id [] t s = tt
  first_authorization-Safe id (item ∷ rest) t s =
      Safe-bind IsKnown IsKnown? (read_authorization rt id item) _ t
        (read_authorization-Safe id item t s.0) (λ u a ev q. q)

  pub get_authorization-Safe : (id : String) (t : Table) → Safe IsKnown? (get_authorization rt id) t
  unfolding get_authorization
  get_authorization-Safe id t = (λ u ev s. tt, λ u x ev told. after u x (told refl))
    where
      after :
          (u : Table) (x : Reply (List Item))
          → ((items : List Item) → x ≡ reply items → All (λ item. IsShadow item u) items)
          → Safe IsKnown? (received x >>= first_authorization rt id) u
      after u (reply items) told = first_authorization-Safe id items u (told items refl)
      after u (lost f) told = tt
