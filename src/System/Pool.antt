-- ===== src/System/Pool.antt =====
-- The deployed service: requests arrive at any time, each starts a handler, and the calls of the
-- handlers that are at work are served one at a time, in any order. A handler can stop at any call.
pub mod Reachable
use pay_ledger.Prelude.{ℕ, String, List, [], ◌∷◌, ◌++◌, ◌≡◌, refl}
use pay_ledger.Store.Table.{Table}
use pay_ledger.Program.{Request, Answer, Prog, pure, raise, call, ◌>>=◌}
use pay_ledger.Program.Service.{DynamoDb, Documented, All}
use pay_ledger.Runtime.{Runtime, PositiveAmounts}
use pay_ledger.Api.Common.{Event, resolve}
use pay_ledger.Api.Authorization.{create_authorization, capture, void, create_merchant}
use pay_ledger.Api.Deposit.{create_deposit}
use pay_ledger.Api.Functions.{create_account, sweep}
use pay_ledger.Books.View.{IsSound, Evolves}
use pay_ledger.Books.Change.{Evolves-refl, Evolves-trans}
use pay_ledger.Books.Advance.{Advances}
use pay_ledger.System.Safe.{Safe, Anything, Safe-bind, NoCollision}
use pay_ledger.System.Routes.{
  create_authorization-Safe, capture-Safe, void-Safe, create_merchant-Safe, create_deposit-Safe,
  create_account-Safe, sweep-Safe, resolve-Safe,
}
use pay_ledger.System.Serve.{InOrder, serve-Advances, serve-Tells, serve_order}

-- What the functions are called with. A sweep has a bound on the pages of its scan.
pub data Job : Type 0 where
  post_authorization : Event → Job
  post_capture post_void : String → Event → Job
  post_merchant post_deposit : Event → Job
  post_confirmation : String → Job
  scheduled : ℕ → Job

abbrev finished : {A : Type 0} → A → Prog (Unit {0})
finished a = pure tt

-- The handler of a call; its response goes to the caller.
unfoldable pub handler : Runtime → Job → Prog (Unit {0})
handler rt (post_authorization event) = resolve (create_authorization rt event) >>= finished
handler rt (post_capture id event) = resolve (capture rt id event) >>= finished
handler rt (post_void id event) = resolve (void rt id event) >>= finished
handler rt (post_merchant event) = resolve (create_merchant rt event) >>= finished
handler rt (post_deposit event) = resolve (create_deposit rt event) >>= finished
handler rt (post_confirmation sub) = create_account sub
handler rt (scheduled pages) = sweep rt pages >>= finished

finished-Safe :
    {A : Type 0} (m : Prog A) (t : Table) → Safe Anything m t → Safe Anything (m >>= finished) t
finished-Safe m t s = Safe-bind Anything Anything m finished t s (λ u a ev q. tt)

pub handler-Safe :
    (rt : Runtime) → PositiveAmounts rt → (j : Job) (t : Table) → Safe Anything (handler rt j) t
unfolding handler
handler-Safe rt amounts (post_authorization event) t =
    finished-Safe _ t (resolve-Safe rt _ t (create_authorization-Safe rt amounts event t))
handler-Safe rt amounts (post_capture id event) t =
    finished-Safe _ t (resolve-Safe rt _ t (capture-Safe rt id event t))
handler-Safe rt amounts (post_void id event) t =
    finished-Safe _ t (resolve-Safe rt _ t (void-Safe rt id event t))
handler-Safe rt amounts (post_merchant event) t =
    finished-Safe _ t (resolve-Safe rt _ t (create_merchant-Safe rt event t))
handler-Safe rt amounts (post_deposit event) t =
    finished-Safe _ t (resolve-Safe rt _ t (create_deposit-Safe rt amounts event t))
handler-Safe rt amounts (post_confirmation sub) t = create_account-Safe sub t
handler-Safe rt amounts (scheduled pages) t = finished-Safe _ t (sweep-Safe rt pages t)

pub Safe-later :
    (p : Prog (Unit {0})) {t u : Table} → Safe Anything p t → Evolves t u → Safe Anything p u
Safe-later (pure a) s ev = tt
Safe-later (raise e) s ev = tt
Safe-later (call r k) s ev =
    (λ v ev'. s.0 v (Evolves-trans ev ev'), λ v x ev'. s.1 v x (Evolves-trans ev ev'))

abbrev pub AllSafe : List (Prog (Unit {0})) → Table → Type 0
AllSafe ps t = All (λ p. Safe Anything p t) ps

pub AllSafe-later :
    (ps : List (Prog (Unit {0}))) {t u : Table} → AllSafe ps t → Evolves t u → AllSafe ps u
AllSafe-later [] h ev = tt
AllSafe-later (p ∷ ps) h ev = (Safe-later p h.0 ev, AllSafe-later ps h.1 ev)

-- The handler in the middle, and those around it.
pub middle :
    (before after : List (Prog (Unit {0}))) (p : Prog (Unit {0})) (t : Table)
    → AllSafe (before ++ p ∷ after) t
    → Safe Anything p t
middle [] after p t h = h.0
middle (q ∷ before) after p t h = middle before after p t h.1

pub replaced :
    (before after : List (Prog (Unit {0}))) (p q : Prog (Unit {0})) (t : Table)
    → AllSafe (before ++ p ∷ after) t
    → Safe Anything q t
    → AllSafe (before ++ q ∷ after) t
replaced [] after p q t h s = (s, h.1)
replaced (x ∷ before) after p q t h s = (h.0, replaced before after p q t h.1 s)

pub removed :
    (before after : List (Prog (Unit {0}))) (p : Prog (Unit {0})) (t : Table)
    → AllSafe (before ++ p ∷ after) t
    → AllSafe (before ++ after) t
removed [] after p t h = h.1
removed (x ∷ before) after p t h = (h.0, removed before after p t h.1)

module _ (d : DynamoDb) (rt : Runtime) where
  open d use {State, table, past, answer}

  -- The state of the services, and the handlers at work.
  pub record Config : Type 0 where
    pub state : State
    pub working : List (Prog (Unit {0}))

  pub data Step : Config → Config → Type 0 where
    arrive :
        (j : Job) (s : State) (ps : List (Prog (Unit {0})))
        → Step
            (record { state = s; working = ps })
            (record { state = s; working = handler rt j ∷ ps })
    serve :
        (s : State) (before after : List (Prog (Unit {0}))) (r : Request)
        (k : Answer r → Prog (Unit {0}))
        → Step
            (record { state = s; working = before ++ call r k ∷ after })
            (record { state = (answer r s).1; working = before ++ k (answer r s).0 ∷ after })
    stop :
        (s : State) (before after : List (Prog (Unit {0}))) (p : Prog (Unit {0}))
        → Step
            (record { state = s; working = before ++ p ∷ after })
            (record { state = s; working = before ++ after })

  pub data Run : Config → Config → Type 0 where
    start : (c : Config) → Run c c
    next : {c c' c'' : Config} → Run c c' → Step c' c'' → Run c c''

  -- No step of the run puts an item with a fresh id over one that is there: `uuid4` does not give
  -- the same id twice.
  abbrev pub HasFreshIds : {c c' : Config} → Run c c' → Type 0
  HasFreshIds (start c) = Unit
  HasFreshIds (next run (arrive j s ps)) = HasFreshIds run
  HasFreshIds (next run (serve s before after r k)) = HasFreshIds run × NoCollision r (table s)
  HasFreshIds (next run (stop s before after p)) = HasFreshIds run
