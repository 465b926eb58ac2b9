-- ===== src/Program/Runs.antt =====
-- Running one program after another, and one under handlers.
use pay_ledger.Prelude.{◌≡◌, refl, sym, ap, ◌∙◌}
use pay_ledger.Program.{Prog, pure, raise, call, ◌>>=◌, catch, Exception}
use pay_ledger.Program.Service.{DynamoDb, Result, returned, raised, run}

returned_inj : {A : Type 0} {a b : A} → returned a ≡ returned b → a ≡ b
returned_inj h = cc

raised_inj : {A : Type 0} {e e' : Exception} → ◌≡◌ {A = Result A} (raised e) (raised e') → e ≡ e'
raised_inj h = cc

module _ (d : DynamoDb) where
  returned_ends :
      {A : Type 0} {a b : A} {s s' : d.State}
      → ◌≡◌ {A = Result A × d.State} (returned a, s) (returned b, s')
      → (a ≡ b) × (s ≡ s')
  returned_ends h = (returned_inj (ap (λ x. x.0) h), ap (λ x. x.1) h)

  raised_ends :
      {A : Type 0} {e e' : Exception} {s s' : d.State}
      → ◌≡◌ {A = Result A × d.State} (raised e, s) (raised e', s')
      → (e ≡ e') × (s ≡ s')
  raised_ends h = (raised_inj (ap (λ x. x.0) h), ap (λ x. x.1) h)

  pub run-bind :
      {A B : Type 0} (m : Prog A) (f : A → Prog B) (s : d.State) {a : A} {s' : d.State}
      → run d m s ≡ (returned a, s')
      → run d (m >>= f) s ≡ run d (f a) s'
  run-bind (pure x) f s h = let (e, e') = returned_ends h in rw (e, e') refl
  run-bind (raise e) f s h = cc
  run-bind (call r k) f s h = let (x, s₁) = d.answer r s in run-bind (k x) f s₁ h

  -- Where the program returns, no handler is called.
  pub run-catch :
      {A : Type 0} (m : Prog A) (h : Exception → Prog A) (s : d.State) {a : A} {s' : d.State}
      → run d m s ≡ (returned a, s')
      → run d (catch m h) s ≡ (returned a, s')
  run-catch (pure x) h s e = e
  run-catch (raise x) h s e = cc
  run-catch (call r k) h s e = let (x, s₁) = d.answer r s in run-catch (k x) h s₁ e

  -- Where it raises, the handler goes on from there.
  pub run-caught :
      {A : Type 0} (m : Prog A) (h : Exception → Prog A) (s : d.State) {e : Exception}
      {s' : d.State}
      → run d m s ≡ (raised e, s')
      → run d (catch m h) s ≡ run d (h e) s'
  run-caught (pure x) h s r = cc
  run-caught (raise x) h s r = let (e, e') = raised_ends r in rw (e, e') refl
  run-caught (call q k) h s r = let (x, s₁) = d.answer q s in run-caught (k x) h s₁ r

  -- What the handlers make of the end of a run.
  abbrev handled : {A : Type 0} → (Exception → Prog A) → Result A × d.State → Result A × d.State
  handled h (returned a, s) = (returned a, s)
  handled h (raised e, s) = run d (h e) s

  catch_lem :
      {A : Type 0} (m : Prog A) (h : Exception → Prog A) (s : d.State)
      → run d (catch m h) s ≡ handled h (run d m s)
  catch_lem (pure x) h s = refl
  catch_lem (raise x) h s = refl
  catch_lem (call r k) h s = let (x, s₁) = d.answer r s in catch_lem (k x) h s₁

  -- Under handlers, two programs that run alike run alike.
  pub run-handled :
      {A : Type 0} (m n : Prog A) (h : Exception → Prog A) (s t : d.State)
      → run d m s ≡ run d n t
      → run d (catch m h) s ≡ run d (catch n h) t
  run-handled m n h s t e = catch_lem m h s ∙ ap (handled h) e ∙ sym (catch_lem n h t)
