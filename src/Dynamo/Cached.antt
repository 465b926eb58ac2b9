-- ===== src/Dynamo/Cached.antt =====
-- The resources that a process has, over any calls of dynamo.py.
use pay_ledger.Prelude.{
  String, ◌≡◌, refl, sym, ◌∙◌, ap, Option, none, some, List, [], ◌∷◌, Bool, true, false, ◌&&◌, ◌==◌,
  if◌then◌else◌, eq_iff, eq_refl, subst, Option-cases, Bool-cases, inl, inr, some_inj,
}
use pay_ledger.Dynamo.{
  Environ, Target, target, same_endpoint, same_target, ResourceArguments, resource_arguments,
  BotoTable, LedgerRepository, found, Process, go_on, made, keep, looked_up, resource, get_table,
  get_dynamodb_resource, ledger_repository, idempotency_repository_at,
}

same_endpoint_refl : (e : Option String) → same_endpoint e e ≡ true
same_endpoint_refl none = refl
same_endpoint_refl (some text) = eq_refl text

same_endpoint-eq : (a b : Option String) → same_endpoint a b ≡ true → a ≡ b
same_endpoint-eq none none e = refl
same_endpoint-eq none (some b) e = cc
same_endpoint-eq (some a) none e = cc
same_endpoint-eq (some a) (some b) e = ap some ((eq_iff a b).0 e)

both : (a b : Bool) → (a && b) ≡ true → (a ≡ true) × (b ≡ true)
both true b e = (refl, e)
both false b e = cc

same_target_refl : (t : Target) → same_target t t ≡ true
same_target_refl t = rw (same_endpoint_refl t.endpoint_url) (eq_refl t.region_name)

same_target-eq : (t u : Target) → same_target t u ≡ true → t ≡ u
same_target-eq t u e =
    let (endpoint, region) =
      both (same_endpoint t.endpoint_url u.endpoint_url) (t.region_name == u.region_name) e in
    rw
      (
        same_endpoint-eq t.endpoint_url u.endpoint_url endpoint,
        (eq_iff t.region_name u.region_name).0 region,
      )
      refl

-- A call of one of the two functions of dynamo.py, in the environment at that time.
pub data Call : Type 0 where
  table_call : Environ → String → Call
  resource_call : Environ → Call

module _ {W R : Type 0} (boto3_resource : ResourceArguments → W → Option R × W) where
  abbrev pub after_call : Call → Process W R → Process W R
  after_call (table_call environ name) p = (get_table boto3_resource environ name p).1
  after_call (resource_call environ) p = (get_dynamodb_resource boto3_resource environ p).1

  abbrev pub after_calls : List Call → Process W R → Process W R
  after_calls [] p = p
  after_calls (c ∷ calls) p = after_calls calls (after_call c p)

  made_in-last :
      {A : Type 0} (f : R → A) (o : Option R × Process W R)
      → (go_on boto3_resource (λ r. made boto3_resource (f r)) o).1 ≡ o.1
  made_in-last f (none, p) = refl
  made_in-last f (some r, p) = refl

  abbrev target_of : Call → Target
  target_of (table_call environ name) = target environ
  target_of (resource_call environ) = target environ

  after_call-resource :
      (c : Call) (p : Process W R) → after_call c p ≡ (resource boto3_resource (target_of c) p).1
  unfolding get_table get_dynamodb_resource
  after_call-resource (table_call environ name) p =
      made_in-last (λ r. record { resource = r; name = name })
        (resource boto3_resource (target environ) p)
  after_call-resource (resource_call environ) p = refl

  resource-found :
      (t : Target) (p : Process W R) {r : R}
      → found t p.resources ≡ some r
      → resource boto3_resource t p ≡ (some r, p)
  unfolding resource
  resource-found t p h = rw h refl

  found-keep :
      (t u : Target) (resources : List (Target × R)) (o : Option R × W) {r : R}
      → found u resources ≡ none
      → found t resources ≡ some r
      → found t (keep boto3_resource u resources o).1.resources ≡ some r
  found-keep t u resources (none, w) absent h = h
  found-keep t u resources (some r', w) absent h = elim (Bool-cases (same_target u t)) [
    | inl e ↦
        let absent' = subst (λ x. found x resources ≡ none) (same_target-eq u t e) absent in cc
    | inr e ↦ rw e h
  ]

  resource-keeps :
      (t u : Target) (p : Process W R) {r : R}
      → found t p.resources ≡ some r
      → found t (resource boto3_resource u p).1.resources ≡ some r
  unfolding resource
  resource-keeps t u p h = elim (Option-cases (found u p.resources)) [
    | inl e ↦ rw e (found-keep t u p.resources (boto3_resource (resource_arguments u) p.world) e h)
    | inr (r', e) ↦ rw e h
  ]

  after_calls-keep :
      (t : Target) (calls : List Call) (p : Process W R) {r : R}
      → found t p.resources ≡ some r
      → found t (after_calls calls p).resources ≡ some r
  after_calls-keep t [] p h = h
  after_calls-keep t (c ∷ calls) p {r} h = after_calls-keep t calls (after_call c p) (
      subst (λ q. found t q.resources ≡ some r) (sym (after_call-resource c p))
        (resource-keeps t (target_of c) p h))

  keep-found :
      (t : Target) (resources : List (Target × R)) (o : Option R × W) {r : R} {p' : Process W R}
      → keep boto3_resource t resources o ≡ (some r, p')
      → found t p'.resources ≡ some r
  keep-found t resources (none, w) h = cc
  keep-found t resources (some r', w) {r} h =
      subst (λ q. found t q.resources ≡ some r) (ap (λ x. x.1) h)
        (rw (same_target_refl t) (ap (λ x. x.0) h))

  found-resource :
      (t : Target) (p : Process W R) {r : R} {p' : Process W R}
      → resource boto3_resource t p ≡ (some r, p')
      → found t p'.resources ≡ some r
  unfolding resource
  found-resource t p {r} {p'} h = elim (Option-cases (found t p.resources)) [
    | inl e ↦
        keep-found t p.resources (boto3_resource (resource_arguments t) p.world)
          (sym (ap (looked_up boto3_resource t p) e) ∙ h)
    | inr (r', e) ↦
        let same = sym (ap (looked_up boto3_resource t p) e) ∙ h in
        subst (λ q. found t q.resources ≡ some r) (ap (λ x. x.1) same) (e ∙ ap (λ x. x.0) same)
  ]

  of_table :
      (name : String) (o : Option R × Process W R) {b : BotoTable R} {p' : Process W R}
      → go_on boto3_resource
          (λ r. made boto3_resource {A = BotoTable R} (record { resource = r; name = name }))
          o
        ≡ (some b, p')
      → (o ≡ (some b.resource, p')) × (b.name ≡ name)
  of_table name (none, p) h = cc
  of_table name (some r, p) {b} {p'} h =
      subst
        (λ b.
          (◌≡◌ {A = Option R × Process W R} (some r, p) (some b.resource, p')) × (b.name ≡ name))
        (some_inj (ap (λ x. x.0) h)) (rw (ap (λ x. x.1) h) refl, refl)

  get_table-resource :
      (environ : Environ) (name : String) (p : Process W R) {b : BotoTable R} {p' : Process W R}
      → get_table boto3_resource environ name p ≡ (some b, p')
      → (resource boto3_resource (target environ) p ≡ (some b.resource, p')) × (b.name ≡ name)
  unfolding get_table
  get_table-resource environ name p h = of_table name (resource boto3_resource (target environ) p) h

  -- Once `get_table` has given a table, and after any further calls of dynamo.py, in any
  -- environments: a call whose environment has the same endpoint and region gives a table on the same
  -- resource, whatever its name, and boto3 is not called: the process is as it was.
  get_table-again :
      (environ environ' : Environ) (name name' : String) (p p' : Process W R) (b : BotoTable R)
      (calls : List Call)
      → get_table boto3_resource environ name p ≡ (some b, p')
      → target environ' ≡ target environ
      → get_table boto3_resource environ' name' (after_calls calls p')
        ≡ (some (record { resource = b.resource; name = name' }), after_calls calls p')
  unfolding get_table
  get_table-again environ environ' name name' p p' b calls h same =
      rw
        (
          same,
          resource-found (target environ) (after_calls calls p') (
              after_calls-keep (target environ) calls p'
                (found-resource (target environ) p (get_table-resource environ name p h).0)),
        )
        refl

  -- A resource that boto3 has made for a target, at some time.
  pub record IsMadeFor (t : Target) (r : R) : Type 0 where
    pub before : W
    pub after : W
    pub made_then : boto3_resource (resource_arguments t) before ≡ (some r, after)

  abbrev pub AllMade : List (Target × R) → Type 0
  AllMade [] = Unit
  AllMade ((t, r) ∷ rest) = IsMadeFor t r × AllMade rest

  found-IsMadeFor :
      (t : Target) (resources : List (Target × R)) {r : R}
      → AllMade resources
      → found t resources ≡ some r
      → IsMadeFor t r
  found-IsMadeFor t [] all h = cc
  found-IsMadeFor t ((u, r') ∷ rest) {r} (m, all) h = elim (Bool-cases (same_target u t)) [
    | inl e ↦
        subst (λ x. IsMadeFor x r) (same_target-eq u t e)
          (subst (IsMadeFor u)
            (some_inj (subst (λ y. (if y then some r' else found t rest) ≡ some r) e h)) m)
    | inr e ↦
        found-IsMadeFor t rest all (subst (λ y. (if y then some r' else found t rest) ≡ some r) e h)
  ]

  keep-AllMade :
      (t : Target) (resources : List (Target × R)) (w : W) (o : Option R × W)
      → boto3_resource (resource_arguments t) w ≡ o
      → AllMade resources
      → AllMade (keep boto3_resource t resources o).1.resources
  keep-AllMade t resources w (none, w') h all = all
  keep-AllMade t resources w (some r, w') h all =
      (record { before = w; after = w'; made_then = h }, all)

  resource-AllMade :
      (t : Target) (p : Process W R)
      → AllMade p.resources
      → AllMade (resource boto3_resource t p).1.resources
  unfolding resource
  resource-AllMade t p all = elim (Option-cases (found t p.resources)) [
    | inl e ↦ rw e (
        keep-AllMade t p.resources p.world (boto3_resource (resource_arguments t) p.world) refl all)
    | inr (r, e) ↦ rw e all
  ]

  after_calls-AllMade :
      (calls : List Call) (p : Process W R)
      → AllMade p.resources
      → AllMade (after_calls calls p).resources
  after_calls-AllMade [] p all = all
  after_calls-AllMade (c ∷ calls) p all = after_calls-AllMade calls (after_call c p) (
      subst (λ q. AllMade q.resources) (sym (after_call-resource c p))
        (resource-AllMade (target_of c) p all))

  -- In a process that starts with an empty cache, after any calls of dynamo.py in any environments:
  -- the table that `get_table` gives has the name that is asked for, and its resource is one that
  -- boto3 has made with the endpoint and the region of the environment at this call, never those of
  -- another one.
  pub get_table-IsMadeFor :
      (calls : List Call) (w : W) (environ : Environ) (name : String) (b : BotoTable R)
      (p : Process W R)
      → get_table boto3_resource environ name
          (after_calls calls (record { resources = []; world = w }))
        ≡ (some b, p)
      → IsMadeFor (target environ) b.resource × (b.name ≡ name)
  get_table-IsMadeFor calls w environ name b p h =
      let at = after_calls calls (record { resources = []; world = w }) in
      let (same, named) = get_table-resource environ name at h in
      let all =
        subst (λ x. AllMade x.1.resources) same
          (resource-AllMade (target environ) at
            (after_calls-AllMade calls (record { resources = []; world = w }) tt)) in
      (
        found-IsMadeFor (target environ) p.resources all (found-resource (target environ) at same),
        named,
      )

  -- What the constructors of AccountRepository and AuthorizationRepository make.
  abbrev pub on_resource : String → R → LedgerRepository R
  on_resource name r = record {
    table_name = name;
    table = record { resource = r; name = name };
    dynamodb = r;
    idempotency_repository = record { table = record { resource = r; name = name } };
  }

  ledger_repository-from :
      (environ : Environ) (name : String) (p : Process W R) (o : Option R × Process W R)
      → resource boto3_resource (target environ) p ≡ o
      → ledger_repository boto3_resource environ name p
        ≡ go_on boto3_resource (λ r. made boto3_resource (on_resource name r)) o
  unfolding ledger_repository get_table get_dynamodb_resource idempotency_repository_at
  ledger_repository-from environ name p (none, p') h = rw h refl
  ledger_repository-from environ name p (some r, p') h =
      let again = resource-found (target environ) p' (found-resource (target environ) p h) in
      rw (h, again, again) refl

  -- The table, the client for transactions and the table of the idempotency repository of an
  -- AccountRepository or an AuthorizationRepository are on one and the same resource, whatever the
  -- process has in its cache: the constructor raises, and makes anything, exactly as its first
  -- lookup does.
  pub ledger_repository-resource :
      (environ : Environ) (name : String) (p : Process W R)
      → ledger_repository boto3_resource environ name p
        ≡ go_on boto3_resource
            (λ r. made boto3_resource (on_resource name r))
            (resource boto3_resource (target environ) p)
  ledger_repository-resource environ name p =
      ledger_repository-from environ name p (resource boto3_resource (target environ) p) refl
