-- ===== src/Service/Flow.antt =====
-- crates/core/src/service/mod.rs: how flows compose. What leaves the store alone, what fails, and
-- what an answered call goes on with.
use oidc_exchange.Base.{
  ◌≡◌, ◌≢◌, refl, sym, ap, ◌∙◌, Bool, true, false, if◌then◌else◌, inl, inr, Option-cases, arith,
}
use oidc_exchange.Error.{Error, Result, ok, err, panicked, Result-cases}
use oidc_exchange.Domain.Audit.{AuditEvent}
use oidc_exchange.Service.{
  AppService, World, Action, pure, and_then, on_store, emit_audit, emit_mandatory_audit_event,
}

module _ {S : Type 0} where
  -- The flow leaves the store alone.
  abbrev pub Quiet : {A : Type 0} → Action S A → Type 0
  Quiet m = (w : World S) → (m w).1.store ≡ w.store

  pub emit_audit-Quiet : (app : AppService) (e : AuditEvent) → Quiet (emit_audit app e)
  unfolding emit_audit
  emit_audit-Quiet app e w = ground (arith, Option-cases (app.emit e))

  pub emit_mandatory-Quiet :
      (app : AppService) (e : AuditEvent) → Quiet (emit_mandatory_audit_event app e)
  unfolding emit_mandatory_audit_event
  emit_mandatory-Quiet app e w = ground (arith, Option-cases (app.emit e))

  pub pure-Quiet : {A : Type 0} (a : Result A) → Quiet (pure a)
  unfolding pure
  pure-Quiet a w = refl

  pub and_then-ok :
      {A B : Type 0} (m : Action S A) (k : A → Action S B) (w : World S) (a : A)
      → (m w).0 ≡ ok a
      → and_then m k w ≡ k a (m w).1
  unfolding and_then
  and_then-ok m k w a h = ground (arith, h)

  pub and_then-err :
      {A B : Type 0} (m : Action S A) (k : A → Action S B) (w : World S) (x : Error)
      → (m w).0 ≡ err x
      → and_then m k w ≡ (err x, (m w).1)
  unfolding and_then
  and_then-err m k w x h = ground (arith, h)

  pub and_then-panicked :
      {A B : Type 0} (m : Action S A) (k : A → Action S B) (w : World S)
      → (m w).0 ≡ panicked
      → and_then m k w ≡ (panicked, (m w).1)
  unfolding and_then
  and_then-panicked m k w h = ground (arith, h)

  pub and_then-Quiet :
      {A B : Type 0} (m : Action S A) (k : A → Action S B)
      → Quiet m
      → ((a : A) → Quiet (k a))
      → Quiet (and_then m k)
  unfolding and_then
  and_then-Quiet m k q f w = elim (Result-cases (m w).0) [
    | inl (a, h) ↦ ap (λ x. x.1.store) (and_then-ok m k w a h) ∙ f a (m w).1 ∙ q w
    | inr (inl (e, h)) ↦ ground (arith, h, q w)
    | inr (inr h) ↦ ground (arith, h, q w)
  ]

  pub if-Quiet :
      {A : Type 0} (b : Bool) (m n : Action S A) → Quiet m → Quiet n → Quiet (if b then m else n)
  if-Quiet true m n p q = p
  if-Quiet false m n p q = q

  -- The flow returns no value.
  abbrev pub Fails : {A : Type 0} → Action S A → Type 0
  Fails {A} m = (w : World S) (a : A) → (m w).0 ≢ ok a

  pub and_then-Fails :
      {A B : Type 0} (m : Action S A) (k : A → Action S B)
      → ((a : A) → Fails (k a))
      → Fails (and_then m k)
  unfolding and_then
  and_then-Fails m k f w b e = elim (Result-cases (m w).0) [
    | inl (a, h) ↦ f a (m w).1 b (sym (ap (λ x. x.0) (and_then-ok m k w a h)) ∙ e)
    | inr (inl (x, h)) ↦ ground (arith, h, e)
    | inr (inr h) ↦ ground (arith, h, e)
  ]

  pub if-Fails :
      {A : Type 0} (b : Bool) (m n : Action S A) → Fails m → Fails n → Fails (if b then m else n)
  if-Fails true m n p q = p
  if-Fails false m n p q = q

  pub panicked-Fails : {A : Type 0} → Fails {A = A} (pure panicked)
  unfolding pure
  panicked-Fails w a e = cc

  -- It also writes nothing.
  abbrev pub Refuses : {A : Type 0} → Action S A → Type 0
  Refuses m = Quiet m × Fails m

  pub if-Refuses :
      {A : Type 0} (b : Bool) (m n : Action S A)
      → Refuses m
      → Refuses n
      → Refuses (if b then m else n)
  if-Refuses true m n p q = p
  if-Refuses false m n p q = q

module _ {S : Type 0} where
  -- A call of the repository, followed by what leaves the store alone.
  pub on_store-Quiet :
      {A B : Type 0} (f : S → Result A × S) (k : A → Action S B)
      → ((a : A) → Quiet (k a))
      → (w : World S) → (and_then (on_store f) k w).1.store ≡ (f w.store).1
  unfolding on_store
  on_store-Quiet f k q w = elim (Result-cases (f w.store).0) [
    | inl (a, h) ↦
        ap (λ r. r.1.store) (and_then-ok (on_store f) k w a h)
        ∙ q a (record w { store = (f w.store).1 })
    | inr (inl (x, h)) ↦ ap (λ r. r.1.store) (and_then-err (on_store f) k w x h)
    | inr (inr h) ↦ ap (λ r. r.1.store) (and_then-panicked (on_store f) k w h)
  ]

  pub if-false : {A : Type 0} (b : Bool) (m n : Action S A) → b ≡ false → (if b then m else n) ≡ n
  if-false b m n e = rw e refl

  pub if-true : {A : Type 0} (b : Bool) (m n : Action S A) → b ≡ true → (if b then m else n) ≡ m
  if-true b m n e = rw e refl
