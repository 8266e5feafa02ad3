-- ===== src/Service/Refresh/Barred.antt =====
-- crates/core/src/service/refresh.rs: the holders that are turned away before any write.
use oidc_exchange.Base.{
  ◌≡◌, ◌≢◌, sym, ap, ◌∙◌, true, false, Option, none, some, Text, ltb, is_empty,
}
use oidc_exchange.Error.{ok, err, panicked, user_suspended}
use oidc_exchange.Domain.Session.{Session, live}
use oidc_exchange.Domain.Audit
use oidc_exchange.Domain.User.{User}
use oidc_exchange.Service.{
  SessionRepository, AppService, World, Action, pure, and_then, emit_mandatory_audit_event,
  emit_security_event_with_detail,
}
use oidc_exchange.Service.Refresh.{
  RefreshRequest, TokenResponse, Draws, is_active, refuse_with_validation_failed, user_gate, gated,
  rotate_and_respond, refresh_with_rotation, refresh_without_rotation, refresh,
}
use oidc_exchange.Service.Flow.{
  emit_mandatory-Quiet, pure-Quiet, and_then-Quiet, and_then-Fails, if-Fails, panicked-Fails,
  Refuses, if-Refuses,
}
use oidc_exchange.Service.Refresh.Gates.{refuse-Quiet}
use oidc_exchange.Service.Refresh.Outcomes.{Resolved, dispatch, by_rotation}

module _ {S : Type 0} (repo : SessionRepository S) (app : AppService) (draws : Draws)
    (request : RefreshRequest) where
  -- Why the holder of a session is turned away: its family is past its deadline, its user is not
  -- found, or its user is not active.
  pub data Barred (s : Session) : Type 0 where
    expired : ltb s.expires_at draws.at_expiry ≡ true → Barred s
    missing : app.get_user_by_id s.user_id ≡ ok none → Barred s
    inactive :
        (u : User)
        → app.get_user_by_id s.user_id ≡ ok (some u)
        → is_active u.status ≡ false
        → Barred s

  refuse-Refuses :
      (reason : Text) (actor : Option Text)
      → Refuses (refuse_with_validation_failed repo app draws request reason actor)
  unfolding refuse_with_validation_failed pure
  refuse-Refuses reason actor = (
    refuse-Quiet repo app draws request reason actor,
    if-Fails (is_empty reason) _ _ panicked-Fails (and_then-Fails _ _ (λ _ w t e. cc)),
  )

  suspended-Refuses :
      (e : Audit.AuditEvent) (u : User)
      → Refuses {S = S} {A = TokenResponse}
          (and_then (emit_mandatory_audit_event app e) (λ _. pure (err (user_suspended u.id))))
  unfolding pure
  suspended-Refuses e u = (
    and_then-Quiet _ _ (emit_mandatory-Quiet app e)
        (λ _. pure-Quiet {S = S} {A = TokenResponse} (err (user_suspended u.id))),
    and_then-Fails _ _ (λ _ w t x. cc),
  )

  inactive-Refuses :
      (s : Session) (u : User) (serve : User → Action S TokenResponse)
      → is_active u.status ≡ false
      → Refuses (user_gate repo app draws request s (some u) serve)
  unfolding user_gate emit_security_event_with_detail
  inactive-Refuses s u serve n = rw n (suspended-Refuses _ u)

  found-Refuses :
      (found : Option User) (s : Session) (serve : User → Action S TokenResponse)
      → Refuses (user_gate repo app draws request s found serve)
      → app.get_user_by_id s.user_id ≡ ok found
      → Refuses (
          and_then
            (pure (app.get_user_by_id s.user_id))
            (λ x. user_gate repo app draws request s x serve))
  unfolding and_then pure
  found-Refuses found s serve p e = rw e p

  missing-Refuses :
      (s : Session) (serve : User → Action S TokenResponse)
      → Refuses (user_gate repo app draws request s none serve)
  unfolding user_gate
  missing-Refuses s serve = refuse-Refuses _ _

  gated-Refuses :
      (s : Session) (serve : User → Action S TokenResponse)
      → Barred s
      → Refuses (gated repo app draws request s serve)
  unfolding gated
  gated-Refuses s serve (expired e) = rw e (refuse-Refuses _ _)
  gated-Refuses s serve (missing e) =
      if-Refuses (ltb s.expires_at draws.at_expiry) _ _ (refuse-Refuses _ _)
        (found-Refuses none s serve (missing-Refuses s serve) e)
  gated-Refuses s serve (inactive u e n) =
      if-Refuses (ltb s.expires_at draws.at_expiry) _ _ (refuse-Refuses _ _)
        (found-Refuses (some u) s serve (inactive-Refuses s u serve n) e)

  Barred-Refuses : (s : Session) → Barred s → Refuses (by_rotation repo app draws request (live s))
  unfolding refresh_with_rotation refresh_without_rotation rotate_and_respond
  Barred-Refuses s b =
      if-Refuses app.refresh_rotation _ _
        (if-Refuses (is_empty s.refresh_token_hash) _ _ (pure-Quiet panicked, panicked-Fails)
          (gated-Refuses s _ b))
        (if-Refuses (is_empty s.refresh_token_hash) _ _ (pure-Quiet panicked, panicked-Fails)
          (gated-Refuses s _ b))

  -- A live session whose family is past its deadline, or whose user is missing, suspended or
  -- deleted, yields no tokens and no write, with rotation on or off: the store is as the lookup left
  -- it.
  pub refresh-Barred :
      (w : World S) (s : Session) (s' : S)
      → Resolved repo app draws request w (live s) s'
      → Barred s
      → ((refresh repo app draws request w).1.store ≡ s')
        × ((t : TokenResponse) → (refresh repo app draws request w).0 ≢ ok t)
  refresh-Barred w s s' r b =
      let run = dispatch repo app draws request w (live s) s' r in
      let (quiet, fails) = Barred-Refuses s b in
      (
        ap (λ x. x.1.store) run ∙ quiet (record w { store = s' }),
        λ t e. fails (record w { store = s' }) t (sym (ap (λ x. x.0) run) ∙ e),
      )
