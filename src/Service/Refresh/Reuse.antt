-- ===== src/Service/Refresh/Reuse.antt =====
-- crates/core/src/service/refresh.rs: a retired token that is presented again.
use oidc_exchange.Base.{
  ℕ, ◌≡◌, refl, sym, ap, ◌∙◌, true, false, ◌&&◌, none, some, [], ◌∷◌, Text, ltb, leb, is_empty,
  if◌then◌else◌, inl, inr, arith, codes,
}
use oidc_exchange.Error.{ok, err, Result-cases, invalid_token}
use oidc_exchange.Domain.Session.{
  Session, RefreshResolution, superseded, retired, unknown, is_valid_family_id,
}
use oidc_exchange.Domain.Audit
use oidc_exchange.Domain.Audit.{AuditEvent, rank, text, number, success}
use oidc_exchange.Service.{
  SessionRepository, AppService, World, Action, pure, and_then, on_store, emit_audit,
  emit_mandatory_audit_event, emit_security_event_with_detail,
}
use oidc_exchange.Service.Refresh.{
  RefreshRequest, TokenResponse, Draws, within_grace, refuse_with_validation_failed,
  revoke_family_for_reuse, unknown_refresh_token_reason, refresh_with_rotation,
  refresh_without_rotation, refresh, refusal, max_refresh_rotation_grace_secs, rotation_grace_secs,
}
use oidc_exchange.Service.Flow.{
  Quiet, and_then-ok, and_then-Quiet, pure-Quiet, emit_mandatory-Quiet,
}
use oidc_exchange.Service.Refresh.Outcomes.{Resolved, dispatch}

module _ {S : Type 0} where
  emit_mandatory-up :
      (app : AppService) (e : AuditEvent) (w : World S)
      → app.emit e ≡ none
      → (emit_mandatory_audit_event app e w).0 ≡ ok tt
  unfolding emit_mandatory_audit_event
  emit_mandatory-up app e w up = ground (arith, up)

  emit_audit-up :
      (app : AppService) (e : AuditEvent) (w : World S)
      → app.emit e ≡ none
      → (emit_audit app e w).0 ≡ ok tt
  unfolding emit_audit
  emit_audit-up app e w up = ground (arith, up)

module _ {S : Type 0} (repo : SessionRepository S) (app : AppService) (draws : Draws)
    (request : RefreshRequest) where
  -- The resolutions that are reuse, with the family and its user: a retired generation, and a
  -- superseded one whose grace is over.
  pub data Reused : RefreshResolution → Text → Text → Type 0 where
    retirement : (f u : Text) (at : ℕ) → Reused (retired f u at) f u
    grace_over :
        (s : Session) (at : ℕ)
        → (ltb 0 app.refresh_rotation_grace
            && leb app.refresh_rotation_grace max_refresh_rotation_grace_secs)
          ≡ true
        → within_grace draws.at_grace at app.refresh_rotation_grace ≡ false
        → Reused (superseded s at) s.family_id s.user_id

  Reused-run :
      (res : RefreshResolution) (f u : Text) (w : World S)
      → Reused res f u
      → refresh_with_rotation repo app draws request res w
        ≡ revoke_family_for_reuse repo app draws request f u w
  unfolding refresh_with_rotation rotation_grace_secs pure and_then
  Reused-run _ _ _ w (retirement f u at) = refl
  Reused-run _ _ _ w (grace_over s at bounded over) = ground (arith, bounded, over)

  -- The audit of a reuse, and the refusal.
  abbrev announce : Text → Text → ℕ → Action S TokenResponse
  announce f u n =
      and_then
        (emit_security_event_with_detail app Audit.refresh_token_reuse success (some u) none
          request.client_addr request.user_agent
          ((codes "family_id", text f) ∷ (codes "sessions_revoked", number n) ∷ []))
        (λ _. pure (err (invalid_token unknown_refresh_token_reason)))

  announce-Quiet : (f u : Text) (n : ℕ) → Quiet (announce f u n)
  unfolding emit_security_event_with_detail
  announce-Quiet f u n = and_then-Quiet _ _ (emit_mandatory-Quiet app _) (λ _. pure-Quiet _)

  revoke-run :
      (f u : Text) (w : World S)
      → is_valid_family_id f ≡ true
      → is_empty u ≡ false
      → revoke_family_for_reuse repo app draws request f u w
        ≡ and_then (on_store (repo.revoke_family f)) (announce f u) w
  unfolding revoke_family_for_reuse
  revoke-run f u w v full = ground (arith, v, full)

  revoke-store :
      (f u : Text) (w : World S)
      → (and_then (on_store (repo.revoke_family f)) (announce f u) w).1.store
        ≡ (repo.revoke_family f w.store).1
  unfolding on_store and_then
  revoke-store f u w = elim (Result-cases (repo.revoke_family f w.store).0) [
    | inl (n, h) ↦
        ap (λ x. x.1.store) (and_then-ok (on_store (repo.revoke_family f)) (announce f u) w n h)
        ∙ announce-Quiet f u n (on_store (repo.revoke_family f) w).1
    | inr (inl (e, h)) ↦ ground (arith, h)
    | inr (inr h) ↦ ground (arith, h)
  ]

  on_rotation :
      (w : World S) (res : RefreshResolution) (s' : S)
      → app.refresh_rotation ≡ true
      → Resolved repo app draws request w res s'
      → refresh repo app draws request w
        ≡ refresh_with_rotation repo app draws request res (record w { store = s' })
  on_rotation w res s' on r =
      dispatch repo app draws request w res s' r
      ∙ ap
          (λ b.
            (if b
                then refresh_with_rotation repo app draws request res
                else refresh_without_rotation repo app draws request res)
              (record w { store = s' }))
          on

  -- A reused token revokes its family before anything is announced: whatever the audit sink answers,
  -- the store is as the revocation leaves it. Rotation is on, the family id is well formed and the
  -- user id is not empty.
  pub refresh-reuse_revokes :
      (w : World S) (res : RefreshResolution) (s' : S) (f u : Text)
      → app.refresh_rotation ≡ true
      → Resolved repo app draws request w res s'
      → Reused res f u
      → is_valid_family_id f ≡ true
      → is_empty u ≡ false
      → (refresh repo app draws request w).1.store ≡ (repo.revoke_family f s').1
  refresh-reuse_revokes w res s' f u on r p v full =
      let w' : World S = record w { store = s' } in
      ap (λ x. x.1.store)
        (on_rotation w res s' on r ∙ Reused-run res f u w' p ∙ revoke-run f u w' v full)
      ∙ revoke-store f u w'

  announced :
      (f u : Text) (n : ℕ) (w : World S)
      → ((e : AuditEvent) → app.emit e ≡ none)
      → (announce f u n w).0 ≡ err (invalid_token unknown_refresh_token_reason)
  unfolding emit_security_event_with_detail pure
  announced f u n w up =
      ap (λ x. x.0)
        (and_then-ok
          (emit_security_event_with_detail app Audit.refresh_token_reuse success (some u) none
            request.client_addr request.user_agent
            ((codes "family_id", text f) ∷ (codes "sessions_revoked", number n) ∷ []))
          (λ _. pure (err (invalid_token unknown_refresh_token_reason))) w tt
          (emit_mandatory-up app _ w (up _)))

  refused :
      (w : World S)
      → ((e : AuditEvent) → app.emit e ≡ none)
      → (refresh_with_rotation repo app draws request unknown w).0
        ≡ err (invalid_token unknown_refresh_token_reason)
  unfolding refresh_with_rotation refuse_with_validation_failed pure is_empty
  refused w up =
      ap (λ x. x.0)
        (and_then-ok (emit_audit app (refusal repo app draws request none))
          (λ _. pure (err (invalid_token unknown_refresh_token_reason))) w tt
          (emit_audit-up app _ w (up _)))

  -- The presenter cannot tell a detected reuse from a token that never existed: while the audit sink
  -- is up and the family's revocation succeeds, the answers are the same. Rotation is on, the family
  -- id is well formed and the user id is not empty.
  pub refresh-reuse_hidden :
      (w v : World S) (res : RefreshResolution) (s' t' : S) (f u : Text) (n : ℕ)
      → app.refresh_rotation ≡ true
      → Resolved repo app draws request w res s'
      → Reused res f u
      → is_valid_family_id f ≡ true
      → is_empty u ≡ false
      → (repo.revoke_family f s').0 ≡ ok n
      → ((e : AuditEvent) → app.emit e ≡ none)
      → Resolved repo app draws request v unknown t'
      → (refresh repo app draws request w).0 ≡ (refresh repo app draws request v).0
  unfolding on_store
  refresh-reuse_hidden w v res s' t' f u n on r p valid full revoked up q =
      let w' : World S = record w { store = s' } in
      ap (λ x. x.0)
        (on_rotation w res s' on r
          ∙ Reused-run res f u w' p
          ∙ revoke-run f u w' valid full
          ∙ and_then-ok (on_store (repo.revoke_family f)) (announce f u) w' n revoked)
      ∙ announced f u n (on_store (repo.revoke_family f) w').1 up
      ∙ sym (refused (record v { store = t' }) up)
      ∙ sym (ap (λ x. x.0) (on_rotation v unknown t' on q))
