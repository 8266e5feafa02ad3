-- ===== src/Service/Refresh/Outcomes.antt =====
-- crates/core/src/service/refresh.rs: the outcomes of a redemption, by what the store resolved.
use oidc_exchange.Base.{
  ◌≡◌, sym, ap, ◌∙◌, true, false, not, ◌||◌, Text, ◌==◌, is_empty, length, if◌then◌else◌, arith,
  subst, text_eq,
}
use oidc_exchange.Error.{ok, panicked}
use oidc_exchange.Domain.Session.{Session, RefreshResolution, is_valid_family_id}
use oidc_exchange.Service.{SessionRepository, AppService, World, Action, pure, and_then, on_store}
use oidc_exchange.Service.Refresh.{
  RefreshRequest, TokenResponse, Draws, refresh_without_rotation, refresh_with_rotation, refresh,
  refresh_hash_hex_len, mint_replacement,
}
use oidc_exchange.Service.Flow.{and_then-ok}
use oidc_exchange.Service.Refresh.Gates.{refresh_without_rotation-Quiet}

-- The replacement keeps the user, the deadline and the date of the sign-in, names a well-formed
-- family, which is the old one unless the row was a legacy row, and has a new hash.
pub mint_replacement-inherits :
    (draws : Draws) (s : Session) (raw : Text) (t : Session)
    → mint_replacement draws s ≡ ok (raw, t)
    → (t.user_id ≡ s.user_id)
      × (t.expires_at ≡ s.expires_at)
      × (t.created_at ≡ s.created_at)
      × (is_valid_family_id t.family_id ≡ true)
      × (is_empty s.family_id ≡ false → t.family_id ≡ s.family_id)
      × (text_eq t.refresh_token_hash s.refresh_token_hash ≡ false)
      × (t.refresh_token_hash ≡ draws.digest raw)
unfolding mint_replacement
mint_replacement-inherits draws s raw t h = ground arith

module _ {S : Type 0} (repo : SessionRepository S) (app : AppService) (draws : Draws)
    (request : RefreshRequest) where
  -- The request passes the assertions, and the store resolves its token.
  pub record Resolved (w : World S) (resolution : RefreshResolution) (s' : S) : Type 0 where
    pub full : is_empty request.refresh_token ≡ false
    pub digested : (length (draws.digest request.refresh_token) == refresh_hash_hex_len) ≡ true
    pub answer :
        repo.resolve_refresh_token (draws.digest request.refresh_token) draws.at_resolve w.store
        ≡ (ok resolution, s')

  abbrev pub by_rotation : RefreshResolution → Action S TokenResponse
  by_rotation resolution =
      if app.refresh_rotation
      then refresh_with_rotation repo app draws request resolution
      else refresh_without_rotation repo app draws request resolution

  pub dispatch :
      (w : World S) (resolution : RefreshResolution) (s' : S)
      → Resolved w resolution s'
      → refresh repo app draws request w ≡ by_rotation resolution (record w { store = s' })
  unfolding refresh on_store
  dispatch w resolution s' r =
      let resolve =
        repo.resolve_refresh_token (draws.digest request.refresh_token) draws.at_resolve in
      let guard : (is_empty request.refresh_token
            || not (length (draws.digest request.refresh_token) == refresh_hash_hex_len))
          ≡ false =
        ground (arith, r.full, r.digested) in
      subst
        (λ b.
          (if b then pure panicked else and_then (on_store resolve) by_rotation) w
          ≡ by_rotation resolution (record w { store = s' }))
        (sym guard)
        (and_then-ok (on_store resolve) by_rotation w resolution (ap (λ x. x.0) r.answer)
          ∙ ap (λ x. by_rotation resolution (record w { store = x.1 })) r.answer)

  -- With rotation off a redemption writes nothing, whatever the store resolved and whatever the
  -- audit sink and the user repository answer: the store is as the lookup left it. The token is not
  -- empty and its digest has 64 characters.
  pub refresh-without_rotation :
      (w : World S) (resolution : RefreshResolution) (s' : S)
      → app.refresh_rotation ≡ false
      → Resolved w resolution s'
      → (refresh repo app draws request w).1.store ≡ s'
  refresh-without_rotation w resolution s' off r =
      ap (λ x. x.1.store)
        (dispatch w resolution s' r
          ∙ ap
              (λ b.
                (if b
                    then refresh_with_rotation repo app draws request resolution
                    else refresh_without_rotation repo app draws request resolution)
                  (record w { store = s' }))
              off)
      ∙ refresh_without_rotation-Quiet repo app draws request resolution (record w { store = s' })
