-- ===== src/Service/Assertion/Once.antt =====
-- crates/core/src/service/assertion.rs over crates/adapters/src/lmdb/mod.rs: an assertion that was
-- accepted.
use oidc_exchange.Base.{
  ℕ, ◌-◌, ◌/◌, ◌^◌, not, ◌||◌, length, ◌==◌, ◌<◌, ◌≡◌, ◌≢◌, refl, sym, subst, ap, ◌∙◌, Bool, true,
  false, Option, none, some, List, [], ◌∷◌, Text, codes, ltb, is_empty, text_eq_iff, text_eq_refl,
  get, get-put, inl, inr, Option-cases, Bool-cases, All, arith,
}
use oidc_exchange.Error.{Result, ok, err, panicked, Result-cases}
use oidc_exchange.Domain.Session.{seconds_after}
use oidc_exchange.Lmdb.{Dbs, Lmdb, transaction}
use oidc_exchange.Lmdb.Atomic.{transaction-ok, transaction-failed}
use oidc_exchange.Lmdb.SingleUse.{put_in, take_in, put_single_use, take_single_use}
use oidc_exchange.Lmdb.SingleUse.Claims.{put_in-other}
use oidc_exchange.Service.Lmdb.{lmdb_repository}
use oidc_exchange.Service.Assertion.{
  IdentityClaims, AssertionContext, Digests, Clocks, Binding, bound, rejected, store, halted,
  str_claim, nonempty, nonce_key, assertion_marker_key, used, consume_nonce, claim_assertion_marker,
  nonce_gate, burn, controls, bind, mint_nonce,
}

-- A transaction keeps what its body keeps.
transaction-keeps :
    {A : Type 0} (P : Dbs → Type 0) (body : Dbs → A × Dbs) (r : Lmdb)
    → P (body r.dbs).1
    → P r.dbs
    → P (transaction (λ dbs. ok (body dbs)) r).1.dbs
transaction-keeps P body r f p =
    let run = transaction (λ dbs. ok (body dbs)) r in
    elim (Result-cases run.0) as (λ _. P run.1.dbs) [
      | inl (a, h) ↦
          (let same : (body r.dbs).1 ≡ run.1.dbs =
              ground (arith, transaction-ok (λ dbs. ok (body dbs)) r a h) in
            subst P same f)
      | inr (inl (x, h)) ↦
          subst P (sym (transaction-failed (λ dbs. ok (body dbs)) r (λ a e. ground (arith, h, e))))
            p
      | inr (inr h) ↦
          subst P (sym (transaction-failed (λ dbs. ok (body dbs)) r (λ a e. ground (arith, h, e))))
            p
    ]

head : Text → ℕ
head [] = 0
head (c ∷ _) = c

-- The keys of markers and of nonces differ in their first character.
marker_head :
    (digests : Digests) (ctx : AssertionContext) (claims : IdentityClaims)
    → head (assertion_marker_key digests ctx claims) ≡ 97
unfolding assertion_marker_key head
marker_head digests ctx claims = elim (Option-cases (nonempty (str_claim claims (codes "jti")))) [
  | inl n ↦ ground (arith, n)
  | inr (jti, n) ↦ ground (arith, n)
]

nonce_head : (digests : Digests) (nonce : Text) → head (nonce_key digests nonce) ≡ 110
unfolding nonce_key head
nonce_head digests nonce = refl

module _ (digests : Digests) (ctx : AssertionContext) (claims : IdentityClaims) (e : ℕ) where
  abbrev key : Text
  key = assertion_marker_key digests ctx claims

  -- The marker of the assertion stands, until its expiry.
  abbrev Held : Dbs → Type 0
  Held d = get key d.single_use ≡ some e

  not_nonce : (nonce : Text) → key ≢ nonce_key digests nonce
  not_nonce nonce same =
      ground (arith, sym (marker_head digests ctx claims) ∙ ap head same ∙ nonce_head digests nonce)

  put_in-Held : (k : Text) (e' now : ℕ) (d : Dbs) → now < e → Held d → Held (put_in k e' now d).1
  unfolding put_in
  put_in-Held k e' now d t h = ground (arith, h, get-put k key e' d.single_use, text_eq_iff key k)

  put_single-Held :
      (k : Text) (e' now : ℕ) (r : Lmdb)
      → now < e
      → Held r.dbs
      → Held (put_single_use k e' now r).1.dbs
  unfolding put_single_use
  put_single-Held k e' now r t h = elim (Bool-cases (is_empty k)) [
    | inl b ↦ rw b h
    | inr b ↦ rw b (transaction-keeps Held (put_in k e' now) r (put_in-Held k e' now r.dbs t h) h)
  ]

  take_single-Held :
      (k : Text) (now : ℕ) (r : Lmdb) → key ≢ k → Held r.dbs → Held (take_single_use k now r).1.dbs
  unfolding take_single_use
  take_single-Held k now r n h = elim (Bool-cases (is_empty k)) [
    | inl b ↦ rw b h
    | inr b ↦
        rw b (transaction-keeps Held (take_in k now) r ((put_in-other k key 0 now r.dbs n).1 ∙ h) h)
  ]

  found-Held :
      (found : Option Text) (now : ℕ) (r : Lmdb)
      → Held r.dbs
      → Held
          (elim found as (λ _. Binding (Unit {0}) × Lmdb) [
            | none ↦ (rejected (codes "nonce") (codes "assertion carries no usable nonce"), r)
            | some nonce ↦ (
              used
                  (codes "nonce")
                  (codes "nonce is missing, expired, or already used")
                  (take_single_use (nonce_key digests nonce) now r).0,
              (take_single_use (nonce_key digests nonce) now r).1,
            )
          ]).1.dbs
  found-Held none now r h = h
  found-Held (some nonce) now r h =
      take_single-Held (nonce_key digests nonce) now r (not_nonce nonce) h

  nonce_gate-Held :
      (c : IdentityClaims) (x : AssertionContext) (now : ℕ) (r : Lmdb)
      → Held r.dbs
      → Held (nonce_gate lmdb_repository digests c x now r).1.dbs
  unfolding nonce_gate consume_nonce
  nonce_gate-Held c x now r h = elim (Bool-cases x.require_nonce) [
    | inr b ↦ rw b h
    | inl b ↦ rw b (found-Held (nonempty (str_claim c (codes "nonce"))) now r h)
  ]

  burn-Held :
      (c : IdentityClaims) (x : AssertionContext) (clocks : Clocks) (e' : ℕ) (r : Lmdb)
      → clocks.at_put < e
      → Held r.dbs
      → Held (burn lmdb_repository digests c x clocks e' r).1.dbs
  unfolding burn claim_assertion_marker
  burn-Held c x clocks e' r t h =
      let gate = nonce_gate lmdb_repository digests c x clocks.at_take r in
      let after = nonce_gate-Held c x clocks.at_take r h in
      let put =
        put_single-Held (assertion_marker_key digests x c) e' clocks.at_put gate.1 t after in
      elim gate.0
        as (λ g.
          Held
            (elim g as (λ _. Binding (Unit {0}) × Lmdb) [
              | bound _ ↦ claim_assertion_marker lmdb_repository digests c x e' clocks.at_put gate.1
              | rejected check reason ↦ (rejected check reason, gate.1)
              | store y ↦ (store y, gate.1)
              | halted ↦ (halted, gate.1)
            ]).1.dbs) [ bound _ ↦ put | rejected _ _ ↦ after | store _ ↦ after | halted ↦ after ]

  bind-Held :
      (c : IdentityClaims) (x : AssertionContext) (clocks : Clocks) (r : Lmdb)
      → clocks.at_put < e
      → Held r.dbs
      → Held (bind lmdb_repository digests c x clocks r).1.dbs
  unfolding bind
  bind-Held c x clocks r t h =
      elim (controls lmdb_repository digests c x clocks.at_bind)
        as (λ g.
          Held
            (elim g as (λ _. Binding (Unit {0}) × Lmdb) [
              | bound e' ↦ burn lmdb_repository digests c x clocks e' r
              | rejected check reason ↦ (rejected check reason, r)
              | store y ↦ (store y, r)
              | halted ↦ (halted, r)
            ]).1.dbs) [
              | bound e' ↦ burn-Held c x clocks e' r t h
              | rejected _ _ ↦ h
              | store _ ↦ h
              | halted ↦ h
            ]

  mint_nonce-Held :
      (ttl : ℕ) (nonce : Text) (now at_put : ℕ) (r : Lmdb)
      → at_put < e
      → Held r.dbs
      → Held (mint_nonce lmdb_repository digests ttl nonce now at_put r).1.dbs
  unfolding mint_nonce
  mint_nonce-Held ttl nonce now at_put r t h =
      let guard =
        ltb ((2 ^ 64 - 1) / 2) ttl
        || not (length nonce == 43)
        || not (length (digests.sha256_hex nonce) == 64) in
      elim (Bool-cases guard) [
        | inl b ↦ rw b h
        | inr b ↦ elim (Result-cases (seconds_after now ttl)) [
          | inl (d, q) ↦ rw (b, q) (put_single-Held (nonce_key digests nonce) d at_put r t h)
          | inr (inl (x, q)) ↦ rw (b, q) h
          | inr (inr q) ↦ rw (b, q) h
        ]
      ]

-- The flows that write single-use records.
pub data Use : Type 0 where
  binding : IdentityClaims → AssertionContext → Clocks → Use
  minting : ℕ → Text → ℕ → ℕ → Use

abbrev pub apply_use : Digests → Use → Lmdb → Lmdb
apply_use digests (binding c x clocks) r = (bind lmdb_repository digests c x clocks r).1
apply_use digests (minting ttl nonce now at_put) r =
    (mint_nonce lmdb_repository digests ttl nonce now at_put r).1

abbrev pub apply_uses : Digests → List Use → Lmdb → Lmdb
apply_uses digests [] r = r
apply_uses digests (u ∷ us) r = apply_uses digests us (apply_use digests u r)

-- The clock at the claim of the flow.
abbrev pub claimed_at : Use → ℕ
claimed_at (binding _ _ clocks) = clocks.at_put
claimed_at (minting _ _ _ at_put) = at_put

module _ (digests : Digests) (ctx : AssertionContext) (claims : IdentityClaims) (e : ℕ) where
  apply_use-Held :
      (u : Use) (r : Lmdb)
      → claimed_at u < e
      → Held digests ctx claims e r.dbs
      → Held digests ctx claims e (apply_use digests u r).dbs
  apply_use-Held (binding c x clocks) r t h = bind-Held digests ctx claims e c x clocks r t h
  apply_use-Held (minting ttl nonce now at_put) r t h =
      mint_nonce-Held digests ctx claims e ttl nonce now at_put r t h

  apply_uses-Held :
      (us : List Use) (r : Lmdb)
      → All (λ (u : Use). claimed_at u < e) us
      → Held digests ctx claims e r.dbs
      → Held digests ctx claims e (apply_uses digests us r).dbs
  apply_uses-Held [] r t h = h
  apply_uses-Held (u ∷ us) r (t, ts) h = apply_uses-Held us _ ts (apply_use-Held u r t h)

  used-bound :
      (check reason : Text) (a : Result Bool) → used check reason a ≡ bound tt → a ≡ ok true
  unfolding used
  used-bound check reason (ok true) h = refl
  used-bound check reason (ok false) h = cc
  used-bound check reason (err x) h = cc
  used-bound check reason panicked h = cc

  put_single-won :
      (k : Text) (e' now : ℕ) (r : Lmdb)
      → (put_single_use k e' now r).0 ≡ ok true
      → get k (put_single_use k e' now r).1.dbs.single_use ≡ some e'
  unfolding put_single_use put_in
  put_single-won k e' now r h = elim (Bool-cases (is_empty k)) [
    | inl b ↦ absurd (ground (arith, b, h))
    | inr b ↦ rw b (
        let body = λ (dbs : Dbs). ok (put_in k e' now dbs) in
        let run = transaction-ok body r true (ground (arith, b, h)) in
        ground (arith, run, get-put k k e' r.dbs.single_use, text_eq_refl k))
  ]

  put_single-lost :
      (k : Text) (e' now expires_at : ℕ) (r : Lmdb)
      → get k r.dbs.single_use ≡ some expires_at
      → now < expires_at
      → (put_single_use k e' now r).0 ≢ ok true
  unfolding put_single_use put_in
  put_single-lost k e' now expires_at r h t won =
      let body = λ (dbs : Dbs). ok (put_in k e' now dbs) in
      elim (Bool-cases (is_empty k)) [
        | inl b ↦ ground (arith, b, won)
        | inr b ↦
            (let run = transaction-ok body r true (ground (arith, b, won)) in
              ground (arith, run, h, t))
      ]

  -- What a binding that is accepted has done.
  burn-bound :
      (c : IdentityClaims) (x : AssertionContext) (clocks : Clocks) (e' : ℕ) (r : Lmdb)
      → (burn lmdb_repository digests c x clocks e' r).0 ≡ bound tt
      → (g : Lmdb) × (g ≡ (nonce_gate lmdb_repository digests c x clocks.at_take r).1)
        × ((put_single_use (assertion_marker_key digests x c) e' clocks.at_put g).0 ≡ ok true)
        × ((burn lmdb_repository digests c x clocks e' r).1
            ≡ (put_single_use (assertion_marker_key digests x c) e' clocks.at_put g).1)
  unfolding burn claim_assertion_marker
  burn-bound c x clocks e' r h =
      let gate = nonce_gate lmdb_repository digests c x clocks.at_take r in
      let put = put_single_use (assertion_marker_key digests x c) e' clocks.at_put gate.1 in
      let Run = λ (g : Binding (Unit {0})). elim g as (λ _. Binding (Unit {0}) × Lmdb) [
        | bound _ ↦ claim_assertion_marker lmdb_repository digests c x e' clocks.at_put gate.1
        | rejected check reason ↦ (rejected check reason, gate.1)
        | store y ↦ (store y, gate.1)
        | halted ↦ (halted, gate.1)
      ] in
      (
        gate.1,
        refl,
        elim gate.0 as (λ g. (Run g).0 ≡ bound tt → put.0 ≡ ok true) [
          | bound _ ↦ (λ b. used-bound _ _ put.0 b)
          | rejected _ _ ↦ (λ b. cc)
          | store _ ↦ (λ b. cc)
          | halted ↦ (λ b. cc)
        ]
            h,
        elim gate.0 as (λ g. (Run g).0 ≡ bound tt → (Run g).1 ≡ put.1) [
          | bound _ ↦ (λ b. refl)
          | rejected _ _ ↦ (λ b. cc)
          | store _ ↦ (λ b. cc)
          | halted ↦ (λ b. cc)
        ]
            h,
      )

  bind-bound :
      (c : IdentityClaims) (x : AssertionContext) (clocks : Clocks) (r : Lmdb)
      → (bind lmdb_repository digests c x clocks r).0 ≡ bound tt
      → (e' : ℕ) × (controls lmdb_repository digests c x clocks.at_bind ≡ bound e')
        × ((burn lmdb_repository digests c x clocks e' r).0 ≡ bound tt)
        × ((bind lmdb_repository digests c x clocks r).1
            ≡ (burn lmdb_repository digests c x clocks e' r).1)
  unfolding bind
  bind-bound c x clocks r h =
      by_controls (controls lmdb_repository digests c x clocks.at_bind) refl h
    where
      by_controls :
          (g : Binding ℕ)
          → controls lmdb_repository digests c x clocks.at_bind ≡ g
          → (bind lmdb_repository digests c x clocks r).0 ≡ bound tt
          → (e' : ℕ) × (controls lmdb_repository digests c x clocks.at_bind ≡ bound e')
            × ((burn lmdb_repository digests c x clocks e' r).0 ≡ bound tt)
            × ((bind lmdb_repository digests c x clocks r).1
                ≡ (burn lmdb_repository digests c x clocks e' r).1)
      by_controls (bound e') q b = (e', q, ground (arith, q, b), ground (arith, q))
      by_controls (rejected _ _) q b = absurd (ground (arith, q, b))
      by_controls (store _) q b = absurd (ground (arith, q, b))
      by_controls halted q b = absurd (ground (arith, q, b))

  -- An assertion is accepted once. After a binding that is accepted, no binding of the same marker is
  -- accepted before the assertion expires, with the same or another request and nonce, whatever
  -- bindings and nonces the LMDB store serves in between and whichever of their transactions fail. The
  -- clocks of the claims in between and of the last one are before the expiry.
  pub bind-once :
      (clocks clocks' : Clocks) (c' : IdentityClaims) (ctx' : AssertionContext) (r : Lmdb)
      (us : List Use)
      → controls lmdb_repository digests claims ctx clocks.at_bind ≡ bound e
      → (bind lmdb_repository digests claims ctx clocks r).0 ≡ bound tt
      → assertion_marker_key digests ctx' c' ≡ assertion_marker_key digests ctx claims
      → All (λ (u : Use). claimed_at u < e) us
      → clocks'.at_put < e
      → (bind lmdb_repository digests c' ctx' clocks'
          (apply_uses digests us (bind lmdb_repository digests claims ctx clocks r).1)).0
        ≢ bound tt
  bind-once clocks clocks' c' ctx' r us passed first same ts t second =
      let (e0, q, b, left) = bind-bound claims ctx clocks r first in
      let expiry : e0 ≡ e = ground (arith, q, passed) in
      let (g, _, won, after) = burn-bound claims ctx clocks e0 r b in
      let marked : Held digests ctx claims e
          (bind lmdb_repository digests claims ctx clocks r).1.dbs =
        ap (λ (x : Lmdb). get (assertion_marker_key digests ctx claims) x.dbs.single_use)
          (left ∙ after)
        ∙ put_single-won (assertion_marker_key digests ctx claims) e0 clocks.at_put g won
        ∙ ap some expiry in
      let r' = apply_uses digests us (bind lmdb_repository digests claims ctx clocks r).1 in
      let held =
        apply_uses-Held us (bind lmdb_repository digests claims ctx clocks r).1 ts marked in
      let (e1, _, b1, _) = bind-bound c' ctx' clocks' r' second in
      let (g1, from, won1, _) = burn-bound c' ctx' clocks' e1 r' b1 in
      let gated =
        ap (λ (x : Lmdb). get (assertion_marker_key digests ctx claims) x.dbs.single_use) from
        ∙ nonce_gate-Held digests ctx claims e c' ctx' clocks'.at_take r' held in
      put_single-lost (assertion_marker_key digests ctx' c') e1 clocks'.at_put e g1
        (ap (λ (k : Text). get k g1.dbs.single_use) same ∙ gated) t won1
