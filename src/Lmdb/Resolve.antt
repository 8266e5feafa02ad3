-- ===== src/Lmdb/Resolve.antt =====
-- How a presented hash classifies, in terms of the rows.
use oidc_exchange.Base.{
  ℕ, ◌≡◌, refl, some, none, Text, text_eq_iff, get, leb, if◌then◌else◌, arith, inl, inr, Option,
  Option-cases,
}
use oidc_exchange.Error.{ok}
use oidc_exchange.Domain.Session.{
  Session, RetiredRefreshToken, RefreshResolution, live, superseded, retired, unknown,
}
use oidc_exchange.Lmdb.{Dbs}
use oidc_exchange.Lmdb.Sessions.{resolve_in}
use oidc_exchange.Lmdb.Consistent.{Consistent}

-- The classification, with no code of the store in it: a live row first, then a record that is
-- still retained, and of that whether its successor is live.
abbrev heir_of : RetiredRefreshToken → Option Session → RefreshResolution
heir_of r (some s) = superseded s r.retired_at
heir_of r none = retired r.family_id r.user_id r.retired_at

abbrev record_class : ℕ → Dbs → Option RetiredRefreshToken → RefreshResolution
record_class now d none = unknown
record_class now d (some r) =
    if leb r.expires_at now then unknown else heir_of r (get r.successor_hash d.sessions)

abbrev row_class : Text → ℕ → Dbs → Option Session → RefreshResolution
row_class h now d (some s) = live s
row_class h now d none = record_class now d (get h d.retired_tokens)

unfoldable pub classification : Text → ℕ → Dbs → RefreshResolution
classification h now d = row_class h now d (get h d.sessions)

-- On consistent databases the classification always comes back: the assertion on the successor's
-- family cannot fail.
pub resolve_in-classification :
    (h : Text) (now : ℕ) (d : Dbs) → Consistent d → resolve_in h now d ≡ ok (classification h now d)
unfolding resolve_in classification
resolve_in-classification h now d c = elim (Option-cases (get h d.sessions)) [
  | inr p ↦ rw p.1 refl
  | inl p ↦ elim (Option-cases (get h d.retired_tokens)) [
    | inl q ↦ rw (p, q) refl
    | inr q ↦ elim (Option-cases (get q.0.successor_hash d.sessions)) [
      | inl x ↦ ground arith
      | inr x ↦
          ground (arith, c.successor h q.0 x.0 q.1 x.1, text_eq_iff x.0.family_id q.0.family_id)
    ]
  ]
]
