-- ===== src/Tests/Listing.antt =====
-- The paged listing of three users, a user to a page, two of them created at one instant.
use oidc_exchange.Base.{
  ℕ, ◌≡◌, ◌↔◌, refl, ap, Option, none, some, List, [], ◌∷◌, Text, codes, text_eq, text_lt, is_empty,
  keep, split, In, member, arith,
}
use oidc_exchange.Domain.User.{User}
use oidc_exchange.Cursor.{CursorCodec, KeysetCursorWire, LawfulCursorCodec, decode, encode}
use oidc_exchange.Sqlite.{Users}
use oidc_exchange.Sqlite.Listing.{row_users, order_by, insert_row, below, page_of, list_users, walk}
use oidc_exchange.Sqlite.Listing.Ordered.{Descending}
use oidc_exchange.Sqlite.Listing.Walk.{walk-every}
use oidc_exchange.Tests.Toy
use oidc_exchange.Tests.Tokens.{user_with}

abbrev instant_of : Text → Option ℕ
instant_of (n ∷ []) = some n
instant_of _ = none

abbrev wire_of_fields : List Text → Option KeysetCursorWire
wire_of_fields (c ∷ i ∷ []) = some (record { c = c; i = i })
wire_of_fields _ = none

abbrev toy_cursors : CursorCodec
toy_cursors = record {
  to_rfc3339 = λ t. t ∷ [];
  parse_date_time = instant_of;
  to_json = λ w. Toy.fields (w.c ∷ w.i ∷ []);
  from_json = λ t. wire_of_fields (Toy.unfields t);
  to_base64 = Toy.encode;
  from_base64 = λ t. some (Toy.decode t);
}

toy_cursors-Lawful : LawfulCursorCodec toy_cursors
toy_cursors-Lawful = record {
  dates = λ t. refl;
  objects = λ w. ap wire_of_fields (Toy.unfields-fields w.c (w.i ∷ []));
  object_text = λ w. Toy.fields-full w.c w.i [];
  bytes = λ t. ap some (Toy.decode-encode t);
  base64_text = Toy.encode-full;
}

abbrev created : Text → ℕ → User
created id t = record (user_with []) { id = id; created_at = t }

abbrev first : User
first = created (codes "a") 7

abbrev second : User
second = created (codes "b") 7

abbrev third : User
third = created (codes "c") 9

abbrev three : Users
three = (codes "a", first) ∷ (codes "b", second) ∷ (codes "c", third) ∷ []

listing_of_three : walk toy_cursors 4 1 three none ≡ some (third ∷ second ∷ first ∷ [])
unfolding list_users order_by insert_row below page_of decode encode keep text_eq text_lt is_empty
    split
listing_of_three = refl

walk-every_example :
    (listed : List User) × (walk toy_cursors 4 1 three none ≡ some listed)
    × Descending toy_cursors listed
    × ((u : User) → In u listed ↔ In u (row_users three))
unfolding member text_eq is_empty
walk-every_example =
    walk-every toy_cursors toy_cursors-Lawful three 4 1 (omega arith) (omega arith)
      (refl, (refl, (refl, tt))) (refl, (refl, (refl, tt))) (omega arith)
