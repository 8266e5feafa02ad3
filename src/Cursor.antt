-- ===== src/Cursor.antt =====
-- crates/core/src/cursor.rs: the keyset cursor that the SQL stores resume a listing from.
use oidc_exchange.Base.{
  ℕ, ◌≡◌, ◌==◌, ==_iff, Bool, false, ◌&&◌, Option, none, some, Text, codes, is_empty, text_eq,
  text_eq_refl, if◌then◌else◌, arith,
}
use oidc_exchange.Error.{Result, ok, err, panicked, invalid_request}

pub record KeysetCursor : Type 0 where
  pub created_at : ℕ
  pub id : Text

pub record KeysetCursorWire : Type 0 where
  pub c : Text
  pub i : Text

-- The codecs of chrono, serde_json and base64 that a cursor passes through.
pub record CursorCodec : Type 0 where
  pub to_rfc3339 : ℕ → Text
  pub parse_date_time : Text → Option ℕ
  pub to_json : KeysetCursorWire → Text
  pub from_json : Text → Option KeysetCursorWire
  pub to_base64 : Text → Text
  pub from_base64 : Text → Option Text

abbrev invalid_cursor : {A : Type 0} → Result A
invalid_cursor = err (invalid_request (codes "cursor is not a valid opaque token"))

module _ (codec : CursorCodec) where
  abbrev read_wire : KeysetCursorWire → Result KeysetCursor
  read_wire wire = if is_empty wire.i then invalid_cursor else elim (codec.parse_date_time wire.c) [
    | none ↦ invalid_cursor
    | some t ↦ ok (record { created_at = t; id = wire.i })
  ]

  unfoldable pub decode : Text → Result KeysetCursor
  decode raw =
      if is_empty raw
      then err (invalid_request (codes "cursor must be a non-empty opaque token"))
      else elim (codec.from_base64 raw) [
        | none ↦ invalid_cursor
        | some json ↦ elim (codec.from_json json) [
          | none ↦ invalid_cursor
          | some wire ↦ read_wire wire
        ]
      ]

  abbrev wire_of : KeysetCursor → KeysetCursorWire
  wire_of self = record { c = codec.to_rfc3339 self.created_at; i = self.id }

  abbrev same_as : KeysetCursor → Result KeysetCursor → Bool
  same_as self (ok d) = (d.created_at == self.created_at) && text_eq d.id self.id
  same_as self _ = false

  unfoldable pub encode : KeysetCursor → Result Text
  encode self =
      let encoded = codec.to_base64 (codec.to_json (wire_of self)) in
      if is_empty self.id
      then panicked
      else if is_empty encoded
      then panicked
      else if same_as self (decode encoded)
      then ok encoded
      else panicked

-- What the code relies on of the codecs: each reads back what it wrote, an object is not the empty
-- text, and base64 of a text that is not empty is not empty.
pub record LawfulCursorCodec (codec : CursorCodec) : Type 0 where
  pub dates : (t : ℕ) → codec.parse_date_time (codec.to_rfc3339 t) ≡ some t
  pub objects : (w : KeysetCursorWire) → codec.from_json (codec.to_json w) ≡ some w
  pub object_text : (w : KeysetCursorWire) → is_empty (codec.to_json w) ≡ false
  pub bytes : (t : Text) → codec.from_base64 (codec.to_base64 t) ≡ some t
  pub base64_text : (t : Text) → is_empty t ≡ false → is_empty (codec.to_base64 t) ≡ false

module _ (codec : CursorCodec) (lawful : LawfulCursorCodec codec) (self : KeysetCursor) where
  abbrev pub wire_text : Text
  wire_text = codec.to_base64 (codec.to_json (wire_of codec self))

  wire_text-some : is_empty wire_text ≡ false
  wire_text-some =
      lawful.base64_text (codec.to_json (wire_of codec self))
        (lawful.object_text (wire_of codec self))

  pub decode-wire_text : is_empty self.id ≡ false → decode codec wire_text ≡ ok self
  unfolding decode
  decode-wire_text h = ground (
    arith,
    h,
    wire_text-some,
    lawful.bytes (codec.to_json (wire_of codec self)),
    lawful.objects (wire_of codec self),
    lawful.dates self.created_at,
  )

  pub encode-wire_text : is_empty self.id ≡ false → encode codec self ≡ ok wire_text
  unfolding encode
  encode-wire_text h = ground (
    arith,
    h,
    wire_text-some,
    decode-wire_text h,
    ==_iff self.created_at self.created_at,
    text_eq_refl self.id,
  )

-- The encoding of a cursor with an id passes its assertions, and decodes to the cursor.
pub decode-encode_cursor :
    (codec : CursorCodec) (lawful : LawfulCursorCodec codec) (self : KeysetCursor)
    → is_empty self.id ≡ false
    → (raw : Text) × (encode codec self ≡ ok raw) × (decode codec raw ≡ ok self)
decode-encode_cursor codec lawful self h = (
  wire_text codec lawful self,
  encode-wire_text codec lawful self h,
  decode-wire_text codec lawful self h,
)
