-- ===== src/Connection/Handler/Unknown.antt =====
-- The keys of attributes, known and unknown, in `handle_command` of ingest/src/connection.rs.
use project_lightspeed.Base.{
  ◌≡◌, ◌≢◌, ◌⊎◌, inl, inr, subst, false, List, [], ◌∷◌, arith, equal, equal_iff, Text, Bool-cases,
  All,
}
use project_lightspeed.Connection.State.{ConnectionState}
use project_lightspeed.Connection.Handler.{assign, assigned, unknown_key}
use project_lightspeed.Connection.Handler.Attributes.{
  Attribute, protocol_version, vendor_name, vendor_version, video, video_codec, video_height,
  video_width, video_payload_type, video_ingest_ssrc, audio, audio_codec, audio_payload_type,
  audio_ingest_ssrc, key_of, assign-Takes,
}

abbrev attributes : List Attribute
attributes =
    protocol_version ∷ vendor_name ∷ vendor_version ∷ video ∷ video_codec ∷ video_height
    ∷ video_width ∷ video_payload_type ∷ video_ingest_ssrc ∷ audio ∷ audio_codec
    ∷ audio_payload_type ∷ audio_ingest_ssrc ∷ []

of_all : (P : Attribute → Type 0) (a : Attribute) → All P attributes → P a
of_all P protocol_version h = h.0
of_all P vendor_name h = h.1.0
of_all P vendor_version h = h.1.1.0
of_all P video h = h.1.1.1.0
of_all P video_codec h = h.1.1.1.1.0
of_all P video_height h = h.1.1.1.1.1.0
of_all P video_width h = h.1.1.1.1.1.1.0
of_all P video_payload_type h = h.1.1.1.1.1.1.1.0
of_all P video_ingest_ssrc h = h.1.1.1.1.1.1.1.1.0
of_all P audio h = h.1.1.1.1.1.1.1.1.1.0
of_all P audio_codec h = h.1.1.1.1.1.1.1.1.1.1.0
of_all P audio_payload_type h = h.1.1.1.1.1.1.1.1.1.1.1.0
of_all P audio_ingest_ssrc h = h.1.1.1.1.1.1.1.1.1.1.1.1.0

among :
    (key : Text) (names : List Attribute)
    → ((a : Attribute) × (key ≡ key_of a)) ⊎ All (λ a. key ≢ key_of a) names
among key [] = inr tt
among key (a ∷ names) = elim (Bool-cases (equal key (key_of a))) [
  | inl e ↦ inl (a, (equal_iff key (key_of a)).0 e)
  | inr other ↦ elim (among key names) [
    | inl found ↦ inl found
    | inr others ↦ inr (λ e. cc (other, (equal_iff key (key_of a)).1 e), others)
  ]
]

abbrev pub IsUnknown : Text → Type 0
IsUnknown key = (a : Attribute) → key ≢ key_of a

pub key_cases : (key : Text) → ((a : Attribute) × (key ≡ key_of a)) ⊎ IsUnknown key
key_cases key = elim (among key attributes) [
  | inl found ↦ inl found
  | inr others ↦ inr (λ a. of_all (λ b. key ≢ key_of b) a others)
]

test : (key : Text) (b : Text) → key ≢ b → equal key b ≡ false
test key b ne = ground (arith, equal_iff key b)

pub assign_unknown :
    (key value : Text) (conn : ConnectionState)
    → IsUnknown key
    → assign key value conn ≡ unknown_key
unfolding assign
assign_unknown key value conn h = rw (
  test key _ (h protocol_version),
  test key _ (h vendor_name),
  test key _ (h vendor_version),
  test key _ (h video),
  test key _ (h video_codec),
  test key _ (h video_height),
  test key _ (h video_width),
  test key _ (h video_payload_type),
  test key _ (h video_ingest_ssrc),
  test key _ (h audio),
  test key _ (h audio_codec),
  test key _ (h audio_payload_type),
  test key _ (h audio_ingest_ssrc),
)

-- No attribute touches the payload.
pub assign_keeps_payload :
    (key value : Text) (conn : ConnectionState) {conn' : ConnectionState}
    → assign key value conn ≡ assigned conn'
    → conn'.hmac_payload ≡ conn.hmac_payload
assign_keeps_payload key value conn {conn'} e = elim (key_cases key) [
  | inl (a, same) ↦
      (assign-Takes a value conn (subst (λ k. assign k value conn ≡ assigned conn') same e)).1
  | inr unknown ↦ cc (e, assign_unknown key value conn unknown)
]
