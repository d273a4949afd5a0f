-- ===== src/Connection/Handler/Attributes.antt =====
-- What an attribute changes in the connection's state.
use project_lightspeed.Base.{
  ℕ, ◌≡◌, ◌≢◌, ◌⊎◌, inl, inr, refl, sym, ap, ◌∙◌, Bool, true, false, List, [], ◌∷◌, Option, none,
  some, arith, equal, equal_iff, if◌then◌else◌, Text, set,
}
use project_lightspeed.Rust.Text.{codes}
use project_lightspeed.Connection.State.{ConnectionState}
use project_lightspeed.Connection.Handler.{
  assign, assigned, invalid_value, parse_bool, set_video, set_audio, invalid_video, invalid_audio,
}

-- The attributes of the protocol.
pub data Attribute : Type 0 where
  protocol_version vendor_name vendor_version : Attribute
  video video_codec video_height video_width video_payload_type video_ingest_ssrc : Attribute
  audio audio_codec audio_payload_type audio_ingest_ssrc : Attribute

abbrev pub key_of : Attribute → Text
key_of protocol_version = codes "ProtocolVersion"
key_of vendor_name = codes "VendorName"
key_of vendor_version = codes "VendorVersion"
key_of video = codes "Video"
key_of video_codec = codes "VideoCodec"
key_of video_height = codes "VideoHeight"
key_of video_width = codes "VideoWidth"
key_of video_payload_type = codes "VideoPayloadType"
key_of video_ingest_ssrc = codes "VideoIngestSSRC"
key_of audio = codes "Audio"
key_of audio_codec = codes "AudioCodec"
key_of audio_payload_type = codes "AudioPayloadType"
key_of audio_ingest_ssrc = codes "AudioIngestSSRC"

abbrev pub place : Attribute → ℕ
place protocol_version = 0
place vendor_name = 1
place vendor_version = 2
place video = 3
place video_codec = 4
place video_height = 5
place video_width = 6
place video_payload_type = 7
place video_ingest_ssrc = 8
place audio = 9
place audio_codec = 10
place audio_payload_type = 11
place audio_ingest_ssrc = 12

abbrev pub flag_text : Bool → Text
flag_text true = codes "true"
flag_text false = codes "false"

-- The values that the state holds, each at its attribute's place.
abbrev pub values : ConnectionState → List (Option Text)
values c =
    c.protocol_version
    ∷ c.vendor_name
    ∷ c.vendor_version
    ∷ some (flag_text c.video)
    ∷ c.video_codec
    ∷ c.video_height
    ∷ c.video_width
    ∷ c.video_payload_type
    ∷ c.video_ingest_ssrc
    ∷ some (flag_text c.audio)
    ∷ c.audio_codec
    ∷ c.audio_payload_type
    ∷ c.audio_ingest_ssrc
    ∷ []

abbrev pub IsFlag : Attribute → Type 0
IsFlag a = (a ≡ video) ⊎ (a ≡ audio)

abbrev flag_key : Text → Bool
flag_key key = if equal key (codes "Video") then true else equal key (codes "Audio")

flag_key-IsFlag : (a : Attribute) → flag_key (key_of a) ≡ true → IsFlag a
unfolding equal
flag_key-IsFlag video h = inl refl
flag_key-IsFlag audio h = inr refl
flag_key-IsFlag _ h = cc

IsFlag-flag_key : (a : Attribute) → IsFlag a → flag_key (key_of a) ≡ true
unfolding equal
IsFlag-flag_key video flag = refl
IsFlag-flag_key audio flag = refl
IsFlag-flag_key _ (inl e) = cc
IsFlag-flag_key _ (inr e) = cc

pub same_key-IsFlag : (a b : Attribute) → IsFlag a → key_of a ≡ key_of b → IsFlag b
same_key-IsFlag a b flag e = flag_key-IsFlag b (sym (ap flag_key e) ∙ IsFlag-flag_key a flag)

parse_bool_sound : (value : Text) (on : Bool) → parse_bool value ≡ some on → flag_text on ≡ value
parse_bool_sound value true h =
    ground (arith, equal_iff value (codes "true"), equal_iff value (codes "false"))
parse_bool_sound value false h =
    ground (arith, equal_iff value (codes "true"), equal_iff value (codes "false"))

-- The value is at the attribute's place, the other values and the payload are as before.
abbrev pub Takes : Attribute → Text → ConnectionState → ConnectionState → Type 0
Takes a value conn conn' =
    (values conn' ≡ set (values conn) (place a) (some value))
    × (conn'.hmac_payload ≡ conn.hmac_payload)

set_video-Takes :
    (value : Text) (conn : ConnectionState) {conn' : ConnectionState} (flag : Option Bool)
    → parse_bool value ≡ flag
    → set_video conn flag ≡ assigned conn'
    → Takes video value conn conn'
set_video-Takes value conn none p h = cc
set_video-Takes value conn (some on) p h = ground (arith, parse_bool_sound value on p)

set_audio-Takes :
    (value : Text) (conn : ConnectionState) {conn' : ConnectionState} (flag : Option Bool)
    → parse_bool value ≡ flag
    → set_audio conn flag ≡ assigned conn'
    → Takes audio value conn conn'
set_audio-Takes value conn none p h = cc
set_audio-Takes value conn (some on) p h = ground (arith, parse_bool_sound value on p)

-- If `assign` takes the value of a known attribute, the value is in the attribute's place in the
-- connection's state, and the other places and the payload are as before.
pub assign-Takes :
    (a : Attribute) (value : Text) (conn : ConnectionState) {conn' : ConnectionState}
    → assign (key_of a) value conn ≡ assigned conn'
    → Takes a value conn conn'
unfolding assign equal
assign-Takes video value conn h = set_video-Takes value conn (parse_bool value) refl h
assign-Takes audio value conn h = set_audio-Takes value conn (parse_bool value) refl h
assign-Takes _ value conn h = ground arith

-- Every attribute but the two flags takes any value; those take "true" and "false".
abbrev pub IsTaken : Attribute → Text → Type 0
IsTaken a value = IsFlag a → (value ≡ codes "true") ⊎ (value ≡ codes "false")

parse_bool_taken :
    (value : Text)
    → (value ≡ codes "true") ⊎ (value ≡ codes "false")
    → (on : Bool) × (parse_bool value ≡ some on)
parse_bool_taken value (inl e) = (true, rw e (unfold equal in refl))
parse_bool_taken value (inr e) = (false, rw e (unfold equal in refl))

pub assign_taken :
    (a : Attribute) (value : Text) (conn : ConnectionState)
    → IsTaken a value
    → (conn' : ConnectionState) × (assign (key_of a) value conn ≡ assigned conn')
unfolding assign equal
assign_taken video value conn h =
    let (on, e) = parse_bool_taken value (h (inl refl)) in (record conn { video = on }, rw e)
assign_taken audio value conn h =
    let (on, e) = parse_bool_taken value (h (inr refl)) in (record conn { audio = on }, rw e)
assign_taken _ value conn h = (_, refl)

parse_bool_refused :
    (value : Text) → value ≢ codes "true" → value ≢ codes "false" → parse_bool value ≡ none
parse_bool_refused value t f =
    ground (arith, equal_iff value (codes "true"), equal_iff value (codes "false"))

pub assign_refused :
    (a : Attribute) (value : Text) (conn : ConnectionState)
    → IsFlag a
    → value ≢ codes "true"
    → value ≢ codes "false"
    → (message : Text) × (assign (key_of a) value conn ≡ invalid_value message)
unfolding assign equal
assign_refused video value conn _ t f = (invalid_video, rw (parse_bool_refused value t f))
assign_refused audio value conn _ t f = (invalid_audio, rw (parse_bool_refused value t f))
assign_refused _ value conn (inl e) t f = cc
assign_refused _ value conn (inr e) t f = cc
