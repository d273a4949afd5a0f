-- ===== src/Connection/Handler.antt =====
-- `handle_command` of ingest/src/connection.rs, up to its last await: the frame command that it
-- passes to `sender.send` is part of its result, with the message that it logs if that fails.
pub mod Attributes
pub mod Unknown
pub mod Replies
pub mod Login
pub mod Nonce
use project_lightspeed.Base.{
  Bool, true, false, List, [], ◌∷◌, Option, none, some, equal, if◌then◌else◌, Exec, done, panic,
  ◌>>=◌, unwrap, Bytes, Text,
}
use project_lightspeed.Rust.HashMap
use project_lightspeed.Rust.HashMap.{HashMap}
use project_lightspeed.Rust.Text.{codes}
use project_lightspeed.Rust.Utf8.{utf8}
use project_lightspeed.Platform.{Platform, World}
use project_lightspeed.FtlCodec.{FtlCommand, hmac, connect, ping, dot, attribute, disconnect}
use project_lightspeed.Connection.State.{
  ConnectionState, get_payload, LogLine, info, warn, error, error_about,
}
use project_lightspeed.Connection.Keys.{generate_hmac, read_stream_key}

pub data FrameCommand : Type 0 where
  send : List Text → FrameCommand

pub record Reply : Type 0 where
  pub command : FrameCommand
  pub on_error : Text

abbrev pub hmac_reply : List Text → Reply
hmac_reply resp = record {
  command = send resp;
  on_error = codes "Error sending to frame task (From: Handle HMAC)";
}

abbrev pub connection_reply : List Text → Reply
connection_reply resp = record {
  command = send resp;
  on_error = codes "Error sending to frame task (From: Handle Connection)";
}

-- `match value.as_str() { "true" => …, "false" => …, _ => … }`
abbrev pub parse_bool : Text → Option Bool
parse_bool value =
    if equal value (codes "true")
    then some true
    else if equal value (codes "false")
    then some false
    else none

-- What the match on an attribute's key does: it may change the state, log and go on, or return.
pub data Assigned : Type 0 where
  assigned : ConnectionState → Assigned
  unknown_key : Assigned
  invalid_value : Text → Assigned

abbrev invalid_video : Text
invalid_video = codes "Invalid video value! Atrribute parse failed. Value was: "

abbrev invalid_audio : Text
invalid_audio = codes "Invalid audio value! Atrribute parse failed. Value was: "

abbrev set_video : ConnectionState → Option Bool → Assigned
set_video conn (some on) = assigned (record conn { video = on })
set_video conn none = invalid_value invalid_video

abbrev set_audio : ConnectionState → Option Bool → Assigned
set_audio conn (some on) = assigned (record conn { audio = on })
set_audio conn none = invalid_value invalid_audio

unfoldable pub assign : Text → Text → ConnectionState → Assigned
assign key value conn =
    if equal key (codes "ProtocolVersion")
    then assigned (record conn { protocol_version = some value })
    else if equal key (codes "VendorName")
    then assigned (record conn { vendor_name = some value })
    else if equal key (codes "VendorVersion")
    then assigned (record conn { vendor_version = some value })
    else if equal key (codes "Video")
    then set_video conn (parse_bool value)
    else if equal key (codes "VideoCodec")
    then assigned (record conn { video_codec = some value })
    else if equal key (codes "VideoHeight")
    then assigned (record conn { video_height = some value })
    else if equal key (codes "VideoWidth")
    then assigned (record conn { video_width = some value })
    else if equal key (codes "VideoPayloadType")
    then assigned (record conn { video_payload_type = some value })
    else if equal key (codes "VideoIngestSSRC")
    then assigned (record conn { video_ingest_ssrc = some value })
    else if equal key (codes "Audio")
    then set_audio conn (parse_bool value)
    else if equal key (codes "AudioCodec")
    then assigned (record conn { audio_codec = some value })
    else if equal key (codes "AudioPayloadType")
    then assigned (record conn { audio_payload_type = some value })
    else if equal key (codes "AudioIngestSSRC")
    then assigned (record conn { audio_ingest_ssrc = some value })
    else unknown_key

module _ (platform : Platform) where
  open platform use {hex, mac}

  pub record Handled : Type 0 where
    pub conn : ConnectionState
    pub world : World platform
    pub reply : Option Reply
    pub log : List LogLine

  abbrev no_reply : ConnectionState → World platform → List LogLine → Handled
  no_reply conn world log = record { conn = conn; world = world; reply = none; log = log }

  abbrev attribute_done : Text → Text → ConnectionState → World platform → Assigned → Handled
  attribute_done key value conn world (assigned conn') = record {
    conn = conn';
    world = world;
    reply = some (connection_reply ([] ∷ []));
    log = [];
  }
  attribute_done key value conn world unknown_key = record {
    conn = conn;
    world = world;
    reply = some (connection_reply ([] ∷ []));
    log =
        error_about (codes "Invalid attribute command. Attribute parsing failed.")
          (key ∷ value ∷ [])
        ∷ [];
  }
  attribute_done key value conn world (invalid_value message) =
      no_reply conn world (error_about message (value ∷ []) ∷ [])

  unfoldable pub handle_attribute :
      Option Text → Option Text → ConnectionState → World platform → Handled
  unfolding assign
  handle_attribute (some key) (some value) conn world =
      attribute_done key value conn world (assign key value conn)
  handle_attribute none value conn world = no_reply conn world []
  handle_attribute (some key) none conn world = no_reply conn world []

  abbrev compared : Bool → ConnectionState → World platform → Handled
  compared true conn world = record {
    conn = conn;
    world = world;
    reply = some (connection_reply (codes "200\n" ∷ []));
    log = info (codes "Hashes match!") ∷ [];
  }
  compared false conn world = no_reply conn world (error (codes "Hashes do not equal") ∷ [])

  unfoldable pub handle_connect :
      Option Text → Option Text → ConnectionState → World platform → Exec Handled
  handle_connect (some key) (some channel_id) conn world = do
    client_hash ← unwrap (hex.decode (utf8 key))
    stored ← read_stream_key platform false (some []) world
    payload ← unwrap (hex.decode (utf8 (get_payload conn)))
    done (compared (mac.verify stored.key payload client_hash) conn stored.world)
  handle_connect none channel_id conn world =
      done (no_reply conn world (error (codes "No stream key attached to connect command") ∷ []))
  handle_connect (some key) none conn world =
      done (no_reply conn world (error (codes "No channel id attached to connect command") ∷ []))

  unfoldable pub handle_hmac : ConnectionState → World platform → Handled
  handle_hmac conn world =
      let (payload, world') = generate_hmac platform world in
      let conn' = record conn { hmac_payload = some payload } in
      record {
        conn = conn';
        world = world';
        reply = some (hmac_reply (codes "200 " ∷ get_payload conn' ∷ codes "\n" ∷ []));
        log = [];
      }

  unfoldable pub handle_command : FtlCommand → ConnectionState → World platform → Exec Handled
  unfolding handle_hmac handle_connect handle_attribute HashMap.get
  handle_command hmac conn world = done (handle_hmac conn world)
  handle_command (connect params) conn world =
      handle_connect (HashMap.get (codes "stream_key") params)
        (HashMap.get (codes "channel_id") params) conn world
  handle_command (attribute params) conn world = done (
      handle_attribute (HashMap.get (codes "key") params) (HashMap.get (codes "value") params) conn
        world)
  handle_command ping conn world = done (record {
    conn = conn;
    world = world;
    reply = some (connection_reply (codes "201\n" ∷ []));
    log = [];
  })
  handle_command _ conn world = done (
      no_reply conn world
        (warn (codes "Command not implemented yet. Tell GRVY to quit his day job") ∷ []))
