-- ===== src/Connection/State.antt =====
-- `ConnectionState` of ingest/src/connection.rs, and the log lines that the connection writes.
use project_lightspeed.Base.{Bool, false, Option, none, some, List, [], ◌∷◌, ◌++◌, Text}
use project_lightspeed.Rust.Text.{codes}

pub record ConnectionState : Type 0 where
  pub hmac_payload : Option Text
  pub protocol_version : Option Text
  pub vendor_name : Option Text
  pub vendor_version : Option Text
  pub video : Bool
  pub video_codec : Option Text
  pub video_height : Option Text
  pub video_width : Option Text
  pub video_payload_type : Option Text
  pub video_ingest_ssrc : Option Text
  pub audio : Bool
  pub audio_codec : Option Text
  pub audio_payload_type : Option Text
  pub audio_ingest_ssrc : Option Text

-- A line of the log. `error_about` is a message followed by values in their `Debug` form.
pub data LogLine : Type 0 where
  info : Text → LogLine
  warn : Text → LogLine
  error : Text → LogLine
  error_about : Text → List Text → LogLine

abbrev payload_or_empty : Option Text → Text
payload_or_empty none = []
payload_or_empty (some payload) = payload

unfoldable pub get_payload : ConnectionState → Text
get_payload conn = payload_or_empty conn.hmac_payload

unfoldable pub new : ConnectionState
new = record {
  hmac_payload = none;
  protocol_version = none;
  vendor_name = none;
  vendor_version = none;
  video = false;
  video_codec = none;
  video_height = none;
  video_width = none;
  video_payload_type = none;
  video_ingest_ssrc = none;
  audio = false;
  audio_codec = none;
  audio_payload_type = none;
  audio_ingest_ssrc = none;
}

abbrev pub print_field : Text → Option Text → LogLine
print_field label none = warn (label ++ codes ": None")
print_field label (some value) = info (label ++ (codes ": " ++ value))

unfoldable pub print : ConnectionState → List LogLine
print conn =
    print_field (codes "Protocol Version") conn.protocol_version
    ∷ print_field (codes "Vendor Name") conn.vendor_name
    ∷ print_field (codes "Vendor Version") conn.vendor_version
    ∷ print_field (codes "Video Codec") conn.video_codec
    ∷ print_field (codes "Video Height") conn.video_height
    ∷ print_field (codes "Video Width") conn.video_width
    ∷ print_field (codes "Audio Codec") conn.audio_codec
    ∷ []
