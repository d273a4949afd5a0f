-- ===== src/FtlCodec.antt =====
-- ingest/src/ftl_codec.rs: the commands of the FTL handshake, and the codec that reads them from a
-- byte stream and writes the answers. `decode` returns the codec, the buffer that is left and the
-- result; a panic ends the task that runs it.
pub mod Framing
pub mod Fields
pub mod Parsing
pub mod Decode
pub mod Stream
pub mod Chunks
pub mod RoundTrip
use project_lightspeed.Base.{
  ℕ, ◌+◌, Bool, true, false, ◌&&◌, List, [], ◌∷◌, ◌++◌, Option, none, some, drop, take, ◌==◌,
  if◌then◌else◌, windows, position, equal, Result, ok, err, Exec, done, panic, ◌>>=◌, unwrap,
  get_elem?, Bytes, Text,
}
use project_lightspeed.Rust.HashMap.{HashMap}
use project_lightspeed.Rust.HashMap
use project_lightspeed.Rust.Text.{codes, contains, split, trim, remove_first}
use project_lightspeed.Rust.Utf8.{from_utf8_lossy, utf8, len}

pub data FtlCommand : Type 0 where
  hmac : FtlCommand
  connect : HashMap → FtlCommand
  ping : FtlCommand
  dot : FtlCommand
  attribute : HashMap → FtlCommand
  disconnect : FtlCommand

pub record FtlCodec : Type 0 where
  pub command_buffer : Bytes

-- `io::Error` is represented by the text that it prints.
pub data FtlError : Type 0 where
  unsupported : Text → FtlError
  io : Text → FtlError

unfoldable pub new : FtlCodec
new = record { command_buffer = [] }

unfoldable pub reset : FtlCodec → FtlCodec
reset codec = record codec { command_buffer = [] }

abbrev pub crlf_crlf : Bytes
crlf_crlf = b'\r' ∷ b'\n' ∷ b'\r' ∷ b'\n' ∷ []

-- `buf.windows(4).position(|window| window == b"\r\n\r\n")`
unfoldable pub find_end : Bytes → Option ℕ
unfolding windows position equal
find_end buf = position (λ window. equal window crlf_crlf) (windows 4 buf)

abbrev pub Parsed : Type 0
Parsed = Result (Option FtlCommand) FtlError

-- `commands[i]` panics where there is no field `i`.
unfoldable pub parse_connect : Text → Exec Parsed
unfolding HashMap.insert
parse_connect command = do
  let commands = split b' ' command
  second ← unwrap (get_elem? commands 2)
  key ← remove_first second
  first ← unwrap (get_elem? commands 1)
  let channel = HashMap.insert (codes "channel_id") first HashMap.new
  done (ok (some (connect (HashMap.insert (codes "stream_key") key channel))))

unfoldable pub parse_attribute : Text → Exec Parsed
unfolding HashMap.insert
parse_attribute command = do
  let commands = split b':' command
  first ← unwrap (get_elem? commands 0)
  let keyed = HashMap.insert (codes "key") first HashMap.new
  second ← unwrap (get_elem? commands 1)
  done (ok (some (attribute (HashMap.insert (codes "value") (trim second) keyed))))

-- What `decode` makes of one command.
unfoldable pub parse_command : Text → Exec Parsed
parse_command command =
    if contains command (codes "HMAC")
    then done (ok (some hmac))
    else if contains command (codes "DISCONNECT")
    then done (ok (some disconnect))
    else if contains command (codes "CONNECT")
    then parse_connect command
    else if contains command (codes ":")
    then parse_attribute command
    else if contains command (codes ".") && (len command == 1)
    then done (ok (some dot))
    else if contains command (codes "PING")
    then done (ok (some ping))
    else done (err (unsupported command))

pub record Decoded : Type 0 where
  pub codec : FtlCodec
  pub buf : Bytes
  pub item : Parsed

abbrev pub take_command : FtlCodec → Bytes → Exec Parsed → Exec Decoded
take_command codec rest parsed = do
  item ← parsed
  done (record { codec = reset codec; buf = rest; item = item })

unfoldable pub decode : FtlCodec → Bytes → Exec Decoded
decode codec buf = elim (find_end buf) [
  | some index ↦
      take_command codec (drop (index + 4) buf) (parse_command (from_utf8_lossy (take index buf)))
  | none ↦ done (record { codec = codec; buf = buf; item = ok none })
]

unfoldable pub encode : FtlCodec → Text → Bytes → FtlCodec × Bytes × Result (Unit {0}) FtlError
unfolding utf8
encode codec line buf = (codec, buf ++ utf8 line, ok tt)

-- `fmt::Display`
unfoldable pub fmt : FtlError → Text
fmt (io e) = e
fmt (unsupported s) = codes "Unsupported FTL Command " ++ (s ++ codes "! Bug GRVY to support this")

-- `From<io::Error>`
unfoldable pub from_io : Text → FtlError
from_io e = io e
