-- ===== src/FtlCodec/RoundTrip.antt =====
-- The lines that a client of the handshake sends, and what `decode` reads from them.
use project_lightspeed.Base.{
  ◌≡◌, refl, ◌∙◌, subst, inl, ◌∷◌, ◌++◌, All, some, arith, ok, done, Text, Bytes, append_assoc,
}
use project_lightspeed.Rust.Text.{codes, contains, starts_with}
use project_lightspeed.Rust.Text.Search.{IsFree, contains_of_prefix}
use project_lightspeed.Rust.Text.Fields.{IsTrimmed, trim-IsTrimmed, trim_space}
use project_lightspeed.Rust.Utf8.{IsScalar, utf8}
use project_lightspeed.Rust.Utf8.RoundTrip.{from_utf8_lossy-utf8, utf8-IsFree}
use project_lightspeed.FtlCodec.{
  FtlCommand, hmac, connect, ping, dot, attribute, disconnect, FtlCodec, crlf_crlf, reset, decode,
}
use project_lightspeed.FtlCodec.Fields.{HasThird, HasValue, connect_data, attribute_data}
use project_lightspeed.FtlCodec.Framing.{contains_line}
use project_lightspeed.FtlCodec.Decode.{decode_line}
use project_lightspeed.FtlCodec.Parsing.{
  Lacks, Means, hmac_in, connect_in, disconnect_in, attribute_in, dot_is, ping_in,
  parse_command_iff,
}

-- The requests of the handshake, and the line that each is sent as.
pub data Request : Type 0 where
  ask_hmac : Request
  log_in : (channel key : Text) → Request
  describe : (name value : Text) → Request
  start_stream : Request
  keep_alive : (channel : Text) → Request
  leave : Request

unfoldable pub line : Request → Text
line ask_hmac = codes "HMAC"
line (log_in channel key) = codes "CONNECT " ++ (channel ++ (codes " $" ++ key))
line (describe name value) = name ++ (codes ": " ++ value)
line start_stream = codes "."
line (keep_alive channel) = codes "PING " ++ channel
line leave = codes "DISCONNECT"

abbrev pub command_of : Request → FtlCommand
command_of ask_hmac = hmac
command_of (log_in channel key) = connect (connect_data channel key)
command_of (describe name value) = attribute (attribute_data name value)
command_of start_stream = dot
command_of (keep_alive channel) = ping
command_of leave = disconnect

-- The parts of a request have no character that ends them early, and the line has no word of
-- another request in it that `decode` looks for first.
abbrev pub IsClear : Request → Type 0
IsClear (log_in channel key) =
    IsFree b' ' channel
    × IsFree b' ' key
    × Lacks (line (log_in channel key)) "HMAC"
    × Lacks (line (log_in channel key)) "DISCONNECT"
IsClear (describe name value) =
    IsFree b':' name
    × IsFree b':' value
    × IsTrimmed value
    × Lacks (line (describe name value)) "HMAC"
    × Lacks (line (describe name value)) "CONNECT"
IsClear (keep_alive channel) =
    Lacks (line (keep_alive channel)) "HMAC"
    × Lacks (line (keep_alive channel)) "CONNECT"
    × Lacks (line (keep_alive channel)) ":"
IsClear _ = Unit

pub record IsSendable (r : Request) : Type 0 where
  pub clear : IsClear r
  pub scalars : All IsScalar (line r)
  pub one_line : IsFree b'\r' (line r)

-- The bytes of a request.
abbrev pub wire : Request → Bytes
wire r = utf8 (line r) ++ crlf_crlf

line-Means : (r : Request) → IsClear r → Means (line r) (done (ok (some (command_of r))))
unfolding line
line-Means ask_hmac c = hmac_in (unfold contains starts_with in refl)
line-Means (log_in channel key) (ch, k, h, d) =
    connect_in b'$' h d (contains_of_prefix _ _ (unfold starts_with in refl)) third
  where
    third : HasThird (line (log_in channel key)) channel (b'$' ∷ key)
    third = record {
      word = codes "CONNECT";
      rest = b'$' ∷ key;
      word_free = omega arith;
      channel_free = ch;
      third_free = (omega arith, k);
      splits = refl;
      ends = inl refl;
    }
line-Means (describe name value) (n, v, t, h, d) =
    subst
      (λ w.
        Means (line (describe name value)) (done (ok (some (attribute (attribute_data name w))))))
      (trim_space value ∙ trim-IsTrimmed t) (attribute_in (b' ' ∷ value) h d has)
  where
    has : HasValue (line (describe name value)) name (b' ' ∷ value)
    has = record {
      rest = b' ' ∷ value;
      key_free = n;
      value_free = (omega arith, v);
      splits = refl;
      ends = inl refl;
    }
line-Means start_stream c = dot_is refl
line-Means (keep_alive channel) (h, c, k) =
    ping_in h c k (contains_of_prefix _ _ (unfold starts_with in refl))
line-Means leave c =
    disconnect_in (unfold contains starts_with in refl) (unfold contains starts_with in refl)

-- `decode` reads a sendable request (`IsSendable`) from the start of a buffer as the request's
-- command, resets the codec, and leaves in the buffer what follows the request.
pub decode-wire :
    (codec : FtlCodec) (r : Request) (rest : Bytes)
    → IsSendable r
    → decode codec (wire r ++ rest)
      ≡ done (record { codec = reset codec; buf = rest; item = ok (some (command_of r)) })
unfolding reset
decode-wire codec r rest s = rw (
  append_assoc (utf8 (line r)) crlf_crlf rest,
  decode_line codec (utf8 (line r)) rest
      (contains_line _ (utf8-IsFree b'\r' (line r) (omega arith) s.one_line)),
  from_utf8_lossy-utf8 (line r) s.scalars,
  (parse_command_iff (line r) _).1 (line-Means r s.clear),
)
