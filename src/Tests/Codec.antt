-- ===== src/Tests/Codec.antt =====
-- The codec on the bytes of a small session.
use project_lightspeed.Base.{
  ◌>>=◌, ℕ, ◌+◌, ◌≤◌, ◌<◌, ◌≡◌, ◌↔◌, ◌⊎◌, inl, refl, List, [], ◌∷◌, ◌++◌, map, none, some, All,
  All-mono, arith, length, ok, err, Exec, done, panic, Text, Bytes,
}
use project_lightspeed.Rust.Text.{codes, contains, starts_with, split, trim, is_whitespace}
use project_lightspeed.Rust.Utf8.{IsScalar, utf8, utf8_char, from_utf8_lossy}
use project_lightspeed.Rust.Text.Fields.{ends}
use project_lightspeed.FtlCodec.{
  FtlCommand, hmac, connect, attribute, FtlCodec, unsupported, new, reset, crlf_crlf, find_end,
  parse_connect, parse_attribute, parse_command, Parsed, decode,
}
use project_lightspeed.FtlCodec.Fields.{connect_data, attribute_data}
use project_lightspeed.FtlCodec.Parsing.{Means, parse_command_iff}
use project_lightspeed.FtlCodec.Decode.{
  decode_line, decode_incomplete, decode-append, decode-shrinks,
}
use project_lightspeed.FtlCodec.Stream.{Reads, Fails, decode_ends}
use project_lightspeed.FtlCodec.Chunks.{Feeds, flatten, Feeds-wires, Feeds-iff}
use project_lightspeed.FtlCodec.RoundTrip.{
  Request, ask_hmac, log_in, describe, start_stream, line, IsSendable, wire, command_of,
  decode-wire,
}

ascii_scalars : (s : Text) → All (λ c. c < 0x80) s → All IsScalar s
ascii_scalars s h = All-mono _ _ (λ c k. inl (omega arith)) s h

ask_hmac-IsSendable : IsSendable ask_hmac
unfolding line
ask_hmac-IsSendable = record {
  clear = tt;
  scalars = ascii_scalars (line ask_hmac) (omega arith);
  one_line = omega arith;
}

abbrev login : Request
login = log_in (codes "7") (codes "c2f0")

login-IsSendable : IsSendable login
unfolding line contains starts_with
login-IsSendable = record {
  clear = (omega arith, omega arith, refl, refl);
  scalars = ascii_scalars (line login) (omega arith);
  one_line = omega arith;
}

abbrev vendor : Request
vendor = describe (codes "VendorName") (codes "OBS Studio")

vendor-IsSendable : IsSendable vendor
unfolding line contains starts_with is_whitespace
vendor-IsSendable = record {
  clear = (omega arith, omega arith, ends (codes "BS Studi") b'o' refl refl, refl, refl);
  scalars = ascii_scalars (line vendor) (omega arith);
  one_line = omega arith;
}

start_stream-IsSendable : IsSendable start_stream
unfolding line
start_stream-IsSendable = record {
  clear = tt;
  scalars = ascii_scalars (line start_stream) (omega arith);
  one_line = omega arith;
}

abbrev session : List Request
session = ask_hmac ∷ login ∷ vendor ∷ start_stream ∷ []

session-IsSendable : All IsSendable session
session-IsSendable =
    (ask_hmac-IsSendable, (login-IsSendable, (vendor-IsSendable, (start_stream-IsSendable, tt))))

-- The session and the start of one more request, in two chunks that part the login.
abbrev chunks : List Bytes
chunks =
    codes "HMAC\r\n\r\nCONNECT 7 $c"
    ∷ codes "2f0\r\n\r\nVendorName: OBS Studio\r\n\r\n.\r\n\r\nPIN"
    ∷ []

Feeds-wires_example :
    (last : FtlCodec) × Feeds last (codes "PIN") new [] chunks (map command_of session)
unfolding line utf8 utf8_char contains starts_with
Feeds-wires_example = Feeds-wires new session (codes "PIN") chunks session-IsSendable refl refl

Feeds-iff_example :
    Feeds new (codes "PIN") new [] chunks (map command_of session)
    ↔ Reads new (codes "PIN") new (flatten chunks) (map command_of session)
Feeds-iff_example = Feeds-iff chunks new new (codes "PIN") (map command_of session)

parse_command_iff_example :
    (parse_command (codes "CONNECT 7 $c2f0")
      ≡ done (ok (some (connect (connect_data (codes "7") (codes "c2f0"))))))
    ↔ Means
        (codes "CONNECT 7 $c2f0")
        (done (ok (some (connect (connect_data (codes "7") (codes "c2f0"))))))
parse_command_iff_example =
    parse_command_iff (codes "CONNECT 7 $c2f0")
      (done (ok (some (connect (connect_data (codes "7") (codes "c2f0"))))))

decode-wire_example :
    decode new (wire login ++ codes ".\r\n")
    ≡ done (record {
      codec = reset new;
      buf = codes ".\r\n";
      item = ok (some (connect (connect_data (codes "7") (codes "c2f0"))));
    })
decode-wire_example = decode-wire new login (codes ".\r\n") login-IsSendable

decode_ends_example :
    (commands : List FtlCommand) × (((last : FtlCodec) × (left : Bytes) × Reads last left new
          (codes "HMAC\r\n\r\n.\r\n")
          commands)
      ⊎ Fails new (codes "HMAC\r\n\r\n.\r\n") commands)
decode_ends_example = decode_ends new (codes "HMAC\r\n\r\n.\r\n")

decode_line_example : decode new (codes "PING 7" ++ (crlf_crlf ++ codes "HM")) ≡ (
    parse_command (from_utf8_lossy (codes "PING 7")) >>= λ item.
    done (record { codec = record { command_buffer = [] }; buf = codes "HM"; item = item }))
unfolding contains starts_with
decode_line_example = decode_line new (codes "PING 7") (codes "HM") refl

decode_incomplete_example :
    decode new (codes "PING 7\r\n\r")
    ≡ done (record { codec = new; buf = codes "PING 7\r\n\r"; item = ok none })
unfolding contains starts_with
decode_incomplete_example = decode_incomplete new (codes "PING 7\r\n\r") refl

abbrev one_line : Bytes
one_line = codes "HMAC\r\n\r\n"

decoded_line : decode new one_line ≡ done (record { codec = new; buf = []; item = ok (some hmac) })
unfolding decode find_end parse_command contains starts_with from_utf8_lossy reset new
decoded_line = refl

decode-append_example :
    decode new (one_line ++ codes "PI")
    ≡ done (record { codec = new; buf = codes "PI"; item = ok (some hmac) })
decode-append_example = decode-append new one_line (codes "PI") decoded_line (λ e. cc)

decode-shrinks_example : length {A = ℕ} [] + 4 ≤ length one_line
decode-shrinks_example = decode-shrinks new one_line decoded_line (λ e. cc)

abbrev run : Text → Exec Parsed
run = parse_command

-- Commands that are read in another way than they are meant, and one that ends the task.
short_connect_panics : run (codes "CONNECT 7") ≡ panic
unfolding parse_command contains starts_with parse_connect split
short_connect_panics = refl

hmac_inside : run (codes "VendorName: HMAC tools") ≡ done (ok (some hmac))
unfolding parse_command contains starts_with
hmac_inside = refl

value_cut :
    run (codes "VendorVersion: 1:2")
    ≡ done (ok (some (attribute (attribute_data (codes "VendorVersion") (codes "1")))))
unfolding parse_command contains starts_with parse_attribute split trim
value_cut = refl

not_known : run (codes "HELLO") ≡ done (err (unsupported (codes "HELLO")))
unfolding parse_command contains starts_with utf8
not_known = refl
