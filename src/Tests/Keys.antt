-- ===== src/Tests/Keys.antt =====
-- The stream key, the handshake and the start, on a disk in memory.
use mathlib.Core.Option
use project_lightspeed.Base.{
  sym, subst, ap, ◌∙◌, Option, ℕ, zero, suc, ◌<◌, ◌≡◌, ◌≢◌, ◌↔◌, inl, inr, refl, true, false, [],
  ◌∷◌, none, some, All, equal, arith, length, ok, err, done, panic, ◌>>=◌, Text, Bytes,
}
use project_lightspeed.Rust.Text.{codes}
use project_lightspeed.Rust.Utf8.{IsScalar, utf8, utf8_char, from_utf8}
use project_lightspeed.FtlCodec.{hmac, connect, ping, attribute}
use project_lightspeed.FtlCodec.Fields.{connect_data, attribute_data}
use project_lightspeed.Platform.{World, IsByte, IsAlphanumeric}
use project_lightspeed.Connection.State.{ConnectionState, new, get_payload, info}
use project_lightspeed.Connection.Keys.{
  read_to_string, KeyRead, hash_path, key_line, write_hash, read_stream_key, generate_hmac,
  generate_stream_key, print_stream_key,
}
use project_lightspeed.Connection.Keys.Agreement.{IsStored, read_stream_key_agrees}
use project_lightspeed.Connection.Keys.Returns.{Writable, IsText, read_stream_key_returns}
use project_lightspeed.Connection.Keys.Sampling.{
  IsDrawn, generate_hmac_lem, generate_stream_key_lem,
}
use project_lightspeed.Connection.Handler.{
  send, Handled, handle_command, connection_reply, assign, assigned,
}
use project_lightspeed.Connection.Handler.Attributes.{vendor_name, key_of, Takes, assign-Takes}
use project_lightspeed.Connection.Handler.Replies.{AttributeOutcome, attribute_outcome}
use project_lightspeed.Connection.Handler.Login.{HasNonce, Answers, IsSilent, login_iff, handshake}
use project_lightspeed.Connection.Handler.Nonce.{handle_command-HasNonce}
use project_lightspeed.Connection.Tasks.{init}
use project_lightspeed.Startup.{
  write_logger, Args, Network, Running, term_logger, main, make_loggers, accept_loop, bind_address,
}
use project_lightspeed.Startup.Ready.{IsReady, main-IsReady}
use project_lightspeed.Tests.Instances.{
  memory, hex_encode, hex_decode, unhex, checksum, desk, blank, put, desk_server,
}

abbrev pub key : Bytes
key = codes "k3y"

key_bytes : All IsByte key
key_bytes = omega arith

abbrev pub stored_world : World desk
stored_world = record blank { disk = put hash_path (utf8 (hex_encode key)) blank.disk }

pub stored : IsStored desk key stored_world
unfolding equal utf8 utf8_char from_utf8
stored = (hex_encode key, refl, unhex key key_bytes)

abbrev count : ℕ → Bytes
count zero = []
count (suc n) = n ∷ count n

count_bytes : (n : ℕ) → n < 257 → All IsByte (count n)
count_bytes zero h = tt
count_bytes (suc n) h = (omega arith, count_bytes n (omega arith))

abbrev pub nonce : Bytes
nonce = count 128

abbrev pub asked : ConnectionState
asked = record new { hmac_payload = some (hex_encode nonce) }

pub asked-HasNonce : HasNonce desk asked nonce
unfolding get_payload
asked-HasNonce = (unhex nonce (count_bytes 128 (omega arith)), inr refl)

abbrev pub signature : Text
signature = hex_encode (checksum key nonce)

login_iff_example :
    let answer =
      handle_command desk (connect (connect_data (codes "7") signature)) asked stored_world in
    (Answers desk (codes "200\n" ∷ []) asked stored_world answer
      ↔ (hex_decode (utf8 signature) ≡ some (checksum key nonce)))
    × ((answer ≡ panic) ↔ (hex_decode (utf8 signature) ≡ none))
    × (IsSilent desk asked stored_world answer
        ↔ ((tag : Bytes) × (hex_decode (utf8 signature) ≡ some tag) × (tag ≢ checksum key nonce)))
login_iff_example =
    login_iff desk asked stored_world (codes "7") signature key nonce stored asked-HasNonce

handshake_example :
    (n : Bytes) × (length n ≡ 128)
    × (h : Handled desk) × (handle_command desk hmac new stored_world ≡ done h)
    × (on_error : Text) × (h.reply
        ≡ some (record {
          command = send (codes "200 " ∷ hex_encode n ∷ codes "\n" ∷ []);
          on_error = on_error;
        }))
    × Answers desk (codes "200\n" ∷ []) h.conn h.world (
        handle_command desk
          (connect (connect_data (codes "7") (hex_encode (checksum key n))))
          h.conn
          h.world)
handshake_example = handshake desk new stored_world (codes "7") key stored

abbrev ponged : Handled desk
ponged = record {
  conn = asked;
  world = stored_world;
  reply = some (connection_reply (codes "201\n" ∷ []));
  log = [];
}

pinged : handle_command desk ping asked stored_world ≡ done ponged
unfolding handle_command
pinged = refl

handle_command-HasNonce_example : (nonce' : Bytes) × HasNonce desk ponged.conn nonce'
handle_command-HasNonce_example =
    handle_command-HasNonce desk ping asked stored_world nonce asked-HasNonce pinged

attribute_outcome_example :
    (h : Handled desk) × (handle_command desk
        (attribute (attribute_data (codes "Video") (codes "yes")))
        asked
        stored_world
      ≡ done h)
    × (h.world ≡ stored_world)
    × AttributeOutcome desk (attribute_data (codes "Video") (codes "yes")) asked h
attribute_outcome_example =
    attribute_outcome desk (attribute_data (codes "Video") (codes "yes")) asked stored_world

named :
    assign (key_of vendor_name) (codes "OBS") new
    ≡ assigned (record new { vendor_name = some (codes "OBS") })
unfolding assign equal
named = refl

assign-Takes_example :
    Takes vendor_name (codes "OBS") new (record new { vendor_name = some (codes "OBS") })
assign-Takes_example = assign-Takes vendor_name (codes "OBS") new named

generate_hmac_lem_example :
    (payload : Bytes) × (source : ℕ) × (generate_hmac desk blank
      ≡ (hex_encode payload, record blank { source = source }))
    × All (IsDrawn desk) payload
    × (length payload ≡ 128)
generate_hmac_lem_example = generate_hmac_lem desk blank

generate_stream_key_lem_example :
    (new_key : Bytes) × (source : ℕ) × (generate_stream_key desk blank
      ≡ (write_hash desk new_key (record blank { source = source }) >>= λ w. done (new_key, w)))
    × All IsAlphanumeric new_key
    × (length new_key ≡ 32)
generate_stream_key_lem_example = generate_stream_key_lem desk blank

abbrev given : Text
given = codes "k3y"

given_scalars : (s : Text) → some given ≡ some s → All IsScalar s
given_scalars s e = scalars_of s (ground arith)
  where
    plain : All IsScalar given
    plain = (inl (omega arith), (inl (omega arith), (inl (omega arith), tt)))

    scalars_of : (t : Text) → given ≡ t → All IsScalar t
    scalars_of t same = rw (← same) plain

abbrev settled : KeyRead desk
settled = record { key = key; world = stored_world; log = key_line given ∷ [] }

settles : read_stream_key desk true (some given) blank ≡ done settled
unfolding read_stream_key print_stream_key utf8 utf8_char from_utf8
settles = refl

read_stream_key_agrees_example :
    read_stream_key desk false none stored_world
    ≡ done (record { key = key; world = stored_world; log = [] })
read_stream_key_agrees_example =
    read_stream_key_agrees desk (some given) none blank settled given_scalars settles

desk-Writable : Writable desk
desk-Writable path content d = (put path content d, refl)

key_text : from_utf8 key ≡ some given
unfolding from_utf8
key_text = refl

stored_file : read_to_string desk hash_path stored_world ≡ some (hex_encode key)
unfolding equal utf8 utf8_char from_utf8
stored_file = refl

stored-IsText : IsText desk stored_world
stored-IsText file k e d =
    let same : hex_encode key ≡ file = Option.some-injective _ _ (sym stored_file ∙ e) in
    let decoded : some key ≡ some k =
      sym (unhex key key_bytes) ∙ ap (λ f. hex_decode (utf8 f)) same ∙ d in
    (given, subst (λ b. from_utf8 b ≡ some given) (Option.some-injective _ _ decoded) key_text)

none_given : (s : Text) → Path (Option Text) none (some s) → All IsScalar s
none_given s e = cc

read_stream_key_returns_example :
    (r : KeyRead desk) × (read_stream_key desk true none stored_world ≡ done r)
read_stream_key_returns_example =
    read_stream_key_returns desk none stored_world desk-Writable stored-IsText none_given

abbrev args : Args
args = record { address = none; log_file = some (codes "log"); stream_key = some given }

-- One client connects, and then `accept` fails.
abbrev network : Network Bytes
network = record {
  has_terminal = true;
  bind = λ address. none;
  accepts = ok [] ∷ err (codes "reset") ∷ [];
  log_bytes = λ line. codes ".";
}

abbrev logged : World desk
logged = record stored_world {
  disk =
      memory.append (codes "log") (codes "..")
        (put hash_path (utf8 (hex_encode key)) (put (codes "log") [] blank.disk));
}

abbrev running : Running desk_server
running = record {
  loggers = term_logger ∷ write_logger (codes "log") ∷ [];
  address = codes "0.0.0.0:8084";
  world = logged;
  log = key_line given ∷ info (codes "Listening on 0.0.0.0:8084") ∷ [];
  connections = init desk_server [] logged ∷ [];
  failure = some (codes "reset");
}

starts : main desk_server args network blank ≡ done running
unfolding main read_stream_key print_stream_key utf8 utf8_char from_utf8 accept_loop make_loggers
    bind_address
starts = refl

log_apart : (path : Text) → some (codes "log") ≡ some path → memory.Apart path hash_path
unfolding equal
log_apart path e = subst (λ p. memory.Apart p hash_path) (Option.some-injective _ _ e) refl

main-IsReady_example : IsReady desk_server args network running
main-IsReady_example =
    main-IsReady desk_server args network blank running given_scalars log_apart starts
