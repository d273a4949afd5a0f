-- ===== src/Tests/Instances.antt =====
-- Small stand-ins for the crates, the files and tokio, which meet what is assumed of them.
use project_lightspeed.Base.{
  Result, ok, ℕ, suc, ◌+◌, ◌-◌, ◌*◌, ◌/◌, ◌%◌, ◌≤◌, ◌<◌, ◌≡◌, ◌↔◌, refl, sym, ap, ◌∙◌, inr, Bool,
  true, false, [], ◌∷◌, ◌++◌, Option, none, some, All, arith, length, ltb, leb, if◌then◌else◌,
  equal, equal_iff, equal_refl, Bytes, Text,
}
use mathlib.Core.Option
use project_lightspeed.Rust.Utf8.{utf8}
use project_lightspeed.Rust.Utf8.RoundTrip.{utf8_ascii}
use project_lightspeed.FtlCodec.{new, encode}
use project_lightspeed.Platform.{Hex, Hmac, Random, Files, Platform, World, IsByte, IsAlphanumeric}
use project_lightspeed.Runtime.{
  Poll, ready, Framed, Mpsc, Fifo, send_fifo, recv_fifo, map_send, map_recv, SendPoll, RecvPoll,
  sent, send_waits, send_refused, received, recv_waits, recv_closed,
}
use project_lightspeed.FtlCodec.{FtlCommand}
use project_lightspeed.Connection.Handler.{FrameCommand}
use project_lightspeed.Connection.Tasks.{Server}

abbrev hex_digit : ℕ → ℕ
hex_digit n = if ltb n 10 then b'0' + n else b'a' + n - 10

abbrev digit_value : ℕ → Option ℕ
digit_value c =
    if ltb c b'0'
    then none
    else if leb c b'9'
    then some (c - b'0')
    else if ltb c b'a'
    then none
    else if leb c b'f'
    then some (c + 10 - b'a')
    else none

abbrev pub hex_encode : Bytes → Text
hex_encode [] = []
hex_encode (b ∷ bs) = hex_digit (b / 16) ∷ hex_digit (b % 16) ∷ hex_encode bs

abbrev join_digits : Option ℕ → Option ℕ → Option Bytes → Option Bytes
join_digits (some h) (some l) (some bs) = some ((h * 16 + l) ∷ bs)
join_digits _ _ _ = none

abbrev pub hex_decode : Bytes → Option Bytes
hex_decode [] = some []
hex_decode (h ∷ []) = none
hex_decode (h ∷ l ∷ s) = join_digits (digit_value h) (digit_value l) (hex_decode s)

digit_value-hex_digit : (n : ℕ) → n < 16 → digit_value (hex_digit n) ≡ some n
digit_value-hex_digit n h = ground arith

hex_digit_ascii : (n : ℕ) → n < 16 → hex_digit n < 0x80
hex_digit_ascii n h = ground arith

pub hex_encode_ascii : (bs : Bytes) → All IsByte bs → All (λ c. c < 0x80) (hex_encode bs)
hex_encode_ascii [] h = tt
hex_encode_ascii (b ∷ bs) h = (
  hex_digit_ascii (b / 16) (omega arith),
  (hex_digit_ascii (b % 16) (omega arith), hex_encode_ascii bs h.1),
)

hex_decode-encode : (bs : Bytes) → All IsByte bs → hex_decode (hex_encode bs) ≡ some bs
hex_decode-encode [] h = refl
hex_decode-encode (b ∷ bs) h =
    rw
      (
        digit_value-hex_digit (b / 16) (omega arith),
        digit_value-hex_digit (b % 16) (omega arith),
        hex_decode-encode bs h.1,
      )
      (ap (λ x. some (x ∷ bs)) (omega arith))

pub length-hex_encode : (bs : Bytes) → length (hex_encode bs) ≡ 2 * length bs
length-hex_encode [] = refl
length-hex_encode (b ∷ bs) = omega (arith, length-hex_encode bs)

pub unhex : (bs : Bytes) → All IsByte bs → hex_decode (utf8 (hex_encode bs)) ≡ some bs
unhex bs h = rw (utf8_ascii (hex_encode bs) (hex_encode_ascii bs h)) (hex_decode-encode bs h)

abbrev pub plain_hex : Hex
plain_hex = record {
  encode = hex_encode;
  decode = hex_decode;
  decode-encode = unhex;
  length-encode = length-hex_encode;
  encode_ascii = hex_encode_ascii;
}

-- A keyed checksum in place of HMAC-SHA512.
abbrev total : Bytes → ℕ
total [] = 0
total (b ∷ bs) = b + 3 * total bs

abbrev pub checksum : Bytes → Bytes → Bytes
checksum key message = (total (key ++ message) % 256) ∷ []

pub checksum_bytes : (key message : Bytes) → All IsByte (checksum key message)
checksum_bytes key message = (omega arith, tt)

abbrev checked : Bytes → Bytes → Bytes → Bool
checked key message tag = equal tag (checksum key message)

pub checked_iff :
    (key message tag : Bytes) → (checked key message tag ≡ true) ↔ (tag ≡ checksum key message)
checked_iff key message tag = equal_iff tag (checksum key message)

abbrev pub keyed_checksum : Hmac
keyed_checksum = record {
  sign = checksum;
  sign_bytes = checksum_bytes;
  verify = checked;
  verify_iff = checked_iff;
}

abbrev draw : ℕ → ℕ → ℕ → ℕ × ℕ
draw lo hi s = (lo + s % (hi - lo), suc s)

pub draw_range : (lo hi s : ℕ) → lo < hi → (lo ≤ (draw lo hi s).0) × ((draw lo hi s).0 < hi)
draw_range lo hi s h = (omega arith, grind arith)

abbrev draw_letter : ℕ → ℕ × ℕ
draw_letter s = (b'a' + s % 26, suc s)

pub draw_letter_range : (s : ℕ) → IsAlphanumeric (draw_letter s).0
draw_letter_range s = inr (inr (omega arith))

abbrev pub counter : Random
counter = record {
  Source = ℕ;
  sample_below = draw;
  sample_alphanumeric = draw_letter;
  sample_below_range = draw_range;
  sample_alphanumeric_range = draw_letter_range;
}

abbrev pub Store : Type 0
Store = Text → Option Bytes

abbrev pub put : Text → Bytes → Store → Store
put path content d other = if equal path other then some content else d other

pub read-put :
    (path : Text) (content : Bytes) (d d' : Store)
    → some (put path content d) ≡ some d'
    → d' path ≡ some content
read-put path content d d' e =
    ap (λ (f : Store). f path) (sym (Option.some-injective _ _ e)) ∙ rw (equal_refl path)

abbrev pub Differ : Text → Text → Type 0
Differ path other = equal path other ≡ false

abbrev grown : Bytes → Option Bytes → Bytes
grown content none = content
grown content (some old) = old ++ content

abbrev extend : Text → Bytes → Store → Store
extend path content d = put path (grown content (d path)) d

pub read-extend :
    (path other : Text) (content : Bytes) (d : Store)
    → Differ path other
    → extend path content d other ≡ d other
read-extend path other content d apart = rw apart

abbrev pub memory : Files
memory = record {
  Disk = Store;
  read = λ path d. d path;
  write = λ path content d. some (put path content d);
  create = λ path d. some (put path [] d);
  append = extend;
  Apart = Differ;
  read-append = read-extend;
  read-write = read-put;
}

abbrev pub desk : Platform
desk = record { hex = plain_hex; mac = keyed_checksum; random = counter; files = memory }

abbrev pub blank : World desk
blank = record { disk = λ path. none; source = 0 }

pub send_item_written :
    (item : Text) (f : Bytes)
    → Path (Poll (Result (Unit {0}) Text)) (ready (ok tt)) (ready (ok tt))
    → f ++ utf8 item ≡ (encode new item f).1
unfolding encode
send_item_written item f e = refl

abbrev pub wire_tap : Framed
wire_tap = record {
  Frame = Bytes;
  written = λ f. f;
  send = λ item f. record { frame = f ++ utf8 item; outcome = ready (ok tt) };
  send_written = send_item_written;
}

module _ {A : Type 0} where
  pub same_send : (p : SendPoll (Fifo A)) → map_send (λ c. c) p ≡ p
  same_send (sent c) = refl
  same_send send_waits = refl
  same_send send_refused = refl

  pub same_recv : (p : RecvPoll A (Fifo A)) → map_recv (λ c. c) p ≡ p
  same_recv (received a c) = refl
  same_recv recv_waits = refl
  same_recv recv_closed = refl

abbrev pub queue_of : (A : Type 0) → Mpsc A
queue_of A = record {
  Channel = Fifo A;
  fifo = λ c. c;
  channel = λ n. record { queue = []; capacity = n; sender_open = true; receiver_open = true };
  send = send_fifo;
  recv = recv_fifo;
  drop_sender = λ c. record c { sender_open = false };
  drop_receiver = λ c. record c { receiver_open = false };
  fifo-channel = λ n h. refl;
  fifo-send = λ a c. same_send (send_fifo a c);
  fifo-recv = λ c. same_recv (recv_fifo c);
  fifo-drop_sender = λ c. refl;
  fifo-drop_receiver = λ c. refl;
}

abbrev pub desk_server : Server
desk_server = record {
  platform = desk;
  framed = wire_tap;
  commands = queue_of FtlCommand;
  replies = queue_of FrameCommand;
}
