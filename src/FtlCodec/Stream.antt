-- ===== src/FtlCodec/Stream.antt =====
-- The codec on a whole byte stream: `decode` called again and again, on a buffer to which the
-- reads from the socket append.
use project_lightspeed.Base.{
  ℕ, zero, suc, false, ◌<◌, ◌≡◌, ◌≢◌, refl, subst₂, inl, inr, List, [], ◌∷◌, ◌++◌, All, map, none,
  some, arith, ok, err, Exec, done, panic, Bytes, append_assoc, length, ◌⊎◌,
}
use project_lightspeed.Rust.Text.{contains}
use project_lightspeed.FtlCodec.{
  FtlCommand, FtlCodec, FtlError, Parsed, Decoded, crlf_crlf, decode, reset,
}
use project_lightspeed.FtlCodec.Decode.{
  decode-append, decode-shrinks, decode_incomplete, decode_waits,
}
use project_lightspeed.FtlCodec.RoundTrip.{Request, IsSendable, wire, command_of, decode-wire}

-- From a codec and a buffer, calls of `decode` return these commands and then ask for more bytes,
-- with this codec and buffer left.
pub data Reads (last : FtlCodec) (left : Bytes) : FtlCodec → Bytes → List FtlCommand → Type 0 where
  wait :
      {codec : FtlCodec} {buf : Bytes}
      → decode codec buf ≡ done (record { codec = last; buf = left; item = ok none })
      → Reads last left codec buf []
  read :
      {codec next : FtlCodec} {buf rest : Bytes} {command : FtlCommand} {commands : List FtlCommand}
      → decode codec buf ≡ done (record { codec = next; buf = rest; item = ok (some command) })
      → Reads last left next rest commands
      → Reads last left codec buf (command ∷ commands)

-- After some commands `decode` returns an error or panics.
pub data Fails : FtlCodec → Bytes → List FtlCommand → Type 0 where
  refuse :
      {codec : FtlCodec} {buf : Bytes} (d : Decoded) (e : FtlError)
      → decode codec buf ≡ done d
      → d.item ≡ err e
      → Fails codec buf []
  crash : {codec : FtlCodec} {buf : Bytes} → decode codec buf ≡ panic → Fails codec buf []
  later :
      {codec next : FtlCodec} {buf rest : Bytes} {command : FtlCommand} {commands : List FtlCommand}
      → decode codec buf ≡ done (record { codec = next; buf = rest; item = ok (some command) })
      → Fails next rest commands
      → Fails codec buf (command ∷ commands)

abbrev Ends : FtlCodec → Bytes → Type 0
Ends codec buf =
    (commands : List FtlCommand) × (((last : FtlCodec) × (left : Bytes) × Reads last left codec buf
          commands)
      ⊎ Fails codec buf commands)

Ends-read :
    {codec next : FtlCodec} {buf rest : Bytes} (command : FtlCommand)
    → decode codec buf ≡ done (record { codec = next; buf = rest; item = ok (some command) })
    → Ends next rest
    → Ends codec buf
Ends-read command e (commands, inl (last, left, r)) =
    (command ∷ commands, inl (last, left, read e r))
Ends-read command e (commands, inr f) = (command ∷ commands, inr (later e f))

Ends-decoded :
    (codec : FtlCodec) (buf : Bytes) (r : Exec Decoded)
    → decode codec buf ≡ r
    → ((d : Decoded) → decode codec buf ≡ done d → d.item ≢ ok none → Ends d.codec d.buf)
    → Ends codec buf
Ends-decoded codec buf panic e next = ([], inr (crash e))
Ends-decoded codec buf (done d) e next = go d.item refl
  where
    go : (item : Parsed) → d.item ≡ item → Ends codec buf
    go (ok none) i = ([], inl (d.codec, d.buf, wait (rw (← i) e)))
    go (ok (some command)) i = Ends-read command (rw (← i) e) (next d e (λ p. cc))
    go (err why) i = ([], inr (refuse d why e i))

run_from : (n : ℕ) (codec : FtlCodec) (buf : Bytes) → length buf < n → Ends codec buf
run_from zero codec buf h = absurd (omega arith)
run_from (suc n) codec buf h =
    Ends-decoded codec buf (decode codec buf) refl
      λ d e ne. run_from n d.codec d.buf (omega (arith, decode-shrinks codec buf e ne))

-- On every buffer, calling `decode` again and again ends after finitely many commands: with a call
-- that asks for more bytes, or with one that returns an error or panics.
pub decode_ends :
    (codec : FtlCodec) (buf : Bytes)
    → (commands : List FtlCommand) × (((last : FtlCodec) × (left : Bytes) × Reads last left codec
            buf commands)
        ⊎ Fails codec buf commands)
decode_ends codec buf = run_from (suc (length buf)) codec buf (omega arith)

-- The commands do not depend on how the stream is cut into reads: more bytes go on where the first
-- calls stopped.
pub Reads-append :
    {last end : FtlCodec} {left rest : Bytes} {codec : FtlCodec} {xs : Bytes} (ys : Bytes)
    {before after : List FtlCommand}
    → Reads last left codec xs before
    → Reads end rest last (left ++ ys) after
    → Reads end rest codec (xs ++ ys) (before ++ after)
Reads-append {last} {end} {left} {rest} ys {after} (wait {codec} {buf} e) r =
    let (c, b) = decode_waits codec buf e refl in
    subst₂ (λ k bs. Reads end rest k (bs ++ ys) after) c b r
Reads-append ys (read {codec} {buf} e more) r =
    read (decode-append codec buf ys e (λ p. cc)) (Reads-append ys more r)

abbrev pub wires : List Request → Bytes
wires [] = []
wires (r ∷ rs) = wire r ++ wires rs

-- A stream of requests, cut anywhere in the last one, is read as the commands of the whole ones.
pub Reads-wires :
    (codec : FtlCodec) (rs : List Request) (partial : Bytes)
    → All IsSendable rs
    → contains partial crlf_crlf ≡ false
    → (last : FtlCodec) × Reads last partial codec (wires rs ++ partial) (map command_of rs)
Reads-wires codec [] partial h free = (codec, wait (decode_incomplete codec partial free))
Reads-wires codec (r ∷ rs) partial h free =
    let (last, more) = Reads-wires (reset codec) rs partial h.1 free in
    (
      last,
      read
          (rw (append_assoc (wire r) (wires rs) partial)
            (decode-wire codec r (wires rs ++ partial) h.0))
          more,
    )
