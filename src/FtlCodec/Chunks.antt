-- ===== src/FtlCodec/Chunks.antt =====
-- The byte stream arrives in chunks. The commands are those of the whole stream, wherever it is cut.
use project_lightspeed.Base.{
  ◌≡◌, refl, sym, subst, subst₂, inl, inr, List, [], ◌∷◌, ◌++◌, All, map, Option, none, some, ◌↔◌,
  false, arith, ok, done, append_assoc, append-nil, Bytes,
}
use project_lightspeed.Rust.Text.{contains}
use project_lightspeed.FtlCodec.{FtlCommand, FtlCodec, Decoded, decode, crlf_crlf}
use project_lightspeed.FtlCodec.Decode.{decode-append, decode-append_panic, decode_waits}
use project_lightspeed.FtlCodec.RoundTrip.{Request, IsSendable, command_of}
use project_lightspeed.FtlCodec.Stream.{
  Reads, wait, read, Fails, refuse, crash, later, decode_ends, wires, Reads-wires, Reads-append,
}

-- Each read from the socket appends a chunk to what the last calls of `decode` have left.
pub data Feeds (last : FtlCodec) (left : Bytes)
    : FtlCodec → Bytes → List Bytes → List FtlCommand → Type 0 where
  finished :
      {codec : FtlCodec} {buf : Bytes} {commands : List FtlCommand}
      → Reads last left codec buf commands
      → Feeds last left codec buf [] commands
  arrive :
      {codec mid : FtlCodec} {buf kept chunk : Bytes} {chunks : List Bytes}
      {before after : List FtlCommand}
      → Reads mid kept codec buf before
      → Feeds last left mid (kept ++ chunk) chunks after
      → Feeds last left codec buf (chunk ∷ chunks) (before ++ after)

abbrev pub flatten : List Bytes → Bytes
flatten [] = []
flatten (chunk ∷ chunks) = chunk ++ flatten chunks

module _ {last : FtlCodec} {left : Bytes} where
  Reads-rest :
      {codec next : FtlCodec} {buf rest : Bytes} {command : FtlCommand} {commands : List FtlCommand}
      → Reads last left codec buf commands
      → decode codec buf ≡ done (record { codec = next; buf = rest; item = ok (some command) })
      → (more : List FtlCommand) × (commands ≡ command ∷ more) × Reads last left next rest more
  Reads-rest (wait e) h = cc (e, h)
  Reads-rest (read {commands} e r) h = (
    commands,
    ground arith,
    subst₂ (λ k b. Reads last left k b commands) (ground arith) (ground arith) r,
  )

  Reads-split :
      {mid : FtlCodec} {kept : Bytes} {codec : FtlCodec} {buf : Bytes} {before : List FtlCommand}
      {commands : List FtlCommand} (ys : Bytes)
      → Reads mid kept codec buf before
      → Reads last left codec (buf ++ ys) commands
      → (after : List FtlCommand) × (commands ≡ before ++ after)
        × Reads last left mid (kept ++ ys) after
  Reads-split {commands} ys (wait {codec} {buf} e) r =
      let (c, b) = decode_waits codec buf e refl in
      (commands, refl, subst₂ (λ k bs. Reads last left k (bs ++ ys) commands) (sym c) (sym b) r)
  Reads-split ys (read {codec} {buf} e r) whole =
      let (more, same, rest) = Reads-rest whole (decode-append codec buf ys e (λ p. cc)) in
      let (after, split, r') = Reads-split ys r rest in (after, ground arith, r')

  Reads-first :
      {codec : FtlCodec} {buf : Bytes} {commands : List FtlCommand}
      → Reads last left codec buf commands
      → (d : Decoded) × (o : Option FtlCommand) × (decode codec buf ≡ done d) × (d.item ≡ ok o)
  Reads-first (wait e) = (_, none, e, refl)
  Reads-first (read {command} e r) = (_, some command, e, refl)

  Reads-not-Fails :
      {codec : FtlCodec} {buf : Bytes} {before commands : List FtlCommand} (ys : Bytes)
      → Fails codec buf before
      → ¬ Reads last left codec (buf ++ ys) commands
  Reads-not-Fails ys (refuse {codec} {buf} d why e item) r =
      let (d', o, e', item') = Reads-first r in
      let longer = decode-append codec buf ys e (λ p. cc (item, p)) in ground arith
  Reads-not-Fails ys (crash {codec} {buf} e) r =
      let (d', o, e', item') = Reads-first r in cc (e', decode-append_panic codec buf ys e)
  Reads-not-Fails ys (later {codec} {buf} e f) r =
      let (more, same, rest) = Reads-rest r (decode-append codec buf ys e (λ p. cc)) in
      Reads-not-Fails ys f rest

  -- However a stream is cut into chunks, feeding them reads the commands of the whole stream.
  pub Feeds-Reads :
      (chunks : List Bytes) (codec : FtlCodec) (buf : Bytes) {commands : List FtlCommand}
      → Reads last left codec (buf ++ flatten chunks) commands
      → Feeds last left codec buf chunks commands
  Feeds-Reads [] codec buf {commands} r =
      finished (subst (λ b. Reads last left codec b commands) (append-nil buf) r)
  Feeds-Reads (chunk ∷ chunks) codec buf {commands} r =
      let (before, ending) = decode_ends codec buf in
      elim ending [
        | inl (mid, kept, r') ↦
            let (after, split, rest) = Reads-split (chunk ++ flatten chunks) r' r in
            let joined =
              subst (λ b. Reads last left mid b after)
                (sym (append_assoc kept chunk (flatten chunks))) rest in
            subst (Feeds last left codec buf (chunk ∷ chunks)) (sym split)
              (arrive r' (Feeds-Reads chunks mid (kept ++ chunk) joined))
        | inr f ↦ absurd (Reads-not-Fails (chunk ++ flatten chunks) f r)
      ]

  pub Reads-Feeds :
      {chunks : List Bytes} {codec : FtlCodec} {buf : Bytes} {commands : List FtlCommand}
      → Feeds last left codec buf chunks commands
      → Reads last left codec (buf ++ flatten chunks) commands
  Reads-Feeds (finished {codec} {buf} {commands} r) =
      subst (λ b. Reads last left codec b commands) (sym (append-nil buf)) r
  Reads-Feeds (arrive {codec} {mid} {buf} {kept} {chunk} {chunks} {before} {after} r f) =
      Reads-append (chunk ++ flatten chunks) r (
        subst (λ b. Reads last left mid b after) (append_assoc kept chunk (flatten chunks))
          (Reads-Feeds f))

-- Feeding a stream to `decode` chunk by chunk reads the same commands, with the same codec and
-- bytes left, as calling `decode` on the whole stream.
pub Feeds-iff :
    (chunks : List Bytes) (codec last : FtlCodec) (left : Bytes) (commands : List FtlCommand)
    → Feeds last left codec [] chunks commands ↔ Reads last left codec (flatten chunks) commands
Feeds-iff chunks codec last left commands = (λ f. Reads-Feeds f, λ r. Feeds-Reads chunks codec [] r)

-- Sendable requests (`IsSendable`) are sent as one stream, with bytes behind them that do not
-- contain "\r\n\r\n", and the stream is cut into chunks anywhere. Feeding the chunks to `decode`,
-- which keeps what it has not read, gives the requests' commands in their order, and the bytes
-- behind the last request are what is left.
pub Feeds-wires :
    (codec : FtlCodec) (rs : List Request) (partial : Bytes) (chunks : List Bytes)
    → All IsSendable rs
    → contains partial crlf_crlf ≡ false
    → flatten chunks ≡ wires rs ++ partial
    → (last : FtlCodec) × Feeds last partial codec [] chunks (map command_of rs)
Feeds-wires codec rs partial chunks h free e =
    let (last, r) = Reads-wires codec rs partial h free in
    (
      last,
      Feeds-Reads chunks codec []
          (subst (λ b. Reads last partial codec b (map command_of rs)) (sym e) r),
    )
