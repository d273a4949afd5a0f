-- ===== src/FtlCodec/Decode.antt =====
-- One call of `decode`, and calls one after another on a buffer that grows at its end.
use project_lightspeed.Base.{
  ℕ, ◌+◌, ◌≤◌, ◌≡◌, ◌≢◌, refl, ap, sym, ◌∙◌, false, inl, inr, [], ◌∷◌, ◌++◌, none, some, arith,
  length, ok, Exec, done, ◌>>=◌, panic, Text, take, drop, Option-cases, take-append_le,
  drop-append_le, length-drop, Bytes, drop-add, take-append-length, drop-append-length,
}
use project_lightspeed.Rust.Text.{contains}
use project_lightspeed.Rust.Utf8.{from_utf8_lossy}
use project_lightspeed.FtlCodec.{
  FtlCodec, Parsed, Decoded, crlf_crlf, find_end, reset, parse_command, take_command, decode,
}
use project_lightspeed.FtlCodec.Parsing.{Means, hmac_in, parse_command_iff}
use project_lightspeed.FtlCodec.Framing.{find_end-append, find_end_first, find_end-none}

pub decode_found :
    (codec : FtlCodec) (buf : Bytes) (i : ℕ)
    → find_end buf ≡ some i
    → decode codec buf
      ≡ take_command codec (drop (i + 4) buf) (parse_command (from_utf8_lossy (take i buf)))
unfolding decode
decode_found codec buf i h = rw (h, decode)

decode_not_found :
    (codec : FtlCodec) (buf : Bytes)
    → find_end buf ≡ none
    → decode codec buf ≡ done (record { codec = codec; buf = buf; item = ok none })
unfolding decode
decode_not_found codec buf h = rw (h, decode)

Means-ne-none : {s : Text} {r : Exec Parsed} → Means s r → r ≢ done (ok none)
Means-ne-none (hmac_in _) e = cc
Means-ne-none _ e = cc

pub parse_command-ne-none : (s : Text) → parse_command s ≢ done (ok none)
parse_command-ne-none s e = Means-ne-none ((parse_command_iff s (done (ok none))).0 e) refl

-- If the bytes `body` with "\r\n\r" behind them do not contain "\r\n\r\n", then `decode`, on
-- `body`, "\r\n\r\n" and further bytes, returns what `parse_command` makes of the text of `body`,
-- with an empty command buffer, and leaves exactly the further bytes in the buffer. It panics where
-- `parse_command` does.
pub decode_line :
    (codec : FtlCodec) (body rest : Bytes)
    → contains (body ++ b'\r' ∷ b'\n' ∷ b'\r' ∷ []) crlf_crlf ≡ false
    → decode codec (body ++ (crlf_crlf ++ rest)) ≡ (
        parse_command (from_utf8_lossy body) >>= λ item.
        done (record { codec = record { command_buffer = [] }; buf = rest; item = item }))
unfolding reset
decode_line codec body rest h =
    decode_found codec _ (length body) (find_end_first body rest h)
    ∙ rw (
      drop-add (length body) 4 (body ++ (crlf_crlf ++ rest)),
      drop-append-length body (crlf_crlf ++ rest),
      take-append-length body (crlf_crlf ++ rest),
    )

-- On a buffer that does not contain "\r\n\r\n", `decode` asks for more bytes and changes neither
-- the codec nor the buffer.
pub decode_incomplete :
    (codec : FtlCodec) (buf : Bytes)
    → contains buf crlf_crlf ≡ false
    → decode codec buf ≡ done (record { codec = codec; buf = buf; item = ok none })
decode_incomplete codec buf h = decode_not_found codec buf (find_end-none buf h)

take_command-append :
    (codec : FtlCodec) (rest ys : Bytes) (p : Exec Parsed) {d : Decoded}
    → take_command codec rest p ≡ done d
    → take_command codec (rest ++ ys) p ≡ done (record d { buf = d.buf ++ ys })
take_command-append codec rest ys (done item) e = ground arith
take_command-append codec rest ys panic e = cc

take_command-buf :
    (codec : FtlCodec) (rest : Bytes) (p : Exec Parsed) {d : Decoded}
    → take_command codec rest p ≡ done d
    → d.buf ≡ rest
take_command-buf codec rest (done item) e = ground arith
take_command-buf codec rest panic e = cc

module _ (codec : FtlCodec) (xs ys : Bytes) {i : ℕ} (at : find_end xs ≡ some i) where
  decode_longer :
      decode codec (xs ++ ys)
      ≡ take_command codec (drop (i + 4) xs ++ ys) (parse_command (from_utf8_lossy (take i xs)))
  decode_longer =
      let (fits, again) = find_end-append xs ys i at in
      rw (
        decode_found codec (xs ++ ys) i again,
        drop-append_le (i + 4) xs ys fits,
        take-append_le i xs ys (omega arith),
      )

-- If `decode` returns a command or an error, it does so with any bytes behind the buffer too, and
-- leaves them in it.
pub decode-append :
    (codec : FtlCodec) (xs ys : Bytes) {d : Decoded}
    → decode codec xs ≡ done d
    → d.item ≢ ok none
    → decode codec (xs ++ ys) ≡ done (record d { buf = d.buf ++ ys })
decode-append codec xs ys {d} e ne = elim (Option-cases (find_end xs)) [
  | inl missing ↦ absurd (ne (cc (e, decode_not_found codec xs missing)))
  | inr (i, at) ↦
      decode_longer codec xs ys at
      ∙ take_command-append codec _ ys _ (sym (decode_found codec xs i at) ∙ e)
]

-- If `decode` returns a command or an error, it takes at least four bytes from the buffer.
pub decode-shrinks :
    (codec : FtlCodec) (xs : Bytes) {d : Decoded}
    → decode codec xs ≡ done d
    → d.item ≢ ok none
    → length d.buf + 4 ≤ length xs
decode-shrinks codec xs {d} e ne = elim (Option-cases (find_end xs)) [
  | inl missing ↦ absurd (ne (cc (e, decode_not_found codec xs missing)))
  | inr (i, at) ↦
      let left =
        take_command-buf codec (drop (i + 4) xs) _ (sym (decode_found codec xs i at) ∙ e) in
      omega (arith, find_end-append xs [] i at, ap length left, length-drop (i + 4) xs)
]

take_command-none :
    (codec : FtlCodec) (rest : Bytes) (p : Exec Parsed) {d : Decoded}
    → take_command codec rest p ≡ done d
    → d.item ≡ ok none
    → p ≡ done (ok none)
take_command-none codec rest (done item) e h = ground arith
take_command-none codec rest panic e h = cc

-- Where `decode` asks for more bytes, it has changed neither the codec nor the buffer.
pub decode_waits :
    (codec : FtlCodec) (buf : Bytes) {d : Decoded}
    → decode codec buf ≡ done d
    → d.item ≡ ok none
    → (d.codec ≡ codec) × (d.buf ≡ buf)
decode_waits codec buf {d} e h = elim (Option-cases (find_end buf)) [
  | inl missing ↦ ground (arith, decode_not_found codec buf missing)
  | inr (i, at) ↦ absurd (
      parse_command-ne-none (from_utf8_lossy (take i buf))
        (take_command-none codec _ _ (sym (decode_found codec buf i at) ∙ e) h))
]

take_command_panic :
    (codec : FtlCodec) (rest : Bytes) (p : Exec Parsed)
    → take_command codec rest p ≡ panic
    → p ≡ panic
take_command_panic codec rest (done item) e = cc
take_command_panic codec rest panic e = refl

pub decode-append_panic :
    (codec : FtlCodec) (xs ys : Bytes) → decode codec xs ≡ panic → decode codec (xs ++ ys) ≡ panic
decode-append_panic codec xs ys e = elim (Option-cases (find_end xs)) [
  | inl missing ↦ cc (e, decode_not_found codec xs missing)
  | inr (i, at) ↦
      let p = take_command_panic codec _ _ (sym (decode_found codec xs i at) ∙ e) in
      decode_longer codec xs ys at ∙ rw p
]
