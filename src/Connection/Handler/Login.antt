-- ===== src/Connection/Handler/Login.antt =====
-- The handshake: the payload that the server hands out, and which connect command it accepts.
use project_lightspeed.Base.{
  ◌≡◌, ◌≢◌, ◌↔◌, ◌⊎◌, inl, inr, List, done-injective, refl, ap, sym, subst, ◌∙◌, true, false, [],
  ◌∷◌, Option, none, some, arith, All, All-mono, Text, Bytes, length, Exec, done, panic, Bool-cases,
  Option-cases,
}
use project_lightspeed.Rust.Text.{codes}
use project_lightspeed.Rust.Utf8.{utf8}
use project_lightspeed.Platform.{Platform, World, IsByte, text_of}
use project_lightspeed.FtlCodec.{hmac, connect}
use project_lightspeed.FtlCodec.Fields.{connect_data}
use project_lightspeed.Connection.State.{ConnectionState, get_payload, new}
use project_lightspeed.Connection.Keys.{hash_path}
use project_lightspeed.Connection.Keys.Sampling.{generate_hmac_lem}
use project_lightspeed.Connection.Keys.Agreement.{IsStored, read_stream_key_stored}
use project_lightspeed.Connection.Handler.{
  send, Handled, handle_command, handle_hmac, hmac_reply, compared,
}

module _ (platform : Platform) where
  open platform use {hex, mac}

  -- The message that a connect command must have signed: the bytes of the last payload handed out,
  -- or no bytes where none was.
  abbrev pub HasNonce : ConnectionState → Bytes → Type 0
  HasNonce conn nonce =
      (hex.decode (utf8 (get_payload conn)) ≡ some nonce)
      × (((conn.hmac_payload ≡ none) × (nonce ≡ [])) ⊎ (length nonce ≡ 128))

  nil_of_length : (s : Text) → length s ≡ 0 → s ≡ []
  nil_of_length [] h = refl
  nil_of_length (c ∷ s) h = absurd (omega arith)

  decode_nil : hex.decode [] ≡ some []
  unfolding utf8
  decode_nil = ap (λ t. hex.decode (utf8 t)) (sym none_encoded) ∙ hex.decode-encode [] tt
    where
      none_encoded : hex.encode [] ≡ []
      none_encoded = nil_of_length (hex.encode []) (omega (arith, hex.length-encode []))

  -- A connection starts with no payload, which reads as no bytes.
  pub new-HasNonce : HasNonce new []
  unfolding new get_payload utf8
  new-HasNonce = (decode_nil, inl (refl, refl))

  pub handle_hmac_lem :
      (conn : ConnectionState) (world : World platform)
      → (nonce : Bytes) × (world' : World platform) × (handle_hmac platform conn world ≡ record {
        conn = record conn { hmac_payload = some (hex.encode nonce) };
        world = world';
        reply = some (hmac_reply (codes "200 " ∷ hex.encode nonce ∷ codes "\n" ∷ []));
        log = [];
      })
        × (world'.disk ≡ world.disk)
        × All IsByte nonce
        × (length nonce ≡ 128)
  unfolding handle_hmac get_payload
  handle_hmac_lem conn world =
      let (nonce, source, e, drawn, size) = generate_hmac_lem platform world in
      (
        nonce,
        record world { source = source },
        rw e,
        refl,
        All-mono _ _ (λ b h. omega arith) nonce drawn,
        size,
      )

  pub readable :
      (conn : ConnectionState) (nonce : Bytes)
      → All IsByte nonce
      → length nonce ≡ 128
      → HasNonce (record conn { hmac_payload = some (hex.encode nonce) }) nonce
  unfolding get_payload
  readable conn nonce bytes size = (hex.decode-encode nonce bytes, inr size)

  -- What the handler makes of a connect command's key, decoded.
  abbrev checked :
      Bytes → Bytes → ConnectionState → World platform → Option Bytes → Exec (Handled platform)
  checked key nonce conn world none = panic
  checked key nonce conn world (some tag) =
      done (compared platform (mac.verify key nonce tag) conn world)

  login_lem :
      (conn : ConnectionState) (world : World platform) (channel key_text : Text)
      (key nonce : Bytes)
      → IsStored platform key world
      → HasNonce conn nonce
      → handle_command platform (connect (connect_data channel key_text)) conn world
        ≡ checked key nonce conn world (hex.decode (utf8 key_text))
  unfolding handle_command
  login_lem conn world channel key_text key nonce stored has =
      elim (Option-cases (hex.decode (utf8 key_text))) [
        | inl e ↦ rw e
        | inr (tag, e) ↦
            rw e (rw (read_stream_key_stored platform (some []) {world = world} stored) (rw has.0))
      ]

  -- The handler returns with these items to send, and with this connection and world.
  abbrev pub Answers :
      List Text → ConnectionState → World platform → Exec (Handled platform) → Type 0
  Answers items conn world e =
      (h : Handled platform) × (e ≡ done h)
      × (h.conn ≡ conn)
      × (h.world ≡ world)
      × (on_error : Text) × (h.reply ≡ some (record { command = send items; on_error = on_error }))

  -- The handler returns with nothing to send, and with this connection and world.
  abbrev pub IsSilent : ConnectionState → World platform → Exec (Handled platform) → Type 0
  IsSilent conn world e =
      (h : Handled platform) × (e ≡ done h) × (h.conn ≡ conn) × (h.world ≡ world) × (h.reply ≡ none)

  accepts-Answers :
      (conn : ConnectionState) (world : World platform)
      → Answers (codes "200\n" ∷ []) conn world (done (compared platform true conn world))
  accepts-Answers conn world = (_, refl, refl, refl, _, refl)

  rejects-IsSilent :
      (conn : ConnectionState) (world : World platform)
      → IsSilent conn world (done (compared platform false conn world))
  rejects-IsSilent conn world = (_, refl, refl, refl, refl)

  accepts-not-IsSilent :
      (conn : ConnectionState) (world : World platform)
      → ¬ IsSilent conn world (done (compared platform true conn world))
  accepts-not-IsSilent conn world (h, e, c, w, r) =
      cc (r, ap (λ (k : Handled platform). k.reply) (done-injective e))

  rejects-not-Answers :
      {items : List Text} (conn : ConnectionState) (world : World platform)
      → ¬ Answers items conn world (done (compared platform false conn world))
  rejects-not-Answers conn world (h, e, c, w, why, r) =
      cc (r, ap (λ (k : Handled platform). k.reply) (done-injective e))

  checked_iff :
      (conn : ConnectionState) (world : World platform) (key nonce : Bytes) (decoded : Option Bytes)
      → (Answers (codes "200\n" ∷ []) conn world (checked key nonce conn world decoded)
          ↔ (decoded ≡ some (mac.sign key nonce)))
        × ((checked key nonce conn world decoded ≡ panic) ↔ (decoded ≡ none))
        × (IsSilent conn world (checked key nonce conn world decoded)
            ↔ ((tag : Bytes) × (decoded ≡ some tag) × (tag ≢ mac.sign key nonce)))
  checked_iff conn world key nonce none = (
    (λ (h, e, c, w, why, r). cc, λ e. cc),
    (λ _. refl, λ _. refl),
    (λ (h, e, c, w, r). cc, λ (tag, e, ne). cc),
  )
  checked_iff conn world key nonce (some tag) = elim (Bool-cases (mac.verify key nonce tag)) [
    | inl valid ↦
        let same = (mac.verify_iff key nonce tag).0 valid in
        rw valid (
          (λ _. ap some same, λ _. accepts-Answers conn world),
          (λ e. cc, λ e. cc),
          (
            λ a. absurd (accepts-not-IsSilent conn world a),
            λ (t, e, ne). absurd (ne (ground arith)),
          ),
        )
    | inr invalid ↦
        let differ : tag ≢ mac.sign key nonce =
          λ e. cc (invalid, (mac.verify_iff key nonce tag).1 e) in
        rw invalid (
          (λ a. absurd (rejects-not-Answers conn world a), λ e. absurd (differ (ground arith))),
          (λ e. cc, λ e. cc),
          (λ _. (tag, refl, differ), λ _. rejects-IsSilent conn world),
        )
  ]

  -- Let the file "hash" hold `key`, and let the connection's payload read as `nonce`. On a connect
  -- command with a channel and a key, `handle_command` returns the one item "200\n" to send exactly
  -- when the command's key is, decoded from hexadecimal, the signature of `nonce` under `key`. It
  -- panics exactly when that key cannot be decoded, and it returns nothing to send exactly when it
  -- is decoded to something else. Where it returns, the connection and the world are as before.
  pub login_iff :
      (conn : ConnectionState) (world : World platform) (channel key_text : Text)
      (key nonce : Bytes)
      → IsStored platform key world
      → HasNonce conn nonce
      → let answer = handle_command platform (connect (connect_data channel key_text)) conn world in
        (Answers (codes "200\n" ∷ []) conn world answer
          ↔ (hex.decode (utf8 key_text) ≡ some (mac.sign key nonce)))
        × ((answer ≡ panic) ↔ (hex.decode (utf8 key_text) ≡ none))
        × (IsSilent conn world answer ↔ (
            (tag : Bytes) × (hex.decode (utf8 key_text) ≡ some tag) × (tag ≢ mac.sign key nonce)))
  login_iff conn world channel key_text key nonce stored has =
      rw (login_lem conn world channel key_text key nonce stored has)
        (checked_iff conn world key nonce (hex.decode (utf8 key_text)))

  abbrev IsStoredOn : Bytes → platform.files.Disk → Type 0
  IsStoredOn key disk =
      (file : Text) × (text_of (platform.files.read hash_path disk) ≡ some file)
      × (hex.decode (utf8 file) ≡ some key)

  -- Let the file "hash" hold `key`. In any state of the connection, `handle_command` returns "200
  -- ", 128 bytes in hexadecimal and "\n" to send on an HMAC command. On a connect command with the
  -- signature of these bytes under `key`, it then returns "200\n" to send.
  pub handshake :
      (conn : ConnectionState) (world : World platform) (channel : Text) (key : Bytes)
      → IsStored platform key world
      → (nonce : Bytes) × (length nonce ≡ 128)
        × (asked : Handled platform) × (handle_command platform hmac conn world ≡ done asked)
        × (on_error : Text) × (asked.reply
            ≡ some (record {
              command = send (codes "200 " ∷ hex.encode nonce ∷ codes "\n" ∷ []);
              on_error = on_error;
            }))
        × Answers (codes "200\n" ∷ []) asked.conn asked.world (
            handle_command platform
              (connect (connect_data channel (hex.encode (mac.sign key nonce))))
              asked.conn
              asked.world)
  handshake conn world channel key stored =
      let (nonce, world', e, disk, bytes, size) = handle_hmac_lem conn world in
      let asked = handle_hmac platform conn world in
      let read_back = ap (λ (h : Handled platform). h.conn) e in
      let has = subst (λ c. HasNonce c nonce) (sym read_back) (readable conn nonce bytes size) in
      let kept : IsStored platform key asked.world =
        subst (λ w. IsStoredOn key w) (sym (ap (λ (h : Handled platform). h.world.disk) e ∙ disk))
          stored in
      let tag = hex.encode (mac.sign key nonce) in
      (
        nonce,
        size,
        asked,
        unfold handle_command in refl,
        _,
        ap (λ (h : Handled platform). h.reply) e,
        (login_iff asked.conn asked.world channel tag key nonce kept has).0.1
            (hex.decode-encode _ (mac.sign_bytes key nonce)),
      )
