-- ===== src/Connection/Tasks/Commands.antt =====
-- The commands of the handshake, from the client's bytes on the socket to the answer, or to none.
use project_lightspeed.Base.{
  ◌≡◌, ◌≢◌, inl, inr, refl, sym, ap, ◌∙◌, subst, subst₂, equal, List, [], length, ◌∷◌, none, some,
  ok, panic, Text, Bytes,
}
use project_lightspeed.Rust.Text.{codes}
use project_lightspeed.Rust.Utf8.{utf8}
use project_lightspeed.Platform.{World}
use project_lightspeed.FtlCodec.{FtlCommand, hmac, connect, attribute}
use project_lightspeed.FtlCodec.Fields.{connect_data, attribute_data}
use project_lightspeed.Runtime.{recv_closed, ready}
use project_lightspeed.Connection.State.{ConnectionState}
use project_lightspeed.Connection.Keys.Agreement.{IsStored}
use project_lightspeed.Connection.Handler.{Handled, handle_command}
use project_lightspeed.Connection.Handler.Attributes.{Attribute, key_of, IsFlag, same_key-IsFlag}
use project_lightspeed.Connection.Handler.Replies.{
  IsBool, AttributeOutcome, taken, refused, ignored, incomplete, attribute_outcome,
}
use project_lightspeed.Connection.Handler.Login.{HasNonce, Answers, login_iff, handshake}
use project_lightspeed.Rust.HashMap
use mathlib.Core.Option
use project_lightspeed.Connection.Frame.{handle_frame_command, send_each, send_each-cons_ok}
use project_lightspeed.Connection.Tasks.{
  Next, poll_frame, Server, System, reading, waiting, frame_returned, command_over, after_handled,
  frame_at, frame_told, Works, frame_works, client_sends,
}
use project_lightspeed.Connection.Tasks.Channels.{recv_dropped, drop_sender_Holds}
use project_lightspeed.Connection.Tasks.Phases.{frame_from, over_stays}
use project_lightspeed.Connection.Tasks.Hangs.{
  Quiet, IsHandled, HangsFrom, unanswered_hangs, delivered, run_handled,
}
use project_lightspeed.Connection.Tasks.Answers.{Serves, answered-Serves}

module _ (server : Server) where
  open server use {platform, framed, commands, replies}

  connect-IsHandled : (channel key : Text) → IsHandled server (connect (connect_data channel key))
  connect-IsHandled channel key = (λ e. cc, λ e. cc)

  attribute-IsHandled : (key value : Text) → IsHandled server (attribute (attribute_data key value))
  attribute-IsHandled key value = (λ e. cc, λ e. cc)

  answers-Serves :
      (s : System server) (c : FtlCommand) (conn : ConnectionState) (items : List Text)
      {conn' : ConnectionState} {world : World platform}
      → Quiet server reading conn s
      → IsHandled server c
      → Answers platform items conn' world (handle_command platform c conn s.world)
      → (send_each framed items s.frame).1 ≡ ready (ok tt)
      → Serves server (client_sends server c s) items conn' world
  answers-Serves s c conn items quiet handled (h, e, same, kept, on_error, reply) succeeds =
      subst₂ (Serves server (client_sends server c s) items) same kept
        (answered-Serves server s c conn h items on_error quiet handled e reply succeeds)

  module _ (s : System server) (conn : ConnectionState) (quiet : Quiet server reading conn s) where
    -- On a quiet connection, let the file "hash" hold `key`, and let the connection's payload read
    -- as `nonce`. If the client sends a connect command with the signature of `nonce` under `key`,
    -- and the write succeeds, it is sent "200\n", and the connection is quiet again, in whatever
    -- order the tasks are polled.
    pub login-Serves :
        (channel key_text : Text) (key nonce : Bytes)
        → IsStored platform key s.world
        → HasNonce platform conn nonce
        → platform.hex.decode (utf8 key_text) ≡ some (platform.mac.sign key nonce)
        → (send_each framed (codes "200\n" ∷ []) s.frame).1 ≡ ready (ok tt)
        → Serves server
            (client_sends server (connect (connect_data channel key_text)) s)
            (codes "200\n" ∷ [])
            conn
            s.world
    login-Serves channel key_text key nonce stored has signed succeeds =
        answers-Serves s (connect (connect_data channel key_text)) conn _ quiet
          (connect-IsHandled channel key_text)
          ((login_iff platform conn s.world channel key_text key nonce stored has).0.1 signed)
          succeeds

    -- On a quiet connection, let the file "hash" hold `key`, and let the connection's payload read
    -- as `nonce`. If the client sends a connect command whose key is another tag than the signature
    -- of `nonce` under `key`, nothing is written, and the connection hangs for ever, in whatever
    -- order the tasks are polled.
    pub wrong_login_hangs :
        (channel key_text : Text) (key nonce tag : Bytes)
        → IsStored platform key s.world
        → HasNonce platform conn nonce
        → platform.hex.decode (utf8 key_text) ≡ some tag
        → tag ≢ platform.mac.sign key nonce
        → HangsFrom server (client_sends server (connect (connect_data channel key_text)) s)
    wrong_login_hangs channel key_text key nonce tag stored has decoded wrong =
        let (h, answer, c, w, silent) =
          (login_iff platform conn s.world channel key_text key nonce stored has).2.1
            (tag, decoded, wrong) in
        unanswered_hangs server s (connect (connect_data channel key_text)) conn quiet
          (inr (connect-IsHandled channel key_text, h, answer, silent))

    -- On a quiet connection, if the client sends an attribute command for one of the two flags with
    -- another value than "true" and "false", nothing is written, and the connection hangs for ever,
    -- in whatever order the tasks are polled.
    pub bad_flag_hangs :
        (a : Attribute) (value : Text)
        → IsFlag a
        → ¬ IsBool value
        → HangsFrom server (client_sends server (attribute (attribute_data (key_of a) value)) s)
    unfolding HashMap.get equal
    bad_flag_hangs a value flag other =
        let (h, e, same, outcome) =
          attribute_outcome platform (attribute_data (key_of a) value) conn s.world in
        unanswered_hangs server s (attribute (attribute_data (key_of a) value)) conn quiet
          (inr (attribute-IsHandled (key_of a) value, h, e, silent h outcome))
      where
        silent :
            (h : Handled platform)
            → AttributeOutcome platform (attribute_data (key_of a) value) conn h
            → h.reply ≡ none
        silent h (taken b w why k v t c r) = absurd (
            other (
              rw (Option.some-injective _ _ v)
                (t (same_key-IsFlag a b flag (Option.some-injective _ _ k)))))
        silent h (refused b w k v f n c r) = r
        silent h (ignored key w why k v u c r) = absurd (u a (sym (Option.some-injective _ _ k)))
        silent h (incomplete (inl k) c r) = cc
        silent h (incomplete (inr v) c r) = cc

    -- On a quiet connection, if the client sends a command other than "." and DISCONNECT on which
    -- `handle_command` panics, the tasks, in whatever order they are polled, come to a state where
    -- both are over.
    pub panic_closes :
        (c : FtlCommand)
        → IsHandled server c
        → handle_command platform c conn s.world ≡ panic
        → (t : System server) × Works server (client_sends server c s) t
          × (t.frame_task ≡ frame_returned)
          × (t.command_task ≡ command_over)
    unfolding frame_at handle_frame_command
    panic_closes c handled e =
        let (up, empty, r) = delivered server s c quiet in
        let mid : System server = record s { frame_task = waiting; up = up } in
        let ran = run_handled server c conn mid handled ∙ ap (λ x. after_handled server x mid) e in
        let crashed = after_handled server panic mid in
        let dropped = recv_dropped replies (drop_sender_Holds replies quiet.down_empty) in
        let last = frame_told server recv_closed crashed in
        let polled : (next : Next) → poll_frame server next crashed ≡ last = λ next.
          frame_from server (λ t. t ≡ last) next crashed refl
            (ap (λ p. frame_told server p crashed) dropped) in
        (
          last,
          frame_works (subst (Works server _) ran r) (λ e. cc) polled
              (over_stays server crashed refl),
          refl,
          refl,
        )

  send_each-ok :
      (items : List Text) (frame : framed.Frame)
      → ((item : Text) (f : framed.Frame) → (framed.send item f).outcome ≡ ready (ok tt))
      → (send_each framed items frame).1 ≡ ready (ok tt)
  send_each-ok [] frame writes = refl
  send_each-ok (item ∷ items) frame writes =
      rw (send_each-cons_ok framed item items frame (writes item frame))
        (send_each-ok items (framed.send item frame).frame writes)

  abbrev pub hmac_items : Bytes → List Text
  hmac_items nonce = codes "200 " ∷ platform.hex.encode nonce ∷ codes "\n" ∷ []

  -- On a quiet connection, let the file "hash" hold `key`, and let every write to the socket
  -- succeed. If the client sends HMAC, it is sent 128 bytes in hexadecimal. If it then sends a
  -- connect command with the signature of these bytes under `key`, it is sent "200\n". The
  -- connection is quiet after each answer. This holds in whatever order the tasks are polled.
  pub handshake-Serves :
      (s : System server) (conn : ConnectionState) (channel : Text) (key : Bytes)
      → Quiet server reading conn s
      → IsStored platform key s.world
      → ((item : Text) (f : framed.Frame) → (framed.send item f).outcome ≡ ready (ok tt))
      → (nonce : Bytes) × (length nonce ≡ 128)
        × (conn' : ConnectionState) × (world : World platform) × (asked : Serves server
            (client_sends server hmac s)
            (hmac_items nonce)
            conn'
            world)
        × Serves server
            (client_sends server
              (connect (connect_data channel (platform.hex.encode (platform.mac.sign key nonce))))
              asked.last)
            (codes "200\n" ∷ [])
            conn'
            world
  handshake-Serves s conn channel key quiet stored writes =
      let (nonce, size, h, e, on_error, reply, accepts) =
        handshake platform conn s.world channel key stored in
      let tag = platform.hex.encode (platform.mac.sign key nonce) in
      let log_in = connect (connect_data channel tag) in
      let asked =
        answered-Serves server s hmac conn h (hmac_items nonce) on_error quiet (λ e. cc, λ e. cc) e
          reply (send_each-ok (hmac_items nonce) s.frame writes) in
      let answer =
        subst
          (λ w.
            Answers platform (codes "200\n" ∷ []) h.conn h.world
              (handle_command platform log_in h.conn w))
          (sym asked.world_left) accepts in
      (
        nonce,
        size,
        h.conn,
        h.world,
        asked,
        answers-Serves asked.last log_in h.conn (codes "200\n" ∷ []) asked.quiet
            (connect-IsHandled channel tag) answer
            (send_each-ok (codes "200\n" ∷ []) asked.last.frame writes),
      )
