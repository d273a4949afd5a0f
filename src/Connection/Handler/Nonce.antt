-- ===== src/Connection/Handler/Nonce.antt =====
-- The payload that a connection holds, over the commands of `handle_command` of
-- ingest/src/connection.rs.
use project_lightspeed.Base.{
  ◌≡◌, refl, sym, subst, ◌∙◌, false, [], Option, none, some, arith, Text, Bytes, done, >>=-eq-done,
  done-injective, unwrap,
}
use project_lightspeed.Rust.Text.{codes}
use project_lightspeed.Rust.HashMap
use project_lightspeed.Rust.Utf8.{utf8}
use project_lightspeed.Platform.{Platform, World}
use project_lightspeed.FtlCodec.{FtlCommand, hmac, connect, attribute}
use project_lightspeed.Connection.State.{ConnectionState, get_payload}
use project_lightspeed.Connection.Keys.{read_stream_key}
use project_lightspeed.Connection.Handler.Unknown.{assign_keeps_payload}
use project_lightspeed.Connection.Handler.{
  Handled, handle_command, handle_connect, handle_attribute, attribute_done, Assigned, assigned,
  unknown_key, invalid_value, assign,
}
use project_lightspeed.Connection.Handler.Login.{HasNonce, handle_hmac_lem, readable}

module _ (platform : Platform) where
  open platform use {hex, mac}

  same_payload :
      (conn conn' : ConnectionState) (nonce : Bytes)
      → conn'.hmac_payload ≡ conn.hmac_payload
      → HasNonce platform conn nonce
      → HasNonce platform conn' nonce
  unfolding get_payload
  same_payload conn conn' nonce e has = rw e has

  handle_connect-conn :
      (key channel : Option Text) (conn : ConnectionState) (world : World platform)
      {h : Handled platform}
      → handle_connect platform key channel conn world ≡ done h
      → h.conn.hmac_payload ≡ conn.hmac_payload
  unfolding handle_connect
  handle_connect-conn none channel conn world e = ground arith
  handle_connect-conn (some key) none conn world e = ground arith
  handle_connect-conn (some key) (some channel) conn world e =
      let (tag, _, e1) = >>=-eq-done (unwrap (hex.decode (utf8 key))) _ e in
      let (stored, _, e2) = >>=-eq-done (read_stream_key platform false (some []) world) _ e1 in
      let (payload, _, e3) = >>=-eq-done (unwrap (hex.decode (utf8 (get_payload conn)))) _ e2 in
      ground arith

  attribute_done-payload :
      (key value : Text) (conn : ConnectionState) (world : World platform) (r : Assigned)
      → assign key value conn ≡ r
      → (attribute_done platform key value conn world r).conn.hmac_payload ≡ conn.hmac_payload
  attribute_done-payload key value conn world (assigned conn') e =
      assign_keeps_payload key value conn e
  attribute_done-payload key value conn world unknown_key e = refl
  attribute_done-payload key value conn world (invalid_value message) e = refl

  handle_attribute-payload :
      (key value : Option Text) (conn : ConnectionState) (world : World platform)
      → (handle_attribute platform key value conn world).conn.hmac_payload ≡ conn.hmac_payload
  unfolding handle_attribute
  handle_attribute-payload (some key) (some value) conn world =
      attribute_done-payload key value conn world _ refl
  handle_attribute-payload (some key) none conn world = refl
  handle_attribute-payload none value conn world = refl

  -- If the connection's payload reads as a nonce of 128 bytes, or is missing, and `handle_command`
  -- returns, then the payload of the connection that it returns does so too.
  pub handle_command-HasNonce :
      (command : FtlCommand) (conn : ConnectionState) (world : World platform) (nonce : Bytes)
      {h : Handled platform}
      → HasNonce platform conn nonce
      → handle_command platform command conn world ≡ done h
      → (nonce' : Bytes) × HasNonce platform h.conn nonce'
  unfolding handle_command
  handle_command-HasNonce hmac conn world nonce {h} has e =
      let (nonce', world', asked, disk, bytes, size) = handle_hmac_lem platform conn world in
      (
        nonce',
        subst (λ (k : Handled platform). HasNonce platform k.conn nonce')
            (sym asked ∙ done-injective e) (readable platform conn nonce' bytes size),
      )
  handle_command-HasNonce (connect params) conn world nonce {h} has e =
      (nonce, same_payload conn h.conn nonce (handle_connect-conn _ _ conn world e) has)
  handle_command-HasNonce (attribute params) conn world nonce {h} has e =
      (nonce, same_payload conn h.conn nonce same has)
    where
      same : h.conn.hmac_payload ≡ conn.hmac_payload
      same =
          subst (λ (k : Handled platform). k.conn.hmac_payload ≡ conn.hmac_payload)
            (done-injective e)
            (handle_attribute-payload (HashMap.get (codes "key") params)
              (HashMap.get (codes "value") params) conn world)
  handle_command-HasNonce _ conn world nonce {h} has e =
      (nonce, same_payload conn h.conn nonce (ground arith) has)
