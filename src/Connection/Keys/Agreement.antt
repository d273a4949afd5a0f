-- ===== src/Connection/Keys/Agreement.antt =====
-- The key that a start of the server settles on is the one that each connection reads afterwards.
use project_lightspeed.Base.{
  ◌≡◌, refl, ap, sym, ◌∙◌, subst₂, List, [], ◌∷◌, true, false, Option, none, some, All, All-mono,
  arith, inl, inr, Exec, done, >>=-eq-done, Bytes, Text, Option-cases,
}
use project_lightspeed.Rust.Utf8.{IsScalar, utf8, from_utf8}
use project_lightspeed.Rust.Utf8.RoundTrip.{from_utf8-utf8, utf8-IsByte}
use project_lightspeed.Platform.{Platform, World, IsByte, IsAlphanumeric, text_of}
use project_lightspeed.Connection.Keys.{
  unreadable, undecodable, loading, write_hash, hash_path, KeyRead, read_stream_key, read_to_string,
  generate_stream_key, print_stream_key, decoded_key, regenerate, startup_key, load_or_generate,
  use_given_key,
}
use project_lightspeed.Connection.State.{LogLine}
use project_lightspeed.Connection.Keys.Sampling.{generate_stream_key_lem}

module _ (platform : Platform) where
  open platform use {hex, files}

  -- The file "hash" holds the key in hexadecimal.
  abbrev pub IsStored : Bytes → World platform → Type 0
  IsStored key world =
      (file : Text) × (read_to_string platform hash_path world ≡ some file)
      × (hex.decode (utf8 file) ≡ some key)

  pub read_stream_key_stored :
      {key : Bytes} (env : Option Text) {world : World platform}
      → IsStored key world
      → read_stream_key platform false env world
        ≡ done (record { key = key; world = world; log = [] })
  unfolding read_stream_key
  read_stream_key_stored env (file, r, d) = rw (r, d)

  hash_text :
      (key : Bytes) → All IsByte key → from_utf8 (utf8 (hex.encode key)) ≡ some (hex.encode key)
  hash_text key bytes =
      from_utf8-utf8 (hex.encode key)
        (All-mono _ _ (λ c h. inl (omega arith)) (hex.encode key) (hex.encode_ascii key bytes))

  write_hash-IsStored :
      (key : Bytes) (world : World platform) {world' : World platform}
      → All IsByte key
      → write_hash platform key world ≡ done world'
      → IsStored key world'
  write_hash-IsStored key world {world'} bytes e =
      elim (Option-cases (files.write hash_path (utf8 (hex.encode key)) world.disk)) [
        | inl fails ↦ cc (rw fails at e)
        | inr (disk, wrote) ↦
            let same : world' ≡ record world { disk = disk } = ground (arith, rw wrote at e) in
            let back = files.read-write hash_path _ world.disk disk wrote in
            rw same
              ((hex.encode key, ap text_of back ∙ hash_text key bytes, hex.decode-encode key bytes))
      ]

  -- The result of a start, if there is one, has its key stored.
  abbrev Settles : Exec (KeyRead platform) → Type 0
  Settles e = (r : KeyRead platform) → e ≡ done r → IsStored r.key r.world

  IsStored-at :
      (key : Bytes) (world : World platform) (r : KeyRead platform)
      → r.key ≡ key
      → r.world ≡ world
      → IsStored key world
      → IsStored r.key r.world
  IsStored-at key world r k w s = subst₂ IsStored (sym k) (sym w) s

  regenerate-Settles :
      (why : Text) (log : List LogLine) (world : World platform)
      → Settles (regenerate platform why log world)
  regenerate-Settles why log world r e =
      let (g, eg, rest) = >>=-eq-done (generate_stream_key platform world) _ e in
      let (line, el, er) = >>=-eq-done (print_stream_key g.0) _ rest in
      let (key, source, gen, alnum, size) = generate_stream_key_lem platform world in
      let (w, ew, ed) =
        >>=-eq-done (write_hash platform key (record world { source = source })) _ (sym gen ∙ eg) in
      let bytes = All-mono IsAlphanumeric IsByte (λ c h. ground arith) key alnum in
      IsStored-at key w r (ground arith) (ground arith) (write_hash-IsStored key _ bytes ew)

  decoded_key-Settles :
      (file : Text) (world : World platform) (decoded : Option Bytes)
      → read_to_string platform hash_path world ≡ some file
      → hex.decode (utf8 file) ≡ decoded
      → Settles (decoded_key platform decoded world)
  decoded_key-Settles file world none f d r e =
      regenerate-Settles undecodable (loading ∷ []) world r e
  decoded_key-Settles file world (some key) f d r e =
      let (line, el, er) = >>=-eq-done (print_stream_key key) _ e in
      IsStored-at key world r (ground arith) (ground arith) (file, f, d)

  load-Settles :
      (world : World platform) (file : Option Text)
      → read_to_string platform hash_path world ≡ file
      → Settles (load_or_generate platform file world)
  load-Settles world none f = regenerate-Settles unreadable [] world
  load-Settles world (some file) f = decoded_key-Settles file world _ f refl

  given-Settles :
      (given : Text) (world : World platform)
      → All IsScalar given
      → Settles (use_given_key platform given world)
  given-Settles given world s r e =
      let (line, el, rest) = >>=-eq-done (print_stream_key (utf8 given)) _ e in
      let (w, ew, er) = >>=-eq-done (write_hash platform (utf8 given) world) _ rest in
      IsStored-at (utf8 given) w r (ground arith) (ground arith)
        (write_hash-IsStored (utf8 given) world (utf8-IsByte given s) ew)

  startup-Settles :
      (env : Option Text) (world : World platform)
      → ((given : Text) → env ≡ some given → All IsScalar given)
      → Settles (startup_key platform env world)
  startup-Settles none world s = load-Settles world _ refl
  startup-Settles (some []) world s = load-Settles world _ refl
  startup-Settles (some (c ∷ given)) world s = given-Settles (c ∷ given) world (s (c ∷ given) refl)

  pub startup-IsStored :
      (env : Option Text) (world : World platform) (r : KeyRead platform)
      → ((given : Text) → env ≡ some given → All IsScalar given)
      → read_stream_key platform true env world ≡ done r
      → IsStored r.key r.world
  unfolding read_stream_key
  startup-IsStored env world r s e = startup-Settles env world s r e

  -- Let `read_stream_key` return at the start of the server, where a key given by the option is a
  -- text of Unicode scalar values. Whether the key is given, loaded or new, every later call for a
  -- connection returns the same key and changes nothing.
  pub read_stream_key_agrees :
      (env later : Option Text) (world : World platform) (r : KeyRead platform)
      → ((given : Text) → env ≡ some given → All IsScalar given)
      → read_stream_key platform true env world ≡ done r
      → read_stream_key platform false later r.world
        ≡ done (record { key = r.key; world = r.world; log = [] })
  read_stream_key_agrees env later world r s e =
      read_stream_key_stored later (startup-IsStored env world r s e)
