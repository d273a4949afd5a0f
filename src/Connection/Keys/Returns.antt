-- ===== src/Connection/Keys/Returns.antt =====
-- When `read_stream_key` of ingest/src/connection.rs returns at the start of the server.
use project_lightspeed.Base.{
  ◌≡◌, refl, [], ◌∷◌, List, true, Option, none, some, All, inl, inr, done, Option-cases, Bytes,
  Text,
}
use project_lightspeed.Rust.Utf8.{IsScalar, utf8, from_utf8}
use project_lightspeed.Rust.Utf8.RoundTrip.{from_utf8-utf8, from_utf8_ascii}
use project_lightspeed.Platform.{Platform, World}
use project_lightspeed.Connection.State.{LogLine}
use project_lightspeed.Connection.Keys.{
  unreadable, undecodable, loading, key_line, hash_path, write_hash, KeyRead, read_stream_key,
  read_to_string, print_stream_key, regenerate, startup_key, load_or_generate,
}
use project_lightspeed.Connection.Keys.Sampling.{alphanumeric-ascii, generate_stream_key_lem}

module _ (platform : Platform) where
  open platform use {hex, files}

  -- Every write to the disk succeeds.
  abbrev pub Writable : Type 0
  Writable =
      (path : Text) (content : Bytes) (d : files.Disk)
      → (d' : files.Disk) × (files.write path content d ≡ some d')

  -- If the file "hash" holds a key, the key is the UTF-8 form of a text.
  abbrev pub IsText : World platform → Type 0
  IsText world =
      (file : Text) (key : Bytes)
      → read_to_string platform hash_path world ≡ some file
      → hex.decode (utf8 file) ≡ some key
      → (text : Text) × (from_utf8 key ≡ some text)

  print_stream_key_text :
      (key : Bytes) (text : Text)
      → from_utf8 key ≡ some text
      → print_stream_key key ≡ done (key_line text)
  unfolding print_stream_key
  print_stream_key_text key text e = rw e

  write_hash_returns :
      (key : Bytes) (world : World platform)
      → Writable
      → (world' : World platform) × (write_hash platform key world ≡ done world')
  write_hash_returns key world writes =
      let (disk, e) = writes hash_path (utf8 (hex.encode key)) world.disk in
      (record world { disk = disk }, rw e)

  regenerate_returns :
      (why : Text) (log : List LogLine) (world : World platform)
      → Writable
      → (r : KeyRead platform) × (regenerate platform why log world ≡ done r)
  regenerate_returns why log world writes =
      let (key, source, gen, alnum, size) = generate_stream_key_lem platform world in
      let (w, wrote) = write_hash_returns key (record world { source = source }) writes in
      let printed =
        print_stream_key_text key key (from_utf8_ascii key (alphanumeric-ascii key alnum)) in
      rw (gen, wrote, printed) ((_, refl))

  load_returns :
      (world : World platform) (file : Option Text)
      → Writable
      → IsText world
      → read_to_string platform hash_path world ≡ file
      → (r : KeyRead platform) × (load_or_generate platform file world ≡ done r)
  load_returns world none writes text f = regenerate_returns unreadable [] world writes
  load_returns world (some file) writes text f = elim (Option-cases (hex.decode (utf8 file))) [
    | inl bad ↦ rw bad (regenerate_returns undecodable (loading ∷ []) world writes)
    | inr (key, d) ↦
        let (t, e) = text file key f d in rw (d, print_stream_key_text key t e) ((_, refl))
  ]

  startup_returns :
      (env : Option Text) (world : World platform)
      → Writable
      → IsText world
      → ((given : Text) → env ≡ some given → All IsScalar given)
      → (r : KeyRead platform) × (startup_key platform env world ≡ done r)
  startup_returns none world writes text s = load_returns world _ writes text refl
  startup_returns (some []) world writes text s = load_returns world _ writes text refl
  startup_returns (some (c ∷ given)) world writes text s =
      let key = utf8 (c ∷ given) in
      let (w, wrote) = write_hash_returns key world writes in
      let printed =
        print_stream_key_text key (c ∷ given) (from_utf8-utf8 (c ∷ given) (s (c ∷ given) refl)) in
      rw (printed, wrote) ((_, refl))

  -- Let every write to the disk succeed, let a key in the file "hash", if there is one, be the
  -- UTF-8 form of a text, and let a key given by the option be a text of Unicode scalar values.
  -- Then `read_stream_key` returns at the start of the server, and does not panic.
  pub read_stream_key_returns :
      (env : Option Text) (world : World platform)
      → Writable
      → IsText world
      → ((given : Text) → env ≡ some given → All IsScalar given)
      → (r : KeyRead platform) × (read_stream_key platform true env world ≡ done r)
  unfolding read_stream_key
  read_stream_key_returns env world writes text s = startup_returns env world writes text s
