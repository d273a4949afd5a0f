-- ===== src/Connection/Keys.antt =====
-- The HMAC payload and the stream key of ingest/src/connection.rs. A function that reads files or
-- draws random numbers takes the world and returns it.
pub mod Sampling
pub mod Agreement
pub mod Returns
use project_lightspeed.Base.{
  ℕ, zero, suc, Bool, true, false, List, [], ◌∷◌, ◌++◌, Option, none, some, equal, if◌then◌else◌,
  Exec, done, panic, ◌>>=◌, ◌>>◌, unwrap, Bytes, Text,
}
use project_lightspeed.Rust.Text.{codes}
use project_lightspeed.Rust.Utf8.{utf8, from_utf8}
use project_lightspeed.Platform.{Platform, World, text_of}
use project_lightspeed.Connection.State.{LogLine, info, warn}

abbrev pub hash_path : Text
hash_path = codes "hash"

abbrev pub payload_bytes : ℕ
payload_bytes = 128

abbrev pub key_characters : ℕ
key_characters = 32

-- The text of a log line; the escape codes color the key in a terminal.
abbrev pub key_line : Text → LogLine
key_line key = info (codes "Your stream key is: \u{1b}[31;1;4m77-" ++ (key ++ codes "\u{1b}[0m"))

-- Panics where the key is not UTF-8.
unfoldable pub print_stream_key : Bytes → Exec LogLine
print_stream_key stream_key = do text ← unwrap (from_utf8 stream_key); done (key_line text)

abbrev pub is_empty : Text → Bool
is_empty [] = true
is_empty (c ∷ s) = false

abbrev unreadable : Text
unreadable = codes "Could not read stream key. Re-generating..."

abbrev undecodable : Text
undecodable = codes "Error decoding stream key. Re-generating..."

abbrev loading : LogLine
loading = info (codes "Loading existing stream key...")

module _ (platform : Platform) where
  open platform use {hex, random, files}

  pub record KeyRead : Type 0 where
    pub key : Bytes
    pub world : World platform
    pub log : List LogLine

  -- `for _ in 0..rounds { hmac_payload.push(rng.sample(dist)); }`
  unfoldable pub push_samples : ℕ → Bytes → random.Source → Bytes × random.Source
  push_samples zero payload source = (payload, source)
  push_samples (suc rounds) payload source =
      let (b, source') = random.sample_below 0x00 0xFF source in
      push_samples rounds (payload ++ b ∷ []) source'

  unfoldable pub generate_hmac : World platform → Text × World platform
  generate_hmac world =
      let (payload, source) = push_samples payload_bytes [] world.source in
      (hex.encode payload, record world { source = source })

  -- `sample_iter(&Alphanumeric).take(count).collect()`
  unfoldable pub sample_characters : ℕ → random.Source → Bytes × random.Source
  sample_characters zero source = ([], source)
  sample_characters (suc count) source =
      let (c, source') = random.sample_alphanumeric source in
      let (cs, end) = sample_characters count source' in (c ∷ cs, end)

  abbrev pub write_hash : Bytes → World platform → Exec (World platform)
  write_hash stream_key world = do
    disk ← unwrap (files.write hash_path (utf8 (hex.encode stream_key)) world.disk)
    done (record world { disk = disk })

  unfoldable pub generate_stream_key : World platform → Exec (Bytes × World platform)
  generate_stream_key world =
      let (sampled, source) = sample_characters key_characters world.source in
      do
        stream_key ← unwrap (from_utf8 sampled)
        world' ← write_hash (utf8 stream_key) (record world { source = source })
        done (utf8 stream_key, world')

  -- Both arms of `read_stream_key` that make a new key; `why` is the warning.
  abbrev regenerate : Text → List LogLine → World platform → Exec KeyRead
  regenerate why log world = do
    generated ← generate_stream_key world
    line ← print_stream_key generated.0
    done (record { key = generated.0; world = generated.1; log = log ++ warn why ∷ line ∷ [] })

  abbrev decoded_key : Option Bytes → World platform → Exec KeyRead
  decoded_key none world = regenerate undecodable (loading ∷ []) world
  decoded_key (some stream_key) world = do
    line ← print_stream_key stream_key
    done (record { key = stream_key; world = world; log = loading ∷ line ∷ [] })

  abbrev load_or_generate : Option Text → World platform → Exec KeyRead
  load_or_generate none world = regenerate unreadable [] world
  load_or_generate (some file) world = decoded_key (hex.decode (utf8 file)) world

  abbrev pub read_to_string : Text → World platform → Option Text
  read_to_string path world = text_of (files.read path world.disk)

  abbrev use_given_key : Text → World platform → Exec KeyRead
  use_given_key stream_key world = do
    let key = utf8 stream_key
    line ← print_stream_key key
    world' ← write_hash key world
    done (record { key = key; world = world'; log = line ∷ [] })

  abbrev startup_key : Option Text → World platform → Exec KeyRead
  startup_key none world = load_or_generate (read_to_string hash_path world) world
  startup_key (some stream_key) world =
      if is_empty stream_key
      then load_or_generate (read_to_string hash_path world) world
      else use_given_key stream_key world

  unfoldable pub read_stream_key : Bool → Option Text → World platform → Exec KeyRead
  read_stream_key true stream_key_env world = startup_key stream_key_env world
  read_stream_key false stream_key_env world = do
    file ← unwrap (read_to_string hash_path world)
    stream_key ← unwrap (hex.decode (utf8 file))
    done (record { key = stream_key; world = world; log = [] })
