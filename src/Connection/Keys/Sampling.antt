-- ===== src/Connection/Keys/Sampling.antt =====
-- What `generate_hmac` and `generate_stream_key` draw.
use project_lightspeed.Base.{
  ℕ, zero, suc, ◌+◌, ◌<◌, ◌≡◌, refl, ap, [], ◌∷◌, ◌++◌, All, All-append, All-mono, length,
  length-append, arith, done, ◌>>=◌, Bytes,
}
use project_lightspeed.Rust.Utf8.RoundTrip.{utf8_ascii, from_utf8_ascii}
use project_lightspeed.Platform.{Platform, World, IsAlphanumeric}
use project_lightspeed.Connection.Keys.{
  push_samples, generate_hmac, sample_characters, generate_stream_key, write_hash, key_characters,
  payload_bytes,
}

pub alphanumeric-ascii : (s : Bytes) → All IsAlphanumeric s → All (λ c. c < 0x80) s
alphanumeric-ascii = All-mono _ _ (λ c h. ground arith)

module _ (platform : Platform) where
  open platform use {hex, random, files}

  -- A byte that the payload can hold: 0xFF is never drawn.
  abbrev pub IsDrawn : ℕ → Type 0
  IsDrawn b = b < 255

  push_samples-IsDrawn :
      (rounds : ℕ) (payload : Bytes) (source : random.Source)
      → All IsDrawn payload
      → All IsDrawn (push_samples platform rounds payload source).0
        × (length (push_samples platform rounds payload source).0 ≡ length payload + rounds)
  unfolding push_samples
  push_samples-IsDrawn zero payload source h = (h, omega arith)
  push_samples-IsDrawn (suc rounds) payload source h =
      let (b, source') = random.sample_below 0x00 0xFF source in
      let range = random.sample_below_range 0x00 0xFF source (omega arith) in
      let (drawn, size) =
        push_samples-IsDrawn rounds (payload ++ b ∷ []) source'
          (All-append IsDrawn payload (b ∷ []) h (range.1, tt)) in
      (drawn, omega (arith, size, length-append payload (b ∷ [])))

  -- `generate_hmac` returns the hexadecimal form of 128 bytes, each of them less than 0xFF, and
  -- changes only the source of random numbers.
  pub generate_hmac_lem :
      (world : World platform)
      → (payload : Bytes) × (source : random.Source) × (generate_hmac platform world
          ≡ (hex.encode payload, record world { source = source }))
        × All IsDrawn payload
        × (length payload ≡ 128)
  unfolding generate_hmac
  generate_hmac_lem world =
      let (payload, source) = push_samples platform payload_bytes [] world.source in
      let (drawn, size) = push_samples-IsDrawn payload_bytes [] world.source tt in
      (payload, source, refl, drawn, omega (arith, size))

  sample_characters_lem :
      (count : ℕ) (source : random.Source)
      → All IsAlphanumeric (sample_characters platform count source).0
        × (length (sample_characters platform count source).0 ≡ count)
  unfolding sample_characters
  sample_characters_lem zero source = (tt, refl)
  sample_characters_lem (suc count) source =
      let (alnum, size) = sample_characters_lem count (random.sample_alphanumeric source).1 in
      ((random.sample_alphanumeric_range source, alnum), ap suc size)

  -- `generate_stream_key` draws a key of 32 letters and digits, and its result is that of writing
  -- the key to the disk with `write_hash`: it panics only if that does.
  pub generate_stream_key_lem :
      (world : World platform)
      → (key : Bytes) × (source : random.Source) × (generate_stream_key platform world
          ≡ (write_hash platform key (record world { source = source }) >>= λ w. done (key, w)))
        × All IsAlphanumeric key
        × (length key ≡ 32)
  unfolding generate_stream_key
  generate_stream_key_lem world =
      let (key, source) = sample_characters platform key_characters world.source in
      let (alnum, size) = sample_characters_lem key_characters world.source in
      let ascii = alphanumeric-ascii key alnum in
      (key, source, rw (from_utf8_ascii key ascii, utf8_ascii key ascii), alnum, size)
