-- ===== src/Platform.antt =====
-- What ingest/src/connection.rs uses of other packages and of the operating system: the crates
-- `hex`, `ring` and `rand`, and the files. Each is a record of operations with the documented
-- behaviour that the code relies on.
use project_lightspeed.Base.{
  ℕ, ◌<◌, ◌≤◌, ◌≡◌, ◌↔◌, ◌*◌, length, ◌⊎◌, true, Bool, Option, some, none, All, Bytes, Text,
}
use project_lightspeed.Rust.Utf8.{utf8, from_utf8}

abbrev pub IsByte : ℕ → Type 0
IsByte b = b < 256

-- `hex::encode`, `hex::decode`
pub record Hex : Type 0 where
  pub encode : Bytes → Text
  pub decode : Bytes → Option Bytes
  pub decode-encode : (bs : Bytes) → All IsByte bs → decode (utf8 (encode bs)) ≡ some bs
  pub length-encode : (bs : Bytes) → length (encode bs) ≡ 2 * length bs
  pub encode_ascii : (bs : Bytes) → All IsByte bs → All (λ c. c < 0x80) (encode bs)

-- `ring::hmac` with `HMAC_SHA512`: `verify key message tag` recomputes the tag and compares.
pub record Hmac : Type 0 where
  pub sign : Bytes → Bytes → Bytes
  pub sign_bytes : (key message : Bytes) → All IsByte (sign key message)
  pub verify : Bytes → Bytes → Bytes → Bool
  pub verify_iff :
      (key message tag : Bytes) → (verify key message tag ≡ true) ↔ (tag ≡ sign key message)

abbrev pub IsAlphanumeric : ℕ → Type 0
IsAlphanumeric c = ((b'0' ≤ c) × (c ≤ b'9')) ⊎ ((b'A' ≤ c) × (c ≤ b'Z')) ⊎ ((b'a' ≤ c) × (c ≤ b'z'))

-- `rand::thread_rng`. `sample_below lo hi` is a draw from `Uniform::new(lo, hi)`, which leaves `hi` out.
pub record Random : Type 1 where
  pub Source : Type 0
  pub sample_below : ℕ → ℕ → Source → ℕ × Source
  pub sample_alphanumeric : Source → ℕ × Source
  pub sample_below_range :
      (lo hi : ℕ) (s : Source)
      → lo < hi
      → (lo ≤ (sample_below lo hi s).0) × ((sample_below lo hi s).0 < hi)
  pub sample_alphanumeric_range : (s : Source) → IsAlphanumeric (sample_alphanumeric s).0

-- `fs::read`, `fs::write`, `File::create` and a write to the end of an open file, by path. `none` is an
-- I/O error. `Apart`: the paths name different files.
pub record Files : Type 1 where
  pub Disk : Type 0
  pub read : Text → Disk → Option Bytes
  pub write : Text → Bytes → Disk → Option Disk
  pub create : Text → Disk → Option Disk
  pub append : Text → Bytes → Disk → Disk
  pub Apart : Text → Text → Type 0
  pub read-append :
      (path other : Text) (content : Bytes) (d : Disk)
      → Apart path other
      → read other (append path content d) ≡ read other d
  pub read-write :
      (path : Text) (content : Bytes) (d d' : Disk)
      → write path content d ≡ some d'
      → read path d' ≡ some content

pub record Platform : Type 1 where
  pub hex : Hex
  pub mac : Hmac
  pub random : Random
  pub files : Files

-- The state outside the program's own memory.
pub record World (p : Platform) : Type 0 where
  pub disk : p.files.Disk
  pub source : p.random.Source

-- `fs::read_to_string` fails too where the file is not UTF-8.
abbrev pub text_of : Option Bytes → Option Text
text_of none = none
text_of (some bs) = from_utf8 bs
