-- ===== src/Rust/Utf8.antt =====
-- The UTF-8 form of a text: `str::as_bytes`, `String::from_utf8` and `String::from_utf8_lossy`. As
-- there, a malformed sequence ends before the first byte that cannot continue it, and the lossy
-- decoder puts one U+FFFD in its place.
pub mod RoundTrip
use mathlib.Core.Option
use project_lightspeed.Base.{
  ℕ, zero, suc, ◌+◌, ◌-◌, ◌*◌, ◌/◌, ◌%◌, Bool, ◌&&◌, List, [], ◌∷◌, ◌++◌, map, Option, none, some,
  ltb, leb, ◌==◌, if◌then◌else◌, length, Bytes, Text, ◌⊎◌, ◌<◌, ◌≤◌,
}

-- A Unicode scalar value, which is what a Rust `char` holds.
abbrev pub IsScalar : ℕ → Type 0
IsScalar c = (c < 0xD800) ⊎ ((0xE000 ≤ c) × (c < 0x110000))

unfoldable pub utf8_char : ℕ → Bytes
utf8_char c =
    if ltb c 0x80
    then c ∷ []
    else if ltb c 0x800
    then (0xC0 + c / 64) ∷ (0x80 + c % 64) ∷ []
    else if ltb c 0x10000
    then (0xE0 + c / 4096) ∷ (0x80 + c / 64 % 64) ∷ (0x80 + c % 64) ∷ []
    else (0xF0 + c / 262144) ∷ (0x80 + c / 4096 % 64) ∷ (0x80 + c / 64 % 64) ∷ (0x80 + c % 64) ∷ []

-- `as_bytes`
unfoldable pub utf8 : Text → Bytes
unfolding utf8_char
utf8 [] = []
utf8 (c ∷ s) = utf8_char c ++ utf8 s

-- `str::len`, in bytes.
abbrev pub len : Text → ℕ
len s = length (utf8 s)

pub data Piece : Type 0 where
  char : ℕ → Piece
  malformed : Piece

-- Between two bytes the decoder is at the start of a character, or it has read `acc` and needs
-- `more + 1` bytes, the first of them from `lo` to `hi`.
pub data Pending : Type 0 where
  start : Pending
  need : (acc lo hi more : ℕ) → Pending

pub record Progress : Type 0 where
  pub out : List Piece
  pub pending : Pending

abbrev pub within : ℕ → ℕ → ℕ → Bool
within lo hi b = leb lo b && leb b hi

abbrev pub wait_for : ℕ → ℕ → ℕ → ℕ → Progress
wait_for acc lo hi more = record { out = []; pending = need acc lo hi more }

abbrev pub emit : Piece → Progress
emit p = record { out = p ∷ []; pending = start }

-- The first byte of a character.
pub begin : ℕ → Progress
begin b =
    if ltb b 0x80
    then emit (char b)
    else if within 0xC2 0xDF b
    then wait_for (b - 0xC0) 0x80 0xBF 0
    else if b == 0xE0
    then wait_for 0 0xA0 0xBF 1
    else if b == 0xED
    then wait_for 13 0x80 0x9F 1
    else if within 0xE1 0xEF b
    then wait_for (b - 0xE0) 0x80 0xBF 1
    else if b == 0xF0
    then wait_for 0 0x90 0xBF 2
    else if within 0xF1 0xF3 b
    then wait_for (b - 0xF0) 0x80 0xBF 2
    else if b == 0xF4
    then wait_for 4 0x80 0x8F 2
    else emit malformed

pub continue : ℕ → ℕ → Progress
continue acc zero = emit (char acc)
continue acc (suc more) = wait_for acc 0x80 0xBF more

abbrev pub after_malformed : Progress → Progress
after_malformed p = record { out = malformed ∷ p.out; pending = p.pending }

pub accept : Pending → ℕ → Progress
accept start b = begin b
accept (need acc lo hi more) b =
    if within lo hi b then continue (acc * 64 + (b - 0x80)) more else after_malformed (begin b)

abbrev pub finish : Pending → List Piece
finish start = []
finish (need _ _ _ _) = malformed ∷ []

unfoldable pub pieces_from : Pending → Bytes → List Piece
unfolding accept begin continue
pieces_from p [] = finish p
pieces_from p (b ∷ bs) = (accept p b).out ++ pieces_from (accept p b).pending bs

abbrev pub replacement : ℕ
replacement = 0xFFFD

abbrev pub lossy_char : Piece → ℕ
lossy_char (char c) = c
lossy_char malformed = replacement

unfoldable pub from_utf8_lossy : Bytes → Text
unfolding pieces_from
from_utf8_lossy bs = map lossy_char (pieces_from start bs)

unfoldable pub strict : List Piece → Option Text
strict [] = some []
strict (char c ∷ ps) = Option.map (λ s. c ∷ s) (strict ps)
strict (malformed ∷ ps) = none

unfoldable pub from_utf8 : Bytes → Option Text
unfolding pieces_from strict
from_utf8 bs = strict (pieces_from start bs)
