-- ===== src/Rust/Text.antt =====
-- `str` and `String` methods: `contains`, `split`, `trim`, `remove(0)`, on the characters of a text,
-- and the same search on byte strings.
pub mod Search
pub mod Fields
use Prim.Native.Char.{code}
use Prim.Native.String.{String}
use project_lightspeed.Base.{
  ℕ, Bool, true, false, ◌&&◌, ◌||◌, List, [], ◌∷◌, leb, ◌==◌, if◌then◌else◌, Exec, done, panic,
  Text,
}

-- The text of a literal.
abbrev pub codes : String → Text
codes String.[] = []
codes (String.◌∷◌ c s) = code c ∷ codes s

unfoldable pub starts_with : Text → Text → Bool
starts_with s [] = true
starts_with [] (p ∷ ps) = false
starts_with (c ∷ s) (p ∷ ps) = if c == p then starts_with s ps else false

unfoldable pub contains : Text → Text → Bool
unfolding starts_with
contains [] pat = starts_with [] pat
contains (c ∷ s) pat = if starts_with (c ∷ s) pat then true else contains s pat

abbrev pub onto_first : ℕ → List Text → List Text
onto_first c [] = (c ∷ []) ∷ []
onto_first c (field ∷ fields) = (c ∷ field) ∷ fields

-- `split(sep).collect()`: there is always a first field.
unfoldable pub split : ℕ → Text → List Text
split sep [] = [] ∷ []
split sep (c ∷ s) =
    let fields = split sep s in if c == sep then [] ∷ fields else onto_first c fields

-- `char::is_whitespace`: the Unicode property White_Space.
unfoldable pub is_whitespace : ℕ → Bool
is_whitespace c =
    (leb 0x9 c && leb c 0xD)
    || c == 0x20
    || c == 0x85
    || c == 0xA0
    || c == 0x1680
    || (leb 0x2000 c && leb c 0x200A)
    || c == 0x2028
    || c == 0x2029
    || c == 0x202F
    || c == 0x205F
    || c == 0x3000

unfoldable pub trim_start : Text → Text
trim_start [] = []
trim_start (c ∷ s) = if is_whitespace c then trim_start s else c ∷ s

abbrev pub before_blank : ℕ → Text → Text
before_blank c [] = if is_whitespace c then [] else c ∷ []
before_blank c (d ∷ s) = c ∷ d ∷ s

unfoldable pub trim_end : Text → Text
trim_end [] = []
trim_end (c ∷ s) = before_blank c (trim_end s)

unfoldable pub trim : Text → Text
unfolding trim_start trim_end is_whitespace
trim s = trim_end (trim_start s)

-- `remove(0)`, which panics on an empty text. The result is the text that is left.
abbrev pub remove_first : Text → Exec Text
remove_first [] = panic
remove_first (c ∷ s) = done s
