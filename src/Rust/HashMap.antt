-- ===== src/Rust/HashMap.antt =====
-- `HashMap<String, String>`, as the pairs that it holds.
use project_lightspeed.Base.{
  ◌≡◌, List, [], ◌∷◌, Option, none, some, arith, equal, equal_iff, if◌then◌else◌, Text,
}

abbrev pub HashMap : Type 0
HashMap = List (Text × Text)

abbrev pub new : HashMap
new = []

unfoldable pub get : Text → HashMap → Option Text
unfolding equal
get k [] = none
get k ((j, v) ∷ m) = if equal j k then some v else get k m

unfoldable pub insert : Text → Text → HashMap → HashMap
unfolding equal
insert k v [] = (k, v) ∷ []
insert k v ((j, w) ∷ m) = if equal j k then (k, v) ∷ m else (j, w) ∷ insert k v m

pub get-insert :
    (k j v : Text) (m : HashMap) → get j (insert k v m) ≡ (if equal k j then some v else get j m)
unfolding get insert
get-insert k j v [] = ground arith
get-insert k j v ((i, w) ∷ m) =
    ground (arith, equal_iff k j, equal_iff i k, equal_iff i j, get-insert k j v m)
