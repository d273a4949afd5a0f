-- ===== src/FtlCodec/Fields.antt =====
-- The fields that a connect command and an attribute are made of, as the text spells them, and what
-- `decode` reads from them.
use project_lightspeed.Base.{
  ℕ, List, ◌≡◌, ◌⊎◌, inl, inr, refl, [], ◌∷◌, ◌++◌, some, ok, done, panic, true, Text,
}
use project_lightspeed.Rust.HashMap.{HashMap}
use project_lightspeed.Rust.Text.{codes, contains, split, trim}
use project_lightspeed.Rust.Text.Search.{IsFree, contains_missing}
use project_lightspeed.Rust.Text.Fields.{split-free, split-append, first_place}
use project_lightspeed.FtlCodec.{connect, attribute, parse_connect, parse_attribute}

abbrev pub connect_data : Text → Text → HashMap
connect_data channel key = (codes "channel_id", channel) ∷ (codes "stream_key", key) ∷ []

abbrev pub attribute_data : Text → Text → HashMap
attribute_data key value = (codes "key", key) ∷ (codes "value", value) ∷ []

-- `s` begins with the field `f`, which ends at the separator or at the end of the text.
abbrev pub LastOrMore : ℕ → Text → Text → Type 0
LastOrMore sep f s = (s ≡ f) ⊎ ((more : Text) × (s ≡ f ++ sep ∷ more))

first_field : (sep : ℕ) (s : Text) → (f : Text) × IsFree sep f × LastOrMore sep f s
first_field sep s = elim (first_place sep s) [
  | inl free ↦ (s, free, inl refl)
  | inr (f, more, free, e) ↦ (f, free, inr (more, e))
]

-- The second field of the line is `channel` and the third, which holds no space, is `third`.
pub record HasThird (s channel third : Text) : Type 0 where
  pub word : Text
  pub rest : Text
  pub word_free : IsFree b' ' word
  pub channel_free : IsFree b' ' channel
  pub third_free : IsFree b' ' third
  pub splits : s ≡ word ++ (b' ' ∷ (channel ++ (b' ' ∷ rest)))
  pub ends : LastOrMore b' ' third rest

split-third :
    {s channel third : Text} (h : HasThird s channel third)
    → (more : List Text) × (split b' ' s ≡ h.word ∷ channel ∷ third ∷ more)
split-third {s} {channel} {third} h = elim h.ends [
  | inl e ↦ (
    [],
    rw (
      h.splits,
      split-append b' ' h.word _ h.word_free,
      split-append b' ' channel _ h.channel_free,
      e,
      split-free b' ' third h.third_free,
    ),
  )
  | inr (more, e) ↦ (
    split b' ' more,
    rw (
      h.splits,
      split-append b' ' h.word _ h.word_free,
      split-append b' ' channel _ h.channel_free,
      e,
      split-append b' ' third more h.third_free,
    ),
  )
]

-- The first character of the third field is dropped, whatever it is.
pub parse_connect_third :
    {s channel : Text} (mark : ℕ) (key : Text)
    → HasThird s channel (mark ∷ key)
    → parse_connect s ≡ done (ok (some (connect (connect_data channel key))))
unfolding parse_connect
parse_connect_third {s} mark key h = let (more, e) = split-third h in rw (parse_connect, e)

parse_connect_empty : {s channel : Text} → HasThird s channel [] → parse_connect s ≡ panic
unfolding parse_connect
parse_connect_empty h = let (more, e) = split-third h in rw (parse_connect, e)

third_of :
    (s : Text)
    → ((channel : Text) × (third : Text) × HasThird s channel third) ⊎ (parse_connect s ≡ panic)
unfolding parse_connect
third_of s = elim (first_place b' ' s) [
  | inl one ↦ inr (rw (parse_connect, split-free b' ' s one))
  | inr (word, t, word_free, e) ↦ elim (first_place b' ' t) [
    | inl two ↦
        inr (rw (e, parse_connect, split-append b' ' word t word_free, split-free b' ' t two))
    | inr (channel, rest, channel_free, e') ↦
        let (third, free, ends) = first_field b' ' rest in
        let place : HasThird s channel third = record {
          word = word;
          rest = rest;
          word_free = word_free;
          channel_free = channel_free;
          third_free = free;
          splits = rw (← e') e;
          ends = ends;
        } in
        inl (channel, third, place)
  ]
]

-- A connect command is read when its third field has a character to drop. Otherwise an index is out
-- of range, or `remove(0)` meets an empty text.
pub parse_connect_cases :
    (s : Text)
    → ((channel : Text) × (mark : ℕ) × (key : Text) × HasThird s channel (mark ∷ key)
        × (parse_connect s ≡ done (ok (some (connect (connect_data channel key))))))
      ⊎ (parse_connect s ≡ panic)
parse_connect_cases s = elim (third_of s) [
  | inl (channel, [], h) ↦ inr (parse_connect_empty h)
  | inl (channel, mark ∷ key, h) ↦ inl (channel, mark, key, h, parse_connect_third mark key h)
  | inr e ↦ inr e
]

pub record HasValue (s key value : Text) : Type 0 where
  pub rest : Text
  pub key_free : IsFree b':' key
  pub value_free : IsFree b':' value
  pub splits : s ≡ key ++ (b':' ∷ rest)
  pub ends : LastOrMore b':' value rest

-- The value of an attribute ends at the next colon.
pub parse_attribute_value :
    {s key value : Text}
    → HasValue s key value
    → parse_attribute s ≡ done (ok (some (attribute (attribute_data key (trim value)))))
unfolding parse_attribute
parse_attribute_value {s} {key} {value} h = elim h.ends [
  | inl e ↦ rw (
    h.splits,
    parse_attribute,
    split-append b':' key _ h.key_free,
    e,
    split-free b':' value h.value_free,
  )
  | inr (more, e) ↦ rw (
    h.splits,
    parse_attribute,
    split-append b':' key _ h.key_free,
    e,
    split-append b':' value more h.value_free,
  )
]

pub value_of :
    (s : Text)
    → contains s (codes ":") ≡ true
    → (key : Text) × (value : Text) × HasValue s key value
value_of s h = elim (first_place b':' s) [
  | inl free ↦ cc (h, contains_missing s [] [] b':' free)
  | inr (key, rest, key_free, e) ↦
      let (value, free, ends) = first_field b':' rest in
      (
        key,
        value,
        record { rest = rest; key_free = key_free; value_free = free; splits = e; ends = ends },
      )
]
