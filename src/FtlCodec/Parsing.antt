-- ===== src/FtlCodec/Parsing.antt =====
-- What one command text is read as, against a relation that does not run the code.
use project_lightspeed.Base.{
  append_assoc, ◌∙◌, ℕ, ◌<◌, ◌≡◌, ◌≢◌, ◌↔◌, refl, sym, subst, true, false, inl, inr, Bool-cases, [],
  ◌∷◌, ◌++◌, some, arith, length, length-append, ok, err, Exec, done, panic, Text, ◌==◌, ◌&&◌,
}
use project_lightspeed.Rust.Text.{codes, contains, starts_with, trim}
use project_lightspeed.Rust.Text.Search.{contains_iff, contains_char}
use project_lightspeed.Rust.Utf8.{len, utf8, utf8_char}
use project_lightspeed.FtlCodec.{
  hmac, connect, ping, dot, attribute, disconnect, unsupported, Parsed, parse_connect,
  parse_command,
}
use project_lightspeed.FtlCodec.Fields.{
  connect_data, attribute_data, HasThird, HasValue, parse_connect_third, parse_connect_cases,
  parse_attribute_value, value_of,
}
use Prim.Native.String.{String}

abbrev pub Has : Text → String → Type 0
Has s word = contains s (codes word) ≡ true

abbrev pub Lacks : Text → String → Type 0
Lacks s word = contains s (codes word) ≡ false

-- The meaning of a command text. `connect_short` is the panic of a connect command with no third
-- field, or with an empty one.
pub data Means (s : Text) : Exec Parsed → Type 0 where
  hmac_in : Has s "HMAC" → Means s (done (ok (some hmac)))
  disconnect_in : Lacks s "HMAC" → Has s "DISCONNECT" → Means s (done (ok (some disconnect)))
  connect_in :
      {channel key : Text} (mark : ℕ)
      → Lacks s "HMAC"
      → Lacks s "DISCONNECT"
      → Has s "CONNECT"
      → HasThird s channel (mark ∷ key)
      → Means s (done (ok (some (connect (connect_data channel key)))))
  connect_short :
      Lacks s "HMAC"
      → Lacks s "DISCONNECT"
      → Has s "CONNECT"
      → ((channel : Text) (mark : ℕ) (key : Text) → ¬ HasThird s channel (mark ∷ key))
      → Means s panic
  attribute_in :
      {key : Text} (value : Text)
      → Lacks s "HMAC"
      → Lacks s "CONNECT"
      → HasValue s key value
      → Means s (done (ok (some (attribute (attribute_data key (trim value))))))
  dot_is : s ≡ codes "." → Means s (done (ok (some dot)))
  ping_in :
      Lacks s "HMAC"
      → Lacks s "CONNECT"
      → Lacks s ":"
      → Has s "PING"
      → Means s (done (ok (some ping)))
  unknown :
      Lacks s "HMAC"
      → Lacks s "CONNECT"
      → Lacks s ":"
      → s ≢ codes "."
      → Lacks s "PING"
      → Means s (done (err (unsupported s)))

utf8_char-pos : (c : ℕ) → 0 < length (utf8_char c)
unfolding utf8_char
utf8_char-pos c = ground arith

dot_of_len : (s : Text) → Has s "." → len s ≡ 1 → s ≡ codes "."
unfolding utf8 contains starts_with
dot_of_len [] h e = cc
dot_of_len (c ∷ []) h e = ground arith
dot_of_len (c ∷ d ∷ s) h e = absurd (
    omega (
      arith,
      length-append (utf8_char c) (utf8_char d ++ utf8 s),
      utf8_char-pos c,
      length-append (utf8_char d) (utf8 s),
      utf8_char-pos d,
    ))

-- "DISCONNECT" holds "CONNECT".
Lacks-disconnect : (s : Text) → Lacks s "CONNECT" → Lacks s "DISCONNECT"
Lacks-disconnect s h = elim (Bool-cases (contains s (codes "DISCONNECT"))) [
  | inl has ↦
      let (a, b, e) = (contains_iff s (codes "DISCONNECT")).0 has in
      cc (
        h,
        (contains_iff s (codes "CONNECT")).1
            (a ++ codes "DIS", b, e ∙ sym (append_assoc a (codes "DIS") _)),
      )
  | inr lacks ↦ lacks
]

parse_command_colon :
    (s : Text) → Lacks s "HMAC" → Lacks s "CONNECT" → Has s ":" → Means s (parse_command s)
unfolding parse_command
parse_command_colon s h c k =
    let (key, value, has) = value_of s k in
    rw (h, Lacks-disconnect s c, c, k, parse_attribute_value has) (attribute_in value h c has)

parse_command_connect :
    (s : Text) → Lacks s "HMAC" → Lacks s "DISCONNECT" → Has s "CONNECT" → Means s (parse_command s)
unfolding parse_command
parse_command_connect s h d c = elim (parse_connect_cases s) [
  | inl (channel, mark, key, has, e) ↦ rw (h, d, c, e) (connect_in mark h d c has)
  | inr e ↦
      rw (h, d, c, e)
        (connect_short h d c (λ channel mark key has. cc (e, parse_connect_third mark key has)))
]

not_dot : (s : Text) → contains s (codes ".") && (len s == 1) ≡ false → s ≢ codes "."
unfolding contains starts_with utf8
not_dot s h e = cc (rw e at h)

parse_command_rest :
    (s : Text) → Lacks s "HMAC" → Lacks s "CONNECT" → Lacks s ":" → Means s (parse_command s)
unfolding parse_command
parse_command_rest s h c k = elim (Bool-cases (contains s (codes ".") && (len s == 1))) [
  | inl is ↦
      rw (h, Lacks-disconnect s c, c, k, is) (dot_is (dot_of_len s (ground arith) (ground arith)))
  | inr isnt ↦ elim (Bool-cases (contains s (codes "PING"))) [
    | inl p ↦ rw (h, Lacks-disconnect s c, c, k, isnt, p) (ping_in h c k p)
    | inr p ↦ rw (h, Lacks-disconnect s c, c, k, isnt, p) (unknown h c k (not_dot s isnt) p)
  ]
]

parse_command_sound : (s : Text) → Means s (parse_command s)
unfolding parse_command
parse_command_sound s = elim (Bool-cases (contains s (codes "HMAC"))) [
  | inl h ↦ rw (h, parse_command) (hmac_in h)
  | inr h ↦ elim (Bool-cases (contains s (codes "DISCONNECT"))) [
    | inl d ↦ rw (h, d, parse_command) (disconnect_in h d)
    | inr d ↦ elim (Bool-cases (contains s (codes "CONNECT"))) [
      | inl c ↦ parse_command_connect s h d c
      | inr c ↦ elim (Bool-cases (contains s (codes ":"))) [
        | inl k ↦ parse_command_colon s h c k
        | inr k ↦ parse_command_rest s h c k
      ]
    ]
  ]
]

Has-colon : {s key value : Text} → HasValue s key value → Has s ":"
Has-colon {s} {key} h = rw h.splits (contains_char key h.rest b':')

connect_short_panics :
    (s : Text)
    → ((channel : Text) (mark : ℕ) (key : Text) → ¬ HasThird s channel (mark ∷ key))
    → parse_connect s ≡ panic
connect_short_panics s h = elim (parse_connect_cases s) [
  | inl (channel, mark, key, has, e) ↦ absurd (h channel mark key has)
  | inr e ↦ e
]

dot_test : (s : Text) → s ≢ codes "." → contains s (codes ".") && (len s == 1) ≡ false
dot_test s h = ground (arith, dot_of_len s)

ping_ne_dot : (s : Text) → Has s "PING" → s ≢ codes "."
unfolding contains starts_with
ping_ne_dot s p e = cc (rw e at p)

parse_command_complete : {s : Text} {r : Exec Parsed} → Means s r → parse_command s ≡ r
unfolding parse_command
parse_command_complete (hmac_in h) = rw h
parse_command_complete (disconnect_in h d) = rw (h, d)
parse_command_complete (connect_in {key} mark h d c has) =
    rw (h, d, c) (parse_connect_third mark key has)
parse_command_complete {s} (connect_short h d c lacks) = rw (h, d, c) (connect_short_panics s lacks)
parse_command_complete {s} (attribute_in value h c has) =
    rw (h, Lacks-disconnect s c, c, Has-colon has) (parse_attribute_value has)
parse_command_complete (dot_is e) = rw e (unfold contains starts_with utf8 in refl)
parse_command_complete {s} (ping_in h c k p) =
    rw (h, Lacks-disconnect s c, c, k, dot_test s (ping_ne_dot s p), p)
parse_command_complete {s} (unknown h c k d p) = rw (h, Lacks-disconnect s c, c, k, dot_test s d, p)

-- `parse_command`, the part of `decode` that reads one command text, has the result `r` exactly
-- when `Means` relates the text to `r`. `Means` says, without running the code, which texts are
-- which commands with which fields, which are refused with an error, and which make the code panic.
pub parse_command_iff : (s : Text) (r : Exec Parsed) → (parse_command s ≡ r) ↔ Means s r
parse_command_iff s r =
    (λ e. subst (Means s) e (parse_command_sound s), λ m. parse_command_complete m)
