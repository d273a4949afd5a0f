-- ===== src/Rust/Utf8/RoundTrip.antt =====
-- Decoding the UTF-8 form of a text gives the text back.
use project_lightspeed.Base.{
  ℕ, suc, ◌+◌, ◌*◌, ◌-◌, ◌/◌, ◌%◌, ◌<◌, ◌≤◌, ◌≡◌, ◌≢◌, refl, sym, ap, ◌∙◌, ◌==◌, if◌then◌else◌, [],
  ◌∷◌, ◌++◌, map, some, All, All-append, All-mono, inl, arith, Bytes, Text, append_assoc,
}
use project_lightspeed.Rust.Text.Search.{IsFree}
use project_lightspeed.Rust.Utf8.{
  IsScalar, utf8_char, utf8, char, start, need, wait_for, begin, accept, pieces_from,
  from_utf8_lossy, from_utf8, strict, lossy_char,
}

begin_two : (q : ℕ) → 2 ≤ q → q < 32 → begin (0xC0 + q) ≡ wait_for q 0x80 0xBF 0
unfolding begin
begin_two q h k = ground arith

begin_three :
    (q : ℕ)
    → q < 16
    → begin (0xE0 + q)
      ≡ wait_for q (if q == 0 then 0xA0 else 0x80) (if q == 13 then 0x9F else 0xBF) 1
unfolding begin
begin_three q h = ground arith

begin_four :
    (q : ℕ)
    → q < 5
    → begin (0xF0 + q)
      ≡ wait_for q (if q == 0 then 0x90 else 0x80) (if q == 4 then 0x8F else 0xBF) 2
unfolding begin
begin_four q h = ground arith

pieces_last :
    (acc lo hi b : ℕ) (bs : Bytes)
    → lo ≤ b
    → b ≤ hi
    → pieces_from (need acc lo hi 0) (b ∷ bs) ≡ char (acc * 64 + (b - 0x80)) ∷ pieces_from start bs
unfolding pieces_from
pieces_last acc lo hi b bs h k = ground arith

pieces_more :
    (acc lo hi more b : ℕ) (bs : Bytes)
    → lo ≤ b
    → b ≤ hi
    → pieces_from (need acc lo hi (suc more)) (b ∷ bs)
      ≡ pieces_from (need (acc * 64 + (b - 0x80)) 0x80 0xBF more) bs
unfolding pieces_from
pieces_more acc lo hi more b bs h k = ground arith

pieces_wait :
    (b acc lo hi more : ℕ) (bs : Bytes)
    → begin b ≡ wait_for acc lo hi more
    → pieces_from start (b ∷ bs) ≡ pieces_from (need acc lo hi more) bs
unfolding pieces_from accept
pieces_wait b acc lo hi more bs e = rw e

char_one :
    (c : ℕ) (rest : Bytes)
    → c < 0x80
    → pieces_from start (c ∷ rest) ≡ char c ∷ pieces_from start rest
unfolding pieces_from
char_one c rest h = ground arith

char_two :
    (c : ℕ) (rest : Bytes)
    → 0x80 ≤ c
    → c < 0x800
    → pieces_from start ((0xC0 + c / 64) ∷ (0x80 + c % 64) ∷ rest) ≡ char c ∷ pieces_from start rest
char_two c rest h k =
    pieces_wait _ _ _ _ _ _ (begin_two (c / 64) (omega arith) (omega arith))
    ∙ pieces_last _ _ _ _ rest (omega arith) (omega arith)
    ∙ ap (λ d. char d ∷ pieces_from start rest) (omega arith)

char_three :
    (c : ℕ) (rest : Bytes)
    → 0x800 ≤ c
    → c < 0x10000
    → IsScalar c
    → pieces_from start ((0xE0 + c / 4096) ∷ (0x80 + c / 64 % 64) ∷ (0x80 + c % 64) ∷ rest)
      ≡ char c ∷ pieces_from start rest
char_three c rest h k s =
    pieces_wait _ _ _ _ _ _ (begin_three (c / 4096) (omega arith))
    ∙ pieces_more _ _ _ _ _ _ (ground arith) (ground arith)
    ∙ pieces_last _ _ _ _ rest (omega arith) (omega arith)
    ∙ ap (λ d. char d ∷ pieces_from start rest) (omega arith)

char_four :
    (c : ℕ) (rest : Bytes)
    → 0x10000 ≤ c
    → c < 0x110000
    → pieces_from start (
        (0xF0 + c / 262144)
        ∷ (0x80 + c / 4096 % 64)
        ∷ (0x80 + c / 64 % 64)
        ∷ (0x80 + c % 64)
        ∷ rest)
      ≡ char c ∷ pieces_from start rest
char_four c rest h k =
    pieces_wait _ _ _ _ _ _ (begin_four (c / 262144) (omega arith))
    ∙ pieces_more _ _ _ _ _ _ (ground arith) (ground arith)
    ∙ pieces_more _ _ _ _ _ _ (omega arith) (omega arith)
    ∙ pieces_last _ _ _ _ rest (omega arith) (omega arith)
    ∙ ap (λ d. char d ∷ pieces_from start rest) (omega arith)

pieces-utf8_char :
    (c : ℕ) (rest : Bytes)
    → IsScalar c
    → pieces_from start (utf8_char c ++ rest) ≡ char c ∷ pieces_from start rest
unfolding utf8_char
pieces-utf8_char c rest s =
    ground (arith, char_one c rest, char_two c rest, char_three c rest, char_four c rest)

pieces-utf8 : (s : Text) → All IsScalar s → pieces_from start (utf8 s) ≡ map char s
unfolding utf8
pieces-utf8 [] h = unfold pieces_from in refl
pieces-utf8 (c ∷ s) h = pieces-utf8_char c (utf8 s) h.0 ∙ ap (◌∷◌ (char c)) (pieces-utf8 s h.1)

map-lossy_char : (s : Text) → map lossy_char (map char s) ≡ s
map-lossy_char [] = refl
map-lossy_char (c ∷ s) = ap (◌∷◌ c) (map-lossy_char s)

strict-char : (s : Text) → strict (map char s) ≡ some s
unfolding strict
strict-char [] = refl
strict-char (c ∷ s) = rw (strict-char s)

-- Lossy decoding loses nothing of a well-formed text.
pub from_utf8_lossy-utf8 : (s : Text) → All IsScalar s → from_utf8_lossy (utf8 s) ≡ s
unfolding from_utf8_lossy
from_utf8_lossy-utf8 s h = ap (map lossy_char) (pieces-utf8 s h) ∙ map-lossy_char s

pub from_utf8-utf8 : (s : Text) → All IsScalar s → from_utf8 (utf8 s) ≡ some s
unfolding from_utf8
from_utf8-utf8 s h = ap strict (pieces-utf8 s h) ∙ strict-char s

utf8_char-IsFree : (c x : ℕ) → c < 0x80 → x ≢ c → IsFree c (utf8_char x)
unfolding utf8_char
utf8_char-IsFree c x h f = ground arith

pub utf8-append : (s t : Text) → utf8 (s ++ t) ≡ utf8 s ++ utf8 t
unfolding utf8
utf8-append [] t = refl
utf8-append (c ∷ s) t = rw (utf8-append s t) (sym (append_assoc (utf8_char c) (utf8 s) (utf8 t)))

-- A byte below 0x80 stands in the UTF-8 form only where its character stands in the text.
pub utf8-IsFree : (c : ℕ) (s : Text) → c < 0x80 → IsFree c s → IsFree c (utf8 s)
unfolding utf8
utf8-IsFree c [] h f = tt
utf8-IsFree c (x ∷ s) h f =
    All-append (λ y. y ≢ c) (utf8_char x) (utf8 s) (utf8_char-IsFree c x h f.0)
      (utf8-IsFree c s h f.1)

pub utf8_ascii : (s : Text) → All (λ c. c < 0x80) s → utf8 s ≡ s
unfolding utf8
utf8_ascii [] h = refl
utf8_ascii (c ∷ s) h = ground (arith, utf8_ascii s h.1)

pub from_utf8_ascii : (s : Text) → All (λ c. c < 0x80) s → from_utf8 s ≡ some s
from_utf8_ascii s h =
    ap from_utf8 (sym (utf8_ascii s h))
    ∙ from_utf8-utf8 s (All-mono _ _ (λ c k. inl (omega arith)) s h)

utf8_char-IsByte : (c : ℕ) → IsScalar c → All (λ b. b < 256) (utf8_char c)
unfolding utf8_char
utf8_char-IsByte c h = ground arith

pub utf8-IsByte : (s : Text) → All IsScalar s → All (λ b. b < 256) (utf8 s)
unfolding utf8
utf8-IsByte [] h = tt
utf8-IsByte (c ∷ s) h =
    All-append (λ b. b < 256) (utf8_char c) (utf8 s) (utf8_char-IsByte c h.0) (utf8-IsByte s h.1)
