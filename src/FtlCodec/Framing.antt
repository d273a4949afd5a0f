-- ===== src/FtlCodec/Framing.antt =====
-- Where `decode` cuts the buffer: at the first "\r\n\r\n".
use project_lightspeed.Base.{
  ℕ, suc, ◌+◌, ◌≤◌, ◌<◌, ◌≡◌, refl, true, false, inl, inr, Bool-cases, [], ◌∷◌, ◌++◌, none, some,
  arith, length, length-append, take, ltb, if◌then◌else◌, equal, Bytes, append_assoc,
}
use mathlib.Core.Option
use project_lightspeed.Rust.Text.{starts_with, contains}
use project_lightspeed.Rust.Text.Search.{IsFree, starts_with-append_le}
use project_lightspeed.FtlCodec.{find_end, crlf_crlf}

equal-take : (s : Bytes) → 4 ≤ length s → equal (take 4 s) crlf_crlf ≡ starts_with s crlf_crlf
unfolding equal starts_with
equal-take [] h = absurd (omega arith)
equal-take (a ∷ []) h = absurd (omega arith)
equal-take (a ∷ b ∷ []) h = absurd (omega arith)
equal-take (a ∷ b ∷ c ∷ []) h = absurd (omega arith)
equal-take (a ∷ b ∷ c ∷ d ∷ s) h = ground arith

find_end_short : (s : Bytes) → length s < 4 → find_end s ≡ none
unfolding find_end
find_end_short [] h = refl
find_end_short (x ∷ s) h = ground arith

starts_with_short : (s : Bytes) → length s < 4 → starts_with s crlf_crlf ≡ false
unfolding starts_with
starts_with_short [] h = refl
starts_with_short (a ∷ []) h = ground arith
starts_with_short (a ∷ b ∷ []) h = ground arith
starts_with_short (a ∷ b ∷ c ∷ []) h = ground arith
starts_with_short (a ∷ b ∷ c ∷ d ∷ s) h = absurd (omega arith)

-- The search as a plain recursion on the buffer.
pub find_end-cons :
    (x : ℕ) (s : Bytes)
    → find_end (x ∷ s)
      ≡ (if starts_with (x ∷ s) crlf_crlf then some 0 else Option.map suc (find_end s))
find_end-cons x s = elim (Bool-cases (ltb (length (x ∷ s)) 4)) [
  | inl short ↦
      rw
        (
          find_end_short (x ∷ s) (ground arith),
          starts_with_short (x ∷ s) (ground arith),
          find_end_short s (ground arith),
        )
        refl
  | inr long ↦ rw (← equal-take (x ∷ s) (ground arith)) (unfold find_end in rw long)
]

length_of_starts_with : (s : Bytes) → starts_with s crlf_crlf ≡ true → 4 ≤ length s
length_of_starts_with s h = elim (Bool-cases (ltb (length s) 4)) [
  | inl short ↦ cc (h, starts_with_short s (ground arith))
  | inr long ↦ ground arith
]

-- A found end has its four bytes in the buffer, and is found again when more bytes follow.
pub find_end-append :
    (xs ys : Bytes) (i : ℕ)
    → find_end xs ≡ some i
    → (i + 4 ≤ length xs) × (find_end (xs ++ ys) ≡ some i)
find_end-append [] ys i h = absurd (cc (find_end_short [] (omega arith)))
find_end-append (x ∷ s) ys i h = elim (Bool-cases (starts_with (x ∷ s) crlf_crlf)) [
  | inl here ↦
      let fits = length_of_starts_with (x ∷ s) here in
      let same = starts_with-append_le (x ∷ s) ys crlf_crlf fits in
      let zero_i : i ≡ 0 = ground (arith, find_end-cons x s) in
      (omega arith, ground (arith, find_end-cons x (s ++ ys)))
  | inr later ↦
      let (j, found, e) = (Option.map-eq-some_iff _ _).0 (rw (find_end-cons x s, later) at h) in
      let (fits, again) = find_end-append s ys j found in
      let same = starts_with-append_le (x ∷ s) ys crlf_crlf (omega arith) in
      (omega arith, ground (arith, find_end-cons x (s ++ ys)))
]

-- A buffer with no "\r\n\r\n" is not cut.
pub find_end-none : (s : Bytes) → contains s crlf_crlf ≡ false → find_end s ≡ none
unfolding contains
find_end-none [] h = find_end_short [] (omega arith)
find_end-none (x ∷ s) h = rw find_end-cons (ground (arith, find_end-none s))

-- The first command ends where "\r\n\r\n" first stands.
pub find_end_first :
    (body rest : Bytes)
    → contains (body ++ b'\r' ∷ b'\n' ∷ b'\r' ∷ []) crlf_crlf ≡ false
    → find_end (body ++ (crlf_crlf ++ rest)) ≡ some (length body)
unfolding contains
find_end_first [] rest h = rw find_end-cons (unfold starts_with in refl)
find_end_first (x ∷ s) rest h =
    let tail : Bytes = b'\r' ∷ b'\n' ∷ b'\r' ∷ [] in
    let fits : 4 ≤ length (x ∷ (s ++ tail)) = omega (arith, length-append s tail) in
    let same = starts_with-append_le (x ∷ (s ++ tail)) (b'\n' ∷ rest) crlf_crlf fits in
    ground (
      arith,
      rw (append_assoc s tail (b'\n' ∷ rest)) at same,
      find_end-cons x (s ++ (crlf_crlf ++ rest)),
      find_end_first s rest,
    )

-- A line with no carriage return cannot run into the end of the command.
pub contains_line :
    (line : Bytes)
    → IsFree b'\r' line
    → contains (line ++ b'\r' ∷ b'\n' ∷ b'\r' ∷ []) crlf_crlf ≡ false
unfolding contains starts_with
contains_line [] h = refl
contains_line (x ∷ s) h = ground (arith, contains_line s h.1)
