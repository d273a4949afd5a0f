-- ===== src/Rust/Text/Search.antt =====
-- What `contains` finds: the pattern as a contiguous part of the text.
use project_lightspeed.Base.{
  ℕ, ◌≤◌, ◌≡◌, ◌≢◌, ◌↔◌, refl, ap, sym, subst, true, false, inl, inr, Bool-cases, [], ◌∷◌, ◌++◌,
  All, arith, length, Text,
}
use project_lightspeed.Rust.Text.{starts_with, contains}

-- The character `c` is not in the text.
abbrev pub IsFree : ℕ → Text → Type 0
IsFree c s = All (λ x. x ≢ c) s

pub starts_with-append : (p s : Text) → starts_with (p ++ s) p ≡ true
unfolding starts_with
starts_with-append [] s = refl
starts_with-append (c ∷ p) s = ground (arith, starts_with-append p s)

pub starts_with-append_le :
    (s t p : Text) → length p ≤ length s → starts_with (s ++ t) p ≡ starts_with s p
unfolding starts_with
starts_with-append_le s t [] h = refl
starts_with-append_le [] t (c ∷ p) h = absurd (omega arith)
starts_with-append_le (x ∷ s) t (c ∷ p) h = ground (arith, starts_with-append_le s t p)

prefix_of_starts_with : (s p : Text) → starts_with s p ≡ true → (t : Text) × (s ≡ p ++ t)
unfolding starts_with
prefix_of_starts_with s [] h = (s, refl)
prefix_of_starts_with [] (c ∷ p) h = cc
prefix_of_starts_with (x ∷ s) (c ∷ p) h =
    let (t, e) = prefix_of_starts_with s p (ground arith) in (t, ground arith)

pub contains-append_left : (a s p : Text) → contains s p ≡ true → contains (a ++ s) p ≡ true
unfolding contains
contains-append_left [] s p h = h
contains-append_left (c ∷ a) s p h = ground (arith, contains-append_left a s p)

pub contains_of_prefix : (s p : Text) → starts_with s p ≡ true → contains s p ≡ true
unfolding contains
contains_of_prefix [] p h = h
contains_of_prefix (c ∷ s) p h = ground arith

pub contains-middle : (a p b : Text) → contains (a ++ (p ++ b)) p ≡ true
contains-middle a p b =
    contains-append_left a (p ++ b) p (contains_of_prefix (p ++ b) p (starts_with-append p b))

around_contained :
    (s p : Text) → contains s p ≡ true → (a : Text) × (b : Text) × (s ≡ a ++ (p ++ b))
unfolding contains
around_contained [] p h = let (t, e) = prefix_of_starts_with [] p h in ([], t, e)
around_contained (c ∷ s) p h = elim (Bool-cases (starts_with (c ∷ s) p)) [
  | inl here ↦ let (t, e) = prefix_of_starts_with (c ∷ s) p here in ([], t, e)
  | inr later ↦ let (a, b, e) = around_contained s p (rw (later) at h) in (c ∷ a, b, ap (◌∷◌ c) e)
]

-- A text contains the pattern exactly when it splits around it.
pub contains_iff :
    (s p : Text) → (contains s p ≡ true) ↔ ((a : Text) × (b : Text) × (s ≡ a ++ (p ++ b)))
contains_iff s p = (
  around_contained s p,
  λ w. subst (λ t. contains t p ≡ true) (sym w.2) (contains-middle w.0 p w.1),
)

starts_with_missing : (s u v : Text) (c : ℕ) → IsFree c s → starts_with s (u ++ c ∷ v) ≡ false
unfolding starts_with
starts_with_missing [] [] v c h = refl
starts_with_missing [] (d ∷ u) v c h = refl
starts_with_missing (x ∷ s) [] v c h = ground arith
starts_with_missing (x ∷ s) (d ∷ u) v c h = ground (arith, starts_with_missing s u v c h.1)

-- A text with no `c` contains no pattern with a `c`.
pub contains_missing : (s u v : Text) (c : ℕ) → IsFree c s → contains s (u ++ c ∷ v) ≡ false
unfolding contains
contains_missing [] u v c h = starts_with_missing [] u v c h
contains_missing (x ∷ s) u v c h =
    ground (arith, starts_with_missing (x ∷ s) u v c h, contains_missing s u v c h.1)

pub contains_char : (s t : Text) (c : ℕ) → contains (s ++ c ∷ t) (c ∷ []) ≡ true
contains_char s t c = contains-middle s (c ∷ []) t
