-- ===== src/Rust/Text/Fields.antt =====
-- The fields that `split` makes, and `trim` on a text with no blank at its ends.
use native.Mathlib.Decide.{ℕ_discrete}
use project_lightspeed.Base.{◌⊎◌, inl, inr, ap, ℕ, ◌≡◌, refl, false, [], ◌∷◌, ◌++◌, arith, Text}
use project_lightspeed.Rust.Text.{split, is_whitespace, trim_start, trim_end, trim}
use project_lightspeed.Rust.Text.Search.{IsFree}

pub split-free : (sep : ℕ) (s : Text) → IsFree sep s → split sep s ≡ s ∷ []
unfolding split
split-free sep [] h = refl
split-free sep (c ∷ s) h = ground (arith, split-free sep s h.1)

pub split-append :
    (sep : ℕ) (f s : Text) → IsFree sep f → split sep (f ++ (sep ∷ s)) ≡ f ∷ split sep s
unfolding split
split-append sep [] s h = ground arith
split-append sep (c ∷ f) s h = ground (arith, split-append sep f s h.1)

pub trim_start_solid : (c : ℕ) (s : Text) → is_whitespace c ≡ false → trim_start (c ∷ s) ≡ c ∷ s
unfolding trim_start
trim_start_solid c s h = rw h

pub trim_end_solid :
    (s : Text) (c : ℕ) → is_whitespace c ≡ false → trim_end (s ++ c ∷ []) ≡ s ++ c ∷ []
unfolding trim_end
trim_end_solid [] c h = rw h
trim_end_solid (d ∷ []) c h = rw h
trim_end_solid (d ∷ e ∷ s) c h = rw (trim_end_solid (e ∷ s) c h)

-- A text with no blank at either end: `trim` leaves it as it is.
pub data IsTrimmed : Text → Type 0 where
  empty : IsTrimmed []
  single : {c : ℕ} → is_whitespace c ≡ false → IsTrimmed (c ∷ [])
  ends :
      {c : ℕ} (s : Text) (d : ℕ)
      → is_whitespace c ≡ false
      → is_whitespace d ≡ false
      → IsTrimmed (c ∷ (s ++ d ∷ []))

pub trim-IsTrimmed : {s : Text} → IsTrimmed s → trim s ≡ s
unfolding trim
trim-IsTrimmed empty = refl
trim-IsTrimmed (single {c} h) = rw (trim_start_solid c [] h) (trim_end_solid [] c h)
trim-IsTrimmed (ends {c} s d h k) =
    rw (trim_start_solid c (s ++ d ∷ []) h) (trim_end_solid (c ∷ s) d k)

pub trim_space : (s : Text) → trim (b' ' ∷ s) ≡ trim s
unfolding trim
trim_space s = refl

-- Where a character first stands in a text, if it does.
pub first_place :
    (c : ℕ) (s : Text) → IsFree c s ⊎ ((a : Text) × (b : Text) × IsFree c a × (s ≡ a ++ c ∷ b))
first_place c [] = inl tt
first_place c (x ∷ s) = elim (ℕ_discrete x c) [
  | yes here ↦ inr ([], s, tt, ap (λ d. d ∷ s) here)
  | no other ↦ elim (first_place c s) [
    | inl free ↦ inl (other, free)
    | inr (a, b, free, e) ↦ inr (x ∷ a, b, (other, free), ap (◌∷◌ x) e)
  ]
]
