-- ===== src/Connection/Handler/Replies.antt =====
-- What `handle_command` makes of an attribute, as the client sees it.
use project_lightspeed.Base.{
  ◌≡◌, ◌⊎◌, inl, inr, refl, ap, ◌∙◌, Option, [], ◌∷◌, none, some, equal, equal_iff, done, Text,
  Bool-cases,
}
use project_lightspeed.Rust.HashMap
use project_lightspeed.Rust.HashMap.{HashMap}
use project_lightspeed.Rust.Text.{codes}
use project_lightspeed.Platform.{Platform, World}
use project_lightspeed.FtlCodec.{attribute}
use project_lightspeed.Connection.State.{ConnectionState}
use project_lightspeed.Connection.Handler.{
  send, handle_attribute, Handled, handle_command, assign, Assigned, assigned, unknown_key,
  invalid_value, attribute_done,
}
use project_lightspeed.Connection.Handler.Attributes.{
  Attribute, video, audio, key_of, IsFlag, IsTaken, Takes, assign-Takes, assign_taken,
  assign_refused,
}
use project_lightspeed.Connection.Handler.Unknown.{assign_unknown, IsUnknown, key_cases}

-- A value that a flag takes.
abbrev pub IsBool : Text → Type 0
IsBool value = (value ≡ codes "true") ⊎ (value ≡ codes "false")

module _ (platform : Platform) where
  -- `taken`: the value is stored and the client gets the empty answer. `refused`: a flag with another
  -- value than "true" and "false" changes nothing and is not answered. `ignored`: an unknown
  -- attribute changes nothing and gets the empty answer. `incomplete`: a command with no key or with
  -- no value changes nothing and is not answered.
  pub data AttributeOutcome (params : HashMap) (conn : ConnectionState) (h : Handled platform)
      : Type 0 where
    taken :
        (a : Attribute) (value on_error : Text)
        → HashMap.get (codes "key") params ≡ some (key_of a)
        → HashMap.get (codes "value") params ≡ some value
        → IsTaken a value
        → Takes a value conn h.conn
        → h.reply ≡ some (record { command = send ([] ∷ []); on_error = on_error })
        → AttributeOutcome params conn h
    refused :
        (a : Attribute) (value : Text)
        → HashMap.get (codes "key") params ≡ some (key_of a)
        → HashMap.get (codes "value") params ≡ some value
        → IsFlag a
        → ¬ IsBool value
        → h.conn ≡ conn
        → h.reply ≡ none
        → AttributeOutcome params conn h
    ignored :
        (key value on_error : Text)
        → HashMap.get (codes "key") params ≡ some key
        → HashMap.get (codes "value") params ≡ some value
        → IsUnknown key
        → h.conn ≡ conn
        → h.reply ≡ some (record { command = send ([] ∷ []); on_error = on_error })
        → AttributeOutcome params conn h
    incomplete :
        (HashMap.get (codes "key") params ≡ none) ⊎ (HashMap.get (codes "value") params ≡ none)
        → h.conn ≡ conn
        → h.reply ≡ none
        → AttributeOutcome params conn h

  IsFlag-cases : (a : Attribute) → IsFlag a ⊎ (¬ IsFlag a)
  IsFlag-cases video = inl (inl refl)
  IsFlag-cases audio = inl (inr refl)
  IsFlag-cases _ = inr (λ f. elim f [ inl e ↦ cc | inr e ↦ cc ])

  IsBool-cases : (value : Text) → IsBool value ⊎ (¬ IsBool value)
  IsBool-cases value = elim (Bool-cases (equal value (codes "true"))) [
    | inl t ↦ inl (inl ((equal_iff _ _).0 t))
    | inr t ↦ elim (Bool-cases (equal value (codes "false"))) [
      | inl f ↦ inl (inr ((equal_iff _ _).0 f))
      | inr f ↦ inr (λ b. elim b [
        | inl e ↦ cc (t, (equal_iff value (codes "true")).1 e)
        | inr e ↦ cc (f, (equal_iff value (codes "false")).1 e)
      ])
    ]
  ]

  IsTaken-cases : (a : Attribute) (value : Text) → IsTaken a value ⊎ (IsFlag a × (¬ IsBool value))
  IsTaken-cases a value = elim (IsFlag-cases a) [
    | inr plain ↦ inl (λ f. absurd (plain f))
    | inl flag ↦ elim (IsBool-cases value) [ inl b ↦ inl (λ _. b) | inr other ↦ inr (flag, other) ]
  ]

  module _ (params : HashMap) (value : Text) (conn : ConnectionState) (world : World platform)
      (valued : HashMap.get (codes "value") params ≡ some value) where
    outcome_known :
        (a : Attribute)
        → HashMap.get (codes "key") params ≡ some (key_of a)
        → AttributeOutcome params conn
            (attribute_done platform (key_of a) value conn world (assign (key_of a) value conn))
    outcome_known a keyed = elim (IsTaken-cases a value) [
      | inl t ↦
          let (conn', e) = assign_taken a value conn t in
          rw e (taken a value _ keyed valued t (assign-Takes a value conn e) refl)
      | inr (flag, other) ↦
          let (message, e) =
            assign_refused a value conn flag (λ p. other (inl p)) (λ p. other (inr p)) in
          rw e (refused a value keyed valued flag other refl refl)
    ]

    outcome :
        (key : Text)
        → HashMap.get (codes "key") params ≡ some key
        → AttributeOutcome params conn
            (attribute_done platform key value conn world (assign key value conn))
    outcome key keyed = elim (key_cases key) [
      | inl (a, e) ↦ rw e (outcome_known a (keyed ∙ ap some e))
      | inr unknown ↦
          rw (assign_unknown key value conn unknown)
            (ignored key value _ keyed valued unknown refl refl)
    ]

  attribute_done-world :
      (key value : Text) (conn : ConnectionState) (world : World platform) (r : Assigned)
      → (attribute_done platform key value conn world r).world ≡ world
  attribute_done-world key value conn world (assigned conn') = refl
  attribute_done-world key value conn world unknown_key = refl
  attribute_done-world key value conn world (invalid_value message) = refl

  abbrev Results : HashMap → ConnectionState → World platform → Handled platform → Type 0
  Results params conn world h = (h.world ≡ world) × AttributeOutcome params conn h

  handled :
      (params : HashMap) (conn : ConnectionState) (world : World platform) (key value : Option Text)
      → HashMap.get (codes "key") params ≡ key
      → HashMap.get (codes "value") params ≡ value
      → Results params conn world (handle_attribute platform key value conn world)
  unfolding handle_attribute
  handled params conn world none value k v = (refl, incomplete (inl k) refl refl)
  handled params conn world (some key) none k v = (refl, incomplete (inr v) refl refl)
  handled params conn world (some key) (some value) k v =
      (attribute_done-world key value conn world _, outcome params value conn world v key k)

  -- `handle_command` returns on every attribute command, with any data, changes nothing outside the
  -- connection, and has one of four outcomes: a known attribute whose value is right is stored in
  -- its own place and answered with the empty text; a flag with another value than "true" and
  -- "false" changes nothing and is not answered; an unknown attribute changes nothing and is
  -- answered with the empty text; and a command with no key or no value changes nothing and is not
  -- answered.
  pub attribute_outcome :
      (params : HashMap) (conn : ConnectionState) (world : World platform)
      → (h : Handled platform) × (handle_command platform (attribute params) conn world ≡ done h)
        × (h.world ≡ world)
        × AttributeOutcome params conn h
  unfolding handle_command
  attribute_outcome params conn world =
      let (same, result) = handled params conn world _ _ refl refl in (_, refl, same, result)
