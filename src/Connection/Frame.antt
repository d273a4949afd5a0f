-- ===== src/Connection/Frame.antt =====
-- `handle_frame_command` of ingest/src/connection.rs: the items of a frame command are written in
-- their order, from the end of the reversed vector. Its two `info!` lines repeat the error that it
-- returns, and are left out.
use mathlib.Core.List.{reverse, reverse-cons}
use mathlib.Core.Option
use project_lightspeed.Base.{
  ℕ, zero, suc, ◌≡◌, ◌⊎◌, ◌<◌, refl, ap, sym, subst, ◌∙◌, inl, inr, List, [], ◌∷◌, ◌++◌, Option,
  none, some, length, Result, ok, err, arith, Text, append_assoc, append-nil,
}
use project_lightspeed.Rust.Text.{codes}
use project_lightspeed.Rust.Utf8.{utf8}
use project_lightspeed.Rust.Utf8.RoundTrip.{utf8-append}
use project_lightspeed.FtlCodec.{encode}
use project_lightspeed.Runtime.{Framed, Poll, ready, pending}
use project_lightspeed.Connection.Handler.{FrameCommand, send}

-- `Vec::pop`: the last element and the rest.
unfoldable pub pop {ℓ} : {A : Type ℓ} → List A → Option (A × List A)
pop [] = none
pop (x ∷ xs) = elim (pop xs) [ none ↦ some (x, []) | some (y, ys) ↦ some (y, x ∷ ys) ]

pop-concat {ℓ} : {A : Type ℓ} (xs : List A) (x : A) → pop (xs ++ x ∷ []) ≡ some (x, xs)
unfolding pop
pop-concat [] x = refl
pop-concat (y ∷ xs) x = rw (pop-concat xs x)

module _ (framed : Framed) where
  open framed use {Frame}

  abbrev pub FrameResult : Type 0
  FrameResult = Frame × Poll (Result (Unit {0}) Text)

  abbrev send_failed : Text → Text
  send_failed e = codes "There was an error " ++ e

  -- `while !d.is_empty() { … }`; `none` means that the fuel ran out. The result is `pending` if a send
  -- never ends.
  unfoldable pub send_loop : ℕ → List Text → Frame → Option FrameResult
  unfolding pop
  send_loop zero d frame = none
  send_loop (suc fuel) d frame = elim (pop d) [
    | none ↦ some (frame, ready (ok tt))
    | some (item, rest) ↦ elim (framed.send item frame).outcome [
      | ready (ok _) ↦ send_loop fuel rest (framed.send item frame).frame
      | ready (err e) ↦ some ((framed.send item frame).frame, ready (err (send_failed e)))
      | pending ↦ some ((framed.send item frame).frame, pending)
    ]
  ]

  unfoldable pub handle_frame_command : Option FrameCommand → Frame → Option FrameResult
  handle_frame_command (some (send items)) frame =
      send_loop (suc (length items)) (reverse items) frame
  handle_frame_command none frame =
      some (frame, ready (err (codes "Error receiving command from conn")))

  -- The items sent one after another, up to the first send that fails or never ends.
  abbrev pub send_each : List Text → Frame → FrameResult
  send_each [] frame = (frame, ready (ok tt))
  send_each (item ∷ items) frame = elim (framed.send item frame).outcome [
    | ready (ok _) ↦ send_each items (framed.send item frame).frame
    | ready (err e) ↦ ((framed.send item frame).frame, ready (err (send_failed e)))
    | pending ↦ ((framed.send item frame).frame, pending)
  ]

  Outcome-cases :
      (o : Poll (Result (Unit {0}) Text))
      → (o ≡ ready (ok tt)) ⊎ ((why : Text) × (o ≡ ready (err why))) ⊎ (o ≡ pending)
  Outcome-cases (ready (ok _)) = inl refl
  Outcome-cases (ready (err why)) = inr (inl (why, refl))
  Outcome-cases pending = inr (inr refl)

  pub send_each-cons_ok :
      (item : Text) (items : List Text) (frame : Frame)
      → (framed.send item frame).outcome ≡ ready (ok tt)
      → send_each (item ∷ items) frame ≡ send_each items (framed.send item frame).frame
  send_each-cons_ok item items frame e = rw (e, send_each)

  send_each-cons_err :
      (item : Text) (items : List Text) (frame : Frame) {why : Text}
      → (framed.send item frame).outcome ≡ ready (err why)
      → send_each (item ∷ items) frame
        ≡ ((framed.send item frame).frame, ready (err (send_failed why)))
  send_each-cons_err item items frame e = rw (e, send_each)

  send_each-cons_pending :
      (item : Text) (items : List Text) (frame : Frame)
      → (framed.send item frame).outcome ≡ pending
      → send_each (item ∷ items) frame ≡ ((framed.send item frame).frame, pending)
  send_each-cons_pending item items frame e = rw (e, send_each)

  send_loop-reverse :
      (items : List Text) (fuel : ℕ) (frame : Frame)
      → length items < fuel
      → send_loop fuel (reverse items) frame ≡ some (send_each items frame)
  unfolding send_loop
  send_loop-reverse items zero frame h = absurd (omega arith)
  send_loop-reverse [] (suc fuel) frame h = refl
  send_loop-reverse (item ∷ items) (suc fuel) frame h =
      rw (reverse-cons item items) (elim (Outcome-cases (framed.send item frame).outcome) [
        | inl e ↦
            rw (pop-concat (reverse items) item, e, send_loop, send_each-cons_ok item items frame e)
              (send_loop-reverse items fuel (framed.send item frame).frame (omega arith))
        | inr (inl (why, e)) ↦
            rw
              (pop-concat (reverse items) item, e, send_loop, send_each-cons_err item items frame e)
        | inr (inr e) ↦ rw (
          pop-concat (reverse items) item,
          e,
          send_loop,
          send_each-cons_pending item items frame e,
        )
      ])

  -- `handle_frame_command`, which reverses the items of a command and pops them from the end, sends
  -- them in their order up to the first send that fails or never ends, and its fuel is enough for
  -- any number of items.
  pub handle_frame_command_in_order :
      (items : List Text) (frame : Frame)
      → handle_frame_command (some (send items)) frame ≡ some (send_each items frame)
  unfolding handle_frame_command
  handle_frame_command_in_order items frame =
      send_loop-reverse items (suc (length items)) frame (omega arith)

  abbrev pub concat : List Text → Text
  concat [] = []
  concat (item ∷ items) = item ++ concat items

  -- Where every send succeeds, the socket has taken the UTF-8 form of the items, one behind the other.
  pub send_each_written :
      (items : List Text) (frame : Frame)
      → (send_each items frame).1 ≡ ready (ok tt)
      → framed.written (send_each items frame).0 ≡ framed.written frame ++ utf8 (concat items)
  unfolding encode
  send_each_written [] frame h = sym (append-nil _)
  send_each_written (item ∷ items) frame h = elim (Outcome-cases (framed.send item frame).outcome) [
    | inl e ↦
        let step = send_each-cons_ok item items frame e in
        rw step (
          send_each_written items (framed.send item frame).frame (rw step at h)
          ∙ ap (λ w. w ++ utf8 (concat items)) (framed.send_written item frame e)
          ∙ append_assoc (framed.written frame) (utf8 item) (utf8 (concat items))
          ∙ ap (λ w. framed.written frame ++ w) (sym (utf8-append item (concat items))))
    | inr (inl (why, e)) ↦ cc (rw (send_each-cons_err item items frame e) at h)
    | inr (inr e) ↦ cc (rw (send_each-cons_pending item items frame e) at h)
  ]

  -- If `handle_frame_command` succeeds on a command, the socket has taken the UTF-8 form of the
  -- command's items, one behind the other and in their order.
  pub handle_frame_command_written :
      (items : List Text) (frame frame' : Frame)
      → handle_frame_command (some (send items)) frame ≡ some (frame', ready (ok tt))
      → framed.written frame' ≡ framed.written frame ++ utf8 (concat items)
  handle_frame_command_written items frame frame' e =
      let same : send_each items frame ≡ (frame', ready (ok tt)) =
        Option.some-injective _ _ (sym (handle_frame_command_in_order items frame) ∙ e) in
      subst (λ f. framed.written f ≡ framed.written frame ++ utf8 (concat items))
        (ap (λ r. r.0) same) (send_each_written items frame (ap (λ r. r.1) same))
