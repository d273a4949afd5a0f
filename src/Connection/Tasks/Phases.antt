-- ===== src/Connection/Tasks/Phases.antt =====
-- The two tasks move in lockstep: which states the system of a connection can be in.
use project_lightspeed.Base.{
  ◌≡◌, refl, sym, ap, subst, Bool, true, false, List, [], ◌∷◌, some, arith, ok, err,
}
use project_lightspeed.FtlCodec.{FtlCommand}
use project_lightspeed.Platform.{World}
use project_lightspeed.Runtime.{ready, pending, received, recv_closed}
use project_lightspeed.Connection.State.{ConnectionState, LogLine}
use project_lightspeed.Connection.Handler.{FrameCommand, send, Reply}
use project_lightspeed.Connection.Frame.{
  FrameResult, handle_frame_command, handle_frame_command_in_order, send_each,
}
use project_lightspeed.Connection.Tasks.{
  Server, System, Next, command, failure, end, codec_panic, FrameTask, reading, offering, waiting,
  writing, command_heard, frame_returned, CommandTask, listening, replying, command_over, After,
  init, frame_at, poll_frame, command_at, poll_command, frame_read, frame_offered, frame_told,
  frame_handled, end_frame,
}
use project_lightspeed.Connection.Tasks.Channels.{
  Holds, send_empty, recv_one, recv_empty, recv_dropped, drop_sender_Holds, drop_receiver_Holds,
}

module _ (server : Server) where
  open server use {platform, framed, commands, replies}

  abbrev pub Up : List FtlCommand → Bool → Bool → System server → Type 0
  Up queue sender receiver s = Holds commands queue sender receiver s.up

  abbrev pub Down : List FrameCommand → Bool → Bool → System server → Type 0
  Down queue sender receiver s = Holds replies queue sender receiver s.down

  -- The states of a connection. In `hung` both tasks wait for one another, in `stalled` the client
  -- takes no more bytes.
  pub data Phase (s : System server) : Type 0 where
    idle :
        {conn : ConnectionState}
        → s.frame_task ≡ reading
        → s.command_task ≡ listening conn
        → Up [] true true s
        → Down [] true true s
        → Phase s
    offered :
        {c : FtlCommand} {conn : ConnectionState}
        → s.frame_task ≡ offering c
        → s.command_task ≡ listening conn
        → Up [] true true s
        → Down [] true true s
        → Phase s
    queued :
        {c : FtlCommand} {conn : ConnectionState}
        → s.frame_task ≡ waiting
        → s.command_task ≡ listening conn
        → Up (c ∷ []) true true s
        → Down [] true true s
        → Phase s
    answering :
        {conn : ConnectionState} {reply : Reply} {after : After}
        → s.frame_task ≡ waiting
        → s.command_task ≡ replying conn reply after
        → Up [] true true s
        → Down [] true true s
        → Phase s
    answered :
        {conn : ConnectionState} {c : FrameCommand}
        → s.frame_task ≡ waiting
        → s.command_task ≡ listening conn
        → Up [] true true s
        → Down (c ∷ []) true true s
        → Phase s
    hung :
        {conn : ConnectionState}
        → s.frame_task ≡ waiting
        → s.command_task ≡ listening conn
        → Up [] true true s
        → Down [] true true s
        → Phase s
    stalled :
        {conn : ConnectionState}
        → s.frame_task ≡ writing
        → s.command_task ≡ listening conn
        → Up [] true true s
        → Down [] true true s
        → Phase s
    crashed :
        s.frame_task ≡ waiting
        → s.command_task ≡ command_over
        → Up [] true false s
        → Down [] false true s
        → Phase s
    closing :
        {conn : ConnectionState}
        → s.frame_task ≡ frame_returned
        → s.command_task ≡ listening conn
        → Up [] false true s
        → Down [] true false s
        → Phase s
    closed :
        s.frame_task ≡ frame_returned
        → s.command_task ≡ command_over
        → Up [] false false s
        → Down [] false false s
        → Phase s

  pub init-Phase :
      (stream : framed.Frame) (world : World platform) → Phase (init server stream world)
  unfolding init
  init-Phase stream world =
      idle refl refl (commands.fifo-channel 2 (omega arith)) (replies.fifo-channel 2 (omega arith))

  -- What a poll of one task does, from the await at which it stands.
  pub frame_from :
      (P : System server → Type 0) (next : Next) (s : System server) {task : FrameTask}
      → s.frame_task ≡ task
      → P (frame_at server task next s)
      → P (poll_frame server next s)
  unfolding poll_frame
  frame_from P next s e h = subst (λ t. P (frame_at server t next s)) (sym e) h

  pub command_from :
      (P : System server → Type 0) (s : System server) {task : CommandTask}
      → s.command_task ≡ task
      → P (command_at server task s)
      → P (poll_command server s)
  unfolding poll_command
  command_from P s e h = subst (λ t. P (command_at server t s)) (sym e) h

  -- The polls that change nothing.
  pub waiting_stays :
      {receiver : Bool} (next : Next) (s : System server)
      → s.frame_task ≡ waiting
      → Down [] true receiver s
      → poll_frame server next s ≡ s
  unfolding frame_at
  waiting_stays next s f d =
      frame_from (λ t. t ≡ s) next s f (ap (λ p. frame_told server p s) (recv_empty replies d))

  pub writing_stays :
      (next : Next) (s : System server) → s.frame_task ≡ writing → poll_frame server next s ≡ s
  unfolding frame_at
  writing_stays next s f = frame_from (λ t. t ≡ s) next s f refl

  pub returned_stays :
      (next : Next) (s : System server)
      → s.frame_task ≡ frame_returned
      → poll_frame server next s ≡ s
  unfolding frame_at
  returned_stays next s f = frame_from (λ t. t ≡ s) next s f refl

  pub listening_stays :
      {receiver : Bool} {conn : ConnectionState} (s : System server)
      → s.command_task ≡ listening conn
      → Up [] true receiver s
      → poll_command server s ≡ s
  unfolding command_at
  listening_stays {conn = conn} s c u =
      command_from (λ t. t ≡ s) s c
        (ap (λ p. command_heard server conn p s) (recv_empty commands u))

  pub over_stays : (s : System server) → s.command_task ≡ command_over → poll_command server s ≡ s
  unfolding command_at
  over_stays s c = command_from (λ t. t ≡ s) s c refl

  module _ (s : System server) {conn : ConnectionState}
      (listens : s.command_task ≡ listening conn) where
    end_frame-Phase :
        (lines : List LogLine)
        → Up [] true true s
        → Down [] true true s
        → Phase (end_frame server lines s)
    end_frame-Phase lines u d =
        closing refl listens (drop_sender_Holds commands u) (drop_receiver_Holds replies d)

    frame_read-Phase :
        (next : Next) → Up [] true true s → Down [] true true s → Phase (frame_read server next s)
    frame_read-Phase (command c) u d = offered refl listens u d
    frame_read-Phase (failure e) u d = end_frame-Phase _ u d
    frame_read-Phase end u d = end_frame-Phase _ u d
    frame_read-Phase codec_panic u d = end_frame-Phase _ u d

    frame_result-Phase :
        (r : FrameResult framed)
        → Up [] true true s
        → Down [] true true s
        → Phase (frame_handled server (some r) s)
    frame_result-Phase (f, pending) u d = stalled refl listens u d
    frame_result-Phase (f, ready (ok _)) u d = idle refl listens u d
    frame_result-Phase (f, ready (err e)) u d =
        closing refl listens (drop_sender_Holds commands u) (drop_receiver_Holds replies d)

  told-Phase :
      (s : System server) {conn : ConnectionState} (c : FrameCommand) (down : replies.Channel)
      → s.command_task ≡ listening conn
      → Up [] true true s
      → Holds replies [] true true down
      → Phase (frame_told server (received c down) s)
  told-Phase s (send items) down listens u d =
      subst (λ r. Phase (frame_handled server r (record s { down = down })))
        (sym (handle_frame_command_in_order framed items s.frame))
        (frame_result-Phase (record s { down = down }) listens (send_each framed items s.frame) u d)

  told_closed-Phase :
      (s : System server)
      → s.command_task ≡ command_over
      → Up [] true false s
      → Down [] false true s
      → Phase (frame_told server recv_closed s)
  unfolding handle_frame_command
  told_closed-Phase s c u d =
      closed refl c (drop_sender_Holds commands u) (drop_receiver_Holds replies d)

  pub poll_frame-Phase :
      (next : Next) (s : System server) → Phase s → Phase (poll_frame server next s)
  unfolding frame_at
  poll_frame-Phase next s (idle f c u d) = frame_from Phase next s f (frame_read-Phase s c next u d)
  poll_frame-Phase next s (offered {c = offer} f c u d) =
      let (up, e, u') = send_empty commands offer u in
      frame_from Phase next s f
        (subst (λ p. Phase (frame_offered server offer p s)) (sym e) (queued refl c u' d))
  poll_frame-Phase next s (queued f c u d) =
      frame_from Phase next s f
        (subst (λ p. Phase (frame_told server p s)) (sym (recv_empty replies d)) (queued f c u d))
  poll_frame-Phase next s (answering f c u d) =
      frame_from Phase next s f (
        subst (λ p. Phase (frame_told server p s)) (sym (recv_empty replies d)) (answering f c u d))
  poll_frame-Phase next s (answered {c = reply} f c u d) =
      let (down, e, d') = recv_one replies d in
      frame_from Phase next s f
        (subst (λ p. Phase (frame_told server p s)) (sym e) (told-Phase s reply down c u d'))
  poll_frame-Phase next s (hung f c u d) =
      frame_from Phase next s f
        (subst (λ p. Phase (frame_told server p s)) (sym (recv_empty replies d)) (hung f c u d))
  poll_frame-Phase next s (stalled f c u d) = frame_from Phase next s f (stalled f c u d)
  poll_frame-Phase next s (crashed f c u d) = frame_from Phase next s f (
      subst (λ p. Phase (frame_told server p s)) (sym (recv_dropped replies d))
        (told_closed-Phase s c u d))
  poll_frame-Phase next s (closing f c u d) = frame_from Phase next s f (closing f c u d)
  poll_frame-Phase next s (closed f c u d) = frame_from Phase next s f (closed f c u d)
