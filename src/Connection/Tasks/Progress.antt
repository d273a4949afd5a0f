-- ===== src/Connection/Tasks/Progress.antt =====
-- `Connection::init` of ingest/src/connection.rs: how long its tasks run on what they have, however the
-- scheduler polls them.
use project_lightspeed.Base.{
  ℕ, ◌+◌, ◌*◌, ◌<◌, ◌≢◌, ◌⊎◌, inl, inr, ap, ok, err, ◌≡◌, refl, sym, subst, true, false, [], ◌∷◌,
  Option, none, some, arith, Exec, done, panic, length,
}
use project_lightspeed.Runtime.{ready, pending, received, recv_closed, sent}
use project_lightspeed.Connection.Handler.{send, FrameCommand, Reply, Handled}
use project_lightspeed.Connection.Frame.{
  FrameResult, handle_frame_command, handle_frame_command_in_order, send_each,
}
use project_lightspeed.Connection.Tasks.{
  Next, FrameTask, CommandTask, reading, offering, writing, frame_at, poll_frame, frame_offered,
  frame_told, frame_handled, Server, System, waiting, frame_returned, listening, replying,
  command_over, After, dot_sent, reply_sent, init, command_at, poll_command, run_command,
  after_handled, command_heard, reply_done, Reach,
}
use project_lightspeed.Connection.Tasks.Phases.{
  frame_from, Up, Down, Phase, idle, offered, queued, answering, answered, hung, stalled, crashed,
  closing, closed, command_from,
}
use project_lightspeed.Connection.Tasks.Invariant.{reached-Phase}
use project_lightspeed.FtlCodec.{FtlCommand, dot, disconnect}
use project_lightspeed.Platform.{World}
use project_lightspeed.Connection.State.{ConnectionState}
use project_lightspeed.Connection.Tasks.Channels.{
  Holds, send_empty, recv_one, recv_empty, recv_dropped, drop_sender_Holds, drop_receiver_Holds,
}

abbrev frame_work : FrameTask → ℕ
frame_work reading = 2
frame_work (offering c) = 7
frame_work waiting = 2
frame_work writing = 2
frame_work frame_returned = 1

abbrev command_work : CommandTask → ℕ
command_work (listening conn) = 1
command_work (replying conn reply after) = 4
command_work command_over = 0

module _ (server : Server) where
  open server use {platform, framed, commands, replies}

  -- A number that tells how much the tasks still have to do before they need the client.
  abbrev pub work_left : System server → ℕ
  work_left s =
      frame_work s.frame_task
      + command_work s.command_task
      + 4 * length (commands.fifo s.up).queue
      + 2 * length (replies.fifo s.down).queue

  -- A poll changes nothing, or it brings the tasks closer to their rest.
  abbrev pub Nears : System server → System server → Type 0
  Nears s t = (t ≡ s) ⊎ (work_left t < work_left s)

  offered-Nears :
      (s : System server) (offer : FtlCommand) {conn : ConnectionState} {up : commands.Channel}
      → s.frame_task ≡ offering offer
      → s.command_task ≡ listening conn
      → Up server [] true true s
      → Down server [] true true s
      → Holds commands (offer ∷ []) true true up
      → Nears s (frame_offered server offer (sent up) s)
  offered-Nears s offer f c u d u' = inr (rw (f, c, u, d, u') (omega arith))

  result-Nears :
      (s : System server) {conn : ConnectionState} {reply : FrameCommand} (down : replies.Channel)
      (r : FrameResult framed)
      → s.frame_task ≡ waiting
      → s.command_task ≡ listening conn
      → Up server [] true true s
      → Down server (reply ∷ []) true true s
      → Holds replies [] true true down
      → Nears s (frame_handled server (some r) (record s { down = down }))
  result-Nears s down (f', pending) f c u d d' = inr (rw (f, c, u, d, d') (omega arith))
  result-Nears s down (f', ready (ok _)) f c u d d' = inr (rw (f, c, u, d, d') (omega arith))
  result-Nears s down (f', ready (err e)) f c u d d' =
      inr (
        rw (f, c, u, d, drop_sender_Holds commands u, drop_receiver_Holds replies d') (omega arith))

  told-Nears :
      (s : System server) {conn : ConnectionState} (reply : FrameCommand) (down : replies.Channel)
      → s.frame_task ≡ waiting
      → s.command_task ≡ listening conn
      → Up server [] true true s
      → Down server (reply ∷ []) true true s
      → Holds replies [] true true down
      → Nears s (frame_told server (received reply down) s)
  told-Nears s (send items) down f c u d d' =
      subst (λ r. Nears s (frame_handled server r (record s { down = down })))
        (sym (handle_frame_command_in_order framed items s.frame))
        (result-Nears s {reply = send items} down (send_each framed items s.frame) f c u d d')

  closed-Nears :
      (s : System server)
      → s.frame_task ≡ waiting
      → s.command_task ≡ command_over
      → Up server [] true false s
      → Down server [] false true s
      → Nears s (frame_told server recv_closed s)
  unfolding handle_frame_command
  closed-Nears s f c u d =
      inr
        (rw (f, c, u, d, drop_sender_Holds commands u, drop_receiver_Holds replies d) (omega arith))

  told_nothing :
      (next : Next) (s : System server)
      → s.frame_task ≡ waiting
      → Down server [] true true s
      → Nears s (poll_frame server next s)
  unfolding frame_at
  told_nothing next s f d =
      frame_from server (Nears s) next s f
        (inl (ap (λ p. frame_told server p s) (recv_empty replies d)))

  poll_frame-Phase-Nears :
      (next : Next) (s : System server)
      → Phase server s
      → s.frame_task ≢ reading
      → Nears s (poll_frame server next s)
  unfolding frame_at
  poll_frame-Phase-Nears next s (idle f c u d) ne = absurd (ne f)
  poll_frame-Phase-Nears next s (offered {c = offer} f c u d) ne =
      let (up, e, u') = send_empty commands offer u in
      frame_from server (Nears s) next s f (
        subst (λ p. Nears s (frame_offered server offer p s)) (sym e)
          (offered-Nears s offer f c u d u'))
  poll_frame-Phase-Nears next s (queued f c u d) ne = told_nothing next s f d
  poll_frame-Phase-Nears next s (answering f c u d) ne = told_nothing next s f d
  poll_frame-Phase-Nears next s (answered {c = reply} f c u d) ne =
      let (down, e, d') = recv_one replies d in
      frame_from server (Nears s) next s f
        (subst (λ p. Nears s (frame_told server p s)) (sym e) (told-Nears s reply down f c u d d'))
  poll_frame-Phase-Nears next s (hung f c u d) ne = told_nothing next s f d
  poll_frame-Phase-Nears next s (stalled f c u d) ne =
      frame_from server (Nears s) next s f (inl refl)
  poll_frame-Phase-Nears next s (crashed f c u d) ne = frame_from server (Nears s) next s f (
      subst (λ p. Nears s (frame_told server p s)) (sym (recv_dropped replies d))
        (closed-Nears s f c u d))
  poll_frame-Phase-Nears next s (closing f c u d) ne =
      frame_from server (Nears s) next s f (inl refl)
  poll_frame-Phase-Nears next s (closed f c u d) ne =
      frame_from server (Nears s) next s f (inl refl)

  handled-Nears :
      (s : System server) {conn : ConnectionState} {given : FtlCommand} (up : commands.Channel)
      (e : Exec (Handled platform))
      → s.frame_task ≡ waiting
      → s.command_task ≡ listening conn
      → Up server (given ∷ []) true true s
      → Down server [] true true s
      → Holds commands [] true true up
      → Nears s (after_handled server e (record s { up = up }))
  handled-Nears s up panic f c u d u' =
      inr (
        rw (f, c, u, d, drop_receiver_Holds commands u', drop_sender_Holds replies d) (omega arith))
  handled-Nears s {given = given} up (done h) f c u d u' = go h.reply refl
    where
      go :
          (reply : Option Reply)
          → h.reply ≡ reply
          → Nears s (after_handled server (done h) (record s { up = up }))
      go none e = inr (rw (f, c, u, d, u', e) (omega arith))
      go (some reply) e = inr (rw (f, c, u, d, u', e) (omega arith))

  run_command-Nears :
      (s : System server) {conn : ConnectionState} (given : FtlCommand) (up : commands.Channel)
      → s.frame_task ≡ waiting
      → s.command_task ≡ listening conn
      → Up server (given ∷ []) true true s
      → Down server [] true true s
      → Holds commands [] true true up
      → Nears s (run_command server given conn (record s { up = up }))
  unfolding run_command
  run_command-Nears s disconnect up f c u d u' = inr (rw (f, c, u, d, u') (omega arith))
  run_command-Nears s dot up f c u d u' = inr (rw (f, c, u, d, u') (omega arith))
  run_command-Nears s given up f c u d u' = handled-Nears s {given = given} up _ f c u d u'

  reply_done-Nears :
      (s : System server) (conn : ConnectionState) (reply : Reply) (after : After)
      (down : replies.Channel)
      → s.frame_task ≡ waiting
      → s.command_task ≡ replying conn reply after
      → Up server [] true true s
      → Down server [] true true s
      → Holds replies (reply.command ∷ []) true true down
      → Nears s (reply_done server conn reply after (sent down) s)
  reply_done-Nears s conn reply dot_sent down f c u d d' = inr (rw (f, c, u, d, d') (omega arith))
  reply_done-Nears s conn reply reply_sent down f c u d d' = inr (rw (f, c, u, d, d') (omega arith))

  gone-Nears :
      (s : System server) {conn : ConnectionState}
      → s.frame_task ≡ frame_returned
      → s.command_task ≡ listening conn
      → Up server [] false true s
      → Down server [] true false s
      → Nears s (command_heard server conn recv_closed s)
  gone-Nears s f c u d =
      inr
        (rw (f, c, u, d, drop_receiver_Holds commands u, drop_sender_Holds replies d) (omega arith))

  heard_nothing :
      (s : System server) {conn : ConnectionState}
      → s.command_task ≡ listening conn
      → Up server [] true true s
      → Nears s (poll_command server s)
  unfolding command_at
  heard_nothing s {conn} c u =
      command_from server (Nears s) s c
        (inl (ap (λ p. command_heard server conn p s) (recv_empty commands u)))

  poll_command-Phase-Nears : (s : System server) → Phase server s → Nears s (poll_command server s)
  unfolding command_at
  poll_command-Phase-Nears s (idle f c u d) = heard_nothing s c u
  poll_command-Phase-Nears s (offered f c u d) = heard_nothing s c u
  poll_command-Phase-Nears s (queued {c = given} {conn} f c u d) =
      let (up, e, u') = recv_one commands u in
      command_from server (Nears s) s c (
        subst (λ p. Nears s (command_heard server conn p s)) (sym e)
          (run_command-Nears s given up f c u d u'))
  poll_command-Phase-Nears s (answering {conn} {reply} {after} f c u d) =
      let (down, e, d') = send_empty replies reply.command d in
      command_from server (Nears s) s c (
        subst (λ p. Nears s (reply_done server conn reply after p s)) (sym e)
          (reply_done-Nears s conn reply after down f c u d d'))
  poll_command-Phase-Nears s (answered f c u d) = heard_nothing s c u
  poll_command-Phase-Nears s (hung f c u d) = heard_nothing s c u
  poll_command-Phase-Nears s (stalled f c u d) = heard_nothing s c u
  poll_command-Phase-Nears s (crashed f c u d) = command_from server (Nears s) s c (inl refl)
  poll_command-Phase-Nears s (closing {conn} f c u d) = command_from server (Nears s) s c (
      subst (λ p. Nears s (command_heard server conn p s)) (sym (recv_dropped commands u))
        (gone-Nears s f c u d))
  poll_command-Phase-Nears s (closed f c u d) = command_from server (Nears s) s c (inl refl)

  -- In every state that a connection reaches from its start, where the frame task is not reading
  -- from the client, a poll of either task changes nothing or makes the number `work_left` smaller,
  -- whatever the client sends.
  pub polls-Nears :
      (stream : framed.Frame) (world : World platform) (next : Next) {s : System server}
      → Reach server (init server stream world) s
      → s.frame_task ≢ reading
      → Nears s (poll_frame server next s) × Nears s (poll_command server s)
  polls-Nears stream world next {s} r ne =
      let phase = reached-Phase server stream world r in
      (poll_frame-Phase-Nears next s phase ne, poll_command-Phase-Nears s phase)
