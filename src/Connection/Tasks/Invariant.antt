-- ===== src/Connection/Tasks/Invariant.antt =====
-- Every step of the tasks of a connection keeps to the phases.
use project_lightspeed.Base.{
  ◌≡◌, ◌≤◌, ◌+◌, refl, sym, subst, true, [], ◌∷◌, Option, none, some, arith, Exec, done, panic,
  length,
}
use project_lightspeed.FtlCodec.{FtlCommand, dot, disconnect}
use project_lightspeed.Platform.{World}
use project_lightspeed.Runtime.{sent}
use project_lightspeed.Connection.State.{ConnectionState}
use project_lightspeed.Connection.Handler.{Reply, Handled}
use project_lightspeed.Connection.Tasks.{
  Server, System, waiting, After, dot_sent, reply_sent, init, command_at, poll_command, run_command,
  after_handled, command_heard, reply_done, Step, by_frame, by_command, Reach, here, step,
}
use project_lightspeed.Connection.Tasks.Channels.{
  Holds, send_empty, recv_one, recv_empty, recv_dropped, drop_sender_Holds, drop_receiver_Holds,
}
use project_lightspeed.Connection.Tasks.Phases.{
  Up, Down, Phase, idle, offered, queued, answering, answered, hung, stalled, crashed, closing,
  closed, init-Phase, command_from, poll_frame-Phase,
}

module _ (server : Server) where
  open server use {platform, framed, commands, replies}

  after_handled-Phase :
      (s : System server) (e : Exec (Handled platform))
      → s.frame_task ≡ waiting
      → Up server [] true true s
      → Down server [] true true s
      → Phase server (after_handled server e s)
  after_handled-Phase s panic f u d =
      crashed f refl (drop_receiver_Holds commands u) (drop_sender_Holds replies d)
  after_handled-Phase s (done h) f u d = go h.reply refl
    where
      go : (reply : Option Reply) → h.reply ≡ reply → Phase server (after_handled server (done h) s)
      go none e = hung {conn = h.conn} f (rw e) u d
      go (some reply) e =
          answering {conn = h.conn} {reply = reply} {after = reply_sent} f (rw e) u d

  run_command-Phase :
      (s : System server) (c : FtlCommand) (conn : ConnectionState)
      → s.frame_task ≡ waiting
      → Up server [] true true s
      → Down server [] true true s
      → Phase server (run_command server c conn s)
  unfolding run_command
  run_command-Phase s disconnect conn f u d = hung f refl u d
  run_command-Phase s dot conn f u d = answering f refl u d
  run_command-Phase s c conn f u d = after_handled-Phase s _ f u d

  reply_sent-Phase :
      (s : System server) (conn : ConnectionState) (reply : Reply) (after : After)
      (down : replies.Channel)
      → s.frame_task ≡ waiting
      → Up server [] true true s
      → Holds replies (reply.command ∷ []) true true down
      → Phase server (reply_done server conn reply after (sent down) s)
  reply_sent-Phase s conn reply dot_sent down f u d = answered f refl u d
  reply_sent-Phase s conn reply reply_sent down f u d = answered f refl u d

  poll_command-Phase : (s : System server) → Phase server s → Phase server (poll_command server s)
  unfolding command_at
  poll_command-Phase s (idle {conn} f c u d) = command_from server (Phase server) s c (
      subst (λ p. Phase server (command_heard server conn p s)) (sym (recv_empty commands u))
        (idle f c u d))
  poll_command-Phase s (offered {conn} f c u d) = command_from server (Phase server) s c (
      subst (λ p. Phase server (command_heard server conn p s)) (sym (recv_empty commands u))
        (offered f c u d))
  poll_command-Phase s (queued {c = given} {conn} f c u d) =
      let (up, e, u') = recv_one commands u in
      command_from server (Phase server) s c (
        subst (λ p. Phase server (command_heard server conn p s)) (sym e)
          (run_command-Phase (record s { up = up }) given conn f u' d))
  poll_command-Phase s (answering {conn} {reply} {after} f c u d) =
      let (down, e, d') = send_empty replies reply.command d in
      command_from server (Phase server) s c (
        subst (λ p. Phase server (reply_done server conn reply after p s)) (sym e)
          (reply_sent-Phase s conn reply after down f u d'))
  poll_command-Phase s (answered {conn} f c u d) = command_from server (Phase server) s c (
      subst (λ p. Phase server (command_heard server conn p s)) (sym (recv_empty commands u))
        (answered f c u d))
  poll_command-Phase s (hung {conn} f c u d) = command_from server (Phase server) s c (
      subst (λ p. Phase server (command_heard server conn p s)) (sym (recv_empty commands u))
        (hung f c u d))
  poll_command-Phase s (stalled {conn} f c u d) = command_from server (Phase server) s c (
      subst (λ p. Phase server (command_heard server conn p s)) (sym (recv_empty commands u))
        (stalled f c u d))
  poll_command-Phase s (crashed f c u d) = command_from server (Phase server) s c (crashed f c u d)
  poll_command-Phase s (closing {conn} f c u d) = command_from server (Phase server) s c (
      subst (λ p. Phase server (command_heard server conn p s)) (sym (recv_dropped commands u))
        (closed f refl (drop_receiver_Holds commands u) (drop_sender_Holds replies d)))
  poll_command-Phase s (closed f c u d) = command_from server (Phase server) s c (closed f c u d)

  Step-Phase : {s t : System server} → Step server s t → Phase server s → Phase server t
  Step-Phase {s} (by_frame next) p = poll_frame-Phase server next s p
  Step-Phase {s} by_command p = poll_command-Phase s p

  pub Reach-Phase : {s t : System server} → Phase server s → Reach server s t → Phase server t
  Reach-Phase p here = p
  Reach-Phase p (step r st) = Step-Phase st (Reach-Phase p r)

  -- Every state that a connection reaches from its start, by any steps of its tasks, is in one of
  -- the phases of `Phase`. A phase fixes at which awaits the two tasks stand, which messages are in
  -- the two channels, and which halves of the channels are alive.
  pub reached-Phase :
      (stream : framed.Frame) (world : World platform) {s : System server}
      → Reach server (init server stream world) s
      → Phase server s
  reached-Phase stream world r = Reach-Phase (init-Phase server stream world) r

  Phase-one_message :
      {s : System server}
      → Phase server s
      → length (commands.fifo s.up).queue + length (replies.fifo s.down).queue ≤ 1
  Phase-one_message (idle f c u d) = rw (u, d) (omega arith)
  Phase-one_message (offered f c u d) = rw (u, d) (omega arith)
  Phase-one_message (queued f c u d) = rw (u, d) (omega arith)
  Phase-one_message (answering f c u d) = rw (u, d) (omega arith)
  Phase-one_message (answered f c u d) = rw (u, d) (omega arith)
  Phase-one_message (hung f c u d) = rw (u, d) (omega arith)
  Phase-one_message (stalled f c u d) = rw (u, d) (omega arith)
  Phase-one_message (crashed f c u d) = rw (u, d) (omega arith)
  Phase-one_message (closing f c u d) = rw (u, d) (omega arith)
  Phase-one_message (closed f c u d) = rw (u, d) (omega arith)

  -- In every state that a connection reaches from its start, by any steps of its tasks, the two
  -- channels together hold at most one message.
  pub one_message :
      (stream : framed.Frame) (world : World platform) {s : System server}
      → Reach server (init server stream world) s
      → length (commands.fifo s.up).queue + length (replies.fifo s.down).queue ≤ 1
  one_message stream world r = Phase-one_message (reached-Phase stream world r)
