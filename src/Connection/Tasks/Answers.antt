-- ===== src/Connection/Tasks/Answers.antt =====
-- `Connection::init` of ingest/src/connection.rs: a command that is answered, from the client's bytes
-- on the socket to the answer.
use project_lightspeed.Base.{
  ◌≡◌, refl, sym, ap, ◌∙◌, subst, true, List, [], ◌∷◌, some, ok, err, done, Text,
}
use project_lightspeed.Rust.Text.{codes}
use project_lightspeed.FtlCodec.{FtlCommand, dot}
use project_lightspeed.Platform.{World}
use project_lightspeed.Runtime.{sent, ready, pending}
use project_lightspeed.Connection.State.{ConnectionState}
use project_lightspeed.Connection.Handler.{send, Reply, Handled, handle_command}
use project_lightspeed.Connection.Frame.{FrameResult, handle_frame_command_in_order, send_each}
use project_lightspeed.Connection.Tasks.{
  Server, System, Next, poll_frame, reading, waiting, listening, replying, After, dot_sent,
  reply_sent, frame_at, command_at, run_command, after_handled, frame_told, frame_handled,
  reply_done, Works, rest, frame_works, command_works, client_sends, port_reply,
}
use project_lightspeed.Connection.Tasks.Channels.{Holds, send_empty, recv_one}
use project_lightspeed.Connection.Tasks.Phases.{
  Up, Down, frame_from, command_from, waiting_stays, listening_stays,
}
use project_lightspeed.Connection.Tasks.Hangs.{
  Quiet, IsHandled, client_sends-frame, delivered, run_handled,
}

module _ (server : Server) where
  open server use {platform, framed, commands, replies}

  -- The client has been sent the items, and the connection waits for the next command.
  pub record Serves (s : System server) (items : List Text) (conn : ConnectionState)
      (world : World platform) : Type 0 where
    pub last : System server
    pub reached : Works server s last
    pub world_left : last.world ≡ world
    pub sent_items : last.frame ≡ (send_each framed items s.frame).0
    pub quiet : Quiet server reading conn last

  pub Works-trans : {s t u : System server} → Works server s t → Works server t u → Works server s u
  Works-trans r rest = r
  Works-trans r (frame_works r' ne f k) = frame_works (Works-trans r r') ne f k
  Works-trans r (command_works r' ne f k) = command_works (Works-trans r r') ne f k

  Serves-after :
      (s t : System server) {items : List Text} {conn : ConnectionState} {world : World platform}
      → Works server s t
      → t.frame ≡ s.frame
      → Serves t items conn world
      → Serves s items conn world
  Serves-after s t {items} r e served = record {
    last = served.last;
    world_left = served.world_left;
    reached = Works-trans r served.reached;
    sent_items = served.sent_items ∙ ap (λ f. (send_each framed items f).0) e;
    quiet = served.quiet;
  }

  frame_wrote :
      (r : FrameResult framed) (s : System server)
      → r.1 ≡ ready (ok tt)
      → frame_handled server (some r) s ≡ record s { frame = r.0; frame_task = reading }
  frame_wrote (f, ready (ok _)) s e = refl
  frame_wrote (f, ready (err why)) s e = cc
  frame_wrote (f, pending) s e = cc

  -- The frame task takes the reply from the channel and writes its items.
  pub told :
      (s : System server) (conn : ConnectionState) (items : List Text)
      → s.frame_task ≡ waiting
      → s.command_task ≡ listening conn
      → Up server [] true true s
      → Down server (send items ∷ []) true true s
      → (send_each framed items s.frame).1 ≡ ready (ok tt)
      → Serves s items conn s.world
  unfolding frame_at
  told s conn items f c u d succeeds =
      let (down, e, d') = recv_one replies d in
      let mid : System server = record s { down = down } in
      let last : System server = record mid {
        frame = (send_each framed items s.frame).0;
        frame_task = reading;
      } in
      let handled =
        ap (λ r. frame_handled server r mid) (handle_frame_command_in_order framed items s.frame) in
      let wrote : frame_handled server (some (send_each framed items s.frame)) mid ≡ last =
        frame_wrote (send_each framed items s.frame) mid succeeds in
      let polled : (next : Next) → poll_frame server next s ≡ last = λ next.
        frame_from server (λ t. t ≡ last) next s f
          (ap (λ p. frame_told server p s) e ∙ handled ∙ wrote) in
      record {
        last = last;
        world_left = refl;
        reached = frame_works rest (λ e. cc (f, e)) polled (listening_stays server s c u);
        sent_items = refl;
        quiet = record { frame_stands = refl; command_stands = c; up_empty = u; down_empty = d' };
      }

  -- From the await on `conn_send.send`: the reply goes through the channel to the client.
  replied :
      (s : System server) (conn : ConnectionState) (items : List Text) (on_error : Text)
      (after : After)
      → s.frame_task ≡ waiting
      → s.command_task ≡ replying conn (record { command = send items; on_error = on_error }) after
      → Up server [] true true s
      → Down server [] true true s
      → (send_each framed items s.frame).1 ≡ ready (ok tt)
      → Serves s items conn s.world
  unfolding command_at
  replied s conn items on_error after f c u d succeeds =
      let reply : Reply = record { command = send items; on_error = on_error } in
      let (down, e, d') = send_empty replies (send items) d in
      let polled =
        command_from server (λ t. t ≡ reply_done server conn reply after (sent down) s) s c
          (ap (λ p. reply_done server conn reply after p s) e) in
      let there =
        command_works rest (λ e. cc (f, e)) (λ next. waiting_stays server next s f d) polled in
      written after down there d'
    where
      sends : Reply
      sends = record { command = send items; on_error = on_error }

      written :
          (after : After) (down : replies.Channel)
          → Works server s (reply_done server conn sends after (sent down) s)
          → Holds replies (send items ∷ []) true true down
          → Serves s items conn s.world
      written dot_sent down r h = Serves-after s _ r refl (
          told (reply_done server conn sends dot_sent (sent down) s) conn items f refl u h succeeds)
      written reply_sent down r h = Serves-after s _ r refl (
          told (reply_done server conn sends reply_sent (sent down) s) conn items f refl u h
            succeeds)

  -- On a quiet connection (`Quiet`: both tasks idle, both channels empty), let the client send a
  -- command other than "." and DISCONNECT, let `handle_command` return a reply to it, and let the
  -- writes of the reply's items succeed. Then the tasks, in whatever order they are polled
  -- (`Works`), and reading nothing more from the client, come to a state where the items are
  -- written and the connection is quiet again, with what the handler has returned.
  pub answered-Serves :
      (s : System server) (c : FtlCommand) (conn : ConnectionState) (h : Handled platform)
      (items : List Text) (on_error : Text)
      → Quiet server reading conn s
      → IsHandled server c
      → handle_command platform c conn s.world ≡ done h
      → h.reply ≡ some (record { command = send items; on_error = on_error })
      → (send_each framed items s.frame).1 ≡ ready (ok tt)
      → Serves (client_sends server c s) items h.conn h.world
  answered-Serves s c conn h items on_error q handled e replies_with succeeds =
      let (up, empty, r) = delivered server s c q in
      let mid : System server = record s { frame_task = waiting; up = up } in
      let ran = run_handled server c conn mid handled ∙ ap (λ x. after_handled server x mid) e in
      let next = after_handled server (done h) mid in
      Serves-after _ next (subst (Works server _) ran r) (sym (client_sends-frame server s c q)) (
        replied next h.conn items on_error reply_sent refl (rw replies_with) empty q.down_empty
          succeeds)

  -- On a quiet connection, whatever its state holds, if the client sends "." and the write
  -- succeeds, it is sent the port, and the connection is quiet again with the same state, in
  -- whatever order the tasks are polled: no step of the handshake has to come before.
  pub dot-Serves :
      (s : System server) (conn : ConnectionState)
      → Quiet server reading conn s
      → (send_each framed (codes "200 hi. Use UDP port 65535\n" ∷ []) s.frame).1 ≡ ready (ok tt)
      → Serves (client_sends server dot s) (codes "200 hi. Use UDP port 65535\n" ∷ []) conn s.world
  unfolding run_command
  dot-Serves s conn q succeeds =
      let (up, empty, r) = delivered server s dot q in
      let next = run_command server dot conn (record s { frame_task = waiting; up = up }) in
      Serves-after _ next r (sym (client_sends-frame server s dot q)) (
        replied next conn (codes "200 hi. Use UDP port 65535\n" ∷ []) port_reply.on_error dot_sent
          refl refl empty q.down_empty succeeds)
