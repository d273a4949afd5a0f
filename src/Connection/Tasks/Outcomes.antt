-- ===== src/Connection/Tasks/Outcomes.antt =====
-- `Connection::init` of ingest/src/connection.rs: every way in which the tasks can be done with a
-- command.
use project_lightspeed.Base.{
  ◌≡◌, inl, inr, refl, ap, ◌∙◌, subst, true, false, List, [], ◌∷◌, Option, none, some, Result, ok,
  err, Exec, done, panic, Text,
}
use project_lightspeed.Rust.Text.{codes}
use project_lightspeed.FtlCodec.{FtlCommand, dot, disconnect}
use project_lightspeed.Runtime.{sent, recv_closed}
use project_lightspeed.Connection.State.{ConnectionState}
use project_lightspeed.Connection.Handler.{FrameCommand, send, Reply, Handled, handle_command}
use project_lightspeed.Connection.Frame.{
  handle_frame_command, handle_frame_command_in_order, send_each,
}
use project_lightspeed.Runtime.{Poll, ready, pending, received}
use project_lightspeed.Connection.Tasks.{
  writing, Next, poll_frame, Reach, Server, System, reading, waiting, frame_returned, command_over,
  listening, replying, After, dot_sent, reply_sent, port_reply, frame_at, command_at, run_command,
  after_handled, frame_told, frame_handled, command_heard, reply_done, Works, rest, frame_works,
  command_works, client_sends,
}
use project_lightspeed.Connection.Tasks.Channels.{
  Holds, send_empty, recv_one, recv_dropped, drop_sender_Holds,
}
use project_lightspeed.Connection.Tasks.Phases.{
  Up, Down, frame_from, command_from, waiting_stays, writing_stays, returned_stays, listening_stays,
  over_stays,
}
use project_lightspeed.Connection.Tasks.Hangs.{
  Quiet, IsHandled, HangsFrom, fixed_forever, delivered, run_handled, unanswered_hangs,
}
use project_lightspeed.Connection.Tasks.Answers.{Works-trans, told}

module _ (server : Server) where
  open server use {platform, framed, commands, replies}

  pub data Outcome (s : System server) : Type 0 where
    idle_again :
        (t : System server) {conn : ConnectionState}
        → Works server s t
        → Quiet server reading conn t
        → Outcome s
    hangs : HangsFrom server s → Outcome s
    stalls :
        (t : System server) {conn : ConnectionState}
        → Works server s t
        → Quiet server writing conn t
        → ((u : System server) → Reach server t u → u ≡ t)
        → Outcome s
    over :
        (t : System server)
        → Works server s t
        → t.frame_task ≡ frame_returned
        → t.command_task ≡ command_over
        → Outcome s

  -- The tasks have been busy for some steps, without a hang.
  data Ends (s : System server) : Type 0 where
    idles :
        (t : System server) {conn : ConnectionState}
        → Works server s t
        → Quiet server reading conn t
        → Ends s
    stuck_writing :
        (t : System server) {conn : ConnectionState}
        → Works server s t
        → Quiet server writing conn t
        → Ends s
    closed :
        (t : System server)
        → Works server s t
        → t.frame_task ≡ frame_returned
        → t.command_task ≡ command_over
        → Ends s

  Ends-after : {s t : System server} → Works server s t → Ends t → Ends s
  Ends-after r (idles t r' q) = idles t (Works-trans server r r') q
  Ends-after r (stuck_writing t r' q) = stuck_writing t (Works-trans server r r') q
  Ends-after r (closed t r' f c) = closed t (Works-trans server r r') f c

  Ends-Outcome : {s : System server} → Ends s → Outcome s
  Ends-Outcome (idles t r q) = idle_again t r q
  Ends-Outcome (stuck_writing t r q) = stalls t r q λ u w.
      fixed_forever server (λ next. writing_stays server next t q.frame_stands)
        (listening_stays server t q.command_stands q.up_empty) w
  Ends-Outcome (closed t r f c) = over t r f c

  -- Once the frame task has returned, the command task meets a closed channel and returns too.
  frame_gone :
      (s : System server) {conn : ConnectionState}
      → s.frame_task ≡ frame_returned
      → s.command_task ≡ listening conn
      → Up server [] false true s
      → Ends s
  unfolding command_at
  frame_gone s {conn} f c u =
      let last = command_heard server conn recv_closed s in
      let polled =
        command_from server (λ t. t ≡ last) s c
          (ap (λ p. command_heard server conn p s) (recv_dropped commands u)) in
      closed last
        (command_works rest (λ e. cc (f, e)) (λ next. returned_stays server next s f) polled) f refl

  abbrev told_last :
      System server → List Text → Poll (Result (Unit {0}) Text) → replies.Channel → System server
  told_last s items r down =
      frame_handled server (some ((send_each framed items s.frame).0, r)) (record s { down = down })

  told-Works :
      (s : System server) (items : List Text) {conn : ConnectionState} {down : replies.Channel}
      {r : Poll (Result (Unit {0}) Text)}
      → s.frame_task ≡ waiting
      → s.command_task ≡ listening conn
      → Up server [] true true s
      → replies.recv s.down ≡ received (send items) down
      → (send_each framed items s.frame).1 ≡ r
      → Works server s (told_last s items r down)
  unfolding frame_at
  told-Works s items {down = down} {r = r} f c u e same =
      let last = told_last s items r down in
      let told_result =
        ap (λ r. frame_handled server r (record s { down = down }))
          (handle_frame_command_in_order framed items s.frame
            ∙ ap (λ r. some ((send_each framed items s.frame).0, r)) same) in
      let polled : (next : Next) → poll_frame server next s ≡ last = λ next.
        frame_from server (λ t. t ≡ last) next s f
          (ap (λ p. frame_told server p s) e ∙ told_result) in
      frame_works rest (λ e. cc (f, e)) polled (listening_stays server s c u)

  -- The frame task takes the reply from the channel; it writes the items, or the socket fails.
  told_Ends :
      (s : System server) (conn : ConnectionState) (items : List Text)
      → s.frame_task ≡ waiting
      → s.command_task ≡ listening conn
      → Up server [] true true s
      → Down server (send items ∷ []) true true s
      → (r : Poll (Result (Unit {0}) Text)) → (send_each framed items s.frame).1 ≡ r
      → Ends s
  unfolding frame_at
  told_Ends s conn items f c u d (ready (ok _)) wrote =
      let served = told server s conn items f c u d wrote in
      idles served.last served.reached served.quiet
  told_Ends s conn items f c u d (ready (err why)) failed =
      let (down, e, d') = recv_one replies d in
      Ends-after (told-Works s items f c u e failed) (
        frame_gone (told_last s items (ready (err why)) down) refl c (drop_sender_Holds commands u))
  told_Ends s conn items f c u d pending waits =
      let (down, e, d') = recv_one replies d in
      stuck_writing (told_last s items pending down) (told-Works s items f c u e waits)
        (record { frame_stands = refl; command_stands = c; up_empty = u; down_empty = d' })

  replied_Ends :
      (s : System server) (conn : ConnectionState) (items : List Text) (on_error : Text)
      (after : After)
      → s.frame_task ≡ waiting
      → s.command_task ≡ replying conn (record { command = send items; on_error = on_error }) after
      → Up server [] true true s
      → Down server [] true true s
      → Ends s
  unfolding command_at
  replied_Ends s conn items on_error after f c u d =
      let reply : Reply = record { command = send items; on_error = on_error } in
      let (down, e, d') = send_empty replies (send items) d in
      let polled =
        command_from server (λ t. t ≡ reply_done server conn reply after (sent down) s) s c
          (ap (λ p. reply_done server conn reply after p s) e) in
      Ends-after
        (command_works rest (λ e. cc (f, e)) (λ next. waiting_stays server next s f d) polled)
        (sent_on after down d')
    where
      sent_on :
          (after : After) (down : replies.Channel)
          → Holds replies (send items ∷ []) true true down
          → Ends (
              reply_done server conn
                (record { command = send items; on_error = on_error })
                after
                (sent down)
                s)
      sent_on dot_sent down h = told_Ends _ conn items f refl u h _ refl
      sent_on reply_sent down h = told_Ends _ conn items f refl u h _ refl

  -- The command task panics, and the frame task meets a closed channel.
  crashed_Ends :
      (s : System server)
      → s.frame_task ≡ waiting
      → Up server [] true true s
      → Down server [] true true s
      → Ends (after_handled server panic s)
  unfolding frame_at handle_frame_command
  crashed_Ends s f u d =
      let crashed = after_handled server panic s in
      let last = frame_told server recv_closed crashed in
      let polled : (next : Next) → poll_frame server next crashed ≡ last = λ next.
        frame_from server (λ t. t ≡ last) next crashed f
          (ap (λ p. frame_told server p crashed)
            (recv_dropped replies (drop_sender_Holds replies d))) in
      closed last (frame_works rest (λ e. cc (f, e)) polled (over_stays server crashed refl)) refl
        refl

  handled-Outcome :
      (s : System server) (c : FtlCommand) (conn : ConnectionState)
      → Quiet server reading conn s
      → IsHandled server c
      → (e : Exec (Handled platform)) → handle_command platform c conn s.world ≡ e
      → Outcome (client_sends server c s)
  handled-Outcome s c conn q handled e same =
      let (up, empty, r) = delivered server s c q in
      let mid : System server = record s { frame_task = waiting; up = up } in
      let ran = run_handled server c conn mid handled ∙ ap (λ x. after_handled server x mid) same in
      finish e up empty (subst (Works server _) ran r) same
    where
      finish :
          (e : Exec (Handled platform)) (up : commands.Channel)
          → Holds commands [] true true up
          → Works server
              (client_sends server c s)
              (after_handled server e (record s { frame_task = waiting; up = up }))
          → handle_command platform c conn s.world ≡ e
          → Outcome (client_sends server c s)
      finish panic up u r same = Ends-Outcome (
          Ends-after r
            (crashed_Ends (record s { frame_task = waiting; up = up }) refl u q.down_empty))
      finish (done h) up u r same = go h.reply refl
        where
          go : (reply : Option Reply) → h.reply ≡ reply → Outcome (client_sends server c s)
          go none silent =
              hangs (unanswered_hangs server s c conn q (inr (handled, h, same, silent)))
          go (some reply) answer = replies_with reply.command refl
            where
              replies_with :
                  (command : FrameCommand)
                  → reply.command ≡ command
                  → Outcome (client_sends server c s)
              replies_with (send items) is = Ends-Outcome (
                  Ends-after r (
                    replied_Ends
                      (after_handled server (done h) (record s { frame_task = waiting; up = up }))
                      h.conn items reply.on_error reply_sent refl
                      (rw answer (
                        ap
                          (λ k.
                            replying h.conn (record { command = k; on_error = reply.on_error })
                              reply_sent)
                          is))
                      u q.down_empty))

  -- On a quiet connection, let the client send any command. Then the tasks, in whatever order they
  -- are polled, and reading nothing more from the client, come to one of four ends: the connection
  -- is quiet again; it hangs for ever with nothing more written; a write never ends, and no further
  -- steps change anything; or both tasks are over.
  pub command-Outcome :
      (s : System server) (c : FtlCommand) (conn : ConnectionState)
      → Quiet server reading conn s
      → Outcome (client_sends server c s)
  unfolding run_command
  command-Outcome s disconnect conn q =
      hangs (unanswered_hangs server s disconnect conn q (inl refl))
  command-Outcome s dot conn q =
      let (up, empty, r) = delivered server s dot q in
      Ends-Outcome (
        Ends-after r (
          replied_Ends (run_command server dot conn (record s { frame_task = waiting; up = up }))
            conn (codes "200 hi. Use UDP port 65535\n" ∷ []) port_reply.on_error dot_sent refl refl
            empty q.down_empty))
  command-Outcome s c conn q = handled-Outcome s c conn q (λ e. cc, λ e. cc) _ refl
