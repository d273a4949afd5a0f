-- ===== src/Connection/Tasks/Hangs.antt =====
-- `Connection::init` of ingest/src/connection.rs: a command that is not answered leaves the two tasks
-- waiting for each other.
use project_lightspeed.Base.{
  ◌≡◌, ◌≢◌, ◌⊎◌, inl, inr, refl, sym, ap, ◌∙◌, subst, true, [], none, done,
}
use project_lightspeed.FtlCodec.{FtlCommand, dot, disconnect}
use project_lightspeed.Platform.{World}
use project_lightspeed.Connection.State.{ConnectionState}
use project_lightspeed.Connection.Handler.{Handled, handle_command}
use project_lightspeed.Connection.Tasks.{
  Server, System, Next, command, FrameTask, reading, offering, waiting, listening, frame_at,
  poll_frame, command_at, poll_command, run_command, after_handled, frame_offered, command_heard,
  Step, by_frame, by_command, Reach, here, step, Works, rest, frame_works, command_works,
  client_sends,
}
use project_lightspeed.Connection.Tasks.Channels.{Holds, send_empty, recv_one}
use project_lightspeed.Connection.Tasks.Phases.{
  Up, Down, frame_from, command_from, waiting_stays, listening_stays,
}

module _ (server : Server) where
  open server use {platform, framed, commands, replies}

  -- Both tasks are at work, nothing is in the channels, and the frame task stands at `task`.
  pub record Quiet (task : FrameTask) (conn : ConnectionState) (s : System server) : Type 0 where
    pub frame_stands : s.frame_task ≡ task
    pub command_stands : s.command_task ≡ listening conn
    pub up_empty : Up server [] true true s
    pub down_empty : Down server [] true true s

  -- A state that no poll changes.
  pub fixed_forever :
      {s t : System server}
      → ((next : Next) → poll_frame server next s ≡ s)
      → poll_command server s ≡ s
      → Reach server s t
      → t ≡ s
  fixed_forever {s} stays_frame stays_command r = go r
    where
      moved : {t u : System server} → t ≡ s → Step server t u → u ≡ s
      moved e (by_frame next) = rw e (stays_frame next)
      moved e by_command = rw e stays_command

      go : {t : System server} → Reach server s t → t ≡ s
      go here = refl
      go (step r' st) = moved (go r') st

  -- If the frame task waits for a reply, the command task for a command, and both channels are
  -- empty, then no steps of the two tasks change anything, whatever the client sends.
  pub hung_forever :
      {conn : ConnectionState} {s t : System server}
      → Quiet waiting conn s
      → Reach server s t
      → t ≡ s
  hung_forever {s = s} q r =
      fixed_forever (λ next. waiting_stays server next s q.frame_stands q.down_empty)
        (listening_stays server s q.command_stands q.up_empty) r

  client_sends-offering :
      (s : System server) (c : FtlCommand) {conn : ConnectionState}
      → Quiet reading conn s
      → client_sends server c s ≡ record s { frame_task = offering c }
  unfolding frame_at
  client_sends-offering s c q =
      frame_from server (λ t. t ≡ record s { frame_task = offering c }) (command c) s q.frame_stands
        refl

  pub client_sends-frame :
      (s : System server) (c : FtlCommand) {conn : ConnectionState}
      → Quiet reading conn s
      → (client_sends server c s).frame ≡ s.frame
  client_sends-frame s c q = ap (λ (t : System server). t.frame) (client_sends-offering s c q)

  -- A command that the client sends reaches the command task.
  pub delivered :
      (s : System server) (c : FtlCommand) {conn : ConnectionState}
      → Quiet reading conn s
      → (up : commands.Channel) × Holds commands [] true true up
        × Works server
            (client_sends server c s)
            (run_command server c conn (record s { frame_task = waiting; up = up }))
  unfolding frame_at command_at
  delivered s c {conn} q =
      let (up, e, h) = send_empty commands c q.up_empty in
      let (up', e', h') = recv_one commands h in
      let offered : System server = record s { frame_task = offering c } in
      let queued : System server = record s { frame_task = waiting; up = up } in
      let start = client_sends server c s in
      let two : (next : Next) → poll_frame server next offered ≡ queued = λ next.
        frame_from server (λ t. t ≡ queued) next offered refl
          (ap (λ p. frame_offered server c p offered) e) in
      let heard = run_command server c conn (record s { frame_task = waiting; up = up' }) in
      let three =
        command_from server (λ t. t ≡ heard) queued q.command_stands
          (ap (λ p. command_heard server conn p queued) e') in
      let first = subst (Works server start) (client_sends-offering s c q) rest in
      let second : Works server start queued =
        frame_works first (λ e. cc) two
          (listening_stays server offered q.command_stands q.up_empty) in
      (
        up',
        h',
        command_works second (λ e. cc) (λ next. waiting_stays server next queued refl q.down_empty)
            three,
      )

  -- The commands that the command task hands to `handle_command`.
  abbrev pub IsHandled : FtlCommand → Type 0
  IsHandled c = (c ≢ dot) × (c ≢ disconnect)

  pub run_handled :
      (c : FtlCommand) (conn : ConnectionState) (s : System server)
      → IsHandled c
      → run_command server c conn s
        ≡ after_handled server (handle_command platform c conn s.world) s
  unfolding run_command
  run_handled disconnect conn s h = absurd (h.1 refl)
  run_handled dot conn s h = absurd (h.0 refl)
  run_handled _ conn s h = refl

  abbrev pub IsUnanswered : FtlCommand → ConnectionState → World platform → Type 0
  IsUnanswered c conn world =
      (c ≡ disconnect)
      ⊎ (IsHandled c
          × (h : Handled platform) × (handle_command platform c conn world ≡ done h)
          × (h.reply ≡ none))

  -- The tasks come to a state where nothing more is written, where the frame task waits for a reply,
  -- and which no further step changes.
  pub record HangsFrom (s : System server) : Type 0 where
    pub stuck : System server
    pub reached : Works server s stuck
    pub unanswered : stuck.frame ≡ s.frame
    pub still_waits : stuck.frame_task ≡ waiting
    pub for_ever : {t : System server} → Reach server stuck t → t ≡ stuck

  Quiet-HangsFrom :
      (s t : System server) {conn : ConnectionState}
      → Works server s t
      → t.frame ≡ s.frame
      → Quiet waiting conn t
      → HangsFrom s
  Quiet-HangsFrom s t r f q = record {
    stuck = t;
    reached = r;
    unanswered = f;
    still_waits = q.frame_stands;
    for_ever = λ r'. hung_forever q r';
  }

  -- On a quiet connection, let the client send a command that is not answered: DISCONNECT, or one
  -- other than "." for which `handle_command` returns no reply. Then the tasks, in whatever order
  -- they are polled, come to a state where nothing more is written, where the frame task waits for
  -- a reply, and which no further steps change, whatever the client sends.
  pub unanswered_hangs :
      (s : System server) (c : FtlCommand) (conn : ConnectionState)
      → Quiet reading conn s
      → IsUnanswered c conn s.world
      → HangsFrom (client_sends server c s)
  unfolding run_command
  unanswered_hangs s c conn q (inl e) =
      let (up, h, r) = delivered s disconnect q in
      let dropped =
        run_command server disconnect conn (record s { frame_task = waiting; up = up }) in
      let quiet : Quiet waiting conn dropped = record {
        frame_stands = refl;
        command_stands = refl;
        up_empty = h;
        down_empty = q.down_empty;
      } in
      subst (λ k. HangsFrom (client_sends server k s)) (sym e)
        (Quiet-HangsFrom _ dropped r (sym (client_sends-frame s disconnect q)) quiet)
  unanswered_hangs s c conn q (inr (handled, result, e, none_sent)) =
      let (up, h, r) = delivered s c q in
      let mid : System server = record s { frame_task = waiting; up = up } in
      let ran = run_handled c conn mid handled ∙ ap (λ x. after_handled server x mid) e in
      let quiet : Quiet waiting result.conn (after_handled server (done result) mid) = record {
        frame_stands = refl;
        command_stands = rw none_sent;
        up_empty = h;
        down_empty = q.down_empty;
      } in
      Quiet-HangsFrom _ (after_handled server (done result) mid) (subst (Works server _) ran r)
        (sym (client_sends-frame s c q)) quiet
