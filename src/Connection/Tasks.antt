-- ===== src/Connection/Tasks.antt =====
-- `Connection::init` of ingest/src/connection.rs: the frame task and the command task of one
-- connection, with the two channels between them. A poll runs a task from the await at which it
-- stands to the next one; which task is polled, and what the client sends, is up to the environment.
pub mod Channels
pub mod Phases
pub mod Invariant
pub mod Progress
pub mod Schedules
pub mod Hangs
pub mod Answers
pub mod Outcomes
pub mod Commands
use project_lightspeed.Base.{
  ◌≡◌, ◌≢◌, ◌+◌, zero, suc, ℕ, Bool, true, false, List, [], ◌∷◌, ◌++◌, Option, none, some, Result,
  ok, err, Exec, done, panic, Text,
}
use project_lightspeed.Rust.Text.{codes}
use project_lightspeed.FtlCodec.{FtlCommand, disconnect, dot, FtlError, unsupported, io}
use project_lightspeed.Platform.{Platform, World}
use project_lightspeed.Runtime.{
  Framed, Mpsc, SendPoll, sent, send_waits, send_refused, RecvPoll, received, recv_waits,
  recv_closed, Poll, ready, pending,
}
use project_lightspeed.Connection.State.{
  ConnectionState, new, print, LogLine, info, error, error_about,
}
use project_lightspeed.Connection.Handler.{FrameCommand, send, Reply, Handled, handle_command}
use project_lightspeed.Connection.Frame.{FrameResult, handle_frame_command}

-- What a server's connections run on.
pub record Server : Type 1 where
  pub platform : Platform
  pub framed : Framed
  pub commands : Mpsc FtlCommand
  pub replies : Mpsc FrameCommand

-- What comes of `frame.next().await`: a command, an error, the end of the stream, or a panic of the
-- codec in it.
pub data Next : Type 0 where
  command : FtlCommand → Next
  failure : FtlError → Next
  end : Next
  codec_panic : Next

-- The await at which the frame task stands: `frame.next()`, `frame_send.send`, `frame_receive.recv`, or
-- a `frame.send` that never ends.
pub data FrameTask : Type 0 where
  reading : FrameTask
  offering : FtlCommand → FrameTask
  waiting : FrameTask
  writing : FrameTask
  frame_returned : FrameTask

-- What the command task does when its send is over.
pub data After : Type 0 where
  dot_sent : After
  reply_sent : After

-- The await at which the command task stands: `conn_receive.recv`, or `conn_send.send`. It is over
-- when it returns or panics.
pub data CommandTask : Type 0 where
  listening : ConnectionState → CommandTask
  replying : ConnectionState → Reply → After → CommandTask
  command_over : CommandTask

abbrev error_text : FtlError → Text
error_text (unsupported s) = s
error_text (io e) = e

abbrev pub port_reply : Reply
port_reply = record {
  command = send (codes "200 hi. Use UDP port 65535\n" ∷ []);
  on_error = codes "Error sending to frame task (From: Handle HMAC)";
}

module _ (server : Server) where
  open server use {platform, framed, commands, replies}

  -- `up` is the channel of `frame_send` and `conn_receive`, `down` that of `conn_send` and
  -- `frame_receive`.
  pub record System : Type 0 where
    pub frame_task : FrameTask
    pub command_task : CommandTask
    pub up : commands.Channel
    pub down : replies.Channel
    pub frame : framed.Frame
    pub world : World platform
    pub log : List LogLine

  unfoldable pub init : framed.Frame → World platform → System
  unfolding new
  init stream world = record {
    frame_task = reading;
    command_task = listening new;
    up = commands.channel 2;
    down = replies.channel 2;
    frame = stream;
    world = world;
    log = [];
  }

  abbrev logged : LogLine → System → System
  logged line s = record s { log = s.log ++ line ∷ [] }

  -- A task that ends drops its halves of both channels.
  abbrev end_frame : List LogLine → System → System
  end_frame lines s = record s {
    frame_task = frame_returned;
    up = commands.drop_sender s.up;
    down = replies.drop_receiver s.down;
    log = s.log ++ lines;
  }

  abbrev return_frame : LogLine → System → System
  return_frame line s = end_frame (line ∷ []) s

  abbrev end_command : List LogLine → System → System
  end_command lines s = record s {
    command_task = command_over;
    up = commands.drop_receiver s.up;
    down = replies.drop_sender s.down;
    log = s.log ++ lines;
  }

  abbrev frame_read : Next → System → System
  frame_read (command c) s = record s { frame_task = offering c }
  frame_read (failure e) s =
      return_frame (error_about (codes "There was an error ") (error_text e ∷ [])) s
  frame_read end s = return_frame (error (codes "There was a socket reading error")) s
  frame_read codec_panic s = end_frame [] s

  abbrev frame_offered : FtlCommand → SendPoll commands.Channel → System → System
  frame_offered c (sent up) s = record s { up = up; frame_task = waiting }
  frame_offered c send_waits s = s
  frame_offered c send_refused s =
      return_frame
        (error (codes "There was an error sending the command to the connection Error: ")) s

  -- What follows `handle_frame_command` in the loop. (`none` does not occur: its fuel is enough.)
  abbrev frame_handled : Option (FrameResult framed) → System → System
  frame_handled none s = s
  frame_handled (some (frame, pending)) s = record s { frame = frame; frame_task = writing }
  frame_handled (some (frame, ready (ok _))) s = record s { frame = frame; frame_task = reading }
  frame_handled (some (frame, ready (err e))) s =
      return_frame (error_about (codes "There was an error handing frame command ") (e ∷ []))
        (record s { frame = frame })

  abbrev frame_told : RecvPoll FrameCommand replies.Channel → System → System
  frame_told (received c down) s =
      frame_handled (handle_frame_command framed (some c) s.frame) (record s { down = down })
  frame_told recv_waits s = s
  frame_told recv_closed s = frame_handled (handle_frame_command framed none s.frame) s

  unfoldable pub frame_at : FrameTask → Next → System → System
  frame_at reading next s = frame_read next s
  frame_at (offering c) next s = frame_offered c (commands.send c s.up) s
  frame_at waiting next s = frame_told (replies.recv s.down) s
  frame_at writing next s = s
  frame_at frame_returned next s = s

  -- `next` is what the socket has, if the task is reading.
  unfoldable pub poll_frame : Next → System → System
  unfolding frame_at
  poll_frame next s = frame_at s.frame_task next s

  abbrev after_handled : Exec (Handled platform) → System → System
  after_handled panic s = end_command [] s
  after_handled (done h) s = record s {
    command_task = elim h.reply [
      | none ↦ listening h.conn
      | some reply ↦ replying h.conn reply reply_sent
    ];
    world = h.world;
    log = s.log ++ h.log;
  }

  unfoldable pub run_command : FtlCommand → ConnectionState → System → System
  run_command disconnect conn s = record s { command_task = listening conn }
  run_command dot conn s = record s { command_task = replying conn port_reply dot_sent }
  run_command c conn s = after_handled (handle_command platform c conn s.world) s

  abbrev command_heard : ConnectionState → RecvPoll FtlCommand commands.Channel → System → System
  command_heard conn (received c up) s = run_command c conn (record s { up = up })
  command_heard conn recv_waits s = s
  command_heard conn recv_closed s =
      end_command (error (codes "Nothing received from the frame") ∷ []) s

  abbrev reply_done : ConnectionState → Reply → After → SendPoll replies.Channel → System → System
  reply_done conn reply dot_sent (sent down) s = record s {
    command_task = listening conn;
    down = down;
    log = s.log ++ info (codes "Client connected!") ∷ print conn;
  }
  reply_done conn reply reply_sent (sent down) s = record s {
    command_task = listening conn;
    down = down;
  }
  reply_done conn reply after send_waits s = s
  reply_done conn reply dot_sent send_refused s = end_command (error reply.on_error ∷ []) s
  reply_done conn reply reply_sent send_refused s =
      logged (error reply.on_error) (record s { command_task = listening conn })

  unfoldable pub command_at : CommandTask → System → System
  unfolding run_command
  command_at (listening conn) s = command_heard conn (commands.recv s.up) s
  command_at (replying conn reply after) s =
      reply_done conn reply after (replies.send reply.command s.down) s
  command_at command_over s = s

  unfoldable pub poll_command : System → System
  unfolding command_at
  poll_command s = command_at s.command_task s

  -- The scheduler polls either task, in any order; the client decides what `next` is.
  pub data Step (s : System) : System → Type 0 where
    by_frame : (next : Next) → Step s (poll_frame next s)
    by_command : Step s (poll_command s)

  pub data Reach (s : System) : System → Type 0 where
    here : Reach s s
    step : {t u : System} → Reach s t → Step t u → Reach s u

  -- From a state the tasks come to another, in whatever order they are polled, and read nothing from the
  -- client on the way: at each moment a poll of one task goes on, with the same result whatever the
  -- client has sent, and a poll of the other changes nothing.
  pub data Works (s : System) : System → Type 0 where
    rest : Works s s
    frame_works :
        {t u : System}
        → Works s t
        → t.frame_task ≢ reading
        → ((next : Next) → poll_frame next t ≡ u)
        → poll_command t ≡ t
        → Works s u
    command_works :
        {t u : System}
        → Works s t
        → t.frame_task ≢ reading
        → ((next : Next) → poll_frame next t ≡ t)
        → poll_command t ≡ u
        → Works s u

  -- The client sends a command, and the frame task reads it.
  abbrev pub client_sends : FtlCommand → System → System
  client_sends c s = poll_frame (command c) s

  pub data Turn : Type 0 where
    frame_turn : Next → Turn
    command_turn : Turn

  abbrev pub take_turn : Turn → System → System
  take_turn (frame_turn next) s = poll_frame next s
  take_turn command_turn s = poll_command s

  -- The state after the first `n` polls of a schedule.
  abbrev pub run : (ℕ → Turn) → ℕ → System → System
  run schedule zero s = s
  run schedule (suc n) s = take_turn (schedule n) (run schedule n s)

  -- From every moment on, each task is polled again some time.
  abbrev pub IsFair : (ℕ → Turn) → Type 0
  IsFair schedule =
      (n : ℕ)
      → ((j : ℕ) × (next : Next) × (schedule (n + j) ≡ frame_turn next))
        × ((j : ℕ) × (schedule (n + j) ≡ command_turn))
