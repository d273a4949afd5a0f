-- ===== src/Runtime.antt =====
-- What the two tasks of a connection use of tokio: the framed socket of `tokio_util` and the bounded
-- channels of `tokio::sync::mpsc`, as operations with their documented behaviour.
use project_lightspeed.Base.{
  ℕ, ◌<◌, ◌≡◌, Bool, true, false, List, [], ◌∷◌, ◌++◌, Result, ok, length, ltb, if◌then◌else◌, not,
  Bytes, Text,
}
use project_lightspeed.FtlCodec.{new, encode}

-- `std::task::Poll`
pub data Poll (A : Type 0) : Type 0 where
  ready : A → Poll A
  pending : Poll A

pub record Sent (Frame : Type 0) : Type 0 where
  pub frame : Frame
  pub outcome : Poll (Result (Unit {0}) Text)

-- `Framed<TcpStream, FtlCodec>` as a sink: `send` encodes an item with the codec and flushes it to
-- the socket. `written` is what the socket has taken; a failure is given by its `Debug` text. The
-- outcome is what the send comes to: `pending` if it never ends, since the client takes no more bytes.
pub record Framed : Type 1 where
  pub Frame : Type 0
  pub written : Frame → Bytes
  pub send : Text → Frame → Sent Frame
  pub send_written :
      (item : Text) (f : Frame)
      → (send item f).outcome ≡ ready (ok tt)
      → written (send item f).frame ≡ (encode new item (written f)).1

pub data SendPoll (C : Type 0) : Type 0 where
  sent : C → SendPoll C
  send_waits : SendPoll C
  send_refused : SendPoll C

pub data RecvPoll (A C : Type 0) : Type 0 where
  received : A → C → RecvPoll A C
  recv_waits : RecvPoll A C
  recv_closed : RecvPoll A C

-- The documented state of a channel: a bounded queue, and which halves are alive.
pub record Fifo (A : Type 0) : Type 0 where
  pub queue : List A
  pub capacity : ℕ
  pub sender_open : Bool
  pub receiver_open : Bool

module _ {A : Type 0} where
  abbrev pub send_fifo : A → Fifo A → SendPoll (Fifo A)
  send_fifo a c =
      if not c.receiver_open
      then send_refused
      else if ltb (length c.queue) c.capacity
      then sent (record c { queue = c.queue ++ a ∷ [] })
      else send_waits

  abbrev pub recv_queue : List A → Fifo A → RecvPoll A (Fifo A)
  recv_queue [] c = if c.sender_open then recv_waits else recv_closed
  recv_queue (a ∷ rest) c = received a (record c { queue = rest })

  abbrev pub recv_fifo : Fifo A → RecvPoll A (Fifo A)
  recv_fifo c = recv_queue c.queue c

module _ {C D : Type 0} where
  abbrev pub map_send : (C → D) → SendPoll C → SendPoll D
  map_send f (sent c) = sent (f c)
  map_send f send_waits = send_waits
  map_send f send_refused = send_refused

  abbrev pub map_recv : {A : Type 0} → (C → D) → RecvPoll A C → RecvPoll A D
  map_recv f (received a c) = received a (f c)
  map_recv f recv_waits = recv_waits
  map_recv f recv_closed = recv_closed

-- A poll of `send` or `recv`, and what dropping a half does, on the documented state.
pub record Mpsc (A : Type 0) : Type 1 where
  pub Channel : Type 0
  pub fifo : Channel → Fifo A
  pub channel : ℕ → Channel
  pub send : A → Channel → SendPoll Channel
  pub recv : Channel → RecvPoll A Channel
  pub drop_sender : Channel → Channel
  pub drop_receiver : Channel → Channel
  pub fifo-channel :
      (n : ℕ)
      → 0 < n
      → fifo (channel n)
        ≡ record { queue = []; capacity = n; sender_open = true; receiver_open = true }
  pub fifo-send : (a : A) (c : Channel) → map_send fifo (send a c) ≡ send_fifo a (fifo c)
  pub fifo-recv : (c : Channel) → map_recv fifo (recv c) ≡ recv_fifo (fifo c)
  pub fifo-drop_sender :
      (c : Channel) → fifo (drop_sender c) ≡ record (fifo c) { sender_open = false }
  pub fifo-drop_receiver :
      (c : Channel) → fifo (drop_receiver c) ≡ record (fifo c) { receiver_open = false }
