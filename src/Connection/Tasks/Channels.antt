-- ===== src/Connection/Tasks/Channels.antt =====
-- A channel that holds at most one message, as the two tasks use it: what a poll of each half does.
use project_lightspeed.Base.{◌≡◌, refl, ap, ◌∙◌, Bool, true, false, List, [], ◌∷◌, arith}
use project_lightspeed.Runtime.{
  Mpsc, Fifo, SendPoll, sent, send_waits, send_refused, RecvPoll, received, recv_waits, recv_closed,
  map_send, map_recv, send_fifo, recv_fifo,
}

module _ {A : Type 0} (mpsc : Mpsc A) where
  open mpsc use {Channel, fifo}

  -- The channel holds these messages; the flags say whether its halves are alive.
  abbrev pub Holds : List A → Bool → Bool → Channel → Type 0
  Holds queue sender receiver c =
      fifo c
      ≡ record { queue = queue; capacity = 2; sender_open = sender; receiver_open = receiver }

  sent_of :
      (p : SendPoll Channel) {f : Fifo A}
      → map_send fifo p ≡ sent f
      → (c : Channel) × (p ≡ sent c) × (fifo c ≡ f)
  sent_of (sent c) e = (c, refl, ground arith)
  sent_of send_waits e = cc
  sent_of send_refused e = cc

  refused_of : (p : SendPoll Channel) → map_send fifo p ≡ send_refused → p ≡ send_refused
  refused_of (sent c) e = cc
  refused_of send_waits e = cc
  refused_of send_refused e = refl

  received_of :
      (p : RecvPoll A Channel) {a : A} {f : Fifo A}
      → map_recv fifo p ≡ received a f
      → (c : Channel) × (p ≡ received a c) × (fifo c ≡ f)
  received_of (received b c) e = (c, ground arith, ground arith)
  received_of recv_waits e = cc
  received_of recv_closed e = cc

  waits_of : (p : RecvPoll A Channel) → map_recv fifo p ≡ recv_waits → p ≡ recv_waits
  waits_of (received b c) e = cc
  waits_of recv_waits e = refl
  waits_of recv_closed e = cc

  closed_of : (p : RecvPoll A Channel) → map_recv fifo p ≡ recv_closed → p ≡ recv_closed
  closed_of (received b c) e = cc
  closed_of recv_waits e = cc
  closed_of recv_closed e = refl

  module _ {c : Channel} where
    pub send_empty :
        {sender : Bool} (a : A)
        → Holds [] sender true c
        → (c' : Channel) × (mpsc.send a c ≡ sent c') × Holds (a ∷ []) sender true c'
    send_empty a h = sent_of (mpsc.send a c) (mpsc.fifo-send a c ∙ ap (send_fifo a) h)

    pub send_dropped :
        {sender : Bool} (a : A) → Holds [] sender false c → mpsc.send a c ≡ send_refused
    send_dropped a h = refused_of (mpsc.send a c) (mpsc.fifo-send a c ∙ ap (send_fifo a) h)

    pub recv_one :
        {sender receiver : Bool} {a : A}
        → Holds (a ∷ []) sender receiver c
        → (c' : Channel) × (mpsc.recv c ≡ received a c') × Holds [] sender receiver c'
    recv_one h = received_of (mpsc.recv c) (mpsc.fifo-recv c ∙ ap recv_fifo h)

    pub recv_empty : {receiver : Bool} → Holds [] true receiver c → mpsc.recv c ≡ recv_waits
    recv_empty h = waits_of (mpsc.recv c) (mpsc.fifo-recv c ∙ ap recv_fifo h)

    pub recv_dropped : {receiver : Bool} → Holds [] false receiver c → mpsc.recv c ≡ recv_closed
    recv_dropped h = closed_of (mpsc.recv c) (mpsc.fifo-recv c ∙ ap recv_fifo h)

    pub drop_sender_Holds :
        {queue : List A} {sender receiver : Bool}
        → Holds queue sender receiver c
        → Holds queue false receiver (mpsc.drop_sender c)
    drop_sender_Holds h =
        mpsc.fifo-drop_sender c ∙ ap (λ (f : Fifo A). record f { sender_open = false }) h

    pub drop_receiver_Holds :
        {queue : List A} {sender receiver : Bool}
        → Holds queue sender receiver c
        → Holds queue sender false (mpsc.drop_receiver c)
    drop_receiver_Holds h =
        mpsc.fifo-drop_receiver c ∙ ap (λ (f : Fifo A). record f { receiver_open = false }) h
