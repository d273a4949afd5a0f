-- ===== src/Tests/Tasks.antt =====
-- Connections on channels in memory, with a socket that takes every byte.
use project_lightspeed.Base.{
  ℕ, ◌%◌, ◌==◌, if◌then◌else◌, Bytes, ◌+◌, ◌≤◌, ◌≡◌, ◌≢◌, inl, inr, refl, List, [], ◌∷◌, ◌++◌, some,
  equal, length, ok, done, panic, Text,
}
use project_lightspeed.Rust.Text.{codes}
use project_lightspeed.Rust.Utf8.{utf8, utf8_char}
use project_lightspeed.FtlCodec.{dot, attribute, hmac, ping, disconnect, connect}
use project_lightspeed.FtlCodec.Fields.{connect_data, attribute_data}
use project_lightspeed.Connection.Handler.{send, Handled, handle_command, connection_reply}
use project_lightspeed.Connection.Handler.Attributes.{video}
use project_lightspeed.Connection.Handler.Replies.{IsBool}
use project_lightspeed.Connection.Keys.Agreement.{IsStored}
use project_lightspeed.Connection.Frame.{
  handle_frame_command, send_loop, send_each, concat, handle_frame_command_in_order,
  handle_frame_command_written,
}
use project_lightspeed.Runtime.{ready}
use project_lightspeed.Connection.Tasks.{
  Turn, frame_turn, command_turn, System, command, end, reading, waiting, frame_returned,
  command_over, listening, init, frame_at, poll_frame, poll_command, client_sends, Works, here,
  step, by_frame, by_command,
}
use project_lightspeed.Connection.Tasks.Invariant.{reached-Phase, one_message}
use project_lightspeed.Connection.Tasks.Phases.{Phase}
use project_lightspeed.Connection.Tasks.Hangs.{Quiet, HangsFrom, hung_forever, unanswered_hangs}
use project_lightspeed.Connection.Tasks.Answers.{Serves, answered-Serves, dot-Serves}
use project_lightspeed.Connection.Tasks.Commands.{
  login-Serves, wrong_login_hangs, bad_flag_hangs, panic_closes, hmac_items, handshake-Serves,
}
use project_lightspeed.Connection.Tasks.Outcomes.{Outcome, command-Outcome}
use project_lightspeed.Platform.{World}
use project_lightspeed.Connection.State.{ConnectionState}
use project_lightspeed.Connection.Tasks.Progress.{Nears, polls-Nears}
use project_lightspeed.Tests.Instances.{checksum, desk, wire_tap, desk_server}
use project_lightspeed.Tests.Keys.{
  key, stored_world, stored, nonce, asked, asked-HasNonce, signature,
}

-- A connection that has handed out a payload and waits for the next command.
abbrev idle : System desk_server
idle = record (init desk_server [] stored_world) { command_task = listening asked }

idle-Quiet : Quiet desk_server reading asked idle
unfolding init
idle-Quiet = record {
  frame_stands = refl;
  command_stands = refl;
  up_empty = refl;
  down_empty = refl;
}

abbrev stuck : System desk_server
stuck = record idle { frame_task = waiting }

stuck-Quiet : Quiet desk_server waiting asked stuck
unfolding init
stuck-Quiet = record {
  frame_stands = refl;
  command_stands = refl;
  up_empty = refl;
  down_empty = refl;
}

hung_forever_example : poll_command desk_server stuck ≡ stuck
hung_forever_example = hung_forever desk_server stuck-Quiet (step here by_command)

unanswered_hangs_example : HangsFrom desk_server (client_sends desk_server disconnect idle)
unanswered_hangs_example = unanswered_hangs desk_server idle disconnect asked idle-Quiet (inl refl)

abbrev ponged : Handled desk
ponged = record {
  conn = asked;
  world = stored_world;
  reply = some (connection_reply (codes "201\n" ∷ []));
  log = [];
}

pinged : handle_command desk ping asked idle.world ≡ done ponged
unfolding handle_command init
pinged = refl

answered-Serves_example :
    Serves desk_server (client_sends desk_server ping idle) (codes "201\n" ∷ []) asked stored_world
answered-Serves_example =
    answered-Serves desk_server idle ping asked ponged (codes "201\n" ∷ [])
      (connection_reply []).on_error idle-Quiet (λ e. cc, λ e. cc) pinged refl refl

dot-Serves_example :
    Serves desk_server
      (client_sends desk_server dot idle)
      (codes "200 hi. Use UDP port 65535\n" ∷ [])
      asked
      idle.world
dot-Serves_example = dot-Serves desk_server idle asked idle-Quiet refl

idle-IsStored : IsStored desk key idle.world
unfolding init
idle-IsStored = stored

signed : desk.hex.decode (utf8 signature) ≡ some (desk.mac.sign key nonce)
unfolding utf8 utf8_char
signed = refl

login-Serves_example :
    Serves desk_server
      (client_sends desk_server (connect (connect_data (codes "7") signature)) idle)
      (codes "200\n" ∷ [])
      asked
      idle.world
login-Serves_example =
    login-Serves desk_server idle asked idle-Quiet (codes "7") signature key nonce idle-IsStored
      asked-HasNonce signed refl

wrong_tag : [] ≢ desk.mac.sign key nonce
wrong_tag e = cc

no_hex : desk.hex.decode (utf8 []) ≡ some []
unfolding utf8
no_hex = refl

wrong_login_hangs_example :
    HangsFrom desk_server (client_sends desk_server (connect (connect_data (codes "7") [])) idle)
wrong_login_hangs_example =
    wrong_login_hangs desk_server idle asked idle-Quiet (codes "7") [] key nonce [] idle-IsStored
      asked-HasNonce no_hex wrong_tag

not-IsBool : ¬ IsBool (codes "yes")
not-IsBool (inl e) = cc
not-IsBool (inr e) = cc

bad_flag_hangs_example :
    HangsFrom desk_server
      (client_sends desk_server (attribute (attribute_data (codes "Video") (codes "yes"))) idle)
bad_flag_hangs_example =
    bad_flag_hangs desk_server idle asked idle-Quiet video (codes "yes") (inl refl) not-IsBool

crashes :
    handle_command desk (connect (connect_data (codes "7") (codes "xy"))) asked idle.world ≡ panic
unfolding handle_command utf8 utf8_char init equal
crashes = refl

panic_closes_example :
    (t : System desk_server) × Works desk_server
      (client_sends desk_server (connect (connect_data (codes "7") (codes "xy"))) idle)
      t
    × (t.frame_task ≡ frame_returned)
    × (t.command_task ≡ command_over)
panic_closes_example =
    panic_closes desk_server idle asked idle-Quiet (connect (connect_data (codes "7") (codes "xy")))
      (λ e. cc, λ e. cc) crashes

-- A command on its way through the first channel.
abbrev started : System desk_server
started = init desk_server [] stored_world

abbrev on_its_way : System desk_server
on_its_way = poll_frame desk_server end (poll_frame desk_server (command hmac) started)

one_message_example : length on_its_way.up.queue + length on_its_way.down.queue ≤ 1
one_message_example =
    one_message desk_server [] stored_world {s = on_its_way}
      (step (step here (by_frame (command hmac))) (by_frame end))

reached-Phase_example : Phase desk_server on_its_way
reached-Phase_example =
    reached-Phase desk_server [] stored_world {s = on_its_way}
      (step (step here (by_frame (command hmac))) (by_frame end))

abbrev items : List Text
items = codes "200 " ∷ codes "c2f0" ∷ codes "\n" ∷ []

handle_frame_command_in_order_example :
    handle_frame_command wire_tap (some (send items)) [] ≡ some (send_each wire_tap items [])
handle_frame_command_in_order_example = handle_frame_command_in_order wire_tap items []

sends :
    handle_frame_command wire_tap (some (send items)) [] ≡ some (codes "200 c2f0\n", ready (ok tt))
unfolding handle_frame_command utf8 utf8_char send_loop
sends = refl

handle_frame_command_written_example : codes "200 c2f0\n" ≡ [] ++ utf8 (concat wire_tap items)
handle_frame_command_written_example =
    handle_frame_command_written wire_tap items [] (codes "200 c2f0\n") sends

command-Outcome_example : Outcome desk_server (client_sends desk_server hmac idle)
command-Outcome_example = command-Outcome desk_server idle hmac asked idle-Quiet

no_failure : (item : Text) (f : Bytes) → (wire_tap.send item f).outcome ≡ ready (ok tt)
no_failure item f = refl

handshake-Serves_example :
    (n : Bytes) × (length n ≡ 128)
    × (conn' : ConnectionState) × (world : World desk) × (answer : Serves desk_server
        (client_sends desk_server hmac idle)
        (hmac_items desk_server n)
        conn'
        world)
    × Serves desk_server
        (client_sends desk_server
          (connect (connect_data (codes "7") (desk.hex.encode (checksum key n))))
          answer.last)
        (codes "200\n" ∷ [])
        conn'
        world
handshake-Serves_example =
    handshake-Serves desk_server idle asked (codes "7") key idle-Quiet idle-IsStored no_failure

on_its_way_waits : on_its_way.frame_task ≢ reading
unfolding poll_frame frame_at init
on_its_way_waits e = cc

polls-Nears_example :
    Nears desk_server on_its_way (poll_frame desk_server end on_its_way)
    × Nears desk_server on_its_way (poll_command desk_server on_its_way)
polls-Nears_example =
    polls-Nears desk_server [] stored_world end {s = on_its_way}
      (step (step here (by_frame (command hmac))) (by_frame end)) on_its_way_waits

-- The tasks are polled in turn.
abbrev alternating : ℕ → Turn desk_server
alternating n = if n % 2 == 0 then frame_turn end else command_turn
