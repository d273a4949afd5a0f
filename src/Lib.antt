-- ===== src/Lib.antt =====
-- Project Lightspeed, ingest server: the handshake of the FTL streaming protocol (ingest/src).
--
-- A client (OBS) connects over TCP. It asks for an HMAC payload, logs in with the signature of that
-- payload under the stream key, describes its stream by attributes, and starts it with ".". The parts of
-- the server, and the files that model them:
--
-- - ingest/src/ftl_codec.rs, the codec: FtlCodec.antt has `FtlCommand`, `FtlCodec` (`new`, `reset`),
--   `decode`, `encode` and `FtlError`. `decode` is divided as its source is: `find_end` finds
--   "\r\n\r\n", `parse_command` is the chain of tests on the command's text, `parse_connect` and
--   `parse_attribute` are its two longer branches. FtlCodec/Framing, Fields and Parsing are about one
--   command, Decode about one call, Stream about calls one after another, Chunks about a stream that
--   arrives in pieces, RoundTrip about what a client sends.
-- - ingest/src/connection.rs, `ConnectionState`: Connection/State.antt.
-- - ingest/src/connection.rs, `generate_hmac`, `generate_stream_key`, `print_stream_key`,
--   `read_stream_key`: Connection/Keys.antt, with Sampling, Agreement and Returns below it.
-- - ingest/src/connection.rs, `handle_command`: Connection/Handler.antt. `handle_hmac`,
--   `handle_connect` and `handle_attribute` are its branches; `assign` is the match on the attribute's key.
--   What it passes to `sender.send` is part of its result, since every branch ends there.
--   Handler/Attributes, Unknown and Replies are about attributes, Login and Nonce about the handshake.
-- - ingest/src/connection.rs, `handle_frame_command`: Connection/Frame.antt.
-- - ingest/src/connection.rs, `Connection::init`: Connection/Tasks.antt. Each of its two tasks is a
--   state that says at which await it stands. `poll_frame` and `poll_command` run a task from its await
--   to the next one. `Step` lets either task be polled, in any order, on anything that the client sends;
--   `Reach` is any number of steps. `Works` leads from a state to one that the tasks come to in whatever
--   order they are polled; Tasks/Schedules says what it means for a fair schedule.
--   Tasks/Phases, Invariant and Progress are about the states of this system, Hangs, Answers, Outcomes
--   and Commands about what becomes of one command.
-- - ingest/src/main.rs, `main`: Startup.antt, from the parsed options to the accept loop.
--
-- `main` calls `read_stream_key` once, which settles the key in the file "hash"; each accepted socket gets
-- a system of two tasks. The frame task decodes commands and passes them through one channel to the
-- command task, which calls `handle_command` and passes the reply back through the other channel; the
-- frame task writes it with `handle_frame_command` before it reads again.
--
-- A text is the list of its code points, bytes are numbers (Rust.antt models what the code uses of the
-- standard library: UTF-8 with its lossy decoder, `contains`, `split`, `trim`, `HashMap`). A panic is a
-- value of `Exec` (Base/Outcomes), which ends the task; what was logged before it is left out. Code of
-- other packages is a parameter with its documented behaviour: `hex`, `ring::hmac`, `rand` and the files
-- in Platform.antt, `Framed` and the bounded channels of tokio in Runtime.antt. Tests/Instances has a
-- small instance of each.
--
-- The only fuel is that of the loop in `handle_frame_command`: one more than the number of items, as each
-- turn of the loop takes one item. The channels have the capacity 2 of the source.
--
-- Not modelled: the `Debug` text of errors in log lines, and the two `info!` lines of
-- `handle_frame_command`, which repeat the error that it returns; how `Framed` reads from the socket.
-- The loop of `handle_frame_command` is one step: a send that waits for the socket and then goes on is part
-- of it, and one that never ends, since the client takes no more bytes, leaves the frame task at
-- `writing` for ever. The log file gets the lines of the start in one write, after the key has been settled, and none of
-- the connections' lines.
-- Each connection has its own copy of the files and random numbers as they were when it was accepted, so
-- nothing is said of changes that one connection would see from outside while it runs.
-- cli.yml, webrtc (Go), frontend (JavaScript) and contrib are outside this library.
pub mod Base
pub mod Rust
pub mod FtlCodec
pub mod Platform
pub mod Runtime
pub mod Connection
pub mod Startup
pub mod Tests
