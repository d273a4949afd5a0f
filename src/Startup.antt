-- ===== src/Startup.antt =====
-- ingest/src/main.rs: the start of the server, and the loop that accepts connections. The arguments
-- are what `clap` has read for the options of cli.yml.
pub mod Ready
use project_lightspeed.Base.{
  Bool, true, false, List, [], ◌∷◌, ◌++◌, Option, none, some, if◌then◌else◌, Result, ok, err, Exec,
  done, panic, ◌>>=◌, unwrap, Text, Bytes,
}
use project_lightspeed.Rust.Text.{codes}
use project_lightspeed.Platform.{Platform, World}
use project_lightspeed.Connection.State.{LogLine, info}
use project_lightspeed.Connection.Keys.{KeyRead, is_empty, read_stream_key}
use project_lightspeed.Connection.Tasks.{Server, System, init}

pub record Args : Type 0 where
  pub address : Option Text
  pub log_file : Option Text
  pub stream_key : Option Text

abbrev pub default_bind_address : Text
default_bind_address = codes "0.0.0.0"

unfoldable pub bind_address : Option Text → Text
bind_address none = default_bind_address
bind_address (some addr) = if is_empty addr then default_bind_address else addr

pub data Logger : Type 0 where
  term_logger : Logger
  simple_logger : Logger
  write_logger : Text → Logger

-- What the start meets outside: whether there is a terminal, the outcome of `TcpListener::bind` (an
-- error, or none), the outcomes of `accept`, one after another, and the form in which a log file gets
-- a line.
pub record Network (Frame : Type 0) : Type 0 where
  pub has_terminal : Bool
  pub bind : Text → Option Text
  pub accepts : List (Result Frame Text)
  pub log_bytes : LogLine → Bytes

module _ (server : Server) where
  open server use {platform, framed}

  -- `File::create(path).unwrap()`, for the log file.
  abbrev create_log : Text → World platform → Exec (World platform)
  create_log path world = do
    disk ← unwrap (platform.files.create path world.disk)
    done (record world { disk = disk })

  abbrev first_logger : Bool → Logger
  first_logger has_terminal = if has_terminal then term_logger else simple_logger

  unfoldable pub make_loggers :
      Bool → Option Text → World platform → Exec (List Logger × World platform)
  make_loggers has_terminal none world = done (first_logger has_terminal ∷ [], world)
  make_loggers has_terminal (some path) world =
      if is_empty path then done (first_logger has_terminal ∷ [], world) else do
        world' ← create_log path world
        done (first_logger has_terminal ∷ write_logger path ∷ [], world')

  abbrev all_bytes : (LogLine → Bytes) → List LogLine → Bytes
  all_bytes log_bytes [] = []
  all_bytes log_bytes (line ∷ lines) = log_bytes line ++ all_bytes log_bytes lines

  -- What the loggers of the start write to the disk: a `WriteLogger` appends the lines to its file.
  abbrev write_lines : Bytes → List Logger → World platform → World platform
  write_lines bytes [] world = world
  write_lines bytes (write_logger path ∷ loggers) world =
      write_lines bytes loggers
        (record world { disk = platform.files.append path bytes world.disk })
  write_lines bytes (_ ∷ loggers) world = write_lines bytes loggers world

  abbrev listening_log : Text → KeyRead platform → List LogLine
  listening_log address read = read.log ++ info (codes "Listening on " ++ address) ∷ []

  abbrev logged_world :
      Text → List Logger → KeyRead platform → Network framed.Frame → World platform
  logged_world address loggers read network =
      write_lines (all_bytes network.log_bytes (listening_log address read)) loggers read.world

  -- `loop { let (socket, _) = listener.accept().await?; tokio::spawn(… init(socket) …) }`, on the
  -- outcomes so far. An error ends the server.
  unfoldable pub accept_loop :
      List (Result framed.Frame Text) → World platform → List (System server) × Option Text
  accept_loop [] world = ([], none)
  accept_loop (ok socket ∷ accepts) world =
      let (spawned, ended) = accept_loop accepts world in
      (init server socket world ∷ spawned, ended)
  accept_loop (err e ∷ accepts) world = ([], some e)

  -- `failure` is the error that `main` returns, if it has returned.
  pub record Running : Type 0 where
    pub loggers : List Logger
    pub address : Text
    pub world : World platform
    pub log : List LogLine
    pub connections : List (System server)
    pub failure : Option Text

  abbrev listen :
      Text → List Logger → KeyRead platform → Network framed.Frame → Option Text → Running
  listen address loggers read network (some e) = record {
    loggers = loggers;
    address = address;
    world = logged_world address loggers read network;
    log = listening_log address read;
    connections = [];
    failure = some e;
  }
  listen address loggers read network none =
      let world = logged_world address loggers read network in
      let (spawned, ended) = accept_loop network.accepts world in
      record {
        loggers = loggers;
        address = address;
        world = world;
        log = listening_log address read;
        connections = spawned;
        failure = ended;
      }

  unfoldable pub main : Args → Network framed.Frame → World platform → Exec Running
  unfolding bind_address make_loggers
  main args network world = do
    let address = bind_address args.address ++ codes ":8084"
    made ← make_loggers network.has_terminal args.log_file world
    read ← read_stream_key platform true args.stream_key made.1
    done (listen address made.0 read network (network.bind address))
