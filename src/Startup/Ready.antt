-- ===== src/Startup/Ready.antt =====
-- What holds once the server listens.
use project_lightspeed.Base.{
  Bool, true, false, ◌≢◌, ◌∙◌, ◌≡◌, refl, ap, ◌⊎◌, inl, inr, All, subst, List, [], ◌∷◌, ◌++◌, map,
  Option, none, some, Result, ok, err, done, >>=-eq-done, done-injective, Bytes, Text,
}
use project_lightspeed.Rust.Text.{codes}
use project_lightspeed.Rust.Utf8.{IsScalar}
use project_lightspeed.Platform.{World, text_of}
use project_lightspeed.Connection.Keys.{hash_path, KeyRead, read_stream_key}
use project_lightspeed.Connection.Keys.Agreement.{IsStored, startup-IsStored}
use project_lightspeed.Connection.Tasks.{Server, System, init}
use project_lightspeed.Startup.{
  Args, Logger, Network, Running, main, create_log, first_logger, term_logger, simple_logger,
  write_logger, write_lines, accept_loop, bind_address, make_loggers, listen,
}

module _ (server : Server) where
  open server use {platform, framed}

  abbrev accepted : List framed.Frame → List (Result framed.Frame Text)
  accepted sockets = map ok sockets

  -- Every socket before the first failing `accept` gets a connection of its own, and that failure
  -- ends the server.
  pub record Serves (accepts : List (Result framed.Frame Text)) (world : World platform)
      (connections : List (System server)) (failure : Option Text) : Type 0 where
    pub sockets : List framed.Frame
    pub each_served : connections ≡ map (λ s. init server s world) sockets
    pub up_to_failure :
        ((accepts ≡ accepted sockets) × (failure ≡ none))
        ⊎ ((e : Text) × (more : List (Result framed.Frame Text)) × (accepts
              ≡ accepted sockets ++ err e ∷ more)
            × (failure ≡ some e))

  accept_loop-Serves :
      (accepts : List (Result framed.Frame Text)) (world : World platform)
      → Serves accepts world
          (accept_loop server accepts world).0
          (accept_loop server accepts world).1
  unfolding accept_loop
  accept_loop-Serves [] world = record {
    sockets = [];
    each_served = refl;
    up_to_failure = inl (refl, refl);
  }
  accept_loop-Serves (err e ∷ accepts) world = record {
    sockets = [];
    each_served = refl;
    up_to_failure = inr (e, accepts, refl, refl);
  }
  accept_loop-Serves (ok socket ∷ accepts) world =
      let rest = accept_loop-Serves accepts world in
      record {
        sockets = socket ∷ rest.sockets;
        each_served = ap (◌∷◌ (init server socket world)) rest.each_served;
        up_to_failure = elim rest.up_to_failure [
          | inl (all, none_failed) ↦ inl (ap (◌∷◌ (ok socket)) all, none_failed)
          | inr (e, more, split, failed) ↦ inr (e, more, ap (◌∷◌ (ok socket)) split, failed)
        ];
      }

  -- The address that the option asks for.
  abbrev pub AddressFor : Option Text → Text → Type 0
  AddressFor option address =
      (((option ≡ none) ⊎ (option ≡ some [])) × (address ≡ codes "0.0.0.0:8084"))
      ⊎ ((host : Text) × (option ≡ some host) × (host ≢ []) × (address ≡ host ++ codes ":8084"))

  bind_address-AddressFor :
      (option : Option Text) → AddressFor option (bind_address option ++ codes ":8084")
  unfolding bind_address
  bind_address-AddressFor none = inl (inl refl, refl)
  bind_address-AddressFor (some []) = inl (inr refl, refl)
  bind_address-AddressFor (some (c ∷ host)) = inr (c ∷ host, refl, λ e. cc, refl)

  -- The logger writes to no file but one apart from the key's.
  abbrev IsApart : Logger → Type 0
  IsApart (write_logger path) = platform.files.Apart path hash_path
  IsApart _ = Unit {0}

  first-IsApart : (has_terminal : Bool) → IsApart (first_logger server has_terminal)
  first-IsApart true = tt
  first-IsApart false = tt

  make_loggers-IsApart :
      (has_terminal : Bool) (log_file : Option Text) (world : World platform)
      {made : List Logger × World platform}
      → ((path : Text) → log_file ≡ some path → platform.files.Apart path hash_path)
      → make_loggers server has_terminal log_file world ≡ done made
      → All IsApart made.0
  unfolding make_loggers
  make_loggers-IsApart has_terminal none world apart e =
      subst (λ m. All IsApart m.0) (done-injective e) ((first-IsApart has_terminal, tt))
  make_loggers-IsApart has_terminal (some []) world apart e =
      subst (λ m. All IsApart m.0) (done-injective e) ((first-IsApart has_terminal, tt))
  make_loggers-IsApart has_terminal (some (c ∷ path)) world apart e =
      let (world', e1, e2) = >>=-eq-done (create_log server (c ∷ path) world) _ e in
      subst (λ m. All IsApart m.0) (done-injective e2)
        ((first-IsApart has_terminal, (apart (c ∷ path) refl, tt)))

  write_lines-IsStored :
      (key bytes : Bytes) (loggers : List Logger) (world : World platform)
      → All IsApart loggers
      → IsStored platform key world
      → IsStored platform key (write_lines server bytes loggers world)
  write_lines-IsStored key bytes [] world apart stored = stored
  write_lines-IsStored key bytes (write_logger path ∷ loggers) world apart (file, r, d) =
      write_lines-IsStored key bytes loggers _ apart.1 (
        file,
        ap text_of (platform.files.read-append path hash_path bytes world.disk apart.0) ∙ r,
        d,
      )
  write_lines-IsStored key bytes (term_logger ∷ loggers) world apart stored =
      write_lines-IsStored key bytes loggers world apart.1 stored
  write_lines-IsStored key bytes (simple_logger ∷ loggers) world apart stored =
      write_lines-IsStored key bytes loggers world apart.1 stored

  -- What a running server has: a key that its connections can read, the address that the arguments
  -- ask for, and a connection for each socket, if the address could be bound.
  pub record IsReady (args : Args) (network : Network framed.Frame) (r : Running server)
      : Type 0 where
    pub key : Bytes
    pub stored : IsStored platform key r.world
    pub bound_to : AddressFor args.address r.address
    pub serves :
        ((e : Text) × (network.bind r.address ≡ some e)
          × (r.failure ≡ some e)
          × (r.connections ≡ []))
        ⊎ ((network.bind r.address ≡ none) × Serves network.accepts r.world r.connections r.failure)

  listen-IsReady :
      (args : Args) (loggers : List Logger) (read : KeyRead platform)
      (network : Network framed.Frame) (bound : Option Text)
      → All IsApart loggers
      → IsStored platform read.key read.world
      → network.bind (bind_address args.address ++ codes ":8084") ≡ bound
      → IsReady args network
          (listen server (bind_address args.address ++ codes ":8084") loggers read network bound)
  listen-IsReady args loggers read network none apart stored b = record {
    key = read.key;
    stored = write_lines-IsStored read.key _ loggers read.world apart stored;
    bound_to = bind_address-AddressFor args.address;
    serves = inr (b, accept_loop-Serves network.accepts _);
  }
  listen-IsReady args loggers read network (some e) apart stored b = record {
    key = read.key;
    stored = write_lines-IsStored read.key _ loggers read.world apart stored;
    bound_to = bind_address-AddressFor args.address;
    serves = inl (e, b, refl, refl);
  }

  -- Let a key given by the option be a text of Unicode scalar values, and let a log file given by
  -- the option be apart from the file "hash". If the start of the server does not panic, then the
  -- file "hash" holds a key, whatever is written to the log file, and the address is the host that
  -- the option gives, or 0.0.0.0 if it gives none or the empty one, with port 8084. If it cannot be
  -- bound, `main` returns that error with no connection. Otherwise every socket before the first
  -- failing `accept` has a connection of its own, and that failure is the error that `main`
  -- returns.
  pub main-IsReady :
      (args : Args) (network : Network framed.Frame) (world : World platform) (r : Running server)
      → ((given : Text) → args.stream_key ≡ some given → All IsScalar given)
      → ((path : Text) → args.log_file ≡ some path → platform.files.Apart path hash_path)
      → main server args network world ≡ done r
      → IsReady args network r
  unfolding main
  main-IsReady args network world r scalars apart e =
      let (made, e1, rest) =
        >>=-eq-done (make_loggers server network.has_terminal args.log_file world) _ e in
      let (read, e2, last) =
        >>=-eq-done (read_stream_key platform true args.stream_key made.1) _ rest in
      let stored = startup-IsStored platform args.stream_key made.1 read scalars e2 in
      subst (IsReady args network) (done-injective last) (
        listen-IsReady args made.0 read network _
          (make_loggers-IsApart network.has_terminal args.log_file world apart e1) stored refl)
