-- ===== src/Lib.antt =====
-- Verification of snx-edge.
--
-- snx-edge is a VPN gateway that runs in a container on a MikroTik router. Its server
-- (apps/snx-edge-server) keeps users and profiles in SQLite, gives out tokens, drives the tunnel of
-- snxcore, and writes policy routing rules to the router over its REST interface. These modules
-- model the parts of the server that decide, whose files are those of apps/snx-edge-server/src where
-- no other path is given: what it writes to and deletes from the router, who may log in and whose
-- tokens are taken, when it reconnects, and what it hands to the DNS forwarder.
--
-- Common, Errors: texts as lists of code points with the functions of `str` that the source calls,
-- tests, lists; the errors of error.rs without their texts, and the state and error monad in which
-- the handlers are written. An error keeps the state that the effects before it have reached.
--
-- RouterOs: routeros/client.rs and routeros/provisioner.rs. Comment has the structured comments and
-- their matchers, Device the REST service as a parameter, with the laws (Lawful) that RouterOS
-- documents of reads, creations and deletions while no other client writes. Client has the requests,
-- Provisioner the ten `ensure_` steps, Setup the run of the steps with its rollback, teardown, the
-- migration of legacy objects and the two calls of the reconciler. Status has the presence snapshot
-- and the diagnostics. JSON objects are association lists of the keys that the server reads or
-- writes.
--
-- Users: the tables of db.rs as lists of rows, one function per query (Store for users, Rows for
-- sessions and the application state). Each query holds the connection's lock, so that a query is
-- one step. SQL constraints are written out. Ids, times and the password hash are arguments.
--
-- Auth: api/auth.rs and api/users.rs over the state that they share (Server: the store and the cache
-- of token generations of state.rs). Permissions has the roles, Login the logins and tokens,
-- Handlers the user management. A handler is one step: its reads of the clock give one time, and no
-- other request runs inside it; StaleRole takes the issue of tokens alone, over a store that may
-- have changed since the user was read. The token library (Jwt) and bcrypt are parameters; the
-- address of a request's sender is an argument of the handlers; ClientIp has how the server finds
-- it. The two clocks are the time of day in seconds and the monotonic clock in milliseconds.
--
-- Supervisor: supervisor.rs. The tunnel manager, the profiles, the sleep and the shutdown are a
-- parameter (System), which Gateway/Intent fills. The retry loop is recursion on fuel, ten, the
-- number of attempts after which it gives up; Supervisor/Backoff shows that this is enough. Redial
-- has the attempts at a profile as a relation, and Boot the start and the loop over the messages,
-- between which the tunnel and the other handlers act.
--
-- Tunnel: tunnel.rs. Snxcore is a parameter (Core): its connector and its session are handles, and
-- what it answers depends on its state. Params has the settings of a connection and what snxcore is
-- given, Status the counters and the routes. The state of the manager holds, beside the fields of
-- the source, the handlers that have not ended and the labels that were broadcast. Runs has its
-- runs: a call is one step, and so are an event that a handler receives and the closing of its
-- channel; a task that is aborted does nothing more. Safety also takes the start of a tunnel apart.
--
-- Json: values of serde_json, with objects as lists of keys. Profiles: db_secrets.rs, the profiles
-- of db.rs and api/profiles.rs. The cipher with its base64 (Cipher), the serializer (Serde) and TOML
-- (Toml) are parameters, with what their libraries document as hypotheses (Opens, Reads); nonces,
-- ids and times are arguments. Secrets has the encryption, Keys the key, Store the queries, Handlers
-- and Transfer the handlers, Veiled what they show of the secrets. The queries of one call are one
-- step. The tests bring a serializer of their own (Json/TestCodec) that is shown to read what it
-- prints.
--
-- Gateway: api/tunnel.rs, over the state that its handlers share with the supervisor; Intent puts
-- the handlers and the supervisor's reaction together. Guard is the guard on the host of POST
-- /server/info, with the resolver and the parser of addresses as parameters.
--
-- Config: config.rs and api/config.rs. Config has the sections and the checks that a configuration
-- passes when it is loaded, Update the request that changes it, with the cached client of the router
-- of state.rs, which is told by the section that it was built from. TOML and the parser of socket
-- addresses are parameters.
--
-- Routing: api/routing.rs, over the requests of RouterOs. The parsers of addresses of the standard
-- library are parameters, and so is the client that the handlers ask for.
--
-- Servers: the list of servers of the control program (apps/snx-edge-ctl/src/servers.rs), without
-- its file.
--
-- DesktopApi: how the desktop client keeps its tokens (apps/snx-edge-client/src/api.rs). The HTTP
-- library, with the server behind it, is a parameter. A renewal holds a lock and is one step; what
-- other requests do while one is on its way is an argument.
--
-- Net: net.rs, which keeps the rules of iptables in the container. The programs that the server runs
-- and the files that it reads and writes are a parameter (Host), with what iptables documents of a
-- check and of an addition of any rule (Tables).
--
-- Reconciler: reconciler.rs: the decision, the rendering of the forwarder's file, and in Apply what
-- it does to the container and then to the router, on one event of its loop. The status that it
-- reads again for the forwarder is an argument, and so is whether there is a client for the router.
-- The address parsers of the standard library are parameters.
--
-- Logs: the ring buffer of api/logs.rs, whose entries are of any type. The number of pushes, which
-- nothing reads, does not wrap.
--
-- Not modelled: the removal of one interface's rule in net.rs, which nothing calls, and its switch
-- of IP forwarding, the upload of certificates, the handler that shows the configuration and those
-- for events, health and logs, the random password of crypto.rs, the parsing and saving of the
-- configuration, the log layer, the limit on the rate of logins, the rest of the desktop client and
-- of the control program, which call the server over HTTP, and the packaging.
mod Common
pub mod Errors
pub mod RouterOs
pub mod Users
pub mod Auth
pub mod Supervisor
pub mod Tunnel
pub mod Reconciler
pub mod Logs
pub mod Net
pub mod Json
pub mod Profiles
pub mod Gateway
pub mod Config
pub mod DesktopApi
pub mod Routing
pub mod Servers
