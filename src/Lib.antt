-- ===== src/Lib.antt =====
-- rushtle, the Rust program under rushtle/ of this repository: a VPN-like tunnel over the pipes of
-- `kubectl exec`. The client (rushtle/src/client.rs) and the server in the pod
-- (rushtle/src/server.rs) speak the ssnet protocol (rushtle/src/ssnet.rs), framed messages on
-- numbered channels. The client sets the link up and probes it before it forwards anything; the
-- server skips sshuttle's bootstrap, if there is one, and serves frames.
--
-- Which module models what:
--   Base, Text     shared lists, tests, results (Base/Outcomes a predicate behind a step that may not
--                  be possible, Base/Tables channel maps and the tasks to which they lead); the
--                  text functions of Rust's standard library (a string is its list of scalar values,
--                  bytes are numbers; Text/Written how the bytes of an address are written)
--   Stream         a pipe as the code sees it: what arrives and what stands behind the last byte
--                  (closed, silent, or a failing read); what was sent and how much the pipe takes
--   Ssnet          rushtle/src/ssnet.rs: Cmd the CMD_ constants, Frame `read_frame` and
--                  `write_frame`, Sync `read_sync_header`, Connect `parse_connect` and
--                  `encode_connect`, Udp `parse_udp_data` and `encode_udp_data`, Tasks the writer
--                  task and the loop over `read_frame` that both ends have, Carried what the
--                  frames of a sequence carry on a channel
--   Client         rushtle/src/client.rs: Channels the allocator of channel numbers, Probe
--                  `make_probe_payloads` and `probe_once`, Link `ensure_link`, `link_setup` and
--                  `is_dead_pipe_err`, Subnets `split_subnets_by_family`, Run what `run` does in
--                  front of its loops and on a signal (Restores and Refusals the tables that this
--                  leaves),
--                  Forward the match of `run`'s demultiplexer (State what the tasks share, Bounds
--                  their invariant, Events the steps of `accept_loop`, `handle_conn` and the DNS
--                  task; Reached, Queries, Answers, Opening and Closing of Events/ what they lead
--                  to; Flow, Aside, Carried and Delivery the bytes that a connection takes, Routed,
--                  Routes and Heard the same in terms of the frames; Told, Telling, Others, Spoken
--                  and Speech the frames that a connection sends)
--   Server         rushtle/src/server.rs: Hosts `read_etc_hosts` (and `encode_host_list` of
--                  ssnet.rs), Bootstrap `consume_sshuttle_bootstrap`, Session `run` in front of its
--                  loop, Loop the main loop of `run` (State its variables, Bounds their invariant,
--                  Events the steps of the loop and of its tasks; Kept and Reached of Events/ the
--                  states that they lead to; Flow, Frames, Steps and Runs the bytes that a TCP
--                  channel takes, Routed, Tasks and Heard the same in terms of the frames; Said,
--                  Saying, Speech and Given the frames that a task sends; Deadlock the lock of the
--                  map, Serving a connection and a query), Dns `spawn_dns` and `dns_query_one`,
--                  Resolvers `resolvers` and `parse_resolv_conf`
--   Firewall       rushtle/src/firewall/linux.rs: System the programs that it runs, Api what
--                  the client asks of it (rushtle/src/firewall/mod.rs and stub.rs), Linux `install`
--                  and `remove` with their helpers, Nameservers `read_local_nameservers_v4`, Nat
--                  what iptables documents, Expected the rules word by word, Goes, Jumps, Install,
--                  Remove, RoundTrip and Refused the tables that the commands leave, Destination `original_dst`; Macos
--                  rushtle/src/firewall/macos.rs, with Undo `install` and `remove`, Lookup
--                  `original_dst`
--   Shim           rushtle/src/main.rs: `parse_assembler_bytes`, Launch the command line and `main`,
--                  Sessions the server that a command of sshuttle starts
--   Tunnel         the client against the server's main loop: the probe, Connections and Queries how
--                  they are opened, Uploads and Downloads the bytes of a connection
--   Tests          runs on concrete inputs
--
-- How the code's state is modelled. Reads and writes of a pipe are functions of the pipe's state.
-- tokio's `read_exact`, `read_u8`, `read_line` and `write_all` are taken to do what they document
-- on it. `Outcome.pending` is a read that waits for bytes that do not come; under `timeout` it is
-- the timeout. The global FRAME_DELAY_US is the field `delay` of a link, and an argument of
-- `write_frame`; the sleeps are recorded in the output. `anyhow` errors are the type `Error`, with
-- their texts in Client/Link/Errors; the text of tokio's own end-of-file error is the parameter
-- `eof_text`. The two spawns of the remote command are the argument `Remote` of `link_setup`.
-- The server is a record, and each await that lets another task run is the end of a step: an event
-- is a frame that arrives, room in a queue, or something that a socket of a task does. The main
-- loop that waits for room keeps the lock of its map (`Main.offering`), and a task that needs the
-- lock cannot step meanwhile. A task of `spawn_tcp_connect` keeps its queue until it has removed
-- its channel from the map, as the closure keeps the receiver that it captured. Its writer task may
-- end (`out_closes`): from then on what the tasks hand over is lost, and a task that reads a socket
-- ends with the frame that it cannot hand over. The client is
-- modelled the same way; there the writing task of a connection owns the receiver and drops it.
--
-- The firewall code runs programs through a parameter `exec`, which gives their exit status and
-- changes a state that the code does not see; pfctl, getsockopt and the ioctl of pf are parameters
-- too. The properties of the rules of iptables have the hypotheses `IsNat`, what its manual pages say
-- of the flags -N, -L, -F, -A, -D and -X, for a process that is root or runs them through sudo;
-- `Refuses` is a rule that a program does not take. Tests/Tables has tables that satisfy them.
--
-- Fuel. `frames`, `collect` and `consume` recur on fuel; each frame takes at least eight bytes and
-- each record at least one, so one more than the number of bytes is enough. `drain` counts the 17
-- rounds that the code's own loop has at most.
--
-- The command line is parsed by the parameter `parse_cli`, which stands for clap, and the values of
-- the environment are arguments of `main`; the start of the tokio runtime is taken to succeed.
--
-- Not modelled: logging; the bound of the outbound queue;
-- `original_dst` of rushtle/src/firewall/stub.rs, which only fails; the Go plugin (cmd/, proxy/), which
-- starts processes and calls the Kubernetes API.
pub mod Base
pub mod Text
pub mod Stream
pub mod Ssnet
pub mod Client
pub mod Server
pub mod Shim
pub mod Firewall
pub mod Tunnel
pub mod Tests
