-- ===== src/Tunnel/Connections.antt =====
-- rushtle/src/client.rs and rushtle/src/server.rs together: a connection.
use kubectl_sshuttle.Base.{
  ℕ, ◌≤◌, ◌≡◌, Bool, true, false, Option, some, [], ◌∷◌, ◌++◌, arith, if◌then◌else◌, length,
  get_elem?, All, Lacks, ok,
}
use kubectl_sshuttle.Text.Utf8.{Str, IsScalar}
use kubectl_sshuttle.Ssnet.Cmd
use kubectl_sshuttle.Ssnet.Frame.{Frame, frame, af_inet, af_inet6}
use kubectl_sshuttle.Ssnet.Connect.{
  ConnectTarget, u16_max, parse_connect, encode_connect, parse_connect-encode_connect,
}
use kubectl_sshuttle.Client.Subnets.{is_v6}
use kubectl_sshuttle.Client.Forward.State.{Client, Accept, Address, unlocked}
use kubectl_sshuttle.Client.Forward.Events.{accepts, inserts, at_conn, opens, accept_of, client_run}
use kubectl_sshuttle.Client.Forward.Events.Opening.{open_conn, opened}
use kubectl_sshuttle.Server.Loop.State.{Server, Main}
use kubectl_sshuttle.Server.Loop.Events.{arrives, step}
use kubectl_sshuttle.Server.Loop.Events.Serving.{new_task, step-connect}

-- the target that the server is to connect to
abbrev pub target_of : Address → ConnectTarget
target_of (host, port) = record {
  family = some (if is_v6 host then af_inet6 else af_inet);
  host = host;
  port = port;
}

target_lem :
    (host : Str) (port : ℕ)
    → port ≤ u16_max
    → All IsScalar host
    → Lacks b',' host
    → parse_connect (encode_connect (if is_v6 host then af_inet6 else af_inet) host port)
      ≡ ok (target_of (host, port))
target_lem host port hp scalars lacks =
    parse_connect-encode_connect (if is_v6 host then af_inet6 else af_inet) host port
      (small (is_v6 host)) hp scalars lacks
  where
    small : (b : Bool) → (if b then af_inet6 else af_inet) ≤ u16_max
    small true = omega arith
    small false = omega arith

-- A connection that the client accepts reaches the server: the frame that opens it, given to a
-- server that reads, starts a task that is to connect to the connection's original destination, with
-- the address family that the address has; on both sides the channel leads to the connection.
pub connection_reaches :
    (c : Client) (v6 : Bool) (host : Str) (port : ℕ) (hosts : Option Str) (binds : Bool)
    (s : Server)
    → accept_of c v6 ≡ Accept.listening
    → unlocked c.demux ≡ true
    → c.out_open ≡ true
    → s.main ≡ Main.reading
    → port ≤ u16_max
    → All IsScalar host
    → Lacks b',' host
    → (d : Client) × (f : Frame) × (s' : Server) × (client_run
          (accepts v6 (host, port) ∷ inserts v6 ∷ at_conn (length c.conns) opens ∷ [])
          c
        ≡ some d)
      × (d.out ≡ c.out ++ f ∷ [])
      × (d.channels c.next ≡ some (length c.conns))
      × (get_elem? d.conns (length c.conns) ≡ some (open_conn c.next (host, port)))
      × (step hosts (arrives binds f) s ≡ some s')
      × (s'.tcp c.next ≡ some (length s.tasks))
      × (get_elem? s'.tasks (length s.tasks) ≡ some (new_task c.next (target_of (host, port))))
connection_reaches c v6 host port hosts binds s idle free on reads hp scalars lacks =
    let (d, ran, out, leads, there) = opened c v6 (host, port) idle free on in
    let payload = encode_connect (if is_v6 host then af_inet6 else af_inet) host port in
    let (s', served, task, leads') =
      step-connect hosts binds s c.next payload (target_of (host, port)) reads
        (target_lem host port hp scalars lacks) in
    (d, frame c.next Cmd.tcp_connect payload, s', ran, out, leads, there, served, leads', task)
