-- ===== src/Server/Loop.antt =====
-- rushtle/src/server.rs, the main loop, and the tasks that it spawns. Tasks run in any order: a
-- step is one event, of the main loop or of a task, between two points where it can wait.
pub mod State
pub mod Events
pub mod Bounds
use kubectl_sshuttle.Base.{
  get_elem?, set, ParseError, ℕ, suc, ◌+◌, ◌≡◌, refl, Bool, true, false, not, ◌||◌, ◌&&◌, Option,
  none, some, List, [], ◌∷◌, ◌++◌, ltb, leb, ◌==◌, if◌then◌else◌, length, codes, Result, ok, err,
}
use kubectl_sshuttle.Text.Utf8.{Bytes, Str, from_utf8}
use kubectl_sshuttle.Text.Slices.{trim}
use kubectl_sshuttle.Text.Numbers.{parse_uint}
use kubectl_sshuttle.Ssnet.Cmd
use kubectl_sshuttle.Ssnet.Frame.{Frame, frame, af_inet, chunk}
use kubectl_sshuttle.Ssnet.Connect.{ConnectTarget, parse_connect, u16_max}
use kubectl_sshuttle.Ssnet.Udp.{parse_udp_data, encode_udp_data}
use kubectl_sshuttle.Server.Hosts.{read_etc_hosts, encode_host_list}
use State.{Server, Main, TcpTask, UdpTask, Phase, capacity, put, erase, is_dropped}

-- a frame on the queue of the writer task
abbrev pub handed : Bool → List Frame → Frame → List Frame
handed true out f = out ++ f ∷ []
handed false out f = out

-- `out_tx.send(f).await`
pub emit : Server → Frame → Server
emit s f = record s { out = handed s.out_open s.out f }

pub set_task : Server → ℕ → TcpTask → Server
set_task s n t = record s { tasks = set s.tasks n t }

-- `inbound_tx.send(buf).await` under the lock of the map: an error if the receiver is dropped, and a
-- wait if the queue is full
pub offer : Server → ℕ → Bytes → Option TcpTask → Server
unfolding is_dropped set_task
offer s n buf none = s
offer s n buf (some t) =
    if is_dropped t
    then record s { main = Main.reading }
    else if ltb (length t.queue) capacity
    then record (set_task s n (record t { queue = t.queue ++ buf ∷ [] })) { main = Main.reading }
    else record s { main = Main.offering n buf }

-- the receiving task of a UDP channel never ends before its sender is dropped
pub offer_udp : Server → ℕ → Str × ℕ × Bytes → Option UdpTask → Server
offer_udp s n item none = s
offer_udp s n item (some t) =
    if ltb (length t.queue) capacity
    then record s {
      udp_tasks = set s.udp_tasks n (record t { queue = t.queue ++ item ∷ [] });
      main = Main.reading;
    }
    else record s { main = Main.offering_udp n item }

-- `spawn_tcp_connect`
pub spawn_tcp : Server → ℕ → ConnectTarget → Server
spawn_tcp s channel target = record s {
  tcp = put s.tcp channel (length s.tasks);
  tasks =
      s.tasks
      ++ (record {
        channel = channel;
        target = target;
        phase = Phase.connecting;
        queue = [];
        written = [];
        writer_live = true;
        reader_live = true;
      })
        ∷ [];
}

pub on_connect : Server → Frame → Result ParseError ConnectTarget → Server
unfolding spawn_tcp emit
on_connect s f (ok target) = spawn_tcp s f.channel target
on_connect s f (err e) = emit s (frame f.channel Cmd.tcp_stop_sending [])

pub on_data : Server → Bytes → Option ℕ → Server
unfolding offer
on_data s payload none = s
on_data s payload (some n) = offer s n payload (get_elem? s.tasks n)

-- the family of `CMD_UDP_OPEN`, IPv4 if there is none to read
pub family_of : Bytes → ℕ
family_of payload = elim (from_utf8 payload) [
  | none ↦ af_inet
  | some text ↦ elim (parse_uint u16_max (trim text)) [ none ↦ af_inet | some n ↦ n ]
]

-- `spawn_udp_open`; `binds` tells whether the socket can be bound
pub spawn_udp : Bool → Server → ℕ → ℕ → Server
spawn_udp false s channel family = s
spawn_udp true s channel family = record s {
  udp = put s.udp channel (length s.udp_tasks);
  udp_tasks =
      s.udp_tasks
      ++ (record {
        channel = channel;
        family = family;
        queue = [];
        listening = true;
        checking = false;
      })
        ∷ [];
}

pub on_udp_data : Server → Option ℕ → Result ParseError (Str × ℕ × Bytes) → Server
unfolding offer_udp
on_udp_data s found (err e) = s
on_udp_data s none (ok item) = s
on_udp_data s (some n) (ok item) = offer_udp s n item (get_elem? s.udp_tasks n)

-- The `match` of the main loop. `hosts` is the text of /etc/hosts.
unfoldable pub handle : Option Str → Bool → Server → Frame → Server
unfolding emit on_connect on_data family_of spawn_udp on_udp_data
handle hosts binds s f =
    if f.cmd == Cmd.ping
    then emit s (frame f.channel Cmd.pong f.payload)
    else if f.cmd == Cmd.pong
    then s
    else if f.cmd == Cmd.exit
    then record s { main = Main.stopped }
    else if f.cmd == Cmd.tcp_connect
    then on_connect s f (parse_connect f.payload)
    else if f.cmd == Cmd.tcp_data
    then on_data s f.payload (s.tcp f.channel)
    else if f.cmd == Cmd.tcp_eof || f.cmd == Cmd.tcp_stop_sending
    then record s { tcp = erase s.tcp f.channel }
    else if f.cmd == Cmd.dns_req
    then record s { dns = s.dns ++ (f.channel, f.payload) ∷ [] }
    else if f.cmd == Cmd.udp_open
    then spawn_udp binds s f.channel (family_of f.payload)
    else if f.cmd == Cmd.udp_data
    then on_udp_data s (s.udp f.channel) (parse_udp_data f.payload)
    else if f.cmd == Cmd.udp_close
    then record s { udp = erase s.udp f.channel }
    else if f.cmd == Cmd.host_req
    then emit s (frame 0 Cmd.host_list (encode_host_list (read_etc_hosts hosts)))
    else s
