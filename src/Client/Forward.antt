-- ===== src/Client/Forward.antt =====
-- rushtle/src/client.rs, the tasks that forward connections and DNS queries. As on the server, tasks
-- run in any order: a step is one event, between two points where a task can wait.
pub mod State
pub mod Events
pub mod Bounds
use kubectl_sshuttle.Base.{
  get_elem?, set, ℕ, zero, suc, ◌+◌, ◌≡◌, refl, Bool, true, false, not, ◌||◌, ◌&&◌, Option, none,
  some, List, [], ◌∷◌, ◌++◌, ltb, leb, ◌==◌, if◌then◌else◌, length,
}
use kubectl_sshuttle.Text.Utf8.{Bytes, Str}
use kubectl_sshuttle.Ssnet.Cmd
use kubectl_sshuttle.Ssnet.Frame.{Frame, frame, af_inet, af_inet6, chunk}
use kubectl_sshuttle.Ssnet.Connect.{encode_connect}
use kubectl_sshuttle.Client.Channels.{allocate}
use kubectl_sshuttle.Client.Subnets.{is_v6}
use State.{
  Client, Conn, ConnPhase, Demux, Accept, Address, inbound, insert, delete, in_rx_dropped, unlocked,
  set_conn,
}

-- `out_tx.send(…)`, whose error the caller looks at or throws away
pub send : Client → Frame → Client
send c f = if c.out_open then record c { out = c.out ++ f ∷ [] } else c

-- `tx.send(frame.data).await` under the lock of `channels`
pub deliver : Client → ℕ → Bytes → Option Conn → Client
unfolding in_rx_dropped
deliver c n buf none = c
deliver c n buf (some k) =
    if in_rx_dropped k
    then record c { demux = Demux.reading }
    else if ltb (length k.queue) inbound
    then record (set_conn c n (record k { queue = k.queue ++ buf ∷ [] })) { demux = Demux.reading }
    else record c { demux = Demux.offering n buf }

pub on_tcp_data : Client → Bytes → Option ℕ → Client
unfolding deliver
on_tcp_data c payload none = c
on_tcp_data c payload (some n) = deliver c n payload (get_elem? c.conns n)

-- the reply to a query; an empty one is dropped
pub reply : Client → Address → Bytes → Client
reply c peer [] = c
reply c peer (b ∷ bs) =
    if c.dns_sock then record c { replies = c.replies ++ (peer, b ∷ bs) ∷ [] } else c

pub on_response : Client → Frame → Option Address → Client
unfolding reply
on_response c f none = c
on_response c f (some peer) =
    reply (record c { inflight = delete c.inflight f.channel }) peer f.payload

-- the `match` of the demultiplexer
unfoldable pub demux_frame : Client → Frame → Client
unfolding send on_tcp_data on_response
demux_frame c f =
    if f.cmd == Cmd.ping
    then send c (frame f.channel Cmd.pong f.payload)
    else if f.cmd == Cmd.pong
    then c
    else if f.cmd == Cmd.tcp_data
    then on_tcp_data c f.payload (c.channels f.channel)
    else if f.cmd == Cmd.tcp_eof || f.cmd == Cmd.tcp_stop_sending
    then record c { channels = delete c.channels f.channel }
    else if f.cmd == Cmd.dns_response
    then on_response c f (c.inflight f.channel)
    else c
