-- ===== src/Client/Forward/Events/Reached.antt =====
-- rushtle/src/client.rs, the invariant in every state that the tasks can reach.
use kubectl_sshuttle.Base.{
  ℕ, ◌≤◌, ◌≡◌, refl, Bool, true, false, not, ◌||◌, ◌&&◌, Option, none, some, List, [], ◌∷◌, ◌++◌,
  arith, ltb, leb, length, get_elem?, set, Bool-cases, inl, inr, erase-IsSound, set-IsSound,
  push-IsSound,
}
use kubectl_sshuttle.Text.Utf8.{Bytes}
use kubectl_sshuttle.Ssnet.Cmd
use kubectl_sshuttle.Ssnet.Frame.{Frame, frame, chunk}
use kubectl_sshuttle.Client.Channels.{allocate}
use kubectl_sshuttle.Client.Forward.State.{
  Client, Conn, ConnPhase, Demux, Accept, Address, inbound, insert, in_rx_dropped, unlocked,
  set_conn, at_start,
}
use kubectl_sshuttle.Client.Forward.{send}
use kubectl_sshuttle.Client.Forward.Events.{
  ClientEvent, ConnEvent, opens, read_ends, leaves, writes, reads, arrives, input_ends, delivered,
  output_fails, accepts, accept_fails, inserts, queried, at_conn, here, next, accept_of, set_accept,
  draw, spawn_conn, accept_failed, on_query, connect_frame, is_empty, sender_of, write_next,
  put_conn, conn_step, deliver_again, demux_step, on_conn, client_step, Reaches,
}
use kubectl_sshuttle.Base.{After, After-if, After-either}
use kubectl_sshuttle.Client.Forward.Bounds.{
  Sound, send-Sound, queued, channel_of, deliver-Sound, demux_frame-Sound,
}

abbrev Kept : Option Client → Type 0
Kept = After Sound

-- a connection that stands in the place of one with the same channel
abbrev Like : Conn → Conn → Type 0
Like k k' = (k'.channel ≡ k.channel) × (length k'.queue ≤ inbound)

set_conn-Sound :
    (c : Client) (n : ℕ) (k k' : Conn)
    → get_elem? c.conns n ≡ some k
    → Like k k'
    → Sound c
    → Sound (set_conn c n k')
set_conn-Sound c n k k' found (ch, few) s =
    set-IsSound inbound queued channel_of c.channels c.conns n k k' found ch few s

sent-Sound :
    (c : Client) (f : Frame) (n : ℕ) (k k' : Conn)
    → get_elem? c.conns n ≡ some k
    → Like k k'
    → Sound c
    → Sound (set_conn (send c f) n k')
unfolding send
sent-Sound c f n k k' found like s = elim (Bool-cases c.out_open) [
  | inl on ↦ rw on (set_conn-Sound c n k k' found like s)
  | inr off ↦ rw off (set_conn-Sound c n k k' found like s)
]

-- a connection's own step on its queue
write_next-Like :
    (sender good : Bool) (k : Conn) (q : List Bytes) (k' : Conn)
    → length q ≤ inbound
    → length k.queue ≤ inbound
    → write_next sender good k q ≡ some k'
    → Like k k'
unfolding write_next
write_next-Like true good k [] k' fq few h = cc
write_next-Like false good k [] k' fq few h =
    let e : record k { writer_live = false } ≡ k' = ground (arith, h) in rw (← e) (refl, few)
write_next-Like sender good k (buf ∷ rest) k' fq few h =
    elim (Bool-cases (is_empty buf || not good)) [
      | inl stops ↦
          let e : record k { queue = []; writer_live = false } ≡ k' =
            ground (arith, (rw stops at h)) in
          rw (← e) (refl, omega arith)
      | inr goes ↦
          let e : record k { queue = rest; written = k.written ++ buf } ≡ k' =
            ground (arith, (rw goes at h)) in
          rw (← e) (refl, omega arith)
    ]

put_conn-Kept :
    (c : Client) (n : ℕ) (k : Conn) (o : Option Conn)
    → get_elem? c.conns n ≡ some k
    → ((k' : Conn) → o ≡ some k' → Like k k')
    → Sound c
    → Kept (put_conn c n o)
unfolding put_conn
put_conn-Kept c n k none found like s = tt
put_conn-Kept c n k (some k') found like s = set_conn-Sound c n k k' found (like k' refl) s

conn_step-Kept :
    (c : Client) (n : ℕ) (k : Conn) (e : ConnEvent) (p : ConnPhase)
    → get_elem? c.conns n ≡ some k
    → Sound c
    → Kept (conn_step c n k e p)
unfolding conn_step
conn_step-Kept c n k opens ConnPhase.opening found s =
    let few = s.bounded n k found in
    After-either Sound c.out_open _ _
      (sent-Sound c (connect_frame k) n k (record k { phase = ConnPhase.copying }) found (refl, few)
        s)
      (set_conn-Sound c n k (record k { phase = ConnPhase.finished; queue = [] }) found
        (refl, omega arith) s)
conn_step-Kept c n k (writes good) ConnPhase.copying found s =
    let few = s.bounded n k found in
    let sender = sender_of (c.channels k.channel) n in
    After-if Sound k.writer_live _ (
      put_conn-Kept c n k (write_next sender good k k.queue) found
        (λ k' h. write_next-Like sender good k k.queue k' few few h) s)
conn_step-Kept c n k (reads bytes) ConnPhase.copying found s =
    After-if Sound (k.reader_live && not (is_empty bytes) && leb (length bytes) chunk) _ (
      sent-Sound c (frame k.channel Cmd.tcp_data bytes) n k (record k { reader_live = c.out_open })
        found (refl, s.bounded n k found) s)
conn_step-Kept c n k read_ends ConnPhase.copying found s = After-if Sound k.reader_live _ (
    sent-Sound c (frame k.channel Cmd.tcp_eof []) n k (record k { reader_live = false }) found
      (refl, s.bounded n k found) s)
conn_step-Kept c n k leaves ConnPhase.copying found s =
    After-if Sound (unlocked c.demux && not k.writer_live && not k.reader_live) _ (
      erase-IsSound inbound queued channel_of c.channels
        (set c.conns n (record k { phase = ConnPhase.finished })) k.channel
        (set_conn-Sound c n k (record k { phase = ConnPhase.finished }) found
          (refl, s.bounded n k found) s))
conn_step-Kept c n k opens ConnPhase.copying found s = tt
conn_step-Kept c n k opens ConnPhase.finished found s = tt
conn_step-Kept c n k (writes good) ConnPhase.opening found s = tt
conn_step-Kept c n k (writes good) ConnPhase.finished found s = tt
conn_step-Kept c n k (reads bytes) ConnPhase.opening found s = tt
conn_step-Kept c n k (reads bytes) ConnPhase.finished found s = tt
conn_step-Kept c n k read_ends ConnPhase.opening found s = tt
conn_step-Kept c n k read_ends ConnPhase.finished found s = tt
conn_step-Kept c n k leaves ConnPhase.opening found s = tt
conn_step-Kept c n k leaves ConnPhase.finished found s = tt

set_accept-Sound : (c : Client) (v6 : Bool) (a : Accept) → Sound c → Sound (set_accept c v6 a)
set_accept-Sound c false a s = s
set_accept-Sound c true a s = s

spawn_conn-Kept : (c : Client) (v6 : Bool) (a : Accept) → Sound c → Kept (spawn_conn c v6 a)
unfolding spawn_conn
spawn_conn-Kept c v6 Accept.listening s = tt
spawn_conn-Kept c v6 (Accept.inserting ch dst) s = After-if Sound (unlocked c.demux) _ (
    set_accept-Sound _ v6 Accept.listening (
      push-IsSound inbound queued channel_of c.channels c.conns
        (record {
          channel = ch;
          dst = dst;
          phase = ConnPhase.opening;
          queue = [];
          written = [];
          writer_live = true;
          reader_live = true;
        })
        (omega arith) s))

draw-Kept : (c : Client) (v6 : Bool) (dst : Address) (a : Accept) → Sound c → Kept (draw c v6 dst a)
unfolding draw
draw-Kept c v6 dst Accept.listening s =
    let (ch, later) = allocate c.next in
    set_accept-Sound (record c { next = later }) v6 (Accept.inserting ch dst) s
draw-Kept c v6 dst (Accept.inserting ch d) s = tt

on_query-Kept :
    (c : Client) (peer : Address) (query : Bytes) → Sound c → Kept (on_query c peer query)
unfolding on_query
on_query-Kept c peer query s =
    let (ch, later) = allocate c.next in
    After-if Sound (c.dns_live && leb (length query) 4096) _ (
      send-Sound (record c { next = later; inflight = insert c.inflight ch peer })
        (frame ch Cmd.dns_req query) s)

accept_failed-Kept : (c : Client) (a : Accept) → Sound c → Kept (accept_failed c a)
unfolding accept_failed
accept_failed-Kept c Accept.listening s = s
accept_failed-Kept c (Accept.inserting ch d) s = tt

deliver_again-Kept :
    (c : Client) (n : ℕ) (buf : Bytes) (o : Option Conn)
    → get_elem? c.conns n ≡ o
    → Sound c
    → Kept (deliver_again c n buf o)
unfolding deliver_again
deliver_again-Kept c n buf none found s = tt
deliver_again-Kept c n buf (some k) found s =
    After-if Sound (in_rx_dropped k || ltb (length k.queue) inbound) _
      (deliver-Sound c n buf k found s)

on_conn-Kept :
    (c : Client) (n : ℕ) (e : ConnEvent) (o : Option Conn)
    → get_elem? c.conns n ≡ o
    → Sound c
    → Kept (on_conn c n e o)
unfolding on_conn
on_conn-Kept c n e none found s = tt
on_conn-Kept c n e (some k) found s = conn_step-Kept c n k e k.phase found s

arrives-Kept : (c : Client) (f : Frame) (m : Demux) → Sound c → Kept (demux_step (arrives f) c m)
unfolding demux_step
arrives-Kept c f Demux.reading s = demux_frame-Sound c f s
arrives-Kept c f Demux.stopped s = tt
arrives-Kept c f (Demux.offering n buf) s = tt

input_ends-Kept : (c : Client) (m : Demux) → Sound c → Kept (demux_step input_ends c m)
unfolding demux_step
input_ends-Kept c Demux.reading s = s
input_ends-Kept c Demux.stopped s = tt
input_ends-Kept c (Demux.offering n buf) s = tt

delivered-Kept : (c : Client) (m : Demux) → Sound c → Kept (demux_step delivered c m)
unfolding demux_step
delivered-Kept c Demux.reading s = tt
delivered-Kept c Demux.stopped s = tt
delivered-Kept c (Demux.offering n buf) s = deliver_again-Kept c n buf (get_elem? c.conns n) refl s

pub client_step-Kept : (e : ClientEvent) (c : Client) → Sound c → Kept (client_step e c)
unfolding client_step
client_step-Kept (at_conn n e) c s = on_conn-Kept c n e (get_elem? c.conns n) refl s
client_step-Kept (accepts v6 dst) c s = draw-Kept c v6 dst (accept_of c v6) s
client_step-Kept (accept_fails v6) c s = accept_failed-Kept c (accept_of c v6) s
client_step-Kept (inserts v6) c s = spawn_conn-Kept c v6 (accept_of c v6) s
client_step-Kept (queried peer query) c s = on_query-Kept c peer query s
client_step-Kept output_fails c s = s
client_step-Kept (arrives f) c s = arrives-Kept c f c.demux s
client_step-Kept input_ends c s = input_ends-Kept c c.demux s
client_step-Kept delivered c s = delivered-Kept c c.demux s

-- In every state that the tasks reach from the start, each queue has at most 64 buffers, and each
-- channel of the map is that of the connection to whose queue it leads.
pub Reaches-Sound : (dns : Bool) (c : Client) → Reaches (at_start dns) c → Sound c
Reaches-Sound dns c here = record { bounded = λ n k h. cc; known = λ ch n h. cc }
Reaches-Sound dns c (next {d} {d'} e before ran) =
    let kept = client_step-Kept e d (Reaches-Sound dns d before) in rw ran at kept
