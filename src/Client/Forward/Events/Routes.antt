-- ===== src/Client/Forward/Events/Routes.antt =====
-- rushtle/src/client.rs, where `channels` sends the channel of a connection, through any step.
use kubectl_sshuttle.Base.{
  ℕ, ◌≡◌, refl, ap, inl, inr, Bool, true, false, not, ◌||◌, ◌&&◌, Option, none, some, List, [], ◌∷◌,
  arith, ltb, leb, ◌==◌, length, get_elem?, set, Bool-cases, get_elem?-set_self, After, After-if,
  After-either, Keeps-set, Only-before, ℕ_discrete,
}
use kubectl_sshuttle.Text.Utf8.{Bytes}
use kubectl_sshuttle.Ssnet.Cmd
use kubectl_sshuttle.Ssnet.Frame.{Frame, frame, chunk}
use kubectl_sshuttle.Ssnet.Carried.{is_open-none}
use kubectl_sshuttle.Client.Channels.{allocate}
use kubectl_sshuttle.Client.Forward.State.{
  Client, Conn, ConnPhase, Demux, Accept, Address, inbound, insert, delete, in_rx_dropped, unlocked,
  set_conn,
}
use kubectl_sshuttle.Client.Forward.{send}
use kubectl_sshuttle.Client.Forward.Bounds.{channel_of}
use kubectl_sshuttle.Client.Forward.Events.{
  ClientEvent, ConnEvent, opens, read_ends, leaves, writes, reads, arrives, input_ends, delivered,
  output_fails, accepts, accept_fails, inserts, queried, at_conn, accept_of, draw, accept_failed,
  on_query, connect_frame, is_empty, sender_of, write_next, put_conn, conn_step, deliver_again,
  demux_step, on_conn, client_step,
}
use kubectl_sshuttle.Client.Forward.Events.Telling.{send-conns, write_next-keeps}
use kubectl_sshuttle.Client.Forward.Events.Routed.{
  Routed, mapped, apart, deliver-Routed, demux_frame-Routed, spawn_conn-Routed,
}

send-channels : (c : Client) (f : Frame) → (send c f).channels ≡ c.channels
unfolding send
send-channels c f = elim (Bool-cases c.out_open) [ inl on ↦ rw on refl | inr off ↦ rw off refl ]

-- a connection is replaced
replaced :
    (n m : ℕ) (k j j' : Conn) (c x : Client)
    → get_elem? c.conns m ≡ some j
    → j'.channel ≡ j.channel
    → x.conns ≡ c.conns
    → x.channels ≡ c.channels
    → Routed n k [] c (set_conn x m j')
replaced n m k j j' c x found ch ks same =
    mapped n k [] c (set_conn x m j')
      (Keeps-set channel_of c.conns (set x.conns m j') m j j' found ch (ap (λ l. set l m j') ks))
      same (is_open-none k.channel)

put_conn-Routed :
    (n m : ℕ) (k j : Conn) (c : Client) (o : Option Conn)
    → get_elem? c.conns m ≡ some j
    → ((j' : Conn) → o ≡ some j' → (j'.channel ≡ j.channel) × (j'.reader_live ≡ j.reader_live))
    → After (Routed n k [] c) (put_conn c m o)
unfolding put_conn
put_conn-Routed n m k j c none found same = tt
put_conn-Routed n m k j c (some j') found same =
    replaced n m k j j' c c found (same j' refl).0 refl refl

-- The connection itself has ended, or the channel that is deleted is another.
left-Routed :
    (n m : ℕ) (k j : Conn) (c : Client)
    → get_elem? c.conns m ≡ some j
    → Routed n k [] c (record (set_conn c m (record j { phase = ConnPhase.finished })) {
      channels = delete c.channels j.channel;
    })
unfolding in_rx_dropped
left-Routed n m k j c found =
    let j' : Conn = record j { phase = ConnPhase.finished } in
    let kept = Keeps-set channel_of c.conns (set c.conns m j') m j j' found refl refl in
    record {
      keeps = kept;
      routed = λ only. elim (ℕ_discrete m n) [
        | yes own ↦ inl (j', rw (← own) (get_elem?-set_self c.conns m j j' found), refl)
        | no other ↦
            let only' = Only-before channel_of n k.channel c.conns (set c.conns m j') kept only in
            let apart_from : (k.channel == j.channel) ≡ false =
              ground (arith, λ (e : j.channel ≡ k.channel). other (only' m j found e)) in
            inr (rw (apart_from, is_open-none k.channel) refl)
      ];
    }

conn_step-Routed :
    (n m : ℕ) (k j : Conn) (c : Client) (e : ConnEvent) (p : ConnPhase)
    → get_elem? c.conns m ≡ some j
    → After (Routed n k [] c) (conn_step c m j e p)
unfolding conn_step
conn_step-Routed n m k j c opens ConnPhase.opening found =
    let f = connect_frame j in
    After-either (Routed n k [] c) c.out_open _ _
      (replaced n m k j (record j { phase = ConnPhase.copying }) c (send c f) found refl
        (send-conns c f) (send-channels c f))
      (replaced n m k j (record j { phase = ConnPhase.finished; queue = [] }) c c found refl refl
        refl)
conn_step-Routed n m k j c (writes good) ConnPhase.copying found =
    let sender = sender_of (c.channels j.channel) m in
    After-if (Routed n k [] c) j.writer_live _ (
      put_conn-Routed n m k j c (write_next sender good j j.queue) found
        (λ j' h. write_next-keeps sender good j j.queue j' h))
conn_step-Routed n m k j c (reads bytes) ConnPhase.copying found =
    let f = frame j.channel Cmd.tcp_data bytes in
    After-if (Routed n k [] c) (j.reader_live && not (is_empty bytes) && leb (length bytes) chunk) _
      (replaced n m k j (record j { reader_live = c.out_open }) c (send c f) found refl
        (send-conns c f) (send-channels c f))
conn_step-Routed n m k j c read_ends ConnPhase.copying found =
    let f = frame j.channel Cmd.tcp_eof [] in
    After-if (Routed n k [] c) j.reader_live _ (
      replaced n m k j (record j { reader_live = false }) c (send c f) found refl (send-conns c f)
        (send-channels c f))
conn_step-Routed n m k j c leaves ConnPhase.copying found =
    After-if (Routed n k [] c) (unlocked c.demux && not j.writer_live && not j.reader_live) _
      (left-Routed n m k j c found)
conn_step-Routed n m k j c _ _ found = tt

on_conn-Routed :
    (n m : ℕ) (k : Conn) (c : Client) (e : ConnEvent) (o : Option Conn)
    → get_elem? c.conns m ≡ o
    → After (Routed n k [] c) (on_conn c m e o)
unfolding on_conn
on_conn-Routed n m k c e none found = tt
on_conn-Routed n m k c e (some j) found = conn_step-Routed n m k j c e j.phase found

deliver_again-Routed :
    (n m : ℕ) (k : Conn) (c : Client) (buf : Bytes) (o : Option Conn)
    → get_elem? c.conns m ≡ o
    → After (Routed n k [] c) (deliver_again c m buf o)
unfolding deliver_again
deliver_again-Routed n m k c buf none found = tt
deliver_again-Routed n m k c buf (some j) found =
    After-if (Routed n k [] c) (in_rx_dropped j || ltb (length j.queue) inbound) _
      (deliver-Routed n m k [] c buf (some j) found (is_open-none k.channel))

draw-Routed :
    (n : ℕ) (k : Conn) (c : Client) (v6 : Bool) (dst : Address) (a : Accept)
    → After (Routed n k [] c) (draw c v6 dst a)
unfolding draw
draw-Routed n k c false dst Accept.listening = apart n k [] c _ refl refl (is_open-none k.channel)
draw-Routed n k c true dst Accept.listening = apart n k [] c _ refl refl (is_open-none k.channel)
draw-Routed n k c v6 dst (Accept.inserting x d) = tt

accept_failed-Routed :
    (n : ℕ) (k : Conn) (c : Client) (a : Accept) → After (Routed n k [] c) (accept_failed c a)
unfolding accept_failed
accept_failed-Routed n k c Accept.listening = apart n k [] c c refl refl (is_open-none k.channel)
accept_failed-Routed n k c (Accept.inserting x d) = tt

on_query-Routed :
    (n : ℕ) (k : Conn) (c : Client) (peer : Address) (query : Bytes)
    → After (Routed n k [] c) (on_query c peer query)
unfolding on_query
on_query-Routed n k c peer query =
    let (ch, later) = allocate c.next in
    let f = frame ch Cmd.dns_req query in
    let c' : Client = record c { next = later; inflight = insert c.inflight ch peer } in
    After-if (Routed n k [] c) (c.dns_live && leb (length query) 4096) _ (
      apart n k [] c (record (send c' f) { dns_live = c.out_open }) (send-conns c' f)
        (send-channels c' f) (is_open-none k.channel))

-- the frames that an event brings
abbrev pub came : ClientEvent → List Frame
came (arrives f) = f ∷ []
came _ = []

demux_step-Routed :
    (e : ClientEvent) (n : ℕ) (k : Conn) (c : Client) (m : Demux)
    → After (Routed n k (came e) c) (demux_step e c m)
unfolding demux_step
demux_step-Routed (arrives f) n k c Demux.reading = demux_frame-Routed n k c f
demux_step-Routed input_ends n k c Demux.reading =
    apart n k [] c _ refl refl (is_open-none k.channel)
demux_step-Routed delivered n k c (Demux.offering m buf) =
    deliver_again-Routed n m k c buf (get_elem? c.conns m) refl
demux_step-Routed _ n k c _ = tt

pub client_step-Routed :
    (e : ClientEvent) (n : ℕ) (k : Conn) (c : Client)
    → get_elem? c.conns n ≡ some k
    → After (Routed n k (came e) c) (client_step e c)
unfolding client_step
client_step-Routed (at_conn m e) n k c found = on_conn-Routed n m k c e (get_elem? c.conns m) refl
client_step-Routed (accepts v6 dst) n k c found = draw-Routed n k c v6 dst (accept_of c v6)
client_step-Routed (accept_fails v6) n k c found = accept_failed-Routed n k c (accept_of c v6)
client_step-Routed (inserts v6) n k c found = spawn_conn-Routed n k c v6 (accept_of c v6) found
client_step-Routed (queried peer query) n k c found = on_query-Routed n k c peer query
client_step-Routed output_fails n k c found = apart n k [] c _ refl refl (is_open-none k.channel)
client_step-Routed (arrives f) n k c found = demux_step-Routed (arrives f) n k c c.demux
client_step-Routed input_ends n k c found = demux_step-Routed input_ends n k c c.demux
client_step-Routed delivered n k c found = demux_step-Routed delivered n k c c.demux
