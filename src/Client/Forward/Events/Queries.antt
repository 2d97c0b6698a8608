-- ===== src/Client/Forward/Events/Queries.antt =====
-- rushtle/src/client.rs, the DNS queries under way.
use kubectl_sshuttle.Base.{
  ℕ, ◌≡◌, ◌≢◌, refl, ◌∙◌, Bool, true, false, not, ◌||◌, ◌&&◌, Option, none, some, [], ◌∷◌, arith,
  ltb, leb, ◌==◌, if◌then◌else◌, length, get_elem?, Bool-cases, inl, inr,
}
use kubectl_sshuttle.Text.Utf8.{Bytes}
use kubectl_sshuttle.Ssnet.Cmd
use kubectl_sshuttle.Ssnet.Frame.{Frame, frame, chunk}
use kubectl_sshuttle.Client.Channels.{allocate}
use kubectl_sshuttle.Client.Forward.State.{
  Client, Conn, ConnPhase, Demux, Accept, Address, inbound, insert, delete, in_rx_dropped, unlocked,
}
use kubectl_sshuttle.Client.Forward.{send, deliver, on_tcp_data, reply, on_response, demux_frame}
use kubectl_sshuttle.Client.Forward.Events.{
  ClientEvent, ConnEvent, opens, read_ends, leaves, writes, reads, arrives, input_ends, delivered,
  output_fails, accepts, accept_fails, inserts, queried, at_conn, accept_of, set_accept, draw,
  spawn_conn, accept_failed, on_query, connect_frame, is_empty, sender_of, write_next, put_conn,
  conn_step, deliver_again, demux_step, on_conn, client_step,
}
use kubectl_sshuttle.Base.{After, After-if, After-either}

-- what a query under way needs: its entry, and the socket
abbrev pub Same : ℕ → Client → Client → Type 0
Same ch c d = (d.inflight ch ≡ c.inflight ch) × (d.dns_sock ≡ c.dns_sock)

-- the event neither answers the query on this channel nor draws the channel for another
abbrev pub IsQuiet : ℕ → Client → ClientEvent → Type 0
IsQuiet ch c (arrives f) = f.cmd ≡ Cmd.dns_response → f.channel ≢ ch
IsQuiet ch c (queried peer query) = c.next ≢ ch
IsQuiet ch c _ = Unit

-- the states in which the query on a channel still waits for its answer
pub data Waits (ch : ℕ) (c : Client) : Client → Type 0 where
  asked : Waits ch c c
  later :
      {d d' : Client} (e : ClientEvent)
      → Waits ch c d
      → client_step e d ≡ some d'
      → IsQuiet ch d e
      → Waits ch c d'

pub send-Same : (ch : ℕ) (c : Client) (f : Frame) → Same ch c (send c f)
unfolding send
send-Same ch c f = elim (Bool-cases c.out_open) [
  | inl h ↦ rw h (refl, refl)
  | inr h ↦ rw h (refl, refl)
]

Same-if :
    (ch : ℕ) (c : Client) (b : Bool) (x y : Client)
    → Same ch c x
    → Same ch c y
    → Same ch c (if b then x else y)
Same-if ch c true x y hx hy = hx
Same-if ch c false x y hx hy = hy

Same-when :
    (ch : ℕ) (c : Client) (b : Bool) (x : Client)
    → (b ≡ true → Same ch c x)
    → Same ch c (if b then x else c)
Same-when ch c true x h = h refl
Same-when ch c false x h = (refl, refl)

deliver-Same :
    (ch : ℕ) (c : Client) (n : ℕ) (buf : Bytes) (o : Option Conn) → Same ch c (deliver c n buf o)
unfolding deliver
deliver-Same ch c n buf none = (refl, refl)
deliver-Same ch c n buf (some k) =
    Same-if ch c (in_rx_dropped k) _ _ (refl, refl)
      (Same-if ch c (ltb (length k.queue) inbound) _ _ (refl, refl) (refl, refl))

on_tcp_data-Same :
    (ch : ℕ) (c : Client) (buf : Bytes) (o : Option ℕ) → Same ch c (on_tcp_data c buf o)
unfolding on_tcp_data
on_tcp_data-Same ch c buf none = (refl, refl)
on_tcp_data-Same ch c buf (some n) = deliver-Same ch c n buf (get_elem? c.conns n)

reply-Same :
    (ch : ℕ) (c : Client) (peer : Address) (answer : Bytes) → Same ch c (reply c peer answer)
unfolding reply
reply-Same ch c peer [] = (refl, refl)
reply-Same ch c peer (b ∷ bs) = Same-if ch c c.dns_sock _ _ (refl, refl) (refl, refl)

on_response-Same :
    (ch : ℕ) (c : Client) (f : Frame) (o : Option Address)
    → f.channel ≢ ch
    → Same ch c (on_response c f o)
unfolding on_response
on_response-Same ch c f none away = (refl, refl)
on_response-Same ch c f (some peer) away =
    let d : Client = record c { inflight = delete c.inflight f.channel } in
    let (entry, sock) = reply-Same ch d peer f.payload in
    let same_entry : delete c.inflight f.channel ch ≡ c.inflight ch = ground (arith, away) in
    (entry ∙ same_entry, sock)

demux_frame-Same :
    (ch : ℕ) (c : Client) (f : Frame)
    → (f.cmd ≡ Cmd.dns_response → f.channel ≢ ch)
    → Same ch c (demux_frame c f)
unfolding demux_frame
demux_frame-Same ch c f quiet =
    Same-if ch c (f.cmd == Cmd.ping) _ _ (send-Same ch c (frame f.channel Cmd.pong f.payload)) (
      Same-if ch c (f.cmd == Cmd.pong) _ _ (refl, refl)
        (Same-if ch c (f.cmd == Cmd.tcp_data) _ _
          (on_tcp_data-Same ch c f.payload (c.channels f.channel))
          (Same-if ch c (f.cmd == Cmd.tcp_eof || f.cmd == Cmd.tcp_stop_sending) _ _ (refl, refl)
            (Same-when ch c (f.cmd == Cmd.dns_response) _
              (λ h. on_response-Same ch c f (c.inflight f.channel) (quiet (ground (arith, h))))))))

put_conn-Same : (ch : ℕ) (c : Client) (n : ℕ) (o : Option Conn) → After (Same ch c) (put_conn c n o)
unfolding put_conn
put_conn-Same ch c n none = tt
put_conn-Same ch c n (some k) = (refl, refl)

conn_step-Same :
    (ch : ℕ) (c : Client) (n : ℕ) (k : Conn) (e : ConnEvent) (p : ConnPhase)
    → After (Same ch c) (conn_step c n k e p)
unfolding conn_step
conn_step-Same ch c n k opens ConnPhase.opening =
    After-either (Same ch c) c.out_open _ _ (send-Same ch c (connect_frame k)) (refl, refl)
conn_step-Same ch c n k (writes good) ConnPhase.copying =
    After-if (Same ch c) k.writer_live _
      (put_conn-Same ch c n (write_next (sender_of (c.channels k.channel) n) good k k.queue))
conn_step-Same ch c n k (reads bytes) ConnPhase.copying =
    After-if (Same ch c) (k.reader_live && not (is_empty bytes) && leb (length bytes) chunk) _
      (send-Same ch c (frame k.channel Cmd.tcp_data bytes))
conn_step-Same ch c n k read_ends ConnPhase.copying =
    After-if (Same ch c) k.reader_live _ (send-Same ch c (frame k.channel Cmd.tcp_eof []))
conn_step-Same ch c n k leaves ConnPhase.copying =
    After-if (Same ch c) (unlocked c.demux && not k.writer_live && not k.reader_live) _ (refl, refl)
conn_step-Same ch c n k opens ConnPhase.copying = tt
conn_step-Same ch c n k opens ConnPhase.finished = tt
conn_step-Same ch c n k (writes good) ConnPhase.opening = tt
conn_step-Same ch c n k (writes good) ConnPhase.finished = tt
conn_step-Same ch c n k (reads bytes) ConnPhase.opening = tt
conn_step-Same ch c n k (reads bytes) ConnPhase.finished = tt
conn_step-Same ch c n k read_ends ConnPhase.opening = tt
conn_step-Same ch c n k read_ends ConnPhase.finished = tt
conn_step-Same ch c n k leaves ConnPhase.opening = tt
conn_step-Same ch c n k leaves ConnPhase.finished = tt

on_conn-Same :
    (ch : ℕ) (c : Client) (n : ℕ) (e : ConnEvent) (o : Option Conn)
    → After (Same ch c) (on_conn c n e o)
unfolding on_conn
on_conn-Same ch c n e none = tt
on_conn-Same ch c n e (some k) = conn_step-Same ch c n k e k.phase

set_accept-Same :
    (ch : ℕ) (c d : Client) (v6 : Bool) (a : Accept) → Same ch c d → Same ch c (set_accept d v6 a)
set_accept-Same ch c d false a h = h
set_accept-Same ch c d true a h = h

draw-Same :
    (ch : ℕ) (c : Client) (v6 : Bool) (dst : Address) (a : Accept)
    → After (Same ch c) (draw c v6 dst a)
unfolding draw
draw-Same ch c v6 dst Accept.listening = set_accept-Same ch c _ v6 _ (refl, refl)
draw-Same ch c v6 dst (Accept.inserting x d) = tt

spawn_conn-Same :
    (ch : ℕ) (c : Client) (v6 : Bool) (a : Accept) → After (Same ch c) (spawn_conn c v6 a)
unfolding spawn_conn
spawn_conn-Same ch c v6 Accept.listening = tt
spawn_conn-Same ch c v6 (Accept.inserting x dst) =
    After-if (Same ch c) (unlocked c.demux) _ (set_accept-Same ch c _ v6 _ (refl, refl))

accept_failed-Same : (ch : ℕ) (c : Client) (a : Accept) → After (Same ch c) (accept_failed c a)
unfolding accept_failed
accept_failed-Same ch c Accept.listening = (refl, refl)
accept_failed-Same ch c (Accept.inserting x d) = tt

on_query-Same :
    (ch : ℕ) (c : Client) (peer : Address) (query : Bytes)
    → c.next ≢ ch
    → After (Same ch c) (on_query c peer query)
unfolding on_query allocate
on_query-Same ch c peer query away =
    let d : Client = record c {
      next = (allocate c.next).1;
      inflight = insert c.inflight c.next peer;
    } in
    let (entry, sock) = send-Same ch d (frame c.next Cmd.dns_req query) in
    let same_entry : insert c.inflight c.next peer ch ≡ c.inflight ch = ground (arith, away) in
    After-if (Same ch c) (c.dns_live && leb (length query) 4096) _ (entry ∙ same_entry, sock)

demux_step-Same :
    (ch : ℕ) (c : Client) (n : ℕ) (buf : Bytes) (o : Option Conn)
    → After (Same ch c) (deliver_again c n buf o)
unfolding deliver_again
demux_step-Same ch c n buf none = tt
demux_step-Same ch c n buf (some k) =
    After-if (Same ch c) (in_rx_dropped k || ltb (length k.queue) inbound) _
      (deliver-Same ch c n buf (some k))

arrives-Same :
    (ch : ℕ) (c : Client) (f : Frame) (m : Demux)
    → (f.cmd ≡ Cmd.dns_response → f.channel ≢ ch)
    → After (Same ch c) (demux_step (arrives f) c m)
unfolding demux_step
arrives-Same ch c f Demux.reading quiet = demux_frame-Same ch c f quiet
arrives-Same ch c f Demux.stopped quiet = tt
arrives-Same ch c f (Demux.offering n buf) quiet = tt

input_ends-Same : (ch : ℕ) (c : Client) (m : Demux) → After (Same ch c) (demux_step input_ends c m)
unfolding demux_step
input_ends-Same ch c Demux.reading = (refl, refl)
input_ends-Same ch c Demux.stopped = tt
input_ends-Same ch c (Demux.offering n buf) = tt

delivered-Same : (ch : ℕ) (c : Client) (m : Demux) → After (Same ch c) (demux_step delivered c m)
unfolding demux_step
delivered-Same ch c Demux.reading = tt
delivered-Same ch c Demux.stopped = tt
delivered-Same ch c (Demux.offering n buf) = demux_step-Same ch c n buf (get_elem? c.conns n)

pub client_step-Same :
    (ch : ℕ) (e : ClientEvent) (c : Client) → IsQuiet ch c e → After (Same ch c) (client_step e c)
unfolding client_step
client_step-Same ch (at_conn n e) c quiet = on_conn-Same ch c n e (get_elem? c.conns n)
client_step-Same ch (accepts v6 dst) c quiet = draw-Same ch c v6 dst (accept_of c v6)
client_step-Same ch (accept_fails v6) c quiet = accept_failed-Same ch c (accept_of c v6)
client_step-Same ch (inserts v6) c quiet = spawn_conn-Same ch c v6 (accept_of c v6)
client_step-Same ch (queried peer query) c quiet = on_query-Same ch c peer query quiet
client_step-Same ch output_fails c quiet = (refl, refl)
client_step-Same ch (arrives f) c quiet = arrives-Same ch c f c.demux quiet
client_step-Same ch input_ends c quiet = input_ends-Same ch c c.demux
client_step-Same ch delivered c quiet = delivered-Same ch c c.demux
