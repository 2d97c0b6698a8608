-- ===== src/Client/Forward/Events/Aside.antt =====
-- rushtle/src/client.rs, the steps that leave a connection alone.
use kubectl_sshuttle.Base.{
  ℕ, ◌≡◌, ◌≢◌, refl, ◌∙◌, Bool, true, false, not, ◌&&◌, ◌||◌, Option, none, some, [], ◌∷◌, ◌==◌,
  leb, if◌then◌else◌, length, get_elem?, get_elem?-set_ne, get_elem?-append,
}
use kubectl_sshuttle.Text.Utf8.{Bytes}
use kubectl_sshuttle.Ssnet.Cmd
use kubectl_sshuttle.Ssnet.Frame.{Frame, frame, chunk}
use kubectl_sshuttle.Client.Channels.{allocate}
use kubectl_sshuttle.Client.Forward.State.{
  Client, Conn, ConnPhase, Accept, Address, insert, delete, unlocked, set_conn,
}
use kubectl_sshuttle.Client.Forward.{send, reply, on_response, demux_frame}
use kubectl_sshuttle.Client.Forward.Events.{
  ConnEvent, opens, read_ends, leaves, writes, reads, set_accept, draw, spawn_conn, accept_failed,
  on_query, connect_frame, is_empty, sender_of, write_next, put_conn, conn_step,
}
use kubectl_sshuttle.Base.{After, After-if, After-either}

-- the connection is where it was, and the demultiplexer does what it did
abbrev pub Aside : ℕ → Client → Client → Type 0
Aside n c x =
    ((k : Conn) → get_elem? c.conns n ≡ some k → get_elem? x.conns n ≡ some k) × (x.demux ≡ c.demux)

pub Aside-if :
    (n : ℕ) (c : Client) (b : Bool) (x y : Client)
    → Aside n c x
    → Aside n c y
    → Aside n c (if b then x else y)
Aside-if n c true x y hx hy = hx
Aside-if n c false x y hx hy = hy

pub unmoved : (n : ℕ) (c : Client) → Aside n c c
unmoved n c = ((λ k h. h), refl)

pub send-Aside : (n : ℕ) (c : Client) (f : Frame) → Aside n c (send c f)
unfolding send
send-Aside n c f = Aside-if n c c.out_open _ c ((λ k h. h), refl) (unmoved n c)

-- another connection is replaced
set_conn-Aside :
    (n m : ℕ) (c x : Client) (k : Conn) → m ≢ n → Aside n c x → Aside n c (set_conn x m k)
set_conn-Aside n m c x k ne (there, same) =
    ((λ j h. get_elem?-set_ne x.conns m n k ne ∙ there j h), same)

put_conn-Aside :
    (n m : ℕ) (c : Client) (o : Option Conn) → m ≢ n → After (Aside n c) (put_conn c m o)
unfolding put_conn
put_conn-Aside n m c none ne = tt
put_conn-Aside n m c (some k) ne = set_conn-Aside n m c c k ne (unmoved n c)

pub conn_step-Aside :
    (n m : ℕ) (c : Client) (k : Conn) (e : ConnEvent) (p : ConnPhase)
    → m ≢ n
    → After (Aside n c) (conn_step c m k e p)
unfolding conn_step
conn_step-Aside n m c k opens ConnPhase.opening ne =
    After-either (Aside n c) c.out_open _ _
      (set_conn-Aside n m c (send c (connect_frame k)) (record k { phase = ConnPhase.copying }) ne
        (send-Aside n c (connect_frame k)))
      (set_conn-Aside n m c c (record k { phase = ConnPhase.finished; queue = [] }) ne
        (unmoved n c))
conn_step-Aside n m c k (writes good) ConnPhase.copying ne =
    After-if (Aside n c) k.writer_live _
      (put_conn-Aside n m c (write_next (sender_of (c.channels k.channel) m) good k k.queue) ne)
conn_step-Aside n m c k (reads bytes) ConnPhase.copying ne =
    After-if (Aside n c) (k.reader_live && not (is_empty bytes) && leb (length bytes) chunk) _ (
      set_conn-Aside n m c (send c (frame k.channel Cmd.tcp_data bytes))
        (record k { reader_live = c.out_open }) ne
        (send-Aside n c (frame k.channel Cmd.tcp_data bytes)))
conn_step-Aside n m c k read_ends ConnPhase.copying ne = After-if (Aside n c) k.reader_live _ (
    set_conn-Aside n m c (send c (frame k.channel Cmd.tcp_eof []))
      (record k { reader_live = false }) ne (send-Aside n c (frame k.channel Cmd.tcp_eof [])))
conn_step-Aside n m c k leaves ConnPhase.copying ne =
    After-if (Aside n c) (unlocked c.demux && not k.writer_live && not k.reader_live) _
      (set_conn-Aside n m c c (record k { phase = ConnPhase.finished }) ne (unmoved n c))
conn_step-Aside n m c k opens ConnPhase.copying ne = tt
conn_step-Aside n m c k opens ConnPhase.finished ne = tt
conn_step-Aside n m c k (writes good) ConnPhase.opening ne = tt
conn_step-Aside n m c k (writes good) ConnPhase.finished ne = tt
conn_step-Aside n m c k (reads bytes) ConnPhase.opening ne = tt
conn_step-Aside n m c k (reads bytes) ConnPhase.finished ne = tt
conn_step-Aside n m c k read_ends ConnPhase.opening ne = tt
conn_step-Aside n m c k read_ends ConnPhase.finished ne = tt
conn_step-Aside n m c k leaves ConnPhase.opening ne = tt
conn_step-Aside n m c k leaves ConnPhase.finished ne = tt

set_accept-Aside :
    (n : ℕ) (c d : Client) (v6 : Bool) (a : Accept) → Aside n c d → Aside n c (set_accept d v6 a)
set_accept-Aside n c d false a h = h
set_accept-Aside n c d true a h = h

pub draw-Aside :
    (n : ℕ) (c : Client) (v6 : Bool) (dst : Address) (a : Accept)
    → After (Aside n c) (draw c v6 dst a)
unfolding draw
draw-Aside n c v6 dst Accept.listening = set_accept-Aside n c _ v6 _ ((λ k h. h), refl)
draw-Aside n c v6 dst (Accept.inserting x d) = tt

pub spawn_conn-Aside :
    (n : ℕ) (c : Client) (v6 : Bool) (a : Accept) → After (Aside n c) (spawn_conn c v6 a)
unfolding spawn_conn
spawn_conn-Aside n c v6 Accept.listening = tt
spawn_conn-Aside n c v6 (Accept.inserting x dst) =
    After-if (Aside n c) (unlocked c.demux) _
      (set_accept-Aside n c _ v6 _ ((λ k h. get_elem?-append c.conns _ n k h), refl))

pub accept_failed-Aside : (n : ℕ) (c : Client) (a : Accept) → After (Aside n c) (accept_failed c a)
unfolding accept_failed
accept_failed-Aside n c Accept.listening = unmoved n c
accept_failed-Aside n c (Accept.inserting x d) = tt

pub on_query-Aside :
    (n : ℕ) (c : Client) (peer : Address) (query : Bytes)
    → After (Aside n c) (on_query c peer query)
unfolding on_query
on_query-Aside n c peer query =
    let (ch, later) = allocate c.next in
    After-if (Aside n c) (c.dns_live && leb (length query) 4096) _ (
      send-Aside n (record c { next = later; inflight = insert c.inflight ch peer })
        (frame ch Cmd.dns_req query))

reply-Aside :
    (n : ℕ) (c : Client) (peer : Address) (answer : Bytes) → Aside n c (reply c peer answer)
unfolding reply
reply-Aside n c peer [] = unmoved n c
reply-Aside n c peer (b ∷ bs) = Aside-if n c c.dns_sock _ c ((λ k h. h), refl) (unmoved n c)

on_response-Aside :
    (n : ℕ) (c : Client) (f : Frame) (o : Option Address) → Aside n c (on_response c f o)
unfolding on_response
on_response-Aside n c f none = unmoved n c
on_response-Aside n c f (some peer) =
    reply-Aside n (record c { inflight = delete c.inflight f.channel }) peer f.payload

-- a frame without data for a connection
pub demux_frame-Aside :
    (n : ℕ) (c : Client) (f : Frame) → (f.cmd == Cmd.tcp_data) ≡ false → Aside n c (demux_frame c f)
unfolding demux_frame
demux_frame-Aside n c f other = rw other (
    Aside-if n c (f.cmd == Cmd.ping) _ _ (send-Aside n c (frame f.channel Cmd.pong f.payload)) (
      Aside-if n c (f.cmd == Cmd.pong) _ _ (unmoved n c) (
        Aside-if n c (f.cmd == Cmd.tcp_eof || f.cmd == Cmd.tcp_stop_sending) _ _ ((λ k h. h), refl)
          (Aside-if n c (f.cmd == Cmd.dns_response) _ _
            (on_response-Aside n c f (c.inflight f.channel)) (unmoved n c)))))
