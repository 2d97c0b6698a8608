-- ===== src/Client/Forward/Events.antt =====
-- rushtle/src/client.rs, the steps of the accept loops, the connections, the DNS task and the
-- demultiplexer.
pub mod Reached
pub mod Queries
pub mod Answers
pub mod Opening
pub mod Closing
pub mod Flow
pub mod Aside
pub mod Carried
pub mod Delivery
pub mod Told
pub mod Telling
pub mod Others
pub mod Spoken
pub mod Speech
pub mod Routed
pub mod Routes
pub mod Heard
pub mod Samples
use kubectl_sshuttle.Base.{
  arith, get_elem?, set, ℕ, zero, suc, ◌+◌, ◌≡◌, refl, Bool, true, false, not, ◌||◌, ◌&&◌, Option,
  none, some, List, [], ◌∷◌, ◌++◌, ltb, leb, ◌==◌, if◌then◌else◌, length,
}
use kubectl_sshuttle.Text.Utf8.{Bytes, Str}
use kubectl_sshuttle.Ssnet.Cmd
use kubectl_sshuttle.Ssnet.Frame.{Frame, frame, af_inet, af_inet6, chunk}
use kubectl_sshuttle.Ssnet.Connect.{encode_connect}
use kubectl_sshuttle.Client.Channels.{allocate}
use kubectl_sshuttle.Client.Subnets.{is_v6}
use kubectl_sshuttle.Client.Forward.State.{
  Client, Conn, ConnPhase, Demux, Accept, Address, inbound, insert, delete, in_rx_dropped, unlocked,
  set_conn,
}
use kubectl_sshuttle.Client.Forward.{send, deliver, demux_frame}

-- what goes on at the socket of a connection: the first step of `handle_conn`; a buffer is taken
-- from the queue and the socket takes it or not; the socket is read; `handle_conn` comes to its end
pub data ConnEvent : Type 0 where
  opens read_ends leaves : ConnEvent
  writes : Bool → ConnEvent
  reads : Bytes → ConnEvent

-- the accept loops are told apart by `is_v6`
pub data ClientEvent : Type 0 where
  arrives : Frame → ClientEvent
  input_ends delivered output_fails : ClientEvent
  accepts : Bool → Address → ClientEvent
  accept_fails inserts : Bool → ClientEvent
  queried : Address → Bytes → ClientEvent
  at_conn : ℕ → ConnEvent → ClientEvent

abbrev pub accept_of : Client → Bool → Accept
accept_of c false = c.accept_v4
accept_of c true = c.accept_v6

abbrev pub set_accept : Client → Bool → Accept → Client
set_accept c false a = record c { accept_v4 = a }
set_accept c true a = record c { accept_v6 = a }

-- `accept_loop`: a number is drawn
pub draw : Client → Bool → Address → Accept → Option Client
draw c v6 dst Accept.listening =
    let (ch, next) = allocate c.next in
    some (set_accept (record c { next = next }) v6 (Accept.inserting ch dst))
draw c v6 dst (Accept.inserting ch d) = none

-- and, with the lock, the queue is made and the connection's task spawned
pub spawn_conn : Client → Bool → Accept → Option Client
unfolding unlocked
spawn_conn c v6 Accept.listening = none
spawn_conn c v6 (Accept.inserting ch dst) =
    if unlocked c.demux
    then some (
        set_accept
          (record c {
            channels = insert c.channels ch (length c.conns);
            conns =
                c.conns
                ++ (record {
                  channel = ch;
                  dst = dst;
                  phase = ConnPhase.opening;
                  queue = [];
                  written = [];
                  writer_live = true;
                  reader_live = true;
                })
                  ∷ [];
          })
          v6 Accept.listening)
    else none

pub accept_failed : Client → Accept → Option Client
accept_failed c Accept.listening = some c
accept_failed c (Accept.inserting ch d) = none

-- the DNS task: a number is drawn, the peer noted, the query sent; an error ends the task
pub on_query : Client → Address → Bytes → Option Client
unfolding send
on_query c peer query =
    let (ch, next) = allocate c.next in
    if c.dns_live && leb (length query) 4096
    then some
        (record (send (record c { next = next; inflight = insert c.inflight ch peer })
          (frame ch Cmd.dns_req query)) { dns_live = c.out_open })
    else none

-- the first frame of a connection
pub connect_frame : Conn → Frame
connect_frame k =
    frame k.channel Cmd.tcp_connect
      (encode_connect (if is_v6 k.dst.0 then af_inet6 else af_inet) k.dst.0 k.dst.1)

pub is_empty : Bytes → Bool
is_empty [] = true
is_empty (b ∷ bs) = false

-- `channels` has a sender for this connection's queue
pub sender_of : Option ℕ → ℕ → Bool
sender_of none n = false
sender_of (some m) n = m == n

-- one round of `while let Some(buf) = in_rx.recv().await`
pub write_next : Bool → Bool → Conn → List Bytes → Option Conn
unfolding is_empty
write_next sender good k [] = if sender then none else some (record k { writer_live = false })
write_next sender good k (buf ∷ rest) =
    if is_empty buf || not good
    then some (record k { queue = []; writer_live = false })
    else some (record k { queue = rest; written = k.written ++ buf })

pub put_conn : Client → ℕ → Option Conn → Option Client
put_conn c n none = none
put_conn c n (some k) = some (set_conn c n k)

pub conn_step : Client → ℕ → Conn → ConnEvent → ConnPhase → Option Client
unfolding send connect_frame write_next put_conn sender_of unlocked is_empty
conn_step c n k opens ConnPhase.opening =
    if c.out_open
    then some (set_conn (send c (connect_frame k)) n (record k { phase = ConnPhase.copying }))
    else some (set_conn c n (record k { phase = ConnPhase.finished; queue = [] }))
conn_step c n k (writes good) ConnPhase.copying =
    if k.writer_live
    then put_conn c n (write_next (sender_of (c.channels k.channel) n) good k k.queue)
    else none
conn_step c n k (reads bytes) ConnPhase.copying =
    if k.reader_live && not (is_empty bytes) && leb (length bytes) chunk
    then some (
        set_conn (send c (frame k.channel Cmd.tcp_data bytes)) n
          (record k { reader_live = c.out_open }))
    else none
conn_step c n k read_ends ConnPhase.copying =
    if k.reader_live
    then some
        (set_conn (send c (frame k.channel Cmd.tcp_eof [])) n (record k { reader_live = false }))
    else none
conn_step c n k leaves ConnPhase.copying =
    if unlocked c.demux && not k.writer_live && not k.reader_live
    then some (record (set_conn c n (record k { phase = ConnPhase.finished })) {
      channels = delete c.channels k.channel;
    })
    else none
conn_step c n k _ _ = none

-- a wait for room ends when there is room or the receiver is gone
pub deliver_again : Client → ℕ → Bytes → Option Conn → Option Client
deliver_again c n buf none = none
deliver_again c n buf (some k) =
    if in_rx_dropped k || ltb (length k.queue) inbound
    then some (deliver c n buf (some k))
    else none

pub demux_step : ClientEvent → Client → Demux → Option Client
unfolding deliver_again
demux_step (arrives f) c Demux.reading = some (demux_frame c f)
demux_step input_ends c Demux.reading = some (record c { demux = Demux.stopped })
demux_step delivered c (Demux.offering n buf) = deliver_again c n buf (get_elem? c.conns n)
demux_step _ c _ = none

pub on_conn : Client → ℕ → ConnEvent → Option Conn → Option Client
unfolding conn_step
on_conn c n e none = none
on_conn c n e (some k) = conn_step c n k e k.phase

-- One step; `none` if the event cannot happen now.
unfoldable pub client_step : ClientEvent → Client → Option Client
unfolding demux_step on_conn draw spawn_conn accept_failed on_query
client_step (at_conn n e) c = on_conn c n e (get_elem? c.conns n)
client_step (accepts v6 dst) c = draw c v6 dst (accept_of c v6)
client_step (accept_fails v6) c = accept_failed c (accept_of c v6)
client_step (inserts v6) c = spawn_conn c v6 (accept_of c v6)
client_step (queried peer query) c = on_query c peer query
client_step output_fails c = some (record c { out_open = false })
client_step e c = demux_step e c c.demux

pub then_step : Option Client → (Client → Option Client) → Option Client
then_step none g = none
then_step (some d) g = g d

unfoldable pub client_run : List ClientEvent → Client → Option Client
unfolding then_step
client_run [] c = some c
client_run (e ∷ es) c = then_step (client_step e c) (client_run es)

-- the states that events lead to
pub data Reaches (c : Client) : Client → Type 0 where
  here : Reaches c c
  next : {d d' : Client} (e : ClientEvent) → Reaches c d → client_step e d ≡ some d' → Reaches c d'

Reaches-first :
    (c c' d : Client) (e : ClientEvent) → client_step e c ≡ some c' → Reaches c' d → Reaches c d
Reaches-first c c' d e ran here = next e here ran
Reaches-first c c' d e ran (next e' before ran') = next e' (Reaches-first c c' _ e ran before) ran'

-- the state at the end of a run is reached
pub client_run-Reaches :
    (es : List ClientEvent) (c d : Client) → client_run es c ≡ some d → Reaches c d
unfolding client_run then_step
client_run-Reaches [] c d ran = let e : c ≡ d = ground arith in rw (← e) here
client_run-Reaches (e ∷ es) c d ran =
    go (client_step e c) refl ran (λ c'. client_run-Reaches es c' d)
  where
    go :
        (o : Option Client)
        → client_step e c ≡ o
        → then_step o (client_run es) ≡ some d
        → ((c' : Client) → client_run es c' ≡ some d → Reaches c' d)
        → Reaches c d
    go none took ran rest = cc
    go (some c') took ran rest = Reaches-first c c' d e took (rest c' ran)
