-- ===== src/Client/Forward/Events/Samples.antt =====
-- rushtle/src/client.rs, the forwarding tasks on concrete events.
use kubectl_sshuttle.Base.{
  List, ◌⊎◌, ◌≡◌, refl, true, false, none, some, [], ◌∷◌, ◌++◌, arith, codes, get_elem?,
}
use kubectl_sshuttle.Ssnet.Cmd
use kubectl_sshuttle.Ssnet.Frame.{frame}
use kubectl_sshuttle.Client.Channels.{allocate}
use kubectl_sshuttle.Client.Forward.State.{
  in_rx_dropped, Client, Conn, Accept, Address, insert, at_start, unlocked,
}
use kubectl_sshuttle.Client.Forward.{demux_frame}
use kubectl_sshuttle.Client.Forward.Events.{
  ClientEvent, sender_of, accepts, inserts, at_conn, opens, arrives, queried, writes, reads, leaves,
  client_step, client_run, client_run-Reaches, Reaches,
}
use kubectl_sshuttle.Client.Forward.Events.Reached.{Reaches-Sound}
use kubectl_sshuttle.Client.Forward.Events.Queries.{Waits, asked, later}
use kubectl_sshuttle.Client.Forward.Events.Answers.{answered}
use kubectl_sshuttle.Client.Forward.Events.Opening.{connect_request, open_conn}
use kubectl_sshuttle.Client.Forward.Events.Closing.{drained, stale_end}
use kubectl_sshuttle.Client.Forward.Events.Flow.{held, flow}
use kubectl_sshuttle.Client.Forward.Events.Delivery.{brought_by, client_run-flow}
use kubectl_sshuttle.Client.Forward.Bounds.{Sound}

abbrev pub target : Address
target = (codes "10.0.0.7", 22)

abbrev pub peer : Address
peer = (codes "127.0.0.1", 5353)

-- a connection with one buffer in its queue
abbrev pub connected : Client
connected = record (at_start true) {
  next = 2;
  channels = insert (λ c. none) 1 0;
  conns = record (open_conn 1 target) { queue = codes "hi" ∷ [] } ∷ [];
  out = connect_request 1 target ∷ [];
}

connected_run :
    client_run
      (accepts false target
        ∷ inserts false
        ∷ at_conn 0 opens
        ∷ arrives (frame 1 Cmd.tcp_data (codes "hi"))
        ∷ [])
      (at_start true)
    ≡ some connected
unfolding client_run client_step demux_frame allocate
connected_run = refl

Reaches-Sound_example : Sound connected
Reaches-Sound_example = Reaches-Sound true connected (
    client_run-Reaches
      (accepts false target
        ∷ inserts false
        ∷ at_conn 0 opens
        ∷ arrives (frame 1 Cmd.tcp_data (codes "hi"))
        ∷ [])
      (at_start true) connected connected_run)

-- a query on channel 2, and then a connection that is accepted
abbrev pub asking : Client
asking = record connected {
  next = 3;
  inflight = insert (λ c. none) 2 peer;
  out = connect_request 1 target ∷ frame 2 Cmd.dns_req (codes "q") ∷ [];
}

abbrev pub meanwhile : Client
meanwhile = record asking { next = 4; accept_v6 = Accept.inserting 3 target }

pub asking_step : client_step (queried peer (codes "q")) connected ≡ some asking
unfolding client_step allocate
asking_step = refl

pub meanwhile_waits : Waits 2 asking meanwhile
unfolding client_step allocate
meanwhile_waits = later (accepts true target) asked refl tt

answered_example :
    (d : Client) × (client_step (arrives (frame 2 Cmd.dns_response (codes "a"))) meanwhile ≡ some d)
    × (d.replies ≡ [] ++ (peer, codes "a") ∷ [])
    × (d.inflight 2 ≡ none)
answered_example =
    answered connected asking meanwhile peer (codes "q") (codes "a") refl asking_step
      meanwhile_waits refl

-- the server has ended the channel of a connection that has two buffers in its queue
abbrev half_closed : Client
half_closed = record connected {
  channels = λ c. none;
  conns = record (open_conn 1 target) { queue = codes "ab" ∷ codes "c" ∷ [] } ∷ [];
}

drained_example :
    (d : Client) × (k : Conn) × (client_run
        (at_conn 0 (writes true) ∷ at_conn 0 (writes true) ∷ at_conn 0 (writes true) ∷ [])
        half_closed
      ≡ some d)
    × (get_elem? d.conns 0 ≡ some k)
    × (k.written ≡ [] ++ codes "abc")
    × (k.writer_live ≡ false)
unfolding sender_of
drained_example =
    drained half_closed 0 (record (open_conn 1 target) { queue = codes "ab" ∷ codes "c" ∷ [] }) refl
      refl refl refl ((λ e. cc), ((λ e. cc), tt))

-- channel 1 is drawn again while the first connection on it is about to end
abbrev drawn_again : Client
drawn_again = record connected {
  channels = insert (λ c. none) 1 1;
  conns =
      record (open_conn 1 target) { writer_live = false; reader_live = false }
      ∷ open_conn 1 peer
      ∷ [];
}

stale_end_example :
    (d : Client) × (client_run (at_conn 0 leaves ∷ at_conn 1 (writes true) ∷ []) drawn_again
      ≡ some d)
    × (d.channels 1 ≡ none)
    × (get_elem? d.conns 1 ≡ some (record (open_conn 1 peer) { writer_live = false }))
unfolding unlocked
stale_end_example =
    stale_end drawn_again 0 1
      (record (open_conn 1 target) { writer_live = false; reader_live = false }) (open_conn 1 peer)
      (omega arith) refl refl refl refl refl refl refl refl refl refl refl

-- more data arrives, and the first buffer is written
abbrev carrying : List ClientEvent
carrying = arrives (frame 1 Cmd.tcp_data (codes "yo")) ∷ at_conn 0 (writes true) ∷ []

abbrev carried : Client
carried = record connected {
  conns = record (open_conn 1 target) { queue = codes "yo" ∷ []; written = codes "hi" } ∷ [];
}

carrying_run : client_run carrying connected ≡ some carried
unfolding client_run client_step demux_frame
carrying_run = refl

client_run-flow_example :
    (k : Conn) × (get_elem? carried.conns 0 ≡ some k)
    × ((in_rx_dropped k ≡ true)
        ⊎ (flow k (held carried.demux 0)
            ≡ flow
                (record (open_conn 1 target) { queue = codes "hi" ∷ [] })
                (held connected.demux 0)
              ++ brought_by 0 carrying connected))
client_run-flow_example =
    client_run-flow carrying connected carried 0
      (record (open_conn 1 target) { queue = codes "hi" ∷ [] }) refl carrying_run

-- a connection on channel 1, and bytes both ways
abbrev pub opened : Client
opened = record (at_start false) {
  next = 2;
  channels = insert (λ c. none) 1 0;
  conns = open_conn 1 target ∷ [];
  out = connect_request 1 target ∷ [];
}

pub opened_reached : Reaches (at_start false) opened
unfolding client_run client_step allocate
opened_reached =
    client_run-Reaches (accepts false target ∷ inserts false ∷ at_conn 0 opens ∷ [])
      (at_start false) opened refl

abbrev pub both_ways : List ClientEvent
both_ways =
    at_conn 0 (reads (codes "hi"))
    ∷ arrives (frame 1 Cmd.tcp_data (codes "yo"))
    ∷ at_conn 0 (reads (codes "more"))
    ∷ []

abbrev pub after_both : Client
after_both = record opened {
  conns = record (open_conn 1 target) { queue = codes "yo" ∷ [] } ∷ [];
  out =
      connect_request 1 target
      ∷ frame 1 Cmd.tcp_data (codes "hi")
      ∷ frame 1 Cmd.tcp_data (codes "more")
      ∷ [];
}

pub both_run : client_run both_ways opened ≡ some after_both
unfolding client_run client_step demux_frame
both_run = refl
