-- ===== src/Server/Loop/Events.antt =====
-- rushtle/src/server.rs, the steps of the main loop and of the tasks that it has spawned.
pub mod Alone
pub mod Serving
pub mod Deadlock
pub mod Flood
pub mod Flow
pub mod Frames
pub mod Steps
pub mod Runs
pub mod Kept
pub mod Reached
pub mod Routed
pub mod Tasks
pub mod Heard
pub mod Said
pub mod Saying
pub mod Speech
pub mod Given
pub mod Samples
use kubectl_sshuttle.Base.{
  ℕ, suc, ◌+◌, ◌-◌, ◌≡◌, ap, ◌≢◌, refl, Bool, true, false, not, ◌||◌, ◌&&◌, Option, none, some,
  List, [], ◌∷◌, ◌++◌, ltb, leb, ◌==◌, if◌then◌else◌, length, get_elem?, set, codes,
}
use kubectl_sshuttle.Text.Utf8.{Bytes, Str}
use kubectl_sshuttle.Ssnet.Cmd
use kubectl_sshuttle.Ssnet.Frame.{Frame, frame, chunk}
use kubectl_sshuttle.Ssnet.Udp.{encode_udp_data}
use kubectl_sshuttle.Server.Loop.State.{
  Server, Main, TcpTask, UdpTask, Phase, capacity, erase, is_dropped,
}
use kubectl_sshuttle.Server.Loop.{emit, set_task, offer, offer_udp, handle}

-- `writes` takes one buffer from the queue, and tells whether the socket accepts it; `reads` is what
-- the socket gives; `removes` is the task's end, which takes the lock of the map.
pub data TcpEvent : Type 0 where
  connects refuses read_ends removes : TcpEvent
  writes : Bool → TcpEvent
  reads : Bytes → TcpEvent

pub data UdpEvent : Type 0 where
  sends recv_fails checks : UdpEvent
  receives : Str → ℕ → Bytes → UdpEvent

pub data Event : Type 0 where
  arrives : Bool → Frame → Event
  input_ends offered offered_udp out_closes : Event
  tcp_event : ℕ → TcpEvent → Event
  udp_event : ℕ → UdpEvent → Event
  dns_answered : ℕ → Bytes → Event

-- Another task cannot take the lock of the TCP map while the main loop holds it.
pub tcp_locked : Main → Bool
tcp_locked (Main.offering n buf) = true
tcp_locked _ = false

pub udp_locked : Main → Bool
udp_locked (Main.offering_udp n item) = true
udp_locked _ = false

-- the map still has a sender for the task's queue
pub has_sender : Option ℕ → ℕ → Bool
has_sender none n = false
has_sender (some m) n = m == n

pub no_bytes : Bytes → Bool
no_bytes [] = true
no_bytes (b ∷ bs) = false

-- one round of `while let Some(buf) = inbound_rx.recv().await`
pub write_round : Bool → Bool → TcpTask → List Bytes → Option TcpTask
unfolding no_bytes
write_round sender good t [] = if sender then none else some (record t { writer_live = false })
write_round sender good t (buf ∷ rest) =
    if no_bytes buf || not good
    then some (record t { queue = []; writer_live = false })
    else some (record t { queue = rest; written = t.written ++ buf })

pub put_back : Server → ℕ → Option TcpTask → Option Server
unfolding set_task
put_back s n none = none
put_back s n (some t) = some (set_task s n t)

-- the task's last step, with the lock
pub remove_task : Server → ℕ → TcpTask → Server
unfolding set_task
remove_task s n t = record (set_task s n (record t { phase = Phase.gone; queue = [] })) {
  tcp = erase s.tcp t.channel;
}

unfoldable pub tcp_step : Server → ℕ → TcpTask → TcpEvent → Phase → Option Server
unfolding put_back remove_task write_round has_sender tcp_locked
tcp_step s n t connects Phase.connecting =
    some (set_task s n (record t { phase = Phase.streaming }))
tcp_step s n t refuses Phase.connecting = some (
    set_task (emit s (frame t.channel Cmd.tcp_stop_sending [])) n
      (record t { phase = Phase.refused }))
tcp_step s n t removes Phase.refused = if tcp_locked s.main then none else some (remove_task s n t)
tcp_step s n t removes Phase.streaming =
    if tcp_locked s.main || t.writer_live || t.reader_live then none else some (remove_task s n t)
tcp_step s n t (writes good) Phase.streaming =
    if t.writer_live
    then put_back s n (write_round (has_sender (s.tcp t.channel) n) good t t.queue)
    else none
tcp_step s n t (reads bytes) Phase.streaming =
    if t.reader_live && not (no_bytes bytes) && leb (length bytes) chunk
    then some (
        set_task (emit s (frame t.channel Cmd.tcp_data bytes)) n
          (record t { reader_live = s.out_open }))
    else none
tcp_step s n t read_ends Phase.streaming =
    if t.reader_live
    then some
        (set_task (emit s (frame t.channel Cmd.tcp_eof [])) n (record t { reader_live = false }))
    else none
tcp_step s n t _ _ = none

pub put_udp : Server → ℕ → UdpTask → Server
put_udp s n t = record s { udp_tasks = set s.udp_tasks n t }

pub send_round : Server → ℕ → UdpTask → List (Str × ℕ × Bytes) → Option Server
send_round s n t [] = none
send_round s n t (item ∷ rest) = some (put_udp s n (record t { queue = rest }))

pub is_known : Option ℕ → Bool
is_known none = false
is_known (some n) = true

unfoldable pub udp_step : Server → ℕ → UdpTask → UdpEvent → Option Server
unfolding put_udp send_round is_known udp_locked
udp_step s n t sends = send_round s n t t.queue
udp_step s n t (receives ip port bytes) =
    if t.listening && not t.checking && leb (length bytes) 4096
    then some (
        put_udp (emit s (frame t.channel Cmd.udp_data (encode_udp_data ip port bytes))) n
          (record t { checking = s.out_open; listening = s.out_open }))
    else none
udp_step s n t recv_fails =
    if t.listening && not t.checking
    then some (put_udp s n (record t { listening = false }))
    else none
udp_step s n t checks =
    if t.checking && not (udp_locked s.main)
    then some (put_udp s n (record t { checking = false; listening = is_known (s.udp t.channel) }))
    else none

-- a query is answered once, in any order; an empty reply if every resolver failed
pub without : ℕ → List (ℕ × Bytes) → List (ℕ × Bytes)
without i [] = []
without i (q ∷ qs) = if i == 0 then qs else q ∷ without (i - 1) qs

pub answer : Server → ℕ → Bytes → Option (ℕ × Bytes) → Option Server
unfolding without
answer s i reply none = none
answer s i reply (some (channel, query)) =
    if leb (length reply) 4096
    then some (emit (record s { dns = without i s.dns }) (frame channel Cmd.dns_response reply))
    else none

-- a wait for room ends when there is room or the receiver is gone
pub offer_again : Server → ℕ → Bytes → Option TcpTask → Option Server
offer_again s n buf none = none
offer_again s n buf (some t) =
    if is_dropped t || ltb (length t.queue) capacity then some (offer s n buf (some t)) else none

pub offer_udp_again : Server → ℕ → Str × ℕ × Bytes → Option UdpTask → Option Server
offer_udp_again s n item none = none
offer_udp_again s n item (some t) =
    if ltb (length t.queue) capacity then some (offer_udp s n item (some t)) else none

pub main_step : Option Str → Event → Server → Main → Option Server
unfolding offer_again offer_udp_again
main_step hosts (arrives binds f) s Main.reading = some (handle hosts binds s f)
main_step hosts input_ends s Main.reading = some (record s { main = Main.stopped })
main_step hosts offered s (Main.offering n buf) = offer_again s n buf (get_elem? s.tasks n)
main_step hosts offered_udp s (Main.offering_udp n item) =
    offer_udp_again s n item (get_elem? s.udp_tasks n)
main_step hosts _ s _ = none

pub on_task : Server → ℕ → TcpEvent → Option TcpTask → Option Server
on_task s n e none = none
on_task s n e (some t) = tcp_step s n t e t.phase

pub on_udp_task : Server → ℕ → UdpEvent → Option UdpTask → Option Server
on_udp_task s n e none = none
on_udp_task s n e (some t) = udp_step s n t e

-- One step; `none` if the event cannot happen now.
unfoldable pub step : Option Str → Event → Server → Option Server
unfolding main_step on_task on_udp_task answer
step hosts (tcp_event n e) s = on_task s n e (get_elem? s.tasks n)
step hosts (udp_event n e) s = on_udp_task s n e (get_elem? s.udp_tasks n)
step hosts (dns_answered i reply) s = answer s i reply (get_elem? s.dns i)
step hosts out_closes s = some (record s { out_open = false })
step hosts e s = main_step hosts e s s.main

-- the states that events lead to
pub data Reach (hosts : Option Str) (s : Server) : Server → Type 0 where
  here : Reach hosts s s
  next : {t u : Server} (e : Event) → Reach hosts s t → step hosts e t ≡ some u → Reach hosts s u

pub and_then : Option Server → (Server → Option Server) → Option Server
and_then none g = none
and_then (some t) g = g t

unfoldable pub run : Option Str → List Event → Server → Option Server
unfolding and_then
run hosts [] s = some s
run hosts (e ∷ es) s = and_then (step hosts e s) (run hosts es)

pub step_arrives :
    (hosts : Option Str) (binds : Bool) (f : Frame) (s : Server)
    → s.main ≡ Main.reading
    → step hosts (arrives binds f) s ≡ some (handle hosts binds s f)
unfolding step
step_arrives hosts binds f s h = ap (main_step hosts (arrives binds f) s) h
