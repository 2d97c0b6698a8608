-- ===== src/Server/Loop/Events/Reached.antt =====
-- rushtle/src/server.rs, the invariant in every state that the server can reach.
use kubectl_sshuttle.Base.{
  ℕ, ◌≡◌, refl, ◌||◌, Option, none, some, ltb, leb, length, get_elem?, After, After-if,
}
use kubectl_sshuttle.Text.Utf8.{Bytes, Str}
use kubectl_sshuttle.Server.Loop.State.{
  Server, Main, TcpTask, UdpTask, capacity, is_dropped, initial,
}
use kubectl_sshuttle.Server.Loop.{emit}
use kubectl_sshuttle.Server.Loop.Bounds.{Sound, offer-Sound, offer_udp-Sound, handle-Sound}
use kubectl_sshuttle.Server.Loop.Events.{
  Event, TcpEvent, UdpEvent, answer, offer_again, offer_udp_again, main_step, on_task, on_udp_task,
  step, Reach, here, next,
}
use kubectl_sshuttle.Server.Loop.Events.Kept.{Kept, tcp_step-Kept, udp_step-Kept}

answer-Kept :
    (s : Server) (i : ℕ) (reply : Bytes) (o : Option (ℕ × Bytes))
    → Sound s
    → Kept (answer s i reply o)
unfolding answer emit
answer-Kept s i reply none v = tt
answer-Kept s i reply (some (ch, q)) v =
    After-if Sound (leb (length reply) 4096) _ (record { tcp = v.tcp; udp = v.udp })

offer_again-Kept :
    (s : Server) (n : ℕ) (buf : Bytes) (o : Option TcpTask)
    → get_elem? s.tasks n ≡ o
    → Sound s
    → Kept (offer_again s n buf o)
unfolding offer_again
offer_again-Kept s n buf none found v = tt
offer_again-Kept s n buf (some t) found v =
    After-if Sound (is_dropped t || ltb (length t.queue) capacity) _
      (offer-Sound s n buf (some t) found v)

offer_udp_again-Kept :
    (s : Server) (n : ℕ) (item : Str × ℕ × Bytes) (o : Option UdpTask)
    → get_elem? s.udp_tasks n ≡ o
    → Sound s
    → Kept (offer_udp_again s n item o)
unfolding offer_udp_again
offer_udp_again-Kept s n item none found v = tt
offer_udp_again-Kept s n item (some t) found v =
    After-if Sound (ltb (length t.queue) capacity) _ (offer_udp-Sound s n item (some t) found v)

main_step-Kept :
    (hosts : Option Str) (e : Event) (s : Server) (m : Main)
    → Sound s
    → Kept (main_step hosts e s m)
unfolding main_step
main_step-Kept hosts (Event.arrives binds f) s Main.reading v = handle-Sound hosts binds s f v
main_step-Kept hosts Event.input_ends s Main.reading v = record { tcp = v.tcp; udp = v.udp }
main_step-Kept hosts Event.offered s (Main.offering n buf) v =
    offer_again-Kept s n buf (get_elem? s.tasks n) refl v
main_step-Kept hosts Event.offered_udp s (Main.offering_udp n item) v =
    offer_udp_again-Kept s n item (get_elem? s.udp_tasks n) refl v
main_step-Kept hosts _ s _ v = tt

on_task-Kept :
    (s : Server) (n : ℕ) (e : TcpEvent) (o : Option TcpTask)
    → get_elem? s.tasks n ≡ o
    → Sound s
    → Kept (on_task s n e o)
unfolding on_task
on_task-Kept s n e none found v = tt
on_task-Kept s n e (some t) found v = tcp_step-Kept s n t e t.phase found v

on_udp_task-Kept :
    (s : Server) (n : ℕ) (e : UdpEvent) (o : Option UdpTask)
    → get_elem? s.udp_tasks n ≡ o
    → Sound s
    → Kept (on_udp_task s n e o)
unfolding on_udp_task
on_udp_task-Kept s n e none found v = tt
on_udp_task-Kept s n e (some t) found v = udp_step-Kept s n t e found v

pub step-Kept :
    (hosts : Option Str) (e : Event) (s : Server) → Sound s → After Sound (step hosts e s)
unfolding step
step-Kept hosts (Event.tcp_event n e) s v = on_task-Kept s n e (get_elem? s.tasks n) refl v
step-Kept hosts (Event.udp_event n e) s v = on_udp_task-Kept s n e (get_elem? s.udp_tasks n) refl v
step-Kept hosts (Event.dns_answered i reply) s v = answer-Kept s i reply (get_elem? s.dns i) v
step-Kept hosts Event.out_closes s v = record { tcp = v.tcp; udp = v.udp }
step-Kept hosts e s v = main_step-Kept hosts e s s.main v

-- In every state that the server reaches from its first, each queue of a TCP or UDP channel has at
-- most 64 items, and each channel of either map is that of the task to whose queue it leads.
pub Reach-Sound : (hosts : Option Str) (s : Server) → Reach hosts initial s → Sound s
Reach-Sound hosts s here = record {
  tcp = record { bounded = λ n t h. cc; known = λ ch n h. cc };
  udp = record { bounded = λ n t h. cc; known = λ ch n h. cc };
}
Reach-Sound hosts s (next {t} {u} e before ran) =
    let kept = step-Kept hosts e t (Reach-Sound hosts t before) in rw ran at kept
