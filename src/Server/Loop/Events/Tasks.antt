-- ===== src/Server/Loop/Events/Tasks.antt =====
-- rushtle/src/server.rs, where the map sends the channel of a task, through any step.
use kubectl_sshuttle.Base.{
  ℕ, ◌≡◌, refl, ap, inl, inr, Bool, false, not, ◌||◌, ◌&&◌, Option, none, some, List, [], ◌∷◌,
  arith, ltb, leb, ◌==◌, length, get_elem?, set, get_elem?-set_self, After, After-if, After-unless,
  Keeps-set, Only-before, ℕ_discrete,
}
use kubectl_sshuttle.Text.Utf8.{Bytes, Str}
use kubectl_sshuttle.Ssnet.Frame.{Frame, chunk}
use kubectl_sshuttle.Ssnet.Carried.{is_open-none}
use kubectl_sshuttle.Server.Loop.State.{Server, Main, TcpTask, UdpTask, Phase, capacity, is_dropped}
use kubectl_sshuttle.Server.Loop.{emit, set_task}
use kubectl_sshuttle.Server.Loop.Bounds.{tcp_channel}
use kubectl_sshuttle.Server.Loop.Events.{
  Event, TcpEvent, UdpEvent, tcp_locked, udp_locked, has_sender, no_bytes, write_round, put_back,
  remove_task, tcp_step, put_udp, send_round, udp_step, answer, offer_again, offer_udp_again,
  main_step, on_task, on_udp_task, step,
}
use kubectl_sshuttle.Server.Loop.Events.Routed.{
  Routed, mapped, apart, offer-Routed, offer_udp-Routed, handle-Routed,
}

-- a task is replaced
replaced :
    (n m : ℕ) (t u u' : TcpTask) (s x : Server)
    → get_elem? s.tasks m ≡ some u
    → u'.channel ≡ u.channel
    → x.tasks ≡ set s.tasks m u'
    → x.tcp ≡ s.tcp
    → Routed n t [] s x
replaced n m t u u' s x found ch ts same =
    mapped n t [] s x (Keeps-set tcp_channel s.tasks x.tasks m u u' found ch ts)
      (ap (λ y. y t.channel) same) (is_open-none t.channel)

write_round-channel :
    (sender good : Bool) (u : TcpTask) (q : List Bytes) (u' : TcpTask)
    → write_round sender good u q ≡ some u'
    → u'.channel ≡ u.channel
unfolding write_round
write_round-channel sender good u [] u' h = ground arith
write_round-channel sender good u (buf ∷ rest) u' h = ground arith

put_back-Routed :
    (n m : ℕ) (t u : TcpTask) (s : Server) (o : Option TcpTask)
    → get_elem? s.tasks m ≡ some u
    → ((u' : TcpTask) → o ≡ some u' → u'.channel ≡ u.channel)
    → After (Routed n t [] s) (put_back s m o)
unfolding put_back set_task
put_back-Routed n m t u s none found same = tt
put_back-Routed n m t u s (some u') found same =
    replaced n m t u u' s _ found (same u' refl) refl refl

-- The task itself is gone, or the channel that is erased is another.
remove_task-Routed :
    (n m : ℕ) (t u : TcpTask) (s : Server)
    → get_elem? s.tasks m ≡ some u
    → Routed n t [] s (remove_task s m u)
unfolding remove_task set_task is_dropped
remove_task-Routed n m t u s found =
    let u' : TcpTask = record u { phase = Phase.gone; queue = [] } in
    let kept = Keeps-set tcp_channel s.tasks (set s.tasks m u') m u u' found refl refl in
    record {
      keeps = kept;
      routed = λ only. elim (ℕ_discrete m n) [
        | yes own ↦ inl (u', rw (← own) (get_elem?-set_self s.tasks m u u' found), refl)
        | no other ↦
            let only' = Only-before tcp_channel n t.channel s.tasks (set s.tasks m u') kept only in
            let apart_from : (t.channel == u.channel) ≡ false =
              ground (arith, λ (e : u.channel ≡ t.channel). other (only' m u found e)) in
            inr (rw (apart_from, is_open-none t.channel) refl)
      ];
    }

tcp_step-Routed :
    (n m : ℕ) (t u : TcpTask) (s : Server) (e : TcpEvent) (p : Phase)
    → get_elem? s.tasks m ≡ some u
    → After (Routed n t [] s) (tcp_step s m u e p)
unfolding tcp_step emit set_task
tcp_step-Routed n m t u s TcpEvent.connects Phase.connecting found =
    replaced n m t u (record u { phase = Phase.streaming }) s _ found refl refl refl
tcp_step-Routed n m t u s TcpEvent.refuses Phase.connecting found =
    replaced n m t u (record u { phase = Phase.refused }) s _ found refl refl refl
tcp_step-Routed n m t u s TcpEvent.removes Phase.refused found =
    After-unless (Routed n t [] s) (tcp_locked s.main) _ (remove_task-Routed n m t u s found)
tcp_step-Routed n m t u s TcpEvent.removes Phase.streaming found =
    After-unless (Routed n t [] s) (tcp_locked s.main || u.writer_live || u.reader_live) _
      (remove_task-Routed n m t u s found)
tcp_step-Routed n m t u s (TcpEvent.writes good) Phase.streaming found =
    let sender = has_sender (s.tcp u.channel) m in
    After-if (Routed n t [] s) u.writer_live _ (
      put_back-Routed n m t u s (write_round sender good u u.queue) found
        (λ u' h. write_round-channel sender good u u.queue u' h))
tcp_step-Routed n m t u s (TcpEvent.reads bytes) Phase.streaming found =
    After-if (Routed n t [] s) (u.reader_live && not (no_bytes bytes) && leb (length bytes) chunk) _
      (replaced n m t u (record u { reader_live = s.out_open }) s _ found refl refl refl)
tcp_step-Routed n m t u s TcpEvent.read_ends Phase.streaming found =
    After-if (Routed n t [] s) u.reader_live _
      (replaced n m t u (record u { reader_live = false }) s _ found refl refl refl)
tcp_step-Routed n m t u s _ _ found = tt

on_task-Routed :
    (n m : ℕ) (t : TcpTask) (s : Server) (e : TcpEvent) (o : Option TcpTask)
    → get_elem? s.tasks m ≡ o
    → After (Routed n t [] s) (on_task s m e o)
unfolding on_task
on_task-Routed n m t s e none found = tt
on_task-Routed n m t s e (some u) found = tcp_step-Routed n m t u s e u.phase found

send_round-Routed :
    (n m : ℕ) (t : TcpTask) (s : Server) (u : UdpTask) (q : List (Str × ℕ × Bytes))
    → After (Routed n t [] s) (send_round s m u q)
unfolding send_round put_udp
send_round-Routed n m t s u [] = tt
send_round-Routed n m t s u (item ∷ rest) = apart n t [] s _ refl refl (is_open-none t.channel)

udp_step-Routed :
    (n m : ℕ) (t : TcpTask) (s : Server) (u : UdpTask) (e : UdpEvent)
    → After (Routed n t [] s) (udp_step s m u e)
unfolding udp_step emit put_udp
udp_step-Routed n m t s u UdpEvent.sends = send_round-Routed n m t s u u.queue
udp_step-Routed n m t s u (UdpEvent.receives ip port bytes) =
    After-if (Routed n t [] s) (u.listening && not u.checking && leb (length bytes) 4096) _
      (apart n t [] s _ refl refl (is_open-none t.channel))
udp_step-Routed n m t s u UdpEvent.recv_fails =
    After-if (Routed n t [] s) (u.listening && not u.checking) _
      (apart n t [] s _ refl refl (is_open-none t.channel))
udp_step-Routed n m t s u UdpEvent.checks =
    After-if (Routed n t [] s) (u.checking && not (udp_locked s.main)) _
      (apart n t [] s _ refl refl (is_open-none t.channel))

on_udp_task-Routed :
    (n m : ℕ) (t : TcpTask) (s : Server) (e : UdpEvent) (o : Option UdpTask)
    → After (Routed n t [] s) (on_udp_task s m e o)
unfolding on_udp_task
on_udp_task-Routed n m t s e none = tt
on_udp_task-Routed n m t s e (some u) = udp_step-Routed n m t s u e

answer-Routed :
    (n i : ℕ) (t : TcpTask) (s : Server) (reply : Bytes) (o : Option (ℕ × Bytes))
    → After (Routed n t [] s) (answer s i reply o)
unfolding answer emit
answer-Routed n i t s reply none = tt
answer-Routed n i t s reply (some (ch, q)) =
    After-if (Routed n t [] s) (leb (length reply) 4096) _
      (apart n t [] s _ refl refl (is_open-none t.channel))

offer_again-Routed :
    (n m : ℕ) (t : TcpTask) (s : Server) (buf : Bytes) (o : Option TcpTask)
    → get_elem? s.tasks m ≡ o
    → After (Routed n t [] s) (offer_again s m buf o)
unfolding offer_again
offer_again-Routed n m t s buf none found = tt
offer_again-Routed n m t s buf (some u) found =
    After-if (Routed n t [] s) (is_dropped u || ltb (length u.queue) capacity) _
      (offer-Routed n m t [] s buf (some u) found (is_open-none t.channel))

offer_udp_again-Routed :
    (n m : ℕ) (t : TcpTask) (s : Server) (item : Str × ℕ × Bytes) (o : Option UdpTask)
    → After (Routed n t [] s) (offer_udp_again s m item o)
unfolding offer_udp_again
offer_udp_again-Routed n m t s item none = tt
offer_udp_again-Routed n m t s item (some u) =
    After-if (Routed n t [] s) (ltb (length u.queue) capacity) _
      (offer_udp-Routed n m t [] s item (some u) (is_open-none t.channel))

-- the frames that an event brings
abbrev pub arrived : Event → List Frame
arrived (Event.arrives binds f) = f ∷ []
arrived _ = []

main_step-Routed :
    (hosts : Option Str) (e : Event) (n : ℕ) (t : TcpTask) (s : Server) (m : Main)
    → get_elem? s.tasks n ≡ some t
    → After (Routed n t (arrived e) s) (main_step hosts e s m)
unfolding main_step
main_step-Routed hosts (Event.arrives binds f) n t s Main.reading found =
    handle-Routed hosts binds n t s f found
main_step-Routed hosts Event.input_ends n t s Main.reading found =
    apart n t [] s _ refl refl (is_open-none t.channel)
main_step-Routed hosts Event.offered n t s (Main.offering m buf) found =
    offer_again-Routed n m t s buf (get_elem? s.tasks m) refl
main_step-Routed hosts Event.offered_udp n t s (Main.offering_udp m item) found =
    offer_udp_again-Routed n m t s item (get_elem? s.udp_tasks m)
main_step-Routed hosts _ n t s _ found = tt

pub step-Routed :
    (hosts : Option Str) (e : Event) (n : ℕ) (t : TcpTask) (s : Server)
    → get_elem? s.tasks n ≡ some t
    → After (Routed n t (arrived e) s) (step hosts e s)
unfolding step
step-Routed hosts (Event.tcp_event m e) n t s found =
    on_task-Routed n m t s e (get_elem? s.tasks m) refl
step-Routed hosts (Event.udp_event m e) n t s found =
    on_udp_task-Routed n m t s e (get_elem? s.udp_tasks m)
step-Routed hosts (Event.dns_answered i reply) n t s found =
    answer-Routed n i t s reply (get_elem? s.dns i)
step-Routed hosts Event.out_closes n t s found = apart n t [] s _ refl refl (is_open-none t.channel)
step-Routed hosts e n t s found = main_step-Routed hosts e n t s s.main found
