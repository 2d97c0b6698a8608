-- ===== src/Server/Loop/Events/Kept.antt =====
-- rushtle/src/server.rs, the invariant through a step of a task.
use kubectl_sshuttle.Base.{
  ℕ, ◌≤◌, ◌≡◌, refl, Bool, true, false, not, ◌||◌, ◌&&◌, Option, some, List, [], ◌∷◌, ◌++◌, arith,
  leb, length, get_elem?, Bool-cases, inl, inr, After, After-if, After-unless, erase-IsSound,
  set-IsSound,
}
use kubectl_sshuttle.Text.Utf8.{Bytes, Str}
use kubectl_sshuttle.Ssnet.Frame.{Frame, chunk}
use kubectl_sshuttle.Server.Loop.State.{Server, TcpTask, UdpTask, Phase, capacity}
use kubectl_sshuttle.Server.Loop.{emit, set_task}
use kubectl_sshuttle.Server.Loop.Bounds.{Sound, queued, tcp_channel, udp_queued, udp_channel}
use kubectl_sshuttle.Server.Loop.Events.{
  TcpEvent, UdpEvent, tcp_locked, udp_locked, has_sender, no_bytes, write_round, put_back,
  remove_task, tcp_step, put_udp, send_round, udp_step,
}

-- the state behind a step, if the step can be taken, is sound
abbrev pub Kept : Option Server → Type 0
Kept = After Sound

-- a task that stands in the place of one with the same channel
set_task-Sound :
    (s x : Server) (n : ℕ) (t t' : TcpTask)
    → get_elem? s.tasks n ≡ some t
    → t'.channel ≡ t.channel
    → length t'.queue ≤ capacity
    → Sound s
    → x.tasks ≡ s.tasks
    → x.tcp ≡ s.tcp
    → x.udp ≡ s.udp
    → x.udp_tasks ≡ s.udp_tasks
    → Sound (set_task x n t')
unfolding set_task
set_task-Sound s x n t t' found ch few v ts m u us = record {
  tcp =
      rw (ts, m) (set-IsSound capacity queued tcp_channel s.tcp s.tasks n t t' found ch few v.tcp);
  udp = rw (u, us) v.udp;
}

write_round-Kept :
    (s : Server) (n : ℕ) (t : TcpTask) (sender good : Bool) (q : List Bytes)
    → get_elem? s.tasks n ≡ some t
    → length q ≤ capacity
    → length t.queue ≤ capacity
    → Sound s
    → Kept (put_back s n (write_round sender good t q))
unfolding put_back write_round
write_round-Kept s n t true good [] found fq few v = tt
write_round-Kept s n t false good [] found fq few v =
    set_task-Sound s s n t (record t { writer_live = false }) found refl few v refl refl refl refl
write_round-Kept s n t sender good (buf ∷ rest) found fq few v =
    elim (Bool-cases (no_bytes buf || not good)) [
      | inl ends ↦ rw ends (
          set_task-Sound s s n t (record t { queue = []; writer_live = false }) found refl
            (omega arith) v refl refl refl refl)
      | inr goes ↦ rw goes (
          set_task-Sound s s n t (record t { queue = rest; written = t.written ++ buf }) found refl
            (omega arith) v refl refl refl refl)
    ]

remove_task-Sound :
    (s : Server) (n : ℕ) (t : TcpTask)
    → get_elem? s.tasks n ≡ some t
    → Sound s
    → Sound (remove_task s n t)
unfolding remove_task set_task
remove_task-Sound s n t found v = record {
  tcp = erase-IsSound capacity queued tcp_channel s.tcp _ t.channel (
      set-IsSound capacity queued tcp_channel s.tcp s.tasks n t
        (record t { phase = Phase.gone; queue = [] }) found refl (omega arith) v.tcp);
  udp = v.udp;
}

emit-Sound : (s : Server) (f : Frame) → Sound s → Sound (emit s f)
unfolding emit
emit-Sound s f v = record { tcp = v.tcp; udp = v.udp }

pub tcp_step-Kept :
    (s : Server) (n : ℕ) (t : TcpTask) (e : TcpEvent) (p : Phase)
    → get_elem? s.tasks n ≡ some t
    → Sound s
    → Kept (tcp_step s n t e p)
unfolding tcp_step emit
tcp_step-Kept s n t TcpEvent.connects Phase.connecting found v =
    set_task-Sound s s n t (record t { phase = Phase.streaming }) found refl
      (v.tcp.bounded n t found) v refl refl refl refl
tcp_step-Kept s n t TcpEvent.refuses Phase.connecting found v =
    set_task-Sound s _ n t (record t { phase = Phase.refused }) found refl (v.tcp.bounded n t found)
      v refl refl refl refl
tcp_step-Kept s n t TcpEvent.removes Phase.refused found v =
    After-unless Sound (tcp_locked s.main) _ (remove_task-Sound s n t found v)
tcp_step-Kept s n t TcpEvent.removes Phase.streaming found v =
    After-unless Sound (tcp_locked s.main || t.writer_live || t.reader_live) _
      (remove_task-Sound s n t found v)
tcp_step-Kept s n t (TcpEvent.writes good) Phase.streaming found v =
    let few = v.tcp.bounded n t found in
    After-if Sound t.writer_live _
      (write_round-Kept s n t (has_sender (s.tcp t.channel) n) good t.queue found few few v)
tcp_step-Kept s n t (TcpEvent.reads bytes) Phase.streaming found v =
    After-if Sound (t.reader_live && not (no_bytes bytes) && leb (length bytes) chunk) _ (
      set_task-Sound s _ n t (record t { reader_live = s.out_open }) found refl
        (v.tcp.bounded n t found) v refl refl refl refl)
tcp_step-Kept s n t TcpEvent.read_ends Phase.streaming found v = After-if Sound t.reader_live _ (
    set_task-Sound s _ n t (record t { reader_live = false }) found refl (v.tcp.bounded n t found) v
      refl refl refl refl)
tcp_step-Kept s n t _ _ found v = tt

put_udp-Sound :
    (s x : Server) (n : ℕ) (t t' : UdpTask)
    → get_elem? s.udp_tasks n ≡ some t
    → t'.channel ≡ t.channel
    → length t'.queue ≤ capacity
    → Sound s
    → x.tasks ≡ s.tasks
    → x.tcp ≡ s.tcp
    → x.udp ≡ s.udp
    → x.udp_tasks ≡ s.udp_tasks
    → Sound (put_udp x n t')
unfolding put_udp
put_udp-Sound s x n t t' found ch few v ts m u us = record {
  tcp = rw (ts, m) v.tcp;
  udp =
      rw (u, us)
        (set-IsSound capacity udp_queued udp_channel s.udp s.udp_tasks n t t' found ch few v.udp);
}

send_round-Kept :
    (s : Server) (n : ℕ) (t : UdpTask) (q : List (Str × ℕ × Bytes))
    → get_elem? s.udp_tasks n ≡ some t
    → length q ≤ capacity
    → Sound s
    → Kept (send_round s n t q)
unfolding send_round
send_round-Kept s n t [] found few v = tt
send_round-Kept s n t (item ∷ rest) found few v =
    put_udp-Sound s s n t (record t { queue = rest }) found refl (omega arith) v refl refl refl refl

pub udp_step-Kept :
    (s : Server) (n : ℕ) (t : UdpTask) (e : UdpEvent)
    → get_elem? s.udp_tasks n ≡ some t
    → Sound s
    → Kept (udp_step s n t e)
unfolding udp_step emit
udp_step-Kept s n t UdpEvent.sends found v =
    send_round-Kept s n t t.queue found (v.udp.bounded n t found) v
udp_step-Kept s n t (UdpEvent.receives ip port bytes) found v =
    After-if Sound (t.listening && not t.checking && leb (length bytes) 4096) _ (
      put_udp-Sound s _ n t (record t { checking = s.out_open; listening = s.out_open }) found refl
        (v.udp.bounded n t found) v refl refl refl refl)
udp_step-Kept s n t UdpEvent.recv_fails found v = After-if Sound (t.listening && not t.checking) _ (
    put_udp-Sound s s n t (record t { listening = false }) found refl (v.udp.bounded n t found) v
      refl refl refl refl)
udp_step-Kept s n t UdpEvent.checks found v =
    After-if Sound (t.checking && not (udp_locked s.main)) _
      (put_udp-Sound s s n t _ found refl (v.udp.bounded n t found) v refl refl refl refl)
