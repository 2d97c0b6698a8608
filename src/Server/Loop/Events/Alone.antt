-- ===== src/Server/Loop/Events/Alone.antt =====
-- What the steps of the server's tasks leave alone: the main loop's state and the other tasks.
use kubectl_sshuttle.Base.{
  ℕ, ◌≡◌, ◌≢◌, refl, sym, ap, Bool, true, false, Option, none, some, arith, if◌then◌else◌,
  get_elem?, get_elem?-set_ne, Bool-cases, inl, inr,
}
use kubectl_sshuttle.Ssnet.Frame.{Frame}
use kubectl_sshuttle.Text.Utf8.{Bytes}
use kubectl_sshuttle.Server.Loop.State.{Server, TcpTask, UdpTask, Phase}
use kubectl_sshuttle.Server.Loop.{emit, set_task}
use kubectl_sshuttle.Server.Loop.Events.{
  TcpEvent, UdpEvent, tcp_step, udp_step, on_udp_task, put_back, remove_task, answer,
}

-- what a task's step leaves alone
pub record Alone (n : ℕ) (s s' : Server) : Type 0 where
  pub main : s'.main ≡ s.main
  pub others : (k : ℕ) → n ≢ k → get_elem? s'.tasks k ≡ get_elem? s.tasks k

pub set_task-Alone : (s : Server) (n : ℕ) (t : TcpTask) → Alone n s (set_task s n t)
unfolding set_task
set_task-Alone s n t = record { main = refl; others = λ k h. get_elem?-set_ne s.tasks n k t h }

put_back-Alone :
    (s s' : Server) (n : ℕ) (o : Option TcpTask) → put_back s n o ≡ some s' → Alone n s s'
unfolding put_back
put_back-Alone s s' n none h = cc
put_back-Alone s s' n (some t) h =
    let e : set_task s n t ≡ s' = cc in rw (← e) (set_task-Alone s n t)

-- a step that happened went to this state
pub Alone-some : (n : ℕ) (s u s' : Server) → Alone n s u → some u ≡ some s' → Alone n s s'
Alone-some n s u s' a h = let e : u ≡ s' = cc in rw (← e) a

pub Alone-if :
    (b : Bool) (n : ℕ) (s u s' : Server)
    → Alone n s u
    → (if b then some u else none) ≡ some s'
    → Alone n s s'
Alone-if true n s u s' a h = Alone-some n s u s' a h
Alone-if false n s u s' a h = cc

Alone-unless :
    (b : Bool) (n : ℕ) (s u s' : Server)
    → Alone n s u
    → (if b then none else some u) ≡ some s'
    → Alone n s s'
Alone-unless false n s u s' a h = Alone-some n s u s' a h
Alone-unless true n s u s' a h = cc

remove_task-Alone : (s : Server) (n : ℕ) (t : TcpTask) → Alone n s (remove_task s n t)
unfolding remove_task set_task
remove_task-Alone s n t = record { main = refl; others = λ k h. get_elem?-set_ne s.tasks n k _ h }

emit-Alone : (n : ℕ) (s : Server) (f : Frame) → Alone n s (emit s f)
unfolding emit
emit-Alone n s f = record { main = refl; others = λ k h. refl }

emit_set-Alone :
    (n : ℕ) (s : Server) (f : Frame) (t : TcpTask) → Alone n s (set_task (emit s f) n t)
unfolding emit set_task
emit_set-Alone n s f t = record { main = refl; others = λ k h. get_elem?-set_ne s.tasks n k t h }

pub tcp_step-Alone :
    (s s' : Server) (n : ℕ) (t : TcpTask) (e : TcpEvent) (p : Phase)
    → tcp_step s n t e p ≡ some s'
    → Alone n s s'
unfolding tcp_step
tcp_step-Alone s s' n t TcpEvent.connects Phase.connecting h =
    Alone-some n s _ s' (set_task-Alone s n _) h
tcp_step-Alone s s' n t TcpEvent.refuses Phase.connecting h =
    Alone-some n s _ s' (emit_set-Alone n s _ _) h
tcp_step-Alone s s' n t TcpEvent.removes Phase.streaming h =
    Alone-unless _ n s _ s' (remove_task-Alone s n t) h
tcp_step-Alone s s' n t (TcpEvent.writes good) Phase.streaming h = elim (Bool-cases t.writer_live) [
  | inl live ↦ put_back-Alone s s' n _ (rw live at h)
  | inr over ↦ absurd (cc (rw over at h))
]
tcp_step-Alone s s' n t (TcpEvent.reads bytes) Phase.streaming h =
    Alone-if _ n s _ s' (emit_set-Alone n s _ _) h
tcp_step-Alone s s' n t TcpEvent.read_ends Phase.streaming h =
    Alone-if _ n s _ s' (emit_set-Alone n s _ _) h
tcp_step-Alone s s' n t TcpEvent.removes Phase.refused h =
    Alone-unless _ n s _ s' (remove_task-Alone s n t) h
tcp_step-Alone s s' n t _ _ h = cc

-- a step that leaves the TCP side and the main loop alone
abbrev pub Same : Server → Server → Type 0
Same s s' = (s'.main ≡ s.main) × (s'.tasks ≡ s.tasks)

udp_step-Same :
    (s s' : Server) (n : ℕ) (t : UdpTask) (e : UdpEvent) → udp_step s n t e ≡ some s' → Same s s'
unfolding udp_step emit
udp_step-Same s s' n t UdpEvent.sends h = ground arith
udp_step-Same s s' n t (UdpEvent.receives ip port bytes) h = ground arith
udp_step-Same s s' n t UdpEvent.recv_fails h = ground arith
udp_step-Same s s' n t UdpEvent.checks h = ground arith

pub on_udp_task-Same :
    (s s' : Server) (n : ℕ) (e : UdpEvent) (o : Option UdpTask)
    → on_udp_task s n e o ≡ some s'
    → Same s s'
unfolding on_udp_task
on_udp_task-Same s s' n e none h = cc
on_udp_task-Same s s' n e (some t) h = udp_step-Same s s' n t e h

pub answer-Same :
    (s s' : Server) (i : ℕ) (reply : Bytes) (q : Option (ℕ × Bytes))
    → answer s i reply q ≡ some s'
    → Same s s'
unfolding answer emit
answer-Same s s' i reply none h = cc
answer-Same s s' i reply (some (c, q)) h = ground arith

-- the end of the writer task
pub shut-Same : (s s' : Server) → some (record s { out_open = false }) ≡ some s' → Same s s'
shut-Same s s' h =
    let e : record s { out_open = false } ≡ s' = cc in
    (sym (ap (λ (x : Server). x.main) e), sym (ap (λ (x : Server). x.tasks) e))
