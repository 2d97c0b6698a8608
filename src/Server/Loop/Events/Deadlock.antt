-- ===== src/Server/Loop/Events/Deadlock.antt =====
-- rushtle/src/server.rs, the lock of the TCP map: the main loop holds it while it waits for room in a
-- queue, and a task whose connection is refused keeps its queue's receiver until it has that lock.
use kubectl_sshuttle.Base.{
  ℕ, ◌≤◌, ◌≡◌, refl, sym, ap, ◌∙◌, true, Option, none, some, length, get_elem?, le→ltb, ℕ_discrete,
}
use kubectl_sshuttle.Text.Utf8.{Bytes, Str}
use kubectl_sshuttle.Server.Loop.State.{Server, Main, TcpTask, Phase, capacity, is_dropped}
use kubectl_sshuttle.Server.Loop.Events.{
  Event, TcpEvent, tcp_locked, tcp_step, step, Reach, here, next, on_task, main_step, offer_again,
}
use kubectl_sshuttle.Server.Loop.Events.Alone.{
  tcp_step-Alone, Same, on_udp_task-Same, answer-Same, shut-Same,
}

-- The main loop offers a buffer to a full queue whose task was refused its connection.
abbrev pub Stuck : ℕ → Bytes → Server → Type 0
Stuck n buf s =
    (t : TcpTask) × (s.main ≡ Main.offering n buf)
    × (get_elem? s.tasks n ≡ some t)
    × (t.phase ≡ Phase.refused)
    × (capacity ≤ length t.queue)

tcp_step_locked :
    (s : Server) (n : ℕ) (t : TcpTask) (e : TcpEvent)
    → tcp_locked s.main ≡ true
    → tcp_step s n t e Phase.refused ≡ none
unfolding tcp_step
tcp_step_locked s n t TcpEvent.removes h = rw h
tcp_step_locked s n t _ h = refl

-- a step that keeps the main loop's state and the task in question
keep-Stuck :
    (n : ℕ) (buf : Bytes) (s s' : Server)
    → s'.main ≡ s.main
    → get_elem? s'.tasks n ≡ get_elem? s.tasks n
    → Stuck n buf s
    → Stuck n buf s'
keep-Stuck n buf s s' m g (t, waits, held, was_refused, full) =
    (t, m ∙ waits, g ∙ held, was_refused, full)

on_task-Stuck :
    (n m : ℕ) (buf : Bytes) (s s' : Server) (e : TcpEvent) (o : Option TcpTask)
    → get_elem? s.tasks m ≡ o
    → on_task s m e o ≡ some s'
    → Stuck n buf s
    → Stuck n buf s'
unfolding on_task tcp_locked
on_task-Stuck n m buf s s' e none o h st = cc
on_task-Stuck n m buf s s' e (some u) o h (t, waits, held, was_refused, full) =
    elim (ℕ_discrete m n) [
      | yes same_task ↦
          let both : some u ≡ some t = sym o ∙ ap (get_elem? s.tasks) same_task ∙ held in
          let mine : u ≡ t = cc in
          let phase : u.phase ≡ Phase.refused = ap (λ (x : TcpTask). x.phase) mine ∙ was_refused in
          absurd (cc (phase, h, tcp_step_locked s m u e locked))
      | no other ↦
          let a = tcp_step-Alone s s' m u e u.phase h in
          keep-Stuck n buf s s' a.main (a.others n other) (t, waits, held, was_refused, full)
    ]
  where
    locked : tcp_locked s.main ≡ true
    locked = rw waits

offer_again_full :
    (n : ℕ) (buf : Bytes) (s : Server) (t : TcpTask)
    → t.phase ≡ Phase.refused
    → capacity ≤ length t.queue
    → offer_again s n buf (some t) ≡ none
unfolding offer_again is_dropped
offer_again_full n buf s t p full = rw (p, le→ltb (length t.queue) capacity full)

main_step_full :
    (hosts : Option Str) (n : ℕ) (buf : Bytes) (s : Server) (e : Event) (t : TcpTask)
    → get_elem? s.tasks n ≡ some t
    → t.phase ≡ Phase.refused
    → capacity ≤ length t.queue
    → main_step hosts e s (Main.offering n buf) ≡ none
unfolding main_step
main_step_full hosts n buf s Event.offered t held p full =
    rw held (offer_again_full n buf s t p full)
main_step_full hosts n buf s _ t held p full = refl

main_step-Stuck :
    (hosts : Option Str) (n : ℕ) (buf : Bytes) (s : Server) (e : Event)
    → Stuck n buf s
    → main_step hosts e s s.main ≡ none
main_step-Stuck hosts n buf s e (t, waits, held, p, full) =
    ap (main_step hosts e s) waits ∙ main_step_full hosts n buf s e t held p full

keep-Same : (n : ℕ) (buf : Bytes) (s s' : Server) → Same s s' → Stuck n buf s → Stuck n buf s'
keep-Same n buf s s' (m, ts) st = keep-Stuck n buf s s' m (ap (λ xs. get_elem? xs n) ts) st

step-Stuck :
    (hosts : Option Str) (e : Event) (n : ℕ) (buf : Bytes) (s s' : Server)
    → step hosts e s ≡ some s'
    → Stuck n buf s
    → Stuck n buf s'
unfolding step
step-Stuck hosts (Event.tcp_event m e) n buf s s' h st =
    on_task-Stuck n m buf s s' e (get_elem? s.tasks m) refl h st
step-Stuck hosts (Event.udp_event m e) n buf s s' h st =
    keep-Same n buf s s' (on_udp_task-Same s s' m e (get_elem? s.udp_tasks m) h) st
step-Stuck hosts (Event.dns_answered i reply) n buf s s' h st =
    keep-Same n buf s s' (answer-Same s s' i reply (get_elem? s.dns i) h) st
step-Stuck hosts Event.out_closes n buf s s' h st = keep-Same n buf s s' (shut-Same s s' h) st
step-Stuck hosts Event.offered n buf s s' h st =
    absurd (cc (main_step-Stuck hosts n buf s Event.offered st))
step-Stuck hosts e n buf s s' h st = absurd (cc (main_step-Stuck hosts n buf s e st))

-- Once the main loop waits for room in the full queue of a task whose connection was refused, no
-- sequence of events of any task frees it: it never reads a frame again.
pub deadlock :
    (hosts : Option Str) (n : ℕ) (buf : Bytes) (s s' : Server)
    → Stuck n buf s
    → Reach hosts s s'
    → s'.main ≡ Main.offering n buf
deadlock hosts n buf s s' st r = (reach_stuck r).1
  where
    reach_stuck : {u : Server} → Reach hosts s u → Stuck n buf u
    reach_stuck here = st
    reach_stuck (next {t} {u} e r h) = step-Stuck hosts e n buf t u h (reach_stuck r)
