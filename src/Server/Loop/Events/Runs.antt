-- ===== src/Server/Loop/Events/Runs.antt =====
-- rushtle/src/server.rs, the bytes of a TCP channel through a run.
use kubectl_sshuttle.Base.{
  ℕ, ◌≡◌, refl, ap, ◌∙◌, ◌⊎◌, inl, inr, true, Option, none, some, List, [], ◌∷◌, ◌++◌, append_assoc,
  get_elem?,
}
use kubectl_sshuttle.Text.Utf8.{Bytes, Str}
use kubectl_sshuttle.Server.Loop.State.{Server, TcpTask, is_dropped}
use kubectl_sshuttle.Server.Loop.Events.{Event, step, and_then, run}
use kubectl_sshuttle.Server.Loop.Events.Flow.{held, flow, Moved, still}
use kubectl_sshuttle.Server.Loop.Events.Steps.{brings, step-Moved}

Moved-trans :
    (n : ℕ) (t : TcpTask) (b d d' : Bytes) (u s : Server) (v : Moved n t b d u)
    → Moved n v.task (held u.main n) d' s
    → Moved n t b (d ++ d') s
Moved-trans n t b d d' u s v w = record {
  task = w.task;
  found = w.found;
  grown = elim v.grown [
    | inl gone ↦ inl (w.stays gone)
    | inr e ↦ elim w.grown [
      | inl gone ↦ inl gone
      | inr e' ↦ inr (e' ∙ ap (λ x. x ++ d') e ∙ append_assoc (flow t b) d d')
    ]
  ];
  stays = λ g. w.stays (v.stays g);
}

abbrev pub from_next : Option Server → (Server → Bytes) → Bytes
from_next none g = []
from_next (some u) g = g u

-- the payloads that a run brings for a task
abbrev pub brought_in : Option Str → ℕ → List Event → Server → Bytes
brought_in hosts n [] s = []
brought_in hosts n (e ∷ es) s = brings n e s ++ from_next (step hosts e s) (brought_in hosts n es)

pub run-Moved :
    (hosts : Option Str) (es : List Event) (s s' : Server) (n : ℕ) (t : TcpTask)
    → get_elem? s.tasks n ≡ some t
    → run hosts es s ≡ some s'
    → Moved n t (held s.main n) (brought_in hosts n es s) s'
unfolding run and_then
run-Moved hosts [] s s' n t h k =
    let e : s ≡ s' = cc in rw (← e) (still n t s (held s.main n) h refl)
run-Moved hosts (e ∷ es) s s' n t h k =
    go (step hosts e s) refl k (λ u x hx j. run-Moved hosts es u s' n x hx j)
  where
    go :
        (o : Option Server)
        → step hosts e s ≡ o
        → and_then o (run hosts es) ≡ some s'
        → ((u : Server) (x : TcpTask)
            → get_elem? u.tasks n ≡ some x
            → run hosts es u ≡ some s'
            → Moved n x (held u.main n) (brought_in hosts n es u) s')
        → Moved n t (held s.main n) (brings n e s ++ from_next o (brought_in hosts n es)) s'
    go none q j later = cc
    go (some u) q j later =
        let v = step-Moved hosts e s u n t h q in
        Moved-trans n t (held s.main n) (brings n e s) (brought_in hosts n es u) u s' v
          (later u v.task v.found j)

-- After any run of the server a task that was there is still there, and either it has dropped its
-- queue, or what its socket has taken, what is queued for it and what the main loop holds for it
-- are, in this order, what they were before, followed by exactly the TCP_DATA payloads that were
-- read while the map sent their channel to the task.
pub run-flow :
    (hosts : Option Str) (es : List Event) (s s' : Server) (n : ℕ) (t : TcpTask)
    → get_elem? s.tasks n ≡ some t
    → run hosts es s ≡ some s'
    → (t' : TcpTask) × (get_elem? s'.tasks n ≡ some t')
      × ((is_dropped t' ≡ true)
          ⊎ (flow t' (held s'.main n) ≡ flow t (held s.main n) ++ brought_in hosts n es s))
run-flow hosts es s s' n t h k =
    let v = run-Moved hosts es s s' n t h k in (v.task, v.found, v.grown)
