-- ===== src/Server/Loop/Events/Heard.antt =====
-- rushtle/src/server.rs, the bytes that the frames of a run bring for a task.
use mathlib.Core.Path.{subst}
use kubectl_sshuttle.Base.{
  ℕ, ◌≡◌, ◌≢◌, refl, sym, ap, ◌∙◌, ◌⊎◌, inl, inr, Bool, true, false, ◌&&◌, Option, none, some, List,
  [], ◌∷◌, ◌++◌, arith, ◌==◌, ==_iff, if◌then◌else◌, get_elem?, Bool-cases, After, Keeps,
  Keeps-same, Keeps-trans, Only, Only-before,
}
use kubectl_sshuttle.Text.Utf8.{Str}
use kubectl_sshuttle.Ssnet.Cmd
use kubectl_sshuttle.Ssnet.Frame.{Frame}
use kubectl_sshuttle.Ssnet.Carried.{
  payloads, is_open, carried, payloads-one, payloads-none, said_twice, nothing, leads, routed_on,
}
use kubectl_sshuttle.Server.Loop.State.{Server, TcpTask, is_dropped}
use kubectl_sshuttle.Server.Loop.Bounds.{Sound, tcp_channel}
use kubectl_sshuttle.Server.Loop.Events.{Event, step, and_then, run}
use kubectl_sshuttle.Server.Loop.Events.Flow.{held, flow, payload_for, self_eq}
use kubectl_sshuttle.Server.Loop.Events.Frames.{brought}
use kubectl_sshuttle.Server.Loop.Events.Steps.{brings}
use kubectl_sshuttle.Server.Loop.Events.Runs.{run-Moved, brought_in, from_next, run-flow}
use kubectl_sshuttle.Server.Loop.Events.Reached.{step-Kept}
use kubectl_sshuttle.Server.Loop.Events.Routed.{Routed}
use kubectl_sshuttle.Server.Loop.Events.Tasks.{arrived, step-Routed}

-- the frames that a run brings
abbrev pub arrived_in : List Event → List Frame
arrived_in [] = []
arrived_in (e ∷ es) = arrived e ++ arrived_in es

-- Data on another channel is not for the task.
payload_for-other :
    (n : ℕ) (t : TcpTask) (f : Frame) (s : Server) (o : Option ℕ)
    → Sound s
    → get_elem? s.tasks n ≡ some t
    → s.tcp f.channel ≡ o
    → f.channel ≢ t.channel
    → payload_for n f o ≡ []
payload_for-other n t f s none v found leads_to ne = refl
payload_for-other n t f s (some m) v found leads_to ne = elim (Bool-cases (m == n)) [
  | inr other ↦ rw other refl
  | inl own ↦
      let (u, there, ch) = v.tcp.known f.channel m leads_to in
      let e : m ≡ n = (==_iff m n).0 own in
      let same : u ≡ t = ground (arith, there, found, e) in
      absurd (ne (sym ch ∙ ap (λ (x : TcpTask). x.channel) same))
]

payload_for-own :
    (n : ℕ) (f : Frame) (live : Bool)
    → payload_for n f (leads live n) ≡ (if live then f.payload else [])
payload_for-own n f true = rw (self_eq n) refl
payload_for-own n f false = refl

brought-said :
    (n : ℕ) (t : TcpTask) (f : Frame) (s : Server) (live : Bool)
    → Sound s
    → get_elem? s.tasks n ≡ some t
    → s.tcp t.channel ≡ leads live n
    → brought n f s ≡ (if live then carried t.channel f else [])
unfolding carried
brought-said n t f s live v found leads_to = elim (Bool-cases (f.cmd == Cmd.tcp_data)) [
  | inr other ↦ rw other (nothing live)
  | inl carries ↦ elim (Bool-cases (f.channel == t.channel)) [
    | inl same ↦
        let e : f.channel ≡ t.channel = (==_iff f.channel t.channel).0 same in
        rw (carries, same)
          (ap (λ c. payload_for n f (s.tcp c)) e
            ∙ ap (payload_for n f) leads_to
            ∙ payload_for-own n f live)
    | inr away ↦
        rw (carries, away)
          (payload_for-other n t f s (s.tcp f.channel) v found refl (ground (arith, away))
            ∙ nothing live)
  ]
]

brings-said :
    (n : ℕ) (t : TcpTask) (e : Event) (s : Server) (live : Bool)
    → Sound s
    → get_elem? s.tasks n ≡ some t
    → s.tcp t.channel ≡ leads live n
    → brings n e s ≡ (if live then payloads t.channel (arrived e) else [])
brings-said n t (Event.arrives binds f) s live v found leads_to =
    brought-said n t f s live v found leads_to
    ∙ ap (λ b. if live then b else []) (sym (payloads-one t.channel f))
brings-said n t _ s live v found leads_to = rw (payloads-none t.channel) (nothing live)

run-Keeps :
    (hosts : Option Str) (es : List Event) (s s' : Server) (n : ℕ) (t : TcpTask)
    → get_elem? s.tasks n ≡ some t
    → run hosts es s ≡ some s'
    → Keeps tcp_channel s.tasks s'.tasks
unfolding run and_then
run-Keeps hosts [] s s' n t found ran =
    let e : s ≡ s' = cc in
    Keeps-same tcp_channel s.tasks s'.tasks (ap (λ (x : Server). x.tasks) (sym e))
run-Keeps hosts (e ∷ es) s s' n t found ran =
    go (step hosts e s) (step-Routed hosts e n t s found) ran
      (λ u i there more. run-Keeps hosts es u s' n i there more)
  where
    go :
        (o : Option Server)
        → After (Routed n t (arrived e) s) o
        → and_then o (run hosts es) ≡ some s'
        → ((u : Server) (i : TcpTask)
            → get_elem? u.tasks n ≡ some i
            → run hosts es u ≡ some s'
            → Keeps tcp_channel u.tasks s'.tasks)
        → Keeps tcp_channel s.tasks s'.tasks
    go none v more later = cc
    go (some u) v more later =
        let (i, there, ch) = v.keeps n t found in
        Keeps-trans tcp_channel s.tasks u.tasks s'.tasks v.keeps (later u i there more)

-- the task is there and has dropped its queue
abbrev pub Gone : ℕ → Server → Type 0
Gone n s = (t : TcpTask) × (get_elem? s.tasks n ≡ some t) × (is_dropped t ≡ true)

run-Gone :
    (hosts : Option Str) (es : List Event) (s s' : Server) (n : ℕ)
    → run hosts es s ≡ some s'
    → Gone n s
    → Gone n s'
run-Gone hosts es s s' n ran (t, found, gone) =
    let v = run-Moved hosts es s s' n t found ran in (v.task, v.found, v.stays gone)

-- what a run brings for a task whose channel leads to it
abbrev Heard : Option Str → List Event → Server → Server → ℕ → TcpTask → Bool → Type 0
Heard hosts es s s' n t live =
    Gone n s'
    ⊎ (brought_in hosts n es s ≡ (if live then payloads t.channel (arrived_in es) else []))

pub run-Heard :
    (hosts : Option Str) (es : List Event) (s s' : Server) (n : ℕ) (t : TcpTask) (live : Bool)
    → get_elem? s.tasks n ≡ some t
    → Sound s
    → run hosts es s ≡ some s'
    → Only tcp_channel n t.channel s'.tasks
    → s.tcp t.channel ≡ leads live n
    → Heard hosts es s s' n t live
unfolding run and_then
run-Heard hosts [] s s' n t live found v ran only leads_to =
    inr (rw (payloads-none t.channel) (nothing live))
run-Heard hosts (e ∷ es) s s' n t live found v ran only leads_to =
    go (step hosts e s) (step-Routed hosts e n t s found) (step-Kept hosts e s v) ran
      (λ u i live' there w more only' leads_to'.
        run-Heard hosts es u s' n i live' there w more only' leads_to')
  where
    go :
        (o : Option Server)
        → After (Routed n t (arrived e) s) o
        → After Sound o
        → and_then o (run hosts es) ≡ some s'
        → ((u : Server) (i : TcpTask) (live' : Bool)
            → get_elem? u.tasks n ≡ some i
            → Sound u
            → run hosts es u ≡ some s'
            → Only tcp_channel n i.channel s'.tasks
            → u.tcp i.channel ≡ leads live' n
            → Heard hosts es u s' n i live')
        → Gone n s'
          ⊎ (brings n e s ++ from_next o (brought_in hosts n es)
              ≡ (if live then payloads t.channel (arrived e ++ arrived_in es) else []))
    go none r w more later = cc
    go (some u) r w more later =
        let (i, there, ch) = r.keeps n t found in
        let rest = run-Keeps hosts es u s' n i there more in
        elim (r.routed (Only-before tcp_channel n t.channel u.tasks s'.tasks rest only)) [
          | inl gone ↦ inl (run-Gone hosts es u s' n more gone)
          | inr routed ↦
              let live' = live && is_open t.channel (arrived e) in
              let to : u.tcp i.channel ≡ leads live' n =
                ap u.tcp ch
                ∙ routed_on live (is_open t.channel (arrived e)) n (s.tcp t.channel)
                    (u.tcp t.channel) leads_to routed in
              elim (later u i live' there w more (λ m j h x. only m j h (x ∙ ch)) to) [
                | inl gone ↦ inl gone
                | inr heard ↦ inr (
                    said_twice t.channel live live' (arrived e) (arrived_in es) (brings n e s)
                      (brought_in hosts n es u) refl (brings-said n t e s live v found leads_to)
                      (subst
                        (λ c.
                          brought_in hosts n es u
                          ≡ (if live' then payloads c (arrived_in es) else []))
                        ch heard))
              ]
        ]

-- In a run of the server at whose end no other task has a task's channel, a task to which the map
-- sent its channel has dropped its queue, or what its socket has taken, what is queued for it and
-- what the main loop holds for it are, in this order, what they were, followed by exactly what the
-- frames that were read carry on its channel, up to the channel's end.
pub run-heard :
    (hosts : Option Str) (es : List Event) (s s' : Server) (n : ℕ) (t : TcpTask)
    → get_elem? s.tasks n ≡ some t
    → Sound s
    → run hosts es s ≡ some s'
    → Only tcp_channel n t.channel s'.tasks
    → s.tcp t.channel ≡ some n
    → (t' : TcpTask) × (get_elem? s'.tasks n ≡ some t')
      × ((is_dropped t' ≡ true)
          ⊎ (flow t' (held s'.main n)
              ≡ flow t (held s.main n) ++ payloads t.channel (arrived_in es)))
run-heard hosts es s s' n t found v ran only leads_to =
    let (t', there, grown) = run-flow hosts es s s' n t found ran in
    (
      t',
      there,
      elim grown [
        | inl gone ↦ inl gone
        | inr e ↦ elim (run-Heard hosts es s s' n t true found v ran only leads_to) [
          | inl (x, hx, gone) ↦
              let same : x ≡ t' = ground (arith, hx, there) in inl (ap is_dropped (sym same) ∙ gone)
          | inr heard ↦ inr (e ∙ ap (λ b. flow t (held s.main n) ++ b) heard)
        ]
      ],
    )
