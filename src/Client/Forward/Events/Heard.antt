-- ===== src/Client/Forward/Events/Heard.antt =====
-- rushtle/src/client.rs, the bytes that the frames of a run bring for a connection.
use mathlib.Core.Path.{subst}
use kubectl_sshuttle.Base.{
  ℕ, ◌≡◌, ◌≢◌, refl, sym, ap, ◌∙◌, ◌⊎◌, inl, inr, Bool, true, false, ◌&&◌, Option, none, some, List,
  [], ◌∷◌, ◌++◌, arith, ◌==◌, ==_iff, if◌then◌else◌, get_elem?, Bool-cases, After, Keeps,
  Keeps-same, Keeps-trans, Only, Only-before,
}
use kubectl_sshuttle.Ssnet.Cmd
use kubectl_sshuttle.Ssnet.Frame.{Frame}
use kubectl_sshuttle.Ssnet.Carried.{
  payloads, is_open, carried, payloads-one, payloads-none, said_twice, nothing, leads, routed_on,
}
use kubectl_sshuttle.Client.Forward.State.{Client, Conn, in_rx_dropped}
use kubectl_sshuttle.Client.Forward.Bounds.{Sound, channel_of}
use kubectl_sshuttle.Client.Forward.Events.{
  ClientEvent, arrives, client_step, then_step, client_run,
}
use kubectl_sshuttle.Client.Forward.Events.Flow.{held, flow, payload_for, brought, self_eq}
use kubectl_sshuttle.Client.Forward.Events.Delivery.{
  brings, client_run-Moved, brought_by, from_step, client_run-flow,
}
use kubectl_sshuttle.Client.Forward.Events.Reached.{client_step-Kept}
use kubectl_sshuttle.Client.Forward.Events.Routed.{Routed}
use kubectl_sshuttle.Client.Forward.Events.Routes.{came, client_step-Routed}

-- the frames that a run brings
abbrev pub came_in : List ClientEvent → List Frame
came_in [] = []
came_in (e ∷ es) = came e ++ came_in es

-- Data on another channel is not for the connection.
payload_for-other :
    (n : ℕ) (t : Conn) (f : Frame) (s : Client) (o : Option ℕ)
    → Sound s
    → get_elem? s.conns n ≡ some t
    → s.channels f.channel ≡ o
    → f.channel ≢ t.channel
    → payload_for n f o ≡ []
payload_for-other n t f s none v found leads_to ne = refl
payload_for-other n t f s (some m) v found leads_to ne = elim (Bool-cases (m == n)) [
  | inr other ↦ rw other refl
  | inl own ↦
      let (u, there, ch) = v.known f.channel m leads_to in
      let e : m ≡ n = (==_iff m n).0 own in
      let same : u ≡ t = ground (arith, there, found, e) in
      absurd (ne (sym ch ∙ ap (λ (x : Conn). x.channel) same))
]

payload_for-own :
    (n : ℕ) (f : Frame) (live : Bool)
    → payload_for n f (leads live n) ≡ (if live then f.payload else [])
payload_for-own n f true = rw (self_eq n) refl
payload_for-own n f false = refl

brought-said :
    (n : ℕ) (t : Conn) (f : Frame) (s : Client) (live : Bool)
    → Sound s
    → get_elem? s.conns n ≡ some t
    → s.channels t.channel ≡ leads live n
    → brought n f s ≡ (if live then carried t.channel f else [])
unfolding carried
brought-said n t f s live v found leads_to = elim (Bool-cases (f.cmd == Cmd.tcp_data)) [
  | inr other ↦ rw other (nothing live)
  | inl carries ↦ elim (Bool-cases (f.channel == t.channel)) [
    | inl same ↦
        let e : f.channel ≡ t.channel = (==_iff f.channel t.channel).0 same in
        rw (carries, same)
          (ap (λ c. payload_for n f (s.channels c)) e
            ∙ ap (payload_for n f) leads_to
            ∙ payload_for-own n f live)
    | inr away ↦
        rw (carries, away)
          (payload_for-other n t f s (s.channels f.channel) v found refl (ground (arith, away))
            ∙ nothing live)
  ]
]

brings-said :
    (n : ℕ) (t : Conn) (e : ClientEvent) (s : Client) (live : Bool)
    → Sound s
    → get_elem? s.conns n ≡ some t
    → s.channels t.channel ≡ leads live n
    → brings n e s ≡ (if live then payloads t.channel (came e) else [])
brings-said n t (arrives f) s live v found leads_to =
    brought-said n t f s live v found leads_to
    ∙ ap (λ b. if live then b else []) (sym (payloads-one t.channel f))
brings-said n t _ s live v found leads_to = rw (payloads-none t.channel) (nothing live)

client_run-Keeps :
    (es : List ClientEvent) (s s' : Client) (n : ℕ) (t : Conn)
    → get_elem? s.conns n ≡ some t
    → client_run es s ≡ some s'
    → Keeps channel_of s.conns s'.conns
unfolding client_run then_step
client_run-Keeps [] s s' n t found ran =
    let e : s ≡ s' = cc in
    Keeps-same channel_of s.conns s'.conns (ap (λ (x : Client). x.conns) (sym e))
client_run-Keeps (e ∷ es) s s' n t found ran =
    go (client_step e s) (client_step-Routed e n t s found) ran
      (λ u i there more. client_run-Keeps es u s' n i there more)
  where
    go :
        (o : Option Client)
        → After (Routed n t (came e) s) o
        → then_step o (client_run es) ≡ some s'
        → ((u : Client) (i : Conn)
            → get_elem? u.conns n ≡ some i
            → client_run es u ≡ some s'
            → Keeps channel_of u.conns s'.conns)
        → Keeps channel_of s.conns s'.conns
    go none v more later = cc
    go (some u) v more later =
        let (i, there, ch) = v.keeps n t found in
        Keeps-trans channel_of s.conns u.conns s'.conns v.keeps (later u i there more)

-- the connection is there and has dropped its queue
abbrev pub Gone : ℕ → Client → Type 0
Gone n s = (t : Conn) × (get_elem? s.conns n ≡ some t) × (in_rx_dropped t ≡ true)

client_run-Gone :
    (es : List ClientEvent) (s s' : Client) (n : ℕ)
    → client_run es s ≡ some s'
    → Gone n s
    → Gone n s'
client_run-Gone es s s' n ran (t, found, gone) =
    let v = client_run-Moved es s s' n t found ran in (v.conn, v.found, v.stays gone)

-- what a run brings for a connection whose channel leads to it
abbrev Heard : List ClientEvent → Client → Client → ℕ → Conn → Bool → Type 0
Heard es s s' n t live =
    Gone n s' ⊎ (brought_by n es s ≡ (if live then payloads t.channel (came_in es) else []))

pub client_run-Heard :
    (es : List ClientEvent) (s s' : Client) (n : ℕ) (t : Conn) (live : Bool)
    → get_elem? s.conns n ≡ some t
    → Sound s
    → client_run es s ≡ some s'
    → Only channel_of n t.channel s'.conns
    → s.channels t.channel ≡ leads live n
    → Heard es s s' n t live
unfolding client_run then_step
client_run-Heard [] s s' n t live found v ran only leads_to =
    inr (rw (payloads-none t.channel) (nothing live))
client_run-Heard (e ∷ es) s s' n t live found v ran only leads_to =
    go (client_step e s) (client_step-Routed e n t s found) (client_step-Kept e s v) ran
      (λ u i live' there w more only' leads_to'.
        client_run-Heard es u s' n i live' there w more only' leads_to')
  where
    go :
        (o : Option Client)
        → After (Routed n t (came e) s) o
        → After Sound o
        → then_step o (client_run es) ≡ some s'
        → ((u : Client) (i : Conn) (live' : Bool)
            → get_elem? u.conns n ≡ some i
            → Sound u
            → client_run es u ≡ some s'
            → Only channel_of n i.channel s'.conns
            → u.channels i.channel ≡ leads live' n
            → Heard es u s' n i live')
        → Gone n s'
          ⊎ (brings n e s ++ from_step o (brought_by n es)
              ≡ (if live then payloads t.channel (came e ++ came_in es) else []))
    go none r w more later = cc
    go (some u) r w more later =
        let (i, there, ch) = r.keeps n t found in
        let rest = client_run-Keeps es u s' n i there more in
        elim (r.routed (Only-before channel_of n t.channel u.conns s'.conns rest only)) [
          | inl gone ↦ inl (client_run-Gone es u s' n more gone)
          | inr routed ↦
              let live' = live && is_open t.channel (came e) in
              let to : u.channels i.channel ≡ leads live' n =
                ap u.channels ch
                ∙ routed_on live (is_open t.channel (came e)) n (s.channels t.channel)
                    (u.channels t.channel) leads_to routed in
              elim (later u i live' there w more (λ m j h x. only m j h (x ∙ ch)) to) [
                | inl gone ↦ inl gone
                | inr heard ↦ inr (
                    said_twice t.channel live live' (came e) (came_in es) (brings n e s)
                      (brought_by n es u) refl (brings-said n t e s live v found leads_to)
                      (subst
                        (λ c. brought_by n es u ≡ (if live' then payloads c (came_in es) else []))
                        ch heard))
              ]
        ]

-- In a run of the client at whose end no other connection has a connection's channel, a connection
-- to which the map sent its channel has dropped its queue, or what its local socket has taken, what
-- is queued for it and what the demultiplexer holds for it are, in this order, what they were,
-- followed by exactly what the frames that were read carry on its channel, up to the channel's end.
pub client_run-heard :
    (es : List ClientEvent) (s s' : Client) (n : ℕ) (t : Conn)
    → get_elem? s.conns n ≡ some t
    → Sound s
    → client_run es s ≡ some s'
    → Only channel_of n t.channel s'.conns
    → s.channels t.channel ≡ some n
    → (t' : Conn) × (get_elem? s'.conns n ≡ some t')
      × ((in_rx_dropped t' ≡ true)
          ⊎ (flow t' (held s'.demux n)
              ≡ flow t (held s.demux n) ++ payloads t.channel (came_in es)))
client_run-heard es s s' n t found v ran only leads_to =
    let (t', there, grown) = client_run-flow es s s' n t found ran in
    (
      t',
      there,
      elim grown [
        | inl gone ↦ inl gone
        | inr e ↦ elim (client_run-Heard es s s' n t true found v ran only leads_to) [
          | inl (x, hx, gone) ↦
              let same : x ≡ t' = ground (arith, hx, there) in
              inl (ap in_rx_dropped (sym same) ∙ gone)
          | inr heard ↦ inr (e ∙ ap (λ b. flow t (held s.demux n) ++ b) heard)
        ]
      ],
    )
