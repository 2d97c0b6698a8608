-- ===== src/Client/Probe/Sent.antt =====
-- rushtle/src/client.rs, `probe_once`: what a probe that succeeds has written, and how it slept.
use mathlib.Core.Path.{subst}
use kubectl_sshuttle.Base.{
  ℕ, zero, suc, ◌+◌, ◌-◌, if◌then◌else◌, take, io, ◌≡◌, refl, sym, ap, ◌∙◌, false, Option, none,
  some, List, [], ◌∷◌, ◌++◌, append_assoc, append-nil, arith, ltb, leb, ◌==◌, length, Bool-cases,
  inl, inr, Error, Result, ok, err,
}
use kubectl_sshuttle.Text.Utf8.{Bytes}
use kubectl_sshuttle.Stream.{Output, write_all}
use kubectl_sshuttle.Ssnet.Cmd
use kubectl_sshuttle.Ssnet.Frame.{
  Frame, frame, header, encode, is_empty, max_payload, on_ok, pause, write_frame,
}
use kubectl_sshuttle.Ssnet.Tasks.{encode_all}
use kubectl_sshuttle.Client.Probe.{
  channel_base, on_ping, Collected, Link, probe_once, send_pings, collect_replies, finish,
}
use kubectl_sshuttle.Client.Probe.Complete.{pings}

-- The pipe took these bytes, and the task slept for these times meanwhile.
pub record Took (o o' : Output) (bs : Bytes) (naps : List ℕ) : Type 0 where
  pub bytes : o'.sent ≡ o.sent ++ bs
  pub slept : o'.sleeps ≡ o.sleeps ++ naps

Took-then :
    (o o₁ o₂ : Output) (bs cs : Bytes) (ms ns : List ℕ)
    → Took o o₁ bs ms
    → Took o₁ o₂ cs ns
    → Took o o₂ (bs ++ cs) (ms ++ ns)
Took-then o o₁ o₂ bs cs ms ns t u = record {
  bytes = u.bytes ∙ ap (λ s. s ++ cs) t.bytes ∙ append_assoc o.sent bs cs;
  slept = u.slept ∙ ap (λ s. s ++ ns) t.slept ∙ append_assoc o.sleeps ms ns;
}

Took-none : (o : Output) → Took o o [] []
Took-none o = record { bytes = sym (append-nil o.sent); slept = sym (append-nil o.sleeps) }

-- A writer that succeeds has sent these bytes and slept for these times.
abbrev pub Writes : Output → Bytes → List ℕ → Result Error (Unit {0}) × Output → Type 0
Writes o bs naps (ok u, o') = Took o o' bs naps
Writes o bs naps (err e, o') = Unit {0}

write_all-Writes : (bs : Bytes) (o : Output) → Writes o bs [] (write_all bs o)
unfolding write_all
write_all-Writes bs o = elim-room o.room
  where
    took : (room : Option ℕ) → Took o (record o { sent = o.sent ++ bs; room = room }) bs []
    took room = record { bytes = refl; slept = sym (append-nil o.sleeps) }

    elim-room :
        (room : Option ℕ)
        → Writes o bs [] (elim room [
          | none ↦ (ok tt, record o { sent = o.sent ++ bs })
          | some k ↦
              if leb (length bs) k
              then (ok tt, record o { sent = o.sent ++ bs; room = some (k - length bs) })
              else (err (io o.fault), record o { sent = o.sent ++ take k bs; room = some 0 })
        ])
    elim-room none = took o.room
    elim-room (some k) = elim (Bool-cases (leb (length bs) k)) [
      | inl fits ↦ rw fits (took (some (k - length bs)))
      | inr over ↦ rw over tt
    ]

-- the sleep behind a frame
abbrev pub nap : ℕ → List ℕ
nap zero = []
nap (suc d) = suc d ∷ []

pause-Took :
    (delay : ℕ) (o o' : Output) (bs : Bytes)
    → Took o o' bs []
    → Took o (pause delay o') bs (nap delay)
unfolding pause
pause-Took zero o o' bs t = t
pause-Took (suc d) o o' bs t =
    rw on (record {
      bytes = t.bytes;
      slept = ap (λ s. s ++ suc d ∷ []) (t.slept ∙ append-nil o.sleeps);
    })
  where
    on : (suc d == 0) ≡ false
    on = ground arith

pause-Writes :
    (delay : ℕ) (o : Output) (bs : Bytes) (r : Result Error (Unit {0}) × Output)
    → Writes o bs [] r
    → Writes o bs (nap delay) (on_ok r (λ o'. (ok tt, pause delay o')))
pause-Writes delay o bs (ok u, o') t = pause-Took delay o o' bs t
pause-Writes delay o bs (err e, o') t = tt

and_then :
    (o : Output) (bs cs : Bytes) (ms ns : List ℕ) (r : Result Error (Unit {0}) × Output)
    (rest : Output → Result Error (Unit {0}) × Output)
    → Writes o bs ms r
    → ((o₁ : Output) → Writes o₁ cs ns (rest o₁))
    → Writes o (bs ++ cs) (ms ++ ns) (on_ok r rest)
and_then o bs cs ms ns (err e, o₁) rest t h = tt
and_then o bs cs ms ns (ok u, o₁) rest t h = go (rest o₁) (h o₁)
  where
    go :
        (q : Result Error (Unit {0}) × Output)
        → Writes o₁ cs ns q
        → Writes o (bs ++ cs) (ms ++ ns) q
    go (ok v, o₂) k = Took-then o o₁ o₂ bs cs ms ns t k
    go (err e, o₂) k = tt

payload-Writes :
    (bs : Bytes) (o : Output) → Writes o bs [] (if is_empty bs then (ok tt, o) else write_all bs o)
unfolding is_empty
payload-Writes [] o = Took-none o
payload-Writes (b ∷ bs) o = write_all-Writes (b ∷ bs) o

write_frame-Writes :
    (delay : ℕ) (f : Frame) (o : Output) → Writes o (encode f) (nap delay) (write_frame delay f o)
unfolding write_frame encode
write_frame-Writes delay f o = elim (Bool-cases (ltb max_payload (length f.payload))) [
  | inl long ↦ rw long tt
  | inr fits ↦ rw fits (
      and_then o (header f) f.payload [] (nap delay) (write_all (header f) o)
        (λ o₁.
          on_ok (if is_empty f.payload then (ok tt, o₁) else write_all f.payload o₁)
            (λ o₂. (ok tt, pause delay o₂)))
        (write_all-Writes (header f) o)
        (λ o₁.
          pause-Writes delay o₁ f.payload
            (if is_empty f.payload then (ok tt, o₁) else write_all f.payload o₁)
            (payload-Writes f.payload o₁)))
]

-- the sleeps behind that many frames
abbrev pub naps : ℕ → ℕ → List ℕ
naps delay zero = []
naps delay (suc n) = nap delay ++ naps delay n

pub send_pings-Writes :
    (delay i : ℕ) (ps : List Bytes) (o : Output)
    → Writes o (encode_all (pings i ps)) (naps delay (length ps)) (send_pings delay i ps o)
unfolding send_pings on_ping
send_pings-Writes delay i [] o = Took-none o
send_pings-Writes delay i (p ∷ ps) o =
    go (write_frame delay f o) (write_frame-Writes delay f o) (send_pings-Writes delay (suc i) ps)
  where
    f : Frame
    f = frame (channel_base + i) Cmd.ping p

    all : Bytes
    all = encode f ++ encode_all (pings (suc i) ps)

    times : List ℕ
    times = nap delay ++ naps delay (length ps)

    later :
        (o₁ : Output) (r : Result Error (Unit {0}) × Output)
        → Took o o₁ (encode f) (nap delay)
        → Writes o₁ (encode_all (pings (suc i) ps)) (naps delay (length ps)) r
        → Writes o all times r
    later o₁ (ok u, o₂) t k = Took-then o o₁ o₂ _ _ _ _ t k
    later o₁ (err e, o₂) t k = tt

    go :
        (r : Result Error (Unit {0}) × Output)
        → Writes o (encode f) (nap delay) r
        → ((o₁ : Output)
            → Writes o₁
                (encode_all (pings (suc i) ps))
                (naps delay (length ps))
                (send_pings delay (suc i) ps o₁))
        → Writes o all times (on_ping i r (send_pings delay (suc i) ps))
    go (err e, o₁) t h = tt
    go (ok u, o₁) t h = later o₁ (send_pings delay (suc i) ps o₁) t (h o₁)

-- A probe that succeeds has written the whole burst, and slept behind each frame of it.
pub probe_once-Took :
    (payloads : List Bytes) (link link' : Link)
    → probe_once payloads link ≡ some (ok tt, link')
    → Took link.stdin link'.stdin
        (encode_all (pings 0 payloads))
        (naps link.delay (length payloads))
unfolding probe_once collect_replies
probe_once-Took payloads link link' h =
    sent (send_pings link.delay 0 payloads link.stdin)
      (send_pings-Writes link.delay 0 payloads link.stdin) h
  where
    burst : Output → Type 0
    burst o = Took link.stdin o (encode_all (pings 0 payloads)) (naps link.delay (length payloads))

    finished :
        (o : Output) (c : Collected)
        → burst o
        → finish link o c ≡ some (ok tt, link')
        → burst link'.stdin
    finished o none t k = cc
    finished o (some (err e, j)) t k = cc
    finished o (some (ok u, j)) t k =
        let same : record link { stdin = o; stdout = j } ≡ link' = cc in
        subst (λ (l : Link). burst l.stdin) same t

    sent :
        (r : Result Error (Unit {0}) × Output)
        → Writes link.stdin (encode_all (pings 0 payloads)) (naps link.delay (length payloads)) r
        → collect_replies payloads link r ≡ some (ok tt, link')
        → burst link'.stdin
    sent (err e, o) t k = cc
    sent (ok u, o) t k = finished o _ t k
