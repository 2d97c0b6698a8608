-- ===== src/Client/Probe/Ends.antt =====
-- rushtle/src/client.rs, `probe_once`: its fuel and its delay.
use kubectl_sshuttle.Base.{
  ℕ, zero, suc, ◌<◌, ◌≡◌, ◌≢◌, refl, inl, inr, Option, none, some, List, arith, ltb, length,
  Bool-cases, Error, Result, ok, err,
}
use kubectl_sshuttle.Text.Utf8.{Bytes}
use kubectl_sshuttle.Stream.{Input, Output, Outcome, done, failed, pending}
use kubectl_sshuttle.Ssnet.Frame.{Frame, read_frame}
use kubectl_sshuttle.Ssnet.Frame.Sound.{read_frame-lt}
use kubectl_sshuttle.Client.Probe.{
  Progress, Collected, react, on_progress, on_read, collect, nothing_seen, Link, probe_once,
  send_pings, collect_replies, finish,
}

on_progress_total :
    (r : Result Error Progress) (j : Input) (rest : Progress → Input → Collected)
    → ((q : Progress) → rest q j ≢ none)
    → on_progress r j rest ≢ none
unfolding on_progress
on_progress_total (ok q) j rest h = h q
on_progress_total (err e) j rest h = λ x. cc

on_read_total :
    (payloads : List Bytes) (p : Progress) (r : Outcome (Option Frame) × Input)
    (rest : Progress → Input → Collected)
    → ((q : Progress) (j : Input) (f : Frame) → r ≡ (done (some f), j) → rest q j ≢ none)
    → on_read payloads p r rest ≢ none
unfolding on_read
on_read_total payloads p (done none, j) rest h = λ x. cc
on_read_total payloads p (done (some f), j) rest h =
    on_progress_total (react payloads p f) j rest (λ q. h q j f refl)
on_read_total payloads p (failed e, j) rest h = λ x. cc
on_read_total payloads p (pending, j) rest h = λ x. cc

collect_total :
    (fuel : ℕ) (payloads : List Bytes) (p : Progress) (i : Input)
    → length i.bytes < fuel
    → collect fuel payloads p i ≢ none
unfolding collect
collect_total zero payloads p i h = absurd (omega arith)
collect_total (suc fuel) payloads p i h = elim (Bool-cases (ltb p.got (length payloads))) [
  | inr full ↦ rw full (λ x. cc)
  | inl more ↦ rw more (
      on_read_total payloads p (read_frame i) (collect fuel payloads)
        λ q j f e. collect_total fuel payloads q j (omega (arith, read_frame-lt i j f e)))
]

-- The fuel of the probe is enough: it ends on every input.
pub probe_once_total : (payloads : List Bytes) (link : Link) → probe_once payloads link ≢ none
unfolding probe_once
probe_once_total payloads link = sent (send_pings link.delay 0 payloads link.stdin)
  where
    finished : (o : Output) (c : Collected) → c ≢ none → finish link o c ≢ none
    finished o none h = absurd (h refl)
    finished o (some (r, i)) h = λ x. cc

    sent : (r : Result Error (Unit {0}) × Output) → collect_replies payloads link r ≢ none
    sent (err e, o) = λ x. cc
    sent (ok u, o) = finished o _ (
        collect_total (suc (length link.stdout.bytes)) payloads (nothing_seen payloads) link.stdout
          (omega arith))

-- A round of the probe leaves the delay as it is, whether it succeeds or not.
pub probe_once-delay :
    (payloads : List Bytes) (link link' : Link) (r : Result Error (Unit {0}))
    → probe_once payloads link ≡ some (r, link')
    → link'.delay ≡ link.delay
unfolding probe_once collect_replies finish
probe_once-delay payloads link link' r h = sent (send_pings link.delay 0 payloads link.stdin) h
  where
    finished :
        (o : Output) (c : Collected) → finish link o c ≡ some (r, link') → link'.delay ≡ link.delay
    finished o none k = cc
    finished o (some (x, i)) k = ground arith

    sent :
        (x : Result Error (Unit {0}) × Output)
        → collect_replies payloads link x ≡ some (r, link')
        → link'.delay ≡ link.delay
    sent (err e, o) k = ground arith
    sent (ok u, o) k = finished o _ k
