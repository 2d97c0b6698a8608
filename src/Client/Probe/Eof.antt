-- ===== src/Client/Probe/Eof.antt =====
-- rushtle/src/client.rs, `probe_once` on a session that dies before it answers.
use kubectl_sshuttle.Base.{
  ℕ, zero, suc, ◌≤◌, ◌<◌, ◌≡◌, ◌≢◌, ap, none, some, List, [], ◌∷◌, append-nil, arith, lt→ltb, ◌==◌,
  ==_iff, length, All, Bool-cases, inl, inr, probe_eof, ok, err,
}
use kubectl_sshuttle.Text.Utf8.{Bytes}
use kubectl_sshuttle.Stream.{input, Output, Ending}
use kubectl_sshuttle.Ssnet.Cmd
use kubectl_sshuttle.Ssnet.Frame.{Frame, max_payload}
use kubectl_sshuttle.Ssnet.Frame.RoundTrip.{read_frame-encode}
use kubectl_sshuttle.Ssnet.Frame.Endings.{read_frame_at_end}
use kubectl_sshuttle.Ssnet.Tasks.{encode_all, Sendable}
use kubectl_sshuttle.Client.Probe.{
  Progress, react, on_progress, on_read, collect, nothing_seen, Link, probe_once, collect_replies,
  finish,
}
use kubectl_sshuttle.Client.Probe.Complete.{send_pings_open, length-encode_all}

react_other :
    (payloads : List Bytes) (p : Progress) (f : Frame)
    → f.cmd ≢ Cmd.pong
    → react payloads p f ≡ ok p
unfolding react
react_other payloads p f h = elim (Bool-cases (f.cmd == Cmd.pong)) [
  | inl pong ↦ absurd (h ((==_iff f.cmd Cmd.pong).0 pong))
  | inr other ↦ rw other
]

-- frames that are no PONGs, then the end of the pipe
collect_eof :
    (fuel : ℕ) (payloads : List Bytes) (p : Progress) (fs : List Frame)
    → length fs < fuel
    → p.got < length payloads
    → All Sendable fs
    → All (λ f. f.cmd ≢ Cmd.pong) fs
    → collect fuel payloads p (input (encode_all fs) Ending.closed)
      ≡ some (err probe_eof, input [] Ending.closed)
unfolding collect
collect_eof zero payloads p fs lt more s h = absurd (omega arith)
collect_eof (suc fuel) payloads p [] lt more s h =
    rw (lt→ltb p.got (length payloads) more, read_frame_at_end, on_read)
collect_eof (suc fuel) payloads p (f ∷ fs) lt more ((v, fits), s) (hf, h) =
    rw
      (
        lt→ltb p.got (length payloads) more,
        read_frame-encode f (encode_all fs) Ending.closed v fits,
        on_read,
        react_other payloads p f hf,
        on_progress,
      )
      (collect_eof fuel payloads p fs (omega arith) more s h)

-- A pipe that closes behind frames that are no PONGs fails the probe, once the burst is written.
pub probe_once_eof :
    (payloads : List Bytes) (link : Link) (fs : List Frame)
    → 0 < length payloads
    → link.stdin.room ≡ none
    → link.stdout ≡ input (encode_all fs) Ending.closed
    → All (λ p. length p ≤ max_payload) payloads
    → All Sendable fs
    → All (λ f. f.cmd ≢ Cmd.pong) fs
    → (o : Output) × (probe_once payloads link
        ≡ some (err probe_eof, record link { stdin = o; stdout = input [] Ending.closed }))
      × (o.room ≡ none)
unfolding probe_once
probe_once_eof payloads link fs some_payload room out fits s h =
    let (o, sent, _, still_open) = send_pings_open link.delay 0 payloads link.stdin room fits in
    (
      o,
      rw (
        sent,
        collect_replies,
        out,
        collect_eof (suc (length (encode_all fs))) payloads (nothing_seen payloads) fs
            (omega (arith, length-encode_all fs [], ap length (append-nil (encode_all fs))))
            some_payload s h,
        finish,
      ),
      still_open,
    )
