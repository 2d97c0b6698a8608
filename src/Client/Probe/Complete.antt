-- ===== src/Client/Probe/Complete.antt =====
-- rushtle/src/client.rs, `probe_once` on a burst that is answered.
use kubectl_sshuttle.Base.{
  ℕ, zero, suc, ◌+◌, ◌≤◌, ◌<◌, ◌≡◌, refl, sym, ap, ◌∙◌, inl, inr, true, false, none, some, List, [],
  ◌∷◌, ◌++◌, append_assoc, append-nil, length-append, arith, ltb, le→ltb, same, length, get_or, Any,
  All, count_all, Bool-cases, ok,
}
use kubectl_sshuttle.Text.Utf8.{Bytes}
use kubectl_sshuttle.Stream.{Input, input, Output, Ending}
use kubectl_sshuttle.Ssnet.Cmd
use kubectl_sshuttle.Ssnet.Frame.{Frame, frame, max_payload, encode}
use kubectl_sshuttle.Ssnet.Frame.RoundTrip.{read_frame-encode, length-encode}
use kubectl_sshuttle.Ssnet.Tasks.{encode_all, Sendable, after, after_lem, write_frame-after}
use kubectl_sshuttle.Client.Probe.{
  channel_base, on_ping, Progress, on_progress, on_read, collect, nothing_seen, Link, probe_once,
  send_pings, collect_replies, finish,
}
use kubectl_sshuttle.Client.Probe.Replies.{IsProgress, Answers, Settled, nothing_seen-IsProgress}
use kubectl_sshuttle.Client.Probe.Settle.{Harmless, react_complete, Settled-after}

-- with every flag set the loop ends with success
collect_full :
    (fuel : ℕ) (payloads : List Bytes) (p : Progress) (i : Input)
    → IsProgress payloads p
    → ((idx : ℕ) → idx < length payloads → Settled payloads p idx [])
    → collect (suc fuel) payloads p i ≡ some (ok tt, i)
unfolding collect
collect_full fuel payloads p i v h = rw (full)
  where
    set_at : (idx : ℕ) → idx < length p.seen → get_or p.seen idx false ≡ true
    set_at idx lt = elim (h idx (omega (arith, v.sized))) [
      | inl s ↦ s
      | inr none_left ↦ absurd none_left
    ]

    full : ltb p.got (length payloads) ≡ false
    full =
        le→ltb p.got (length payloads) (omega (arith, v.counted, v.sized, count_all p.seen set_at))

collect_complete :
    (fuel : ℕ) (payloads : List Bytes) (p : Progress) (fs : List Frame) (rest : Bytes) (e : Ending)
    → length fs < fuel
    → All Sendable fs
    → All (Harmless payloads) fs
    → IsProgress payloads p
    → ((idx : ℕ) → idx < length payloads → Settled payloads p idx fs)
    → (j : Input) × (collect fuel payloads p (input (encode_all fs ++ rest) e) ≡ some (ok tt, j))
unfolding collect
collect_complete zero payloads p fs rest e lt s h v a = absurd (omega arith)
collect_complete (suc fuel) payloads p [] rest e lt s h v a =
    (input rest e, collect_full fuel payloads p (input rest e) v a)
collect_complete (suc fuel) payloads p (f ∷ fs) rest e lt ((w, fits), s) (hf, h) v a =
    elim (Bool-cases (ltb p.got (length payloads))) [
      | inr full ↦ (input (encode_all (f ∷ fs) ++ rest) e, rw full)
      | inl more ↦
          let (q, t) = react_complete payloads p f v hf in
          let (j, later) =
            collect_complete fuel payloads q fs rest e (omega arith) s h t.kept
              (λ idx k. Settled-after payloads p q f fs idx t k (a idx k)) in
          (
            j,
            rw
                (
                  more,
                  append_assoc (encode f) (encode_all fs) rest,
                  read_frame-encode f (encode_all fs ++ rest) e w fits,
                  on_read,
                  t.taken,
                  on_progress,
                )
                later,
          )
    ]

-- the burst
abbrev pub pings : ℕ → List Bytes → List Frame
pings i [] = []
pings i (p ∷ ps) = frame (channel_base + i) Cmd.ping p ∷ pings (suc i) ps

pub send_pings_open :
    (delay i : ℕ) (ps : List Bytes) (o : Output)
    → o.room ≡ none
    → All (λ p. length p ≤ max_payload) ps
    → (o' : Output) × (send_pings delay i ps o ≡ (ok tt, o'))
      × (o'.sent ≡ o.sent ++ encode_all (pings i ps))
      × (o'.room ≡ none)
unfolding send_pings on_ping
send_pings_open delay i [] o r h = (o, refl, sym (append-nil o.sent), r)
send_pings_open delay i (p ∷ ps) o r (hp, h) =
    let f = frame (channel_base + i) Cmd.ping p in
    let (sent, room) = after_lem delay f o in
    let (o', same, all, still_open) =
      send_pings_open delay (suc i) ps (after delay f o) (room ∙ r) h in
    (
      o',
      rw (write_frame-after delay f o r hp) same,
      all
          ∙ ap (λ s. s ++ encode_all (pings (suc i) ps)) sent
          ∙ append_assoc o.sent (encode f) (encode_all (pings (suc i) ps)),
      still_open,
    )

pub length-encode_all :
    (fs : List Frame) (rest : Bytes) → length fs ≤ length (encode_all fs ++ rest)
length-encode_all [] rest = omega arith
length-encode_all (f ∷ fs) rest = omega (
  arith,
  ap length (append_assoc (encode f) (encode_all fs) rest),
  length-append (encode f) (encode_all fs ++ rest),
  length-encode_all fs rest,
  length-encode f,
)

-- Where every frame that arrives is harmless and every PING of the burst is answered, in any order
-- and among any other frames, the probe sends the burst, succeeds, and leaves the delay as it was.
pub probe_once_complete :
    (payloads : List Bytes) (link : Link) (fs : List Frame) (rest : Bytes) (e : Ending)
    → link.stdin.room ≡ none
    → link.stdout ≡ input (encode_all fs ++ rest) e
    → All (λ p. length p ≤ max_payload) payloads
    → All Sendable fs
    → All (Harmless payloads) fs
    → ((idx : ℕ) → idx < length payloads → Any (Answers payloads idx) fs)
    → (link' : Link) × (probe_once payloads link ≡ some (ok tt, link'))
      × (link'.stdin.sent ≡ link.stdin.sent ++ encode_all (pings 0 payloads))
      × (link'.delay ≡ link.delay)
unfolding probe_once
probe_once_complete payloads link fs rest e room out fits s h a =
    let (o, sent, all, _) = send_pings_open link.delay 0 payloads link.stdin room fits in
    let (j, collected) =
      collect_complete (suc (length (encode_all fs ++ rest))) payloads (nothing_seen payloads) fs
        rest e (omega (arith, length-encode_all fs rest)) s h (nothing_seen-IsProgress payloads)
        (λ idx lt. inr (a idx lt)) in
    (
      record link { stdin = o; stdout = j },
      rw (sent, collect_replies, out, collected, finish),
      all,
      refl,
    )
