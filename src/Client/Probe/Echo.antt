-- ===== src/Client/Probe/Echo.antt =====
-- rushtle/src/client.rs, `probe_once` against a remote that sends each PING back as a PONG.
use mathlib.Core.Path.{subst}
use native.Mathlib.Nat.{zero-add}
use kubectl_sshuttle.Base.{
  ℕ, zero, suc, ◌+◌, ◌≤◌, ◌<◌, ◌≡◌, ◌≢◌, refl, sym, ap, ◌∙◌, none, some, List, [], ◌∷◌, ◌++◌, arith,
  map, ◌*◌, ◌%◌, length, get_or, All, All-append, All-imp, Any, inl, inr, ok,
}
use kubectl_sshuttle.Text.Utf8.{Bytes}
use kubectl_sshuttle.Stream.{input, Ending}
use kubectl_sshuttle.Ssnet.Cmd
use kubectl_sshuttle.Ssnet.Frame.{Frame, frame, max_payload}
use kubectl_sshuttle.Ssnet.Tasks.{encode_all, Sendable}
use kubectl_sshuttle.Client.Probe.{
  channel_base, burst_frames, frame_payload, range_from, probe_payload, make_probe_payloads,
  probe_index, Link, probe_once,
}
use kubectl_sshuttle.Client.Probe.Replies.{Answers}
use kubectl_sshuttle.Client.Probe.Settle.{Harmless}
use kubectl_sshuttle.Client.Probe.Complete.{pings, probe_once_complete}

-- what the server's loop makes of a PING
abbrev pub pong_of : Frame → Frame
pong_of f = frame f.channel Cmd.pong f.payload

abbrev pub pongs : ℕ → List Bytes → List Frame
pongs i [] = []
pongs i (p ∷ ps) = pong_of (frame (channel_base + i) Cmd.ping p) ∷ pongs (suc i) ps

-- payloads of bytes, as long as a frame may be
abbrev pub IsPayload : Bytes → Type 0
IsPayload p = All (λ b. b < 256) p × (length p ≤ max_payload)

index_of : (i : ℕ) → i < 256 → probe_index (channel_base + i) ≡ i
unfolding probe_index
index_of i h = omega arith

pongs-Sendable :
    (i : ℕ) (ps : List Bytes) → i + length ps ≤ 256 → All IsPayload ps → All Sendable (pongs i ps)
pongs-Sendable i [] h v = tt
pongs-Sendable i (p ∷ ps) h ((bytes, fits), v) = (
  (record { channel_u16 = omega arith; cmd_u16 = omega arith; payload_u8 = bytes }, fits),
  pongs-Sendable (suc i) ps (omega arith) v,
)

-- `all` are the payloads of which `ps` are those from `i` on
pongs-Harmless :
    (all : List Bytes) (i : ℕ) (ps : List Bytes)
    → i + length ps ≤ 256
    → ((k : ℕ) → k < length ps → get_or all (i + k) [] ≡ get_or ps k [])
    → All (Harmless all) (pongs i ps)
pongs-Harmless all i [] h at = tt
pongs-Harmless all i (p ∷ ps) h at =
    (inr (inr echo), pongs-Harmless all (suc i) ps (omega arith) later)
  where
    echo : p ≡ get_or all (probe_index (channel_base + i)) []
    echo =
        rw (index_of i (omega arith))
          (sym (at 0 (omega arith)) ∙ ap (λ k. get_or all k []) (omega arith))

    later : (k : ℕ) → k < length ps → get_or all (suc i + k) [] ≡ get_or ps k []
    later k lt = ap (λ n. get_or all n []) same_place ∙ at (suc k) (omega arith)
      where
        same_place : suc i + k ≡ i + suc k
        same_place = omega arith

pongs-Answers :
    (all : List Bytes) (i : ℕ) (ps : List Bytes) (k : ℕ)
    → i + length ps ≤ 256
    → k < length ps
    → get_or ps k [] ≡ get_or all (i + k) []
    → Any (Answers all (i + k)) (pongs i ps)
pongs-Answers all i [] k h lt at = absurd (omega arith)
pongs-Answers all i (p ∷ ps) zero h lt at =
    inl (record { pong = refl; index = index_of i (omega arith) ∙ omega arith; echo = at })
pongs-Answers all i (p ∷ ps) (suc k) h lt at =
    let same_place : suc i + k ≡ i + suc k = omega arith in
    inr (
      subst (λ j. Any (Answers all j) (pongs (suc i) ps)) same_place
        (pongs-Answers all (suc i) ps k (omega arith) (omega arith)
          (at ∙ ap (λ n. get_or all n []) (sym same_place))))

bytes_below : (i : ℕ) (js : List ℕ) → All (λ b. b < 256) (map (λ j. (i * 31 + j) % 256) js)
bytes_below i [] = tt
bytes_below i (j ∷ js) = (omega arith, bytes_below i js)

length-map : (g : ℕ → ℕ) (js : List ℕ) → length (map g js) ≡ length js
length-map g [] = refl
length-map g (j ∷ js) = ap suc (length-map g js)

probe_payloads-IsPayload : (is : List ℕ) → All IsPayload (map probe_payload is)
unfolding probe_payload range_from
probe_payloads-IsPayload [] = tt
probe_payloads-IsPayload (i ∷ is) = (
  (
    bytes_below i (range_from 0 frame_payload),
    omega (arith, length-map (λ j. (i * 31 + j) % 256) (range_from 0 frame_payload)),
  ),
  probe_payloads-IsPayload is,
)

pub make_probe_payloads-IsPayload : All IsPayload make_probe_payloads
unfolding make_probe_payloads
make_probe_payloads-IsPayload = probe_payloads-IsPayload (range_from 0 burst_frames)

Any-append_right : (P : Frame → Type 0) (fs gs : List Frame) → Any P gs → Any P (fs ++ gs)
Any-append_right P [] gs h = h
Any-append_right P (f ∷ fs) gs h = inr (Any-append_right P fs gs h)

greeting-Harmless :
    (all : List Bytes) (fs : List Frame) → All (λ f. f.cmd ≢ Cmd.pong) fs → All (Harmless all) fs
greeting-Harmless all [] h = tt
greeting-Harmless all (f ∷ fs) (hf, h) = (inl hf, greeting-Harmless all fs h)

-- Behind any frames that are no PONGs, the echo of the burst satisfies the probe.
pub probe_once_echo :
    (payloads : List Bytes) (link : Link) (greeting : List Frame) (rest : Bytes) (e : Ending)
    → length payloads ≤ 256
    → All IsPayload payloads
    → link.stdin.room ≡ none
    → link.stdout ≡ input (encode_all (greeting ++ pongs 0 payloads) ++ rest) e
    → All Sendable greeting
    → All (λ f. f.cmd ≢ Cmd.pong) greeting
    → (link' : Link) × (probe_once payloads link ≡ some (ok tt, link'))
      × (link'.stdin.sent ≡ link.stdin.sent ++ encode_all (pings 0 payloads))
      × (link'.delay ≡ link.delay)
probe_once_echo payloads link greeting rest e few v room out s h =
    let few' : 0 + length payloads ≤ 256 = omega arith in
    probe_once_complete payloads link (greeting ++ pongs 0 payloads) rest e room out
      (All-imp IsPayload (λ p. length p ≤ max_payload) payloads (λ p w. w.1) v)
      (All-append Sendable greeting (pongs 0 payloads) s (pongs-Sendable 0 payloads few' v))
      (All-append (Harmless payloads) greeting (pongs 0 payloads)
        (greeting-Harmless payloads greeting h)
        (pongs-Harmless payloads 0 payloads few'
          (λ k lt. ap (λ n. get_or payloads n []) (omega arith))))
      (λ idx lt. Any-append_right (Answers payloads idx) greeting (pongs 0 payloads) (
        subst (λ j. Any (Answers payloads j) (pongs 0 payloads)) (zero-add idx)
          (pongs-Answers payloads 0 payloads idx few' lt
            (ap (λ n. get_or payloads n []) (omega arith)))))
