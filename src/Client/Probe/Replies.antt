-- ===== src/Client/Probe/Replies.antt =====
-- rushtle/src/client.rs, `probe_once`: what its collecting loop accepts.
use kubectl_sshuttle.Base.{
  ℕ, zero, suc, ◌+◌, ◌<◌, ◌≡◌, ◌≢◌, refl, sym, ap, ◌∙◌, ◌⊎◌, inl, inr, true, false, Option, none,
  some, List, [], ◌∷◌, arith, ltb, leb, ltb→le, ◌==◌, ==_iff, same, eq_of_same, length, get_or, set,
  replicate, Any, count_true, all_set, count_true-set, length-set, get_or-set, Bool-cases, Error,
  Result, ok, err,
}
use kubectl_sshuttle.Text.Utf8.{Bytes}
use kubectl_sshuttle.Stream.{Input, Output, Outcome, done, failed, pending}
use kubectl_sshuttle.Ssnet.Cmd
use kubectl_sshuttle.Ssnet.Frame.{Frame, read_frame}
use kubectl_sshuttle.Ssnet.Tasks.{Stop, frames, on_frame}
use kubectl_sshuttle.Client.Probe.{
  Progress, Collected, probe_index, on_pong, react, on_progress, on_read, collect, nothing_seen,
  Link, probe_once, send_pings, collect_replies, finish,
}

-- The flags and the counter agree, and there is a flag for each payload.
pub record IsProgress (payloads : List Bytes) (p : Progress) : Type 0 where
  pub sized : length p.seen ≡ length payloads
  pub counted : p.got ≡ count_true p.seen

-- the frame answers the PING with this index
pub record Answers (payloads : List Bytes) (idx : ℕ) (f : Frame) : Type 0 where
  pub pong : f.cmd ≡ Cmd.pong
  pub index : probe_index f.channel ≡ idx
  pub echo : f.payload ≡ get_or payloads idx []

-- what one frame does to the flags
pub record Reacts (payloads : List Bytes) (p q : Progress) (f : Frame) : Type 0 where
  pub kept : IsProgress payloads q
  pub new :
      (idx : ℕ)
      → get_or q.seen idx false ≡ true
      → (get_or p.seen idx false ≡ true) ⊎ Answers payloads idx f

abbrev pub mark : Progress → ℕ → Progress
mark p idx = record { seen = set p.seen idx true; got = p.got + 1 }

pub mark-Reacts :
    (payloads : List Bytes) (p : Progress) (f : Frame) (idx : ℕ)
    → IsProgress payloads p
    → idx < length payloads
    → get_or p.seen idx false ≡ false
    → Answers payloads idx f
    → Reacts payloads p (mark p idx) f
mark-Reacts payloads p f idx v lt fresh a = record {
  kept = record {
    sized = length-set p.seen idx true ∙ v.sized;
    counted =
        omega (arith, v.counted, v.sized, count_true-set p.seen idx (omega (arith, v.sized)) fresh);
  };
  new = λ j s. elim (Bool-cases (idx == j)) [
    | inl same_place ↦ inr (rw (← (==_iff idx j).0 same_place) a)
    | inr other ↦ inl (sym (get_or-set p.seen idx j (omega (arith, v.sized)) ∙ rw other) ∙ s)
  ];
}

react_sound :
    (payloads : List Bytes) (p q : Progress) (f : Frame)
    → IsProgress payloads p
    → react payloads p f ≡ ok q
    → Reacts payloads p q f
unfolding react on_pong
react_sound payloads p q f v h = elim (Bool-cases (f.cmd == Cmd.pong)) [
  | inr other ↦ same_progress (ground (arith, rw other at h))
  | inl pong ↦ elim (Bool-cases (leb (length payloads) (probe_index f.channel))) [
    | inl beyond ↦ same_progress (ground (arith, rw (pong, beyond) at h))
    | inr known ↦ elim (Bool-cases (same f.payload (get_or payloads (probe_index f.channel) []))) [
      | inr differs ↦ absurd (ground (arith, rw (pong, known, differs) at h))
      | inl echo ↦ elim (Bool-cases (get_or p.seen (probe_index f.channel) false)) [
        | inl old ↦ same_progress (ground (arith, rw (pong, known, echo, old) at h))
        | inr fresh ↦ rw (← marked (rw (pong, known, echo, fresh) at h)) (
            mark-Reacts payloads p f (probe_index f.channel) v (ground (arith, known)) fresh
              (record {
                pong = (==_iff f.cmd Cmd.pong).0 pong;
                index = refl;
                echo = eq_of_same f.payload _ echo;
              }))
      ]
    ]
  ]
]
  where
    same_progress : p ≡ q → Reacts payloads p q f
    same_progress e = rw (← e) (record { kept = v; new = λ idx s. inl s })

    marked :
        ◌≡◌ {A = Result Error Progress} (ok (mark p (probe_index f.channel))) (ok q)
        → mark p (probe_index f.channel) ≡ q
    marked e = cc

-- the index is set already, or one of these frames answers it
abbrev pub Settled : List Bytes → Progress → ℕ → List Frame → Type 0
Settled payloads p idx fs = (get_or p.seen idx false ≡ true) ⊎ Any (Answers payloads idx) fs

settle :
    (payloads : List Bytes) (p q : Progress) (idx : ℕ) (f : Frame) (fs : List Frame)
    → Reacts payloads p q f
    → Settled payloads q idx fs
    → Settled payloads p idx (f ∷ fs)
settle payloads p q idx f fs r (inr later) = inr (inr later)
settle payloads p q idx f fs r (inl s) = elim (r.new idx s) [
  | inl old ↦ inl old
  | inr a ↦ inr (inl a)
]

module _ (payloads : List Bytes) (idx : ℕ) (j : Input) (rest : Progress → Input → Collected)
    (tail : Input → List Frame × Stop) where
  abbrev RestSound : Type 0
  RestSound =
      (q : Progress) (k : Input)
      → IsProgress payloads q
      → rest q k ≡ some (ok tt, j)
      → Settled payloads q idx (tail k).0

  on_progress_sound :
      (p : Progress) (f : Frame) (k : Input) (r : Result Error Progress)
      → IsProgress payloads p
      → RestSound
      → react payloads p f ≡ r
      → on_progress r k rest ≡ some (ok tt, j)
      → Settled payloads p idx (f ∷ (tail k).0)
  unfolding on_progress
  on_progress_sound p f k (err e) v ih er h = cc
  on_progress_sound p f k (ok q) v ih er h =
      let r = react_sound payloads p q f v er in
      settle payloads p q idx f (tail k).0 r (ih q k r.kept h)

  on_read_sound :
      (p : Progress) (r : Outcome (Option Frame) × Input)
      → IsProgress payloads p
      → RestSound
      → on_read payloads p r rest ≡ some (ok tt, j)
      → Settled payloads p idx (on_frame r tail).0
  unfolding on_read on_frame
  on_read_sound p (done none, k) v ih h = cc
  on_read_sound p (done (some f), k) v ih h =
      on_progress_sound p f k (react payloads p f) v ih refl h
  on_read_sound p (failed e, k) v ih h = cc
  on_read_sound p (pending, k) v ih h = cc

collect_sound :
    (fuel : ℕ) (payloads : List Bytes) (p : Progress) (i j : Input) (idx : ℕ)
    → IsProgress payloads p
    → idx < length payloads
    → collect fuel payloads p i ≡ some (ok tt, j)
    → Settled payloads p idx (frames fuel i).0
unfolding collect frames
collect_sound zero payloads p i j idx v lt h = cc
collect_sound (suc fuel) payloads p i j idx v lt h =
    elim (Bool-cases (ltb p.got (length payloads))) [
      | inr full ↦ inl (
          all_set p.seen idx (omega (arith, v.counted, v.sized, ltb→le p.got _ full))
            (omega (arith, v.sized)))
      | inl more ↦
          on_read_sound payloads idx j (collect fuel payloads) (frames fuel) p (read_frame i) v
            (λ q k w. collect_sound fuel payloads q k j idx w lt) (rw more at h)
    ]

pub nothing_seen-IsProgress : (payloads : List Bytes) → IsProgress payloads (nothing_seen payloads)
nothing_seen-IsProgress payloads = record {
  sized = sized payloads;
  counted = sym (none_set payloads);
}
  where
    sized : (ps : List Bytes) → length (replicate (length ps) false) ≡ length ps
    sized [] = refl
    sized (p ∷ ps) = ap suc (sized ps)

    none_set : (ps : List Bytes) → count_true (replicate (length ps) false) ≡ 0
    none_set [] = refl
    none_set (p ∷ ps) = none_set ps

nothing_set : (n idx : ℕ) → get_or (replicate n false) idx false ≢ true
nothing_set zero idx = λ e. cc
nothing_set (suc n) zero = λ e. cc
nothing_set (suc n) (suc idx) = nothing_set n idx

pub probe_once_sound :
    (payloads : List Bytes) (link link' : Link) (idx : ℕ)
    → idx < length payloads
    → probe_once payloads link ≡ some (ok tt, link')
    → Any (Answers payloads idx) (frames (suc (length link.stdout.bytes)) link.stdout).0
unfolding probe_once
probe_once_sound payloads link link' idx lt h = sent (send_pings link.delay 0 payloads link.stdin) h
  where
    size : ℕ
    size = suc (length link.stdout.bytes)

    collected :
        (c : Collected)
        → collect size payloads (nothing_seen payloads) link.stdout ≡ c
        → (o : Output) → finish link o c ≡ some (ok tt, link')
        → Any (Answers payloads idx) (frames size link.stdout).0
    collected none e o k = cc
    collected (some (err x, j)) e o k = cc
    collected (some (ok u, j)) e o k =
        elim (collect_sound size payloads (nothing_seen payloads) link.stdout j idx
          (nothing_seen-IsProgress payloads) lt e) [
            | inl set_before ↦ absurd (nothing_set (length payloads) idx set_before)
            | inr answered ↦ answered
          ]

    sent :
        (r : Result Error (Unit {0}) × Output)
        → collect_replies payloads link r ≡ some (ok tt, link')
        → Any (Answers payloads idx) (frames size link.stdout).0
    sent (err x, o) k = cc
    sent (ok u, o) k =
        collected (collect size payloads (nothing_seen payloads) link.stdout) refl o k
