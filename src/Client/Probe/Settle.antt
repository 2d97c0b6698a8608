-- ===== src/Client/Probe/Settle.antt =====
-- rushtle/src/client.rs, `probe_once`: what a frame does to the flags of its loop.
use kubectl_sshuttle.Base.{
  ℕ, ◌≤◌, ◌<◌, ◌≡◌, ◌≢◌, refl, ◌∙◌, ◌⊎◌, inl, inr, true, false, List, [], ◌∷◌, arith, leb, ◌==◌,
  ==_iff, same, same_refl, length, get_or, set, get_or-set, Bool-cases, ok,
}
use kubectl_sshuttle.Text.Utf8.{Bytes}
use kubectl_sshuttle.Ssnet.Cmd
use kubectl_sshuttle.Ssnet.Frame.{Frame}
use kubectl_sshuttle.Client.Probe.{Progress, probe_index, on_pong, react}
use kubectl_sshuttle.Client.Probe.Replies.{IsProgress, Answers, Settled, mark, mark-Reacts}

-- a frame that is no PONG, or on another channel, or the right answer
abbrev pub Harmless : List Bytes → Frame → Type 0
Harmless payloads f =
    (f.cmd ≢ Cmd.pong)
    ⊎ (length payloads ≤ probe_index f.channel)
    ⊎ (f.payload ≡ get_or payloads (probe_index f.channel) [])

-- a harmless frame is taken, and it settles its index
pub record Takes (payloads : List Bytes) (p q : Progress) (f : Frame) : Type 0 where
  pub taken : react payloads p f ≡ ok q
  pub kept : IsProgress payloads q
  pub old : (idx : ℕ) → get_or p.seen idx false ≡ true → get_or q.seen idx false ≡ true
  pub new :
      (idx : ℕ) → idx < length payloads → Answers payloads idx f → get_or q.seen idx false ≡ true

Harmless-echo :
    (payloads : List Bytes) (f : Frame)
    → Harmless payloads f
    → (f.cmd == Cmd.pong) ≡ true
    → leb (length payloads) (probe_index f.channel) ≡ false
    → f.payload ≡ get_or payloads (probe_index f.channel) []
Harmless-echo payloads f (inl other) pong known = absurd (other ((==_iff f.cmd Cmd.pong).0 pong))
Harmless-echo payloads f (inr (inl beyond)) pong known = absurd (ground (arith, known))
Harmless-echo payloads f (inr (inr echo)) pong known = echo

same_of_eq : (xs ys : Bytes) → xs ≡ ys → same xs ys ≡ true
same_of_eq xs ys e = rw e (same_refl ys)

set_stays :
    (p : Progress) (i j : ℕ)
    → i < length p.seen
    → get_or p.seen j false ≡ true
    → get_or (set p.seen i true) j false ≡ true
set_stays p i j lt h = get_or-set p.seen i j lt ∙ ground (arith)

set_self : (p : Progress) (i : ℕ) → i < length p.seen → get_or (set p.seen i true) i false ≡ true
set_self p i lt = get_or-set p.seen i i lt ∙ ground (arith)

same_progress :
    (payloads : List Bytes) (p : Progress) (f : Frame)
    → IsProgress payloads p
    → react payloads p f ≡ ok p
    → ((idx : ℕ) → idx < length payloads → Answers payloads idx f → get_or p.seen idx false ≡ true)
    → (q : Progress) × Takes payloads p q f
same_progress payloads p f v e n = (p, record { taken = e; kept = v; old = λ idx s. s; new = n })

new_progress :
    (payloads : List Bytes) (p : Progress) (f : Frame)
    → IsProgress payloads p
    → Answers payloads (probe_index f.channel) f
    → probe_index f.channel < length payloads
    → get_or p.seen (probe_index f.channel) false ≡ false
    → react payloads p f ≡ ok (mark p (probe_index f.channel))
    → (q : Progress) × Takes payloads p q f
new_progress payloads p f v a lt fresh e =
    let here : probe_index f.channel < length p.seen = omega (arith, v.sized) in
    (
      mark p (probe_index f.channel),
      record {
        taken = e;
        kept = (mark-Reacts payloads p f (probe_index f.channel) v lt fresh a).kept;
        old = λ idx s. set_stays p (probe_index f.channel) idx here s;
        new = λ idx _ b. rw (← b.index) (set_self p (probe_index f.channel) here);
      },
    )

pub react_complete :
    (payloads : List Bytes) (p : Progress) (f : Frame)
    → IsProgress payloads p
    → Harmless payloads f
    → (q : Progress) × Takes payloads p q f
unfolding react on_pong
react_complete payloads p f v h = elim (Bool-cases (f.cmd == Cmd.pong)) [
  | inr other ↦
      same_progress payloads p f v (rw other) (λ idx lt a. absurd (ground (arith, a.pong, other)))
  | inl pong ↦ elim (Bool-cases (leb (length payloads) (probe_index f.channel))) [
    | inl beyond ↦
        same_progress payloads p f v (rw (pong, beyond))
          (λ idx lt a. absurd (ground (arith, a.index, beyond)))
    | inr known ↦
        let echo = Harmless-echo payloads f h pong known in
        let good = same_of_eq f.payload (get_or payloads (probe_index f.channel) []) echo in
        elim (Bool-cases (get_or p.seen (probe_index f.channel) false)) [
          | inl seen ↦
              same_progress payloads p f v (rw (pong, known, good, seen))
                (λ idx lt a. rw (← a.index) seen)
          | inr fresh ↦
              new_progress payloads p f v
                (record { pong = (==_iff f.cmd Cmd.pong).0 pong; index = refl; echo = echo })
                (ground (arith, known)) fresh (rw (pong, known, good, fresh))
        ]
  ]
]

pub Settled-after :
    (payloads : List Bytes) (p q : Progress) (f : Frame) (fs : List Frame) (idx : ℕ)
    → Takes payloads p q f
    → idx < length payloads
    → Settled payloads p idx (f ∷ fs)
    → Settled payloads q idx fs
Settled-after payloads p q f fs idx t lt (inl s) = inl (t.old idx s)
Settled-after payloads p q f fs idx t lt (inr (inl a)) = inl (t.new idx lt a)
Settled-after payloads p q f fs idx t lt (inr (inr later)) = inr later
