-- ===== src/Ssnet/Carried.antt =====
-- rushtle/src/ssnet.rs, the bytes that a sequence of frames carries on a TCP channel.
use kubectl_sshuttle.Base.{
  ℕ, ◌≡◌, refl, sym, ap, ◌∙◌, Bool, true, false, not, ◌&&◌, ◌||◌, Option, none, some, List, [], ◌∷◌,
  ◌++◌, append-nil, append_assoc, arith, ◌==◌, ◌≢◌, if◌then◌else◌, Bool-cases, inl, inr,
}
use kubectl_sshuttle.Text.Utf8.{Bytes}
use kubectl_sshuttle.Ssnet.Cmd
use kubectl_sshuttle.Ssnet.Frame.{Frame, frame}

-- the frame ends the channel
unfoldable pub is_end : ℕ → Frame → Bool
is_end ch f = (f.cmd == Cmd.tcp_eof || f.cmd == Cmd.tcp_stop_sending) && f.channel == ch

-- the frame's data for the channel
unfoldable pub carried : ℕ → Frame → Bytes
carried ch f = if f.cmd == Cmd.tcp_data && f.channel == ch then f.payload else []

-- the data of the frames for the channel, up to its end
pub payloads : ℕ → List Frame → Bytes
payloads ch [] = []
payloads ch (f ∷ fs) = carried ch f ++ (if is_end ch f then [] else payloads ch fs)

-- none of the frames ends the channel
pub is_open : ℕ → List Frame → Bool
is_open ch [] = true
is_open ch (f ∷ fs) = if is_end ch f then false else is_open ch fs

pub payloads-append :
    (ch : ℕ) (fs gs : List Frame)
    → payloads ch (fs ++ gs) ≡ payloads ch fs ++ (if is_open ch fs then payloads ch gs else [])
unfolding payloads is_open
payloads-append ch [] gs = refl
payloads-append ch (f ∷ fs) gs = elim (Bool-cases (is_end ch f)) [
  | inl ends ↦ rw ends (sym (append-nil (carried ch f ++ [])))
  | inr goes ↦ rw goes (
      ap (λ x. carried ch f ++ x) (payloads-append ch fs gs)
      ∙ sym (append_assoc (carried ch f) (payloads ch fs) _))
]

pub is_open-append :
    (ch : ℕ) (fs gs : List Frame) → is_open ch (fs ++ gs) ≡ (is_open ch fs && is_open ch gs)
unfolding is_open
is_open-append ch [] gs = refl
is_open-append ch (f ∷ fs) gs = elim (Bool-cases (is_end ch f)) [
  | inl ends ↦ rw ends
  | inr goes ↦ rw (goes) (is_open-append ch fs gs)
]

pub payloads-one : (ch : ℕ) (f : Frame) → payloads ch (f ∷ []) ≡ carried ch f
unfolding payloads
payloads-one ch f = elim (Bool-cases (is_end ch f)) [
  | inl ends ↦ rw ends (append-nil (carried ch f))
  | inr goes ↦ rw goes (append-nil (carried ch f))
]

pub is_open-one : (ch : ℕ) (f : Frame) → is_open ch (f ∷ []) ≡ not (is_end ch f)
unfolding is_open
is_open-one ch f = elim (Bool-cases (is_end ch f)) [ inl ends ↦ rw ends | inr goes ↦ rw goes ]

-- nothing is said on the channel
pub payloads-none : (ch : ℕ) → payloads ch [] ≡ []
unfolding payloads
payloads-none ch = refl

pub is_open-none : (ch : ℕ) → is_open ch [] ≡ true
unfolding is_open
is_open-none ch = refl

-- a frame that neither carries data for the channel nor ends it
abbrev pub IsPlain : ℕ → Frame → Type 0
IsPlain ch f = (carried ch f ≡ []) × (is_end ch f ≡ false)

pub other-IsPlain : (ch : ℕ) (f : Frame) → f.channel ≢ ch → IsPlain ch f
unfolding carried is_end
other-IsPlain ch f ne = ground arith

pub data-carried :
    (ch : ℕ) (bytes : Bytes)
    → (carried ch (frame ch Cmd.tcp_data bytes) ≡ bytes)
      × (is_end ch (frame ch Cmd.tcp_data bytes) ≡ false)
unfolding carried is_end
data-carried ch bytes = ground arith

pub eof-ends :
    (ch : ℕ)
    → (carried ch (frame ch Cmd.tcp_eof []) ≡ []) × (is_end ch (frame ch Cmd.tcp_eof []) ≡ true)
unfolding carried is_end
eof-ends ch = ground arith

-- a frame of another kind
pub kind-IsPlain :
    (ch : ℕ) (f : Frame)
    → (f.cmd == Cmd.tcp_data) ≡ false
    → (f.cmd == Cmd.tcp_eof) ≡ false
    → (f.cmd == Cmd.tcp_stop_sending) ≡ false
    → IsPlain ch f
unfolding carried is_end
kind-IsPlain ch f d e s = ground arith

-- what is said in two parts
pub said_twice :
    (ch : ℕ) (live live' : Bool) (fs gs : List Frame) (b b' : Bytes)
    → live' ≡ (live && is_open ch fs)
    → b ≡ (if live then payloads ch fs else [])
    → b' ≡ (if live' then payloads ch gs else [])
    → b ++ b' ≡ (if live then payloads ch (fs ++ gs) else [])
said_twice ch true live' fs gs b b' h e e' = rw (e, e', h) (sym (payloads-append ch fs gs))
said_twice ch false live' fs gs b b' h e e' = rw (e, e', h) refl

pub open_twice :
    (ch : ℕ) (a b d : Bool) (fs gs : List Frame)
    → b ≡ (a && is_open ch fs)
    → d ≡ (b && is_open ch gs)
    → d ≡ (a && is_open ch (fs ++ gs))
open_twice ch a b d fs gs h e = rw (is_open-append ch fs gs) (ground (arith, h, e))

pub stop-ends :
    (ch : ℕ)
    → (carried ch (frame ch Cmd.tcp_stop_sending []) ≡ [])
      × (is_end ch (frame ch Cmd.tcp_stop_sending []) ≡ true)
unfolding carried is_end
stop-ends ch = ground arith

pub and_true : (b : Bool) → b ≡ (b && true)
and_true true = refl
and_true false = refl

pub nothing : (b : Bool) → ◌≡◌ {A = Bytes} [] (if b then [] else [])
nothing true = refl
nothing false = refl

-- where a map sends the channel of the task `n`, if it is live
abbrev pub leads : Bool → ℕ → Option ℕ
leads live n = if live then some n else none

pub routed_on :
    (live : Bool) (b : Bool) (n : ℕ) (o o' : Option ℕ)
    → o ≡ leads live n
    → o' ≡ (if b then o else none)
    → o' ≡ leads (live && b) n
routed_on true true n o o' h e = e ∙ h
routed_on true false n o o' h e = e
routed_on false true n o o' h e = e ∙ h
routed_on false false n o o' h e = e
