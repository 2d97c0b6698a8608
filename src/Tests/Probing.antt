-- ===== src/Tests/Probing.antt =====
-- rushtle/src/client.rs and rushtle/src/main.rs on concrete inputs: the probe, the link's set-up, the
-- channel numbers, and the count in sshuttle's command.
use kubectl_sshuttle.Base.{
  ℕ, zero, suc, ◌+◌, ◌<◌, ◌≤◌, ◌≡◌, refl, false, none, some, List, [], ◌∷◌, ◌++◌, arith, length,
  codes, All, Any, ◌%◌, inl, inr, Error, ok, err,
}
use kubectl_sshuttle.Text.Utf8.{Bytes}
use kubectl_sshuttle.Stream.{Input, input, Ending, done}
use kubectl_sshuttle.Ssnet.Cmd
use kubectl_sshuttle.Ssnet.Frame.{Frame, frame, sync_header}
use kubectl_sshuttle.Ssnet.Tasks.{encode_all, fresh}
use kubectl_sshuttle.Ssnet.Connect.{u16_max}
use kubectl_sshuttle.Client.Channels.{drawn, drawn-eq}
use kubectl_sshuttle.Client.Probe.{probe_index, make_probe_payloads, Link, probe_once}
use kubectl_sshuttle.Client.Probe.Replies.{Answers}
use kubectl_sshuttle.Client.Probe.Settle.{Harmless}
use kubectl_sshuttle.Client.Probe.Complete.{pings, probe_once_complete}
use kubectl_sshuttle.Client.Probe.Sent.{naps}
use kubectl_sshuttle.Client.Probe.Echo.{pongs, make_probe_payloads-IsPayload}
use kubectl_sshuttle.Client.Link.{ensure_link, Remote, Session, link_setup}
use kubectl_sshuttle.Client.Link.Recovery.{echoing, link_setup_recovers}
use kubectl_sshuttle.Client.Link.Laws.{Probed, ensure_link_first, ensure_link_sound}
use kubectl_sshuttle.Server.Loop.State.{Server}
use kubectl_sshuttle.Server.Session.{greeting}
use kubectl_sshuttle.Tunnel.{started, run-pings, probe_passes}

abbrev answered : Server
answered = record started { out = greeting ++ pongs 0 make_probe_payloads }

abbrev echo_link : Link
echo_link = record {
  stdin = fresh;
  stdout = input (encode_all answered.out ++ []) Ending.silent;
  delay = 0;
}

few : length make_probe_payloads ≤ 256
unfolding make_probe_payloads
few = omega arith

probe_passes_example :
    (link' : Link) × (probe_once make_probe_payloads echo_link ≡ some (ok tt, link'))
    × (link'.stdin.sent ≡ [] ++ encode_all (pings 0 make_probe_payloads))
    × (link'.delay ≡ 0)
probe_passes_example =
    probe_passes make_probe_payloads none false answered echo_link [] Ending.silent few
      make_probe_payloads-IsPayload (run-pings none false 0 make_probe_payloads started refl refl)
      refl refl

probed :
    (link' : Link) × (probe_once make_probe_payloads echo_link ≡ some (ok tt, link'))
    × (link'.stdin.sent ≡ [] ++ encode_all (pings 0 make_probe_payloads))
    × (link'.delay ≡ 0)
probed =
    probe_passes make_probe_payloads none false answered echo_link [] Ending.silent few
      make_probe_payloads-IsPayload (run-pings none false 0 make_probe_payloads started refl refl)
      refl refl

abbrev late : Input
late = input [] Ending.closed

ensured : ensure_link 300 late echo_link ≡ some (ok tt, probed.0)
ensured = ensure_link_first 300 late echo_link probed.0 (omega arith) probed.1

ensure_link_sound_example : Probed 300 late echo_link probed.0
ensure_link_sound_example = ensure_link_sound 300 late echo_link probed.0 (omega arith) ensured

-- a burst of one, answered behind another frame
abbrev one : List Bytes
one = codes "x" ∷ []

abbrev replies : List Frame
replies = frame 0 Cmd.routes [] ∷ frame 0xFF00 Cmd.pong (codes "x") ∷ []

abbrev one_link : Link
one_link = record {
  stdin = fresh;
  stdout = input (encode_all replies ++ []) Ending.silent;
  delay = 7;
}

replies-Harmless : All (Harmless one) replies
unfolding probe_index
replies-Harmless = (inl (omega arith), (inr (inr refl), tt))

replies_answer : (idx : ℕ) → idx < length one → Any (Answers one idx) replies
unfolding probe_index
replies_answer zero lt = inr (inl (record { pong = refl; index = refl; echo = refl }))
replies_answer (suc idx) lt = absurd (omega arith)

probe_once_complete_example :
    (link' : Link) × (probe_once one one_link ≡ some (ok tt, link'))
    × (link'.stdin.sent ≡ [] ++ encode_all (pings 0 one))
    × (link'.delay ≡ 7)
probe_once_complete_example =
    probe_once_complete one one_link replies [] Ending.silent refl refl (omega arith) (omega arith)
      replies-Harmless replies_answer

drawn-eq_example : drawn 70000 ≡ 1 + 70000 % u16_max
drawn-eq_example = drawn-eq 70000

-- a first session that dies behind its greeting, and a second that cannot be spawned
abbrev dies : Session
dies = record { stdin = fresh; stdout = input (sync_header ++ encode_all greeting) Ending.closed }

abbrev remote : Remote
remote = record {
  first = ok dies;
  second = err (Error.message (codes "no pod"));
  more_first = input [] Ending.closed;
  more_second = input [] Ending.closed;
}

abbrev answers : Session
answers = record { stdin = fresh; stdout = input (echoing greeting []) Ending.silent }

link_setup_recovers_example :
    (link : Link) × (link_setup (codes "early eof") 0 300 (record remote { second = ok answers })
      ≡ some (done link))
    × (link.delay ≡ 300)
    × (link.stdin.sent ≡ [] ++ encode_all (pings 0 make_probe_payloads))
    × (link.stdin.sleeps ≡ [] ++ naps 300 (length make_probe_payloads))
link_setup_recovers_example =
    link_setup_recovers (codes "early eof") 0 300 (record remote { second = ok answers }) fresh
      fresh greeting greeting [] Ending.silent (omega arith) refl refl refl refl (omega arith)
      (omega arith) (omega arith) (omega arith)
