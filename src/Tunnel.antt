-- ===== src/Tunnel.antt =====
-- rushtle/src/client.rs and rushtle/src/server.rs together: the link probe against the main loop.
pub mod Connections
pub mod Queries
pub mod Uploads
pub mod Downloads
use kubectl_sshuttle.Base.{
  ℕ, suc, ◌+◌, ◌≤◌, ◌≡◌, ◌≢◌, refl, sym, ap, ◌∙◌, Bool, true, Option, none, some, List, [], ◌∷◌,
  ◌++◌, append_assoc, append-nil, map, arith, length, All, codes, ok,
}
use kubectl_sshuttle.Text.Utf8.{Bytes, Str}
use kubectl_sshuttle.Stream.{input, Ending}
use kubectl_sshuttle.Ssnet.Cmd
use kubectl_sshuttle.Ssnet.Frame.{Frame, frame}
use kubectl_sshuttle.Ssnet.Tasks.{encode_all, Sendable}
use kubectl_sshuttle.Client.Probe.{channel_base, Link, probe_once}
use kubectl_sshuttle.Client.Probe.Complete.{pings}
use kubectl_sshuttle.Client.Probe.Echo.{pongs, IsPayload, probe_once_echo}
use kubectl_sshuttle.Server.Session.{greeting}
use kubectl_sshuttle.Server.Loop.State.{Server, Main, initial}
use kubectl_sshuttle.Server.Loop.{handed, handle}
use kubectl_sshuttle.Server.Loop.Events.{Event, run, step_arrives}

-- a server that has sent them
abbrev pub started : Server
started = record initial { out = greeting }

handle-ping :
    (hosts : Option Str) (binds : Bool) (s : Server) (channel : ℕ) (payload : Bytes)
    → s.out_open ≡ true
    → handle hosts binds s (frame channel Cmd.ping payload)
      ≡ record s { out = s.out ++ frame channel Cmd.pong payload ∷ [] }
unfolding handle
handle-ping hosts binds s channel payload on =
    ap (λ b. record s { out = handed b s.out (frame channel Cmd.pong payload) }) on

pub run-pings :
    (hosts : Option Str) (binds : Bool) (i : ℕ) (ps : List Bytes) (s : Server)
    → s.main ≡ Main.reading
    → s.out_open ≡ true
    → run hosts (map (Event.arrives binds) (pings i ps)) s
      ≡ some (record s { out = s.out ++ pongs i ps })
unfolding run
run-pings hosts binds i [] s h on = ap (λ fs. some (record s { out = fs })) (sym (append-nil s.out))
run-pings hosts binds i (p ∷ ps) s h on =
    let f = frame (channel_base + i) Cmd.ping p in
    let s' : Server = record s { out = s.out ++ frame (channel_base + i) Cmd.pong p ∷ [] } in
    rw (step_arrives hosts binds f s h, handle-ping hosts binds s (channel_base + i) p on)
      (run-pings hosts binds (suc i) ps s' h on
        ∙ ap (λ fs. some (record s { out = fs }))
            (append_assoc s.out (frame (channel_base + i) Cmd.pong p ∷ []) (pongs (suc i) ps)))

-- A remote whose stdout is what the server's main loop sends, given the burst, satisfies the probe
-- at the first round, on a pipe that loses nothing; the delay stays as it is.
pub probe_passes :
    (payloads : List Bytes) (hosts : Option Str) (binds : Bool) (s : Server) (link : Link)
    (rest : Bytes) (e : Ending)
    → length payloads ≤ 256
    → All IsPayload payloads
    → run hosts (map (Event.arrives binds) (pings 0 payloads)) started ≡ some s
    → link.stdin.room ≡ none
    → link.stdout ≡ input (encode_all s.out ++ rest) e
    → (link' : Link) × (probe_once payloads link ≡ some (ok tt, link'))
      × (link'.stdin.sent ≡ link.stdin.sent ++ encode_all (pings 0 payloads))
      × (link'.delay ≡ link.delay)
probe_passes payloads hosts binds s link rest e few v ran room out =
    let answered = run-pings hosts binds 0 payloads started refl refl in
    let sends : greeting ++ pongs 0 payloads ≡ s.out = ap (λ t. sent_by t) (sym answered ∙ ran) in
    probe_once_echo payloads link greeting rest e few v room
      (out ∙ ap (λ fs. input (encode_all fs ++ rest) e) (sym sends)) greeting_sendable
      greeting_other
  where
    sent_by : Option Server → List Frame
    sent_by none = []
    sent_by (some t) = t.out

    greeting_sendable : All Sendable greeting
    greeting_sendable = omega arith

    greeting_other : All (λ (f : Frame). f.cmd ≢ Cmd.pong) greeting
    greeting_other = omega arith
