-- ===== src/Client/Link/Recovery.antt =====
-- rushtle/src/client.rs, `link_setup` on a first session that dies and a second that answers.
use kubectl_sshuttle.Base.{
  ℕ, ◌≤◌, ◌<◌, ◌≡◌, ◌≢◌, refl, none, some, List, [], ◌++◌, arith, length, All, ok,
}
use kubectl_sshuttle.Text.Utf8.{Bytes, Str}
use kubectl_sshuttle.Stream.{input, Output, Ending, done}
use kubectl_sshuttle.Ssnet.Cmd
use kubectl_sshuttle.Ssnet.Frame.{Frame, sync_header}
use kubectl_sshuttle.Ssnet.Sync.{read_sync_header_complete}
use kubectl_sshuttle.Ssnet.Tasks.{encode_all, Sendable}
use kubectl_sshuttle.Client.Probe.{make_probe_payloads, Link}
use kubectl_sshuttle.Client.Probe.Complete.{pings}
use kubectl_sshuttle.Client.Probe.Sent.{naps, probe_once-Took}
use kubectl_sshuttle.Client.Probe.Echo.{pongs, probe_once_echo, make_probe_payloads-IsPayload}
use kubectl_sshuttle.Client.Link.{
  Remote, synced, open_session, on_second, probe_second, respawn, link_setup,
}
use kubectl_sshuttle.Client.Link.Laws.{ensure_link_first, link_setup_respawns}

payloads_few : length make_probe_payloads ≤ 256
unfolding make_probe_payloads
payloads_few = omega arith

-- what the burst's echo is behind, in a session's output
abbrev pub echoing : List Frame → Bytes → Bytes
echoing gs rest = sync_header ++ (encode_all (gs ++ pongs 0 make_probe_payloads) ++ rest)

module _ (eof_text : Str) where
  respawn_echo :
      (fallback : ℕ) (remote : Remote) (o : Output) (gs : List Frame) (rest : Bytes) (e : Ending)
      → 0 < fallback
      → remote.second ≡ ok (record { stdin = o; stdout = input (echoing gs rest) e })
      → o.room ≡ none
      → All Sendable gs
      → All (λ f. f.cmd ≢ Cmd.pong) gs
      → (link : Link) × (respawn eof_text fallback remote ≡ some (done link))
        × (link.delay ≡ fallback)
        × (link.stdin.sent ≡ o.sent ++ encode_all (pings 0 make_probe_payloads))
        × (link.stdin.sleeps ≡ o.sleeps ++ naps fallback (length make_probe_payloads))
  unfolding respawn open_session synced probe_second on_second
  respawn_echo fallback remote o gs rest e on second room s h =
      let behind = encode_all (gs ++ pongs 0 make_probe_payloads) ++ rest in
      let link : Link = record { stdin = o; stdout = input behind e; delay = fallback } in
      let (link', passes, sent, delay) =
        probe_once_echo make_probe_payloads link gs rest e payloads_few
          make_probe_payloads-IsPayload room refl s h in
      (
        link',
        rw
            (
              second,
              read_sync_header_complete [] [] behind e tt tt,
              ensure_link_first fallback remote.more_second link link' on passes,
            )
            refl,
        delay,
        sent,
        (probe_once-Took make_probe_payloads link link' passes).slept,
      )

  -- Where the first session sends the sync header and frames that are no PONGs and then dies, and
  -- the second sends the sync header, frames that are no PONGs and the echo of the burst, on pipes
  -- that lose nothing, the set-up succeeds on the second session; the delay is on, the second
  -- session was sent exactly the burst, and already behind each frame of that burst the writer slept
  -- for the delay.
  pub link_setup_recovers :
      (delay fallback : ℕ) (remote : Remote) (o₁ o₂ : Output) (fs gs : List Frame) (rest : Bytes)
      (e : Ending)
      → 0 < fallback
      → remote.first
        ≡ ok (record { stdin = o₁; stdout = input (sync_header ++ encode_all fs) Ending.closed })
      → remote.second ≡ ok (record { stdin = o₂; stdout = input (echoing gs rest) e })
      → o₁.room ≡ none
      → o₂.room ≡ none
      → All Sendable fs
      → All (λ f. f.cmd ≢ Cmd.pong) fs
      → All Sendable gs
      → All (λ f. f.cmd ≢ Cmd.pong) gs
      → (link : Link) × (link_setup eof_text delay fallback remote ≡ some (done link))
        × (link.delay ≡ fallback)
        × (link.stdin.sent ≡ o₂.sent ++ encode_all (pings 0 make_probe_payloads))
        × (link.stdin.sleeps ≡ o₂.sleeps ++ naps fallback (length make_probe_payloads))
  link_setup_recovers delay fallback remote o₁ o₂ fs gs rest e on first second room₁ room₂ s₁ h₁ s₂
        h₂ =
      rw (link_setup_respawns eof_text delay fallback remote o₁ fs on first room₁ s₁ h₁)
        (respawn_echo fallback remote o₂ gs rest e on second room₂ s₂ h₂)
