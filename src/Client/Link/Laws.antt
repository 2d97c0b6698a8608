-- ===== src/Client/Link/Laws.antt =====
-- rushtle/src/client.rs, `ensure_link` and `link_setup`: their outcomes, and when the remote command
-- is spawned again.
use kubectl_sshuttle.Base.{
  ℕ, suc, ◌≤◌, ◌<◌, ◌≡◌, ◌≢◌, refl, false, none, some, List, [], ◌++◌, arith, lt→ltb, ◌==◌, length,
  All, Any, Error, ok, err,
}
use kubectl_sshuttle.Text.Utf8.{Bytes, Str}
use kubectl_sshuttle.Stream.{Input, input, Output, Ending, Outcome, done, failed, pending}
use kubectl_sshuttle.Ssnet.Cmd
use kubectl_sshuttle.Ssnet.Frame.{Frame, max_payload, sync_header}
use kubectl_sshuttle.Ssnet.Sync.{read_sync_header_complete}
use kubectl_sshuttle.Ssnet.Tasks.{frames, encode_all, Sendable}
use kubectl_sshuttle.Client.Probe.{make_probe_payloads, Link, probe_once}
use kubectl_sshuttle.Client.Probe.Replies.{Answers, probe_once_sound}
use kubectl_sshuttle.Client.Probe.Ends.{probe_once_total, probe_once-delay}
use kubectl_sshuttle.Client.Probe.Complete.{pings}
use kubectl_sshuttle.Client.Probe.Sent.{Took, naps, probe_once-Took}
use kubectl_sshuttle.Client.Probe.Eof.{probe_once_eof}
use kubectl_sshuttle.Client.Link.{
  Checked, resume, with_context, retry, ensure_link, Remote, synced, open_session, on_second,
  probe_second, respawn, on_first, probe_first, link_setup, probe_context,
}
use kubectl_sshuttle.Client.Link.Errors.{is_dead_pipe_err_eof}

-- the frames that stand at the front of an input
abbrev pub arrived : Input → List Frame
arrived i = (frames (suc (length i.bytes)) i).0

-- every PING of the burst has its answer there
abbrev pub Answered : Input → Type 0
Answered i =
    (idx : ℕ) → idx < length make_probe_payloads → Any (Answers make_probe_payloads idx) (arrived i)

-- Between these two the pipe took the burst, with this delay behind each frame of it.
abbrev pub Burst : Output → Output → ℕ → Type 0
Burst o o' delay =
    Took o o' (encode_all (pings 0 make_probe_payloads)) (naps delay (length make_probe_payloads))

-- How `ensure_link` came to succeed.
pub data Probed (fallback : ℕ) (more : Input) (link link' : Link) : Type 0 where
  fast :
      Answered link.stdout
      → Burst link.stdin link'.stdin link.delay
      → link'.delay ≡ link.delay
      → Probed fallback more link link'
  slow :
      (l : Link) (e : Error)
      → probe_once make_probe_payloads link ≡ some (err e, l)
      → Answered (resume l.stdout more)
      → Burst l.stdin link'.stdin fallback
      → link'.delay ≡ fallback
      → Probed fallback more link link'

retry_sound :
    (fallback : ℕ) (more : Input) (link link' : Link) (c : Checked)
    → probe_once make_probe_payloads link ≡ c
    → retry fallback more c ≡ some (ok tt, link')
    → Probed fallback more link link'
unfolding retry
retry_sound fallback more link link' none e h = cc
retry_sound fallback more link link' (some (ok u, l)) e h =
    let same : probe_once make_probe_payloads link ≡ some (ok tt, link') = cc in
    fast (λ idx lt. probe_once_sound make_probe_payloads link link' idx lt same)
      (probe_once-Took make_probe_payloads link link' same)
      (probe_once-delay make_probe_payloads link link' (ok tt) same)
retry_sound fallback more link link' (some (err x, l)) e h =
    slow l x e (λ idx lt. probe_once_sound make_probe_payloads again link' idx lt second)
      (probe_once-Took make_probe_payloads again link' second)
      (probe_once-delay make_probe_payloads again link' (ok tt) second)
  where
    again : Link
    again = record l { delay = fallback; stdout = resume l.stdout more }

    without_context :
        (c : Checked)
        → with_context (probe_context fallback) c ≡ some (ok tt, link')
        → c ≡ some (ok tt, link')
    without_context none k = cc
    without_context (some (ok u, m)) k = k
    without_context (some (err y, m)) k = cc

    second : probe_once make_probe_payloads again ≡ some (ok tt, link')
    second = without_context (probe_once make_probe_payloads again) h

payloads_some : 0 < length make_probe_payloads
unfolding make_probe_payloads
payloads_some = omega arith

payloads_fit : All (λ (p : Bytes). length p ≤ max_payload) make_probe_payloads
unfolding make_probe_payloads
payloads_fit = omega arith

-- A link on which the probe is on and `ensure_link` succeeds has had its whole burst answered:
-- either in the first round, and then the delay is unchanged, or the first round failed and the
-- second, on what its pipe held then and what came later, was answered with the delay switched on.
-- In that round the pipe took the whole burst, after all that was sent before, and the writer slept
-- for the round's delay behind each frame of it.
pub ensure_link_sound :
    (fallback : ℕ) (more : Input) (link link' : Link)
    → 0 < fallback
    → ensure_link fallback more link ≡ some (ok tt, link')
    → Probed fallback more link link'
unfolding ensure_link
ensure_link_sound fallback more link link' on h =
    retry_sound fallback more link link' (probe_once make_probe_payloads link) refl
      (rw (positive) at h)
  where
    positive : (fallback == 0) ≡ false
    positive = ground arith

-- A link that passes the probe at once is handed on as the probe leaves it.
pub ensure_link_first :
    (fallback : ℕ) (more : Input) (link link' : Link)
    → 0 < fallback
    → probe_once make_probe_payloads link ≡ some (ok tt, link')
    → ensure_link fallback more link ≡ some (ok tt, link')
unfolding ensure_link retry
ensure_link_first fallback more link link' on h = rw (positive, h)
  where
    positive : (fallback == 0) ≡ false
    positive = ground arith

with_context_total : (c : Str) (k : Checked) → k ≢ none → with_context c k ≢ none
unfolding with_context
with_context_total c none h = absurd (h refl)
with_context_total c (some (ok u, l)) h = λ e. cc
with_context_total c (some (err x, l)) h = λ e. cc

retry_total : (fallback : ℕ) (more : Input) (c : Checked) → c ≢ none → retry fallback more c ≢ none
unfolding retry
retry_total fallback more none h = absurd (h refl)
retry_total fallback more (some (ok u, l)) h = λ e. cc
retry_total fallback more (some (err x, l)) h =
    with_context_total (probe_context fallback) _ (probe_once_total make_probe_payloads _)

ensure_link_total :
    (fallback : ℕ) (more : Input) (link : Link) → ensure_link fallback more link ≢ none
unfolding ensure_link
ensure_link_total fallback more link = ground (
  arith,
  retry_total fallback more (probe_once make_probe_payloads link)
      (probe_once_total make_probe_payloads link),
)

module _ (eof_text : Str) where
  on_second_total : (fallback : ℕ) (c : Checked) → c ≢ none → on_second eof_text fallback c ≢ none
  unfolding on_second
  on_second_total fallback none h = absurd (h refl)
  on_second_total fallback (some (ok u, l)) h = λ e. cc
  on_second_total fallback (some (err x, l)) h = λ e. cc

  probe_second_total :
      (fallback : ℕ) (more : Input) (o : Outcome Link)
      → probe_second eof_text fallback more o ≢ none
  unfolding probe_second
  probe_second_total fallback more (failed x) = λ e. cc
  probe_second_total fallback more pending = λ e. cc
  probe_second_total fallback more (done l) =
      on_second_total fallback _ (ensure_link_total fallback more l)

  respawn_total : (fallback : ℕ) (remote : Remote) → respawn eof_text fallback remote ≢ none
  unfolding respawn
  respawn_total fallback remote = probe_second_total fallback remote.more_second _

  on_first_total :
      (fallback : ℕ) (remote : Remote) (c : Checked)
      → c ≢ none
      → on_first eof_text fallback remote c ≢ none
  unfolding on_first
  on_first_total fallback remote none h = absurd (h refl)
  on_first_total fallback remote (some (ok u, l)) h = λ e. cc
  on_first_total fallback remote (some (err x, l)) h = ground (arith, respawn_total fallback remote)

  probe_first_total :
      (fallback : ℕ) (remote : Remote) (o : Outcome Link)
      → probe_first eof_text fallback remote o ≢ none
  unfolding probe_first
  probe_first_total fallback remote (failed x) = λ e. cc
  probe_first_total fallback remote pending = λ e. cc
  probe_first_total fallback remote (done l) =
      on_first_total fallback remote _ (ensure_link_total fallback remote.more_first l)

  -- With the probe off, the first session is handed over behind its sync header.
  pub link_setup_off :
      (delay : ℕ) (remote : Remote) (o : Output) (rest : Bytes) (e : Ending)
      → remote.first ≡ ok (record { stdin = o; stdout = input (sync_header ++ rest) e })
      → link_setup eof_text delay 0 remote
        ≡ some (done (record { stdin = o; stdout = input rest e; delay = delay }))
  unfolding link_setup open_session synced probe_first on_first ensure_link
  link_setup_off delay remote o rest e first =
      rw (first, read_sync_header_complete [] [] rest e tt tt) refl

  -- Whatever the two sessions send, the fuel of the set-up is enough.
  pub link_setup_total :
      (delay fallback : ℕ) (remote : Remote) → link_setup eof_text delay fallback remote ≢ none
  unfolding link_setup
  link_setup_total delay fallback remote = probe_first_total fallback remote _

  -- Where the first session sends the sync header and frames that are no PONGs and then dies, on a
  -- pipe that loses nothing, the outcome of the set-up is that of the respawn.
  pub link_setup_respawns :
      (delay fallback : ℕ) (remote : Remote) (o : Output) (fs : List Frame)
      → 0 < fallback
      → remote.first
        ≡ ok (record { stdin = o; stdout = input (sync_header ++ encode_all fs) Ending.closed })
      → o.room ≡ none
      → All Sendable fs
      → All (λ f. f.cmd ≢ Cmd.pong) fs
      → link_setup eof_text delay fallback remote ≡ respawn eof_text fallback remote
  unfolding link_setup open_session synced probe_first on_first ensure_link retry with_context
      resume
  link_setup_respawns delay fallback remote o fs on first room s h =
      let link : Link = record {
        stdin = o;
        stdout = input (encode_all fs) Ending.closed;
        delay = delay;
      } in
      let (o₁, round₁, room₁) =
        probe_once_eof make_probe_payloads link fs payloads_some room refl payloads_fit s h in
      let again : Link = record { stdin = o₁; stdout = input [] Ending.closed; delay = fallback } in
      let (o₂, round₂, _) =
        probe_once_eof make_probe_payloads again [] payloads_some room₁ refl payloads_fit tt tt in
      let positive : (fallback == 0) ≡ false = ground arith in
      rw (
        first,
        read_sync_header_complete [] [] (encode_all fs) Ending.closed tt tt,
        positive,
        round₁,
        round₂,
        is_dead_pipe_err_eof eof_text (probe_context fallback),
        lt→ltb 0 fallback on,
      )
