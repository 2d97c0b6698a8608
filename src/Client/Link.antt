-- ===== src/Client/Link.antt =====
-- rushtle/src/client.rs, the link to the remote: `ensure_link` and `link_setup`.
pub mod Errors
pub mod Laws
pub mod Recovery
use kubectl_sshuttle.Base.{
  ℕ, suc, ◌+◌, ◌≡◌, refl, Bool, true, false, ◌&&◌, Option, none, some, List, [], ◌∷◌, ◌++◌, ltb,
  ◌==◌, if◌then◌else◌, codes, Error, Result, ok, err,
}
use kubectl_sshuttle.Text.Utf8.{Bytes, Str}
use kubectl_sshuttle.Text.Numbers.{to_string}
use kubectl_sshuttle.Stream.{Input, input, Ending, Output, Outcome, done, failed, pending}
use kubectl_sshuttle.Ssnet.Sync.{read_sync_header}
use kubectl_sshuttle.Client.Probe.{Link, make_probe_payloads, probe_once}
use Errors.{display, is_dead_pipe_err}

-- what arrives after a read that ran into its timeout
unfoldable pub resume : Input → Input → Input
resume left more = elim (left.ending) [
  | Ending.silent ↦ input (left.bytes ++ more.bytes) more.ending
  | other ↦ left
]

abbrev pub Checked : Type 0
Checked = Option (Result Error (Unit {0}) × Link)

pub probe_context : ℕ → Str
probe_context fallback =
    codes "link probe still failing with FRAME_DELAY="
    ++ (to_string fallback
        ++ codes
            "us — apiserver layer drops frames even with chunking. Try a larger --probe-fallback-us, or fall back to --rushtle-server.")

pub with_context : Str → Checked → Checked
with_context c none = none
with_context c (some (ok u, l)) = some (ok u, l)
with_context c (some (err e, l)) = some (err (Error.context c e), l)

-- the second round, with the delay switched on
pub retry : ℕ → Input → Checked → Checked
unfolding with_context probe_context
retry fallback more none = none
retry fallback more (some (ok u, l)) = some (ok u, l)
retry fallback more (some (err e, l)) =
    with_context (probe_context fallback) (
      probe_once make_probe_payloads (record l { delay = fallback; stdout = resume l.stdout more }))

-- `more` is what arrives on the pipe after the first round timed out
unfoldable pub ensure_link : ℕ → Input → Link → Checked
unfolding retry
ensure_link fallback more link =
    if fallback == 0
    then some (ok tt, link)
    else retry fallback more (probe_once make_probe_payloads link)

-- a spawned child's two pipes
pub record Session : Type 0 where
  pub stdin : Output
  pub stdout : Input

-- What the two spawns of the remote command give, and what arrives late on their pipes.
pub record Remote : Type 0 where
  pub first : Result Error Session
  pub second : Result Error Session
  pub more_first : Input
  pub more_second : Input

respawn_context : ℕ → Str
respawn_context fallback =
    codes "probe still failing after respawn with FRAME_DELAY="
    ++ (to_string fallback
        ++ codes
            "us — apiserver layer drops frames even with chunking. Try a larger --probe-fallback-us, or fall back to --rushtle-server.")

module _ (eof_text : Str) where
  pub synced : Str → ℕ → Output → Outcome (Unit {0}) × Input → Outcome Link
  synced what delay o (done u, i) = done (record { stdin = o; stdout = i; delay = delay })
  synced what delay o (failed e, i) =
      failed (Error.message (what ++ (codes ": " ++ display eof_text e)))
  synced what delay o (pending, i) = pending

  -- spawn the child and read the sync header
  pub open_session : Str → ℕ → Result Error Session → Outcome Link
  unfolding synced
  open_session what delay (err e) = failed e
  open_session what delay (ok s) = synced what delay s.stdin (read_sync_header s.stdout)

  pub on_second : ℕ → Checked → Option (Outcome Link)
  unfolding respawn_context
  on_second fallback none = none
  on_second fallback (some (ok u, l)) = some (done l)
  on_second fallback (some (err e, l)) = some (failed (Error.context (respawn_context fallback) e))

  pub probe_second : ℕ → Input → Outcome Link → Option (Outcome Link)
  unfolding on_second
  probe_second fallback more (failed e) = some (failed e)
  probe_second fallback more pending = some pending
  probe_second fallback more (done link) = on_second fallback (ensure_link fallback more link)

  -- a fresh child, with the delay set before the first frame
  unfoldable pub respawn : ℕ → Remote → Option (Outcome Link)
  unfolding probe_second open_session
  respawn fallback remote =
      probe_second fallback remote.more_second
        (open_session (codes "waiting for server sync header (respawn)") fallback remote.second)

  pub on_first : ℕ → Remote → Checked → Option (Outcome Link)
  on_first fallback remote none = none
  on_first fallback remote (some (ok u, l)) = some (done l)
  on_first fallback remote (some (err e, l)) =
      if is_dead_pipe_err eof_text e && ltb 0 fallback
      then respawn fallback remote
      else some (failed e)

  pub probe_first : ℕ → Remote → Outcome Link → Option (Outcome Link)
  unfolding on_first
  probe_first fallback remote (failed e) = some (failed e)
  probe_first fallback remote pending = some pending
  probe_first fallback remote (done link) =
      on_first fallback remote (ensure_link fallback remote.more_first link)

  unfoldable pub link_setup : ℕ → ℕ → Remote → Option (Outcome Link)
  unfolding probe_first open_session
  link_setup delay fallback remote =
      probe_first fallback remote
        (open_session (codes "waiting for server sync header") delay remote.first)
