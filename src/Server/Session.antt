-- ===== src/Server/Session.antt =====
-- rushtle/src/server.rs, `run` up to its loop: the assembler's source and the bootstrap are thrown
-- away, the sync header is sent, and two frames are queued.
use kubectl_sshuttle.Base.{
  ℕ, zero, suc, ◌≡◌, refl, Bool, true, false, none, List, [], ◌∷◌, ◌++◌, codes, arith, length, All,
  Error, Result, ok, err,
}
use kubectl_sshuttle.Text.Utf8.{Bytes, Str}
use kubectl_sshuttle.Text.Numbers.{to_string}
use kubectl_sshuttle.Stream.{
  Input, input, Ending, Output, Outcome, done, failed, pending, read_exact, write_all,
  read_exact-append,
}
use kubectl_sshuttle.Ssnet.Cmd
use kubectl_sshuttle.Ssnet.Frame.{Frame, frame, sync_header}
use kubectl_sshuttle.Server.Bootstrap.{Boot, ready, consume_sshuttle_bootstrap}
use kubectl_sshuttle.Server.Bootstrap.Records.{
  Module, IsModule, bootstrap, consume_bootstrap_complete,
}

-- How the part in front of the loop ends: the loop reads what is left of the input; or `run` returns
-- an error, that of the bootstrap under the context "consuming sshuttle bootstrap"; or it waits for
-- input.
pub data Opening : Type 0 where
  serving : Input → Output → Opening
  stopped : Error → Opening
  bad_bootstrap : Boot → Opening
  waiting : Opening

-- the assembler's source, if there is any, is read and dropped
pub discard : ℕ → Input → Outcome Bytes × Input
discard zero i = (done [], i)
discard (suc n) i = read_exact (suc n) i

pub on_header : Result Error (Unit {0}) × Output → Input → Opening
on_header (ok u, o) i = serving i o
on_header (err e, o) i = stopped e

pub send_header : Input → Output → Opening
unfolding on_header
send_header i o = on_header (write_all sync_header o) i

pub on_boot : Boot → Output → Opening
unfolding send_header
on_boot (ready i modules total) o = send_header i o
on_boot b o = bad_bootstrap b

pub source_context : ℕ → Str
source_context n = codes "reading " ++ (to_string n ++ codes " bytes of assembler.py source")

pub on_source : ℕ → Outcome Bytes × Input → Output → Opening
unfolding on_boot source_context
on_source n (done bytes, i) o = on_boot (consume_sshuttle_bootstrap i) o
on_source n (failed e, i) o = stopped (Error.context (source_context n) e)
on_source n (pending, i) o = waiting

unfoldable pub begin_session : Bool → ℕ → Input → Output → Opening
unfolding on_source discard send_header
begin_session true assembler_bytes i o = on_source assembler_bytes (discard assembler_bytes i) o
begin_session false assembler_bytes i o = send_header i o

-- the two frames that are queued before any is read
abbrev pub greeting : List Frame
greeting = frame 0 Cmd.ping (codes "chicken") ∷ frame 0 Cmd.routes [] ∷ []

discard_source :
    (n : ℕ) (source rest : Bytes) (e : Ending)
    → length source ≡ n
    → (bytes : Bytes) × (discard n (input (source ++ rest) e) ≡ (done bytes, input rest e))
unfolding discard
discard_source zero [] rest e h = ([], refl)
discard_source zero (b ∷ source) rest e h = absurd (omega arith)
discard_source (suc n) source rest e h = (source, read_exact-append (suc n) source rest e h)

send_header_open :
    (i : Input) (o : Output)
    → o.room ≡ none
    → send_header i o ≡ serving i (record o { sent = o.sent ++ sync_header })
unfolding send_header write_all
send_header_open i o h = rw h refl

-- What stock sshuttle sends in front of its frames is thrown away exactly, and the sync header is
-- sent.
pub begin_session_stock :
    (source : Bytes) (ms : List Module) (rest : Bytes) (e : Ending) (o : Output)
    → All IsModule ms
    → o.room ≡ none
    → begin_session true (length source) (input (source ++ bootstrap ms rest) e) o
      ≡ serving (input rest e) (record o { sent = o.sent ++ sync_header })
unfolding begin_session on_source on_boot
begin_session_stock source ms rest e o v room =
    let (bytes, dropped) = discard_source (length source) source (bootstrap ms rest) e refl in
    rw (dropped, consume_bootstrap_complete ms rest e v) (send_header_open (input rest e) o room)
