-- ===== src/Shim/Sessions.antt =====
-- rushtle/src/main.rs and rushtle/src/server.rs together: a session that a command of sshuttle opens.
use kubectl_sshuttle.Base.{
  ℕ, suc, ◌≤◌, ◌≡◌, refl, ap, Option, some, List, ◌∷◌, ◌++◌, codes, arith, length, All, none,
}
use kubectl_sshuttle.Text.Utf8.{Bytes, Str}
use kubectl_sshuttle.Text.Slices.{find}
use kubectl_sshuttle.Text.Numbers.{to_string}
use kubectl_sshuttle.Stream.{Input, input, Ending, Output}
use kubectl_sshuttle.Ssnet.Frame.{Frame, sync_header}
use kubectl_sshuttle.Ssnet.Tasks.{encode_all, Sendable, frames, eof, frames-encode_all}
use kubectl_sshuttle.Server.Bootstrap.Records.{Module, IsModule, bootstrap}
use kubectl_sshuttle.Server.Session.{Opening, serving, begin_session, begin_session_stock}
use kubectl_sshuttle.Shim.{u64_max, parse_assembler_bytes-marker}
use kubectl_sshuttle.Shim.Launch.{Cli, Program, serve, forward, Launch, main, shim}

-- `server::run` up to its loop, if it is what is run
pub session : Program → Input → Output → Option Opening
session (serve compat_bootstrap assembler_bytes) i o =
    some (begin_session compat_bootstrap assembler_bytes i o)
session (forward args) i o = none

-- the command that sshuttle gives a python interpreter
abbrev pub python_command : Str → ℕ → Str → Str
python_command before n after = before ++ (codes "stdin.read(" ++ (to_string n ++ (b')' ∷ after)))

-- Started in place of a python interpreter, with `-c` and a command as sshuttle makes it, which tells
-- the length of the assembler's source behind the first "stdin.read(" in it, the program serves: it
-- throws the source and the modules away exactly, sends the sync header, and then reads the client's
-- frames, all of them, in order.
pub shim_serves :
    (parse_cli : List Str → Option Cli) (from_env frame_delay : Option Str) (program : Str)
    (before after : Str) (rest : List Str) (source : Bytes) (ms : List Module) (fs : List Frame)
    (o : Output)
    → find (codes "stdin.read(") (before ++ codes "stdin.read(") ≡ some (length before)
    → length source ≤ u64_max
    → All IsModule ms
    → All Sendable fs
    → o.room ≡ none
    → (l : Launch) × (i : Input) × (main parse_cli from_env frame_delay
          (program ∷ codes "-c" ∷ python_command before (length source) after ∷ rest)
        ≡ some l)
      × (session l.program (input (source ++ bootstrap ms (encode_all fs)) Ending.closed) o
          ≡ some (serving i (record o { sent = o.sent ++ sync_header })))
      × (frames (suc (length fs)) i ≡ (fs, eof))
unfolding main session shim
shim_serves parse_cli from_env frame_delay program before after rest source ms fs o first fits v w
      room =
    let script = python_command before (length source) after in
    (
      shim parse_cli from_env frame_delay script,
      input (encode_all fs) Ending.closed,
      refl,
      rw (parse_assembler_bytes-marker before after (length source) first fits)
          (ap some (begin_session_stock source ms (encode_all fs) Ending.closed o v room)),
      frames-encode_all (suc (length fs)) fs (omega arith) w,
    )
