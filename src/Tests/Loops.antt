-- ===== src/Tests/Loops.antt =====
-- rushtle/src/server.rs and rushtle/src/main.rs on concrete inputs: a session that stock sshuttle
-- opens, the bootstrap, the host list and the answers to DNS queries.
use kubectl_sshuttle.Base.{
  ◌++◌, Option, true, none, some, if◌then◌else◌, ◌%◌, ◌^◌, ◌≡◌, List, [], ◌∷◌, arith, length, codes,
  All, refl,
}
use kubectl_sshuttle.Stream.{Input, input, Ending}
use kubectl_sshuttle.Text.Utf8.{Str, Bytes}
use kubectl_sshuttle.Ssnet.Cmd
use kubectl_sshuttle.Ssnet.Frame.{Frame, frame, sync_header}
use kubectl_sshuttle.Ssnet.Tasks.{encode_all, frames, eof, fresh}
use kubectl_sshuttle.Server.Session.{serving}
use kubectl_sshuttle.Shim.Launch.{Cli, Launch, main}
use kubectl_sshuttle.Shim.Sessions.{session, python_command, shim_serves}
use kubectl_sshuttle.Text.Slices.{find, starts_with, strip_prefix}
use kubectl_sshuttle.Server.Dns.{Attempt}
use kubectl_sshuttle.Server.Resolvers.{SocketAddr, is_ipv6}
use kubectl_sshuttle.Server.Hosts.{encode_host_list, separated, encode_host_list-separated}
use kubectl_sshuttle.Server.Bootstrap.{ready, consume_sshuttle_bootstrap}
use kubectl_sshuttle.Server.Bootstrap.Records.{
  Module, IsModule, bootstrap, total_bytes, consume_bootstrap_complete,
}

abbrev modules : List Module
modules =
    record { name = codes "sshuttle.ssnet"; body = codes "xyz" }
    ∷ record { name = codes "e"; body = [] }
    ∷ []

modules-IsModule : All IsModule modules
modules-IsModule = (
  record {
    named = λ e. cc;
    scalars = omega arith;
    one_line = omega arith;
    no_return = omega arith;
    sized = omega arith;
  },
  (
    record {
      named = λ e. cc;
      scalars = omega arith;
      one_line = omega arith;
      no_return = omega arith;
      sized = omega arith;
    },
    tt,
  ),
)

consume_bootstrap_complete_example :
    consume_sshuttle_bootstrap (input (bootstrap modules (codes "SS")) Ending.closed)
    ≡ ready
        (input (codes "SS") Ending.closed)
        (length modules % 2 ^ 32)
        (total_bytes modules % 2 ^ 64)
consume_bootstrap_complete_example =
    consume_bootstrap_complete modules (codes "SS") Ending.closed modules-IsModule

-- the parser of the other command lines, which knows none
abbrev no_cli : List Str → Option Cli
no_cli argv = none

abbrev first_frames : List Frame
first_frames = frame 0 Cmd.ping (codes "chicken") ∷ frame 1 Cmd.tcp_data (codes "hi") ∷ []

-- the command of scripts/rushtle-shim-smoketest.py
abbrev before : Str
before = codes "import sys, os; verbosity=0; stdin = os.fdopen(0, 'rb'); exec(compile("

abbrev after : Str
after = codes ", 'assembler.py', 'exec')); sys.exit(98);"

before_marks : find (codes "stdin.read(") (before ++ codes "stdin.read(") ≡ some (length before)
unfolding find starts_with strip_prefix
before_marks = refl

shim_serves_example :
    (l : Launch) × (i : Input) × (main no_cli none none
        (codes "rushtle" ∷ codes "-c" ∷ python_command before 4 after ∷ [])
      ≡ some l)
    × (session l.program
          (input (codes "asm!" ++ bootstrap modules (encode_all first_frames)) Ending.closed)
          fresh
        ≡ some (serving i (record fresh { sent = fresh.sent ++ sync_header })))
    × (frames 3 i ≡ (first_frames, eof))
shim_serves_example =
    shim_serves no_cli none none (codes "rushtle") before after [] (codes "asm!") modules
      first_frames fresh before_marks (omega arith) modules-IsModule
      (
        (
          record { channel_u16 = omega arith; cmd_u16 = omega arith; payload_u8 = omega arith },
          omega arith,
        ),
        (
          (
            record { channel_u16 = omega arith; cmd_u16 = omega arith; payload_u8 = omega arith },
            omega arith,
          ),
          tt,
        ),
      )
      refl

abbrev entries : List (Str × Str)
entries = (codes "db", codes "10.0.0.2") ∷ (codes "web", codes "10.0.0.3") ∷ []

encode_host_list-separated_example : encode_host_list entries ≡ separated entries
encode_host_list-separated_example = encode_host_list-separated entries

-- two servers, of which the first does not answer
abbrev resolv_conf : Str
resolv_conf = codes "# home\nnameserver fe80::1\n\nnameserver 10.0.0.1\nsearch lan\n"

abbrev second_answers : Str → SocketAddr → Bytes → Attempt
second_answers local ns query = record {
  bound = true;
  sent = true;
  received = if is_ipv6 ns then none else some (codes "r");
}
