-- ===== src/Shim/Launch.antt =====
-- rushtle/src/main.rs, the command line and `main`: what the program is started as. clap's parser is
-- a parameter, and so is the environment; `init_frame_delay_from_env` is in rushtle/src/ssnet.rs.
use kubectl_sshuttle.Base.{
  ℕ, Bool, true, not, Option, none, some, List, ◌∷◌, ◌++◌, codes, same, ◌==◌, if◌then◌else◌,
}
use kubectl_sshuttle.Text.Utf8.{Str}
use kubectl_sshuttle.Text.Slices.{contains}
use kubectl_sshuttle.Text.Numbers.{parse_uint}
use kubectl_sshuttle.Shim.{u64_max, parse_assembler_bytes}

-- `ClientArgs` of rushtle/src/client.rs
pub record ClientArgs : Type 0 where
  pub remote_cmd : Str
  pub subnets : List Str
  pub listen_port : ℕ
  pub manage_iptables : Bool
  pub dns : Bool
  pub dns_listen_port : ℕ
  pub probe_fallback_us : ℕ

-- the options of `rushtle client`
pub record ClientOptions : Type 0 where
  pub cmd : Str
  pub listen_port : ℕ
  pub no_iptables : Bool
  pub dns : Bool
  pub dns_listen_port : ℕ
  pub no_latency_control : Bool
  pub latency_control : Bool
  pub probe_fallback_us : ℕ
  pub subnets : List Str

-- the subcommands
pub data Cmd : Type 0 where
  server : Bool → ℕ → Cmd
  client : ClientOptions → Cmd

pub record Cli : Type 0 where
  pub cmd : Cmd
  pub verbose : ℕ

-- what is run: `server::run` or `client::run`, with its arguments
pub data Program : Type 0 where
  serve : Bool → ℕ → Program
  forward : ClientArgs → Program

-- the filter of the log, the delay between frames, and the program
pub record Launch : Type 0 where
  pub filter : Str
  pub delay : ℕ
  pub program : Program

pub level : ℕ → Str
level n = if n == 0 then codes "info" else if n == 1 then codes "debug" else codes "trace"

-- `from_env` is the filter that the environment gives, if it gives one
pub init_tracing : Option Str → ℕ → Str
unfolding level
init_tracing none verbose = codes "rushtle=" ++ level verbose
init_tracing (some filter) verbose = filter

pub delay_or : ℕ → Option ℕ → ℕ
delay_or delay none = delay
delay_or delay (some us) = us

-- `value` is that of RUSHTLE_FRAME_DELAY_US, if it is set
unfoldable pub init_frame_delay_from_env : Option Str → ℕ → ℕ
unfolding delay_or
init_frame_delay_from_env none delay = delay
init_frame_delay_from_env (some value) delay = delay_or delay (parse_uint u64_max value)

-- the verbosity in sshuttle's command
pub verbosity : Str → ℕ
verbosity pyscript =
    if contains (codes "verbosity=2") pyscript
    then 2
    else if contains (codes "verbosity=1") pyscript
    then 1
    else 0

pub client_args : ClientOptions → ClientArgs
client_args o = record {
  remote_cmd = o.cmd;
  subnets = o.subnets;
  listen_port = o.listen_port;
  manage_iptables = not o.no_iptables;
  dns = o.dns;
  dns_listen_port = o.dns_listen_port;
  probe_fallback_us = o.probe_fallback_us;
}

pub program_of : Cmd → Program
unfolding client_args
program_of (server compat_bootstrap assembler_bytes) = serve compat_bootstrap assembler_bytes
program_of (client o) = forward (client_args o)

-- `parse_cli` is `Cli::parse`, which ends the program where it gives nothing
module _ (parse_cli : List Str → Option Cli) (from_env frame_delay : Option Str) where
  pub launch : ℕ → Program → Launch
  unfolding init_tracing init_frame_delay_from_env
  launch verbose program = record {
    filter = init_tracing from_env verbose;
    delay = init_frame_delay_from_env frame_delay 0;
    program = program;
  }

  pub from_cli : Option Cli → Option Launch
  unfolding launch program_of
  from_cli none = none
  from_cli (some cli) = some (launch cli.verbose (program_of cli.cmd))

  -- invoked like a python interpreter, `rushtle -c PYSCRIPT`
  unfoldable pub shim : Str → Launch
  unfolding launch verbosity
  shim pyscript = launch (verbosity pyscript) (serve true (parse_assembler_bytes pyscript))

  unfoldable pub main : List Str → Option Launch
  unfolding from_cli shim
  main (program ∷ flag ∷ pyscript ∷ rest) =
      if same flag (codes "-c")
      then some (shim pyscript)
      else from_cli (parse_cli (program ∷ flag ∷ pyscript ∷ rest))
  main argv = from_cli (parse_cli argv)
