-- ===== src/Firewall/Api.antt =====
-- rushtle/src/firewall/mod.rs: what the client asks of the firewall of its platform, on Linux and on a
-- platform that rushtle/src/firewall/stub.rs stands for.
use kubectl_sshuttle.Base.{ℕ, Bool, List, codes, Error, Result, ok, err}
use kubectl_sshuttle.Text.Utf8.{Str}
use kubectl_sshuttle.Firewall.System.{System, CmdError}
use kubectl_sshuttle.Firewall.Linux

-- `install` and `remove`, on a state that the client does not see
pub record Firewall : Type 1 where
  pub State : Type 0
  pub Failure : Type 0
  pub install : Str → ℕ → ℕ → List Str → List Str → Bool → State → Result Failure (Unit {0}) × State
  pub remove : Str → Bool → State → Result Failure (Unit {0}) × State

abbrev pub linux : System → Firewall
linux S = record {
  State = S.State;
  Failure = CmdError;
  install = Linux.install S;
  remove = Linux.remove S;
}

abbrev pub stub : Type 0 → Firewall
stub T = record {
  State = T;
  Failure = Error;
  install = λ chain tcp_port dns_port v4 v6 dns s.
      (err (Error.message (codes "rushtle client mode is not supported on this platform")), s);
  remove = λ chain has_v6 s. (ok tt, s);
}
