-- ===== src/Client/Run.antt =====
-- rushtle/src/client.rs, `run` around its loops: the listeners, the link, the firewall, and the
-- clean-up on a signal. The firewall and the sockets of the system are parameters.
pub mod Restores
pub mod Refusals
pub mod Samples
use kubectl_sshuttle.Base.{
  ℕ, zero, suc, Bool, true, false, Option, none, some, List, [], ◌∷◌, ◌++◌, codes, Error, Result,
  ok, err, ◌>>=◌,
}
use kubectl_sshuttle.Text.Utf8.{Str}
use kubectl_sshuttle.Text.Numbers.{to_string}
use kubectl_sshuttle.Stream.{Outcome, done, failed, pending}
use kubectl_sshuttle.Client.Probe.{Link}
use kubectl_sshuttle.Client.Link.{Remote, link_setup}
use kubectl_sshuttle.Client.Subnets.{split_subnets_by_family, has_v6}
use kubectl_sshuttle.Firewall.Api.{Firewall}
use kubectl_sshuttle.Shim.Launch.{ClientArgs}

abbrev pub redirect_port_tcp : ℕ
redirect_port_tcp = 12300

abbrev pub redirect_port_dns : ℕ
redirect_port_dns = 12353

-- the port of an option, or the default for 0
pub port_or : ℕ → ℕ → ℕ
port_or default zero = default
port_or default (suc n) = suc n

-- the name of the chain, by the number of the process
abbrev pub chain_of : ℕ → Str
chain_of pid = codes "RUSHTLE_" ++ to_string pid

-- What binding a socket to an address and a port gives.
pub record Sockets : Type 0 where
  pub tcp : Str → ℕ → Result Error (Unit {0})
  pub udp : Str → ℕ → Result Error (Unit {0})

-- how `run` stands when it has come to its loops, or has ended before
pub data Started (E : Type 0) : Type 0 where
  forwarding : Link → Started E
  stopped : Error → Started E
  refused : E → Started E
  waiting : Started E

-- `with_context`
bind_context : Str → Result Error (Unit {0}) → Result Error (Unit {0})
bind_context what (ok u) = ok u
bind_context what (err e) = err (Error.context what e)

module _ (sockets : Sockets) where
  pub bind_v4 : ℕ → Result Error (Unit {0})
  unfolding bind_context
  bind_v4 port =
      bind_context (codes "bind 127.0.0.1:" ++ to_string port)
        (sockets.tcp (codes "127.0.0.1") port)

  pub bind_v6 : ℕ → List Str → Result Error (Unit {0})
  unfolding bind_context
  bind_v6 port [] = ok tt
  bind_v6 port (c ∷ cs) =
      bind_context (codes "bind [::1]:" ++ to_string port) (sockets.tcp (codes "::1") port)

  pub bind_dns : ℕ → Bool → Result Error (Unit {0})
  unfolding bind_context
  bind_dns port false = ok tt
  bind_dns port true =
      bind_context (codes "bind UDP 127.0.0.1:" ++ to_string port)
        (sockets.udp (codes "127.0.0.1") port)

  pub bind_all : ℕ → ℕ → List Str → Bool → Result Error (Unit {0})
  unfolding bind_v4 bind_v6 bind_dns
  bind_all port dns_port subnets_v6 dns = do
    v4 ← bind_v4 port
    v6 ← bind_v6 port subnets_v6
    bind_dns dns_port dns

module _ (F : Firewall) where
  -- an install that fails is undone, whatever that gives
  pub undone :
      Str → Bool → Result F.Failure (Unit {0}) × F.State → Result F.Failure (Unit {0}) × F.State
  undone chain v6 (ok u, s) = (ok u, s)
  undone chain v6 (err e, s) = (err e, (F.remove chain v6 s).1)

  -- `dns`, the ports and the subnets are those of `install`
  pub install_rules :
      Bool
      → Str
      → ℕ
      → ℕ
      → List Str
      → List Str
      → Bool
      → F.State
      → Result F.Failure (Unit {0}) × F.State
  unfolding undone
  install_rules false chain port dns_port v4 v6 dns s = (ok tt, s)
  install_rules true chain port dns_port v4 v6 dns s =
      undone chain (has_v6 v6) (F.install chain port dns_port v4 v6 dns s)

  -- the closure `cleanup`
  pub cleanup : Bool → Str → Bool → F.State → F.State
  cleanup false chain v6 s = s
  cleanup true chain v6 s = (F.remove chain v6 s).1

  pub on_redirect : Link → Result F.Failure (Unit {0}) × F.State → Started F.Failure × F.State
  on_redirect link (ok u, s) = (forwarding link, s)
  on_redirect link (err e, s) = (refused e, s)

  pub on_link :
      ClientArgs → ℕ → Option (Outcome Link) → F.State → Option (Started F.Failure × F.State)
  unfolding on_redirect install_rules port_or split_subnets_by_family
  on_link args pid none s = none
  on_link args pid (some (failed e)) s = some (stopped e, s)
  on_link args pid (some pending) s = some (waiting, s)
  on_link args pid (some (done link)) s =
      let (v4, v6) = split_subnets_by_family args.subnets in
      some (
        on_redirect link (
          install_rules args.manage_iptables (chain_of pid)
            (port_or redirect_port_tcp args.listen_port)
            (port_or redirect_port_dns args.dns_listen_port) v4 v6 args.dns s))

  pub on_bound :
      Str
      → ClientArgs
      → ℕ
      → ℕ
      → Remote
      → Result Error (Unit {0})
      → F.State
      → Option (Started F.Failure × F.State)
  unfolding on_link
  on_bound eof_text args pid delay remote (err e) s = some (stopped e, s)
  on_bound eof_text args pid delay remote (ok u) s =
      on_link args pid (link_setup eof_text delay args.probe_fallback_us remote) s

  -- up to the loops; `delay` is the delay between frames, `pid` the number of the process
  unfoldable pub start_client :
      Sockets → Str → ClientArgs → ℕ → ℕ → Remote → F.State → Option (Started F.Failure × F.State)
  unfolding on_bound bind_all
  start_client sockets eof_text args pid delay remote s =
      let (v4, v6) = split_subnets_by_family args.subnets in
      on_bound eof_text args pid delay remote
        (bind_all sockets (port_or redirect_port_tcp args.listen_port)
          (port_or redirect_port_dns args.dns_listen_port) v6 args.dns)
        s

  -- SIGINT or SIGTERM; the handlers stand only once the firewall is set up
  unfoldable pub on_signal : ClientArgs → ℕ → Started F.Failure → F.State → F.State
  unfolding cleanup split_subnets_by_family
  on_signal args pid (forwarding link) s =
      let (v4, v6) = split_subnets_by_family args.subnets in
      cleanup args.manage_iptables (chain_of pid) (has_v6 v6) s
  on_signal args pid _ s = s
