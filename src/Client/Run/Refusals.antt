-- ===== src/Client/Run/Refusals.antt =====
-- rushtle/src/client.rs and rushtle/src/firewall/linux.rs together: a client whose firewall is refused
-- half-way.
use kubectl_sshuttle.Base.{ℕ, ◌≡◌, refl, ap, ◌∙◌, true, some, List, [], ◌∷◌, ◌++◌, map, All, ok}
use kubectl_sshuttle.Text.Utf8.{Str}
use kubectl_sshuttle.Text.Numbers.{to_string}
use kubectl_sshuttle.Stream.{done}
use kubectl_sshuttle.Client.Probe.{Link}
use kubectl_sshuttle.Client.Link.{Remote, link_setup}
use kubectl_sshuttle.Client.Subnets.{has_v6}
use kubectl_sshuttle.Firewall.System.{System, CmdError}
use kubectl_sshuttle.Firewall.Linux.{iptables, ip6tables, remove}
use kubectl_sshuttle.Firewall.Linux.Expected
use kubectl_sshuttle.Firewall.Linux.Nat.{Rule, IsNat}
use kubectl_sshuttle.Firewall.Linux.Install.{chain_v4}
use kubectl_sshuttle.Firewall.Linux.Refused.{Refuses, refused-remove}
use kubectl_sshuttle.Firewall.Linux.RoundTrip.{Clean}
use kubectl_sshuttle.Firewall.Api.{linux}
use kubectl_sshuttle.Shim.Launch.{ClientArgs}
use kubectl_sshuttle.Client.Run.{
  chain_of, Sockets, refused, undone, install_rules, bind_all, on_redirect, on_link, on_bound,
  start_client,
}
use kubectl_sshuttle.Client.Run.Restores.{subnets_v4, subnets_v6, tcp_port, dns_port}

has_v6-append : (pre post : List Str) (bad : Str) → has_v6 (pre ++ bad ∷ post) ≡ true
has_v6-append [] post bad = refl
has_v6-append (p ∷ pre) post bad = refl

module _ (S : System) (N : IsNat S) (args : ClientArgs) (pid : ℕ) (s : S.State)
    (out₄ out₆ : List Rule) where
  -- The client has its sockets and its link, and manages the tables, in which there is OUTPUT and
  -- neither a chain of its name nor a jump to it. If the system takes the IPv4 rules, and of the IPv6
  -- rules those in front of one that it refuses, then the client ends with an error before its loops,
  -- and the tables are as they were.
  pub start_client-refused :
      (sockets : Sockets) (eof_text : Str) (delay : ℕ) (remote : Remote) (link : Link)
      (pre post : List Str) (bad : Str)
      → args.manage_iptables ≡ true
      → bind_all sockets (tcp_port args) (dns_port args) (subnets_v6 args) args.dns ≡ ok tt
      → link_setup eof_text delay args.probe_fallback_us remote ≡ some (done link)
      → Clean (N.view s) iptables (chain_of pid) out₄
      → Clean (N.view s) ip6tables (chain_of pid) out₆
      → All
          (N.accepted iptables)
          (chain_v4 S.read_file (tcp_port args) (dns_port args) (subnets_v4 args) args.dns)
      → subnets_v6 args ≡ pre ++ bad ∷ post
      → N.accepted ip6tables Expected.not_loopback
      → All (N.accepted ip6tables) (map (Expected.tcp_to (to_string (tcp_port args))) pre)
      → Refuses S N ip6tables (Expected.tcp_to (to_string (tcp_port args)) bad)
      → (e : CmdError) × (t : S.State) × (start_client
            (linux S)
            sockets
            eof_text
            args
            pid
            delay
            remote
            s
          ≡ some (refused e, t))
        × (N.view t ≡ N.view s)
  unfolding start_client on_bound on_link install_rules undone on_redirect
  start_client-refused sockets eof_text delay remote link pre post bad manages bound linked clean₄
        clean₆ h₄ split hl ht refuses =
      let (e, s₁, fails, restored) =
        refused-remove S N (chain_of pid) (tcp_port args) (dns_port args) (subnets_v4 args)
          (subnets_v6 args) pre post bad args.dns s out₄ out₆ refl clean₄ clean₆ h₄ split hl ht
          refuses in
      let v6 : has_v6 (subnets_v6 args) ≡ true = ap has_v6 split ∙ has_v6-append pre post bad in
      (
        e,
        (remove S (chain_of pid) true s₁).1,
        rw (bound, linked, manages, fails, v6) refl,
        restored,
      )
