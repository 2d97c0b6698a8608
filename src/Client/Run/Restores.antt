-- ===== src/Client/Run/Restores.antt =====
-- rushtle/src/client.rs and rushtle/src/firewall/linux.rs together: what a run of the client leaves
-- behind in the tables of iptables.
use kubectl_sshuttle.Base.{
  ℕ, ◌≡◌, ◌≢◌, refl, ap, ◌∙◌, Bool, true, false, Option, none, some, List, [], All, Result, ok, err,
  Error,
}
use kubectl_sshuttle.Text.Utf8.{Str}
use kubectl_sshuttle.Text.Numbers.{to_string}
use kubectl_sshuttle.Stream.{Outcome, done, failed, pending}
use kubectl_sshuttle.Client.Probe.{Link}
use kubectl_sshuttle.Client.Link.{Remote}
use kubectl_sshuttle.Client.Link.Laws.{link_setup_total}
use kubectl_sshuttle.Client.Subnets.{split_subnets_by_family, has_v6}
use kubectl_sshuttle.Firewall.System.{System, CmdError, ◌>>◌}
use kubectl_sshuttle.Firewall.Linux.{iptables, ip6tables, Cmd, install, remove}
use kubectl_sshuttle.Firewall.Linux.Nat.{Rule, View, IsNat}
use kubectl_sshuttle.Firewall.Linux.Goes.{Leaves}
use kubectl_sshuttle.Firewall.Linux.Install.{rules_v6, chain_v4, hooked, hooked_v6, install-hooked}
use kubectl_sshuttle.Firewall.Linux.RoundTrip.{Clean, install-remove}
use kubectl_sshuttle.Firewall.Api.{linux}
use kubectl_sshuttle.Shim.Launch.{ClientArgs}
use kubectl_sshuttle.Client.Run.{
  redirect_port_tcp, redirect_port_dns, port_or, chain_of, Sockets, Started, forwarding, stopped,
  refused, waiting, undone, install_rules, cleanup, on_redirect, on_link, on_bound, start_client,
  on_signal,
}

-- the two families of the subnets, and the ports
abbrev pub subnets_v4 : ClientArgs → List Str
subnets_v4 args = (split_subnets_by_family args.subnets).0

abbrev pub subnets_v6 : ClientArgs → List Str
subnets_v6 args = (split_subnets_by_family args.subnets).1

abbrev pub tcp_port : ClientArgs → ℕ
tcp_port args = port_or redirect_port_tcp args.listen_port

abbrev pub dns_port : ClientArgs → ℕ
dns_port args = port_or redirect_port_dns args.dns_listen_port

module _ (S : System) (N : IsNat S) (args : ClientArgs) (pid : ℕ) (s : S.State)
    (out₄ out₆ : List Rule) where
  -- the tables with the rules of the client, `out₄` and `out₆` being those that OUTPUT had
  abbrev pub redirected : View
  redirected =
      hooked_v6
        (hooked (N.view s) iptables (chain_of pid)
          (chain_v4 S.read_file (tcp_port args) (dns_port args) (subnets_v4 args) args.dns) out₄)
        (chain_of pid) (to_string (tcp_port args)) (subnets_v6 args) out₆

  -- the tables while the client stands like this
  abbrev pub meanwhile : Started CmdError → Bool → View
  meanwhile (forwarding link) true = redirected
  meanwhile (forwarding link) false = N.view s
  meanwhile (stopped e) manage = N.view s
  meanwhile (refused e) manage = N.view s
  meanwhile waiting manage = N.view s

  -- The client comes to its loops, or ends or waits before them. Its rules stand where it has come to
  -- its loops, and only there; behind a signal the tables are as they were.
  abbrev pub Restores : Option (Started CmdError × S.State) → Type 0
  Restores o =
      (r : Started CmdError) × (t : S.State) × (o ≡ some (r, t))
      × (N.view t ≡ meanwhile r args.manage_iptables)
      × (N.view (on_signal (linux S) args pid r t) ≡ N.view s)

  abbrev installs : Cmd S
  installs =
      install S (chain_of pid) (tcp_port args) (dns_port args) (subnets_v4 args) (subnets_v6 args)
        args.dns

  abbrev removes : Cmd S
  removes = remove S (chain_of pid) (has_v6 (subnets_v6 args))

  abbrev Undoes : Type 0
  Undoes = Leaves S N installs s redirected × Leaves S N (installs >> removes) s (N.view s)

  install_rules-cleanup :
      (manage : Bool) (link : Link)
      → Undoes
      → (t : S.State) × (install_rules
            (linux S)
            manage
            (chain_of pid)
            (tcp_port args)
            (dns_port args)
            (subnets_v4 args)
            (subnets_v6 args)
            args.dns
            s
          ≡ (ok tt, t))
        × (N.view t ≡ meanwhile (forwarding link) manage)
        × (N.view (cleanup (linux S) manage (chain_of pid) (has_v6 (subnets_v6 args)) t) ≡ N.view s)
  unfolding install_rules cleanup undone
  install_rules-cleanup false link undoes = (s, refl, refl, refl)
  install_rules-cleanup true link ((t, installed, hooks), (s', ran, same_view)) =
      let removed : removes t ≡ (ok tt, s') = rw installed at ran in
      (t, rw installed refl, hooks, ap (λ r. N.view r.1) removed ∙ same_view)

  on_link-Restores :
      (o : Option (Outcome Link)) → o ≢ none → Undoes → Restores (on_link (linux S) args pid o s)
  unfolding on_link on_redirect on_signal
  on_link-Restores none total undoes = absurd (total refl)
  on_link-Restores (some (failed e)) total undoes = (stopped e, s, refl, refl, refl)
  on_link-Restores (some pending) total undoes = (waiting, s, refl, refl, refl)
  on_link-Restores (some (done link)) total undoes =
      let (t, ran, stands, cleaned) = install_rules-cleanup args.manage_iptables link undoes in
      (forwarding link, t, rw ran refl, stands, cleaned)

  on_bound-Restores :
      (eof_text : Str) (delay : ℕ) (remote : Remote) (r : Result Error (Unit {0}))
      → Undoes
      → Restores (on_bound (linux S) eof_text args pid delay remote r s)
  unfolding on_bound on_signal
  on_bound-Restores eof_text delay remote (err e) undoes = (stopped e, s, refl, refl, refl)
  on_bound-Restores eof_text delay remote (ok u) undoes =
      on_link-Restores _ (link_setup_total eof_text delay args.probe_fallback_us remote) undoes

  -- Whatever comes of the client's sockets and of the link, the client comes to its loops, or ends or
  -- waits before them. If the tables had OUTPUT and neither a chain of this name nor a jump to it, and
  -- the system takes the rules, then the rules of the client are in the tables where it has come to
  -- its loops and manages them, and the tables are unchanged otherwise; and behind a signal they are
  -- as they were.
  pub start_client-Restores :
      (sockets : Sockets) (eof_text : Str) (delay : ℕ) (remote : Remote)
      → Clean (N.view s) iptables (chain_of pid) out₄
      → (subnets_v6 args ≢ [] → Clean (N.view s) ip6tables (chain_of pid) out₆)
      → All
          (N.accepted iptables)
          (chain_v4 S.read_file (tcp_port args) (dns_port args) (subnets_v4 args) args.dns)
      → All (N.accepted ip6tables) (rules_v6 (to_string (tcp_port args)) (subnets_v6 args))
      → Restores (start_client (linux S) sockets eof_text args pid delay remote s)
  unfolding start_client
  start_client-Restores sockets eof_text delay remote clean₄ clean₆ h₄ h₆ =
      on_bound-Restores eof_text delay remote _ (
        install-hooked S N (chain_of pid) (tcp_port args) (dns_port args) (subnets_v4 args)
            (subnets_v6 args) args.dns s out₄ out₆ refl clean₄.0 (λ h. (clean₆ h).0) h₄ h₆,
        install-remove S N (chain_of pid) (tcp_port args) (dns_port args) (subnets_v4 args)
            (subnets_v6 args) args.dns s out₄ out₆ refl clean₄ clean₆ h₄ h₆,
      )
