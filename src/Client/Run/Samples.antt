-- ===== src/Client/Run/Samples.antt =====
-- rushtle/src/client.rs, `run`: a client whose ip6tables takes no link-local subnet.
use kubectl_sshuttle.Base.{◌≡◌, refl, Bool, true, false, some, [], ◌∷◌, codes, same, Error, ok, err}
use kubectl_sshuttle.Stream.{input, Ending, done}
use kubectl_sshuttle.Ssnet.Frame.{sync_header}
use kubectl_sshuttle.Ssnet.Tasks.{fresh}
use kubectl_sshuttle.Client.Probe.{Link}
use kubectl_sshuttle.Client.Link.{Remote, link_setup}
use kubectl_sshuttle.Client.Link.Laws.{link_setup_off}
use kubectl_sshuttle.Client.Subnets.{split_subnets_by_family, is_v6}
use kubectl_sshuttle.Text.Slices.{contains}
use kubectl_sshuttle.Firewall.System.{System, CmdError}
use kubectl_sshuttle.Firewall.Linux.{iptables, ip6tables}
use kubectl_sshuttle.Firewall.Linux.Nat.{Rule, View, IsNat}
use kubectl_sshuttle.Firewall.Api.{linux}
use kubectl_sshuttle.Shim.Launch.{ClientArgs}
use kubectl_sshuttle.Client.Run.{
  chain_of, Sockets, refused, bind_context, bind_v4, bind_v6, bind_dns, bind_all, start_client,
}
use kubectl_sshuttle.Client.Run.Restores.{subnets_v6, tcp_port, dns_port}
use kubectl_sshuttle.Client.Run.Refusals.{start_client-refused}
use kubectl_sshuttle.Tests.Tables.{
  picky, picky-IsNat, picky-Refuses, files, kept, tables, tables-Only,
}

abbrev link_local : Rule → Bool
link_local (p ∷ tcp ∷ d ∷ cidr ∷ rest) = same cidr (codes "fe80::/10")
link_local _ = false

abbrev host : System
host = picky link_local files

abbrev host-IsNat : IsNat host
host-IsNat = picky-IsNat link_local files (λ target. refl)

abbrev args : ClientArgs
args = record {
  remote_cmd = codes "kubectl exec";
  subnets = codes "10.0.0.0/8" ∷ codes "fd00::/8" ∷ codes "fe80::/10" ∷ codes "2001:db8::/32" ∷ [];
  listen_port = 0;
  manage_iptables = true;
  dns = false;
  dns_listen_port = 0;
  probe_fallback_us = 0;
}

abbrev free : Sockets
free = record { tcp = λ address port. ok tt; udp = λ address port. ok tt }

abbrev remote : Remote
remote = record {
  first = ok (record { stdin = fresh; stdout = input sync_header Ending.silent });
  second = err (Error.message (codes "no pod"));
  more_first = input [] Ending.silent;
  more_second = input [] Ending.silent;
}

abbrev link : Link
link = record { stdin = fresh; stdout = input [] Ending.silent; delay = 0 }

bound : bind_all free (tcp_port args) (dns_port args) (subnets_v6 args) args.dns ≡ ok tt
unfolding bind_all bind_v4 bind_v6 bind_dns bind_context split_subnets_by_family is_v6 contains
bound = refl

linked : link_setup (codes "early eof") 0 0 remote ≡ some (done link)
linked = link_setup_off (codes "early eof") 0 remote fresh [] Ending.silent refl

start_client-refused_example :
    (e : CmdError) × (t : View) × (start_client
        (linux host)
        free
        (codes "early eof")
        args
        7
        0
        remote
        tables
      ≡ some (refused e, t))
    × (t ≡ tables)
unfolding picky-IsNat split_subnets_by_family is_v6 contains
start_client-refused_example =
    start_client-refused host host-IsNat args 7 tables (kept ∷ []) (kept ∷ []) free
      (codes "early eof") 0 remote link (codes "fd00::/8" ∷ []) (codes "2001:db8::/32" ∷ [])
      (codes "fe80::/10") refl bound linked (refl, refl, refl, tables-Only iptables (chain_of 7))
      (refl, refl, refl, tables-Only ip6tables (chain_of 7)) (refl, (refl, tt)) refl refl (refl, tt)
      (picky-Refuses link_local files (λ target. refl) ip6tables _ refl)
