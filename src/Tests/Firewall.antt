-- ===== src/Tests/Firewall.antt =====
-- rushtle/src/firewall/linux.rs, and a run of the client, on NAT tables that a model of iptables and
-- ip6tables keeps.
use kubectl_sshuttle.Base.{
  Error, err, ◌≡◌, refl, true, false, none, some, [], ◌∷◌, ◌++◌, codes, if◌then◌else◌, same, ok,
  arith,
}
use kubectl_sshuttle.Text.Utf8.{Str}
use kubectl_sshuttle.Text.Written.{written}
use kubectl_sshuttle.Stream.{input, Ending}
use kubectl_sshuttle.Ssnet.Frame.{af_inet, af_inet6, sync_header}
use kubectl_sshuttle.Ssnet.Tasks.{fresh}
use kubectl_sshuttle.Client.Link.{Remote}
use kubectl_sshuttle.Client.Run.{chain_of, Sockets, start_client}
use kubectl_sshuttle.Client.Run.Restores.{subnets_v6, tcp_port, Restores, start_client-Restores}
use kubectl_sshuttle.Shim.Launch.{ClientArgs}
use kubectl_sshuttle.Firewall.Api.{linux}
use kubectl_sshuttle.Ssnet.Connect.{parse_connect, encode_connect}
use kubectl_sshuttle.Client.Subnets.{is_v6}
use kubectl_sshuttle.Firewall.Linux.Destination.{Sockaddr, original_dst, original_dst-target}
use kubectl_sshuttle.Text.Numbers.{to_string}
use kubectl_sshuttle.Firewall.System.{◌>>◌}
use kubectl_sshuttle.Firewall.Linux.{
  jump_rule, local_rule, iptables, ip6tables, output, install, remove_one, remove,
}
use kubectl_sshuttle.Firewall.Linux.Nameservers.{
  read_local_nameservers_v4, entries, fresh_from, read_local_nameservers_v4-fresh,
}
use kubectl_sshuttle.Firewall.Linux.Install.{rules_v6, hooked, hooked_v6, chain_v4, install-hooked}
use kubectl_sshuttle.Firewall.Linux.Remove.{Only, unhooked, remove_one-unhooked}
use kubectl_sshuttle.Firewall.Linux.RoundTrip.{install-remove}
use kubectl_sshuttle.Firewall.Linux.Nat.{View}
use kubectl_sshuttle.Firewall.Linux.Goes.{Leaves}
use kubectl_sshuttle.Tests.Tables.{
  memory, memory-IsNat, picky-IsNat, files, chain, kept, tables, All-accepted, tables-Only,
}

-- tables with two jumps to a stale chain
abbrev twice : View
twice b c =
    if same c output
    then some (jump_rule chain ∷ kept ∷ jump_rule chain ∷ [])
    else if same c chain
    then some (local_rule ∷ [])
    else none

read_local_nameservers_v4-fresh_example :
    read_local_nameservers_v4 files
    ≡ fresh_from [] (
        entries (files (codes "/etc/resolv.conf"))
        ++ entries (files (codes "/run/systemd/resolve/resolv.conf")))
read_local_nameservers_v4-fresh_example = read_local_nameservers_v4-fresh files

twice-Only : (bin : Str) → Only twice bin chain
twice-Only bin c rules ho hc h = absurd (cc (rw (ho, hc) at h))

install-hooked_example :
    Leaves
      (memory files)
      (memory-IsNat files)
      (install (memory files) chain 1 2 (codes "10.0.0.0/8" ∷ []) (codes "fd00::/8" ∷ []) true)
      twice
      (hooked_v6
        (hooked twice iptables chain
          (chain_v4 files 1 2 (codes "10.0.0.0/8" ∷ []) true)
          (jump_rule chain ∷ kept ∷ jump_rule chain ∷ []))
        chain
        (to_string 1)
        (codes "fd00::/8" ∷ [])
        (jump_rule chain ∷ kept ∷ jump_rule chain ∷ []))
unfolding picky-IsNat
install-hooked_example =
    install-hooked (memory files) (memory-IsNat files) chain 1 2 (codes "10.0.0.0/8" ∷ [])
      (codes "fd00::/8" ∷ []) true twice (jump_rule chain ∷ kept ∷ jump_rule chain ∷ [])
      (jump_rule chain ∷ kept ∷ jump_rule chain ∷ []) refl refl (λ h. refl) (All-accepted _)
      (refl, (refl, tt))

remove_one-unhooked_example :
    Leaves
      (memory files)
      (memory-IsNat files)
      (remove_one (memory files) iptables chain)
      twice
      (unhooked twice iptables chain (jump_rule chain ∷ kept ∷ jump_rule chain ∷ []))
unfolding picky-IsNat
remove_one-unhooked_example =
    remove_one-unhooked (memory files) (memory-IsNat files) iptables chain twice
      (jump_rule chain ∷ kept ∷ jump_rule chain ∷ []) (local_rule ∷ []) refl refl refl (omega arith)
      (twice-Only iptables)

install-remove_example :
    Leaves
      (memory files)
      (memory-IsNat files)
      (install (memory files) chain 1 2 (codes "10.0.0.0/8" ∷ []) (codes "fd00::/8" ∷ []) true
        >> remove (memory files) chain true)
      tables
      tables
unfolding picky-IsNat
install-remove_example =
    install-remove (memory files) (memory-IsNat files) chain 1 2 (codes "10.0.0.0/8" ∷ [])
      (codes "fd00::/8" ∷ []) true tables (kept ∷ []) (kept ∷ []) refl
      (refl, refl, refl, tables-Only iptables chain)
      (λ h. (refl, refl, refl, tables-Only ip6tables chain)) (All-accepted _) (refl, (refl, tt))

-- a client with the probe off, whose remote sends the sync header
abbrev args : ClientArgs
args = record {
  remote_cmd = codes "kubectl exec";
  subnets = codes "10.0.0.0/8" ∷ codes "fd00::/8" ∷ [];
  listen_port = 0;
  manage_iptables = true;
  dns = true;
  dns_listen_port = 0;
  probe_fallback_us = 0;
}

abbrev free : Sockets
free = record { tcp = λ address port. ok tt; udp = λ address port. ok tt }

abbrev remote : Remote
remote = record {
  first = ok (record { stdin = fresh; stdout = input sync_header Ending.silent });
  second = err (Error.message (codes "no pod"));
  more_first = input [] Ending.silent;
  more_second = input [] Ending.silent;
}

start_client-Restores_example :
    Restores
      (memory files)
      (memory-IsNat files)
      args
      7
      tables
      (kept ∷ [])
      (kept ∷ [])
      (start_client (linux (memory files)) free (codes "early eof") args 7 0 remote tables)
unfolding picky-IsNat
start_client-Restores_example =
    start_client-Restores (memory files) (memory-IsNat files) args 7 tables (kept ∷ []) (kept ∷ [])
      free (codes "early eof") 0 remote (refl, refl, refl, tables-Only iptables (chain_of 7))
      (λ h. (refl, refl, refl, tables-Only ip6tables (chain_of 7))) (All-accepted _)
      (All-accepted (rules_v6 (to_string (tcp_port args)) (subnets_v6 args)))

abbrev original : Sockaddr
original = record { hi = 0; lo = 22; address = 10 ∷ 0 ∷ 0 ∷ 7 ∷ [] }

original_dst-target_example :
    (original_dst (ok original) (err []) false ≡ ok (written false (10 ∷ 0 ∷ 0 ∷ 7 ∷ []), 22))
    × (is_v6 (written false (10 ∷ 0 ∷ 0 ∷ 7 ∷ [])) ≡ false)
    × (parse_connect (
          encode_connect
            (if is_v6 (written false (10 ∷ 0 ∷ 0 ∷ 7 ∷ [])) then af_inet6 else af_inet)
            (written false (10 ∷ 0 ∷ 0 ∷ 7 ∷ []))
            22)
        ≡ ok (record {
          family = some af_inet;
          host = written false (10 ∷ 0 ∷ 0 ∷ 7 ∷ []);
          port = 22;
        }))
original_dst-target_example =
    original_dst-target false original (err []) (omega arith, omega arith, refl, omega arith)
