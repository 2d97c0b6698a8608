-- ===== src/Firewall/Linux.antt =====
-- rushtle/src/firewall/linux.rs: the NAT chain of iptables and ip6tables.
pub mod Nameservers
pub mod Nat
pub mod Expected
pub mod Goes
pub mod Jumps
pub mod Install
pub mod Remove
pub mod RoundTrip
pub mod Refused
pub mod Destination
use kubectl_sshuttle.Base.{
  ℕ, zero, suc, Bool, true, false, List, [], ◌∷◌, ◌++◌, map, codes, if◌then◌else◌, Result, ok, err,
  refl, ◌≡◌,
}
use kubectl_sshuttle.Text.Utf8.{Str}
use kubectl_sshuttle.Text.Numbers.{to_string}
use Nameservers.{read_local_nameservers_v4}
use kubectl_sshuttle.Firewall.System.{
  Exit, not_started, exited, System, CmdError, exec_failed, bad_status, Run, pure, bind_result,
  ◌>>=◌, ◌>>◌, retry_result, or_else, ignore, for_each,
}

abbrev pub iptables : Str
iptables = codes "iptables"

abbrev pub ip6tables : Str
ip6tables = codes "ip6tables"

abbrev pub output : Str
output = codes "OUTPUT"

abbrev pub prompt : Str
prompt = codes "[local sudo] Password: "

-- the arguments behind the chain's name in the rules that are installed
abbrev pub redirect : Str → List Str
redirect port = codes "-j" ∷ codes "REDIRECT" ∷ codes "--to-ports" ∷ port ∷ []

abbrev pub all_dns_rule : Str → List Str
all_dns_rule port = codes "-p" ∷ codes "udp" ∷ codes "--dport" ∷ codes "53" ∷ redirect port

abbrev pub dns_rule : Str → Str → List Str
dns_rule port ns =
    codes "-p" ∷ codes "udp" ∷ codes "-d" ∷ ns ∷ codes "--dport" ∷ codes "53" ∷ redirect port

abbrev pub tcp_rule : Str → Str → List Str
tcp_rule port cidr = codes "-p" ∷ codes "tcp" ∷ codes "-d" ∷ cidr ∷ redirect port

abbrev pub local_rule : List Str
local_rule =
    codes "-m"
    ∷ codes "addrtype"
    ∷ codes "--dst-type"
    ∷ codes "LOCAL"
    ∷ codes "-j"
    ∷ codes "RETURN"
    ∷ []

abbrev pub loopback_rule : List Str
loopback_rule = codes "-d" ∷ codes "::1/128" ∷ codes "-j" ∷ codes "RETURN" ∷ []

abbrev pub jump_rule : Str → List Str
jump_rule chain = codes "-j" ∷ chain ∷ []

-- the arguments of a command on a chain of the NAT table
abbrev pub nat : Str → Str → List Str → List Str
nat flag chain rest = codes "-t" ∷ codes "nat" ∷ flag ∷ chain ∷ rest

-- the command line behind `sudo`
abbrev pub sudo_args : Str → List Str → List Str
sudo_args bin args = codes "-p" ∷ prompt ∷ bin ∷ args

abbrev pub with_wait : List Str → List Str
with_wait args = codes "-w" ∷ codes "5" ∷ args

abbrev pub finish : {T : Type 0} → Str → List Str → Exit × T → Result CmdError (Unit {0}) × T
finish bin args (not_started e, s) = (err (exec_failed bin args e), s)
finish bin args (exited zero, s) = (ok tt, s)
finish bin args (exited (suc n), s) = (err (bad_status bin args (suc n)), s)

-- the rules for DNS: one for each name server, or one for all
pub dns_rules : Str → List Str → List (List Str)
dns_rules port [] = all_dns_rule port ∷ []
dns_rules port (ns ∷ rest) = map (dns_rule port) (ns ∷ rest)

-- the loop goes on behind a deletion that succeeded
abbrev pub deleted_result :
    {T : Type 0}
    → Result CmdError (Unit {0}) × T
    → Run T (Unit {0})
    → Result CmdError (Unit {0}) × T
deleted_result (ok u, s) k = k s
deleted_result (err e, s) k = (ok tt, s)

abbrev pub on_deleted : {T : Type 0} → Run T (Unit {0}) → Run T (Unit {0}) → Run T (Unit {0})
on_deleted m k s = deleted_result (m s) k

module _ (S : System) where
  abbrev pub Cmd : Type 0
  Cmd = Run S.State (Unit {0})

  abbrev pub spawn : Bool → Str → List Str → S.State → Exit × S.State
  spawn quiet bin args s =
      if S.is_root
      then S.exec quiet bin args s
      else S.exec quiet (codes "sudo") (sudo_args bin args) s

  unfoldable pub iptables_cmd_inner : Str → List Str → Bool → Cmd
  iptables_cmd_inner bin args quiet s = finish bin args (spawn quiet bin (with_wait args) s)

  abbrev pub iptables_cmd : Str → List Str → Cmd
  iptables_cmd bin args = iptables_cmd_inner bin args false

  abbrev pub iptables_cmd_quiet : Str → List Str → Cmd
  iptables_cmd_quiet bin args = iptables_cmd_inner bin args true

  unfoldable pub iptables_create_chain : Str → Str → Cmd
  iptables_create_chain bin chain = or_else (iptables_cmd_quiet bin (nat (codes "-N") chain [])) (
      or_else (iptables_cmd_quiet bin (nat (codes "-L") chain (codes "-n" ∷ [])))
        (iptables_cmd bin (nat (codes "-N") chain [])))

  abbrev pub append : Str → Str → List Str → Cmd
  append bin chain rule = iptables_cmd bin (nat (codes "-A") chain rule)

  pub install_dns : Str → Str → List Str → Bool → Cmd
  unfolding dns_rules
  install_dns chain port nameservers false = pure tt
  install_dns chain port nameservers true =
      for_each (dns_rules port nameservers) (append iptables chain)

  pub install_v6 : Str → Str → List Str → Cmd
  install_v6 chain port [] = pure tt
  install_v6 chain port (cidr ∷ cidrs) = do
    iptables_create_chain ip6tables chain
    iptables_cmd ip6tables (nat (codes "-F") chain [])
    append ip6tables chain loopback_rule
    for_each (cidr ∷ cidrs) (λ c. append ip6tables chain (tcp_rule port c))
    append ip6tables output (jump_rule chain)

  unfoldable pub install : Str → ℕ → ℕ → List Str → List Str → Bool → Cmd
  unfolding install_dns install_v6
  install chain tcp_port dns_port subnets_v4 subnets_v6 dns = do
    iptables_create_chain iptables chain
    iptables_cmd iptables (nat (codes "-F") chain [])
    install_dns chain (to_string dns_port) (read_local_nameservers_v4 S.read_file) dns
    for_each subnets_v4 (λ c. append iptables chain (tcp_rule (to_string tcp_port) c))
    append iptables chain local_rule
    append iptables output (jump_rule chain)
    install_v6 chain (to_string tcp_port) subnets_v6

  -- the loop that removes jumps; its counter counts down from the 17 rounds that it may make
  unfoldable pub drain : ℕ → Str → Str → Cmd
  drain zero bin chain = pure tt
  drain (suc rounds) bin chain =
      on_deleted (iptables_cmd_quiet bin (nat (codes "-D") output (jump_rule chain)))
        (drain rounds bin chain)

  unfoldable pub remove_one : Str → Str → Cmd
  remove_one bin chain = do
    drain 17 bin chain
    ignore (iptables_cmd_quiet bin (nat (codes "-F") chain []))
    ignore (
        or_else (iptables_cmd_quiet bin (nat (codes "-X") chain []))
          (iptables_cmd bin (nat (codes "-X") chain [])))

  unfoldable pub remove : Str → Bool → Cmd
  remove chain false = remove_one iptables chain
  remove chain true = do remove_one iptables chain; remove_one ip6tables chain
