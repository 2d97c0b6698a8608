-- ===== src/Firewall/Linux/Expected.antt =====
-- The rules that rushtle/src/firewall/linux.rs is to install, word by word, for the statements.
use kubectl_sshuttle.Base.{[], ◌∷◌, codes}
use kubectl_sshuttle.Text.Utf8.{Str}
use kubectl_sshuttle.Firewall.Linux.Nat.{Rule}

abbrev pub to_port : Str → Rule
to_port port = codes "-j" ∷ codes "REDIRECT" ∷ codes "--to-ports" ∷ port ∷ []

abbrev pub all_dns : Str → Rule
all_dns port = codes "-p" ∷ codes "udp" ∷ codes "--dport" ∷ codes "53" ∷ to_port port

abbrev pub dns_to : Str → Str → Rule
dns_to port ns =
    codes "-p" ∷ codes "udp" ∷ codes "-d" ∷ ns ∷ codes "--dport" ∷ codes "53" ∷ to_port port

abbrev pub tcp_to : Str → Str → Rule
tcp_to port cidr = codes "-p" ∷ codes "tcp" ∷ codes "-d" ∷ cidr ∷ to_port port

abbrev pub not_local : Rule
not_local =
    codes "-m"
    ∷ codes "addrtype"
    ∷ codes "--dst-type"
    ∷ codes "LOCAL"
    ∷ codes "-j"
    ∷ codes "RETURN"
    ∷ []

abbrev pub not_loopback : Rule
not_loopback = codes "-d" ∷ codes "::1/128" ∷ codes "-j" ∷ codes "RETURN" ∷ []

abbrev pub jump_to : Str → Rule
jump_to chain = codes "-j" ∷ chain ∷ []
