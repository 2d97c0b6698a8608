-- ===== src/Server/Resolvers.antt =====
-- rushtle/src/server.rs, `resolvers`: the DNS servers of /etc/resolv.conf.
use kubectl_sshuttle.Base.{
  ℕ, Bool, true, false, ◌||◌, Option, none, some, List, [], ◌∷◌, ◌++◌, codes, if◌then◌else◌,
}
use kubectl_sshuttle.Text.Utf8.{Str}
use kubectl_sshuttle.Text.Slices.{trim, lines, starts_with, strip_prefix}
use kubectl_sshuttle.Text.IpAddr.{IpAddr, v4, v6, parse_ip}
use kubectl_sshuttle.Ssnet.Cmd

pub record SocketAddr : Type 0 where
  pub ip : IpAddr
  pub port : ℕ

pub is_v6_address : IpAddr → Bool
is_v6_address (v4 ip) = false
is_v6_address (v6 ss) = true

pub is_ipv6 : SocketAddr → Bool
unfolding is_v6_address
is_ipv6 ns = is_v6_address ns.ip

abbrev pub blank : Str → Bool
blank [] = true
blank (c ∷ s) = false

-- `out.push` of the address on port 53, if there is one
pub push_address : List SocketAddr → Option IpAddr → List SocketAddr
push_address out none = out
push_address out (some ip) = out ++ record { ip = ip; port = 53 } ∷ []

pub on_nameserver : List SocketAddr → Option Str → List SocketAddr
unfolding push_address
on_nameserver out none = out
on_nameserver out (some rest) = push_address out (parse_ip (trim rest))

pub on_line : List SocketAddr → Str → List SocketAddr
unfolding on_nameserver
on_line out raw =
    let line = trim raw in
    if blank line || starts_with (codes "#") line || starts_with (codes ";") line
    then out
    else on_nameserver out (strip_prefix (codes "nameserver") line)

pub on_lines : List SocketAddr → List Str → List SocketAddr
unfolding on_line
on_lines out [] = out
on_lines out (line ∷ rest) = on_lines (on_line out line) rest

-- of the file's text, none if it cannot be read, which the caller takes for no server
pub parse_resolv_conf : Option Str → List SocketAddr
unfolding on_lines
parse_resolv_conf none = []
parse_resolv_conf (some text) = on_lines [] (lines text)

abbrev pub public_resolver : SocketAddr
public_resolver = record { ip = v4 (record { a = 1; b = 1; c = 1; d = 1 }); port = 53 }

pub or_public : List SocketAddr → List SocketAddr
or_public [] = public_resolver ∷ []
or_public (ns ∷ rest) = ns ∷ rest

-- read once, and kept
unfoldable pub resolvers : Option Str → List SocketAddr
unfolding or_public parse_resolv_conf
resolvers text = or_public (parse_resolv_conf text)

-- The server that a line lists: port 53 of the address between blanks behind the word; a line
-- without the word, or without an address behind it, lists none.
abbrev pub told : Option Str → List SocketAddr
told none = []
told (some rest) = elim (parse_ip (trim rest)) [
  | none ↦ []
  | some ip ↦ record { ip = ip; port = 53 } ∷ []
]

abbrev pub listed_by : Str → List SocketAddr
listed_by line = told (strip_prefix (codes "nameserver") (trim line))

-- those of all lines, one line after the other
abbrev pub listed : List Str → List SocketAddr
listed [] = []
listed (line ∷ rest) = listed_by line ++ listed rest

-- The servers that are asked: those that are listed, or 1.1.1.1 on port 53.
abbrev pub asked : List SocketAddr → List SocketAddr
asked [] = record { ip = v4 (record { a = 1; b = 1; c = 1; d = 1 }); port = 53 } ∷ []
asked (ns ∷ rest) = ns ∷ rest

-- the lines of a file, none if it cannot be read
abbrev pub lines_of : Option Str → List Str
lines_of none = []
lines_of (some text) = lines text
