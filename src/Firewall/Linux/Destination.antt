-- ===== src/Firewall/Linux/Destination.antt =====
-- rushtle/src/firewall/linux.rs, `original_dst`.
use kubectl_sshuttle.Base.{
  some, ℕ, ◌+◌, ◌*◌, ◌/◌, ◌%◌, ◌^◌, ◌<◌, ◌≤◌, ◌≡◌, refl, ap, Bool, true, false, [], ◌∷◌, ◌++◌,
  arith, length, All, Result, ok, err, if◌then◌else◌,
}
use kubectl_sshuttle.Text.Utf8.{Bytes, Str}
use kubectl_sshuttle.Text.Numbers.{to_string}
use kubectl_sshuttle.Text.Ipv4.{Ipv4, show_ipv4}
use kubectl_sshuttle.Text.Ipv6.{
  show_ipv6, segments, IsAddressChar, address-IsScalar, address-Lacks, show_ipv4-address,
  show_ipv6-address, show_ipv6-contains, show_ipv4-Lacks, contains-Lacks,
}
use kubectl_sshuttle.Text.Written.{written, segments-pairs}
use kubectl_sshuttle.Ssnet.Frame.{from_be, af_inet, af_inet6}
use kubectl_sshuttle.Ssnet.Connect.{
  u16_max, parse_connect, encode_connect, parse_connect-encode_connect,
}
use kubectl_sshuttle.Client.Subnets.{is_v6}

-- what `getsockopt` writes: the bytes of the port and of the address, in network order
pub record Sockaddr : Type 0 where
  pub hi : ℕ
  pub lo : ℕ
  pub address : Bytes

-- `u32::from_be` of the four bytes
pub from_be32 : Bytes → ℕ
from_be32 (a ∷ b ∷ c ∷ d ∷ []) = ((a * 256 + b) * 256 + c) * 256 + d
from_be32 _ = 0

-- the four parts of the format
pub dotted : ℕ → Str
dotted ip =
    to_string (ip / 2 ^ 24 % 256)
    ++ (b'.'
        ∷ (to_string (ip / 2 ^ 16 % 256)
            ++ (b'.' ∷ (to_string (ip / 2 ^ 8 % 256) ++ (b'.' ∷ to_string (ip % 256))))))

pub on_v6 : Result Str Sockaddr → Result Str (Str × ℕ)
on_v6 (err e) = err e
on_v6 (ok sa) = ok (show_ipv6 (segments sa.address), from_be sa.hi sa.lo)

pub on_v4 : Result Str Sockaddr → Result Str (Str × ℕ)
unfolding dotted from_be32
on_v4 (err e) = err e
on_v4 (ok sa) = ok (dotted (from_be32 sa.address), from_be sa.hi sa.lo)

-- the two calls of `getsockopt` are parameters
unfoldable pub original_dst :
    Result Str Sockaddr → Result Str Sockaddr → Bool → Result Str (Str × ℕ)
unfolding on_v4 on_v6
original_dst v4 v6 true = on_v6 v6
original_dst v4 v6 false = on_v4 v4

-- the number of bytes of an address of either family
abbrev pub IsSockaddr : ℕ → Sockaddr → Type 0
IsSockaddr size sa =
    (sa.hi < 256) × (sa.lo < 256) × (length sa.address ≡ size) × All (λ b. b < 256) sa.address

from_be-u16 : (hi lo : ℕ) → hi < 256 → lo < 256 → from_be hi lo ≤ u16_max
unfolding from_be
from_be-u16 hi lo h k = omega arith

dotted-show_ipv4 :
    (a b c d : ℕ)
    → a < 256
    → b < 256
    → c < 256
    → d < 256
    → dotted (from_be32 (a ∷ b ∷ c ∷ d ∷ [])) ≡ show_ipv4 (record { a = a; b = b; c = c; d = d })
unfolding dotted from_be32 show_ipv4
dotted-show_ipv4 a b c d ha hb hc hd =
    let n = ((a * 256 + b) * 256 + c) * 256 + d in
    let ea : n / 2 ^ 24 % 256 ≡ a = omega arith in
    let eb : n / 2 ^ 16 % 256 ≡ b = omega arith in
    let ec : n / 2 ^ 8 % 256 ≡ c = omega arith in
    let ed : n % 256 ≡ d = omega arith in rw (ea, eb, ec, ed) refl

-- the text of an address passes through the request for a connection
passes :
    (v6 : Bool) (host : Str) (port : ℕ)
    → All IsAddressChar host
    → port ≤ u16_max
    → is_v6 host ≡ v6
    → parse_connect (encode_connect (if is_v6 host then af_inet6 else af_inet) host port)
      ≡ ok (record { family = some (if v6 then af_inet6 else af_inet); host = host; port = port })
passes v6 host port chars hp family = rw family (carried v6)
  where
    carried :
        (b : Bool)
        → parse_connect (encode_connect (if b then af_inet6 else af_inet) host port)
          ≡ ok
              (record { family = some (if b then af_inet6 else af_inet); host = host; port = port })
    carried true =
        parse_connect-encode_connect af_inet6 host port (omega arith) hp
          (address-IsScalar host chars) (address-Lacks host chars)
    carried false =
        parse_connect-encode_connect af_inet host port (omega arith) hp
          (address-IsScalar host chars) (address-Lacks host chars)

six_lem : (address : Bytes) → length address ≡ 16 → is_v6 (show_ipv6 (segments address)) ≡ true
unfolding is_v6 segments
six_lem (a ∷ b ∷ c ∷ d ∷ rest) n = show_ipv6-contains (a * 256 + b) (c * 256 + d) (segments rest)
six_lem [] n = absurd (omega arith)
six_lem (a ∷ []) n = absurd (omega arith)
six_lem (a ∷ b ∷ []) n = absurd (omega arith)
six_lem (a ∷ b ∷ c ∷ []) n = absurd (omega arith)

-- the host and the port that are told, the bytes being in network order
abbrev pub host_told : Bool → Sockaddr → Str
host_told v6 sa = written v6 sa.address

abbrev pub port_told : Sockaddr → ℕ
port_told sa = 256 * sa.hi + sa.lo

from_be-port_told : (sa : Sockaddr) → from_be sa.hi sa.lo ≡ port_told sa
unfolding from_be
from_be-port_told sa = omega arith

four_lem :
    (address : Bytes)
    → length address ≡ 4
    → All (λ b. b < 256) address
    → (ip : Ipv4) × (dotted (from_be32 address) ≡ show_ipv4 ip)
      × (show_ipv4 ip ≡ written false address)
unfolding show_ipv4
four_lem (a ∷ b ∷ c ∷ d ∷ []) n (ha, (hb, (hc, (hd, u)))) =
    (record { a = a; b = b; c = c; d = d }, dotted-show_ipv4 a b c d ha hb hc hd, refl)
four_lem (a ∷ b ∷ c ∷ d ∷ e ∷ rest) n h = absurd (omega arith)
four_lem [] n h = absurd (omega arith)
four_lem (a ∷ []) n h = absurd (omega arith)
four_lem (a ∷ b ∷ []) n h = absurd (omega arith)
four_lem (a ∷ b ∷ c ∷ []) n h = absurd (omega arith)

-- The destination is the address and the port whose bytes the kernel gives, in network order, as
-- text; it has a colon exactly if the socket is an IPv6 one, and the server reads the same family,
-- address and port from the request that the client sends for it.
pub original_dst-target :
    (v6 : Bool) (sa : Sockaddr) (other : Result Str Sockaddr)
    → IsSockaddr (if v6 then 16 else 4) sa
    → (original_dst (if v6 then other else ok sa) (if v6 then ok sa else other) v6
        ≡ ok (host_told v6 sa, port_told sa))
      × (is_v6 (host_told v6 sa) ≡ v6)
      × (parse_connect (
            encode_connect
              (if is_v6 (host_told v6 sa) then af_inet6 else af_inet)
              (host_told v6 sa)
              (port_told sa))
          ≡ ok (record {
            family = some (if v6 then af_inet6 else af_inet);
            host = host_told v6 sa;
            port = port_told sa;
          }))
unfolding original_dst on_v6 on_v4 is_v6
original_dst-target false sa other (hh, hl, n, bytes) =
    let (ip, shown, spelt) = four_lem sa.address n bytes in
    let family = contains-Lacks (show_ipv4 ip) (show_ipv4-Lacks ip) in
    let port = from_be-u16 sa.hi sa.lo hh hl in
    rw (← spelt, ← from_be-port_told sa)
      (
        ap (λ h. ok (h, from_be sa.hi sa.lo)) shown,
        family,
        passes false (show_ipv4 ip) (from_be sa.hi sa.lo) (show_ipv4-address ip) port family,
      )
original_dst-target true sa other (hh, hl, n, bytes) =
    let family = six_lem sa.address n in
    let port = from_be-u16 sa.hi sa.lo hh hl in
    rw (← segments-pairs sa.address, ← from_be-port_told sa)
      (
        refl,
        family,
        passes true (show_ipv6 (segments sa.address)) (from_be sa.hi sa.lo)
            (show_ipv6-address (segments sa.address)) port family,
      )
