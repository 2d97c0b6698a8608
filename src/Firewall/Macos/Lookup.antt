-- ===== src/Firewall/Macos/Lookup.antt =====
-- rushtle/src/firewall/macos.rs, `original_dst`: the lookup of a connection's destination in pf.
use kubectl_sshuttle.Base.{
  ◌⊎◌, inl, inr, ℕ, zero, suc, ◌+◌, ◌*◌, ap, false, not, Bool-cases, ◌%◌, ◌^◌, ◌<◌, ◌≡◌, refl, [],
  ◌∷◌, ◌++◌, arith, length, codes, drop, ◌==◌, if◌then◌else◌, Result, ok, err,
}
use kubectl_sshuttle.Text.Utf8.{Bytes, Str}
use kubectl_sshuttle.Text.Ipv4.{Ipv4, show_ipv4}
use kubectl_sshuttle.Text.Ipv6.{show_ipv6, segments}
use kubectl_sshuttle.Text.Written.{written, segments-pairs}
use kubectl_sshuttle.Ssnet.Frame.{to_be, from_be}

-- `SocketAddr`: the octets and the port
pub data SocketAddr : Type 0 where
  socket_v4 socket_v6 : Bytes → ℕ → SocketAddr

-- `struct pfioc_natlook`, its padding left out
pub record PfiocNatlook : Type 0 where
  pub saddr : Bytes
  pub daddr : Bytes
  pub rsaddr : Bytes
  pub rdaddr : Bytes
  pub sxport : Bytes
  pub dxport : Bytes
  pub rsxport : Bytes
  pub rdxport : Bytes
  pub af : ℕ
  pub proto : ℕ
  pub proto_variant : ℕ
  pub direction : ℕ

abbrev pub zeros : ℕ → Bytes
zeros zero = []
zeros (suc n) = 0 ∷ zeros n

abbrev pub zeroed : PfiocNatlook
zeroed = record {
  saddr = zeros 16;
  daddr = zeros 16;
  rsaddr = zeros 16;
  rdaddr = zeros 16;
  sxport = zeros 4;
  dxport = zeros 4;
  rsxport = zeros 4;
  rdxport = zeros 4;
  af = 0;
  proto = 0;
  proto_variant = 0;
  direction = 0;
}

abbrev pub pf_in : ℕ
pf_in = 1

abbrev pub pf_out : ℕ
pf_out = 2

-- `copy_from_slice` into the front of an array
abbrev pub copy_front : Bytes → Bytes → Bytes
copy_front bs array = bs ++ drop (length bs) array

pub set_port : Bytes → ℕ → Bytes
set_port raw port = copy_front (to_be port) raw

pub port_of : Bytes → ℕ
port_of (hi ∷ lo ∷ rest) = from_be hi lo
port_of _ = 0

pub four_octets : Bytes → Ipv4
four_octets (a ∷ b ∷ c ∷ d ∷ rest) = record { a = a; b = b; c = c; d = d }
four_octets _ = record { a = 0; b = 0; c = 0; d = 0 }

-- the struct of a request
unfoldable pub filled : Bytes → Bytes → ℕ → ℕ → ℕ → ℕ → PfiocNatlook
unfolding set_port
filled saddr daddr peer_port local_port af proto = record zeroed {
  saddr = saddr;
  daddr = daddr;
  sxport = set_port (zeros 4) peer_port;
  dxport = set_port (zeros 4) local_port;
  af = af % 256;
  proto = proto % 256;
  direction = pf_out;
}

-- The constants of libc, the opening of /dev/pf, and the ioctl, which gives its return value and
-- what it leaves in the struct, are parameters.
module _ (inet inet6 tcp : ℕ) (open_pf : Result Str (Unit {0}))
    (ioctl : PfiocNatlook → ℕ × PfiocNatlook) where
  -- the addresses and ports of the connection
  unfoldable pub request : SocketAddr → SocketAddr → Result Str PfiocNatlook
  unfolding filled
  request (socket_v4 peer_ip peer_port) (socket_v4 local_ip local_port) = ok (
      filled (copy_front peer_ip (zeros 16)) (copy_front local_ip (zeros 16)) peer_port local_port
        inet tcp)
  request (socket_v6 peer_ip peer_port) (socket_v6 local_ip local_port) =
      ok (filled peer_ip local_ip peer_port local_port inet6 tcp)
  request _ _ = err (codes "peer/local family mismatch")

  -- the destination that the struct holds
  pub destination : PfiocNatlook → Str × ℕ
  unfolding port_of four_octets
  destination nl =
      if nl.af == inet % 256
      then (show_ipv4 (four_octets nl.rdaddr), port_of nl.rdxport)
      else (show_ipv6 (segments nl.rdaddr), port_of nl.rdxport)

  pub on_second_try : ℕ × PfiocNatlook → Result Str (Str × ℕ)
  unfolding destination
  on_second_try (zero, nl) = ok (destination nl)
  on_second_try (suc rc, nl) = err (codes "DIOCNATLOOK")

  pub on_first_try : ℕ × PfiocNatlook → Result Str (Str × ℕ)
  unfolding on_second_try
  on_first_try (zero, nl) = ok (destination nl)
  on_first_try (suc rc, nl) = on_second_try (ioctl (record nl { direction = pf_in }))

  pub look_up : PfiocNatlook → Result Str (Unit {0}) → Result Str (Str × ℕ)
  unfolding on_first_try
  look_up nl (err e) = err e
  look_up nl (ok u) = on_first_try (ioctl nl)

  pub with_request : Result Str PfiocNatlook → Result Str (Str × ℕ)
  unfolding look_up
  with_request (err e) = err e
  with_request (ok nl) = look_up nl open_pf

  unfoldable pub pf_original_dst : SocketAddr → SocketAddr → Result Str (Str × ℕ)
  unfolding with_request request
  pf_original_dst peer local = with_request (request peer local)

-- A port is read back from the struct, whatever stands behind it.
pub port_of-set_port : (raw : Bytes) (port : ℕ) → port < 2 ^ 16 → port_of (set_port raw port) ≡ port
unfolding port_of set_port to_be from_be
port_of-set_port raw port h = omega arith

filled-fields :
    (saddr daddr : Bytes) (pp lp af proto : ℕ)
    → pp < 2 ^ 16
    → lp < 2 ^ 16
    → (port_of (filled saddr daddr pp lp af proto).sxport ≡ pp)
      × (port_of (filled saddr daddr pp lp af proto).dxport ≡ lp)
      × ((filled saddr daddr pp lp af proto).direction ≡ pf_out)
unfolding filled
filled-fields saddr daddr pp lp af proto hp hl =
    (port_of-set_port (zeros 4) pp hp, port_of-set_port (zeros 4) lp hl, refl)

from_be-eq : (hi lo : ℕ) → from_be hi lo ≡ 256 * hi + lo
unfolding from_be
from_be-eq hi lo = omega arith

four_octets-written :
    (bytes : Bytes) → length bytes ≡ 16 → show_ipv4 (four_octets bytes) ≡ written false bytes
unfolding show_ipv4 four_octets
four_octets-written (a ∷ b ∷ c ∷ d ∷ rest) n = refl
four_octets-written [] n = absurd (omega arith)
four_octets-written (a ∷ []) n = absurd (omega arith)
four_octets-written (a ∷ b ∷ []) n = absurd (omega arith)
four_octets-written (a ∷ b ∷ c ∷ []) n = absurd (omega arith)

abbrev pub port_number : SocketAddr → ℕ
port_number (socket_v4 ip port) = port
port_number (socket_v6 ip port) = port

module _ (inet inet6 tcp : ℕ) (open_pf : Result Str (Unit {0}))
    (ioctl : PfiocNatlook → ℕ × PfiocNatlook) where
  -- The request has the two ports of the connection, and asks for PF_OUT.
  request-fields :
      (peer local : SocketAddr) (r : PfiocNatlook)
      → port_number peer < 2 ^ 16
      → port_number local < 2 ^ 16
      → request inet inet6 tcp open_pf ioctl peer local ≡ ok r
      → (port_of r.sxport ≡ port_number peer)
        × (port_of r.dxport ≡ port_number local)
        × (r.direction ≡ pf_out)
  unfolding request
  request-fields (socket_v4 p pp) (socket_v4 l lp) r hp hl e =
      let same_r : filled (copy_front p (zeros 16)) (copy_front l (zeros 16)) pp lp inet tcp ≡ r =
        ground (arith, e) in
      rw (← same_r)
        (filled-fields (copy_front p (zeros 16)) (copy_front l (zeros 16)) pp lp inet tcp hp hl)
  request-fields (socket_v6 p pp) (socket_v6 l lp) r hp hl e =
      let same_r : filled p l pp lp inet6 tcp ≡ r = ground (arith, e) in
      rw (← same_r) (filled-fields p l pp lp inet6 tcp hp hl)
  request-fields (socket_v4 p pp) (socket_v6 l lp) r hp hl e = cc
  request-fields (socket_v6 p pp) (socket_v4 l lp) r hp hl e = cc

  -- what the destination is told to be
  destination-written :
      (nl : PfiocNatlook) (hi lo : ℕ) (pad : Bytes)
      → length nl.rdaddr ≡ 16
      → nl.rdxport ≡ hi ∷ lo ∷ pad
      → destination inet inet6 tcp open_pf ioctl nl
        ≡ (written (not (nl.af == inet % 256)) nl.rdaddr, 256 * hi + lo)
  unfolding destination port_of
  destination-written nl hi lo pad sized port = elim (Bool-cases (nl.af == inet % 256)) [
    | inl four ↦ rw (four, port, four_octets-written nl.rdaddr sized, from_be-eq hi lo) refl
    | inr six ↦ rw (six, port, segments-pairs nl.rdaddr, from_be-eq hi lo) refl
  ]

  -- The lookup asks pf with the ports of the connection for PF_OUT; the answer is that, or, if pf has
  -- none, the answer to the same struct for PF_IN. The destination is the address in the answer's
  -- `rdaddr`, by its family, and the port in the first two bytes of its `rdxport`, in network order.
  pub pf_original_dst-answer :
      (peer local : SocketAddr) (r answer : PfiocNatlook) (hi lo : ℕ) (pad : Bytes)
      → port_number peer < 2 ^ 16
      → port_number local < 2 ^ 16
      → open_pf ≡ ok tt
      → request inet inet6 tcp open_pf ioctl peer local ≡ ok r
      → (ioctl r ≡ (0, answer))
        ⊎ ((rc : ℕ) × (left : PfiocNatlook) × (ioctl r ≡ (suc rc, left))
            × (ioctl (record left { direction = 1 }) ≡ (0, answer)))
      → length answer.rdaddr ≡ 16
      → answer.rdxport ≡ hi ∷ lo ∷ pad
      → (port_of r.sxport ≡ port_number peer)
        × (port_of r.dxport ≡ port_number local)
        × (r.direction ≡ 2)
        × (pf_original_dst inet inet6 tcp open_pf ioctl peer local
            ≡ ok (written (not (answer.af == inet % 256)) answer.rdaddr, 256 * hi + lo))
  unfolding pf_original_dst with_request look_up on_first_try on_second_try
  pf_original_dst-answer peer local r answer hi lo pad hp hl opened asks found sized port =
      let (sx, dx, way) = request-fields peer local r hp hl asks in
      let told = ap (λ d. ok d) (destination-written answer hi lo pad sized port) in
      (
        sx,
        dx,
        way,
        elim found [
          | inl first ↦ rw (asks, opened, first) told
          | inr (rc, left, fails, second) ↦ rw (asks, opened, fails, second) told
        ],
      )
