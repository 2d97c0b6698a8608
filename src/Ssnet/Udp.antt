-- ===== src/Ssnet/Udp.antt =====
-- rushtle/src/ssnet.rs, the payload of `CMD_UDP_DATA`: `peerip,peerport,<rawbytes>`.
use kubectl_sshuttle.Base.{
  ℕ, suc, ◌+◌, ◌-◌, ◌≤◌, ◌<◌, ◌≡◌, refl, ap, ◌∙◌, [], ◌∷◌, ◌++◌, append_assoc, arith, ltb, ◌==◌,
  if◌then◌else◌, ◌&&◌, length, take, drop, codes, Lacks, All, take-append, drop-append_add,
  ParseError, Result, ok, err, or_fail, ◌>>=◌,
}
use kubectl_sshuttle.Text.Utf8.{Bytes, Str, from_utf8, to_utf8, IsScalar, from_utf8-to_utf8}
use kubectl_sshuttle.Text.Laws.{
  to_utf8-append, to_utf8_ascii, from_utf8_ascii, to_utf8-Lacks, digits_ascii, digits-Lacks,
}
use kubectl_sshuttle.Text.Numbers.{parse_uint, to_string, to_string-IsDigit, parse_uint-to_string}
use kubectl_sshuttle.Ssnet.Connect.{u16_max}

-- the loop's variables
pub record Commas : Type 0 where
  pub count : ℕ
  pub ip_end : ℕ
  pub port_end : ℕ

-- `for (i, &b) in payload.iter().enumerate()`, up to the second comma
unfoldable pub find_commas : ℕ → Commas → Bytes → Commas
find_commas i s [] = s
find_commas i s (b ∷ bs) =
    let hit = b == b',' in
    let count = if hit then s.count + 1 else s.count in
    let ip_end = if hit && count == 1 then i else s.ip_end in
    if hit && count == 2
    then record { count = count; ip_end = ip_end; port_end = i }
    else find_commas (i + 1) (record { count = count; ip_end = ip_end; port_end = s.port_end }) bs

slice_fields : Bytes → Commas → Result ParseError (Str × ℕ × Bytes)
slice_fields payload s = if ltb s.count 2 then err ParseError.few_commas else do
  ip ← or_fail (from_utf8 (take s.ip_end payload)) ParseError.not_utf8
  digits ←
      or_fail (from_utf8 (take (s.port_end - (s.ip_end + 1)) (drop (s.ip_end + 1) payload)))
        ParseError.not_utf8
  port ← or_fail (parse_uint u16_max digits) ParseError.bad_int
  ok (ip, port, drop (s.port_end + 1) payload)

unfoldable pub parse_udp_data : Bytes → Result ParseError (Str × ℕ × Bytes)
unfolding slice_fields
parse_udp_data payload =
    slice_fields payload (find_commas 0 (record { count = 0; ip_end = 0; port_end = 0 }) payload)

unfoldable pub encode_udp_data : Str → ℕ → Bytes → Bytes
encode_udp_data peer_ip peer_port body =
    to_utf8 (peer_ip ++ (b',' ∷ (to_string peer_port ++ (b',' ∷ [])))) ++ body

dns_reply : parse_udp_data (codes "10.0.0.1,53,a,b") ≡ ok (codes "10.0.0.1", 53, codes "a,b")
unfolding parse_udp_data find_commas from_utf8 parse_uint
dns_reply = refl

find_commas-append :
    (xs ys : Bytes) (i : ℕ) (s : Commas)
    → Lacks b',' xs
    → s.count < 2
    → find_commas i s (xs ++ ys) ≡ find_commas (i + length xs) s ys
unfolding find_commas
find_commas-append [] ys i s h lt = ap (λ k. find_commas k s ys) (omega arith)
find_commas-append (x ∷ xs) ys i s (hx, h) lt =
    ground (arith, find_commas-append xs ys (i + 1) s h lt)

abbrev start : Commas
start = record { count = 0; ip_end = 0; port_end = 0 }

find_commas_two :
    (a b body : Bytes)
    → Lacks b',' a
    → Lacks b',' b
    → find_commas 0 start (a ++ (b',' ∷ (b ++ (b',' ∷ body))))
      ≡ record { count = 2; ip_end = length a; port_end = length a + 1 + length b }
unfolding find_commas
find_commas_two a b body ha hb =
    rw
      (
        find_commas-append a (b',' ∷ (b ++ (b',' ∷ body))) 0 start ha (omega arith),
        find_commas-append b (b',' ∷ body) (0 + length a + 1)
            (record { count = 1; ip_end = 0 + length a; port_end = 0 }) hb (omega arith),
      )
      (ground arith)

drop_field : (a rest : Bytes) (c : ℕ) → drop (length a + 1) (a ++ (c ∷ rest)) ≡ rest
drop_field a rest c = drop-append_add a (c ∷ rest) 1

take_mid :
    (a b rest : Bytes) (c : ℕ)
    → take (length a + 1 + length b - (length a + 1)) (drop (length a + 1) (a ++ (c ∷ (b ++ rest))))
      ≡ b
take_mid a b rest c =
    rw (drop_field a (b ++ rest) c)
      (ap (λ n. take n (b ++ rest)) (omega arith) ∙ take-append b rest)

drop_rest :
    (a b rest : Bytes) (c d : ℕ)
    → drop (length a + 1 + length b + 1) (a ++ (c ∷ (b ++ (d ∷ rest)))) ≡ rest
drop_rest a b rest c d =
    ap (λ n. drop n (a ++ (c ∷ (b ++ (d ∷ rest))))) (omega arith)
    ∙ drop-append_add a (c ∷ (b ++ (d ∷ rest))) (suc (length b + 1))
    ∙ drop_field b rest d

encode_udp_data-eq :
    (ip : Str) (port : ℕ) (body : Bytes)
    → encode_udp_data ip port body ≡ to_utf8 ip ++ (b',' ∷ (to_string port ++ (b',' ∷ body)))
unfolding encode_udp_data to_utf8
encode_udp_data-eq ip port body =
    rw
      (
        to_utf8-append ip (b',' ∷ (to_string port ++ (b',' ∷ []))),
        to_utf8-append (to_string port) (b',' ∷ []),
        to_utf8_ascii (to_string port) (digits_ascii (to_string port) (to_string-IsDigit port)),
      )
      (simp append_assoc)

-- A datagram is read back from its payload, whatever bytes its body holds, commas included.
pub parse_udp_data-encode_udp_data :
    (ip : Str) (port : ℕ) (body : Bytes)
    → All IsScalar ip
    → Lacks b',' ip
    → port ≤ u16_max
    → parse_udp_data (encode_udp_data ip port body) ≡ ok (ip, port, body)
unfolding parse_udp_data
parse_udp_data-encode_udp_data ip port body scalars lacks h =
    let digits = to_string-IsDigit port in
    let a = to_utf8 ip in
    let b = to_string port in
    rw (
      encode_udp_data-eq ip port body,
      find_commas_two a b body (to_utf8-Lacks b',' ip (omega arith) lacks)
          (digits-Lacks b',' b (omega arith) digits),
      take-append a (b',' ∷ (b ++ (b',' ∷ body))),
      take_mid a b (b',' ∷ body) b',',
      drop_rest a b body b',' b',',
      from_utf8-to_utf8 ip scalars,
      from_utf8_ascii b (digits_ascii b digits),
      parse_uint-to_string u16_max port h,
    )
