-- ===== src/Text/IpAddr.antt =====
-- `IpAddr`: its `parse`. An IPv6 address is the list of its eight segments.
use kubectl_sshuttle.Base.{
  ℕ, zero, suc, ◌+◌, ◌*◌, ◌-◌, Bool, true, false, ◌&&◌, Option, none, some, List, [], ◌∷◌, ◌++◌,
  codes, ◌==◌, ltb, leb, if◌then◌else◌, length, take, drop,
}
use kubectl_sshuttle.Text.Utf8.{Str}
use kubectl_sshuttle.Text.Slices.{find, cut}
use kubectl_sshuttle.Text.Ipv4.{Ipv4, parse_ipv4}

pub data IpAddr : Type 0 where
  v4 : Ipv4 → IpAddr
  v6 : List ℕ → IpAddr

abbrev pub between : ℕ → ℕ → ℕ → Bool
between low c high = leb low c && leb c high

pub hex_value : ℕ → Option ℕ
hex_value c =
    if between b'0' c b'9'
    then some (c - b'0')
    else if between b'a' c b'f'
    then some (c - 87)
    else if between b'A' c b'F'
    then some (c - 55)
    else none

pub add_digit : ℕ → Option ℕ → Option ℕ
add_digit n none = none
add_digit n (some d) = some (n * 16 + d)

pub hex_digits : Option ℕ → Str → Option ℕ
unfolding add_digit hex_value
hex_digits none s = none
hex_digits (some n) [] = some n
hex_digits (some n) (c ∷ s) = hex_digits (add_digit n (hex_value c)) s

-- one to four digits
pub segment : Str → Option ℕ
unfolding hex_digits
segment [] = none
segment (c ∷ s) = if leb (length s) 3 then hex_digits (some 0) (c ∷ s) else none

abbrev pub cons? : Option ℕ → Option (List ℕ) → Option (List ℕ)
cons? (some n) (some ns) = some (n ∷ ns)
cons? _ _ = none

-- the two segments of a dotted address
pub dotted_segments : Option Ipv4 → Option (List ℕ)
dotted_segments none = none
dotted_segments (some ip) = some ((ip.a * 256 + ip.b) ∷ (ip.c * 256 + ip.d) ∷ [])

-- the last part of a sequence, which may be a dotted address where `dotted` says so
pub last_part : Bool → Str → Option ℕ → Option (List ℕ)
unfolding dotted_segments
last_part dotted part (some n) = some (n ∷ [])
last_part true part none = dotted_segments (parse_ipv4 part)
last_part false part none = none

-- the parts between colons, in order; there are at most as many as characters, and one
pub parts_from : ℕ → Str → List Str
parts_from zero s = s ∷ []
parts_from (suc fuel) s =
    let (part, rest) = cut b':' s in
    elim rest [ none ↦ part ∷ [] | some after ↦ part ∷ parts_from fuel after ]

pub segments_of_parts : Bool → List Str → Option (List ℕ)
unfolding segment last_part
segments_of_parts dotted [] = some []
segments_of_parts dotted (part ∷ []) = last_part dotted part (segment part)
segments_of_parts dotted (part ∷ next ∷ rest) =
    cons? (segment part) (segments_of_parts dotted (next ∷ rest))

-- no parts for no text
pub read_segments : Bool → Str → Option (List ℕ)
unfolding segments_of_parts parts_from
read_segments dotted [] = some []
read_segments dotted (c ∷ s) = segments_of_parts dotted (parts_from (length s) (c ∷ s))

abbrev pub zero_segments : ℕ → List ℕ
zero_segments zero = []
zero_segments (suc n) = 0 ∷ zero_segments n

-- all eight segments
pub full : Option (List ℕ) → Option (List ℕ)
full none = none
full (some ss) = if length ss == 8 then some ss else none

-- the segments around `::`, which stands for one zero segment at least
pub around : Option (List ℕ) → Option (List ℕ) → Option (List ℕ)
around (some front) (some back) =
    if ltb (length front + length back) 8
    then some (front ++ (zero_segments (8 - (length front + length back)) ++ back))
    else none
around _ _ = none

pub split_at : Str → Option ℕ → Option (List ℕ)
unfolding full around read_segments
split_at s none = full (read_segments true s)
split_at s (some i) = around (read_segments false (take i s)) (read_segments true (drop (i + 2) s))

unfoldable pub parse_ipv6 : Str → Option (List ℕ)
unfolding split_at
parse_ipv6 s = split_at s (find (codes "::") s)

pub or_v6 : Option Ipv4 → Option (List ℕ) → Option IpAddr
or_v6 (some ip) ss = some (v4 ip)
or_v6 none (some ss) = some (v6 ss)
or_v6 none none = none

unfoldable pub parse_ip : Str → Option IpAddr
unfolding or_v6
parse_ip s = or_v6 (parse_ipv4 s) (parse_ipv6 s)
