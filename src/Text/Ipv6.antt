-- ===== src/Text/Ipv6.antt =====
-- `Ipv6Addr::to_string`. An address is the list of its eight segments.
use kubectl_sshuttle.Base.{
  ℕ, zero, suc, ◌+◌, ◌*◌, ◌/◌, ◌%◌, ◌<◌, ◌≡◌, ◌≢◌, refl, ◌∙◌, Bool, true, false, ◌&&◌, Option, none,
  some, List, [], ◌∷◌, ◌++◌, arith, ◌==◌, ltb, if◌then◌else◌, take, drop, All, All-append, All-imp,
  Lacks, codes, inl,
}
use kubectl_sshuttle.Text.Utf8.{Str, Bytes, IsScalar}
use kubectl_sshuttle.Text.Slices.{contains, find, starts_with, strip_prefix, is_some}
use kubectl_sshuttle.Text.Numbers.{to_string, to_string-IsDigit, IsDigit}
use kubectl_sshuttle.Text.Ipv4.{Ipv4, show_ipv4}

-- `{:x}`
abbrev pub hex_digit : ℕ → ℕ
hex_digit d = if ltb d 10 then b'0' + d else 87 + d

-- the last digits first; four are enough for a segment
pub write_hex : ℕ → ℕ → Str → Str
write_hex zero n out = out
write_hex (suc fuel) n out =
    let more = write_hex fuel (n / 16) (hex_digit (n % 16) ∷ out) in if n == 0 then out else more

pub to_hex : ℕ → Str
unfolding write_hex
to_hex n = if n == 0 then b'0' ∷ [] else write_hex 4 n []

-- the segments with a colon between each two
pub colons : List ℕ → Str
unfolding to_hex
colons [] = []
colons (s ∷ []) = to_hex s
colons (s ∷ t ∷ rest) = to_hex s ++ (b':' ∷ colons (t ∷ rest))

-- a stretch of zero segments: where it starts, and its length
pub record Span : Type 0 where
  pub start : ℕ
  pub len : ℕ

abbrev pub no_span : Span
no_span = record { start = 0; len = 0 }

-- the stretch that a zero segment at this place continues
abbrev pub longer : ℕ → Span → Span
longer i current =
    if current.len == 0
    then record { start = i; len = 1 }
    else record current { len = suc current.len }

-- the first of the longest stretches
pub zeroes : ℕ → Span → Span → List ℕ → Span
zeroes i longest current [] = longest
zeroes i longest current (s ∷ rest) =
    let grown = longer i current in
    let inside = zeroes (suc i) (if ltb longest.len grown.len then grown else longest) grown rest in
    let outside = zeroes (suc i) longest no_span rest in if s == 0 then inside else outside

pub shorten_zeroes : List ℕ → Span → Str
unfolding colons
shorten_zeroes ss z =
    if ltb 1 z.len
    then colons (take z.start ss) ++ (b':' ∷ b':' ∷ colons (drop (z.start + z.len) ss))
    else colons ss

-- `to_ipv4_mapped`
pub mapped : List ℕ → Option Ipv4
mapped (a ∷ b ∷ c ∷ d ∷ e ∷ f ∷ g ∷ h ∷ []) =
    if a == 0 && b == 0 && c == 0 && d == 0 && e == 0 && f == 0xFFFF
    then some (record { a = g / 256; b = g % 256; c = h / 256; d = h % 256 })
    else none
mapped _ = none

pub show_with : List ℕ → Option Ipv4 → Str
unfolding shorten_zeroes zeroes
show_with ss (some ip) = codes "::ffff:" ++ show_ipv4 ip
show_with ss none = shorten_zeroes ss (zeroes 0 no_span no_span ss)

unfoldable pub show_ipv6 : List ℕ → Str
unfolding show_with mapped
show_ipv6 ss = show_with ss (mapped ss)

-- `Ipv6Addr::from` on the bytes of an address
unfoldable pub segments : Bytes → List ℕ
segments (hi ∷ lo ∷ rest) = (hi * 256 + lo) ∷ segments rest
segments _ = []

shortened : show_ipv6 (0x2001 ∷ 0xDB8 ∷ 0 ∷ 0 ∷ 1 ∷ 0 ∷ 0 ∷ 0x1A ∷ []) ≡ codes "2001:db8::1:0:0:1a"
unfolding show_ipv6 show_with mapped zeroes shorten_zeroes colons to_hex write_hex
shortened = refl

loopback : show_ipv6 (0 ∷ 0 ∷ 0 ∷ 0 ∷ 0 ∷ 0 ∷ 0 ∷ 1 ∷ []) ≡ codes "::1"
unfolding show_ipv6 show_with mapped zeroes shorten_zeroes colons to_hex write_hex
loopback = refl

-- the characters of addresses
abbrev pub IsAddressChar : ℕ → Type 0
IsAddressChar c = (c < 128) × (c ≢ b',')

pub address-IsScalar : (s : Str) → All IsAddressChar s → All IsScalar s
address-IsScalar s = All-imp IsAddressChar IsScalar s (λ c h. inl (omega (arith, h.0)))

pub address-Lacks : (s : Str) → All IsAddressChar s → Lacks b',' s
address-Lacks s = All-imp IsAddressChar (λ c. c ≢ b',') s (λ c h. h.1)

digits-address : (n : ℕ) → All IsAddressChar (to_string n)
digits-address n =
    All-imp IsDigit IsAddressChar (to_string n) (λ c d. (omega arith, omega arith))
      (to_string-IsDigit n)

All-dot :
    (s t : Str) → All IsAddressChar s → All IsAddressChar t → All IsAddressChar (s ++ (b'.' ∷ t))
All-dot s t hs ht = All-append IsAddressChar s (b'.' ∷ t) hs ((omega arith, omega arith), ht)

All-either :
    (b : Bool) (s t : Str)
    → All IsAddressChar s
    → All IsAddressChar t
    → All IsAddressChar (if b then s else t)
All-either true s t hs ht = hs
All-either false s t hs ht = ht

hex_digit-address : (d : ℕ) → d < 16 → IsAddressChar (hex_digit d)
hex_digit-address d h = (ground arith, ground arith)

pub show_ipv4-address : (ip : Ipv4) → All IsAddressChar (show_ipv4 ip)
unfolding show_ipv4
show_ipv4-address ip = All-dot (to_string ip.a) _ (digits-address ip.a) (
    All-dot (to_string ip.b) _ (digits-address ip.b)
      (All-dot (to_string ip.c) _ (digits-address ip.c) (digits-address ip.d)))

write_hex-address :
    (fuel n : ℕ) (out : Str) → All IsAddressChar out → All IsAddressChar (write_hex fuel n out)
unfolding write_hex
write_hex-address zero n out h = h
write_hex-address (suc fuel) n out h =
    All-either (n == 0) out (write_hex fuel (n / 16) (hex_digit (n % 16) ∷ out)) h (
      write_hex-address fuel (n / 16) (hex_digit (n % 16) ∷ out)
        (hex_digit-address (n % 16) (omega arith), h))

to_hex-address : (n : ℕ) → All IsAddressChar (to_hex n)
unfolding to_hex
to_hex-address n =
    All-either (n == 0) (b'0' ∷ []) (write_hex 4 n []) ((omega arith, omega arith), tt)
      (write_hex-address 4 n [] tt)

colons-address : (ss : List ℕ) → All IsAddressChar (colons ss)
unfolding colons
colons-address [] = tt
colons-address (s ∷ []) = to_hex-address s
colons-address (s ∷ t ∷ rest) =
    All-append IsAddressChar (to_hex s) (b':' ∷ colons (t ∷ rest)) (to_hex-address s)
      ((omega arith, omega arith), colons-address (t ∷ rest))

shorten_zeroes-address : (ss : List ℕ) (z : Span) → All IsAddressChar (shorten_zeroes ss z)
unfolding shorten_zeroes
shorten_zeroes-address ss z =
    let colon : IsAddressChar b':' = (omega arith, omega arith) in
    All-either (ltb 1 z.len) _ (colons ss)
      (All-append IsAddressChar (colons (take z.start ss))
        (b':' ∷ b':' ∷ colons (drop (z.start + z.len) ss)) (colons-address (take z.start ss))
        (colon, (colon, colons-address (drop (z.start + z.len) ss))))
      (colons-address ss)

pub show_ipv6-address : (ss : List ℕ) → All IsAddressChar (show_ipv6 ss)
unfolding show_ipv6 show_with
show_ipv6-address ss = shown (mapped ss)
  where
    shown : (o : Option Ipv4) → All IsAddressChar (show_with ss o)
    shown none = shorten_zeroes-address ss (zeroes 0 no_span no_span ss)
    shown (some ip) =
        All-append IsAddressChar (codes "::ffff:") (show_ipv4 ip) (omega arith)
          (show_ipv4-address ip)

contains-cons :
    (c : ℕ) (s : Str)
    → contains (codes ":") (c ∷ s) ≡ (if b':' == c then true else contains (codes ":") s)
unfolding contains find starts_with strip_prefix
contains-cons c s = split (b':' == c) (find (codes ":") s)
  where
    split :
        (b : Bool) (o : Option ℕ)
        → is_some (
            if is_some (if b then some s else none)
            then some 0
            else elim o [ none ↦ none | some i ↦ some (suc i) ])
          ≡ (if b then true else is_some o)
    split true o = refl
    split false none = refl
    split false (some i) = refl

-- a colon is found wherever it stands, and only if there is one
pub contains_colon : (s t : Str) → contains (codes ":") (s ++ (b':' ∷ t)) ≡ true
unfolding contains find starts_with strip_prefix
contains_colon [] t = refl
contains_colon (c ∷ s) t =
    contains-cons c (s ++ (b':' ∷ t)) ∙ either (b':' == c) (contains_colon s t)
  where
    either : (b : Bool) {x : Bool} → x ≡ true → (if b then true else x) ≡ true
    either true h = refl
    either false h = h

pub contains-Lacks : (s : Str) → Lacks b':' s → contains (codes ":") s ≡ false
unfolding contains find starts_with strip_prefix
contains-Lacks [] h = refl
contains-Lacks (c ∷ s) (hc, h) =
    let other : (b':' == c) ≡ false = ground (arith, hc) in
    contains-cons c s ∙ rw other (contains-Lacks s h)

pub show_ipv6-contains :
    (s t : ℕ) (rest : List ℕ) → contains (codes ":") (show_ipv6 (s ∷ t ∷ rest)) ≡ true
unfolding show_ipv6 show_with shorten_zeroes colons
show_ipv6-contains s t rest = shown (mapped ss)
  where
    ss : List ℕ
    ss = s ∷ t ∷ rest

    either :
        (b : Bool) (x y : Str)
        → contains (codes ":") x ≡ true
        → contains (codes ":") y ≡ true
        → contains (codes ":") (if b then x else y) ≡ true
    either true x y hx hy = hx
    either false x y hx hy = hy

    shown : (o : Option Ipv4) → contains (codes ":") (show_with ss o) ≡ true
    shown (some ip) = contains_colon [] (codes ":ffff:" ++ show_ipv4 ip)
    shown none =
        let z = zeroes 0 no_span no_span ss in
        either (ltb 1 z.len) _ _
          (contains_colon (colons (take z.start ss)) (b':' ∷ colons (drop (z.start + z.len) ss)))
          (contains_colon (to_hex s) (colons (t ∷ rest)))

to_string-Lacks : (n : ℕ) → Lacks b':' (to_string n)
to_string-Lacks n =
    All-imp IsDigit (λ c. c ≢ b':') (to_string n) (λ c d. omega arith) (to_string-IsDigit n)

Lacks-dot : (s t : Str) → Lacks b':' s → Lacks b':' t → Lacks b':' (s ++ (b'.' ∷ t))
Lacks-dot s t hs ht = All-append (λ c. c ≢ b':') s (b'.' ∷ t) hs (omega arith, ht)

pub show_ipv4-Lacks : (ip : Ipv4) → Lacks b':' (show_ipv4 ip)
unfolding show_ipv4
show_ipv4-Lacks ip = Lacks-dot (to_string ip.a) _ (to_string-Lacks ip.a) (
    Lacks-dot (to_string ip.b) _ (to_string-Lacks ip.b)
      (Lacks-dot (to_string ip.c) _ (to_string-Lacks ip.c) (to_string-Lacks ip.d)))
