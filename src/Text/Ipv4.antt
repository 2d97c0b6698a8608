-- ===== src/Text/Ipv4.antt =====
-- `Ipv4Addr`: its `parse` and its `to_string`. An address is its four octets.
use kubectl_sshuttle.Base.{
  ℕ, zero, suc, ◌<◌, ◌≡◌, refl, ap, ◌∙◌, Bool, true, false, not, ◌&&◌, Option, none, some, List, [],
  ◌∷◌, ◌++◌, arith, ◌==◌, if◌then◌else◌, Lacks, Bool-cases, inl, inr,
}
use kubectl_sshuttle.Text.Utf8.{Str}
use kubectl_sshuttle.Text.Slices.{splitn}
use kubectl_sshuttle.Text.Numbers.{
  is_digit, parse_uint, to_string, to_string-IsDigit, parse_uint_sound,
}
use kubectl_sshuttle.Text.Laws.{cut-append, cut-Lacks, digits-Lacks}

pub record Ipv4 : Type 0 where
  pub a : ℕ
  pub b : ℕ
  pub c : ℕ
  pub d : ℕ

abbrev pub all_digits : Str → Bool
all_digits [] = true
all_digits (c ∷ s) = is_digit c && all_digits s

-- more than one digit, the first a zero
abbrev pub leading_zero : Str → Bool
leading_zero (c ∷ d ∷ s) = c == b'0'
leading_zero _ = false

pub parse_octet : Str → Option ℕ
parse_octet s = if all_digits s && not (leading_zero s) then parse_uint 255 s else none

pub four : Option ℕ → Option ℕ → Option ℕ → Option ℕ → Option Ipv4
four (some a) (some b) (some c) (some d) = some (record { a = a; b = b; c = c; d = d })
four _ _ _ _ = none

pub parse_parts : List Str → Option Ipv4
unfolding parse_octet four
parse_parts (a ∷ b ∷ c ∷ d ∷ []) =
    four (parse_octet a) (parse_octet b) (parse_octet c) (parse_octet d)
parse_parts _ = none

unfoldable pub parse_ipv4 : Str → Option Ipv4
unfolding parse_parts
parse_ipv4 s = parse_parts (splitn 5 b'.' s)

unfoldable pub show_ipv4 : Ipv4 → Str
show_ipv4 ip =
    to_string ip.a
    ++ (b'.' ∷ (to_string ip.b ++ (b'.' ∷ (to_string ip.c ++ (b'.' ∷ to_string ip.d)))))

pub record IsIpv4 (ip : Ipv4) : Type 0 where
  pub a_u8 : ip.a < 256
  pub b_u8 : ip.b < 256
  pub c_u8 : ip.c < 256
  pub d_u8 : ip.d < 256

gives : Option ℕ → ℕ → Bool
gives none n = false
gives (some m) n = m == n

gives_sound : (o : Option ℕ) (n : ℕ) → gives o n ≡ true → o ≡ some n
unfolding gives
gives_sound none n h = cc
gives_sound (some m) n h = ground (arith, h)

-- every octet's text, by evaluation
octet_ok : ℕ → Bool
unfolding gives parse_octet
octet_ok n = gives (parse_octet (to_string n)) n

octets_ok : ℕ → Bool
octets_ok zero = true
octets_ok (suc k) = let more = octets_ok k in if octet_ok k then more else false

octets_ok_here : (k n : ℕ) → octets_ok k ≡ true → n < k → octet_ok n ≡ true
unfolding octets_ok
octets_ok_here zero n h lt = absurd (omega arith)
octets_ok_here (suc k) n h lt = elim (Bool-cases (octet_ok k)) [
  | inl fine ↦ elim (Bool-cases (n == k)) [
    | inl same_n ↦ let e : n ≡ k = ground (arith, same_n) in rw e fine
    | inr other ↦ octets_ok_here k n (rw fine at h) (ground (arith, other))
  ]
  | inr wrong ↦ absurd (cc (rw wrong at h))
]

octet_table : octets_ok 256 ≡ true
unfolding octets_ok octet_ok parse_uint to_string
octet_table = refl

parse_octet-to_string : (n : ℕ) → n < 256 → parse_octet (to_string n) ≡ some n
parse_octet-to_string n h =
    gives_sound (parse_octet (to_string n)) n
      (unfold octet_ok in octets_ok_here 256 n octet_table h)

parse_octet-lt : (s : Str) (n : ℕ) → parse_octet s ≡ some n → n < 256
unfolding parse_octet
parse_octet-lt s n h = elim (Bool-cases (all_digits s && not (leading_zero s))) [
  | inl good ↦ let (_, le) = parse_uint_sound 255 s n (rw good at h) in omega arith
  | inr bad ↦ absurd (cc (rw bad at h))
]

no_dot : (n : ℕ) → Lacks b'.' (to_string n)
no_dot n = digits-Lacks b'.' (to_string n) (omega arith) (to_string-IsDigit n)

splitn_last : (d : Str) → Lacks b'.' d → splitn 2 b'.' d ≡ d ∷ []
unfolding splitn
splitn_last d h = rw (cut-Lacks b'.' d h, splitn) (rw (cut-Lacks b'.' d h))

splitn_next :
    (n : ℕ) (a s : Str)
    → Lacks b'.' a
    → splitn (suc (suc n)) b'.' (a ++ (b'.' ∷ s)) ≡ a ∷ splitn (suc n) b'.' s
unfolding splitn
splitn_next n a s h = rw (cut-append b'.' a s h, splitn) (rw (cut-append b'.' a s h))

splitn_four :
    (a b c d : Str)
    → Lacks b'.' a
    → Lacks b'.' b
    → Lacks b'.' c
    → Lacks b'.' d
    → splitn 5 b'.' (a ++ (b'.' ∷ (b ++ (b'.' ∷ (c ++ (b'.' ∷ d)))))) ≡ a ∷ b ∷ c ∷ d ∷ []
splitn_four a b c d ha hb hc hd =
    splitn_next 3 a (b ++ (b'.' ∷ (c ++ (b'.' ∷ d)))) ha
    ∙ ap (λ r. a ∷ r)
        (splitn_next 2 b (c ++ (b'.' ∷ d)) hb
          ∙ ap (λ r. b ∷ r) (splitn_next 1 c d hc ∙ ap (λ r. c ∷ r) (splitn_last d hd)))

-- An address is read back from its print.
pub parse_ipv4-show_ipv4 : (ip : Ipv4) → IsIpv4 ip → parse_ipv4 (show_ipv4 ip) ≡ some ip
unfolding parse_ipv4 parse_parts show_ipv4 four
parse_ipv4-show_ipv4 ip v =
    rw
      (
        splitn_four (to_string ip.a) (to_string ip.b) (to_string ip.c) (to_string ip.d)
            (no_dot ip.a) (no_dot ip.b) (no_dot ip.c) (no_dot ip.d),
        parse_octet-to_string ip.a v.a_u8,
        parse_octet-to_string ip.b v.b_u8,
        parse_octet-to_string ip.c v.c_u8,
        parse_octet-to_string ip.d v.d_u8,
      )
      refl

four_sound :
    (a b c d : Option ℕ) (ip : Ipv4)
    → four a b c d ≡ some ip
    → (a ≡ some ip.a) × (b ≡ some ip.b) × (c ≡ some ip.c) × (d ≡ some ip.d)
unfolding four
four_sound (some a) (some b) (some c) (some d) ip h = ground arith
four_sound none b c d ip h = cc
four_sound (some a) none c d ip h = cc
four_sound (some a) (some b) none d ip h = cc
four_sound (some a) (some b) (some c) none ip h = cc

parse_parts-IsIpv4 : (ps : List Str) (ip : Ipv4) → parse_parts ps ≡ some ip → IsIpv4 ip
unfolding parse_parts
parse_parts-IsIpv4 (a ∷ b ∷ c ∷ d ∷ []) ip h =
    let (ha, hb, hc, hd) =
      four_sound (parse_octet a) (parse_octet b) (parse_octet c) (parse_octet d) ip h in
    record {
      a_u8 = parse_octet-lt a ip.a ha;
      b_u8 = parse_octet-lt b ip.b hb;
      c_u8 = parse_octet-lt c ip.c hc;
      d_u8 = parse_octet-lt d ip.d hd;
    }
parse_parts-IsIpv4 _ ip h = cc

-- What is read is an address.
pub parse_ipv4-IsIpv4 : (s : Str) (ip : Ipv4) → parse_ipv4 s ≡ some ip → IsIpv4 ip
unfolding parse_ipv4
parse_ipv4-IsIpv4 s ip h = parse_parts-IsIpv4 (splitn 5 b'.' s) ip h
