-- ===== src/Ssnet/Connect.antt =====
-- rushtle/src/ssnet.rs, the payload of `CMD_TCP_CONNECT`.
use kubectl_sshuttle.Base.{
  ℕ, ◌≤◌, ◌≡◌, ◌≢◌, refl, Option, none, some, List, [], ◌∷◌, ◌++◌, append_assoc, arith, ◌==◌, codes,
  Lacks, All, All-append, All-imp, ParseError, Result, ok, err, or_fail, ◌>>=◌, false, inl,
}
use kubectl_sshuttle.Text.Utf8.{Bytes, Str, from_utf8, to_utf8, IsScalar, from_utf8-to_utf8}
use kubectl_sshuttle.Text.Slices.{trim, trim_end_matches, is_whitespace, splitn, cut}
use kubectl_sshuttle.Text.Laws.{
  trim_start-cons, trim_end-append, cut-append, digits-Keeps, digits-Lacks, digits-IsScalar,
}
use kubectl_sshuttle.Text.Numbers.{
  parse_uint, to_string, IsDigit, to_string-IsDigit, to_string-ne-nil, parse_uint-to_string,
}

abbrev pub u16_max : ℕ
u16_max = 0xFFFF

pub record ConnectTarget : Type 0 where
  pub family : Option ℕ
  pub host : Str
  pub port : ℕ

parse_u16 : Str → Result ParseError ℕ
parse_u16 s = or_fail (parse_uint u16_max s) ParseError.bad_int

pub parse_parts : Str → List Str → Result ParseError ConnectTarget
unfolding parse_u16
parse_parts s (f ∷ h ∷ p ∷ []) = do
  family ← parse_u16 f
  port ← parse_u16 p
  ok (record { family = some family; host = h; port = port })
parse_parts s (h ∷ p ∷ []) = do
  port ← parse_u16 p
  ok (record { family = none; host = h; port = port })
parse_parts s _ = err (ParseError.bad_connect s)

-- `trim_end_matches('\0').trim()`
pub trim_payload : Str → Str
trim_payload s = trim (trim_end_matches (λ c. c == 0) s)

unfoldable pub parse_connect : Bytes → Result ParseError ConnectTarget
parse_connect payload = do
  text ← or_fail (from_utf8 payload) ParseError.not_utf8
  let s = trim_payload text
  parse_parts s (splitn 3 b',' s)

-- the text that `format!("{family},{host},{port}")` gives
connect_text : ℕ → Str → ℕ → Str
connect_text family host port = to_string family ++ (b',' ∷ (host ++ (b',' ∷ to_string port)))

unfoldable pub encode_connect : ℕ → Str → ℕ → Bytes
unfolding connect_text
encode_connect family host port = to_utf8 (connect_text family host port)

legacy :
    parse_connect (codes "10.0.0.1,80\n")
    ≡ ok (record { family = none; host = codes "10.0.0.1"; port = 80 })
unfolding parse_connect parse_parts trim_payload trim_end_matches trim splitn cut parse_uint
    from_utf8
legacy = refl

-- no zero among digits
digits_end : (d : Str) → All IsDigit d → All (λ c. (c == 0) ≡ false) d
digits_end d = All-imp IsDigit (λ c. (c == 0) ≡ false) d (λ c h. ground arith)

-- text between digits keeps its ends
trim_payload-digits :
    (s d : Str) (c : ℕ)
    → IsDigit c
    → d ≢ []
    → All IsDigit d
    → trim_payload (c ∷ (s ++ d)) ≡ c ∷ (s ++ d)
unfolding trim_payload trim
trim_payload-digits s d c hc ne hd = rw (
  trim_end-append (λ x. x == 0) (c ∷ s) d ne (digits_end d hd),
  trim_start-cons is_whitespace c (s ++ d) (digits-Keeps (c ∷ []) (hc, tt)).0,
  trim_end-append is_whitespace (c ∷ s) d ne (digits-Keeps d hd),
)

splitn_three :
    (a b c : Str)
    → Lacks b',' a
    → Lacks b',' b
    → splitn 3 b',' (a ++ (b',' ∷ (b ++ (b',' ∷ c)))) ≡ a ∷ b ∷ c ∷ []
unfolding splitn
splitn_three a b c ha hb =
    rw (cut-append b',' a (b ++ (b',' ∷ c)) ha, cut-append b',' b c hb, splitn)
      (rw (cut-append b',' a (b ++ (b',' ∷ c)) ha, cut-append b',' b c hb))

connect_text-IsScalar :
    (family : ℕ) (host : Str) (port : ℕ)
    → All IsScalar host
    → All IsScalar (connect_text family host port)
unfolding connect_text
connect_text-IsScalar family host port h =
    All-append IsScalar (to_string family) (b',' ∷ (host ++ (b',' ∷ to_string port)))
      (digits-IsScalar (to_string family) (to_string-IsDigit family))
      (
        inl (omega arith),
        All-append IsScalar host (b',' ∷ to_string port) h
            (inl (omega arith), digits-IsScalar (to_string port) (to_string-IsDigit port)),
      )

regroup :
    (a host d : Str)
    → a ++ (b',' ∷ (host ++ (b',' ∷ d))) ≡ (a ++ (b',' ∷ (host ++ (b',' ∷ [])))) ++ d
regroup a host d = simp append_assoc

trim_connect :
    (a host d : Str)
    → a ≢ []
    → All IsDigit a
    → d ≢ []
    → All IsDigit d
    → trim_payload (a ++ (b',' ∷ (host ++ (b',' ∷ d)))) ≡ a ++ (b',' ∷ (host ++ (b',' ∷ d)))
trim_connect [] host d na ha nd hd = absurd (na refl)
trim_connect (c ∷ a) host d na (hc, ha) nd hd =
    rw (regroup a host d) (trim_payload-digits (a ++ (b',' ∷ (host ++ (b',' ∷ [])))) d c hc nd hd)

-- The target of a connection is read back from its payload: every family and port of 16 bits and
-- every host without a comma, white space and other scripts included.
pub parse_connect-encode_connect :
    (family : ℕ) (host : Str) (port : ℕ)
    → family ≤ u16_max
    → port ≤ u16_max
    → All IsScalar host
    → Lacks b',' host
    → parse_connect (encode_connect family host port)
      ≡ ok (record { family = some family; host = host; port = port })
unfolding parse_connect encode_connect connect_text parse_parts
parse_connect-encode_connect family host port hf hp scalars lacks =
    let fam = to_string-IsDigit family in
    rw (
      from_utf8-to_utf8 (connect_text family host port)
          (connect_text-IsScalar family host port scalars),
      trim_connect (to_string family) host (to_string port) (to_string-ne-nil family) fam
          (to_string-ne-nil port) (to_string-IsDigit port),
      splitn_three (to_string family) host (to_string port)
          (digits-Lacks b',' (to_string family) (omega arith) fam) lacks,
      parse_uint-to_string u16_max family hf,
      parse_uint-to_string u16_max port hp,
    )
