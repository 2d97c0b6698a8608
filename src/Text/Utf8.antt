-- ===== src/Text/Utf8.antt =====
-- `str::from_utf8` and `as_bytes`: text and its UTF-8 bytes. The reader is the usual automaton,
-- so overlong forms, surrogates and values above 0x10FFFF are refused byte by byte.
use kubectl_sshuttle.Base.{
  ℕ, zero, suc, ◌+◌, ◌-◌, ◌*◌, ◌/◌, ◌%◌, ◌<◌, ◌≤◌, ◌≡◌, refl, ◌⊎◌, Option, none, some, List, [],
  ◌∷◌, ◌++◌, arith, ltb, within, ◌==◌, if◌then◌else◌, All,
}

abbrev pub Bytes : Type 0
Bytes = List ℕ

abbrev pub Str : Type 0
Str = List ℕ

-- between two characters, or inside one: continuation bytes left, value so far, range of the next
pub data Pending : Type 0 where
  boundary : Pending
  expect : ℕ → ℕ → ℕ → ℕ → Pending

-- the first byte of a character: the characters it completes and the state behind it
lead : ℕ → Option (Str × Pending)
lead b =
    if ltb b 0x80
    then some (b ∷ [], boundary)
    else if ltb b 0xC2
    then none
    else if ltb b 0xE0
    then some ([], expect 0 (b - 0xC0) 0x80 0xBF)
    else if b == 0xE0
    then some ([], expect 1 0 0xA0 0xBF)
    else if b == 0xED
    then some ([], expect 1 13 0x80 0x9F)
    else if ltb b 0xF0
    then some ([], expect 1 (b - 0xE0) 0x80 0xBF)
    else if b == 0xF0
    then some ([], expect 2 0 0x90 0xBF)
    else if ltb b 0xF4
    then some ([], expect 2 (b - 0xF0) 0x80 0xBF)
    else if b == 0xF4
    then some ([], expect 2 4 0x80 0x8F)
    else none

feed : Pending → ℕ → Option (Str × Pending)
unfolding lead
feed boundary b = lead b
feed (expect zero acc lo hi) b =
    if within lo hi b then some ((acc * 64 + (b - 0x80)) ∷ [], boundary) else none
feed (expect (suc n) acc lo hi) b =
    if within lo hi b then some ([], expect n (acc * 64 + (b - 0x80)) 0x80 0xBF) else none

infixl 5 ◌>>=◌
abbrev ◌>>=◌ {ℓ κ} : {A : Type ℓ} {B : Type κ} → Option A → (A → Option B) → Option B
none >>= f = none
some a >>= f = f a

read : Pending → Bytes → Option Str
read boundary [] = some []
read (expect n acc lo hi) [] = none
read p (b ∷ bs) = do (out, p') ← feed p b; rest ← read p' bs; some (out ++ rest)

unfoldable pub from_utf8 : Bytes → Option Str
unfolding read feed
from_utf8 = read boundary

unfoldable pub encode_char : ℕ → Bytes
encode_char c =
    if ltb c 0x80
    then c ∷ []
    else if ltb c 0x800
    then (0xC0 + c / 64) ∷ (0x80 + c % 64) ∷ []
    else if ltb c 0x10000
    then (0xE0 + c / 4096) ∷ (0x80 + c / 64 % 64) ∷ (0x80 + c % 64) ∷ []
    else (0xF0 + c / 262144) ∷ (0x80 + c / 4096 % 64) ∷ (0x80 + c / 64 % 64) ∷ (0x80 + c % 64) ∷ []

unfoldable pub to_utf8 : Str → Bytes
unfolding encode_char
to_utf8 [] = []
to_utf8 (c ∷ s) = encode_char c ++ to_utf8 s

-- what a Rust `char` can be
abbrev pub IsScalar : ℕ → Type 0
IsScalar c = (c < 0xD800) ⊎ ((0xE000 ≤ c) × (c < 0x110000))

euro : from_utf8 (0xE2 ∷ 0x82 ∷ 0xAC ∷ 0x41 ∷ []) ≡ some (0x20AC ∷ 0x41 ∷ [])
unfolding from_utf8
euro = refl

overlong : from_utf8 (0xC0 ∷ 0x80 ∷ []) ≡ none
unfolding from_utf8
overlong = refl

-- one character read back, whatever follows
read-encode_char :
    (c : ℕ) (rest : Bytes)
    → IsScalar c
    → read boundary (encode_char c ++ rest) ≡ (read boundary rest >>= λ s. some (c ∷ s))
unfolding read feed encode_char
read-encode_char c rest h = ground arith

-- Text written as bytes is read back, for every text of Unicode scalar values.
pub from_utf8-to_utf8 : (s : Str) → All IsScalar s → from_utf8 (to_utf8 s) ≡ some s
unfolding from_utf8 to_utf8
from_utf8-to_utf8 [] h = refl
from_utf8-to_utf8 (c ∷ s) (hc, hs) = rw (read-encode_char c (to_utf8 s) hc, from_utf8-to_utf8 s hs)
