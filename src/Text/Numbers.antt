-- ===== src/Text/Numbers.antt =====
-- Unsigned integers in decimal: `str::parse` of `u16`, `u64` and `usize`, and `to_string`.
use kubectl_sshuttle.Base.{
  ℕ, zero, suc, ◌+◌, ◌-◌, ◌*◌, ◌/◌, ◌%◌, ◌≤◌, ◌≡◌, ◌≢◌, refl, ◌∙◌, Bool, Option, none, some, [],
  ◌∷◌, arith, leb, within, ◌==◌, if◌then◌else◌, All, ap, inl, inr, ==_iff, Bool-cases,
}
use kubectl_sshuttle.Text.Utf8.{Str}

abbrev pub is_digit : ℕ → Bool
is_digit = within b'0' b'9'

-- `max` is the type's largest value: beyond it the checked product or sum fails
read_digits : ℕ → ℕ → Str → Option ℕ
read_digits max n [] = some n
read_digits max n (c ∷ s) =
    let m = n * 10 + (c - b'0') in
    if is_digit c then (if leb m max then read_digits max m s else none) else none

some_digits : ℕ → Str → Option ℕ
unfolding read_digits
some_digits max [] = none
some_digits max (c ∷ s) = read_digits max 0 (c ∷ s)

unfoldable pub parse_uint : ℕ → Str → Option ℕ
unfolding some_digits
parse_uint max [] = none
parse_uint max (c ∷ s) = if c == b'+' then some_digits max s else some_digits max (c ∷ s)

-- the last digits first; the fuel is the number itself
write_digits : ℕ → ℕ → Str → Str
write_digits zero n out = out
write_digits (suc fuel) n out =
    let more = write_digits fuel (n / 10) ((b'0' + n % 10) ∷ out) in if n == 0 then out else more

unfoldable pub to_string : ℕ → Str
unfolding write_digits
to_string n = if n == 0 then b'0' ∷ [] else write_digits n n []

-- the number that digits spell behind `n`, with no bound
abbrev pub value : ℕ → Str → ℕ
value n [] = n
value n (c ∷ s) = value (n * 10 + (c - b'0')) s

abbrev pub IsDigit : ℕ → Type 0
IsDigit c = (b'0' ≤ c) × (c ≤ b'9')

pub le-value : (s : Str) (n : ℕ) → n ≤ value n s
le-value [] n = omega arith
le-value (c ∷ s) n = omega (arith, le-value s (n * 10 + (c - b'0')))

read_digits_sound :
    (max : ℕ) (s : Str) (n r : ℕ)
    → n ≤ max
    → read_digits max n s ≡ some r
    → All IsDigit s × (r ≡ value n s) × (r ≤ max)
unfolding read_digits
read_digits_sound max [] n r h e = ground arith
read_digits_sound max (c ∷ s) n r h e =
    ground (arith, read_digits_sound max s (n * 10 + (c - b'0')) r)

read_digits_complete :
    (max : ℕ) (s : Str) (n : ℕ)
    → All IsDigit s
    → value n s ≤ max
    → read_digits max n s ≡ some (value n s)
unfolding read_digits
read_digits_complete max [] n d h = refl
read_digits_complete max (c ∷ s) n (hc, hs) h =
    let m = n * 10 + (c - b'0') in ground (arith, read_digits_complete max s m hs h, le-value s m)

-- the digits of `n` in front of `out`
digits-value : (fuel n : ℕ) (out : Str) → n ≤ fuel → value 0 (write_digits fuel n out) ≡ value n out
unfolding write_digits
digits-value zero n out h = ground arith
digits-value (suc fuel) n out h = ground (arith, digits-value fuel (n / 10) ((b'0' + n % 10) ∷ out))

digits-IsDigit : (fuel n : ℕ) (out : Str) → All IsDigit out → All IsDigit (write_digits fuel n out)
unfolding write_digits
digits-IsDigit zero n out h = h
digits-IsDigit (suc fuel) n out h =
    ground (arith, digits-IsDigit fuel (n / 10) ((b'0' + n % 10) ∷ out))

digits-ne-nil : (fuel n c : ℕ) (out : Str) → write_digits fuel n (c ∷ out) ≢ []
unfolding write_digits
digits-ne-nil zero n c out = λ e. cc
digits-ne-nil (suc fuel) n c out =
    ground (arith, digits-ne-nil fuel (n / 10) (b'0' + n % 10) (c ∷ out))

some_digits-eq : (max : ℕ) (s : Str) → s ≢ [] → some_digits max s ≡ read_digits max 0 s
unfolding some_digits
some_digits-eq max [] h = absurd (h refl)
some_digits-eq max (c ∷ s) h = refl

-- a text of digits only begins with no plus sign
parse_uint-digits :
    (max : ℕ) (s : Str) → s ≢ [] → All IsDigit s → parse_uint max s ≡ read_digits max 0 s
unfolding parse_uint
parse_uint-digits max [] h d = absurd (h refl)
parse_uint-digits max (c ∷ s) h (hc, hs) = ground (arith, some_digits-eq max (c ∷ s) h)

-- A text of at least one digit is read as its value if that is at most `max`.
pub parse_uint_complete :
    (max : ℕ) (s : Str)
    → s ≢ []
    → All IsDigit s
    → value 0 s ≤ max
    → parse_uint max s ≡ some (value 0 s)
parse_uint_complete max s h d b = parse_uint-digits max s h d ∙ read_digits_complete max s 0 d b

-- what `parse` accepts: an optional plus sign and at least one digit
pub data Spells (s : Str) (n : ℕ) : Type 0 where
  plain : s ≢ [] → All IsDigit s → n ≡ value 0 s → Spells s n
  plus : (t : Str) → s ≡ b'+' ∷ t → t ≢ [] → All IsDigit t → n ≡ value 0 t → Spells s n

some_digits_sound :
    (max : ℕ) (s : Str) (r : ℕ)
    → some_digits max s ≡ some r
    → (s ≢ []) × All IsDigit s × (r ≡ value 0 s) × (r ≤ max)
unfolding some_digits
some_digits_sound max [] r e = cc
some_digits_sound max (c ∷ s) r e =
    let (d, v, b) = read_digits_sound max (c ∷ s) 0 r (omega arith) e in ((λ e. cc), d, v, b)

-- Whatever is read as `r` spells `r`, and `r` is at most `max`: nothing wraps around.
pub parse_uint_sound :
    (max : ℕ) (s : Str) (r : ℕ) → parse_uint max s ≡ some r → Spells s r × (r ≤ max)
unfolding parse_uint
parse_uint_sound max [] r e = cc
parse_uint_sound max (c ∷ s) r e = elim (Bool-cases (c == b'+')) [
  | inl h ↦
      let (ne, d, v, b) = some_digits_sound max s r (rw h at e) in
      (plus s (ap (λ x. x ∷ s) ((==_iff c b'+').0 h)) ne d v, b)
  | inr h ↦ let (ne, d, v, b) = some_digits_sound max (c ∷ s) r (rw h at e) in (plain ne d v, b)
]

to_string-value : (n : ℕ) → value 0 (to_string n) ≡ n
unfolding to_string
to_string-value n = ground (arith, digits-value n n [])

pub to_string-IsDigit : (n : ℕ) → All IsDigit (to_string n)
unfolding to_string
to_string-IsDigit n = ground (arith, digits-IsDigit n n [] tt)

pub to_string-ne-nil : (n : ℕ) → to_string n ≢ []
unfolding to_string
to_string-ne-nil zero = λ e. cc
to_string-ne-nil (suc n) = ground (arith, digits-ne-nil n (suc n / 10) (b'0' + suc n % 10) [])

-- A number is read back from its decimal print.
pub parse_uint-to_string : (max n : ℕ) → n ≤ max → parse_uint max (to_string n) ≡ some n
parse_uint-to_string max n h = rw (
  parse_uint_complete max (to_string n) (to_string-ne-nil n) (to_string-IsDigit n)
      (omega (arith, to_string-value n)),
  to_string-value,
)
