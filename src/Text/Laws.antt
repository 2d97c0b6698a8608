-- ===== src/Text/Laws.antt =====
-- Laws of the text operations that the protocol's payloads rest on.
use kubectl_sshuttle.Base.{
  ℕ, ◌<◌, ◌≡◌, ◌≢◌, refl, ap, sym, ◌∙◌, Bool, true, false, none, some, [], ◌∷◌, ◌++◌, append_assoc,
  arith, codes, ◌||◌, inl, All, All-imp, All-append, Lacks, length, if◌then◌else◌, ◌==◌, Option,
  suc, ◌≤◌, length-append, Bool-cases, inr,
}
use kubectl_sshuttle.Text.Utf8.{Str, to_utf8, from_utf8, from_utf8-to_utf8, encode_char, IsScalar}
use kubectl_sshuttle.Text.Slices.{
  trim, find, is_some, starts_with, strip_prefix, trim_start_matches, trim_end_matches, shorten,
  is_whitespace, cut,
}
use kubectl_sshuttle.Text.Numbers.{IsDigit}

abbrev pub Keeps : (ℕ → Bool) → Str → Type 0
Keeps p = All (λ c. p c ≡ false)

pub trim_start-cons :
    (p : ℕ → Bool) (c : ℕ) (s : Str) → p c ≡ false → trim_start_matches p (c ∷ s) ≡ c ∷ s
unfolding trim_start_matches
trim_start-cons p c s h = rw h

-- a text with a kept end is not shortened
pub trim_end-append :
    (p : ℕ → Bool) (xs ys : Str) → ys ≢ [] → Keeps p ys → trim_end_matches p (xs ++ ys) ≡ xs ++ ys
unfolding trim_end_matches
trim_end-append p [] [] ne h = absurd (ne refl)
trim_end-append p [] (y ∷ []) ne (hy, h) = rw hy
trim_end-append p [] (y ∷ z ∷ ys) ne (hy, h) = rw (trim_end-append p [] (z ∷ ys) (λ e. cc) h)
trim_end-append p (x ∷ xs) ys ne h = rw (trim_end-append p xs ys ne h) (kept x xs ys ne)
  where
    kept : (x : ℕ) (xs ys : Str) → ys ≢ [] → shorten p x (xs ++ ys) ≡ x ∷ (xs ++ ys)
    kept x [] [] ne = absurd (ne refl)
    kept x [] (y ∷ ys) ne = refl
    kept x (z ∷ xs) ys ne = refl

pub cut-append : (sep : ℕ) (xs ys : Str) → Lacks sep xs → cut sep (xs ++ sep ∷ ys) ≡ (xs, some ys)
unfolding cut
cut-append sep [] ys h = ground arith
cut-append sep (x ∷ xs) ys (hx, h) = ground (arith, cut-append sep xs ys h)

pub cut-Lacks : (sep : ℕ) (xs : Str) → Lacks sep xs → cut sep xs ≡ (xs, none)
unfolding cut
cut-Lacks sep [] h = refl
cut-Lacks sep (x ∷ xs) (hx, h) = ground (arith, cut-Lacks sep xs h)

pub to_utf8-append : (s t : Str) → to_utf8 (s ++ t) ≡ to_utf8 s ++ to_utf8 t
unfolding to_utf8
to_utf8-append [] t = refl
to_utf8-append (c ∷ s) t =
    rw (to_utf8-append s t, append_assoc (encode_char c) (to_utf8 s) (to_utf8 t))

-- ASCII text is its own encoding
pub to_utf8_ascii : (s : Str) → All (λ c. c < 128) s → to_utf8 s ≡ s
unfolding to_utf8
to_utf8_ascii [] h = refl
to_utf8_ascii (c ∷ s) (hc, h) = ground (arith, to_utf8_ascii s h)

pub from_utf8_ascii : (s : Str) → All (λ c. c < 128) s → from_utf8 s ≡ some s
from_utf8_ascii s h =
    ap from_utf8 (sym (to_utf8_ascii s h))
    ∙ from_utf8-to_utf8 s (All-imp (λ c. c < 128) IsScalar s (λ c lt. inl (omega arith)) h)

encode_char-Lacks : (b c : ℕ) → b < 128 → c ≢ b → Lacks b (encode_char c)
unfolding encode_char
encode_char-Lacks b c hb h = ground arith

-- the bytes of a text hold an ASCII character only where the text does
pub to_utf8-Lacks : (b : ℕ) (s : Str) → b < 128 → Lacks b s → Lacks b (to_utf8 s)
unfolding to_utf8
to_utf8-Lacks b [] hb h = tt
to_utf8-Lacks b (c ∷ s) hb (hc, h) =
    All-append (λ x. x ≢ b) (encode_char c) (to_utf8 s) (encode_char-Lacks b c hb hc)
      (to_utf8-Lacks b s hb h)

digit_kept : (c : ℕ) → IsDigit c → is_whitespace c ≡ false
unfolding is_whitespace
digit_kept c h = ground arith

pub digits-Keeps : (s : Str) → All IsDigit s → Keeps is_whitespace s
digits-Keeps s = All-imp IsDigit (λ c. is_whitespace c ≡ false) s digit_kept

pub digits-Lacks : (b : ℕ) (s : Str) → b < b'0' → All IsDigit s → Lacks b s
digits-Lacks b s h = All-imp IsDigit (λ c. c ≢ b) s (λ c d. omega arith)

pub digits_ascii : (s : Str) → All IsDigit s → All (λ c. c < 128) s
digits_ascii s = All-imp IsDigit (λ c. c < 128) s (λ c d. omega arith)

pub digits-IsScalar : (s : Str) → All IsDigit s → All IsScalar s
digits-IsScalar s = All-imp IsDigit IsScalar s (λ c d. inl (omega arith))

-- a text of digits is trimmed already
pub trim_digits : (s : Str) → All IsDigit s → trim s ≡ s
unfolding trim
trim_digits [] h = refl
trim_digits (c ∷ s) (hc, h) =
    rw (trim_start-cons is_whitespace c s (digit_kept c hc))
      (trim_end-append is_whitespace [] (c ∷ s) (λ e. cc) (digit_kept c hc, digits-Keeps s h))

pub strip_prefix-append : (p s : Str) → strip_prefix p (p ++ s) ≡ some s
unfolding strip_prefix
strip_prefix-append [] s = refl
strip_prefix-append (c ∷ p) s = ground (arith, strip_prefix-append p s)

-- behind text without its first letter, a text is found where it stands
pub find_at :
    (c : ℕ) (p before after : Str)
    → Lacks c before
    → find (c ∷ p) (before ++ ((c ∷ p) ++ after)) ≡ some (length before)
unfolding find starts_with strip_prefix
find_at c p [] after h = rw (strip_prefix-append (c ∷ p) after)
find_at c p (x ∷ before) after (hx, h) = ground (arith, find_at c p before after h)

pub find_char_at :
    (c : ℕ) (before after : Str)
    → Lacks c before
    → find (c ∷ []) (before ++ (c ∷ after)) ≡ some (length before)
find_char_at c before after h = find_at c [] before after h

-- whether a text begins with another does not depend on what stands behind that
starts_with_long :
    (p s t : Str)
    → length p ≤ length s
    → is_some (strip_prefix p (s ++ t)) ≡ is_some (strip_prefix p s)
unfolding strip_prefix
starts_with_long [] s t h = refl
starts_with_long (c ∷ p) [] t h = absurd (omega arith)
starts_with_long (c ∷ p) (d ∷ s) t h = elim (Bool-cases (c == d)) [
  | inl same ↦ rw same (starts_with_long p s t (omega arith))
  | inr other ↦ rw other refl
]

found_later :
    (b b' : Bool) (o o' : Option ℕ) (i : ℕ)
    → b' ≡ b
    → (o ≡ some i → o' ≡ some i)
    → (if b then some 0 else elim o [ none ↦ none | some j ↦ some (suc j) ]) ≡ some (suc i)
    → (if b' then some 0 else elim o' [ none ↦ none | some j ↦ some (suc j) ]) ≡ some (suc i)
found_later true b' o o' i e more h = cc
found_later false b' none o' i e more h = cc
found_later false b' (some j) o' i e more h =
    let hit : some j ≡ some i = ground arith in rw (e, more hit) refl

-- A text that is found at the end of another, and so not before, is found there whatever follows.
pub find_first :
    (c : ℕ) (p before after : Str)
    → find (c ∷ p) (before ++ (c ∷ p)) ≡ some (length before)
    → find (c ∷ p) (before ++ ((c ∷ p) ++ after)) ≡ some (length before)
unfolding find starts_with strip_prefix
find_first c p [] after h = rw (strip_prefix-append (c ∷ p) after)
find_first c p (x ∷ before) after h =
    found_later _ _ (find (c ∷ p) (before ++ (c ∷ p))) (find (c ∷ p) (before ++ ((c ∷ p) ++ after)))
      (length before)
      (ap (λ t. is_some (strip_prefix (c ∷ p) (x ∷ t))) (sym (append_assoc before (c ∷ p) after))
        ∙ starts_with_long (c ∷ p) (x ∷ (before ++ (c ∷ p))) after
            (omega (arith, length-append before (c ∷ p))))
      (λ e. find_first c p before after e) h

-- a last character that is trimmed
pub trim_end_drop :
    (p : ℕ → Bool) (xs : Str) (c : ℕ)
    → p c ≡ true
    → trim_end_matches p (xs ++ c ∷ []) ≡ trim_end_matches p xs
unfolding trim_end_matches
trim_end_drop p [] c h = rw h
trim_end_drop p (x ∷ xs) c h = rw (trim_end_drop p xs c h)

pub trim_end-Keeps : (p : ℕ → Bool) (s : Str) → Keeps p s → trim_end_matches p s ≡ s
trim_end-Keeps p [] h = unfold trim_end_matches in refl
trim_end-Keeps p (c ∷ s) h = trim_end-append p [] (c ∷ s) (λ e. cc) h

-- a number with a line feed behind it
pub trim_digits_lf : (s : Str) → s ≢ [] → All IsDigit s → trim (s ++ 10 ∷ []) ≡ s
unfolding trim
trim_digits_lf [] ne h = absurd (ne refl)
trim_digits_lf (c ∷ s) ne (hc, h) =
    rw (trim_start-cons is_whitespace c (s ++ 10 ∷ []) (digit_kept c hc)) (
      trim_end_drop is_whitespace (c ∷ s) 10 (unfold is_whitespace in refl)
      ∙ trim_end-Keeps is_whitespace (c ∷ s) (digit_kept c hc, digits-Keeps s h))

pub append-ne-nil : (s t : Str) → s ≢ [] → s ++ t ≢ []
append-ne-nil [] t ne = absurd (ne refl)
append-ne-nil (c ∷ s) t ne = λ e. cc

-- what stands in front is one of the two
pub starts_with-one :
    (c d : ℕ) (p q s : Str) → c ≢ d → starts_with (c ∷ p) s ≡ true → strip_prefix (d ∷ q) s ≡ none
unfolding starts_with strip_prefix
starts_with-one c d p q [] ne h = refl
starts_with-one c d p q (x ∷ s) ne h = elim (Bool-cases (d == x)) [
  | inr other ↦ rw other refl
  | inl same ↦ absurd (ground (arith, ne))
]

-- a comment has no `nameserver` in front
pub comment-bare :
    (s : Str)
    → (starts_with (codes "#") s || starts_with (codes ";") s) ≡ true
    → strip_prefix (codes "nameserver") s ≡ none
comment-bare s h = elim (Bool-cases (starts_with (codes "#") s)) [
  | inl comment ↦ starts_with-one b'#' b'n' [] (codes "ameserver") s (omega arith) comment
  | inr other ↦ starts_with-one b';' b'n' [] (codes "ameserver") s (omega arith) (rw other at h)
]
