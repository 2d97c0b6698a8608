-- ===== src/Text/Slices.antt =====
-- The `str` methods that the program calls: `trim`, `splitn`, `find`, `contains`, `starts_with`,
-- `strip_prefix`, `lines` and `split_whitespace`.
use kubectl_sshuttle.Base.{
  ℕ, zero, suc, ◌≡◌, refl, Bool, true, false, ◌||◌, Option, none, some, List, [], ◌∷◌, ◌++◌, ◌==◌,
  if◌then◌else◌, within, codes,
}
use kubectl_sshuttle.Text.Utf8.{Str}

-- `char::is_whitespace`: the code points with the White_Space property
unfoldable pub is_whitespace : ℕ → Bool
is_whitespace c =
    within 0x9 0xD c
    || c == 0x20
    || c == 0x85
    || c == 0xA0
    || c == 0x1680
    || within 0x2000 0x200A c
    || c == 0x2028
    || c == 0x2029
    || c == 0x202F
    || c == 0x205F
    || c == 0x3000

module _ (p : ℕ → Bool) where
  unfoldable pub trim_start_matches : Str → Str
  trim_start_matches [] = []
  trim_start_matches (c ∷ s) = if p c then trim_start_matches s else c ∷ s

  -- a character in front of a trimmed rest goes too if nothing is left of the rest
  pub shorten : ℕ → Str → Str
  shorten c [] = if p c then [] else c ∷ []
  shorten c (d ∷ s) = c ∷ d ∷ s

  unfoldable pub trim_end_matches : Str → Str
  unfolding shorten
  trim_end_matches [] = []
  trim_end_matches (c ∷ s) = shorten c (trim_end_matches s)

unfoldable pub trim : Str → Str
unfolding trim_start_matches trim_end_matches is_whitespace
trim s = trim_end_matches is_whitespace (trim_start_matches is_whitespace s)

-- the text before the first `sep`, and the text behind it
unfoldable pub cut : ℕ → Str → Str × Option Str
cut sep [] = ([], none)
cut sep (c ∷ s) =
    let (before, after) = cut sep s in if c == sep then ([], some s) else (c ∷ before, after)

unfoldable pub splitn : ℕ → ℕ → Str → List Str
splitn zero sep s = []
splitn (suc zero) sep s = s ∷ []
splitn (suc (suc n)) sep s =
    let (before, rest) = cut sep s in
    elim rest [ none ↦ before ∷ [] | some after ↦ before ∷ splitn (suc n) sep after ]

-- the rest behind a prefix
unfoldable pub strip_prefix : Str → Str → Option Str
strip_prefix [] s = some s
strip_prefix (c ∷ p) [] = none
strip_prefix (c ∷ p) (d ∷ s) = if c == d then strip_prefix p s else none

abbrev pub is_some {ℓ} : {A : Type ℓ} → Option A → Bool
is_some none = false
is_some (some a) = true

unfoldable pub starts_with : Str → Str → Bool
unfolding strip_prefix
starts_with p s = is_some (strip_prefix p s)

-- the place of the first occurrence of a text
unfoldable pub find : Str → Str → Option ℕ
unfolding starts_with
find p [] = if starts_with p [] then some 0 else none
find p (c ∷ s) =
    if starts_with p (c ∷ s)
    then some 0
    else elim (find p s) [ none ↦ none | some i ↦ some (suc i) ]

unfoldable pub contains : Str → Str → Bool
unfolding find
contains p s = is_some (find p s)

-- a line's end: a carriage return in front of the line feed goes too
unfoldable pub chomp : Str → Str
chomp [] = []
chomp (c ∷ []) = if c == 13 then [] else c ∷ []
chomp (c ∷ d ∷ s) = c ∷ chomp (d ∷ s)

-- `lines`, the current line in reverse-free form: the characters of it read so far
unfoldable pub lines_from : Str → Str → List Str
unfolding chomp
lines_from [] [] = []
lines_from (c ∷ line) [] = (c ∷ line) ∷ []
lines_from line (c ∷ s) =
    let ended = chomp line ∷ lines_from [] s in
    let longer = lines_from (line ++ c ∷ []) s in if c == 10 then ended else longer

unfoldable pub lines : Str → List Str
unfolding lines_from
lines = lines_from []

abbrev keep : Str → List Str → List Str
keep [] ws = ws
keep (c ∷ w) ws = (c ∷ w) ∷ ws

unfoldable pub words_from : Str → Str → List Str
unfolding is_whitespace
words_from word [] = keep word []
words_from word (c ∷ s) =
    let ended = keep word (words_from [] s) in
    let longer = words_from (word ++ c ∷ []) s in if is_whitespace c then ended else longer

unfoldable pub split_whitespace : Str → List Str
unfolding words_from
split_whitespace = words_from []

trim_both : trim (codes " \t12 \n") ≡ codes "12"
unfolding trim
trim_both = refl

three_parts :
    splitn 3 b',' (codes "2,10.0.0.1,80,x") ≡ codes "2" ∷ codes "10.0.0.1" ∷ codes "80,x" ∷ []
unfolding splitn cut
three_parts = refl

two_lines : lines (codes "a\r\n\nb") ≡ codes "a" ∷ [] ∷ codes "b" ∷ []
unfolding lines
two_lines = refl

two_words : split_whitespace (codes " 10.0.0.1 \t host ") ≡ codes "10.0.0.1" ∷ codes "host" ∷ []
unfolding split_whitespace
two_words = refl

found : find (codes "read(") (codes "x.read(5)") ≡ some 2
unfolding find
found = refl
