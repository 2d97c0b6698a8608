-- ===== src/Base/Lists.antt =====
-- Lists measured and indexed by native numbers, under the library's names.
use Prim.Native.Nat.{ℕ, zero, suc, ◌+◌, ◌-◌, ◌≤◌, ◌<◌, min}
use Prim.Native.Char.{code}
use Prim.Native.String.{String}
use mathlib.Core.Path.{◌≡◌, refl, ap, ◌∙◌}
use mathlib.Core.Logic.{inl, inr, ◌≢◌, ◌⊎◌}
use mathlib.Core.List.{List, [], ◌∷◌, ◌++◌}
use mathlib.Core.Option.{Option, none, some}
use mathlib.Core.Bool.{Bool, true, false, ◌&&◌}
use native.Mathlib.Omega.{arith}
use kubectl_sshuttle.Base.Tests.{◌==◌, if◌then◌else◌}

-- the code points of a literal
abbrev pub codes : String → List ℕ
codes String.[] = []
codes (String.◌∷◌ c s) = code c ∷ codes s

module _ {ℓ} {A : Type ℓ} where
  abbrev pub length : List A → ℕ
  length [] = 0
  length (x ∷ xs) = suc (length xs)

  abbrev pub take : ℕ → List A → List A
  take zero xs = []
  take (suc n) [] = []
  take (suc n) (x ∷ xs) = x ∷ take n xs

  abbrev pub drop : ℕ → List A → List A
  drop zero xs = xs
  drop (suc n) [] = []
  drop (suc n) (x ∷ xs) = drop n xs

  abbrev pub get_elem? : List A → ℕ → Option A
  get_elem? [] i = none
  get_elem? (x ∷ xs) zero = some x
  get_elem? (x ∷ xs) (suc i) = get_elem? xs i

  abbrev pub get_or : List A → ℕ → A → A
  get_or [] i d = d
  get_or (x ∷ xs) zero d = x
  get_or (x ∷ xs) (suc i) d = get_or xs i d

  -- a write out of bounds changes nothing
  abbrev pub set : List A → ℕ → A → List A
  set [] i v = []
  set (x ∷ xs) zero v = v ∷ xs
  set (x ∷ xs) (suc i) v = x ∷ set xs i v

  abbrev pub replicate : ℕ → A → List A
  replicate zero a = []
  replicate (suc n) a = a ∷ replicate n a

  pub length-replicate : (n : ℕ) (a : A) → length (replicate n a) ≡ n
  length-replicate zero a = refl
  length-replicate (suc n) a = ap suc (length-replicate n a)

  pub length-append : (xs ys : List A) → length (xs ++ ys) ≡ length xs + length ys
  length-append [] ys = omega arith
  length-append (x ∷ xs) ys = omega (arith, length-append xs ys)

  pub take-append : (xs ys : List A) → take (length xs) (xs ++ ys) ≡ xs
  take-append [] ys = refl
  take-append (x ∷ xs) ys = ap (λ t. x ∷ t) (take-append xs ys)

  pub drop-append : (xs ys : List A) → drop (length xs) (xs ++ ys) ≡ ys
  drop-append [] ys = refl
  drop-append (x ∷ xs) ys = drop-append xs ys

  pub drop-append_add : (xs ys : List A) (n : ℕ) → drop (length xs + n) (xs ++ ys) ≡ drop n ys
  drop-append_add [] ys n = ap (λ k. drop k ys) (omega arith)
  drop-append_add (x ∷ xs) ys n =
      let e : suc (length xs) + n ≡ suc (length xs + n) = omega arith in
      ap (λ k. drop k (x ∷ (xs ++ ys))) e ∙ drop-append_add xs ys n

  pub take-append-drop : (n : ℕ) (xs : List A) → take n xs ++ drop n xs ≡ xs
  take-append-drop zero xs = refl
  take-append-drop (suc n) [] = refl
  take-append-drop (suc n) (x ∷ xs) = rw (take-append-drop n xs)

  pub length-take : (n : ℕ) (xs : List A) → length (take n xs) ≡ min n (length xs)
  length-take zero xs = omega arith
  length-take (suc n) [] = omega arith
  length-take (suc n) (x ∷ xs) = omega (arith, length-take n xs)

  pub length-drop : (n : ℕ) (xs : List A) → length (drop n xs) ≡ length xs - n
  length-drop zero xs = omega arith
  length-drop (suc n) [] = omega arith
  length-drop (suc n) (x ∷ xs) = omega (arith, length-drop n xs)

-- what holds of every item
module _ {ℓ κ} {A : Type ℓ} (P : A → Type κ) where
  abbrev pub All : List A → Type κ
  All [] = Unit
  All (x ∷ xs) = P x × All xs

  pub All-append : (xs ys : List A) → All xs → All ys → All (xs ++ ys)
  All-append [] ys hx hy = hy
  All-append (x ∷ xs) ys (px, hx) hy = (px, All-append xs ys hx hy)

  -- the converse
  pub All-split : (xs ys : List A) → All (xs ++ ys) → All xs × All ys
  All-split [] ys h = (tt, h)
  All-split (x ∷ xs) ys (px, h) = let (hx, hy) = All-split xs ys h in ((px, hx), hy)

-- no item is this number
abbrev pub Lacks : ℕ → List ℕ → Type 0
Lacks c = All (λ x. x ≢ c)

-- the Boolean equality of two lists of numbers
abbrev pub same : List ℕ → List ℕ → Bool
same [] [] = true
same [] (y ∷ ys) = false
same (x ∷ xs) [] = false
same (x ∷ xs) (y ∷ ys) = x == y && same xs ys

pub same_refl : (xs : List ℕ) → same xs xs ≡ true
same_refl [] = refl
same_refl (x ∷ xs) = ground (arith, same_refl xs)

pub same_comm : (xs ys : List ℕ) → same xs ys ≡ same ys xs
same_comm [] [] = refl
same_comm [] (y ∷ ys) = refl
same_comm (x ∷ xs) [] = refl
same_comm (x ∷ xs) (y ∷ ys) = ground (arith, same_comm xs ys)

pub eq_of_same : (xs ys : List ℕ) → same xs ys ≡ true → xs ≡ ys
eq_of_same [] [] h = refl
eq_of_same [] (y ∷ ys) h = cc
eq_of_same (x ∷ xs) [] h = cc
eq_of_same (x ∷ xs) (y ∷ ys) h = ground (arith, eq_of_same xs ys)

pub All-imp {ℓ κ μ} :
    {A : Type ℓ} (P : A → Type κ) (Q : A → Type μ) (xs : List A)
    → ((x : A) → P x → Q x)
    → All P xs
    → All Q xs
All-imp P Q [] f h = tt
All-imp P Q (x ∷ xs) f (hx, h) = (f x hx, All-imp P Q xs f h)

-- some item has this property
abbrev pub Any {ℓ} : {A : Type ℓ} → (A → Type 0) → List A → Type 0
Any P [] = ⊥
Any P (x ∷ xs) = P x ⊎ Any P xs

-- how many of the flags are set
abbrev pub count_true : List Bool → ℕ
count_true [] = 0
count_true (true ∷ bs) = suc (count_true bs)
count_true (false ∷ bs) = count_true bs

pub count_true-le : (bs : List Bool) → count_true bs ≤ length bs
count_true-le [] = omega arith
count_true-le (true ∷ bs) = omega (arith, count_true-le bs)
count_true-le (false ∷ bs) = omega (arith, count_true-le bs)

pub all_set :
    (bs : List Bool) (i : ℕ) → length bs ≤ count_true bs → i < length bs → get_or bs i false ≡ true
all_set [] i h lt = absurd (omega arith)
all_set (true ∷ bs) zero h lt = refl
all_set (true ∷ bs) (suc i) h lt = all_set bs i (omega arith) (omega arith)
all_set (false ∷ bs) i h lt = absurd (omega (arith, count_true-le bs))

pub count_all :
    (bs : List Bool)
    → ((i : ℕ) → i < length bs → get_or bs i false ≡ true)
    → count_true bs ≡ length bs
count_all [] h = refl
count_all (true ∷ bs) h = ap suc (count_all bs (λ i lt. h (suc i) (omega arith)))
count_all (false ∷ bs) h = absurd (cc (h 0 (omega arith)))

pub count_true-set :
    (bs : List Bool) (i : ℕ)
    → i < length bs
    → get_or bs i false ≡ false
    → count_true (set bs i true) ≡ suc (count_true bs)
count_true-set [] i lt h = absurd (omega arith)
count_true-set (true ∷ bs) zero lt h = cc
count_true-set (false ∷ bs) zero lt h = refl
count_true-set (true ∷ bs) (suc i) lt h = ap suc (count_true-set bs i (omega arith) h)
count_true-set (false ∷ bs) (suc i) lt h = count_true-set bs i (omega arith) h

pub length-set {ℓ} : {A : Type ℓ} (xs : List A) (i : ℕ) (v : A) → length (set xs i v) ≡ length xs
length-set [] i v = refl
length-set (x ∷ xs) zero v = refl
length-set (x ∷ xs) (suc i) v = ap suc (length-set xs i v)

-- a flag that is set stays set, and only the one written is new
pub get_or-set :
    (bs : List Bool) (i j : ℕ)
    → i < length bs
    → get_or (set bs i true) j false ≡ (if i == j then true else get_or bs j false)
get_or-set [] i j lt = absurd (omega arith)
get_or-set (b ∷ bs) zero zero lt = refl
get_or-set (b ∷ bs) zero (suc j) lt = ground arith
get_or-set (b ∷ bs) (suc i) zero lt = ground arith
get_or-set (b ∷ bs) (suc i) (suc j) lt = ground (arith, get_or-set bs i j)

pub get_elem?-set_ne {ℓ} :
    {A : Type ℓ} (xs : List A) (i j : ℕ) (v : A) → i ≢ j → get_elem? (set xs i v) j ≡ get_elem? xs j
get_elem?-set_ne [] i j v h = refl
get_elem?-set_ne (x ∷ xs) zero zero v h = absurd (h refl)
get_elem?-set_ne (x ∷ xs) zero (suc j) v h = refl
get_elem?-set_ne (x ∷ xs) (suc i) zero v h = refl
get_elem?-set_ne (x ∷ xs) (suc i) (suc j) v h = get_elem?-set_ne xs i j v (λ e. h (ap suc e))

pub get_elem?-set_self {ℓ} :
    {A : Type ℓ} (xs : List A) (n : ℕ) (t u : A)
    → get_elem? xs n ≡ some t
    → get_elem? (set xs n u) n ≡ some u
get_elem?-set_self [] n t u h = cc
get_elem?-set_self (x ∷ xs) zero t u h = refl
get_elem?-set_self (x ∷ xs) (suc n) t u h = get_elem?-set_self xs n t u h

pub get_elem?-append {ℓ} :
    {A : Type ℓ} (xs ys : List A) (n : ℕ) (t : A)
    → get_elem? xs n ≡ some t
    → get_elem? (xs ++ ys) n ≡ some t
get_elem?-append [] ys n t h = cc
get_elem?-append (x ∷ xs) ys zero t h = h
get_elem?-append (x ∷ xs) ys (suc n) t h = get_elem?-append xs ys n t h

-- the item behind the end
pub get_elem?-push {ℓ} :
    {A : Type ℓ} (xs : List A) (x : A) → get_elem? (xs ++ x ∷ []) (length xs) ≡ some x
get_elem?-push [] x = refl
get_elem?-push (y ∷ xs) x = get_elem?-push xs x

-- and no other
pub get_elem?-push_cases {ℓ} :
    {A : Type ℓ} (xs : List A) (x : A) (n : ℕ) (y : A)
    → get_elem? (xs ++ x ∷ []) n ≡ some y
    → (get_elem? xs n ≡ some y) ⊎ (x ≡ y)
get_elem?-push_cases [] x zero y h = inr (ground arith)
get_elem?-push_cases [] x (suc n) y h = cc
get_elem?-push_cases (z ∷ xs) x zero y h = inl h
get_elem?-push_cases (z ∷ xs) x (suc n) y h = get_elem?-push_cases xs x n y h

-- every item of the list after an item is replaced
pub get_elem?-set_cases {ℓ} :
    {A : Type ℓ} (xs : List A) (i n : ℕ) (t u y : A)
    → get_elem? xs i ≡ some t
    → get_elem? (set xs i u) n ≡ some y
    → (get_elem? xs n ≡ some y) ⊎ (u ≡ y)
get_elem?-set_cases [] i n t u y h g = cc
get_elem?-set_cases (x ∷ xs) zero zero t u y h g = inr (ground arith)
get_elem?-set_cases (x ∷ xs) zero (suc n) t u y h g = inl g
get_elem?-set_cases (x ∷ xs) (suc i) zero t u y h g = inl g
get_elem?-set_cases (x ∷ xs) (suc i) (suc n) t u y h g = get_elem?-set_cases xs i n t u y h g

-- there is no item behind the end
pub get_elem?-length {ℓ} : {A : Type ℓ} (xs : List A) → get_elem? xs (length xs) ≡ none
get_elem?-length [] = refl
get_elem?-length (x ∷ xs) = get_elem?-length xs
