-- ===== src/Stream.antt =====
-- What the program uses of tokio's byte streams. An input is the bytes that arrive on a pipe and
-- what comes behind them; an output is the bytes sent so far and how many more the pipe takes.
use kubectl_sshuttle.Base.{
  ℕ, ◌-◌, ◌≡◌, refl, Option, none, some, List, [], ◌++◌, arith, leb, if◌then◌else◌, length,
  length-take, take-append-drop, ◌≢◌, take, drop, length-append, take-append, drop-append, Error,
  early_eof, io, Result, ok, err,
}
use kubectl_sshuttle.Text.Utf8.{Bytes, Str}

-- behind the last byte: the pipe is closed, a read fails, or nothing more arrives
pub data Ending : Type 0 where
  closed silent : Ending
  fails : Str → Ending

pub record Input : Type 0 where
  pub bytes : Bytes
  pub ending : Ending

abbrev pub input : Bytes → Ending → Input
input bytes ending = record { bytes = bytes; ending = ending }

-- how an awaited operation ends: with a value, with an error, or not at all
pub data Outcome {ℓ} (A : Type ℓ) : Type ℓ where
  done : A → Outcome A
  failed : Error → Outcome A
  pending : Outcome A

abbrev pub Reading : Type 0 → Type 0
Reading A = Input → Outcome A × Input

abbrev pub of_result : {A : Type 0} → Result Error A → Reading A
of_result (ok a) i = (done a, i)
of_result (err e) i = (failed e, i)

abbrev pub and_then : {A B : Type 0} → Outcome A × Input → (A → Reading B) → Outcome B × Input
and_then (done a, i) f = f a i
and_then (failed e, i) f = (failed e, i)
and_then (pending, i) f = (pending, i)

infixl 5 ◌>>=◌ ◌>>◌
abbrev pub ◌>>=◌ : {A B : Type 0} → Reading A → (A → Reading B) → Reading B
◌>>=◌ m f i = and_then (m i) f

abbrev pub ◌>>◌ : {B : Type 0} → Reading (Unit {0}) → Reading B → Reading B
m >> k = m >>= λ _. k

abbrev pub pure : {A : Type 0} → A → Reading A
pure a i = (done a, i)

abbrev pub fail : {A : Type 0} → Error → Reading A
fail e i = (failed e, i)

-- what a read gives that the bytes do not satisfy
pub starved : Ending → Outcome Bytes
starved closed = failed early_eof
starved silent = pending
starved (fails e) = failed (io e)

-- `read_exact` of `n` bytes: it takes what there is also when that is too little
unfoldable pub read_exact : ℕ → Reading Bytes
unfolding starved
read_exact n i =
    if leb n (length i.bytes)
    then (done (take n i.bytes), record i { bytes = drop n i.bytes })
    else (starved i.ending, record i { bytes = [] })

pub read_exact-append :
    (n : ℕ) (xs ys : Bytes) (e : Ending)
    → length xs ≡ n
    → read_exact n (record { bytes = xs ++ ys; ending = e })
      ≡ (done xs, record { bytes = ys; ending = e })
unfolding read_exact
read_exact-append n xs ys e h =
    rw (← h) (ground (arith, length-append xs ys, take-append xs ys, drop-append xs ys))

-- `room` is how many bytes the pipe still takes before a write fails with `fault`
pub record Output : Type 0 where
  pub sent : Bytes
  pub room : Option ℕ
  pub fault : Str
  -- the inter-frame sleeps, in microseconds
  pub sleeps : List ℕ

unfoldable pub write_all : Bytes → Output → Result Error (Unit {0}) × Output
write_all bs o = elim (o.room) [
  | none ↦ (ok tt, record o { sent = o.sent ++ bs })
  | some k ↦
      if leb (length bs) k
      then (ok tt, record o { sent = o.sent ++ bs; room = some (k - length bs) })
      else (err (io o.fault), record o { sent = o.sent ++ take k bs; room = some 0 })
]

starved-ne-done : (e : Ending) (xs : Bytes) → starved e ≢ done xs
unfolding starved
starved-ne-done closed xs = λ h. cc
starved-ne-done silent xs = λ h. cc
starved-ne-done (fails t) xs = λ h. cc

-- What a read gives is what the input began with.
pub read_exact_sound :
    (n : ℕ) (i j : Input) (xs : Bytes)
    → read_exact n i ≡ (done xs, j)
    → (length xs ≡ n) × (i.bytes ≡ xs ++ j.bytes) × (j.ending ≡ i.ending)
unfolding read_exact
read_exact_sound n i j xs h =
    ground (arith, starved-ne-done i.ending xs, take-append-drop n i.bytes, length-take n i.bytes)

-- A chain of reads that ends with a value had a value at its first step.
pub and_then-eq-done :
    {A B : Type 0} (r : Outcome A × Input) (f : A → Reading B) {b : B} {j : Input}
    → and_then r f ≡ (done b, j)
    → (a : A) × (k : Input) × (r ≡ (done a, k)) × (f a k ≡ (done b, j))
and_then-eq-done (done a, i) f h = (a, i, refl, h)
and_then-eq-done (failed e, i) f h = cc
and_then-eq-done (pending, i) f h = cc
