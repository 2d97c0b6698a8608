-- ===== src/Base/Results.antt =====
-- Errors as values, and the result type with its `do`.
use Prim.Native.Nat.{ℕ}
use mathlib.Core.List.{List}
use mathlib.Core.Option.{Option, none, some}

-- The errors of a pipe and its frames. `io` carries the text of an operating system error,
-- `early_eof` is the `UnexpectedEof` of `read_exact`, `message` is a text of the program's own, and
-- `context` is what `with_context` puts in front.
pub data Error : Type 0 where
  early_eof probe_eof : Error
  io sync_mismatch message : List ℕ → Error
  bad_magic : ℕ → ℕ → Error
  too_long : ℕ → Error
  probe_mismatch : ℕ → ℕ → ℕ → Error
  probe_timeout : List ℕ → ℕ → Error
  context : List ℕ → Error → Error

-- the errors of a payload
pub data ParseError : Type 0 where
  not_utf8 bad_int few_commas : ParseError
  bad_connect : List ℕ → ParseError

pub data Result {ℓ} (E : Type 0) (A : Type ℓ) : Type ℓ where
  ok : A → Result E A
  err : E → Result E A

infixl 5 ◌>>=◌
abbrev pub ◌>>=◌ {ℓ κ} :
    {E : Type 0} {A : Type ℓ} {B : Type κ} → Result E A → (A → Result E B) → Result E B
ok a >>= f = f a
err e >>= f = err e

abbrev pub or_fail {ℓ} : {E : Type 0} {A : Type ℓ} → Option A → E → Result E A
or_fail none e = err e
or_fail (some a) e = ok a
