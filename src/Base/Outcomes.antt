-- ===== src/Base/Outcomes.antt =====
-- What holds of the state that a step leads to, if it can happen.
use mathlib.Core.Path.{◌≡◌, refl}
use mathlib.Core.Bool.{Bool, true, false}
use mathlib.Core.Option.{Option, none, some}
use kubectl_sshuttle.Base.Tests.{if◌then◌else◌}

module _ {A : Type 0} where
  abbrev pub After : (A → Type 0) → Option A → Type 0
  After P none = Unit
  After P (some d) = P d

  pub After-if :
      (P : A → Type 0) (b : Bool) (o : Option A) → After P o → After P (if b then o else none)
  After-if P true o h = h
  After-if P false o h = tt

  pub After-unless :
      (P : A → Type 0) (b : Bool) (o : Option A) → After P o → After P (if b then none else o)
  After-unless P true o h = tt
  After-unless P false o h = h

  pub After-either :
      (P : A → Type 0) (b : Bool) (o p : Option A)
      → After P o
      → After P p
      → After P (if b then o else p)
  After-either P true o p ho hp = ho
  After-either P false o p ho hp = hp

  -- the test's outcome is known
  pub After-when :
      (P : A → Type 0) (b : Bool) (o : Option A)
      → (b ≡ true → After P o)
      → After P (if b then o else none)
  After-when P true o h = h refl
  After-when P false o h = tt

  pub After-clear :
      (P : A → Type 0) (b : Bool) (o : Option A)
      → (b ≡ false → After P o)
      → After P (if b then none else o)
  After-clear P true o h = tt
  After-clear P false o h = h refl
