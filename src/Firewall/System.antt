-- ===== src/Firewall/System.antt =====
-- What the firewall code uses of the operating system: it runs programs, one after the other, and
-- reads files. A program changes a state that the code does not see.
use kubectl_sshuttle.Base.{ℕ, Bool, Option, List, [], ◌∷◌, Result, ok, err}
use kubectl_sshuttle.Text.Utf8.{Str}

-- How a run of a program ends: it did not start, or it has an exit status, 0 for success.
pub data Exit : Type 0 where
  not_started : Str → Exit
  exited : ℕ → Exit

-- The parameters of the model: `exec quiet program arguments`, where `quiet` throws the program's
-- standard error away; `is_root` is `geteuid() == 0`.
pub record System : Type 1 where
  pub State : Type 0
  pub is_root : Bool
  pub exec : Bool → Str → List Str → State → Exit × State
  pub read_file : Str → Option Str

-- the errors of a command, with the program's name and arguments
pub data CmdError : Type 0 where
  exec_failed : Str → List Str → Str → CmdError
  bad_status : Str → List Str → ℕ → CmdError

-- code that runs programs and may fail
abbrev pub Run : Type 0 → Type 0 → Type 0
Run T A = T → Result CmdError A × T

abbrev pub pure : {T A : Type 0} → A → Run T A
pure a s = (ok a, s)

abbrev pub bind_result :
    {T A B : Type 0} → Result CmdError A × T → (A → Run T B) → Result CmdError B × T
bind_result (ok a, s) f = f a s
bind_result (err e, s) f = (err e, s)

infixl 5 ◌>>=◌ ◌>>◌
abbrev pub ◌>>=◌ : {T A B : Type 0} → Run T A → (A → Run T B) → Run T B
◌>>=◌ m f s = bind_result (m s) f

abbrev pub ◌>>◌ : {T B : Type 0} → Run T (Unit {0}) → Run T B → Run T B
m >> k = m >>= λ _. k

-- the second command where the first fails, its error thrown away
abbrev pub retry_result : {T A : Type 0} → Result CmdError A × T → Run T A → Result CmdError A × T
retry_result (ok a, s) k = (ok a, s)
retry_result (err e, s) k = k s

abbrev pub or_else : {T A : Type 0} → Run T A → Run T A → Run T A
or_else m k s = retry_result (m s) k

-- `let _ = …`: whatever the outcome
abbrev pub ignored : {T A : Type 0} → Result CmdError A × T → Result CmdError (Unit {0}) × T
ignored (r, s) = (ok tt, s)

abbrev pub ignore : {T A : Type 0} → Run T A → Run T (Unit {0})
ignore m s = ignored (m s)

-- `for x in xs { f(x)?; }`
unfoldable pub for_each {ℓ} :
    {A : Type ℓ} {T : Type 0} → List A → (A → Run T (Unit {0})) → Run T (Unit {0})
for_each [] f = pure tt
for_each (x ∷ xs) f = f x >> for_each xs f
