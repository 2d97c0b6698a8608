-- ===== src/Shim.antt =====
-- rushtle/src/main.rs, `parse_assembler_bytes`: the byte count in sshuttle's python command.
pub mod Launch
pub mod Sessions
use kubectl_sshuttle.Base.{
  ℕ, ◌+◌, ◌^◌, ◌-◌, ◌≤◌, ◌≡◌, Option, none, some, ◌∷◌, ◌++◌, arith, length, take, drop, take-append,
  drop-append_add, codes, Lacks,
}
use kubectl_sshuttle.Text.Utf8.{Str}
use kubectl_sshuttle.Text.Slices.{find, trim}
use kubectl_sshuttle.Text.Numbers.{parse_uint, to_string, to_string-IsDigit, parse_uint-to_string}
use kubectl_sshuttle.Text.Laws.{trim_digits, digits-Lacks, find_first, find_char_at}

abbrev pub u64_max : ℕ
u64_max = 2 ^ 64 - 1

abbrev pub marker : Str
marker = codes "stdin.read("

or_zero : Option ℕ → ℕ
or_zero none = 0
or_zero (some n) = n

-- the number in front of the first closing bracket
pub number_before : Str → Option ℕ → ℕ
unfolding or_zero
number_before tail none = 0
number_before tail (some end) = or_zero (parse_uint u64_max (trim (take end tail)))

pub number_behind : Str → Option ℕ → ℕ
unfolding number_before
number_behind pyscript none = 0
number_behind pyscript (some start) =
    let tail = drop (start + length marker) pyscript in number_before tail (find (codes ")") tail)

unfoldable pub parse_assembler_bytes : Str → ℕ
unfolding number_behind
parse_assembler_bytes pyscript = number_behind pyscript (find marker pyscript)

-- The count is read out of the command that sshuttle sends: any text around the marker, if there is
-- no other marker before it.
pub parse_assembler_bytes-marker :
    (before after : Str) (n : ℕ)
    → find marker (before ++ marker) ≡ some (length before)
    → n ≤ u64_max
    → parse_assembler_bytes (before ++ (marker ++ (to_string n ++ (b')' ∷ after)))) ≡ n
unfolding parse_assembler_bytes
parse_assembler_bytes-marker before after n first h =
    let tail = to_string n ++ (b')' ∷ after) in
    let digits = to_string-IsDigit n in
    rw (
      find_first b's' (codes "tdin.read(") before tail first,
      drop-append_add before (marker ++ tail) (length marker),
      find_char_at b')' (to_string n) after (digits-Lacks b')' (to_string n) (omega arith) digits),
      take-append (to_string n) (b')' ∷ after),
      trim_digits (to_string n) digits,
      parse_uint-to_string u64_max n h,
    )
