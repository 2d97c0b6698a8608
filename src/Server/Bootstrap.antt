-- ===== src/Server/Bootstrap.antt =====
-- rushtle/src/server.rs, `consume_sshuttle_bootstrap`: the module records that stock sshuttle sends.
pub mod Records
use kubectl_sshuttle.Base.{
  ℕ, zero, suc, ◌+◌, ◌-◌, ◌%◌, ◌^◌, ◌≤◌, ◌<◌, ◌≡◌, ◌≢◌, refl, sym, ap, ◌∙◌, Bool, true, false, ◌||◌,
  Option, none, some, List, [], ◌∷◌, ◌++◌, append_assoc, arith, length, length-append, ◌==◌,
  if◌then◌else◌, codes, All, Lacks, Error, early_eof,
}
use kubectl_sshuttle.Text.Utf8.{Bytes, Str, from_utf8, to_utf8, from_utf8-to_utf8, IsScalar}
use kubectl_sshuttle.Text.Slices.{trim, trim_end_matches}
use kubectl_sshuttle.Text.Numbers.{parse_uint, to_string}
use kubectl_sshuttle.Stream.{Input, input, Ending, Outcome, done, failed, pending, read_exact}

abbrev pub usize_max : ℕ
usize_max = 2 ^ 64 - 1

-- how the bootstrap ends: with the rest of the input, the number of modules and their bytes; or
-- with an error; or it waits for more input; or its fuel is used up
pub data Boot : Type 0 where
  ready : Input → ℕ → ℕ → Boot
  eof_at_name not_text waiting out_of_fuel : Boot
  eof_after_name bad_nbytes : Str → Boot
  broken : Error → Boot

-- a line with its line feed, if it has one, and what is left
pub cut_line : Bytes → Bytes × Option Bytes
cut_line [] = ([], none)
cut_line (b ∷ bs) =
    let (line, rest) = cut_line bs in if b == 10 then (b ∷ [], some bs) else (b ∷ line, rest)

-- `read_line`: its text, and the input behind it; at the end of the input a line may lack its feed
pub data Line : Type 0 where
  line : Str → Input → Line
  stopped : Boot → Line

pub of_text : Option Str → Input → Line
of_text none i = stopped not_text
of_text (some s) i = line s i

pub line_at_end : Bytes → Ending → Line
unfolding of_text
line_at_end bytes Ending.closed = of_text (from_utf8 bytes) (input [] Ending.closed)
line_at_end bytes Ending.silent = stopped waiting
line_at_end bytes (Ending.fails t) = stopped (broken (Error.io t))

pub finish_line : Ending → Bytes × Option Bytes → Line
unfolding of_text line_at_end
finish_line e (bytes, some rest) = of_text (from_utf8 bytes) (input rest e)
finish_line e (bytes, none) = line_at_end bytes e

pub read_line : Input → Line
unfolding finish_line cut_line
read_line i = finish_line i.ending (cut_line i.bytes)

is_line_end : ℕ → Bool
is_line_end c = c == 13 || c == 10

-- `trim_end_matches(&['\r', '\n'][..])`
pub module_name : Str → Str
unfolding is_line_end
module_name = trim_end_matches is_line_end

-- the module's bytes are thrown away; the counters are a u32 and a u64
pub skip_body : Outcome Bytes × Input → ℕ → ℕ → ℕ → (ℕ → ℕ → Input → Boot) → Boot
skip_body (done body, i) nbytes modules total rest =
    rest ((modules + 1) % 2 ^ 32) ((total + nbytes) % 2 ^ 64) i
skip_body (failed e, i) nbytes modules total rest = broken e
skip_body (pending, i) nbytes modules total rest = waiting

pub on_nbytes : Str → Option ℕ → Input → ℕ → ℕ → (ℕ → ℕ → Input → Boot) → Boot
unfolding skip_body
on_nbytes name none i modules total rest = bad_nbytes name
on_nbytes name (some nbytes) i modules total rest =
    skip_body (read_exact nbytes i) nbytes modules total rest

pub on_size_line : Str → Line → ℕ → ℕ → (ℕ → ℕ → Input → Boot) → Boot
unfolding on_nbytes
on_size_line name (stopped b) modules total rest = b
on_size_line name (line [] i) modules total rest = eof_after_name name
on_size_line name (line (c ∷ s) i) modules total rest =
    on_nbytes name (parse_uint usize_max (trim (c ∷ s))) i modules total rest

pub on_name : Str → Input → ℕ → ℕ → (ℕ → ℕ → Input → Boot) → Boot
unfolding on_size_line
on_name [] i modules total rest = ready i modules total
on_name (c ∷ name) i modules total rest = on_size_line (c ∷ name) (read_line i) modules total rest

-- `n == 0`: an empty line is the end of the input
pub on_name_line : Line → ℕ → ℕ → (ℕ → ℕ → Input → Boot) → Boot
unfolding on_name module_name
on_name_line (stopped b) modules total rest = b
on_name_line (line [] i) modules total rest = eof_at_name
on_name_line (line (c ∷ s) i) modules total rest =
    on_name (module_name (c ∷ s)) i modules total rest

-- `loop`, on fuel, with the two counters
unfoldable pub consume : ℕ → ℕ → ℕ → Input → Boot
unfolding on_name_line read_line
consume zero modules total i = out_of_fuel
consume (suc fuel) modules total i = on_name_line (read_line i) modules total (consume fuel)

unfoldable pub consume_sshuttle_bootstrap : Input → Boot
unfolding consume
consume_sshuttle_bootstrap i = consume (suc (length i.bytes)) 0 0 i

two_modules :
    consume_sshuttle_bootstrap (input (codes "a\n3\nxyzb.c\n0\n\nSS") Ending.closed)
    ≡ ready (input (codes "SS") Ending.closed) 2 3
unfolding consume_sshuttle_bootstrap from_utf8 parse_uint trim trim_end_matches read_exact
two_modules = refl
