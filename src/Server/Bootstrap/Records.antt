-- ===== src/Server/Bootstrap/Records.antt =====
-- rushtle/src/server.rs, `consume_sshuttle_bootstrap` on the records of sshuttle's assembler protocol.
use kubectl_sshuttle.Base.{
  ℕ, zero, suc, ◌+◌, ◌%◌, ◌^◌, ◌≤◌, ◌<◌, ◌≡◌, ◌≢◌, refl, sym, ap, ◌∙◌, false, some, List, [], ◌∷◌,
  ◌++◌, arith, length, length-append, All, All-append, Lacks, inl,
}
use mathlib.Core.Path.{ap₂}
use kubectl_sshuttle.Text.Utf8.{Bytes, Str, from_utf8, to_utf8, from_utf8-to_utf8, IsScalar}
use kubectl_sshuttle.Text.Slices.{trim, trim_end_matches}
use kubectl_sshuttle.Text.Numbers.{
  parse_uint, to_string, to_string-IsDigit, to_string-ne-nil, parse_uint-to_string,
}
use kubectl_sshuttle.Text.Laws.{
  to_utf8-append, to_utf8_ascii, to_utf8-Lacks, digits-IsScalar, digits-Lacks, trim_end_drop,
  trim_end-Keeps, trim_digits_lf, append-ne-nil,
}
use kubectl_sshuttle.Stream.{Input, input, Ending, read_exact-append}
use kubectl_sshuttle.Server.Bootstrap.{
  usize_max, Boot, ready, line, cut_line, finish_line, of_text, read_line, module_name, is_line_end,
  skip_body, on_nbytes, on_size_line, on_name, on_name_line, consume, consume_sshuttle_bootstrap,
}

pub record Module : Type 0 where
  pub name : Str
  pub body : Bytes

pub record IsModule (m : Module) : Type 0 where
  pub named : m.name ≢ []
  pub scalars : All IsScalar m.name
  pub one_line : Lacks 10 m.name
  pub no_return : Lacks 13 m.name
  pub sized : length m.body ≤ usize_max

-- one record: the name's line, the size's line, the bytes
abbrev pub record_of : Module → Bytes → Bytes
record_of m rest =
    to_utf8 m.name ++ (10 ∷ (to_utf8 (to_string (length m.body)) ++ (10 ∷ (m.body ++ rest))))

-- the records, and the empty name that ends them
abbrev pub bootstrap : List Module → Bytes → Bytes
bootstrap [] rest = 10 ∷ rest
bootstrap (m ∷ ms) rest = record_of m (bootstrap ms rest)

abbrev pub total_bytes : List Module → ℕ
total_bytes [] = 0
total_bytes (m ∷ ms) = length m.body + total_bytes ms

cut_line-append :
    (xs ys : Bytes) → Lacks 10 xs → cut_line (xs ++ (10 ∷ ys)) ≡ (xs ++ 10 ∷ [], some ys)
unfolding cut_line
cut_line-append [] ys h = refl
cut_line-append (x ∷ xs) ys (hx, h) = ground (arith, cut_line-append xs ys h)

read_line-append :
    (s : Str) (rest : Bytes) (e : Ending)
    → All IsScalar s
    → Lacks 10 s
    → read_line (input (to_utf8 s ++ (10 ∷ rest)) e) ≡ line (s ++ 10 ∷ []) (input rest e)
unfolding read_line finish_line of_text
read_line-append s rest e v h =
    rw (cut_line-append (to_utf8 s) rest (to_utf8-Lacks 10 s (omega arith) h), whole)
  where
    whole : from_utf8 (to_utf8 s ++ 10 ∷ []) ≡ some (s ++ 10 ∷ [])
    whole =
        ap from_utf8 (
          ap (λ t. to_utf8 s ++ t) (sym (to_utf8_ascii (10 ∷ []) (omega arith, tt)))
          ∙ sym (to_utf8-append s (10 ∷ [])))
        ∙ from_utf8-to_utf8 (s ++ 10 ∷ [])
            (All-append IsScalar s (10 ∷ []) v (inl (omega arith), tt))

line_end_kept : (c : ℕ) → c ≢ 10 → c ≢ 13 → is_line_end c ≡ false
unfolding is_line_end
line_end_kept c h k = ground arith

All-line : (s : Str) → Lacks 10 s → Lacks 13 s → All (λ c. is_line_end c ≡ false) s
All-line [] h k = tt
All-line (c ∷ s) (hc, h) (kc, k) = (line_end_kept c hc kc, All-line s h k)

module_name-lf : (s : Str) → Lacks 10 s → Lacks 13 s → module_name (s ++ 10 ∷ []) ≡ s
unfolding module_name is_line_end
module_name-lf s h k =
    trim_end_drop _ s 10 refl ∙ trim_end-Keeps _ s (unfold is_line_end in All-line s h k)

on_size_line_cons :
    (name s : Str) (i : Input) (modules total : ℕ) (rest : ℕ → ℕ → Input → Boot)
    → s ≢ []
    → on_size_line name (line s i) modules total rest
      ≡ on_nbytes name (parse_uint usize_max (trim s)) i modules total rest
unfolding on_size_line
on_size_line_cons name [] i modules total rest h = absurd (h refl)
on_size_line_cons name (c ∷ s) i modules total rest h = refl

on_name_line_cons :
    (s : Str) (i : Input) (modules total : ℕ) (rest : ℕ → ℕ → Input → Boot)
    → s ≢ []
    → on_name_line (line s i) modules total rest ≡ on_name (module_name s) i modules total rest
unfolding on_name_line
on_name_line_cons [] i modules total rest h = absurd (h refl)
on_name_line_cons (c ∷ s) i modules total rest h = refl

on_name_cons :
    (s : Str) (i : Input) (modules total : ℕ) (rest : ℕ → ℕ → Input → Boot)
    → s ≢ []
    → on_name s i modules total rest ≡ on_size_line s (read_line i) modules total rest
unfolding on_name
on_name_cons [] i modules total rest h = absurd (h refl)
on_name_cons (c ∷ s) i modules total rest h = refl

-- one record is one round of the loop
consume_record :
    (fuel modules total : ℕ) (m : Module) (rest : Bytes) (e : Ending)
    → IsModule m
    → consume (suc fuel) modules total (input (record_of m rest) e)
      ≡ consume fuel ((modules + 1) % 2 ^ 32) ((total + length m.body) % 2 ^ 64) (input rest e)
unfolding consume
consume_record fuel modules total m rest e v =
    let size = to_string (length m.body) in
    let digits = to_string-IsDigit (length m.body) in
    let ne = to_string-ne-nil (length m.body) in
    rw (
      read_line-append m.name (to_utf8 size ++ (10 ∷ (m.body ++ rest))) e v.scalars v.one_line,
      on_name_line_cons (m.name ++ 10 ∷ []) _ modules total (consume fuel)
          (append-ne-nil m.name (10 ∷ []) v.named),
      module_name-lf m.name v.one_line v.no_return,
      on_name_cons m.name _ modules total (consume fuel) v.named,
      read_line-append size (m.body ++ rest) e (digits-IsScalar size digits)
          (digits-Lacks 10 size (omega arith) digits),
      on_size_line_cons m.name (size ++ 10 ∷ []) _ modules total (consume fuel)
          (append-ne-nil size (10 ∷ []) ne),
      trim_digits_lf size ne digits,
      parse_uint-to_string usize_max (length m.body) v.sized,
      on_nbytes,
      read_exact-append (length m.body) m.body rest e refl,
      skip_body,
    )

-- the empty name
consume_end :
    (fuel modules total : ℕ) (rest : Bytes) (e : Ending)
    → consume (suc fuel) modules total (input (10 ∷ rest) e) ≡ ready (input rest e) modules total
unfolding consume from_utf8 trim_end_matches
consume_end fuel modules total rest e = refl

consume-bootstrap :
    (fuel modules total : ℕ) (ms : List Module) (rest : Bytes) (e : Ending)
    → length ms < fuel
    → All IsModule ms
    → modules < 2 ^ 32
    → total < 2 ^ 64
    → consume fuel modules total (input (bootstrap ms rest) e)
      ≡ ready (input rest e) ((modules + length ms) % 2 ^ 32) ((total + total_bytes ms) % 2 ^ 64)
consume-bootstrap zero modules total ms rest e lt v hm ht = absurd (omega arith)
consume-bootstrap (suc fuel) modules total [] rest e lt v hm ht =
    consume_end fuel modules total rest e ∙ ap₂ (ready (input rest e)) (omega arith) (omega arith)
consume-bootstrap (suc fuel) modules total (m ∷ ms) rest e lt (vm, v) hm ht =
    consume_record fuel modules total m (bootstrap ms rest) e vm
    ∙ consume-bootstrap fuel ((modules + 1) % 2 ^ 32) ((total + length m.body) % 2 ^ 64) ms rest e
        (omega arith) v (omega arith) (omega arith)
    ∙ ap₂ (ready (input rest e)) (omega arith) (omega arith)

length-bootstrap : (ms : List Module) (rest : Bytes) → length ms < length (bootstrap ms rest)
length-bootstrap [] rest = omega arith
length-bootstrap (m ∷ ms) rest =
    let size = to_utf8 (to_string (length m.body)) in
    omega (
      arith,
      length-bootstrap ms rest,
      length-append (to_utf8 m.name) (10 ∷ (size ++ (10 ∷ (m.body ++ bootstrap ms rest)))),
      length-append size (10 ∷ (m.body ++ bootstrap ms rest)),
      length-append m.body (bootstrap ms rest),
    )

-- The bootstrap of any modules is consumed exactly: what follows the empty name is left for the
-- frames, and the counters tell the modules and their bytes, modulo 2^32 and 2^64.
pub consume_bootstrap_complete :
    (ms : List Module) (rest : Bytes) (e : Ending)
    → All IsModule ms
    → consume_sshuttle_bootstrap (input (bootstrap ms rest) e)
      ≡ ready (input rest e) (length ms % 2 ^ 32) (total_bytes ms % 2 ^ 64)
unfolding consume_sshuttle_bootstrap
consume_bootstrap_complete ms rest e v =
    consume-bootstrap (suc (length (bootstrap ms rest))) 0 0 ms rest e
      (omega (arith, length-bootstrap ms rest)) v (omega arith) (omega arith)
    ∙ ap₂ (ready (input rest e)) (omega arith) (omega arith)
