-- ===== src/Client/Link/Errors.antt =====
-- The texts of the errors of the link, as `format!("{e:#}")` gives them, and `is_dead_pipe_err` of
-- rushtle/src/client.rs. `eof_text` is the text of tokio's own `UnexpectedEof` error.
use kubectl_sshuttle.Base.{
  ℕ, ◌+◌, ◌-◌, ◌/◌, ◌%◌, ◌≡◌, refl, sym, ap, ◌∙◌, Bool, true, ◌||◌, some, List, [], ◌∷◌, ◌++◌,
  append_assoc, arith, ltb, if◌then◌else◌, length, codes, Error,
}
use kubectl_sshuttle.Text.Utf8.{Str}
use kubectl_sshuttle.Text.Slices.{contains, find, starts_with, strip_prefix, is_some}
use kubectl_sshuttle.Text.Numbers.{to_string}
use kubectl_sshuttle.Ssnet.Frame.{max_payload}

hex_digit : ℕ → ℕ
hex_digit n = if ltb n 10 then b'0' + n else b'a' + (n - 10)

-- `{:02x}` of a byte
hex : ℕ → Str
unfolding hex_digit
hex b = hex_digit (b / 16) ∷ hex_digit (b % 16) ∷ []

comma_separated : List ℕ → Str
comma_separated [] = []
comma_separated (n ∷ []) = to_string n
comma_separated (n ∷ m ∷ ns) = to_string n ++ (codes ", " ++ comma_separated (m ∷ ns))

-- `{:?}` of a vector of numbers
debug : List ℕ → Str
unfolding comma_separated
debug ns = codes "[" ++ (comma_separated ns ++ codes "]")

module _ (eof_text : Str) where
  unfoldable pub display : Error → Str
  unfolding hex debug
  display Error.early_eof = eof_text
  display Error.probe_eof = codes "EOF on remote stdout during probe"
  display (Error.io t) = t
  display (Error.sync_mismatch buf) = codes "sync header mismatch: " ++ debug buf
  display (Error.message t) = t
  display (Error.bad_magic a b) = codes "bad magic: " ++ (hex a ++ hex b)
  display (Error.too_long n) =
      codes "payload "
      ++ (to_string n ++ (codes " exceeds " ++ (to_string max_payload ++ codes " max")))
  display (Error.probe_mismatch idx got wanted) =
      codes "probe PONG #"
      ++ (to_string idx
          ++ (codes " payload mismatch ("
              ++ (to_string got
                  ++ (codes " bytes received, " ++ (to_string wanted ++ codes " expected)")))))
  display (Error.probe_timeout lost total) =
      codes "probe timeout after 3s, lost "
      ++ (to_string (length lost)
          ++ (codes "/"
              ++ (to_string total ++ (codes " PONGs (idx " ++ (debug lost ++ codes ")")))))
  display (Error.context c e) = c ++ (codes ": " ++ display e)

  unfoldable pub is_dead_pipe_err : Error → Bool
  unfolding display
  is_dead_pipe_err e =
      let s = display e in
      contains (codes "Broken pipe") s
      || contains (codes "os error 32") s
      || contains (codes "EOF on remote stdout") s
      || contains (codes "UnexpectedEof") s
      || contains (codes "unexpected end of file") s

strip_prefix-append : (p s : Str) → strip_prefix p (p ++ s) ≡ some s
unfolding strip_prefix
strip_prefix-append [] s = refl
strip_prefix-append (c ∷ p) s = ground (arith, strip_prefix-append p s)

find_here : (p t : Str) → starts_with p t ≡ true → is_some (find p t) ≡ true
unfolding find
find_here p [] h = rw h
find_here p (c ∷ t) h = rw h

find_later : (p t : Str) (c : ℕ) → is_some (find p t) ≡ true → is_some (find p (c ∷ t)) ≡ true
unfolding find
find_later p t c h = ground (arith, h)

-- A text is found wherever it stands.
pub contains-append : (p a s : Str) → contains p (a ++ (p ++ s)) ≡ true
unfolding contains starts_with
contains-append p [] s = find_here p (p ++ s) (rw (strip_prefix-append p s))
contains-append p (c ∷ a) s = find_later p (a ++ (p ++ s)) c (contains-append p a s)

-- An end of the pipe during the probe is a dead pipe, with any context in front.
pub is_dead_pipe_err_eof :
    (eof_text c : Str) → is_dead_pipe_err eof_text (Error.context c Error.probe_eof) ≡ true
unfolding is_dead_pipe_err
is_dead_pipe_err_eof eof_text c = rw (or_third _ _ _ _ _ (contains_eof c))
  where
    or_third : (a b d e f : Bool) → d ≡ true → (a || b || d || e || f) ≡ true
    or_third a b d e f h = ground arith

    contains_eof :
        (c : Str)
        → contains
            (codes "EOF on remote stdout")
            (c ++ (codes ": " ++ codes "EOF on remote stdout during probe"))
          ≡ true
    contains_eof c =
        ap (contains (codes "EOF on remote stdout")) (sym (append_assoc c (codes ": ") _))
        ∙ contains-append (codes "EOF on remote stdout") (c ++ codes ": ") (codes " during probe")
