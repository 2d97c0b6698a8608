-- ===== src/Ssnet/Sync.antt =====
-- rushtle/src/ssnet.rs, `read_sync_header`: what the client skips before the first frame.
use kubectl_sshuttle.Base.{
  ◌≡◌, refl, ap, [], ◌∷◌, ◌++◌, arith, ◌==◌, if◌then◌else◌, same, eq_of_same, length, codes, Lacks,
  Error, inl, inr, Bool-cases, ==_iff,
}
use kubectl_sshuttle.Text.Utf8.{Bytes}
use kubectl_sshuttle.Stream.{
  Input, input, Ending, Outcome, done, failed, pending, Reading, ◌>>=◌, ◌>>◌, pure, fail,
  read_exact, read_exact-append, read_exact_sound, and_then-eq-done,
}

abbrev pub expected : Bytes
expected = codes "SSHUTTLE0001"

-- one byte at a time up to a NUL; without one the read ends as the pipe does
skip_bytes : Bytes → Ending → Outcome (Unit {0}) × Input
skip_bytes [] Ending.closed = (failed Error.early_eof, input [] Ending.closed)
skip_bytes [] Ending.silent = (pending, input [] Ending.silent)
skip_bytes [] (Ending.fails t) = (failed (Error.io t), input [] (Ending.fails t))
skip_bytes (b ∷ bs) e = if b == 0 then (done tt, input bs e) else skip_bytes bs e

pub skip_to_nul : Reading (Unit {0})
unfolding skip_bytes
skip_to_nul i = skip_bytes i.bytes i.ending

pub check_expected : Bytes → Reading (Unit {0})
check_expected buf = if same buf expected then pure tt else fail (Error.sync_mismatch buf)

unfoldable pub read_sync_header : Reading (Unit {0})
read_sync_header = do
  skip_to_nul
  skip_to_nul
  buf ← read_exact (length expected)
  check_expected buf

skip_to_nul-append :
    (junk rest : Bytes) (e : Ending)
    → Lacks 0 junk
    → skip_to_nul (input (junk ++ (0 ∷ rest)) e) ≡ (done tt, input rest e)
unfolding skip_to_nul
skip_to_nul-append [] rest e h = refl
skip_to_nul-append (b ∷ junk) rest e (hb, h) = ground (arith, skip_to_nul-append junk rest e h)

-- Bytes without a NUL in front of each of the two NULs are skipped, and behind the literal the
-- frames begin; with `between` empty this is the header that the server sends.
pub read_sync_header_complete :
    (junk between rest : Bytes) (e : Ending)
    → Lacks 0 junk
    → Lacks 0 between
    → read_sync_header (input (junk ++ (0 ∷ (between ++ (0 ∷ (expected ++ rest))))) e)
      ≡ (done tt, input rest e)
unfolding read_sync_header check_expected
read_sync_header_complete junk between rest e h k = rw (
  skip_to_nul-append junk (between ++ (0 ∷ (expected ++ rest))) e h,
  skip_to_nul-append between (expected ++ rest) e k,
  read_exact-append (length expected) expected rest e refl,
)

skip_bytes_sound :
    (bs : Bytes) (e : Ending) (j : Input)
    → skip_bytes bs e ≡ (done tt, j)
    → (junk : Bytes) × Lacks 0 junk × (bs ≡ junk ++ (0 ∷ j.bytes)) × (j.ending ≡ e)
unfolding skip_bytes
skip_bytes_sound [] Ending.closed j h = cc
skip_bytes_sound [] Ending.silent j h = cc
skip_bytes_sound [] (Ending.fails t) j h = cc
skip_bytes_sound (b ∷ bs) e j h = elim (Bool-cases (b == 0)) [
  | inl nul ↦
      let zero_byte = (==_iff b 0).0 nul in
      let found : ◌≡◌ {A = Outcome (Unit {0}) × Input} (done tt, input bs e) (done tt, j) =
        rw nul at h in
      ([], tt, ground arith, ground arith)
  | inr more ↦
      let (junk, lacks, used, rest) = skip_bytes_sound bs e j (rw more at h) in
      (b ∷ junk, (ground arith, lacks), ap (λ t. b ∷ t) used, rest)
]

check_expected_sound :
    (buf : Bytes) (k j : Input) → check_expected buf k ≡ (done tt, j) → (buf ≡ expected) × (k ≡ j)
unfolding check_expected
check_expected_sound buf k j h = elim (Bool-cases (same buf expected)) [
  | inl good ↦ (eq_of_same buf expected good, ground (arith, rw good at h))
  | inr bad ↦ absurd (ground (arith, bad, h))
]

-- What is skipped in front of the frames is two NULs, each behind bytes without one, and the
-- literal.
pub read_sync_header_sound :
    (i j : Input)
    → read_sync_header i ≡ (done tt, j)
    → (junk between : Bytes) × Lacks 0 junk
      × Lacks 0 between
      × (i.bytes ≡ junk ++ (0 ∷ (between ++ (0 ∷ (expected ++ j.bytes)))))
      × (j.ending ≡ i.ending)
unfolding read_sync_header skip_to_nul
read_sync_header_sound i j h =
    let (_, k₁, first, h₁) = and_then-eq-done (skip_to_nul i) _ h in
    let (_, k₂, second, h₂) = and_then-eq-done (skip_to_nul k₁) _ h₁ in
    let (buf, k₃, third, h₃) = and_then-eq-done (read_exact (length expected) k₂) _ h₂ in
    let (junk, lacks, used₁, end₁) = skip_bytes_sound i.bytes i.ending k₁ first in
    let (between, lacks', used₂, end₂) = skip_bytes_sound k₁.bytes k₁.ending k₂ second in
    let (_, used₃, end₃) = read_exact_sound (length expected) k₂ k₃ buf third in
    let (literal, last) = check_expected_sound buf k₃ j h₃ in
    (junk, between, lacks, lacks', rw (used₁, used₂, used₃, literal, last), cc)
