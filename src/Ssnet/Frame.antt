-- ===== src/Ssnet/Frame.antt =====
-- rushtle/src/ssnet.rs, frames: the header, `read_frame` and `write_frame`.
pub mod RoundTrip
pub mod Sound
pub mod Endings
use kubectl_sshuttle.Base.{
  ℕ, zero, suc, ◌+◌, ◌-◌, ◌*◌, ◌/◌, ◌%◌, ◌^◌, ◌<◌, ◌≤◌, ◌≡◌, refl, Bool, true, false, ◌&&◌, not,
  Option, none, some, List, [], ◌∷◌, ◌++◌, arith, leb, ltb, ◌==◌, if◌then◌else◌, length, All, codes,
  Error, bad_magic, too_long, early_eof, Result, ok, err, same,
}
use kubectl_sshuttle.Text.Utf8.{Bytes, Str}
use kubectl_sshuttle.Ssnet.Cmd
use kubectl_sshuttle.Stream.{
  Input, Output, Ending, Outcome, done, failed, pending, Reading, ◌>>=◌, pure, fail, read_exact,
  write_all, and_then,
}

abbrev pub hdr_len : ℕ
hdr_len = 8

abbrev pub magic : Bytes
magic = b'S' ∷ b'S' ∷ []

abbrev pub max_payload : ℕ
max_payload = 0xFFFF

abbrev pub chunk : ℕ
chunk = 768

abbrev pub sync_header : Bytes
sync_header = 0 ∷ 0 ∷ codes "SSHUTTLE0001"

abbrev pub af_inet : ℕ
af_inet = 2

abbrev pub af_inet6 : ℕ
af_inet6 = 10

-- `data` is spelled `payload`
pub record Frame : Type 0 where
  pub channel : ℕ
  pub cmd : ℕ
  pub payload : Bytes

abbrev pub frame : ℕ → ℕ → Bytes → Frame
frame channel cmd payload = record { channel = channel; cmd = cmd; payload = payload }

-- `u16::to_be_bytes` and `u16::from_be_bytes`
unfoldable pub to_be : ℕ → Bytes
to_be n = (n / 256 % 256) ∷ (n % 256) ∷ []

unfoldable pub from_be : ℕ → ℕ → ℕ
from_be hi lo = hi * 256 + lo

-- the values that the types of a frame's fields hold
pub record IsFrame (f : Frame) : Type 0 where
  pub channel_u16 : f.channel < 2 ^ 16
  pub cmd_u16 : f.cmd < 2 ^ 16
  pub payload_u8 : All (λ b. b < 256) f.payload

unfoldable pub header : Frame → Bytes
unfolding to_be
header f = magic ++ to_be f.channel ++ to_be f.cmd ++ to_be (length f.payload % 2 ^ 16)

-- the bytes of a frame on the wire
unfoldable pub encode : Frame → Bytes
encode f = header f ++ f.payload

-- the delay is the value of `FRAME_DELAY_US` when the frame is written
unfoldable pub pause : ℕ → Output → Output
pause delay o = if delay == 0 then o else record o { sleeps = o.sleeps ++ delay ∷ [] }

unfoldable pub is_empty {ℓ} : {A : Type ℓ} → List A → Bool
is_empty [] = true
is_empty (x ∷ xs) = false

abbrev pub on_ok :
    Result Error (Unit {0}) × Output
    → (Output → Result Error (Unit {0}) × Output)
    → Result Error (Unit {0}) × Output
on_ok (ok u, o) f = f o
on_ok (err e, o) f = (err e, o)

unfoldable pub write_frame : ℕ → Frame → Output → Result Error (Unit {0}) × Output
write_frame delay f o =
    if ltb max_payload (length f.payload)
    then (err (too_long (length f.payload)), o)
    else on_ok (write_all (header f) o) λ o₁.
      on_ok (if is_empty f.payload then (ok tt, o₁) else write_all f.payload o₁)
        λ o₂. (ok tt, pause delay o₂)

-- the header's fields, once its eight bytes are read
pub read_payload : ℕ → ℕ → ℕ → Reading (Option Frame)
read_payload channel cmd datalen =
    if ltb 0 datalen
    then (do bytes ← read_exact datalen; pure (some (frame channel cmd bytes)))
    else pure (some (frame channel cmd []))

-- eight bytes, as `read_exact` gives them
pub parse_header : Bytes → Reading (Option Frame)
parse_header (m₀ ∷ m₁ ∷ c₀ ∷ c₁ ∷ k₀ ∷ k₁ ∷ n₀ ∷ n₁ ∷ []) =
    if same (m₀ ∷ m₁ ∷ []) magic
    then read_payload (from_be c₀ c₁) (from_be k₀ k₁) (from_be n₀ n₁)
    else fail (bad_magic m₀ m₁)
parse_header _ = fail early_eof

-- an end of the input inside or in front of the header is the end of the frames
pub after_header : Outcome Bytes × Input → Outcome (Option Frame) × Input
after_header (done hdr, i) = parse_header hdr i
after_header (failed early_eof, i) = (done none, i)
after_header (failed e, i) = (failed e, i)
after_header (pending, i) = (pending, i)

unfoldable pub read_frame : Reading (Option Frame)
read_frame i = after_header (read_exact hdr_len i)

ping_bytes :
    read_frame (record {
      bytes = codes "SS" ++ 0 ∷ 7 ∷ 0x42 ∷ 1 ∷ 0 ∷ 2 ∷ codes "hi!";
      ending = Ending.closed;
    })
    ≡ (
      done (some (frame 7 Cmd.ping (codes "hi"))),
      record { bytes = codes "!"; ending = Ending.closed },
    )
unfolding read_frame after_header parse_header read_payload from_be read_exact
ping_bytes = refl
