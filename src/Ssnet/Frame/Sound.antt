-- ===== src/Ssnet/Frame/Sound.antt =====
-- What `read_frame` accepts, and how it ends on input that holds no whole frame.
use kubectl_sshuttle.Base.{
  ℕ, zero, suc, ◌^◌, ◌<◌, ◌≤◌, ◌≡◌, refl, ap, ◌∙◌, some, [], ◌∷◌, ◌++◌, arith, length,
  length-append, All, early_eof, inl, inr, Bool-cases, same, eq_of_same,
}
use kubectl_sshuttle.Text.Utf8.{Bytes}
use kubectl_sshuttle.Stream.{Input, Outcome, done, failed, pending, read_exact, read_exact_sound}
use kubectl_sshuttle.Ssnet.Frame.{
  Frame, frame, IsFrame, header, magic, hdr_len, max_payload, to_be, from_be, read_frame,
  read_payload, parse_header, after_header, encode,
}

abbrev IsBytes : Bytes → Type 0
IsBytes = All (λ b. b < 256)

All-left : (xs ys : Bytes) → IsBytes (xs ++ ys) → IsBytes xs
All-left [] ys h = tt
All-left (x ∷ xs) ys (hx, h) = (hx, All-left xs ys h)

All-right : (xs ys : Bytes) → IsBytes (xs ++ ys) → IsBytes ys
All-right [] ys h = h
All-right (x ∷ xs) ys (hx, h) = All-right xs ys h

read_payload_sound :
    (channel cmd n : ℕ) (i j : Input) (f : Frame)
    → read_payload channel cmd n i ≡ (done (some f), j)
    → (f ≡ frame channel cmd f.payload)
      × (length f.payload ≡ n)
      × (i.bytes ≡ f.payload ++ j.bytes)
      × (j.ending ≡ i.ending)
unfolding read_payload
read_payload_sound channel cmd zero i j f h = ground arith
read_payload_sound channel cmd (suc n) i j f h =
    go (read_exact (suc n) i).0 (read_exact (suc n) i).1 refl
  where
    go :
        (o : Outcome Bytes) (k : Input)
        → read_exact (suc n) i ≡ (o, k)
        → (f ≡ frame channel cmd f.payload)
          × (length f.payload ≡ suc n)
          × (i.bytes ≡ f.payload ++ j.bytes)
          × (j.ending ≡ i.ending)
    go (done xs) k e = ground (arith, read_exact_sound (suc n) i k xs e)
    go (failed x) k e = ground arith
    go pending k e = ground arith

to_be-from_be : (a b : ℕ) → a < 256 → b < 256 → to_be (from_be a b) ≡ a ∷ b ∷ []
unfolding to_be from_be
to_be-from_be a b ha hb = ground arith

from_be-lt : (a b : ℕ) → a < 256 → b < 256 → from_be a b < 2 ^ 16
unfolding from_be
from_be-lt a b ha hb = omega arith

-- What `read_frame` returns on the frame `f`, with the bytes `used` read and `j` left.
record Read (f : Frame) (used : Bytes) (i j : Input) : Type 0 where
  pub consumed : used ++ i.bytes ≡ encode f ++ j.bytes
  pub ending : j.ending ≡ i.ending
  pub fits : length f.payload ≤ max_payload
  pub valid : IsBytes i.bytes → IsFrame f

header-eq :
    (f : Frame) (c₀ c₁ k₀ k₁ n₀ n₁ : ℕ)
    → IsBytes (c₀ ∷ c₁ ∷ k₀ ∷ k₁ ∷ n₀ ∷ n₁ ∷ [])
    → f.channel ≡ from_be c₀ c₁
    → f.cmd ≡ from_be k₀ k₁
    → length f.payload ≡ from_be n₀ n₁
    → header f ≡ b'S' ∷ b'S' ∷ c₀ ∷ c₁ ∷ k₀ ∷ k₁ ∷ n₀ ∷ n₁ ∷ []
unfolding header from_be
header-eq f c₀ c₁ k₀ k₁ n₀ n₁ h ec ek en = ground arith

header_sound :
    (m₀ m₁ c₀ c₁ k₀ k₁ n₀ n₁ : ℕ) (i j : Input) (f : Frame)
    → IsBytes (c₀ ∷ c₁ ∷ k₀ ∷ k₁ ∷ n₀ ∷ n₁ ∷ [])
    → m₀ ∷ m₁ ∷ [] ≡ magic
    → read_payload (from_be c₀ c₁) (from_be k₀ k₁) (from_be n₀ n₁) i ≡ (done (some f), j)
    → Read f (m₀ ∷ m₁ ∷ c₀ ∷ c₁ ∷ k₀ ∷ k₁ ∷ n₀ ∷ n₁ ∷ []) i j
unfolding encode
header_sound m₀ m₁ c₀ c₁ k₀ k₁ n₀ n₁ i j f h m e =
    let (shape, size, used, rest) = read_payload_sound _ _ _ i j f e in
    let channel : f.channel ≡ from_be c₀ c₁ = cc in
    let cmd : f.cmd ≡ from_be k₀ k₁ = cc in
    let head = header-eq f c₀ c₁ k₀ k₁ n₀ n₁ h channel cmd size in
    record {
      consumed = rw (used, head) (ground arith);
      ending = rest;
      fits = omega (arith, from_be-lt n₀ n₁ h.1.1.1.1.0 h.1.1.1.1.1.0);
      valid = λ b. record {
        channel_u16 = rw channel (from_be-lt c₀ c₁ h.0 h.1.0);
        cmd_u16 = rw cmd (from_be-lt k₀ k₁ h.1.1.0 h.1.1.1.0);
        payload_u8 = All-left f.payload j.bytes (rw used at b);
      };
    }

parse_header_sound :
    (hdr : Bytes) (i j : Input) (f : Frame)
    → IsBytes hdr
    → parse_header hdr i ≡ (done (some f), j)
    → Read f hdr i j
unfolding parse_header
parse_header_sound (m₀ ∷ m₁ ∷ c₀ ∷ c₁ ∷ k₀ ∷ k₁ ∷ n₀ ∷ n₁ ∷ []) i j f (_, (_, h)) e =
    elim (Bool-cases (same (m₀ ∷ m₁ ∷ []) magic)) [
      | inl good ↦
          header_sound m₀ m₁ c₀ c₁ k₀ k₁ n₀ n₁ i j f h (eq_of_same (m₀ ∷ m₁ ∷ []) magic good)
            (rw good at e)
      | inr bad ↦ absurd (ground (arith, bad, e))
    ]
parse_header_sound _ i j f h e = cc

-- A frame that `read_frame` returns stood at the front of the input, byte for byte, and the rest
-- is left; its fields are in range and its payload is within the limit.
pub read_frame_sound :
    (i j : Input) (f : Frame)
    → IsBytes i.bytes
    → read_frame i ≡ (done (some f), j)
    → (i.bytes ≡ encode f ++ j.bytes)
      × (j.ending ≡ i.ending)
      × (length f.payload ≤ max_payload)
      × IsFrame f
unfolding read_frame after_header
read_frame_sound i j f b h = go (read_exact hdr_len i).0 (read_exact hdr_len i).1 refl
  where
    go :
        (o : Outcome Bytes) (k : Input)
        → read_exact hdr_len i ≡ (o, k)
        → (i.bytes ≡ encode f ++ j.bytes)
          × (j.ending ≡ i.ending)
          × (length f.payload ≤ max_payload)
          × IsFrame f
    go (done hdr) k e =
        let (_, used, rest) = read_exact_sound hdr_len i k hdr e in
        let read = parse_header_sound hdr k j f (All-left hdr k.bytes (rw used at b)) (rw e at h) in
        (
          used ∙ read.consumed,
          read.ending ∙ rest,
          read.fits,
          read.valid (All-right hdr k.bytes (rw used at b)),
        )
    go (failed early_eof) k e = absurd (cc)
    go (failed x) k e = absurd (cc)
    go pending k e = absurd (cc)

parse_header-le :
    (hdr : Bytes) (i j : Input) (f : Frame)
    → parse_header hdr i ≡ (done (some f), j)
    → length j.bytes ≤ length i.bytes
unfolding parse_header
parse_header-le (m₀ ∷ m₁ ∷ c₀ ∷ c₁ ∷ k₀ ∷ k₁ ∷ n₀ ∷ n₁ ∷ []) i j f e =
    elim (Bool-cases (same (m₀ ∷ m₁ ∷ []) magic)) [
      | inl good ↦
          let (_, _, used, _) = read_payload_sound _ _ _ i j f (rw good at e) in
          omega (arith, ap length used, length-append f.payload j.bytes)
      | inr bad ↦ absurd (ground (arith, bad, e))
    ]
parse_header-le _ i j f e = cc

-- A frame read leaves less input, so a loop over `read_frame` ends.
pub read_frame-lt :
    (i j : Input) (f : Frame) → read_frame i ≡ (done (some f), j) → length j.bytes < length i.bytes
unfolding read_frame after_header
read_frame-lt i j f h = go (read_exact hdr_len i).0 (read_exact hdr_len i).1 refl
  where
    go :
        (o : Outcome Bytes) (k : Input)
        → read_exact hdr_len i ≡ (o, k)
        → length j.bytes < length i.bytes
    go (done hdr) k e =
        let (size, used, _) = read_exact_sound hdr_len i k hdr e in
        omega
          (arith, parse_header-le hdr k j f (rw e at h), ap length used, length-append hdr k.bytes)
    go (failed early_eof) k e = absurd (cc)
    go (failed x) k e = absurd (cc)
    go pending k e = absurd (cc)
