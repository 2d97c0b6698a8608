-- ===== src/Ssnet/Frame/Endings.antt =====
-- `read_frame` on a pipe that ends inside a frame.
use kubectl_sshuttle.Base.{
  ℕ, zero, suc, ◌-◌, ◌<◌, ◌≤◌, ◌≡◌, refl, ap, ◌∙◌, none, [], ◌∷◌, ◌++◌, arith, ltb, length, take,
  length-take, length-append, early_eof, if◌then◌else◌, inl, inr, Bool-cases, ltb→lt, ltb→le,
}
use kubectl_sshuttle.Text.Utf8.{Bytes}
use kubectl_sshuttle.Stream.{input, Ending, done, failed, read_exact, read_exact-append}
use kubectl_sshuttle.Ssnet.Frame.{
  Frame, IsFrame, header, hdr_len, max_payload, to_be, read_frame, read_payload, after_header,
  encode,
}
use kubectl_sshuttle.Ssnet.Frame.RoundTrip.{parse_header-header}

take_past_head :
    (xs ys : Bytes) (n : ℕ) → length xs ≤ n → take n (xs ++ ys) ≡ xs ++ take (n - length xs) ys
take_past_head [] ys n h = ap (λ k. take k ys) (omega arith)
take_past_head (x ∷ xs) ys zero h = absurd (omega arith)
take_past_head (x ∷ xs) ys (suc n) h =
    ap (λ t. x ∷ t) (take_past_head xs ys n (omega arith) ∙ ap (λ k. xs ++ take k ys) (omega arith))

length-header : (f : Frame) → length (header f) ≡ hdr_len
unfolding header to_be
length-header f = refl

-- too few bytes and a closed pipe
read_exact-closed :
    (n : ℕ) (xs : Bytes)
    → length xs < n
    → read_exact n (input xs Ending.closed) ≡ (failed early_eof, input [] Ending.closed)
unfolding read_exact
read_exact-closed n xs h = ground arith

read_payload_cut :
    (channel cmd n : ℕ) (xs : Bytes)
    → length xs < n
    → (read_payload channel cmd n (input xs Ending.closed)).0 ≡ failed early_eof
unfolding read_payload
read_payload_cut channel cmd zero xs h = absurd (omega arith)
read_payload_cut channel cmd (suc n) xs h = ground (arith, read_exact-closed (suc n) xs h)

-- A pipe that closes in front of a frame or inside its header ends the frames without an error;
-- one that closes inside the payload is an `UnexpectedEof` error.
pub read_frame_cut :
    (f : Frame) (n : ℕ)
    → IsFrame f
    → length f.payload ≤ max_payload
    → n < length (encode f)
    → (read_frame (input (take n (encode f)) Ending.closed)).0
      ≡ (if ltb n hdr_len then done none else failed early_eof)
unfolding read_frame after_header encode
read_frame_cut f n v b h = elim (Bool-cases (ltb n hdr_len)) [
  | inl short ↦ rw (
    short,
    read_exact-closed hdr_len (take n (header f ++ f.payload))
        (omega (arith, length-take n (header f ++ f.payload), ltb→lt n hdr_len short)),
  )
  | inr long ↦
      let past : hdr_len ≤ n = ltb→le n hdr_len long in
      rw
        (
          long,
          take_past_head (header f) f.payload n (omega (arith, length-header f)),
          read_exact-append hdr_len (header f) (take (n - length (header f)) f.payload)
              Ending.closed (length-header f),
          parse_header-header f (input (take (n - length (header f)) f.payload) Ending.closed) v b,
        )
        (read_payload_cut f.channel f.cmd (length f.payload)
          (take (n - length (header f)) f.payload)
          (omega (
            arith,
            length-append (header f) f.payload,
            length-header f,
            length-take (n - length (header f)) f.payload,
          )))
]

pub read_frame_at_end : read_frame (input [] Ending.closed) ≡ (done none, input [] Ending.closed)
unfolding read_frame after_header read_exact
read_frame_at_end = refl
