-- ===== src/Ssnet/Frame/RoundTrip.antt =====
-- What `write_frame` puts on a pipe, `read_frame` gives back.
use kubectl_sshuttle.Base.{
  ℕ, ◌+◌, ◌/◌, ◌%◌, ◌^◌, ◌<◌, ◌≤◌, ◌≡◌, refl, none, some, [], ◌∷◌, ◌++◌, arith, le→ltb, length,
  append_assoc, append-nil, ok, err, Error, lt→ltb,
}
use kubectl_sshuttle.Text.Utf8.{Bytes}
use kubectl_sshuttle.Stream.{Input, input, Output, Ending, done, read_exact-append, write_all}
use kubectl_sshuttle.Ssnet.Frame.{
  Frame, frame, IsFrame, header, hdr_len, max_payload, to_be, from_be, write_frame, read_frame,
  pause, read_payload, parse_header, after_header, is_empty, encode,
}

from_be-to_be : (n : ℕ) → n < 2 ^ 16 → from_be (n / 256 % 256) (n % 256) ≡ n
unfolding from_be
from_be-to_be n h = omega arith

pub read_payload-append :
    (channel cmd : ℕ) (xs ys : Bytes) (e : Ending)
    → read_payload channel cmd (length xs) (input (xs ++ ys) e)
      ≡ (done (some (frame channel cmd xs)), input ys e)
unfolding read_payload
read_payload-append channel cmd [] ys e = refl
read_payload-append channel cmd (x ∷ xs) ys e =
    ground (arith, read_exact-append (length (x ∷ xs)) (x ∷ xs) ys e refl)

pub parse_header-header :
    (f : Frame) (i : Input)
    → IsFrame f
    → length f.payload ≤ max_payload
    → parse_header (header f) i ≡ read_payload f.channel f.cmd (length f.payload) i
unfolding parse_header header to_be
parse_header-header f i v h = rw (
  from_be-to_be f.channel v.channel_u16,
  from_be-to_be f.cmd v.cmd_u16,
  from_be-to_be (length f.payload % 2 ^ 16) (omega arith),
  length_u16,
)
  where
    length_u16 : length f.payload % 2 ^ 16 ≡ length f.payload
    length_u16 = omega arith

-- One frame is read back, whatever follows it on the pipe.
pub read_frame-encode :
    (f : Frame) (rest : Bytes) (e : Ending)
    → IsFrame f
    → length f.payload ≤ max_payload
    → read_frame (input (encode f ++ rest) e) ≡ (done (some f), input rest e)
unfolding read_frame encode after_header
read_frame-encode f rest e v h =
    rw
      (
        append_assoc (header f) f.payload rest,
        read_exact-append hdr_len (header f) (f.payload ++ rest) e (unfold header to_be in refl),
        after_header,
        parse_header-header f (input (f.payload ++ rest) e) v h,
      )
      (read_payload-append f.channel f.cmd f.payload rest e)

write_all_open :
    (bs : Bytes) (o : Output)
    → o.room ≡ none
    → write_all bs o ≡ (ok tt, record o { sent = o.sent ++ bs })
unfolding write_all
write_all_open bs o r = ground arith

-- On an open pipe a frame that fits is sent whole, and the sleep is the current delay.
pub write_frame_open :
    (delay : ℕ) (f : Frame) (o : Output)
    → o.room ≡ none
    → length f.payload ≤ max_payload
    → write_frame delay f o ≡ (ok tt, pause delay (record o { sent = o.sent ++ encode f }))
unfolding write_frame encode is_empty
write_frame_open delay f o r h = rw (le→ltb max_payload (length f.payload) h) (
    ground (
      arith,
      write_all_open (header f) o r,
      write_all_open f.payload (record o { sent = o.sent ++ header f }) r,
      append_assoc o.sent (header f) f.payload,
      append-nil (header f),
    ))

-- A payload over the limit is refused and nothing is sent.
pub write_frame_too_long :
    (delay : ℕ) (f : Frame) (o : Output)
    → max_payload < length f.payload
    → write_frame delay f o ≡ (err (Error.too_long (length f.payload)), o)
unfolding write_frame
write_frame_too_long delay f o h = rw (lt→ltb max_payload (length f.payload) h)

pub length-encode : (f : Frame) → length (encode f) ≡ hdr_len + length f.payload
unfolding encode header to_be
length-encode f = omega arith
