-- ===== src/Ssnet/Tasks.antt =====
-- The two loops at the ends of a pipe, the same in rushtle/src/client.rs and rushtle/src/server.rs:
-- the writer task, which sends the frames of the outbound queue, and the loop over `read_frame`.
use kubectl_sshuttle.Base.{
  ℕ, zero, suc, ◌<◌, ◌≤◌, ◌≡◌, refl, sym, ap, ◌∙◌, Option, none, some, List, [], ◌∷◌, ◌++◌, arith,
  append_assoc, append-nil, length, ◌≢◌, All, Error, Result, ok, err,
}
use kubectl_sshuttle.Text.Utf8.{Bytes}
use kubectl_sshuttle.Stream.{Input, input, Output, Ending, Outcome, done, failed, pending}
use kubectl_sshuttle.Ssnet.Frame.{
  Frame, IsFrame, max_payload, encode, pause, write_frame, read_frame,
}
use kubectl_sshuttle.Ssnet.Frame.RoundTrip.{
  read_frame-encode, write_frame_open, write_frame_too_long,
}
use kubectl_sshuttle.Ssnet.Frame.Endings.{read_frame_at_end}
use kubectl_sshuttle.Ssnet.Frame.Sound.{read_frame-lt}

on_sent : Result Error (Unit {0}) × Output → (Output → Output) → Output
on_sent (ok u, o) rest = rest o
on_sent (err e, o) rest = o

-- `while let Some(frame) = out_rx.recv()`: the queue's frames in order; an error ends the task
unfoldable pub writer_task : ℕ → List Frame → Output → Output
unfolding on_sent
writer_task delay [] o = o
writer_task delay (f ∷ fs) o = on_sent (write_frame delay f o) (writer_task delay fs)

-- how the loop over `read_frame` ends: the pipe's end, an error, or it waits for more bytes
pub data Stop : Type 0 where
  eof waiting out_of_fuel : Stop
  broken : Error → Stop

unfoldable pub on_frame :
    Outcome (Option Frame) × Input → (Input → List Frame × Stop) → List Frame × Stop
on_frame (done none, i) rest = ([], eof)
on_frame (done (some f), i) rest = let (fs, stop) = rest i in (f ∷ fs, stop)
on_frame (failed e, i) rest = ([], broken e)
on_frame (pending, i) rest = ([], waiting)

-- the frames that the loop hands to its `match`, in order
unfoldable pub frames : ℕ → Input → List Frame × Stop
unfolding on_frame
frames zero i = ([], out_of_fuel)
frames (suc fuel) i = on_frame (read_frame i) (frames fuel)

abbrev pub encode_all : List Frame → Bytes
encode_all [] = []
encode_all (f ∷ fs) = encode f ++ encode_all fs

abbrev pub Sendable : Frame → Type 0
Sendable f = IsFrame f × (length f.payload ≤ max_payload)

pause-sent :
    (delay : ℕ) (o : Output) → ((pause delay o).sent ≡ o.sent) × ((pause delay o).room ≡ o.room)
unfolding pause
pause-sent delay o = ground arith

-- the pipe behind one frame
pub after : ℕ → Frame → Output → Output
after delay f o = pause delay (record o { sent = o.sent ++ encode f })

pub after_lem :
    (delay : ℕ) (f : Frame) (o : Output)
    → ((after delay f o).sent ≡ o.sent ++ encode f) × ((after delay f o).room ≡ o.room)
unfolding after
after_lem delay f o = pause-sent delay (record o { sent = o.sent ++ encode f })

pub write_frame-after :
    (delay : ℕ) (f : Frame) (o : Output)
    → o.room ≡ none
    → length f.payload ≤ max_payload
    → write_frame delay f o ≡ (ok tt, after delay f o)
unfolding after
write_frame-after delay f o = write_frame_open delay f o

-- frames that fit leave an open pipe open, and what follows them is sent behind them
writer_task-append :
    (delay : ℕ) (fs gs : List Frame) (o : Output)
    → o.room ≡ none
    → All Sendable fs
    → (o' : Output) × (writer_task delay (fs ++ gs) o ≡ writer_task delay gs o')
      × (o'.room ≡ none)
      × (o'.sent ≡ o.sent ++ encode_all fs)
unfolding writer_task after
writer_task-append delay [] gs o r v = (o, refl, r, sym (append-nil o.sent))
writer_task-append delay (f ∷ fs) gs o r ((_, fits), v) =
    let (sent, room) = after_lem delay f o in
    let (o', same, still_open, all) =
      writer_task-append delay fs gs (after delay f o) (room ∙ r) v in
    (
      o',
      rw (write_frame_open delay f o r fits) same,
      still_open,
      all ∙ ap (λ s. s ++ encode_all fs) sent ∙ append_assoc o.sent (encode f) (encode_all fs),
    )

-- an open pipe with nothing sent yet
abbrev pub fresh : Output
fresh = record { sent = []; room = none; fault = []; sleeps = [] }

writer_task-sent :
    (delay : ℕ) (fs : List Frame)
    → All Sendable fs
    → (writer_task delay fs fresh).sent ≡ encode_all fs
unfolding writer_task
writer_task-sent delay fs v =
    let (o', same, _, sent) = writer_task-append delay fs [] fresh refl v in
    ap (λ gs. (writer_task delay gs fresh).sent) (sym (append-nil fs))
    ∙ ap (λ (o : Output). o.sent) same
    ∙ sent

pub frames-encode_all :
    (fuel : ℕ) (fs : List Frame)
    → length fs < fuel
    → All Sendable fs
    → frames fuel (input (encode_all fs) Ending.closed) ≡ (fs, eof)
unfolding frames
frames-encode_all zero fs h v = absurd (omega arith)
frames-encode_all (suc fuel) [] h v = rw read_frame_at_end
frames-encode_all (suc fuel) (f ∷ fs) h ((v, fits), vs) = rw (
  read_frame-encode f (encode_all fs) Ending.closed v fits,
  frames-encode_all fuel fs (omega arith) vs,
)

-- What the writer task sends through an open pipe, the loop at the other end reads: the same
-- frames in the same order, whatever the delay, and then the end of the pipe.
pub frames-writer_task :
    (delay : ℕ) (fs : List Frame)
    → All Sendable fs
    → frames (suc (length fs)) (input (writer_task delay fs fresh).sent Ending.closed) ≡ (fs, eof)
frames-writer_task delay fs v =
    rw (writer_task-sent delay fs v) (frames-encode_all (suc (length fs)) fs (omega arith) v)

on_frame_total :
    (r : Outcome (Option Frame) × Input) (rest : Input → List Frame × Stop)
    → ((j : Input) (f : Frame) → r ≡ (done (some f), j) → (rest j).1 ≢ out_of_fuel)
    → (on_frame r rest).1 ≢ out_of_fuel
unfolding on_frame
on_frame_total (done none, i) rest h = λ e. cc
on_frame_total (done (some f), i) rest h = h i f refl
on_frame_total (failed x, i) rest h = λ e. cc
on_frame_total (pending, i) rest h = λ e. cc

-- With more rounds than there are bytes the loop ends by itself, on any input.
pub frames_total : (fuel : ℕ) (i : Input) → length i.bytes < fuel → (frames fuel i).1 ≢ out_of_fuel
unfolding frames
frames_total zero i h = absurd (omega arith)
frames_total (suc fuel) i h =
    on_frame_total (read_frame i) (frames fuel)
      λ j f e. frames_total fuel j (omega (arith, read_frame-lt i j f e))

-- A frame over the limit ends the writer task: the frames in front of it are sent, and nothing
-- behind it ever is.
pub writer_task_stops :
    (delay : ℕ) (fs gs : List Frame) (big : Frame)
    → All Sendable fs
    → max_payload < length big.payload
    → (writer_task delay (fs ++ big ∷ gs) fresh).sent ≡ encode_all fs
unfolding writer_task
writer_task_stops delay fs gs big v h =
    let (o', same, _, sent) = writer_task-append delay fs (big ∷ gs) fresh refl v in
    ap (λ (o : Output). o.sent) same ∙ rw (write_frame_too_long delay big o' h) sent
