-- ===== src/Client/Probe.antt =====
-- rushtle/src/client.rs, the link probe: `make_probe_payloads` and `probe_once`.
pub mod Replies
pub mod Settle
pub mod Ends
pub mod Complete
pub mod Sent
pub mod Eof
pub mod Echo
use kubectl_sshuttle.Base.{
  ℕ, zero, suc, ◌+◌, ◌-◌, ◌*◌, ◌%◌, ◌^◌, ◌≤◌, ◌<◌, ◌≡◌, refl, Bool, true, false, Option, none, some,
  List, [], ◌∷◌, ◌++◌, map, arith, ltb, leb, ◌==◌, if◌then◌else◌, same, length, get_or, set,
  replicate, codes, Error, probe_eof, probe_mismatch, probe_timeout, context, Result, ok, err,
}
use kubectl_sshuttle.Text.Utf8.{Bytes, Str}
use kubectl_sshuttle.Text.Numbers.{to_string}
use kubectl_sshuttle.Stream.{Input, Output, Outcome, done, failed, pending}
use kubectl_sshuttle.Ssnet.Cmd
use kubectl_sshuttle.Ssnet.Frame.{Frame, frame, read_frame, write_frame}

abbrev pub channel_base : ℕ
channel_base = 0xFF00

abbrev pub burst_frames : ℕ
burst_frames = 16

abbrev pub frame_payload : ℕ
frame_payload = 256

-- start, start + 1, …
pub range_from : ℕ → ℕ → List ℕ
range_from start zero = []
range_from start (suc n) = start ∷ range_from (suc start) n

-- `& 0xff` is `% 256`
pub probe_payload : ℕ → Bytes
unfolding range_from
probe_payload i = map (λ j. (i * 31 + j) % 256) (range_from 0 frame_payload)

unfoldable pub make_probe_payloads : List Bytes
unfolding probe_payload
make_probe_payloads = map probe_payload (range_from 0 burst_frames)

ping_context : ℕ → Str
ping_context i =
    codes "sending probe PING #"
    ++ (to_string i ++ (codes " (ch=" ++ (to_string (channel_base + i) ++ codes ")")))

-- the burst goes on behind a frame that was sent; an error gets its context
pub on_ping :
    ℕ
    → Result Error (Unit {0}) × Output
    → (Output → Result Error (Unit {0}) × Output)
    → Result Error (Unit {0}) × Output
unfolding ping_context
on_ping i (ok u, o) rest = rest o
on_ping i (err e, o) rest = (err (context (ping_context i) e), o)

unfoldable pub send_pings : ℕ → ℕ → List Bytes → Output → Result Error (Unit {0}) × Output
unfolding on_ping
send_pings delay i [] o = (ok tt, o)
send_pings delay i (p ∷ ps) o =
    on_ping i (write_frame delay (frame (channel_base + i) Cmd.ping p) o)
      (send_pings delay (suc i) ps)

-- the variables of the collecting loop
pub record Progress : Type 0 where
  pub seen : List Bool
  pub got : ℕ

-- `wrapping_sub` of the first probe channel
unfoldable pub probe_index : ℕ → ℕ
probe_index channel = (channel + 2 ^ 16 - channel_base) % 2 ^ 16

pub on_pong : List Bytes → Progress → Frame → Result Error Progress
on_pong payloads p f =
    let idx = probe_index f.channel in
    let wanted = get_or payloads idx [] in
    if leb (length payloads) idx
    then ok p
    else if same f.payload wanted
    then (if get_or p.seen idx false
        then ok p
        else ok (record { seen = set p.seen idx true; got = p.got + 1 }))
    else err (probe_mismatch idx (length f.payload) (length wanted))

-- frames other than PONGs are skipped
unfoldable pub react : List Bytes → Progress → Frame → Result Error Progress
unfolding on_pong
react payloads p f = if f.cmd == Cmd.pong then on_pong payloads p f else ok p

-- the places of the flags that are not set
pub lost_from : ℕ → List Bool → List ℕ
lost_from i [] = []
lost_from i (true ∷ seen) = lost_from (suc i) seen
lost_from i (false ∷ seen) = i ∷ lost_from (suc i) seen

abbrev pub Collected : Type 0
Collected = Option (Result Error (Unit {0}) × Input)

pub on_progress : Result Error Progress → Input → (Progress → Input → Collected) → Collected
on_progress (ok p) j rest = rest p j
on_progress (err e) j rest = some (err e, j)

-- `pending` means that nothing more arrives until the timeout
pub on_read :
    List Bytes
    → Progress
    → Outcome (Option Frame) × Input
    → (Progress → Input → Collected)
    → Collected
unfolding on_progress lost_from
on_read payloads p (done none, j) rest = some (err probe_eof, j)
on_read payloads p (done (some f), j) rest = on_progress (react payloads p f) j rest
on_read payloads p (failed e, j) rest = some (err e, j)
on_read payloads p (pending, j) rest =
    some (err (probe_timeout (lost_from 0 p.seen) (length payloads)), j)

-- `while got < payloads.len()`, on fuel
unfoldable pub collect : ℕ → List Bytes → Progress → Input → Collected
unfolding on_read
collect zero payloads p i = none
collect (suc fuel) payloads p i =
    if ltb p.got (length payloads)
    then on_read payloads p (read_frame i) (collect fuel payloads)
    else some (ok tt, i)

-- the two pipes of a session and the current `FRAME_DELAY_US`
pub record Link : Type 0 where
  pub stdin : Output
  pub stdout : Input
  pub delay : ℕ

abbrev pub nothing_seen : List Bytes → Progress
nothing_seen payloads = record { seen = replicate (length payloads) false; got = 0 }

pub finish : Link → Output → Collected → Option (Result Error (Unit {0}) × Link)
finish link o none = none
finish link o (some (r, i)) = some (r, record link { stdin = o; stdout = i })

pub collect_replies :
    List Bytes → Link → Result Error (Unit {0}) × Output → Option (Result Error (Unit {0}) × Link)
unfolding finish
collect_replies payloads link (err e, o) = some (err e, record link { stdin = o })
collect_replies payloads link (ok u, o) =
    finish link o
      (collect (suc (length link.stdout.bytes)) payloads (nothing_seen payloads) link.stdout)

unfoldable pub probe_once : List Bytes → Link → Option (Result Error (Unit {0}) × Link)
unfolding collect_replies
probe_once payloads link =
    collect_replies payloads link (send_pings link.delay 0 payloads link.stdin)
