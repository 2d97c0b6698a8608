-- ===== src/Client/Forward/Bounds.antt =====
-- rushtle/src/client.rs, the invariant of the connections and of `channels`.
use kubectl_sshuttle.Base.{
  ℕ, ◌≡◌, refl, Bool, true, false, ◌||◌, Option, none, some, [], ◌∷◌, ◌++◌, arith, ltb, ◌==◌,
  if◌then◌else◌, length, get_elem?, Bool-cases, Option-cases, inl, inr, length-append, IsSound,
  erase-IsSound, set-IsSound,
}
use kubectl_sshuttle.Text.Utf8.{Bytes}
use kubectl_sshuttle.Ssnet.Cmd
use kubectl_sshuttle.Ssnet.Frame.{Frame, frame}
use kubectl_sshuttle.Client.Forward.State.{Client, Conn, Address, inbound, delete, in_rx_dropped}
use kubectl_sshuttle.Client.Forward.{send, deliver, on_tcp_data, reply, on_response, demux_frame}

abbrev pub queued : Conn → ℕ
queued k = length k.queue

abbrev pub channel_of : Conn → ℕ
channel_of k = k.channel

-- The queues are within their capacity, and each channel of the map is that of its connection.
abbrev pub Sound : Client → Type 0
Sound c = IsSound inbound queued channel_of c.channels c.conns

pub send-Sound : (c : Client) (f : Frame) → Sound c → Sound (send c f)
unfolding send
send-Sound c f s = elim (Bool-cases c.out_open) [ inl h ↦ rw h s | inr h ↦ rw h s ]

pub deliver-Sound :
    (c : Client) (n : ℕ) (buf : Bytes) (k : Conn)
    → get_elem? c.conns n ≡ some k
    → Sound c
    → Sound (deliver c n buf (some k))
unfolding deliver
deliver-Sound c n buf k found s = elim (Bool-cases (in_rx_dropped k)) [
  | inl gone ↦ rw gone s
  | inr live ↦ elim (Bool-cases (ltb (length k.queue) inbound)) [
    | inl room ↦
        rw (live, room)
          (set-IsSound inbound queued channel_of c.channels c.conns n k
            (record k { queue = k.queue ++ buf ∷ [] }) found refl
            (ground (arith, length-append k.queue (buf ∷ []))) s)
    | inr full ↦ rw (live, full) s
  ]
]

on_tcp_data-Sound :
    (c : Client) (buf : Bytes) (o : Option ℕ) → Sound c → Sound (on_tcp_data c buf o)
unfolding on_tcp_data deliver
on_tcp_data-Sound c buf none s = s
on_tcp_data-Sound c buf (some n) s = elim (Option-cases (get_elem? c.conns n)) [
  | inl gone ↦ rw gone s
  | inr (k, found) ↦ rw found (deliver-Sound c n buf k found s)
]

reply-Sound : (c : Client) (peer : Address) (answer : Bytes) → Sound c → Sound (reply c peer answer)
unfolding reply
reply-Sound c peer [] s = s
reply-Sound c peer (b ∷ bs) s = elim (Bool-cases c.dns_sock) [ inl h ↦ rw h s | inr h ↦ rw h s ]

on_response-Sound :
    (c : Client) (f : Frame) (o : Option Address) → Sound c → Sound (on_response c f o)
unfolding on_response
on_response-Sound c f none s = s
on_response-Sound c f (some peer) s =
    reply-Sound (record c { inflight = delete c.inflight f.channel }) peer f.payload s

Sound-if : (b : Bool) (c d : Client) → Sound c → Sound d → Sound (if b then c else d)
Sound-if true c d sc sd = sc
Sound-if false c d sc sd = sd

pub demux_frame-Sound : (c : Client) (f : Frame) → Sound c → Sound (demux_frame c f)
unfolding demux_frame
demux_frame-Sound c f s =
    Sound-if (f.cmd == Cmd.ping) _ _ (send-Sound c (frame f.channel Cmd.pong f.payload) s) (
      Sound-if (f.cmd == Cmd.pong) _ _ s (
        Sound-if (f.cmd == Cmd.tcp_data) _ _
          (on_tcp_data-Sound c f.payload (c.channels f.channel) s)
          (Sound-if (f.cmd == Cmd.tcp_eof || f.cmd == Cmd.tcp_stop_sending) _ _
            (erase-IsSound inbound queued channel_of c.channels c.conns f.channel s)
            (Sound-if (f.cmd == Cmd.dns_response) _ _
              (on_response-Sound c f (c.inflight f.channel) s) s))))
