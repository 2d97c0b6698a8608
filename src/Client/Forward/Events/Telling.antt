-- ===== src/Client/Forward/Events/Telling.antt =====
-- rushtle/src/client.rs, what a connection's own steps hand to the writer task.
use kubectl_sshuttle.Base.{
  ℕ, ◌≡◌, refl, sym, ap, ◌∙◌, Bool, true, false, not, ◌&&◌, Option, none, some, List, [], ◌∷◌,
  arith, leb, length, get_elem?, Bool-cases, inl, inr, set,
}
use kubectl_sshuttle.Base.{Keeps-same, Keeps-set}
use kubectl_sshuttle.Client.Forward.Bounds.{channel_of}
use kubectl_sshuttle.Text.Utf8.{Bytes}
use kubectl_sshuttle.Ssnet.Cmd
use kubectl_sshuttle.Ssnet.Frame.{Frame, frame, chunk}
use kubectl_sshuttle.Ssnet.Carried.{IsPlain, kind-IsPlain, data-carried, eof-ends}
use kubectl_sshuttle.Client.Forward.State.{Client, Conn, ConnPhase, unlocked, set_conn}
use kubectl_sshuttle.Client.Forward.{send}
use kubectl_sshuttle.Client.Forward.Events.{
  ConnEvent, opens, read_ends, leaves, writes, reads, connect_frame, is_empty, sender_of,
  write_next, put_conn, conn_step,
}
use kubectl_sshuttle.Base.{After, After-if, After-either, After-when}
use kubectl_sshuttle.Client.Forward.Events.Told.{
  Told, Told-nothing, Told-one, Told-plain, Keeping-same, Keeping-set,
}

-- what the connection's own event gives it to say
abbrev pub read_bytes : ConnEvent → Bytes
read_bytes (reads bytes) = bytes
read_bytes _ = []

pub send-conns : (c : Client) (f : Frame) → (send c f).conns ≡ c.conns
unfolding send
send-conns c f = elim (Bool-cases c.out_open) [ inl on ↦ rw on refl | inr off ↦ rw off refl ]

pub send-out_open : (c : Client) (f : Frame) → (send c f).out_open ≡ c.out_open
unfolding send
send-out_open c f = elim (Bool-cases c.out_open) [ inl on ↦ rw on refl | inr off ↦ rw off refl ]

-- the connection is replaced, and goes on as it did
quiet :
    (n : ℕ) (k k' : Conn) (c d : Client)
    → get_elem? c.conns n ≡ some k
    → k'.channel ≡ k.channel
    → k'.reader_live ≡ k.reader_live
    → d.conns ≡ set c.conns n k'
    → d.out ≡ c.out
    → d.out_open ≡ c.out_open
    → Told n k [] c d
quiet n k k' c d found ch live conns out same =
    Told-nothing n k c d out (λ h. sym same ∙ h)
      (Keeps-set channel_of c.conns d.conns n k k' found ch conns)
      (Keeping-set c d n k k' k.reader_live found ch live conns)

-- nothing about connections
pub apart :
    (n : ℕ) (k : Conn) (c d : Client)
    → get_elem? c.conns n ≡ some k
    → d.conns ≡ c.conns
    → d.out ≡ c.out
    → d.out_open ≡ c.out_open
    → Told n k [] c d
apart n k c d found conns out same =
    Told-nothing n k c d out (λ h. sym same ∙ h) (Keeps-same channel_of c.conns d.conns conns)
      (Keeping-same n k c d found conns)

pub connect-IsPlain : (ch : ℕ) (k : Conn) → IsPlain ch (connect_frame k)
unfolding connect_frame
connect-IsPlain ch k =
    kind-IsPlain ch (connect_frame k) (ground arith) (ground arith) (ground arith)

pub write_next-keeps :
    (sender good : Bool) (k : Conn) (q : List Bytes) (k' : Conn)
    → write_next sender good k q ≡ some k'
    → (k'.channel ≡ k.channel) × (k'.reader_live ≡ k.reader_live)
unfolding write_next
write_next-keeps sender good k [] k' h = ground arith
write_next-keeps sender good k (buf ∷ rest) k' h = ground arith

put_conn-Told :
    (c : Client) (n : ℕ) (k : Conn) (o : Option Conn)
    → get_elem? c.conns n ≡ some k
    → ((k' : Conn) → o ≡ some k' → (k'.channel ≡ k.channel) × (k'.reader_live ≡ k.reader_live))
    → After (Told n k [] c) (put_conn c n o)
unfolding put_conn
put_conn-Told c n k none found same = tt
put_conn-Told c n k (some k') found same =
    let (ch, live) = same k' refl in quiet n k k' c (set_conn c n k') found ch live refl refl refl

reads-Told :
    (c : Client) (n : ℕ) (k : Conn) (bytes : Bytes)
    → get_elem? c.conns n ≡ some k
    → k.reader_live ≡ true
    → Told n k bytes c (
        set_conn
          (send c (frame k.channel Cmd.tcp_data bytes))
          n
          (record k { reader_live = c.out_open }))
reads-Told c n k bytes found live =
    let k' : Conn = record k { reader_live = c.out_open } in
    let f = frame k.channel Cmd.tcp_data bytes in
    let conns = ap (λ x. set x n k') (send-conns c f) in
    let (said, goes) = data-carried k.channel bytes in
    let d = set_conn (send c f) n k' in
    Told-one n k bytes f c d refl (send-out_open c f)
      (Keeps-set channel_of c.conns d.conns n k k' found refl conns)
      λ only on. (
        Keeping-set c d n k k' _ found refl (ground (arith, on, live, goes)) conns,
        ground (arith, live, said),
      )

ends-Told :
    (c : Client) (n : ℕ) (k : Conn)
    → get_elem? c.conns n ≡ some k
    → k.reader_live ≡ true
    → Told n k [] c
        (set_conn (send c (frame k.channel Cmd.tcp_eof [])) n (record k { reader_live = false }))
ends-Told c n k found live =
    let k' : Conn = record k { reader_live = false } in
    let f = frame k.channel Cmd.tcp_eof [] in
    let conns = ap (λ x. set x n k') (send-conns c f) in
    let (said, ends) = eof-ends k.channel in
    let d = set_conn (send c f) n k' in
    Told-one n k [] f c d refl (send-out_open c f)
      (Keeps-set channel_of c.conns d.conns n k k' found refl conns)
      λ only on. (
        Keeping-set c d n k k' _ found refl (ground (arith, live, ends)) conns,
        ground (arith, live, said),
      )

-- The connection's own steps.
pub own-Told :
    (c : Client) (n : ℕ) (k : Conn) (e : ConnEvent) (p : ConnPhase)
    → get_elem? c.conns n ≡ some k
    → After (Told n k (read_bytes e) c) (conn_step c n k e p)
unfolding conn_step
own-Told c n k opens ConnPhase.opening found =
    let k' : Conn = record k { phase = ConnPhase.copying } in
    let d = set_conn (send c (connect_frame k)) n k' in
    let conns = ap (λ x. set x n k') (send-conns c (connect_frame k)) in
    After-either (Told n k [] c) c.out_open _ _
      (Told-plain n k (connect_frame k) c d refl (send-out_open c (connect_frame k))
        (Keeps-set channel_of c.conns d.conns n k k' found refl conns)
        (λ only. connect-IsPlain k.channel k)
        (λ on. Keeping-set c d n k k' k.reader_live found refl refl conns))
      (quiet n k (record k { phase = ConnPhase.finished; queue = [] }) c _ found refl refl refl refl
        refl)
own-Told c n k (writes good) ConnPhase.copying found =
    let sender = sender_of (c.channels k.channel) n in
    After-if (Told n k [] c) k.writer_live _ (
      put_conn-Told c n k (write_next sender good k k.queue) found
        (λ k' h. write_next-keeps sender good k k.queue k' h))
own-Told c n k (reads bytes) ConnPhase.copying found =
    After-when (Told n k bytes c)
      (k.reader_live && not (is_empty bytes) && leb (length bytes) chunk) _
      (λ h. reads-Told c n k bytes found (ground arith))
own-Told c n k read_ends ConnPhase.copying found =
    After-when (Told n k [] c) k.reader_live _ (ends-Told c n k found)
own-Told c n k leaves ConnPhase.copying found =
    After-if (Told n k [] c) (unlocked c.demux && not k.writer_live && not k.reader_live) _
      (quiet n k (record k { phase = ConnPhase.finished }) c _ found refl refl refl refl refl)
own-Told c n k opens ConnPhase.copying found = tt
own-Told c n k opens ConnPhase.finished found = tt
own-Told c n k (writes good) ConnPhase.opening found = tt
own-Told c n k (writes good) ConnPhase.finished found = tt
own-Told c n k (reads bytes) ConnPhase.opening found = tt
own-Told c n k (reads bytes) ConnPhase.finished found = tt
own-Told c n k read_ends ConnPhase.opening found = tt
own-Told c n k read_ends ConnPhase.finished found = tt
own-Told c n k leaves ConnPhase.opening found = tt
own-Told c n k leaves ConnPhase.finished found = tt
