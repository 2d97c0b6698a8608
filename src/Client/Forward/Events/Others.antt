-- ===== src/Client/Forward/Events/Others.antt =====
-- rushtle/src/client.rs, what the steps of other connections hand to the writer task, as one
-- connection sees it.
use kubectl_sshuttle.Base.{
  ℕ, ◌≡◌, ◌≢◌, refl, sym, ap, ◌∙◌, false, not, ◌&&◌, Option, none, some, [], leb, length, get_elem?,
  set,
}
use kubectl_sshuttle.Base.{Only, Keeps-set}
use kubectl_sshuttle.Client.Forward.Bounds.{channel_of}
use kubectl_sshuttle.Ssnet.Cmd
use kubectl_sshuttle.Ssnet.Frame.{Frame, frame, chunk}
use kubectl_sshuttle.Ssnet.Carried.{IsPlain, other-IsPlain}
use kubectl_sshuttle.Client.Forward.State.{Client, Conn, ConnPhase, unlocked, set_conn}
use kubectl_sshuttle.Client.Forward.{send}
use kubectl_sshuttle.Client.Forward.Events.{
  ConnEvent, opens, read_ends, leaves, writes, reads, connect_frame, is_empty, sender_of,
  write_next, put_conn, conn_step,
}
use kubectl_sshuttle.Base.{After, After-if, After-either}
use kubectl_sshuttle.Client.Forward.Events.Told.{Told, Told-nothing, Told-plain, Keeping-other}
use kubectl_sshuttle.Client.Forward.Events.Telling.{
  send-conns, send-out_open, connect-IsPlain, write_next-keeps,
}

-- another connection is replaced
beside :
    (m n : ℕ) (j j' k : Conn) (f : Frame) (c : Client)
    → m ≢ n
    → get_elem? c.conns m ≡ some j
    → get_elem? c.conns n ≡ some k
    → j'.channel ≡ j.channel
    → (Only channel_of n k.channel c.conns → IsPlain k.channel f)
    → Told n k [] c (set_conn (send c f) m j')
beside m n j j' k f c ne hj found ch plain =
    let conns = ap (λ x. set x m j') (send-conns c f) in
    let d = set_conn (send c f) m j' in
    Told-plain n k f c d refl (send-out_open c f)
      (Keeps-set channel_of c.conns d.conns m j j' hj ch conns) plain
      (λ on. Keeping-other c d m n k j' ne found conns)

beside_silent :
    (m n : ℕ) (j j' k : Conn) (c d : Client)
    → m ≢ n
    → get_elem? c.conns m ≡ some j
    → get_elem? c.conns n ≡ some k
    → j'.channel ≡ j.channel
    → d.conns ≡ set c.conns m j'
    → d.out ≡ c.out
    → d.out_open ≡ c.out_open
    → Told n k [] c d
beside_silent m n j j' k c d ne hj found ch conns out same =
    Told-nothing n k c d out (λ h. sym same ∙ h)
      (Keeps-set channel_of c.conns d.conns m j j' hj ch conns)
      (Keeping-other c d m n k j' ne found conns)

put_other-Told :
    (c : Client) (m n : ℕ) (j k : Conn) (o : Option Conn)
    → m ≢ n
    → get_elem? c.conns m ≡ some j
    → get_elem? c.conns n ≡ some k
    → ((j' : Conn) → o ≡ some j' → (j'.channel ≡ j.channel) × (j'.reader_live ≡ j.reader_live))
    → After (Told n k [] c) (put_conn c m o)
unfolding put_conn
put_other-Told c m n j k none ne hj found same = tt
put_other-Told c m n j k (some j') ne hj found same =
    let (ch, live) = same j' refl in
    beside_silent m n j j' k c (set_conn c m j') ne hj found ch refl refl refl

-- Another connection's steps.
pub other-Told :
    (c : Client) (m n : ℕ) (j k : Conn) (e : ConnEvent) (p : ConnPhase)
    → m ≢ n
    → get_elem? c.conns m ≡ some j
    → get_elem? c.conns n ≡ some k
    → After (Told n k [] c) (conn_step c m j e p)
unfolding conn_step
other-Told c m n j k opens ConnPhase.opening ne hj found =
    After-either (Told n k [] c) c.out_open _ _
      (beside m n j (record j { phase = ConnPhase.copying }) k (connect_frame j) c ne hj found refl
        (λ only. connect-IsPlain k.channel j))
      (beside_silent m n j (record j { phase = ConnPhase.finished; queue = [] }) k c _ ne hj found
        refl refl refl refl)
other-Told c m n j k (writes good) ConnPhase.copying ne hj found =
    let sender = sender_of (c.channels j.channel) m in
    After-if (Told n k [] c) j.writer_live _ (
      put_other-Told c m n j k (write_next sender good j j.queue) ne hj found
        (λ j' h. write_next-keeps sender good j j.queue j' h))
other-Told c m n j k (reads bytes) ConnPhase.copying ne hj found =
    After-if (Told n k [] c) (j.reader_live && not (is_empty bytes) && leb (length bytes) chunk) _ (
      beside m n j (record j { reader_live = c.out_open }) k (frame j.channel Cmd.tcp_data bytes) c
        ne hj found refl (λ only. other-IsPlain k.channel _ (λ e. ne (only m j hj e))))
other-Told c m n j k read_ends ConnPhase.copying ne hj found =
    After-if (Told n k [] c) j.reader_live _ (
      beside m n j (record j { reader_live = false }) k (frame j.channel Cmd.tcp_eof []) c ne hj
        found refl (λ only. other-IsPlain k.channel _ (λ e. ne (only m j hj e))))
other-Told c m n j k leaves ConnPhase.copying ne hj found =
    After-if (Told n k [] c) (unlocked c.demux && not j.writer_live && not j.reader_live) _ (
      beside_silent m n j (record j { phase = ConnPhase.finished }) k c _ ne hj found refl refl refl
        refl)
other-Told c m n j k opens ConnPhase.copying ne hj found = tt
other-Told c m n j k opens ConnPhase.finished ne hj found = tt
other-Told c m n j k (writes good) ConnPhase.opening ne hj found = tt
other-Told c m n j k (writes good) ConnPhase.finished ne hj found = tt
other-Told c m n j k (reads bytes) ConnPhase.opening ne hj found = tt
other-Told c m n j k (reads bytes) ConnPhase.finished ne hj found = tt
other-Told c m n j k read_ends ConnPhase.opening ne hj found = tt
other-Told c m n j k read_ends ConnPhase.finished ne hj found = tt
other-Told c m n j k leaves ConnPhase.opening ne hj found = tt
other-Told c m n j k leaves ConnPhase.finished ne hj found = tt
