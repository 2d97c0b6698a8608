-- ===== src/Client/Forward/Events/Carried.antt =====
-- rushtle/src/client.rs, the bytes of a connection through one step, and through a run.
use kubectl_sshuttle.Base.{
  ℕ, ◌≡◌, refl, sym, ap, ◌∙◌, ◌⊎◌, inl, inr, Bool, true, false, not, ◌&&◌, ◌||◌, Option, none, some,
  List, [], ◌∷◌, ◌++◌, append_assoc, append-nil, ◌==◌, ==_iff, leb, length, get_elem?,
  get_elem?-set_self, Bool-cases, ℕ_discrete,
}
use kubectl_sshuttle.Text.Utf8.{Bytes}
use kubectl_sshuttle.Ssnet.Cmd
use kubectl_sshuttle.Ssnet.Frame.{Frame, frame, chunk}
use kubectl_sshuttle.Client.Forward.State.{
  Client, Conn, ConnPhase, Demux, in_rx_dropped, set_conn, delete, unlocked,
}
use kubectl_sshuttle.Client.Forward.{send, on_tcp_data, demux_frame}
use kubectl_sshuttle.Client.Forward.Events.{
  ConnEvent, opens, read_ends, leaves, writes, reads, connect_frame, is_empty, sender_of,
  write_next, put_conn, conn_step, on_conn,
}
use kubectl_sshuttle.Base.{After, After-if, After-either}
use kubectl_sshuttle.Client.Forward.Events.Closing.{all_bytes}
use kubectl_sshuttle.Client.Forward.Events.Flow.{
  held, flow, Moved, still, brought, on_tcp_data-Moved,
}
use kubectl_sshuttle.Client.Forward.Events.Aside.{Aside, conn_step-Aside, demux_frame-Aside}

-- the connection is replaced by one with the same flow, or by one that has dropped its queue
replaced :
    (n : ℕ) (k k' : Conn) (c x : Client)
    → get_elem? c.conns n ≡ some k
    → x.conns ≡ c.conns
    → x.demux ≡ c.demux
    → (in_rx_dropped k' ≡ true) ⊎ (flow k' (held c.demux n) ≡ flow k (held c.demux n))
    → (in_rx_dropped k ≡ true → in_rx_dropped k' ≡ true)
    → Moved n k (held c.demux n) [] (set_conn x n k')
replaced n k k' c x h ks m g stay = record {
  conn = k';
  found = rw ks (get_elem?-set_self c.conns n k k' h);
  grown = elim g [
    | inl gone ↦ inl gone
    | inr e ↦ inr (rw m (e ∙ sym (append-nil (flow k (held c.demux n)))))
  ];
  stays = stay;
}

send-fields : (c : Client) (f : Frame) → ((send c f).conns ≡ c.conns) × ((send c f).demux ≡ c.demux)
unfolding send
send-fields c f = elim (Bool-cases c.out_open) [
  | inl on ↦ rw on (refl, refl)
  | inr off ↦ rw off (refl, refl)
]

sent :
    (n : ℕ) (k k' : Conn) (c : Client) (f : Frame)
    → get_elem? c.conns n ≡ some k
    → (in_rx_dropped k' ≡ true) ⊎ (flow k' (held c.demux n) ≡ flow k (held c.demux n))
    → (in_rx_dropped k ≡ true → in_rx_dropped k' ≡ true)
    → Moved n k (held c.demux n) [] (set_conn (send c f) n k')
sent n k k' c f h g stay =
    let (ks, m) = send-fields c f in replaced n k k' c (send c f) h ks m g stay

write_next-Moved :
    (c : Client) (n : ℕ) (k : Conn) (sender good : Bool) (q : List Bytes)
    → get_elem? c.conns n ≡ some k
    → k.phase ≡ ConnPhase.copying
    → k.queue ≡ q
    → After (Moved n k (held c.demux n) []) (put_conn c n (write_next sender good k q))
unfolding put_conn write_next in_rx_dropped
write_next-Moved c n k true good [] h p e = tt
write_next-Moved c n k false good [] h p e =
    replaced n k (record k { writer_live = false }) c c h refl refl (inl (rw p refl))
      (λ g. rw p refl)
write_next-Moved c n k sender good (buf ∷ rest) h p e =
    elim (Bool-cases (is_empty buf || not good)) [
      | inl ends ↦ rw ends (
          replaced n k (record k { queue = []; writer_live = false }) c c h refl refl
            (inl (rw p refl)) (λ g. rw p refl))
      | inr goes ↦ rw goes (
          replaced n k (record k { queue = rest; written = k.written ++ buf }) c c h refl refl
            (inr (rw e (regroup k.written buf (all_bytes rest) (held c.demux n)))) (λ g. g))
    ]
  where
    regroup : (w x y z : Bytes) → (w ++ x) ++ (y ++ z) ≡ w ++ ((x ++ y) ++ z)
    regroup w x y z = simp append_assoc

conn_step-Moved :
    (c : Client) (n : ℕ) (k : Conn) (e : ConnEvent) (p : ConnPhase)
    → get_elem? c.conns n ≡ some k
    → k.phase ≡ p
    → After (Moved n k (held c.demux n) []) (conn_step c n k e p)
unfolding conn_step in_rx_dropped
conn_step-Moved c n k opens ConnPhase.opening h p =
    After-either (Moved n k (held c.demux n) []) c.out_open _ _
      (sent n k (record k { phase = ConnPhase.copying }) c (connect_frame k) h (inr refl)
        (λ g. absurd (cc (rw p at g))))
      (replaced n k (record k { phase = ConnPhase.finished; queue = [] }) c c h refl refl (inl refl)
        (λ g. refl))
conn_step-Moved c n k (writes good) ConnPhase.copying h p =
    After-if (Moved n k (held c.demux n) []) k.writer_live _
      (write_next-Moved c n k (sender_of (c.channels k.channel) n) good k.queue h p refl)
conn_step-Moved c n k (reads bytes) ConnPhase.copying h p =
    After-if (Moved n k (held c.demux n) [])
      (k.reader_live && not (is_empty bytes) && leb (length bytes) chunk) _
      (sent n k (record k { reader_live = c.out_open }) c (frame k.channel Cmd.tcp_data bytes) h
        (inr refl) (λ g. g))
conn_step-Moved c n k read_ends ConnPhase.copying h p =
    After-if (Moved n k (held c.demux n) []) k.reader_live _ (
      sent n k (record k { reader_live = false }) c (frame k.channel Cmd.tcp_eof []) h (inr refl)
        (λ g. g))
conn_step-Moved c n k leaves ConnPhase.copying h p =
    After-if (Moved n k (held c.demux n) [])
      (unlocked c.demux && not k.writer_live && not k.reader_live) _
      (replaced n k (record k { phase = ConnPhase.finished }) c
        (record c { channels = delete c.channels k.channel }) h refl refl (inl refl) (λ g. refl))
conn_step-Moved c n k opens ConnPhase.copying h p = tt
conn_step-Moved c n k opens ConnPhase.finished h p = tt
conn_step-Moved c n k (writes good) ConnPhase.opening h p = tt
conn_step-Moved c n k (writes good) ConnPhase.finished h p = tt
conn_step-Moved c n k (reads bytes) ConnPhase.opening h p = tt
conn_step-Moved c n k (reads bytes) ConnPhase.finished h p = tt
conn_step-Moved c n k read_ends ConnPhase.opening h p = tt
conn_step-Moved c n k read_ends ConnPhase.finished h p = tt
conn_step-Moved c n k leaves ConnPhase.opening h p = tt
conn_step-Moved c n k leaves ConnPhase.finished h p = tt

-- a step that leaves the connection alone
pub Aside-Moved :
    (c : Client) (n : ℕ) (k : Conn) (o : Option Client)
    → get_elem? c.conns n ≡ some k
    → After (Aside n c) o
    → After (Moved n k (held c.demux n) []) o
Aside-Moved c n k none h a = tt
Aside-Moved c n k (some x) h (there, m) =
    still n k x (held c.demux n) (there k h) (ap (λ d. held d n) m)

pub on_conn-Moved :
    (c : Client) (m n : ℕ) (k : Conn) (e : ConnEvent) (o : Option Conn)
    → get_elem? c.conns m ≡ o
    → get_elem? c.conns n ≡ some k
    → After (Moved n k (held c.demux n) []) (on_conn c m e o)
unfolding on_conn
on_conn-Moved c m n k e none hm h = tt
on_conn-Moved c m n k e (some j) hm h = elim (ℕ_discrete m n) [
  | yes own ↦
      let both : some j ≡ some k = sym hm ∙ ap (get_elem? c.conns) own ∙ h in
      let mine : j ≡ k = cc in rw (own, mine) (conn_step-Moved c n k e k.phase h refl)
  | no other ↦
      Aside-Moved c n k (conn_step c m j e j.phase) h (conn_step-Aside n m c j e j.phase other)
]

demux_data :
    (c : Client) (f : Frame)
    → f.cmd ≡ Cmd.tcp_data
    → demux_frame c f ≡ on_tcp_data c f.payload (c.channels f.channel)
unfolding demux_frame
demux_data c f e = rw e refl

pub demux_frame-Moved :
    (c : Client) (n : ℕ) (f : Frame) (k : Conn)
    → c.demux ≡ Demux.reading
    → get_elem? c.conns n ≡ some k
    → Moved n k [] (brought n f c) (demux_frame c f)
demux_frame-Moved c n f k r h = elim (Bool-cases (f.cmd == Cmd.tcp_data)) [
  | inl carries ↦
      rw (carries, demux_data c f ((==_iff f.cmd Cmd.tcp_data).0 carries))
        (on_tcp_data-Moved c n f k (c.channels f.channel) r h)
  | inr other ↦
      let (there, m) = demux_frame-Aside n c f other in
      rw other (still n k (demux_frame c f) [] (there k h) (ap (λ d. held d n) (m ∙ r)))
]
