-- ===== src/Client/Forward/Events/Spoken.antt =====
-- rushtle/src/client.rs, the frames that a run hands to the writer task, as one connection sees
-- them.
use kubectl_sshuttle.Base.{
  ℕ, ◌≡◌, refl, sym, ap, ◌∙◌, Bool, true, false, ◌&&◌, ◌||◌, Option, none, some, List, [], ◌∷◌,
  ◌++◌, arith, ◌==◌, if◌then◌else◌, leb, ltb, length, get_elem?, Bool-cases, inl, inr, ℕ_discrete,
  set,
}
use kubectl_sshuttle.Base.{Keeps-same, Keeps-set}
use kubectl_sshuttle.Client.Forward.Bounds.{channel_of}
use kubectl_sshuttle.Text.Utf8.{Bytes}
use kubectl_sshuttle.Ssnet.Cmd
use kubectl_sshuttle.Ssnet.Frame.{Frame, frame}
use kubectl_sshuttle.Ssnet.Carried.{IsPlain, kind-IsPlain}
use kubectl_sshuttle.Client.Channels.{allocate}
use kubectl_sshuttle.Client.Forward.State.{
  Client, Conn, Address, inbound, insert, delete, in_rx_dropped,
}
use kubectl_sshuttle.Client.Forward.{send, deliver, on_tcp_data, reply, on_response, demux_frame}
use kubectl_sshuttle.Client.Forward.Events.{ClientEvent, ConnEvent, at_conn, on_query, on_conn}
use kubectl_sshuttle.Base.{After, After-if}
use kubectl_sshuttle.Client.Forward.Events.Flow.{self_eq, other_eq}
use kubectl_sshuttle.Client.Forward.Events.Told.{
  Told, Told-nothing, Told-plain, Keeping-same, Keeping-set, Keeping-other,
}
use kubectl_sshuttle.Client.Forward.Events.Telling.{
  read_bytes, send-conns, send-out_open, apart, own-Told,
}
use kubectl_sshuttle.Client.Forward.Events.Others.{other-Told}

-- what an event gives the connection to say
abbrev pub spoken_in : ℕ → ClientEvent → Bytes
spoken_in n (at_conn m e) = if m == n then read_bytes e else []
spoken_in n _ = []

-- what its local socket gives a connection in a run
abbrev pub spoken : ℕ → List ClientEvent → Bytes
spoken n [] = []
spoken n (e ∷ es) = spoken_in n e ++ spoken n es

pub on_conn-Told :
    (c : Client) (m n : ℕ) (k : Conn) (e : ConnEvent) (o : Option Conn)
    → get_elem? c.conns m ≡ o
    → get_elem? c.conns n ≡ some k
    → After (Told n k (if m == n then read_bytes e else []) c) (on_conn c m e o)
unfolding on_conn
on_conn-Told c m n k e none hm h = tt
on_conn-Told c m n k e (some j) hm h = elim (ℕ_discrete m n) [
  | yes own ↦
      let both : some j ≡ some k = sym hm ∙ ap (get_elem? c.conns) own ∙ h in
      let mine : j ≡ k = cc in rw (own, mine, self_eq n) (own-Told c n k e k.phase h)
  | no other ↦ rw (other_eq m n other) (other-Told c m n j k e j.phase other hm h)
]

-- the queue of a connection is changed
requeued :
    (c d : Client) (m n : ℕ) (j j' k : Conn)
    → get_elem? c.conns m ≡ some j
    → get_elem? c.conns n ≡ some k
    → j'.channel ≡ j.channel
    → j'.reader_live ≡ j.reader_live
    → d.conns ≡ set c.conns m j'
    → d.out ≡ c.out
    → d.out_open ≡ c.out_open
    → Told n k [] c d
requeued c d m n j j' k hm h ch live conns out same =
    Told-nothing n k c d out (λ g. sym same ∙ g)
      (Keeps-set channel_of c.conns d.conns m j j' hm ch conns)
      (elim (ℕ_discrete m n) [
        | yes own ↦
            let mine : j ≡ k = ground (arith, hm, h, own) in
            Keeping-set c d n k j' k.reader_live h (ch ∙ ap (λ (x : Conn). x.channel) mine)
              (live ∙ ap (λ (x : Conn). x.reader_live) mine)
              (conns ∙ ap (λ i. set c.conns i j') own)
        | no other ↦ Keeping-other c d m n k j' other h conns
      ])

pub deliver-Told :
    (c : Client) (m n : ℕ) (buf : Bytes) (o : Option Conn) (k : Conn)
    → get_elem? c.conns m ≡ o
    → get_elem? c.conns n ≡ some k
    → Told n k [] c (deliver c m buf o)
unfolding deliver
deliver-Told c m n buf none k hm h = apart n k c c h refl refl refl
deliver-Told c m n buf (some j) k hm h = elim (Bool-cases (in_rx_dropped j)) [
  | inl gone ↦ rw gone (apart n k c _ h refl refl refl)
  | inr live ↦ elim (Bool-cases (ltb (length j.queue) inbound)) [
    | inl room ↦
        rw (live, room)
          (requeued c _ m n j (record j { queue = j.queue ++ buf ∷ [] }) k hm h refl refl refl refl
            refl)
    | inr full ↦ rw (live, full) (apart n k c _ h refl refl refl)
  ]
]

Told-if :
    (n : ℕ) (k : Conn) (c : Client) (b : Bool) (x y : Client)
    → Told n k [] c x
    → Told n k [] c y
    → Told n k [] c (if b then x else y)
Told-if n k c true x y hx hy = hx
Told-if n k c false x y hx hy = hy

on_tcp_data-Told :
    (c : Client) (n : ℕ) (k : Conn) (buf : Bytes) (o : Option ℕ)
    → get_elem? c.conns n ≡ some k
    → Told n k [] c (on_tcp_data c buf o)
unfolding on_tcp_data
on_tcp_data-Told c n k buf none h = apart n k c c h refl refl refl
on_tcp_data-Told c n k buf (some m) h = deliver-Told c m n buf (get_elem? c.conns m) k refl h

-- a frame of another kind is sent
sent_aside :
    (c d : Client) (n : ℕ) (k : Conn) (f : Frame)
    → get_elem? c.conns n ≡ some k
    → d.out ≡ (send c f).out
    → d.out_open ≡ c.out_open
    → d.conns ≡ c.conns
    → IsPlain k.channel f
    → Told n k [] c d
sent_aside c d n k f h out same conns plain =
    Told-plain n k f c d out same (Keeps-same channel_of c.conns d.conns conns) (λ only. plain)
      (λ on. Keeping-same n k c d h conns)

pong-IsPlain : (ch : ℕ) (f : Frame) → IsPlain ch (frame f.channel Cmd.pong f.payload)
pong-IsPlain ch f = kind-IsPlain ch _ (ground arith) (ground arith) (ground arith)

query-IsPlain : (ch i : ℕ) (query : Bytes) → IsPlain ch (frame i Cmd.dns_req query)
query-IsPlain ch i query = kind-IsPlain ch _ (ground arith) (ground arith) (ground arith)

reply-Told :
    (c : Client) (x : Client) (n : ℕ) (k : Conn) (peer : Address) (answer : Bytes)
    → Told n k [] c x
    → ((fs : List (Address × Bytes)) → Told n k [] c (record x { replies = fs }))
    → Told n k [] c (reply x peer answer)
unfolding reply
reply-Told c x n k peer [] h any = h
reply-Told c x n k peer (b ∷ bs) h any = Told-if n k c x.dns_sock _ _ (any _) h

on_response-Told :
    (c : Client) (n : ℕ) (k : Conn) (f : Frame) (o : Option Address)
    → get_elem? c.conns n ≡ some k
    → Told n k [] c (on_response c f o)
unfolding on_response
on_response-Told c n k f none h = apart n k c c h refl refl refl
on_response-Told c n k f (some peer) h =
    reply-Told c (record c { inflight = delete c.inflight f.channel }) n k peer f.payload
      (apart n k c _ h refl refl refl) (λ fs. apart n k c _ h refl refl refl)

pub demux_frame-Told :
    (c : Client) (n : ℕ) (k : Conn) (f : Frame)
    → get_elem? c.conns n ≡ some k
    → Told n k [] c (demux_frame c f)
unfolding demux_frame
demux_frame-Told c n k f h =
    let pong = frame f.channel Cmd.pong f.payload in
    let same : Told n k [] c c = apart n k c c h refl refl refl in
    Told-if n k c (f.cmd == Cmd.ping) _ _
      (sent_aside c (send c pong) n k pong h refl (send-out_open c pong) (send-conns c pong)
        (pong-IsPlain k.channel f))
      (Told-if n k c (f.cmd == Cmd.pong) _ _ same (
        Told-if n k c (f.cmd == Cmd.tcp_data) _ _
          (on_tcp_data-Told c n k f.payload (c.channels f.channel) h)
          (Told-if n k c (f.cmd == Cmd.tcp_eof || f.cmd == Cmd.tcp_stop_sending) _ _
            (apart n k c _ h refl refl refl)
            (Told-if n k c (f.cmd == Cmd.dns_response) _ _
              (on_response-Told c n k f (c.inflight f.channel) h) same))))

-- what is handed over depends on what was, and on whether the writer task receives
send-out :
    (c d : Client) (f : Frame)
    → d.out ≡ c.out
    → d.out_open ≡ c.out_open
    → (send d f).out ≡ (send c f).out
unfolding send
send-out c d f out same = elim (Bool-cases c.out_open) [
  | inl on ↦ rw (same, on) (ap (λ l. l ++ f ∷ []) out)
  | inr off ↦ rw (same, off) out
]

pub on_query-Told :
    (c : Client) (n : ℕ) (k : Conn) (peer : Address) (query : Bytes)
    → get_elem? c.conns n ≡ some k
    → After (Told n k [] c) (on_query c peer query)
unfolding on_query
on_query-Told c n k peer query h =
    let (ch, later) = allocate c.next in
    let f = frame ch Cmd.dns_req query in
    let c' : Client = record c { next = later; inflight = insert c.inflight ch peer } in
    After-if (Told n k [] c) (c.dns_live && leb (length query) 4096) _ (
      sent_aside c (record (send c' f) { dns_live = c.out_open }) n k f h
        (send-out c c' f refl refl) (send-out_open c' f) (send-conns c' f)
        (query-IsPlain k.channel ch query))
