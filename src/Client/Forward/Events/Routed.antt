-- ===== src/Client/Forward/Events/Routed.antt =====
-- rushtle/src/client.rs, where `channels` sends the channel of a connection, through one step.
use kubectl_sshuttle.Base.{
  ℕ, ◌≡◌, refl, sym, ap, ◌∙◌, ◌⊎◌, inl, inr, Bool, true, false, ◌||◌, Option, none, some, List, [],
  ◌∷◌, ◌++◌, arith, ltb, ◌==◌, ==_iff, if◌then◌else◌, length, get_elem?, Bool-cases, get_elem?-push,
  get_elem?-length, After, After-if, Keeps, Keeps-same, Keeps-set, Keeps-push, Only,
}
use kubectl_sshuttle.Text.Utf8.{Bytes}
use kubectl_sshuttle.Ssnet.Cmd
use kubectl_sshuttle.Ssnet.Frame.{Frame, frame}
use kubectl_sshuttle.Ssnet.Carried.{is_open, is_end, is_open-none, is_open-one}
use kubectl_sshuttle.Client.Forward.State.{
  Client, Conn, Accept, Address, inbound, insert, delete, in_rx_dropped, unlocked,
}
use kubectl_sshuttle.Client.Forward.{send, deliver, on_tcp_data, reply, on_response, demux_frame}
use kubectl_sshuttle.Client.Forward.Bounds.{channel_of}
use kubectl_sshuttle.Client.Forward.Events.{spawn_conn}

-- From `c` to `d` the connection `k` with the number `n` has dropped its queue, or `channels` sends
-- its channel where it did, unless one of the frames `fs` ended the channel.
pub record Routed (n : ℕ) (k : Conn) (fs : List Frame) (c d : Client) : Type 0 where
  pub keeps : Keeps channel_of c.conns d.conns
  pub routed :
      Only channel_of n k.channel d.conns
      → ((k' : Conn) × (get_elem? d.conns n ≡ some k') × (in_rx_dropped k' ≡ true))
        ⊎ (d.channels k.channel ≡ (if is_open k.channel fs then c.channels k.channel else none))

-- The map is as it was.
pub mapped :
    (n : ℕ) (k : Conn) (fs : List Frame) (c d : Client)
    → Keeps channel_of c.conns d.conns
    → d.channels ≡ c.channels
    → is_open k.channel fs ≡ true
    → Routed n k fs c d
mapped n k fs c d keeps same goes = record {
  keeps = keeps;
  routed = λ only. inr (rw goes (ap (λ y. y k.channel) same));
}

-- The connections and the map are as they were.
pub apart :
    (n : ℕ) (k : Conn) (fs : List Frame) (c d : Client)
    → d.conns ≡ c.conns
    → d.channels ≡ c.channels
    → is_open k.channel fs ≡ true
    → Routed n k fs c d
apart n k fs c d ks m goes = mapped n k fs c d (Keeps-same channel_of c.conns d.conns ks) m goes

pub Routed-if :
    (n : ℕ) (k : Conn) (fs : List Frame) (c x y : Client) (b : Bool)
    → Routed n k fs c x
    → Routed n k fs c y
    → Routed n k fs c (if b then x else y)
Routed-if n k fs c x y true hx hy = hx
Routed-if n k fs c x y false hx hy = hy

pub send-Routed :
    (n : ℕ) (k : Conn) (fs : List Frame) (c d : Client) (f : Frame)
    → d.conns ≡ c.conns
    → d.channels ≡ c.channels
    → is_open k.channel fs ≡ true
    → Routed n k fs c (send d f)
unfolding send
send-Routed n k fs c d f ks m goes =
    Routed-if n k fs c _ d d.out_open (apart n k fs c _ ks m goes) (apart n k fs c d ks m goes)

pub deliver-Routed :
    (n m : ℕ) (k : Conn) (fs : List Frame) (c : Client) (buf : Bytes) (o : Option Conn)
    → get_elem? c.conns m ≡ o
    → is_open k.channel fs ≡ true
    → Routed n k fs c (deliver c m buf o)
unfolding deliver
deliver-Routed n m k fs c buf none found goes = apart n k fs c c refl refl goes
deliver-Routed n m k fs c buf (some j) found goes = elim (Bool-cases (in_rx_dropped j)) [
  | inl gone ↦ rw gone (apart n k fs c _ refl refl goes)
  | inr live ↦ elim (Bool-cases (ltb (length j.queue) inbound)) [
    | inl room ↦
        rw (live, room)
          (mapped n k fs c _
            (Keeps-set channel_of c.conns _ m j (record j { queue = j.queue ++ buf ∷ [] }) found
              refl refl)
            refl goes)
    | inr full ↦ rw (live, full) (apart n k fs c _ refl refl goes)
  ]
]

on_tcp_data-Routed :
    (n : ℕ) (k : Conn) (fs : List Frame) (c : Client) (buf : Bytes) (o : Option ℕ)
    → is_open k.channel fs ≡ true
    → Routed n k fs c (on_tcp_data c buf o)
unfolding on_tcp_data
on_tcp_data-Routed n k fs c buf none goes = apart n k fs c c refl refl goes
on_tcp_data-Routed n k fs c buf (some m) goes =
    deliver-Routed n m k fs c buf (get_elem? c.conns m) refl goes

on_response-Routed :
    (n : ℕ) (k : Conn) (fs : List Frame) (c : Client) (f : Frame) (payload : Bytes)
    (o : Option Address)
    → f.payload ≡ payload
    → is_open k.channel fs ≡ true
    → Routed n k fs c (on_response c f o)
unfolding on_response reply
on_response-Routed n k fs c f payload none e goes = apart n k fs c c refl refl goes
on_response-Routed n k fs c f [] (some peer) e goes = rw e (apart n k fs c _ refl refl goes)
on_response-Routed n k fs c f (b ∷ bs) (some peer) e goes = rw e (
    Routed-if n k fs c _ _ c.dns_sock (apart n k fs c _ refl refl goes)
      (apart n k fs c _ refl refl goes))

-- a frame that ends no channel
demux_other-Routed :
    (n : ℕ) (k : Conn) (fs : List Frame) (c : Client) (f : Frame)
    → is_open k.channel fs ≡ true
    → (f.cmd == Cmd.tcp_eof || f.cmd == Cmd.tcp_stop_sending) ≡ false
    → Routed n k fs c (demux_frame c f)
unfolding demux_frame
demux_other-Routed n k fs c f goes other =
    let same : Routed n k fs c c = apart n k fs c c refl refl goes in
    rw other (
      Routed-if n k fs c _ _ (f.cmd == Cmd.ping)
        (send-Routed n k fs c c (frame f.channel Cmd.pong f.payload) refl refl goes)
        (Routed-if n k fs c _ _ (f.cmd == Cmd.pong) same (
          Routed-if n k fs c _ _ (f.cmd == Cmd.tcp_data)
            (on_tcp_data-Routed n k fs c f.payload (c.channels f.channel) goes)
            (Routed-if n k fs c _ _ (f.cmd == Cmd.dns_response)
              (on_response-Routed n k fs c f f.payload (c.inflight f.channel) refl goes) same))))

demux_end :
    (c : Client) (f : Frame)
    → (f.cmd == Cmd.tcp_eof || f.cmd == Cmd.tcp_stop_sending) ≡ true
    → demux_frame c f ≡ record c { channels = delete c.channels f.channel }
unfolding demux_frame
demux_end c f h = elim (Bool-cases (f.cmd == Cmd.tcp_eof)) [
  | inl eof ↦ let e : f.cmd ≡ Cmd.tcp_eof = (==_iff f.cmd Cmd.tcp_eof).0 eof in rw e refl
  | inr other ↦
      let e : f.cmd ≡ Cmd.tcp_stop_sending =
        (==_iff f.cmd Cmd.tcp_stop_sending).0 (rw other at h) in
      rw e refl
]

pub demux_frame-Routed :
    (n : ℕ) (k : Conn) (c : Client) (f : Frame) → Routed n k (f ∷ []) c (demux_frame c f)
unfolding is_end
demux_frame-Routed n k c f =
    elim (Bool-cases (f.cmd == Cmd.tcp_eof || f.cmd == Cmd.tcp_stop_sending)) [
      | inl ends ↦ rw (demux_end c f ends) (record {
        keeps = Keeps-same channel_of c.conns c.conns refl;
        routed = λ only. inr (rw (is_open-one k.channel f, ends) (ground arith));
      })
      | inr other ↦
          demux_other-Routed n k (f ∷ []) c f (rw (is_open-one k.channel f, other) refl) other
    ]

-- A new connection has another channel, or it would be a second connection with this one.
spawned :
    (n ch : ℕ) (k j : Conn) (c d : Client)
    → get_elem? c.conns n ≡ some k
    → j.channel ≡ ch
    → d.conns ≡ c.conns ++ j ∷ []
    → d.channels ≡ insert c.channels ch (length c.conns)
    → Routed n k [] c d
spawned n ch k j c d found on ks m = record {
  keeps = Keeps-push channel_of c.conns d.conns j ks;
  routed = λ only. inr (elim (Bool-cases (k.channel == ch)) [
    | inl same ↦
        let there : get_elem? d.conns (length c.conns) ≡ some j =
          ap (λ l. get_elem? l (length c.conns)) ks ∙ get_elem?-push c.conns j in
        let twice : length c.conns ≡ n =
          only (length c.conns) j there (on ∙ sym ((==_iff k.channel ch).0 same)) in
        let nobody = get_elem?-length c.conns in
        absurd (cc (ap (get_elem? c.conns) twice, nobody, found))
    | inr other ↦ ap (λ y. y k.channel) m ∙ rw (other, is_open-none k.channel) refl
  ]);
}

pub spawn_conn-Routed :
    (n : ℕ) (k : Conn) (c : Client) (v6 : Bool) (a : Accept)
    → get_elem? c.conns n ≡ some k
    → After (Routed n k [] c) (spawn_conn c v6 a)
unfolding spawn_conn
spawn_conn-Routed n k c v6 Accept.listening found = tt
spawn_conn-Routed n k c false (Accept.inserting ch dst) found =
    After-if (Routed n k [] c) (unlocked c.demux) _ (spawned n ch k _ c _ found refl refl refl)
spawn_conn-Routed n k c true (Accept.inserting ch dst) found =
    After-if (Routed n k [] c) (unlocked c.demux) _ (spawned n ch k _ c _ found refl refl refl)
