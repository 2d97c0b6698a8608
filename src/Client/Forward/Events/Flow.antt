-- ===== src/Client/Forward/Events/Flow.antt =====
-- rushtle/src/client.rs, the bytes of a connection: what is written, queued and held for it.
use kubectl_sshuttle.Base.{
  ℕ, ◌≡◌, ◌≢◌, refl, sym, ap, ◌∙◌, ◌⊎◌, inl, inr, Bool, true, false, Option, none, some, List, [],
  ◌∷◌, ◌++◌, append_assoc, append-nil, arith, ◌==◌, ==_iff, if◌then◌else◌, ltb, length, get_elem?,
  get_elem?-set_ne, get_elem?-set_self, Bool-cases, ℕ_discrete,
}
use kubectl_sshuttle.Text.Utf8.{Bytes}
use kubectl_sshuttle.Ssnet.Cmd
use kubectl_sshuttle.Ssnet.Frame.{Frame}
use kubectl_sshuttle.Client.Forward.State.{Client, Conn, Demux, inbound, in_rx_dropped, set_conn}
use kubectl_sshuttle.Client.Forward.{deliver, on_tcp_data}
use kubectl_sshuttle.Client.Forward.Events.Closing.{all_bytes}

-- the buffer that the demultiplexer holds for a connection
abbrev pub held : Demux → ℕ → Bytes
held (Demux.offering m buf) n = if m == n then buf else []
held _ n = []

-- what the socket has taken, what is queued, and what is held
abbrev pub flow : Conn → Bytes → Bytes
flow k b = k.written ++ (all_bytes k.queue ++ b)

-- The connection `k` with the number `n` becomes one that has dropped its queue, or whose flow has
-- grown by `d`, if `b` was held for it.
pub record Moved (n : ℕ) (k : Conn) (b d : Bytes) (c : Client) : Type 0 where
  pub conn : Conn
  pub found : get_elem? c.conns n ≡ some conn
  pub grown : (in_rx_dropped conn ≡ true) ⊎ (flow conn (held c.demux n) ≡ flow k b ++ d)
  pub stays : in_rx_dropped k ≡ true → in_rx_dropped conn ≡ true

-- a step that leaves the connection alone
pub still :
    (n : ℕ) (k : Conn) (c : Client) (b : Bytes)
    → get_elem? c.conns n ≡ some k
    → held c.demux n ≡ b
    → Moved n k b [] c
still n k c b h e = record {
  conn = k;
  found = h;
  grown = inr (rw (e, append-nil (flow k b)) refl);
  stays = λ g. g;
}

Moved-if :
    (b : Bool) (n : ℕ) (k : Conn) (p : Bytes) (x y : Client) (d : Bytes)
    → Moved n k p d x
    → Moved n k p d y
    → Moved n k p d (if b then x else y)
Moved-if true n k p x y d hx hy = hx
Moved-if false n k p x y d hx hy = hy

all_bytes-push : (q : List Bytes) (buf : Bytes) → all_bytes (q ++ buf ∷ []) ≡ all_bytes q ++ buf
all_bytes-push [] buf = append-nil buf
all_bytes-push (x ∷ q) buf =
    ap (λ y. x ++ y) (all_bytes-push q buf) ∙ sym (append_assoc x (all_bytes q) buf)

pub self_eq : (n : ℕ) → (n == n) ≡ true
self_eq n = (==_iff n n).1 refl

pub other_eq : (m n : ℕ) → m ≢ n → (m == n) ≡ false
other_eq m n h = ground (arith, h)

-- a delivery to the connection itself
pub deliver-own :
    (c : Client) (n : ℕ) (buf : Bytes) (k : Conn)
    → get_elem? c.conns n ≡ some k
    → Moved n k buf [] (deliver c n buf (some k))
unfolding deliver in_rx_dropped
deliver-own c n buf k h = elim (Bool-cases (in_rx_dropped k)) [
  | inl gone ↦ rw gone (record { conn = k; found = h; grown = inl gone; stays = λ g. g })
  | inr live ↦ elim (Bool-cases (ltb (length k.queue) inbound)) [
    | inl room ↦
        rw (live, room)
          (record {
            conn = record k { queue = k.queue ++ buf ∷ [] };
            found = get_elem?-set_self c.conns n k _ h;
            grown = inr (
                ap (λ x. k.written ++ x)
                  (append-nil (all_bytes (k.queue ++ buf ∷ [])) ∙ all_bytes-push k.queue buf)
                ∙ sym (append-nil (flow k buf)));
            stays = λ g. g;
          })
    | inr full ↦
        rw (live, full)
          (still n k (record c { demux = Demux.offering n buf }) buf h (rw (self_eq n) refl))
  ]
]

-- a delivery to another connection
pub deliver-other :
    (c : Client) (m n : ℕ) (buf : Bytes) (k u : Conn)
    → m ≢ n
    → get_elem? c.conns n ≡ some k
    → Moved n k [] [] (deliver c m buf (some u))
unfolding deliver
deliver-other c m n buf k u ne h =
    let over : Client = record c { demux = Demux.reading } in
    let room : Client = record (set_conn c m (record u { queue = u.queue ++ buf ∷ [] })) {
      demux = Demux.reading;
    } in
    let full : Client = record c { demux = Demux.offering m buf } in
    let free = ltb (length u.queue) inbound in
    Moved-if (in_rx_dropped u) n k [] over (if free then room else full) []
      (still n k over [] h refl)
      (Moved-if free n k [] room full []
        (still n k room [] (get_elem?-set_ne c.conns m n _ ne ∙ h) refl)
        (still n k full [] h (rw (other_eq m n ne) refl)))

-- what was held was just brought
brought_held : (n : ℕ) (k : Conn) (b : Bytes) (c : Client) → Moved n k b [] c → Moved n k [] b c
brought_held n k b c v = record {
  conn = v.conn;
  found = v.found;
  grown = elim (v.grown) [
    | inl gone ↦ inl gone
    | inr e ↦ inr (e ∙ append-nil (flow k b) ∙ regroup)
  ];
  stays = v.stays;
}
  where
    regroup : flow k b ≡ flow k [] ++ b
    regroup = simp (append_assoc, append-nil)

deliver-any :
    (c : Client) (m n : ℕ) (buf : Bytes) (k : Conn) (u : Option Conn)
    → m ≢ n
    → held c.demux n ≡ []
    → get_elem? c.conns n ≡ some k
    → Moved n k [] [] (deliver c m buf u)
unfolding deliver
deliver-any c m n buf k none ne e h = still n k c [] h e
deliver-any c m n buf k (some u) ne e h = deliver-other c m n buf k u ne h

-- what a frame brings for the connection
abbrev pub payload_for : ℕ → Frame → Option ℕ → Bytes
payload_for n f none = []
payload_for n f (some m) = if m == n then f.payload else []

abbrev pub brought : ℕ → Frame → Client → Bytes
brought n f c = if f.cmd == Cmd.tcp_data then payload_for n f (c.channels f.channel) else []

pub on_tcp_data-Moved :
    (c : Client) (n : ℕ) (f : Frame) (k : Conn) (found : Option ℕ)
    → c.demux ≡ Demux.reading
    → get_elem? c.conns n ≡ some k
    → Moved n k [] (payload_for n f found) (on_tcp_data c f.payload found)
unfolding on_tcp_data
on_tcp_data-Moved c n f k none r h = still n k c [] h (rw r refl)
on_tcp_data-Moved c n f k (some m) r h = elim (ℕ_discrete m n) [
  | yes own ↦ rw (own, self_eq n, h) (brought_held n k f.payload _ (deliver-own c n f.payload k h))
  | no other ↦
      rw (other_eq m n other)
        (deliver-any c m n f.payload k (get_elem? c.conns m) other (rw r refl) h)
]
