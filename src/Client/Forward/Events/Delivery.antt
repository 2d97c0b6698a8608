-- ===== src/Client/Forward/Events/Delivery.antt =====
-- rushtle/src/client.rs, the bytes of a connection through a run.
use kubectl_sshuttle.Base.{
  ℕ, ◌≡◌, refl, sym, ap, ◌∙◌, ◌⊎◌, inl, inr, true, false, ◌||◌, Option, none, some, List, [], ◌∷◌,
  ◌++◌, append_assoc, ltb, length, get_elem?, ℕ_discrete,
}
use kubectl_sshuttle.Text.Utf8.{Bytes}
use kubectl_sshuttle.Ssnet.Frame.{Frame}
use kubectl_sshuttle.Client.Forward.State.{Client, Conn, Demux, inbound, in_rx_dropped}
use kubectl_sshuttle.Client.Forward.Events.{
  ClientEvent, arrives, input_ends, delivered, output_fails, accepts, accept_fails, inserts,
  queried, at_conn, accept_of, draw, spawn_conn, accept_failed, on_query, deliver_again, demux_step,
  client_step, then_step, client_run,
}
use kubectl_sshuttle.Base.{After, After-if}
use kubectl_sshuttle.Client.Forward.Events.Flow.{
  held, flow, Moved, still, deliver-own, deliver-other, brought, self_eq, other_eq,
}
use kubectl_sshuttle.Client.Forward.Events.Aside.{
  draw-Aside, spawn_conn-Aside, accept_failed-Aside, on_query-Aside,
}
use kubectl_sshuttle.Client.Forward.Events.Carried.{on_conn-Moved, demux_frame-Moved, Aside-Moved}

-- a delivery that waited
deliver_again-Moved :
    (c : Client) (m n : ℕ) (buf : Bytes) (k : Conn) (u : Option Conn)
    → get_elem? c.conns m ≡ u
    → get_elem? c.conns n ≡ some k
    → After (Moved n k (held (Demux.offering m buf) n) []) (deliver_again c m buf u)
unfolding deliver_again
deliver_again-Moved c m n buf k none hm h = tt
deliver_again-Moved c m n buf k (some j) hm h = elim (ℕ_discrete m n) [
  | yes own ↦
      let both : some j ≡ some k = sym hm ∙ ap (get_elem? c.conns) own ∙ h in
      let mine : j ≡ k = cc in
      rw (own, mine, self_eq n)
        (After-if (Moved n k buf []) (in_rx_dropped k || ltb (length k.queue) inbound) _
          (deliver-own c n buf k h))
  | no other ↦ rw (other_eq m n other) (
      After-if (Moved n k [] []) (in_rx_dropped j || ltb (length j.queue) inbound) _
        (deliver-other c m n buf k j other h))
]

-- what an event brings for the connection
abbrev pub brings : ℕ → ClientEvent → Client → Bytes
brings n (arrives f) c = brought n f c
brings n _ c = []

arrives-Moved :
    (c : Client) (n : ℕ) (k : Conn) (f : Frame) (m : Demux)
    → c.demux ≡ m
    → get_elem? c.conns n ≡ some k
    → After (Moved n k (held m n) (brought n f c)) (demux_step (arrives f) c m)
unfolding demux_step
arrives-Moved c n k f Demux.reading r h = demux_frame-Moved c n f k r h
arrives-Moved c n k f Demux.stopped r h = tt
arrives-Moved c n k f (Demux.offering j buf) r h = tt

input_ends-Moved :
    (c : Client) (n : ℕ) (k : Conn) (m : Demux)
    → get_elem? c.conns n ≡ some k
    → After (Moved n k (held m n) []) (demux_step input_ends c m)
unfolding demux_step
input_ends-Moved c n k Demux.reading h = still n k (record c { demux = Demux.stopped }) [] h refl
input_ends-Moved c n k Demux.stopped h = tt
input_ends-Moved c n k (Demux.offering j buf) h = tt

delivered-Moved :
    (c : Client) (n : ℕ) (k : Conn) (m : Demux)
    → get_elem? c.conns n ≡ some k
    → After (Moved n k (held m n) []) (demux_step delivered c m)
unfolding demux_step
delivered-Moved c n k Demux.reading h = tt
delivered-Moved c n k Demux.stopped h = tt
delivered-Moved c n k (Demux.offering j buf) h =
    deliver_again-Moved c j n buf k (get_elem? c.conns j) refl h

client_step-Moved :
    (e : ClientEvent) (c : Client) (n : ℕ) (k : Conn)
    → get_elem? c.conns n ≡ some k
    → After (Moved n k (held c.demux n) (brings n e c)) (client_step e c)
unfolding client_step
client_step-Moved (at_conn m e) c n k h = on_conn-Moved c m n k e (get_elem? c.conns m) refl h
client_step-Moved (accepts v6 dst) c n k h =
    Aside-Moved c n k (draw c v6 dst (accept_of c v6)) h (draw-Aside n c v6 dst (accept_of c v6))
client_step-Moved (accept_fails v6) c n k h =
    Aside-Moved c n k (accept_failed c (accept_of c v6)) h
      (accept_failed-Aside n c (accept_of c v6))
client_step-Moved (inserts v6) c n k h =
    Aside-Moved c n k (spawn_conn c v6 (accept_of c v6)) h
      (spawn_conn-Aside n c v6 (accept_of c v6))
client_step-Moved (queried peer query) c n k h =
    Aside-Moved c n k (on_query c peer query) h (on_query-Aside n c peer query)
client_step-Moved output_fails c n k h =
    still n k (record c { out_open = false }) (held c.demux n) h refl
client_step-Moved (arrives f) c n k h = arrives-Moved c n k f c.demux refl h
client_step-Moved input_ends c n k h = input_ends-Moved c n k c.demux h
client_step-Moved delivered c n k h = delivered-Moved c n k c.demux h

Moved-trans :
    (n : ℕ) (k : Conn) (b d d' : Bytes) (x c : Client) (v : Moved n k b d x)
    → Moved n v.conn (held x.demux n) d' c
    → Moved n k b (d ++ d') c
Moved-trans n k b d d' x c v w = record {
  conn = w.conn;
  found = w.found;
  grown = elim v.grown [
    | inl gone ↦ inl (w.stays gone)
    | inr e ↦ elim w.grown [
      | inl gone ↦ inl gone
      | inr e' ↦ inr (e' ∙ ap (λ y. y ++ d') e ∙ append_assoc (flow k b) d d')
    ]
  ];
  stays = λ g. w.stays (v.stays g);
}

abbrev pub from_step : Option Client → (Client → Bytes) → Bytes
from_step none g = []
from_step (some x) g = g x

-- the payloads that a run brings for a connection
abbrev pub brought_by : ℕ → List ClientEvent → Client → Bytes
brought_by n [] c = []
brought_by n (e ∷ es) c = brings n e c ++ from_step (client_step e c) (brought_by n es)

pub client_run-Moved :
    (es : List ClientEvent) (c d : Client) (n : ℕ) (k : Conn)
    → get_elem? c.conns n ≡ some k
    → client_run es c ≡ some d
    → Moved n k (held c.demux n) (brought_by n es c) d
unfolding client_run then_step
client_run-Moved [] c d n k h ran =
    let e : c ≡ d = cc in rw (← e) (still n k c (held c.demux n) h refl)
client_run-Moved (e ∷ es) c d n k h ran =
    go (client_step e c) (client_step-Moved e c n k h) ran
      (λ x j hx more. client_run-Moved es x d n j hx more)
  where
    go :
        (o : Option Client)
        → After (Moved n k (held c.demux n) (brings n e c)) o
        → then_step o (client_run es) ≡ some d
        → ((x : Client) (j : Conn)
            → get_elem? x.conns n ≡ some j
            → client_run es x ≡ some d
            → Moved n j (held x.demux n) (brought_by n es x) d)
        → Moved n k (held c.demux n) (brings n e c ++ from_step o (brought_by n es)) d
    go none v more later = cc
    go (some x) v more later =
        Moved-trans n k (held c.demux n) (brings n e c) (brought_by n es x) x d v
          (later x v.conn v.found more)

-- After any run of the client's tasks a connection that was there is still there, and either it has
-- dropped its queue, or what its local socket has taken, what is queued for it and what the
-- demultiplexer holds for it are, in this order, what they were before, followed by exactly the
-- TCP_DATA payloads that were read while the map sent their channel to the connection.
pub client_run-flow :
    (es : List ClientEvent) (c d : Client) (n : ℕ) (k : Conn)
    → get_elem? c.conns n ≡ some k
    → client_run es c ≡ some d
    → (k' : Conn) × (get_elem? d.conns n ≡ some k')
      × ((in_rx_dropped k' ≡ true)
          ⊎ (flow k' (held d.demux n) ≡ flow k (held c.demux n) ++ brought_by n es c))
client_run-flow es c d n k h ran =
    let v = client_run-Moved es c d n k h ran in (v.conn, v.found, v.grown)
