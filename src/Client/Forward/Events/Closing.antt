-- ===== src/Client/Forward/Events/Closing.antt =====
-- rushtle/src/client.rs, the end of a connection.
use kubectl_sshuttle.Base.{
  ℕ, ◌≡◌, ◌≢◌, refl, sym, ap, ◌∙◌, true, false, none, some, List, [], ◌∷◌, ◌++◌, append_assoc,
  append-nil, arith, get_elem?, get_elem?-set_self, get_elem?-set_ne, All,
}
use kubectl_sshuttle.Text.Utf8.{Bytes}
use kubectl_sshuttle.Client.Forward.State.{Client, Conn, ConnPhase, delete, set_conn, unlocked}
use kubectl_sshuttle.Client.Forward.Events.{
  ClientEvent, at_conn, writes, leaves, is_empty, sender_of, write_next, put_conn, conn_step,
  on_conn, client_step, then_step, client_run,
}

-- all that a queue holds
abbrev pub all_bytes : List Bytes → Bytes
all_bytes [] = []
all_bytes (b ∷ bs) = b ++ all_bytes bs

-- the writing task of a connection takes the buffers of its queue, and then the end
abbrev pub drain_events : ℕ → List Bytes → List ClientEvent
drain_events n [] = at_conn n (writes true) ∷ []
drain_events n (b ∷ bs) = at_conn n (writes true) ∷ drain_events n bs

-- one step of the writing task
writes_lem :
    (c : Client) (n : ℕ) (k : Conn)
    → get_elem? c.conns n ≡ some k
    → k.phase ≡ ConnPhase.copying
    → k.writer_live ≡ true
    → client_step (at_conn n (writes true)) c
      ≡ put_conn c n (write_next (sender_of (c.channels k.channel) n) true k k.queue)
unfolding client_step on_conn conn_step
writes_lem c n k found copies live =
    ap (on_conn c n (writes true)) found ∙ ap (conn_step c n k (writes true)) copies ∙ rw live refl

-- the end of `handle_conn`
leaves_lem :
    (c : Client) (n : ℕ) (k : Conn)
    → get_elem? c.conns n ≡ some k
    → k.phase ≡ ConnPhase.copying
    → unlocked c.demux ≡ true
    → k.writer_live ≡ false
    → k.reader_live ≡ false
    → client_step (at_conn n leaves) c
      ≡ some (record (set_conn c n (record k { phase = ConnPhase.finished })) {
        channels = delete c.channels k.channel;
      })
unfolding client_step on_conn conn_step
leaves_lem c n k found copies free wk rk =
    ap (on_conn c n leaves) found ∙ ap (conn_step c n k leaves) copies ∙ rw (free, wk, rk) refl

drain_lem :
    (c : Client) (n : ℕ) (k : Conn) (q : List Bytes)
    → get_elem? c.conns n ≡ some k
    → k.queue ≡ q
    → k.phase ≡ ConnPhase.copying
    → k.writer_live ≡ true
    → sender_of (c.channels k.channel) n ≡ false
    → All (λ b. b ≢ []) q
    → (d : Client) × (k' : Conn) × (client_run (drain_events n q) c ≡ some d)
      × (get_elem? d.conns n ≡ some k')
      × (k'.written ≡ k.written ++ all_bytes q)
      × (k'.writer_live ≡ false)
unfolding client_run then_step put_conn write_next is_empty
drain_lem c n k [] found queue copies live cut full =
    let k' : Conn = record k { writer_live = false } in
    (
      set_conn c n k',
      k',
      rw (writes_lem c n k found copies live, queue, cut) refl,
      get_elem?-set_self c.conns n k k' found,
      sym (append-nil k.written),
      refl,
    )
drain_lem c n k ([] ∷ q) found queue copies live cut (full, more) = absurd (full refl)
drain_lem c n k ((x ∷ b) ∷ q) found queue copies live cut (full, more) =
    let k₁ : Conn = record k { queue = q; written = k.written ++ (x ∷ b) } in
    let (d, k', ran, there, written, ended) =
      drain_lem (set_conn c n k₁) n k₁ q (get_elem?-set_self c.conns n k k₁ found) refl copies live
        cut more in
    (
      d,
      k',
      rw (writes_lem c n k found copies live, queue) ran,
      there,
      written ∙ append_assoc k.written (x ∷ b) (all_bytes q),
      ended,
    )

-- Once the server has ended its side of a channel, so that the map has no sender for the
-- connection's queue, the writing task writes all that is queued, if no buffer of it is empty, to a
-- socket that takes it, and ends of itself, a step for each buffer and one more.
pub drained :
    (c : Client) (n : ℕ) (k : Conn)
    → get_elem? c.conns n ≡ some k
    → k.phase ≡ ConnPhase.copying
    → k.writer_live ≡ true
    → sender_of (c.channels k.channel) n ≡ false
    → All (λ b. b ≢ []) k.queue
    → (d : Client) × (k' : Conn) × (client_run (drain_events n k.queue) c ≡ some d)
      × (get_elem? d.conns n ≡ some k')
      × (k'.written ≡ k.written ++ all_bytes k.queue)
      × (k'.writer_live ≡ false)
drained c n k found copies live cut full = drain_lem c n k k.queue found refl copies live cut full

-- A connection whose channel has been drawn again takes the newer connection off the map when it
-- ends: the newer one's writing task, its queue empty, then ends too, although nobody has ended its
-- channel.
pub stale_end :
    (c : Client) (n m : ℕ) (k j : Conn)
    → n ≢ m
    → get_elem? c.conns n ≡ some k
    → get_elem? c.conns m ≡ some j
    → j.channel ≡ k.channel
    → c.channels k.channel ≡ some m
    → unlocked c.demux ≡ true
    → k.phase ≡ ConnPhase.copying
    → k.writer_live ≡ false
    → k.reader_live ≡ false
    → j.phase ≡ ConnPhase.copying
    → j.writer_live ≡ true
    → j.queue ≡ []
    → (d : Client) × (client_run (at_conn n leaves ∷ at_conn m (writes true) ∷ []) c ≡ some d)
      × (d.channels k.channel ≡ none)
      × (get_elem? d.conns m ≡ some (record j { writer_live = false }))
unfolding client_run then_step put_conn write_next sender_of
stale_end c n m k j apart here there again leads free ck wk rk cj wj empty =
    let ended : Conn = record k { phase = ConnPhase.finished } in
    let c₁ : Client = record (set_conn c n ended) { channels = delete c.channels k.channel } in
    let there₁ : get_elem? c₁.conns m ≡ some j = get_elem?-set_ne c.conns n m ended apart ∙ there in
    let gone : delete c.channels k.channel j.channel ≡ none = ground (arith, again) in
    let off : delete c.channels k.channel k.channel ≡ none = ground arith in
    let j' : Conn = record j { writer_live = false } in
    (
      set_conn c₁ m j',
      rw (leaves_lem c n k here ck free wk rk, writes_lem c₁ m j there₁ cj wj, empty, gone) refl,
      off,
      get_elem?-set_self c₁.conns m j j' there₁,
    )
