-- ===== src/Client/Forward/Events/Speech.antt =====
-- rushtle/src/client.rs, what a run hands to the writer task, as one connection sees it.
use mathlib.Core.Path.{subst}
use kubectl_sshuttle.Base.{
  ℕ, ◌≡◌, refl, sym, ap, ◌∙◌, Bool, true, false, ◌&&◌, ◌||◌, Option, none, some, List, [], ◌∷◌,
  ◌++◌, append_assoc, arith, if◌then◌else◌, ltb, length, get_elem?, get_elem?-append,
}
use kubectl_sshuttle.Base.{Only, Only-before, Keeps-push, Keeps-trans}
use kubectl_sshuttle.Client.Forward.Bounds.{channel_of}
use kubectl_sshuttle.Text.Utf8.{Bytes}
use kubectl_sshuttle.Ssnet.Frame.{Frame}
use kubectl_sshuttle.Ssnet.Carried.{payloads, is_open, said_twice, open_twice}
use kubectl_sshuttle.Client.Forward.State.{
  Client, Conn, Demux, Accept, Address, inbound, in_rx_dropped, unlocked,
}
use kubectl_sshuttle.Client.Forward.Events.{
  ClientEvent, arrives, input_ends, delivered, output_fails, accepts, accept_fails, inserts,
  queried, at_conn, accept_of, draw, spawn_conn, accept_failed, deliver_again, demux_step,
  client_step, then_step, client_run,
}
use kubectl_sshuttle.Base.{After, After-if}
use kubectl_sshuttle.Client.Forward.Events.Told.{Told, Told-nothing}
use kubectl_sshuttle.Client.Forward.Events.Telling.{apart}
use kubectl_sshuttle.Client.Forward.Events.Spoken.{
  spoken_in, spoken, on_conn-Told, deliver-Told, demux_frame-Told, on_query-Told,
}

draw-Told :
    (c : Client) (n : ℕ) (k : Conn) (v6 : Bool) (dst : Address) (a : Accept)
    → get_elem? c.conns n ≡ some k
    → After (Told n k [] c) (draw c v6 dst a)
unfolding draw
draw-Told c n k false dst Accept.listening h = apart n k c _ h refl refl refl
draw-Told c n k true dst Accept.listening h = apart n k c _ h refl refl refl
draw-Told c n k v6 dst (Accept.inserting x d) h = tt

-- a connection is added
pushed :
    (c d : Client) (n : ℕ) (j k : Conn)
    → get_elem? c.conns n ≡ some k
    → d.conns ≡ c.conns ++ j ∷ []
    → d.out ≡ c.out
    → d.out_open ≡ c.out_open
    → Told n k [] c d
pushed c d n j k h conns out same =
    Told-nothing n k c d out (λ g. sym same ∙ g) (Keeps-push channel_of c.conns d.conns j conns)
      (k, ap (λ l. get_elem? l n) conns ∙ get_elem?-append c.conns (j ∷ []) n k h, refl, refl)

spawn_conn-Told :
    (c : Client) (n : ℕ) (k : Conn) (v6 : Bool) (a : Accept)
    → get_elem? c.conns n ≡ some k
    → After (Told n k [] c) (spawn_conn c v6 a)
unfolding spawn_conn
spawn_conn-Told c n k v6 Accept.listening h = tt
spawn_conn-Told c n k false (Accept.inserting x dst) h =
    After-if (Told n k [] c) (unlocked c.demux) _ (pushed c _ n _ k h refl refl refl)
spawn_conn-Told c n k true (Accept.inserting x dst) h =
    After-if (Told n k [] c) (unlocked c.demux) _ (pushed c _ n _ k h refl refl refl)

accept_failed-Told :
    (c : Client) (n : ℕ) (k : Conn) (a : Accept)
    → get_elem? c.conns n ≡ some k
    → After (Told n k [] c) (accept_failed c a)
unfolding accept_failed
accept_failed-Told c n k Accept.listening h = apart n k c c h refl refl refl
accept_failed-Told c n k (Accept.inserting x d) h = tt

deliver_again-Told :
    (c : Client) (m n : ℕ) (buf : Bytes) (k : Conn) (o : Option Conn)
    → get_elem? c.conns m ≡ o
    → get_elem? c.conns n ≡ some k
    → After (Told n k [] c) (deliver_again c m buf o)
unfolding deliver_again
deliver_again-Told c m n buf k none hm h = tt
deliver_again-Told c m n buf k (some j) hm h =
    After-if (Told n k [] c) (in_rx_dropped j || ltb (length j.queue) inbound) _
      (deliver-Told c m n buf (some j) k hm h)

demux_step-Told :
    (e : ClientEvent) (c : Client) (n : ℕ) (k : Conn) (m : Demux)
    → get_elem? c.conns n ≡ some k
    → After (Told n k [] c) (demux_step e c m)
unfolding demux_step
demux_step-Told (arrives f) c n k Demux.reading h = demux_frame-Told c n k f h
demux_step-Told input_ends c n k Demux.reading h = apart n k c _ h refl refl refl
demux_step-Told delivered c n k (Demux.offering m buf) h =
    deliver_again-Told c m n buf k (get_elem? c.conns m) refl h
demux_step-Told _ c n k _ h = tt

client_step-Told :
    (e : ClientEvent) (c : Client) (n : ℕ) (k : Conn)
    → get_elem? c.conns n ≡ some k
    → After (Told n k (spoken_in n e) c) (client_step e c)
unfolding client_step
client_step-Told (at_conn m e) c n k h = on_conn-Told c m n k e (get_elem? c.conns m) refl h
client_step-Told (accepts v6 dst) c n k h = draw-Told c n k v6 dst (accept_of c v6) h
client_step-Told (accept_fails v6) c n k h = accept_failed-Told c n k (accept_of c v6) h
client_step-Told (inserts v6) c n k h = spawn_conn-Told c n k v6 (accept_of c v6) h
client_step-Told (queried peer query) c n k h = on_query-Told c n k peer query h
client_step-Told output_fails c n k h =
    Told-nothing n k c _ refl (λ off. absurd (cc)) (λ m j found. (j, found, refl))
      (k, h, refl, refl)
client_step-Told (arrives f) c n k h = demux_step-Told (arrives f) c n k c.demux h
client_step-Told input_ends c n k h = demux_step-Told input_ends c n k c.demux h
client_step-Told delivered c n k h = demux_step-Told delivered c n k c.demux h

Told-trans :
    (n : ℕ) (k i : Conn) (b b' : Bytes) (c x d : Client)
    → get_elem? x.conns n ≡ some i
    → i.channel ≡ k.channel
    → Told n k b c x
    → Told n i b' x d
    → Told n k (b ++ b') c d
Told-trans n k i b b' c x d there ch v w = record {
  frames = v.frames ++ w.frames;
  sent = w.sent ∙ ap (λ l. l ++ w.frames) v.sent ∙ append_assoc c.out v.frames w.frames;
  keeps = Keeps-trans channel_of c.conns x.conns d.conns v.keeps w.keeps;
  shut = λ on. v.shut (w.shut on);
  says = λ only on.
      let only' : Only channel_of n i.channel d.conns = λ m j h e. only m j h (e ∙ ch) in
      let ((i', there', e', live'), said') = w.says only' on in
      let ((i₁, there₁, e₁, live), said) =
        v.says (Only-before channel_of n k.channel x.conns d.conns w.keeps only) (w.shut on) in
      let mine : i₁ ≡ i = ground (arith, there₁, there) in
      let same : i₁.reader_live ≡ i.reader_live = ap (λ (y : Conn). y.reader_live) mine in
      let was : i.reader_live ≡ (k.reader_live && is_open k.channel v.frames) = sym same ∙ live in
      let goes = subst (λ y. i'.reader_live ≡ (i.reader_live && is_open y w.frames)) ch live' in
      let more = subst (λ y. b' ≡ (if i.reader_live then payloads y w.frames else [])) ch said' in
      (
        (
          i',
          there',
          e' ∙ ch,
          open_twice k.channel k.reader_live i.reader_live i'.reader_live v.frames w.frames was
              goes,
        ),
        said_twice k.channel k.reader_live i.reader_live v.frames w.frames b b' was said more,
      );
}

client_run-Told :
    (es : List ClientEvent) (c d : Client) (n : ℕ) (k : Conn)
    → get_elem? c.conns n ≡ some k
    → client_run es c ≡ some d
    → Told n k (spoken n es) c d
unfolding client_run then_step
client_run-Told [] c d n k h ran = let e : c ≡ d = cc in rw (← e) (apart n k c c h refl refl refl)
client_run-Told (e ∷ es) c d n k h ran =
    go (client_step e c) (client_step-Told e c n k h) ran
      (λ x i hx more. client_run-Told es x d n i hx more)
  where
    go :
        (o : Option Client)
        → After (Told n k (spoken_in n e) c) o
        → then_step o (client_run es) ≡ some d
        → ((x : Client) (i : Conn)
            → get_elem? x.conns n ≡ some i
            → client_run es x ≡ some d
            → Told n i (spoken n es) x d)
        → Told n k (spoken_in n e ++ spoken n es) c d
    go none v more later = cc
    go (some x) v more later =
        let (i, there, ch) = v.keeps n k h in
        Told-trans n k i (spoken_in n e) (spoken n es) c x d there ch v (later x i there more)

-- In a run at whose end the writer task still receives, and no other connection has the connection's
-- channel, the frames that are handed to the writer task carry on that channel, up to its end,
-- exactly what the connection's local socket gave it, in order.
pub client_run-spoken :
    (es : List ClientEvent) (c d : Client) (n : ℕ) (k : Conn)
    → get_elem? c.conns n ≡ some k
    → k.reader_live ≡ true
    → client_run es c ≡ some d
    → Only channel_of n k.channel d.conns
    → d.out_open ≡ true
    → (fs : List Frame) × (d.out ≡ c.out ++ fs) × (spoken n es ≡ payloads k.channel fs)
client_run-spoken es c d n k h live ran only on =
    let v = client_run-Told es c d n k h ran in
    let (kept, said) = v.says only on in
    (v.frames, v.sent, said ∙ ap (λ b. if b then payloads k.channel v.frames else []) live)
