-- ===== src/Server/Loop/Events/Steps.antt =====
-- rushtle/src/server.rs, the bytes of a TCP channel through one step.
use mathlib.Core.Path.{ap₂}
use kubectl_sshuttle.Base.{
  get_elem?-set_self, ℕ, ◌≡◌, refl, sym, ap, ◌∙◌, ◌⊎◌, inl, inr, Bool, true, false, not, ◌||◌,
  Option, none, some, List, [], ◌∷◌, ◌++◌, append_assoc, append-nil, if◌then◌else◌, get_elem?, set,
  Bool-cases, ℕ_discrete,
}
use kubectl_sshuttle.Text.Utf8.{Bytes, Str}
use kubectl_sshuttle.Ssnet.Cmd
use kubectl_sshuttle.Ssnet.Frame.{frame}
use kubectl_sshuttle.Server.Loop.State.{Server, Main, TcpTask, UdpTask, Phase, is_dropped}
use kubectl_sshuttle.Server.Loop.{emit, set_task, offer, offer_udp, handle}
use kubectl_sshuttle.Server.Loop.Events.{
  Event, TcpEvent, tcp_step, write_round, put_back, remove_task, no_bytes, has_sender, step,
  on_task, main_step, offer_again, offer_udp_again,
}
use kubectl_sshuttle.Server.Loop.Events.Alone.{
  tcp_step-Alone, Same, shut-Same, on_udp_task-Same, answer-Same,
}
use kubectl_sshuttle.Server.Loop.Events.Flow.{
  held, flow, concat, Moved, still, offer-own, offer-other, self_eq, other_eq,
}
use kubectl_sshuttle.Server.Loop.Events.Frames.{offer_udp-Kept, brought, handle-Moved}

Moved-some :
    (n : ℕ) (t : TcpTask) (b d : Bytes) (u s' : Server)
    → Moved n t b d u
    → some u ≡ some s'
    → Moved n t b d s'
Moved-some n t b d u s' v h = let e : u ≡ s' = cc in rw (← e) v

Moved-when :
    (c : Bool) (n : ℕ) (t : TcpTask) (b d : Bytes) (u s' : Server)
    → Moved n t b d u
    → (if c then some u else none) ≡ some s'
    → Moved n t b d s'
Moved-when true n t b d u s' v h = Moved-some n t b d u s' v h
Moved-when false n t b d u s' v h = cc

Moved-unless :
    (c : Bool) (n : ℕ) (t : TcpTask) (b d : Bytes) (u s' : Server)
    → Moved n t b d u
    → (if c then none else some u) ≡ some s'
    → Moved n t b d s'
Moved-unless false n t b d u s' v h = Moved-some n t b d u s' v h
Moved-unless true n t b d u s' v h = cc

-- the task is replaced by one with the same flow, or by one that has dropped its queue
replaced :
    (n : ℕ) (t t' : TcpTask) (s x : Server)
    → get_elem? s.tasks n ≡ some t
    → x.tasks ≡ set s.tasks n t'
    → x.main ≡ s.main
    → (is_dropped t' ≡ true) ⊎ (flow t' (held s.main n) ≡ flow t (held s.main n))
    → (is_dropped t ≡ true → is_dropped t' ≡ true)
    → Moved n t (held s.main n) [] x
replaced n t t' s x h ts m g stay = record {
  task = t';
  found = rw ts (get_elem?-set_self s.tasks n t t' h);
  grown = elim g [
    | inl gone ↦ inl gone
    | inr e ↦ inr (rw m (e ∙ sym (append-nil (flow t (held s.main n)))))
  ];
  stays = stay;
}

when_some :
    (c : Bool) (o : Option Server) (s' : Server) → (if c then o else none) ≡ some s' → o ≡ some s'
when_some true o s' h = h
when_some false o s' h = cc

write_round-Moved :
    (s s' : Server) (n : ℕ) (t : TcpTask) (sender good : Bool) (q : List Bytes)
    → get_elem? s.tasks n ≡ some t
    → t.phase ≡ Phase.streaming
    → t.queue ≡ q
    → put_back s n (write_round sender good t q) ≡ some s'
    → Moved n t (held s.main n) [] s'
unfolding put_back write_round set_task is_dropped
write_round-Moved s s' n t true good [] h p e k = cc
write_round-Moved s s' n t false good [] h p e k =
    Moved-some n t _ [] (set_task s n (record t { writer_live = false })) s'
      (replaced n t _ s _ h refl refl (inl (rw p refl)) (λ g. rw p refl)) k
write_round-Moved s s' n t sender good (buf ∷ rest) h p e k =
    elim (Bool-cases (no_bytes buf || not good)) [
      | inl ends ↦
          Moved-some n t _ [] (set_task s n (record t { queue = []; writer_live = false })) s'
            (replaced n t _ s _ h refl refl (inl (rw p refl)) (λ g. rw p refl)) (rw ends at k)
      | inr goes ↦
          Moved-some n t _ [] (set_task s n (record t { queue = rest; written = t.written ++ buf }))
            s'
            (replaced n t _ s _ h refl refl
              (inr (rw e (regroup t.written buf (concat rest) (held s.main n)))) (λ g. g))
            (rw goes at k)
    ]
  where
    regroup : (w x y z : Bytes) → (w ++ x) ++ (y ++ z) ≡ w ++ ((x ++ y) ++ z)
    regroup w x y z = simp append_assoc

tcp_step-Moved :
    (s s' : Server) (n : ℕ) (t : TcpTask) (e : TcpEvent) (p : Phase)
    → get_elem? s.tasks n ≡ some t
    → t.phase ≡ p
    → tcp_step s n t e p ≡ some s'
    → Moved n t (held s.main n) [] s'
unfolding tcp_step set_task emit remove_task is_dropped
tcp_step-Moved s s' n t TcpEvent.connects Phase.connecting h p k =
    Moved-some n t _ [] _ s'
      (replaced n t (record t { phase = Phase.streaming }) s _ h refl refl (inr refl)
        (λ g. absurd (cc (rw p at g))))
      k
tcp_step-Moved s s' n t TcpEvent.refuses Phase.connecting h p k =
    Moved-some n t _ [] _ s'
      (replaced n t (record t { phase = Phase.refused }) s _ h refl refl (inr refl)
        (λ g. absurd (cc (rw p at g))))
      k
tcp_step-Moved s s' n t TcpEvent.removes Phase.streaming h p k =
    Moved-unless _ n t _ [] (remove_task s n t) s'
      (replaced n t (record t { phase = Phase.gone; queue = [] }) s (remove_task s n t) h refl refl
        (inl refl) (λ g. refl))
      k
tcp_step-Moved s s' n t TcpEvent.removes Phase.refused h p k =
    Moved-unless _ n t _ [] (remove_task s n t) s'
      (replaced n t (record t { phase = Phase.gone; queue = [] }) s (remove_task s n t) h refl refl
        (inl refl) (λ g. refl))
      k
tcp_step-Moved s s' n t (TcpEvent.writes good) Phase.streaming h p k =
    write_round-Moved s s' n t (has_sender (s.tcp t.channel) n) good t.queue h p refl
      (when_some t.writer_live _ s' k)
tcp_step-Moved s s' n t (TcpEvent.reads bytes) Phase.streaming h p k =
    Moved-when _ n t _ []
      (set_task (emit s (frame t.channel Cmd.tcp_data bytes)) n
        (record t { reader_live = s.out_open }))
      s' (replaced n t (record t { reader_live = s.out_open }) s _ h refl refl (inr refl) (λ g. g))
      k
tcp_step-Moved s s' n t TcpEvent.read_ends Phase.streaming h p k =
    Moved-when _ n t _ []
      (set_task (emit s (frame t.channel Cmd.tcp_eof [])) n (record t { reader_live = false })) s'
      (replaced n t (record t { reader_live = false }) s _ h refl refl (inr refl) (λ g. g)) k
tcp_step-Moved s s' n t _ _ h p k = cc

-- an offer that waited
offer_again-Moved :
    (s s' : Server) (k n : ℕ) (buf : Bytes) (t : TcpTask) (u : Option TcpTask)
    → get_elem? s.tasks k ≡ u
    → get_elem? s.tasks n ≡ some t
    → offer_again s k buf u ≡ some s'
    → Moved n t (held (Main.offering k buf) n) [] s'
unfolding offer_again
offer_again-Moved s s' k n buf t none hu h e = cc
offer_again-Moved s s' k n buf t (some u) hu h e = elim (ℕ_discrete k n) [
  | yes own ↦
      let both : some u ≡ some t = sym hu ∙ ap (get_elem? s.tasks) own ∙ h in
      let mine : u ≡ t = cc in
      rw (own, self_eq n)
        (Moved-some n t buf [] (offer s n buf (some t)) s' (offer-own s n buf t h)
          (ap₂ (λ m x. some (offer s m buf (some x))) (sym own) (sym mine) ∙ offered_some))
  | no other ↦ rw (other_eq k n other) (
      Moved-some n t [] [] (offer s k buf (some u)) s' (offer-other s k n buf t u other h)
        offered_some)
]
  where
    offered_some : some (offer s k buf (some u)) ≡ some s'
    offered_some = when_some _ (some (offer s k buf (some u))) s' e

offer_udp_again-Moved :
    (s s' : Server) (j n : ℕ) (item : Str × ℕ × Bytes) (t : TcpTask) (u : Option UdpTask)
    → get_elem? s.tasks n ≡ some t
    → held s.main n ≡ []
    → offer_udp_again s j item u ≡ some s'
    → Moved n t [] [] s'
unfolding offer_udp_again
offer_udp_again-Moved s s' j n item t none h e k = cc
offer_udp_again-Moved s s' j n item t (some u) h e k =
    let x = offer_udp s j item (some u) in
    let kept = offer_udp-Kept s n j item t (some u) (record { there = h; nothing = e }) in
    Moved-when _ n t [] [] x s' (still n t x [] kept.there kept.nothing) k

-- what an event brings for the task
abbrev pub brings : ℕ → Event → Server → Bytes
brings n (Event.arrives binds f) s = brought n f s
brings n _ s = []

main_step-Moved :
    (hosts : Option Str) (s s' : Server) (n : ℕ) (t : TcpTask) (e : Event) (m : Main)
    → s.main ≡ m
    → get_elem? s.tasks n ≡ some t
    → main_step hosts e s m ≡ some s'
    → Moved n t (held m n) (brings n e s) s'
unfolding main_step
main_step-Moved hosts s s' n t (Event.arrives binds f) Main.reading r h k =
    Moved-some n t [] _ (handle hosts binds s f) s' (handle-Moved hosts binds s n f t r h) k
main_step-Moved hosts s s' n t Event.input_ends Main.reading r h k =
    Moved-some n t [] [] (record s { main = Main.stopped }) s'
      (still n t (record s { main = Main.stopped }) [] h refl) k
main_step-Moved hosts s s' n t Event.offered (Main.offering j buf) r h k =
    offer_again-Moved s s' j n buf t (get_elem? s.tasks j) refl h k
main_step-Moved hosts s s' n t Event.offered_udp (Main.offering_udp j item) r h k =
    offer_udp_again-Moved s s' j n item t (get_elem? s.udp_tasks j) h (rw r refl) k
main_step-Moved hosts s s' n t _ _ r h k = cc

on_task-Moved :
    (s s' : Server) (m n : ℕ) (t : TcpTask) (e : TcpEvent) (u : Option TcpTask)
    → get_elem? s.tasks m ≡ u
    → get_elem? s.tasks n ≡ some t
    → on_task s m e u ≡ some s'
    → Moved n t (held s.main n) [] s'
unfolding on_task
on_task-Moved s s' m n t e none hu h k = cc
on_task-Moved s s' m n t e (some u) hu h k = elim (ℕ_discrete m n) [
  | yes own ↦
      let both : some u ≡ some t = sym hu ∙ ap (get_elem? s.tasks) own ∙ h in
      let mine : u ≡ t = cc in
      tcp_step-Moved s s' n t e t.phase h refl
        (ap₂ (λ j (x : TcpTask). tcp_step s j x e x.phase) (sym own) (sym mine) ∙ k)
  | no other ↦
      let a = tcp_step-Alone s s' m u e u.phase k in
      still n t s' (held s.main n) (a.others n other ∙ h) (ap (λ x. held x n) a.main)
]

Same-Moved :
    (s s' : Server) (n : ℕ) (t : TcpTask)
    → get_elem? s.tasks n ≡ some t
    → Same s s'
    → Moved n t (held s.main n) [] s'
Same-Moved s s' n t h (m, ts) =
    still n t s' (held s.main n) (ap (λ x. get_elem? x n) ts ∙ h) (ap (λ x. held x n) m)

-- In a step of the server a task that has a number keeps it, and either it has dropped its queue
-- afterwards, or what its socket has taken, what is queued and what the main loop holds for it have
-- grown, in this order, by exactly the payload that the step brought for it.
pub step-Moved :
    (hosts : Option Str) (e : Event) (s s' : Server) (n : ℕ) (t : TcpTask)
    → get_elem? s.tasks n ≡ some t
    → step hosts e s ≡ some s'
    → Moved n t (held s.main n) (brings n e s) s'
unfolding step
step-Moved hosts (Event.tcp_event m e) s s' n t h k =
    on_task-Moved s s' m n t e (get_elem? s.tasks m) refl h k
step-Moved hosts (Event.udp_event m e) s s' n t h k =
    Same-Moved s s' n t h (on_udp_task-Same s s' m e (get_elem? s.udp_tasks m) k)
step-Moved hosts (Event.dns_answered i reply) s s' n t h k =
    Same-Moved s s' n t h (answer-Same s s' i reply (get_elem? s.dns i) k)
step-Moved hosts Event.out_closes s s' n t h k = Same-Moved s s' n t h (shut-Same s s' k)
step-Moved hosts e s s' n t h k = main_step-Moved hosts s s' n t e s.main refl h k
