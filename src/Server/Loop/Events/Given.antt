-- ===== src/Server/Loop/Events/Given.antt =====
-- rushtle/src/server.rs, what a run hands to the writer task, as one task sees it.
use mathlib.Core.Path.{subst}
use kubectl_sshuttle.Base.{
  ℕ, ◌≡◌, refl, sym, ap, ◌∙◌, true, not, ◌&&◌, ◌||◌, Option, none, some, List, [], ◌∷◌, ◌++◌,
  append_assoc, arith, ◌==◌, if◌then◌else◌, leb, ltb, length, get_elem?, After, After-if, All,
  All-split, Keeps-trans, Only, Only-before,
}
use kubectl_sshuttle.Text.Utf8.{Bytes, Str}
use kubectl_sshuttle.Ssnet.Cmd
use kubectl_sshuttle.Ssnet.Frame.{Frame, frame}
use kubectl_sshuttle.Ssnet.Carried.{
  payloads, is_open, said_twice, open_twice, IsPlain, kind-IsPlain,
}
use kubectl_sshuttle.Ssnet.Udp.{encode_udp_data}
use kubectl_sshuttle.Server.Loop.State.{Server, Main, TcpTask, UdpTask, capacity, is_dropped}
use kubectl_sshuttle.Server.Loop.{emit}
use kubectl_sshuttle.Server.Loop.Bounds.{tcp_channel}
use kubectl_sshuttle.Server.Loop.Events.{
  Event, UdpEvent, udp_locked, put_udp, send_round, udp_step, answer, offer_again, offer_udp_again,
  main_step, on_udp_task, step, and_then, run,
}
use kubectl_sshuttle.Server.Loop.Events.Tasks.{arrived}
use kubectl_sshuttle.Server.Loop.Events.Heard.{arrived_in}
use kubectl_sshuttle.Server.Loop.Events.Said.{Said, speaks, apart, sent_aside, closed}
use kubectl_sshuttle.Server.Loop.Events.Saying.{read_bytes, on_task-Said}
use kubectl_sshuttle.Server.Loop.Events.Speech.{NoConnect, offer-Said, offer_udp-Said, handle-Said}

-- what an event gives the task to say
abbrev pub given_in : ℕ → Event → Bytes
given_in n (Event.tcp_event m e) = if m == n then read_bytes e else []
given_in n _ = []

-- what its socket gives a task in a run
abbrev pub given : ℕ → List Event → Bytes
given n [] = []
given n (e ∷ es) = given_in n e ++ given n es

send_round-Said :
    (n m : ℕ) (t : TcpTask) (s : Server) (u : UdpTask) (q : List (Str × ℕ × Bytes))
    → get_elem? s.tasks n ≡ some t
    → After (Said n t [] s) (send_round s m u q)
unfolding send_round put_udp
send_round-Said n m t s u [] found = tt
send_round-Said n m t s u (item ∷ rest) found = apart n t s _ found refl refl

udp_step-Said :
    (n m : ℕ) (t : TcpTask) (s : Server) (u : UdpTask) (e : UdpEvent)
    → get_elem? s.tasks n ≡ some t
    → After (Said n t [] s) (udp_step s m u e)
unfolding udp_step emit put_udp
udp_step-Said n m t s u UdpEvent.sends found = send_round-Said n m t s u u.queue found
udp_step-Said n m t s u (UdpEvent.receives ip port bytes) found =
    let plain : IsPlain t.channel (frame u.channel Cmd.udp_data (encode_udp_data ip port bytes)) =
      kind-IsPlain t.channel _ (ground arith) (ground arith) (ground arith) in
    After-if (Said n t [] s) (u.listening && not u.checking && leb (length bytes) 4096) _
      (sent_aside n t _ s _ found refl refl plain)
udp_step-Said n m t s u UdpEvent.recv_fails found =
    After-if (Said n t [] s) (u.listening && not u.checking) _ (apart n t s _ found refl refl)
udp_step-Said n m t s u UdpEvent.checks found =
    After-if (Said n t [] s) (u.checking && not (udp_locked s.main)) _
      (apart n t s _ found refl refl)

on_udp_task-Said :
    (n m : ℕ) (t : TcpTask) (s : Server) (e : UdpEvent) (o : Option UdpTask)
    → get_elem? s.tasks n ≡ some t
    → After (Said n t [] s) (on_udp_task s m e o)
unfolding on_udp_task
on_udp_task-Said n m t s e none found = tt
on_udp_task-Said n m t s e (some u) found = udp_step-Said n m t s u e found

answer-Said :
    (n i : ℕ) (t : TcpTask) (s : Server) (reply : Bytes) (o : Option (ℕ × Bytes))
    → get_elem? s.tasks n ≡ some t
    → After (Said n t [] s) (answer s i reply o)
unfolding answer emit
answer-Said n i t s reply none found = tt
answer-Said n i t s reply (some (ch, q)) found =
    let plain : IsPlain t.channel (frame ch Cmd.dns_response reply) =
      kind-IsPlain t.channel _ (ground arith) (ground arith) (ground arith) in
    After-if (Said n t [] s) (leb (length reply) 4096) _
      (sent_aside n t _ s _ found refl refl plain)

offer_again-Said :
    (n m : ℕ) (t : TcpTask) (s : Server) (buf : Bytes) (o : Option TcpTask)
    → get_elem? s.tasks n ≡ some t
    → get_elem? s.tasks m ≡ o
    → After (Said n t [] s) (offer_again s m buf o)
unfolding offer_again
offer_again-Said n m t s buf none found hu = tt
offer_again-Said n m t s buf (some u) found hu =
    After-if (Said n t [] s) (is_dropped u || ltb (length u.queue) capacity) _
      (offer-Said n m t s buf (some u) found hu)

offer_udp_again-Said :
    (n m : ℕ) (t : TcpTask) (s : Server) (item : Str × ℕ × Bytes) (o : Option UdpTask)
    → get_elem? s.tasks n ≡ some t
    → After (Said n t [] s) (offer_udp_again s m item o)
unfolding offer_udp_again
offer_udp_again-Said n m t s item none found = tt
offer_udp_again-Said n m t s item (some u) found =
    After-if (Said n t [] s) (ltb (length u.queue) capacity) _
      (offer_udp-Said n m t s item (some u) found)

main_step-Said :
    (hosts : Option Str) (e : Event) (n : ℕ) (t : TcpTask) (s : Server) (m : Main)
    → get_elem? s.tasks n ≡ some t
    → All (NoConnect t.channel) (arrived e)
    → After (Said n t [] s) (main_step hosts e s m)
unfolding main_step
main_step-Said hosts (Event.arrives binds f) n t s Main.reading found none_here =
    handle-Said hosts binds n t s f found none_here.0
main_step-Said hosts Event.input_ends n t s Main.reading found none_here =
    apart n t s _ found refl refl
main_step-Said hosts Event.offered n t s (Main.offering m buf) found none_here =
    offer_again-Said n m t s buf (get_elem? s.tasks m) found refl
main_step-Said hosts Event.offered_udp n t s (Main.offering_udp m item) found none_here =
    offer_udp_again-Said n m t s item (get_elem? s.udp_tasks m) found
main_step-Said hosts _ n t s _ found none_here = tt

step-Said :
    (hosts : Option Str) (e : Event) (n : ℕ) (t : TcpTask) (s : Server)
    → get_elem? s.tasks n ≡ some t
    → All (NoConnect t.channel) (arrived e)
    → After (Said n t (given_in n e) s) (step hosts e s)
unfolding step
step-Said hosts (Event.tcp_event m e) n t s found none_here =
    on_task-Said n m t s e (get_elem? s.tasks m) refl found
step-Said hosts (Event.udp_event m e) n t s found none_here =
    on_udp_task-Said n m t s e (get_elem? s.udp_tasks m) found
step-Said hosts (Event.dns_answered i reply) n t s found none_here =
    answer-Said n i t s reply (get_elem? s.dns i) found
step-Said hosts Event.out_closes n t s found none_here = closed n t s found
step-Said hosts e n t s found none_here = main_step-Said hosts e n t s s.main found none_here

Said-trans :
    (n : ℕ) (t i : TcpTask) (b b' : Bytes) (s u x : Server)
    → get_elem? u.tasks n ≡ some i
    → i.channel ≡ t.channel
    → Said n t b s u
    → Said n i b' u x
    → Said n t (b ++ b') s x
Said-trans n t i b b' s u x there ch v w = record {
  frames = v.frames ++ w.frames;
  shut = λ on. v.shut (w.shut on);
  sent = λ on.
      w.sent on
      ∙ ap (λ l. l ++ w.frames) (v.sent (w.shut on))
      ∙ append_assoc s.out v.frames w.frames;
  keeps = Keeps-trans tcp_channel s.tasks u.tasks x.tasks v.keeps w.keeps;
  says = λ only on.
      let only' : Only tcp_channel n i.channel x.tasks = λ m j h e. only m j h (e ∙ ch) in
      let ((i', there', e', live'), said') = w.says only' on in
      let ((i₁, there₁, e₁, live), said) =
        v.says (Only-before tcp_channel n t.channel u.tasks x.tasks w.keeps only) (w.shut on) in
      let mine : i₁ ≡ i = ground (arith, there₁, there) in
      let was : speaks i ≡ (speaks t && is_open t.channel v.frames) = sym (ap speaks mine) ∙ live in
      let goes = subst (λ y. speaks i' ≡ (speaks i && is_open y w.frames)) ch live' in
      let more = subst (λ y. b' ≡ (if speaks i then payloads y w.frames else [])) ch said' in
      (
        (i', there', e' ∙ ch, open_twice t.channel (speaks t) _ _ v.frames w.frames was goes),
        said_twice t.channel (speaks t) (speaks i) v.frames w.frames b b' was said more,
      );
}

run-Said :
    (hosts : Option Str) (es : List Event) (s x : Server) (n : ℕ) (t : TcpTask)
    → get_elem? s.tasks n ≡ some t
    → All (NoConnect t.channel) (arrived_in es)
    → run hosts es s ≡ some x
    → Said n t (given n es) s x
unfolding run and_then
run-Said hosts [] s x n t found none_here ran =
    let e : s ≡ x = cc in rw (← e) (apart n t s s found refl refl)
run-Said hosts (e ∷ es) s x n t found none_here ran =
    let (now, soon) = All-split (NoConnect t.channel) (arrived e) (arrived_in es) none_here in
    go (step hosts e s) (step-Said hosts e n t s found now) ran (λ u i there ch more.
      run-Said hosts es u x n i there (subst (λ y. All (NoConnect y) (arrived_in es)) (sym ch) soon)
        more)
  where
    go :
        (o : Option Server)
        → After (Said n t (given_in n e) s) o
        → and_then o (run hosts es) ≡ some x
        → ((u : Server) (i : TcpTask)
            → get_elem? u.tasks n ≡ some i
            → i.channel ≡ t.channel
            → run hosts es u ≡ some x
            → Said n i (given n es) u x)
        → Said n t (given_in n e ++ given n es) s x
    go none v more later = cc
    go (some u) v more later =
        let (i, there, ch) = v.keeps n t found in
        Said-trans n t i (given_in n e) (given n es) s u x there ch v (later u i there ch more)

-- In a run at whose end the writer task still runs and no other task has the task's channel, and in which no frame asks for a
-- connection on it, the frames that are handed to the writer task carry on that channel, up to its
-- end, exactly what the task's socket gave it, in order.
pub run-said :
    (hosts : Option Str) (es : List Event) (s x : Server) (n : ℕ) (t : TcpTask)
    → get_elem? s.tasks n ≡ some t
    → speaks t ≡ true
    → All (NoConnect t.channel) (arrived_in es)
    → run hosts es s ≡ some x
    → Only tcp_channel n t.channel x.tasks
    → x.out_open ≡ true
    → (fs : List Frame) × (x.out ≡ s.out ++ fs) × (given n es ≡ payloads t.channel fs)
run-said hosts es s x n t found live none_here ran only on =
    let v = run-Said hosts es s x n t found none_here ran in
    let (kept, said) = v.says only on in
    (v.frames, v.sent on, said ∙ ap (λ b. if b then payloads t.channel v.frames else []) live)
