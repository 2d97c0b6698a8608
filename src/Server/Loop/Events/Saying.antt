-- ===== src/Server/Loop/Events/Saying.antt =====
-- rushtle/src/server.rs, what the steps of the TCP tasks hand to the writer task.
use kubectl_sshuttle.Base.{
  ℕ, ◌≡◌, ◌≢◌, refl, sym, ap, ◌∙◌, Bool, false, not, ◌&&◌, ◌||◌, Option, none, some, List, [], ◌∷◌,
  arith, ◌==◌, if◌then◌else◌, leb, length, get_elem?, set, ℕ_discrete, Keeps-set, After, After-if,
  After-unless, After-when, After-clear,
}
use kubectl_sshuttle.Text.Utf8.{Bytes}
use kubectl_sshuttle.Ssnet.Cmd
use kubectl_sshuttle.Ssnet.Frame.{Frame, frame, chunk}
use kubectl_sshuttle.Ssnet.Carried.{
  other-IsPlain, data-carried, eof-ends, stop-ends, carried, is_end,
}
use kubectl_sshuttle.Server.Loop.State.{Server, TcpTask, Phase}
use kubectl_sshuttle.Server.Loop.{emit, handed, set_task}
use kubectl_sshuttle.Server.Loop.Bounds.{tcp_channel}
use kubectl_sshuttle.Server.Loop.Events.{
  TcpEvent, tcp_locked, has_sender, no_bytes, write_round, put_back, remove_task, tcp_step, on_task,
}
use kubectl_sshuttle.Server.Loop.Events.Flow.{self_eq, other_eq}
use kubectl_sshuttle.Server.Loop.Events.Said.{
  Said, wire, speaks, Said-one, Said-plain, Keeping-set, Keeping-other, quiet,
}

-- what the task's own event gives it to say
abbrev pub read_bytes : TcpEvent → Bytes
read_bytes (TcpEvent.reads bytes) = bytes
read_bytes _ = []

write_round-keeps :
    (sender good : Bool) (u : TcpTask) (q : List Bytes) (u' : TcpTask)
    → write_round sender good u q ≡ some u'
    → (u'.channel ≡ u.channel) × (speaks u' ≡ speaks u)
unfolding write_round
write_round-keeps sender good u [] u' h = ground arith
write_round-keeps sender good u (buf ∷ rest) u' h = ground arith

put_back-Said :
    (n m : ℕ) (t u : TcpTask) (s : Server) (o : Option TcpTask)
    → get_elem? s.tasks n ≡ some t
    → get_elem? s.tasks m ≡ some u
    → ((u' : TcpTask) → o ≡ some u' → (u'.channel ≡ u.channel) × (speaks u' ≡ speaks u))
    → After (Said n t [] s) (put_back s m o)
unfolding put_back set_task
put_back-Said n m t u s none found hu same = tt
put_back-Said n m t u s (some u') found hu same =
    let (ch, live) = same u' refl in quiet n m t u u' s _ found hu ch live refl refl

removed-Said :
    (n m : ℕ) (t u : TcpTask) (s : Server)
    → get_elem? s.tasks n ≡ some t
    → get_elem? s.tasks m ≡ some u
    → speaks u ≡ false
    → Said n t [] s (remove_task s m u)
unfolding remove_task set_task
removed-Said n m t u s found hu silent =
    quiet n m t u (record u { phase = Phase.gone; queue = [] }) s _ found hu refl (sym silent) refl
      refl

-- what the task itself hands over, and another
own_one :
    (n : ℕ) (t t' : TcpTask) (b : Bytes) (f : Frame) (s x : Server)
    → get_elem? s.tasks n ≡ some t
    → t'.channel ≡ t.channel
    → speaks t' ≡ (speaks t && not (is_end t.channel f))
    → b ≡ (if speaks t then carried t.channel f else [])
    → x.tasks ≡ set s.tasks n t'
    → wire x ≡ (handed s.out_open s.out f, s.out_open)
    → Said n t b s x
own_one n t t' b f s x found ch live said ts out =
    Said-one n t b f s x out (Keeps-set tcp_channel s.tasks x.tasks n t t' found ch ts)
      (λ only on. (Keeping-set s x n t t' _ found ch live ts, said))

other_one :
    (n m : ℕ) (t u u' : TcpTask) (f : Frame) (s x : Server)
    → m ≢ n
    → get_elem? s.tasks n ≡ some t
    → get_elem? s.tasks m ≡ some u
    → u'.channel ≡ u.channel
    → f.channel ≡ u.channel
    → x.tasks ≡ set s.tasks m u'
    → wire x ≡ (handed s.out_open s.out f, s.out_open)
    → Said n t [] s x
other_one n m t u u' f s x ne found hu ch on ts out =
    Said-plain n t f s x out (Keeps-set tcp_channel s.tasks x.tasks m u u' hu ch ts)
      (λ only. other-IsPlain t.channel f (λ e. ne (only m u hu (sym on ∙ e))))
      (Keeping-other s x m n t u' ne found ts)

-- The task's own steps.
own-Said :
    (n : ℕ) (t : TcpTask) (s : Server) (e : TcpEvent) (p : Phase)
    → get_elem? s.tasks n ≡ some t
    → t.phase ≡ p
    → After (Said n t (read_bytes e) s) (tcp_step s n t e p)
unfolding tcp_step emit set_task
own-Said n t s TcpEvent.connects Phase.connecting found ph =
    quiet n n t t (record t { phase = Phase.streaming }) s _ found found refl (ground arith) refl
      refl
own-Said n t s TcpEvent.refuses Phase.connecting found ph =
    let (said, ends) = stop-ends t.channel in
    own_one n t (record t { phase = Phase.refused }) [] _ s _ found refl (ground (arith, ends))
      (ground (arith, said)) refl refl
own-Said n t s TcpEvent.removes Phase.refused found ph =
    After-unless (Said n t [] s) (tcp_locked s.main) _
      (removed-Said n n t t s found found (ground arith))
own-Said n t s TcpEvent.removes Phase.streaming found ph =
    After-clear (Said n t [] s) (tcp_locked s.main || t.writer_live || t.reader_live) _
      (λ h. removed-Said n n t t s found found (ground arith))
own-Said n t s (TcpEvent.writes good) Phase.streaming found ph =
    let sender = has_sender (s.tcp t.channel) n in
    After-if (Said n t [] s) t.writer_live _ (
      put_back-Said n n t t s (write_round sender good t t.queue) found found
        (λ u' h. write_round-keeps sender good t t.queue u' h))
own-Said n t s (TcpEvent.reads bytes) Phase.streaming found ph =
    let (said, goes) = data-carried t.channel bytes in
    After-when (Said n t bytes s)
      (t.reader_live && not (no_bytes bytes) && leb (length bytes) chunk) _
      λ h.
        let t' : TcpTask = record t { reader_live = s.out_open } in
        let f = frame t.channel Cmd.tcp_data bytes in
        let x : Server = record s { tasks = set s.tasks n t'; out = handed s.out_open s.out f } in
        Said-one n t bytes f s x refl
          (Keeps-set tcp_channel s.tasks (set s.tasks n t') n t t' found refl refl)
          λ only on. (
            Keeping-set s x n t t' _ found refl (ground (arith, goes, on)) refl,
            ground (arith, said),
          )
own-Said n t s TcpEvent.read_ends Phase.streaming found ph =
    let (said, ends) = eof-ends t.channel in
    After-if (Said n t [] s) t.reader_live _ (
      own_one n t (record t { reader_live = false }) [] _ s _ found refl (ground (arith, ends))
        (ground (arith, said)) refl refl)
own-Said n t s _ _ found ph = tt

-- Another task's steps.
other-Said :
    (n m : ℕ) (t u : TcpTask) (s : Server) (e : TcpEvent) (p : Phase)
    → m ≢ n
    → get_elem? s.tasks n ≡ some t
    → get_elem? s.tasks m ≡ some u
    → u.phase ≡ p
    → After (Said n t [] s) (tcp_step s m u e p)
unfolding tcp_step emit set_task
other-Said n m t u s TcpEvent.connects Phase.connecting ne found hu ph =
    quiet n m t u (record u { phase = Phase.streaming }) s _ found hu refl (ground arith) refl refl
other-Said n m t u s TcpEvent.refuses Phase.connecting ne found hu ph =
    other_one n m t u (record u { phase = Phase.refused }) _ s _ ne found hu refl refl refl refl
other-Said n m t u s TcpEvent.removes Phase.refused ne found hu ph =
    After-unless (Said n t [] s) (tcp_locked s.main) _
      (removed-Said n m t u s found hu (ground arith))
other-Said n m t u s TcpEvent.removes Phase.streaming ne found hu ph =
    After-clear (Said n t [] s) (tcp_locked s.main || u.writer_live || u.reader_live) _
      (λ h. removed-Said n m t u s found hu (ground arith))
other-Said n m t u s (TcpEvent.writes good) Phase.streaming ne found hu ph =
    let sender = has_sender (s.tcp u.channel) m in
    After-if (Said n t [] s) u.writer_live _ (
      put_back-Said n m t u s (write_round sender good u u.queue) found hu
        (λ u' h. write_round-keeps sender good u u.queue u' h))
other-Said n m t u s (TcpEvent.reads bytes) Phase.streaming ne found hu ph =
    After-if (Said n t [] s) (u.reader_live && not (no_bytes bytes) && leb (length bytes) chunk) _ (
      other_one n m t u (record u { reader_live = s.out_open }) _ s _ ne found hu refl refl refl
        refl)
other-Said n m t u s TcpEvent.read_ends Phase.streaming ne found hu ph =
    After-if (Said n t [] s) u.reader_live _
      (other_one n m t u (record u { reader_live = false }) _ s _ ne found hu refl refl refl refl)
other-Said n m t u s _ _ ne found hu ph = tt

pub on_task-Said :
    (n m : ℕ) (t : TcpTask) (s : Server) (e : TcpEvent) (o : Option TcpTask)
    → get_elem? s.tasks m ≡ o
    → get_elem? s.tasks n ≡ some t
    → After (Said n t (if m == n then read_bytes e else []) s) (on_task s m e o)
unfolding on_task
on_task-Said n m t s e none hm found = tt
on_task-Said n m t s e (some u) hm found = elim (ℕ_discrete m n) [
  | yes own ↦
      let both : some u ≡ some t = sym hm ∙ ap (get_elem? s.tasks) own ∙ found in
      let mine : u ≡ t = cc in rw (own, mine, self_eq n) (own-Said n t s e t.phase found refl)
  | no other ↦ rw (other_eq m n other) (other-Said n m t u s e u.phase other found hm refl)
]
