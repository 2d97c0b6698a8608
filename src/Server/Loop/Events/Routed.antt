-- ===== src/Server/Loop/Events/Routed.antt =====
-- rushtle/src/server.rs, where the map sends the channel of a task, through one step.
use kubectl_sshuttle.Base.{
  ℕ, ◌≡◌, refl, sym, ap, ◌⊎◌, inl, inr, Bool, true, false, ◌||◌, Option, none, some, List, [], ◌∷◌,
  ◌++◌, arith, ltb, ◌==◌, ==_iff, if◌then◌else◌, length, get_elem?, Bool-cases, get_elem?-push,
  get_elem?-length, Keeps, Keeps-same, Keeps-set, Keeps-push, Only, ok, err, Result, ParseError,
}
use kubectl_sshuttle.Text.Utf8.{Bytes, Str}
use kubectl_sshuttle.Ssnet.Cmd
use kubectl_sshuttle.Ssnet.Frame.{Frame}
use kubectl_sshuttle.Ssnet.Carried.{is_open, is_end, is_open-one}
use kubectl_sshuttle.Ssnet.Connect.{ConnectTarget, parse_connect}
use kubectl_sshuttle.Ssnet.Udp.{parse_udp_data}
use kubectl_sshuttle.Server.Loop.State.{Server, TcpTask, UdpTask, capacity, is_dropped, erase}
use kubectl_sshuttle.Server.Loop.{
  emit, set_task, offer, offer_udp, spawn_tcp, on_connect, on_data, family_of, spawn_udp,
  on_udp_data, handle,
}
use kubectl_sshuttle.Server.Loop.Bounds.{tcp_channel}

-- From `s` to `x` the task `t` with the number `n` has dropped its queue, or the map sends its
-- channel where it did, unless one of the frames `fs` ended the channel.
pub record Routed (n : ℕ) (t : TcpTask) (fs : List Frame) (s x : Server) : Type 0 where
  pub keeps : Keeps tcp_channel s.tasks x.tasks
  pub routed :
      Only tcp_channel n t.channel x.tasks
      → ((t' : TcpTask) × (get_elem? x.tasks n ≡ some t') × (is_dropped t' ≡ true))
        ⊎ (x.tcp t.channel ≡ (if is_open t.channel fs then s.tcp t.channel else none))

-- The map is as it was.
pub mapped :
    (n : ℕ) (t : TcpTask) (fs : List Frame) (s x : Server)
    → Keeps tcp_channel s.tasks x.tasks
    → x.tcp t.channel ≡ s.tcp t.channel
    → is_open t.channel fs ≡ true
    → Routed n t fs s x
mapped n t fs s x keeps same goes = record { keeps = keeps; routed = λ only. inr (rw goes same) }

-- The TCP side is as it was.
pub apart :
    (n : ℕ) (t : TcpTask) (fs : List Frame) (s x : Server)
    → x.tasks ≡ s.tasks
    → x.tcp ≡ s.tcp
    → is_open t.channel fs ≡ true
    → Routed n t fs s x
apart n t fs s x ts m goes =
    mapped n t fs s x (Keeps-same tcp_channel s.tasks x.tasks ts) (ap (λ y. y t.channel) m) goes

Routed-if :
    (n : ℕ) (t : TcpTask) (fs : List Frame) (s x y : Server) (b : Bool)
    → Routed n t fs s x
    → Routed n t fs s y
    → Routed n t fs s (if b then x else y)
Routed-if n t fs s x y true hx hy = hx
Routed-if n t fs s x y false hx hy = hy

pub offer-Routed :
    (n m : ℕ) (t : TcpTask) (fs : List Frame) (s : Server) (buf : Bytes) (o : Option TcpTask)
    → get_elem? s.tasks m ≡ o
    → is_open t.channel fs ≡ true
    → Routed n t fs s (offer s m buf o)
unfolding offer set_task
offer-Routed n m t fs s buf none found goes = apart n t fs s s refl refl goes
offer-Routed n m t fs s buf (some u) found goes = elim (Bool-cases (is_dropped u)) [
  | inl gone ↦ rw gone (apart n t fs s _ refl refl goes)
  | inr live ↦ elim (Bool-cases (ltb (length u.queue) capacity)) [
    | inl room ↦
        rw (live, room)
          (mapped n t fs s _
            (Keeps-set tcp_channel s.tasks _ m u (record u { queue = u.queue ++ buf ∷ [] }) found
              refl refl)
            refl goes)
    | inr full ↦ rw (live, full) (apart n t fs s _ refl refl goes)
  ]
]

on_data-Routed :
    (n : ℕ) (t : TcpTask) (fs : List Frame) (s : Server) (buf : Bytes) (o : Option ℕ)
    → is_open t.channel fs ≡ true
    → Routed n t fs s (on_data s buf o)
unfolding on_data
on_data-Routed n t fs s buf none goes = apart n t fs s s refl refl goes
on_data-Routed n t fs s buf (some m) goes =
    offer-Routed n m t fs s buf (get_elem? s.tasks m) refl goes

pub offer_udp-Routed :
    (n m : ℕ) (t : TcpTask) (fs : List Frame) (s : Server) (item : Str × ℕ × Bytes)
    (o : Option UdpTask)
    → is_open t.channel fs ≡ true
    → Routed n t fs s (offer_udp s m item o)
unfolding offer_udp
offer_udp-Routed n m t fs s item none goes = apart n t fs s s refl refl goes
offer_udp-Routed n m t fs s item (some u) goes =
    Routed-if n t fs s _ _ (ltb (length u.queue) capacity) (apart n t fs s _ refl refl goes)
      (apart n t fs s _ refl refl goes)

on_udp_data-Routed :
    (n : ℕ) (t : TcpTask) (fs : List Frame) (s : Server) (found : Option ℕ)
    (r : Result ParseError (Str × ℕ × Bytes))
    → is_open t.channel fs ≡ true
    → Routed n t fs s (on_udp_data s found r)
unfolding on_udp_data
on_udp_data-Routed n t fs s found (err e) goes = apart n t fs s s refl refl goes
on_udp_data-Routed n t fs s none (ok item) goes = apart n t fs s s refl refl goes
on_udp_data-Routed n t fs s (some m) (ok item) goes =
    offer_udp-Routed n m t fs s item (get_elem? s.udp_tasks m) goes

spawn_udp-Routed :
    (n : ℕ) (t : TcpTask) (fs : List Frame) (binds : Bool) (s : Server) (channel family : ℕ)
    → is_open t.channel fs ≡ true
    → Routed n t fs s (spawn_udp binds s channel family)
unfolding spawn_udp
spawn_udp-Routed n t fs false s channel family goes = apart n t fs s s refl refl goes
spawn_udp-Routed n t fs true s channel family goes = apart n t fs s _ refl refl goes

-- A new task has another channel, or it would be a second task with this one.
spawn_tcp-Routed :
    (n : ℕ) (t : TcpTask) (fs : List Frame) (s : Server) (channel : ℕ) (target : ConnectTarget)
    → get_elem? s.tasks n ≡ some t
    → is_open t.channel fs ≡ true
    → Routed n t fs s (spawn_tcp s channel target)
unfolding spawn_tcp
spawn_tcp-Routed n t fs s channel target found goes = record {
  keeps = Keeps-push tcp_channel s.tasks _ _ refl;
  routed = λ only. inr (elim (Bool-cases (t.channel == channel)) [
    | inl same ↦
        let twice : length s.tasks ≡ n =
          only (length s.tasks) _ (get_elem?-push s.tasks _)
            (sym ((==_iff t.channel channel).0 same)) in
        let nobody = get_elem?-length s.tasks in
        absurd (cc (ap (get_elem? s.tasks) twice, nobody, found))
    | inr other ↦ rw (other, goes) refl
  ]);
}

on_connect-Routed :
    (n : ℕ) (t : TcpTask) (fs : List Frame) (s : Server) (f : Frame)
    (r : Result ParseError ConnectTarget)
    → get_elem? s.tasks n ≡ some t
    → is_open t.channel fs ≡ true
    → Routed n t fs s (on_connect s f r)
unfolding on_connect emit
on_connect-Routed n t fs s f (ok target) found goes =
    spawn_tcp-Routed n t fs s f.channel target found goes
on_connect-Routed n t fs s f (err e) found goes = apart n t fs s _ refl refl goes

-- a frame that ends no channel
handle_other-Routed :
    (hosts : Option Str) (binds : Bool) (n : ℕ) (t : TcpTask) (fs : List Frame) (s : Server)
    (f : Frame)
    → get_elem? s.tasks n ≡ some t
    → is_open t.channel fs ≡ true
    → (f.cmd == Cmd.tcp_eof || f.cmd == Cmd.tcp_stop_sending) ≡ false
    → Routed n t fs s (handle hosts binds s f)
unfolding handle emit
handle_other-Routed hosts binds n t fs s f found goes other =
    let same : Routed n t fs s s = apart n t fs s s refl refl goes in
    rw other (
      Routed-if n t fs s _ _ (f.cmd == Cmd.ping) (apart n t fs s _ refl refl goes) (
        Routed-if n t fs s _ _ (f.cmd == Cmd.pong) same (
          Routed-if n t fs s _ _ (f.cmd == Cmd.exit) (apart n t fs s _ refl refl goes) (
            Routed-if n t fs s _ _ (f.cmd == Cmd.tcp_connect)
              (on_connect-Routed n t fs s f (parse_connect f.payload) found goes)
              (Routed-if n t fs s _ _ (f.cmd == Cmd.tcp_data)
                (on_data-Routed n t fs s f.payload (s.tcp f.channel) goes)
                (Routed-if n t fs s _ _ (f.cmd == Cmd.dns_req) (apart n t fs s _ refl refl goes) (
                  Routed-if n t fs s _ _ (f.cmd == Cmd.udp_open)
                    (spawn_udp-Routed n t fs binds s f.channel (family_of f.payload) goes)
                    (Routed-if n t fs s _ _ (f.cmd == Cmd.udp_data)
                      (on_udp_data-Routed n t fs s (s.udp f.channel) (parse_udp_data f.payload)
                        goes)
                      (Routed-if n t fs s _ _ (f.cmd == Cmd.udp_close)
                        (apart n t fs s _ refl refl goes)
                        (Routed-if n t fs s _ _ (f.cmd == Cmd.host_req)
                          (apart n t fs s _ refl refl goes) same))))))))))

handle_end :
    (hosts : Option Str) (binds : Bool) (s : Server) (f : Frame)
    → (f.cmd == Cmd.tcp_eof || f.cmd == Cmd.tcp_stop_sending) ≡ true
    → handle hosts binds s f ≡ record s { tcp = erase s.tcp f.channel }
unfolding handle
handle_end hosts binds s f h = elim (Bool-cases (f.cmd == Cmd.tcp_eof)) [
  | inl eof ↦ let e : f.cmd ≡ Cmd.tcp_eof = (==_iff f.cmd Cmd.tcp_eof).0 eof in rw e refl
  | inr other ↦
      let e : f.cmd ≡ Cmd.tcp_stop_sending =
        (==_iff f.cmd Cmd.tcp_stop_sending).0 (rw other at h) in
      rw e refl
]

pub handle-Routed :
    (hosts : Option Str) (binds : Bool) (n : ℕ) (t : TcpTask) (s : Server) (f : Frame)
    → get_elem? s.tasks n ≡ some t
    → Routed n t (f ∷ []) s (handle hosts binds s f)
unfolding is_end
handle-Routed hosts binds n t s f found =
    elim (Bool-cases (f.cmd == Cmd.tcp_eof || f.cmd == Cmd.tcp_stop_sending)) [
      | inl ends ↦ rw (handle_end hosts binds s f ends) (record {
        keeps = Keeps-same tcp_channel s.tasks s.tasks refl;
        routed = λ only. inr (rw (is_open-one t.channel f, ends) (ground arith));
      })
      | inr other ↦
          handle_other-Routed hosts binds n t (f ∷ []) s f found
            (rw (is_open-one t.channel f, other) refl) other
    ]
