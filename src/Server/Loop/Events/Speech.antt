-- ===== src/Server/Loop/Events/Speech.antt =====
-- rushtle/src/server.rs, what the main loop hands to the writer task for a frame.
use kubectl_sshuttle.Base.{
  ℕ, ◌≡◌, refl, Bool, true, false, ◌&&◌, ◌||◌, Option, none, some, [], ◌∷◌, ◌++◌, arith, ◌==◌,
  if◌then◌else◌, ltb, length, get_elem?, Bool-cases, inl, inr, ok, err, Result, ParseError,
}
use kubectl_sshuttle.Text.Utf8.{Bytes, Str}
use kubectl_sshuttle.Ssnet.Cmd
use kubectl_sshuttle.Ssnet.Frame.{Frame, frame}
use kubectl_sshuttle.Ssnet.Carried.{IsPlain, kind-IsPlain, other-IsPlain}
use kubectl_sshuttle.Ssnet.Connect.{ConnectTarget, parse_connect}
use kubectl_sshuttle.Ssnet.Udp.{parse_udp_data}
use kubectl_sshuttle.Server.Hosts.{read_etc_hosts, encode_host_list}
use kubectl_sshuttle.Server.Loop.State.{Server, TcpTask, UdpTask, capacity, is_dropped}
use kubectl_sshuttle.Server.Loop.{
  emit, set_task, offer, offer_udp, spawn_tcp, on_connect, on_data, family_of, spawn_udp,
  on_udp_data, handle,
}
use kubectl_sshuttle.Server.Loop.Events.Said.{Said, Said-if, apart, quiet, sent_aside, pushed}

-- the frame does not ask for a connection on the channel
abbrev pub NoConnect : ℕ → Frame → Type 0
NoConnect ch f = (f.cmd == Cmd.tcp_connect && f.channel == ch) ≡ false

pub offer-Said :
    (n m : ℕ) (t : TcpTask) (s : Server) (buf : Bytes) (o : Option TcpTask)
    → get_elem? s.tasks n ≡ some t
    → get_elem? s.tasks m ≡ o
    → Said n t [] s (offer s m buf o)
unfolding offer set_task
offer-Said n m t s buf none found hu = apart n t s s found refl refl
offer-Said n m t s buf (some u) found hu = elim (Bool-cases (is_dropped u)) [
  | inl gone ↦ rw gone (apart n t s _ found refl refl)
  | inr live ↦ elim (Bool-cases (ltb (length u.queue) capacity)) [
    | inl room ↦
        rw (live, room)
          (quiet n m t u (record u { queue = u.queue ++ buf ∷ [] }) s _ found hu refl refl refl
            refl)
    | inr full ↦ rw (live, full) (apart n t s _ found refl refl)
  ]
]

on_data-Said :
    (n : ℕ) (t : TcpTask) (s : Server) (buf : Bytes) (o : Option ℕ)
    → get_elem? s.tasks n ≡ some t
    → Said n t [] s (on_data s buf o)
unfolding on_data
on_data-Said n t s buf none found = apart n t s s found refl refl
on_data-Said n t s buf (some m) found = offer-Said n m t s buf (get_elem? s.tasks m) found refl

pub offer_udp-Said :
    (n m : ℕ) (t : TcpTask) (s : Server) (item : Str × ℕ × Bytes) (o : Option UdpTask)
    → get_elem? s.tasks n ≡ some t
    → Said n t [] s (offer_udp s m item o)
unfolding offer_udp
offer_udp-Said n m t s item none found = apart n t s s found refl refl
offer_udp-Said n m t s item (some u) found =
    Said-if n t [] s _ _ (ltb (length u.queue) capacity) (apart n t s _ found refl refl)
      (apart n t s _ found refl refl)

on_udp_data-Said :
    (n : ℕ) (t : TcpTask) (s : Server) (o : Option ℕ) (r : Result ParseError (Str × ℕ × Bytes))
    → get_elem? s.tasks n ≡ some t
    → Said n t [] s (on_udp_data s o r)
unfolding on_udp_data
on_udp_data-Said n t s o (err e) found = apart n t s s found refl refl
on_udp_data-Said n t s none (ok item) found = apart n t s s found refl refl
on_udp_data-Said n t s (some m) (ok item) found =
    offer_udp-Said n m t s item (get_elem? s.udp_tasks m) found

spawn_udp-Said :
    (n : ℕ) (t : TcpTask) (binds : Bool) (s : Server) (channel family : ℕ)
    → get_elem? s.tasks n ≡ some t
    → Said n t [] s (spawn_udp binds s channel family)
unfolding spawn_udp
spawn_udp-Said n t false s channel family found = apart n t s s found refl refl
spawn_udp-Said n t true s channel family found = apart n t s _ found refl refl

on_connect-Said :
    (n : ℕ) (t : TcpTask) (s : Server) (f : Frame) (r : Result ParseError ConnectTarget)
    → get_elem? s.tasks n ≡ some t
    → (f.channel == t.channel) ≡ false
    → Said n t [] s (on_connect s f r)
unfolding on_connect emit spawn_tcp
on_connect-Said n t s f (ok target) found other = pushed n t _ s _ found refl refl
on_connect-Said n t s f (err e) found other =
    sent_aside n t _ s _ found refl refl (other-IsPlain t.channel _ (ground (arith, other)))

connect_branch :
    (n : ℕ) (t : TcpTask) (s x y : Server) (f : Frame)
    → NoConnect t.channel f
    → ((f.channel == t.channel) ≡ false → Said n t [] s x)
    → Said n t [] s y
    → Said n t [] s (if f.cmd == Cmd.tcp_connect then x else y)
connect_branch n t s x y f no_connect hx hy = elim (Bool-cases (f.cmd == Cmd.tcp_connect)) [
  | inl opens ↦ rw opens (hx (rw opens at no_connect))
  | inr other ↦ rw other hy
]

pub handle-Said :
    (hosts : Option Str) (binds : Bool) (n : ℕ) (t : TcpTask) (s : Server) (f : Frame)
    → get_elem? s.tasks n ≡ some t
    → NoConnect t.channel f
    → Said n t [] s (handle hosts binds s f)
unfolding handle emit
handle-Said hosts binds n t s f found no_connect =
    let same : Said n t [] s s = apart n t s s found refl refl in
    let pick = Said-if n t [] s in
    let pong : IsPlain t.channel (frame f.channel Cmd.pong f.payload) =
      kind-IsPlain t.channel _ (ground arith) (ground arith) (ground arith) in
    let entries = encode_host_list (read_etc_hosts hosts) in
    let list : IsPlain t.channel (frame 0 Cmd.host_list entries) =
      kind-IsPlain t.channel _ (ground arith) (ground arith) (ground arith) in
    pick _ _ (f.cmd == Cmd.ping) (sent_aside n t _ s _ found refl refl pong) (
      pick _ _ (f.cmd == Cmd.pong) same (
        pick _ _ (f.cmd == Cmd.exit) (apart n t s _ found refl refl) (
          connect_branch n t s _ _ f no_connect
            (λ other. on_connect-Said n t s f (parse_connect f.payload) found other)
            (pick _ _ (f.cmd == Cmd.tcp_data) (on_data-Said n t s f.payload (s.tcp f.channel) found)
              (pick _ _ (f.cmd == Cmd.tcp_eof || f.cmd == Cmd.tcp_stop_sending)
                (apart n t s _ found refl refl)
                (pick _ _ (f.cmd == Cmd.dns_req) (apart n t s _ found refl refl) (
                  pick _ _ (f.cmd == Cmd.udp_open)
                    (spawn_udp-Said n t binds s f.channel (family_of f.payload) found)
                    (pick _ _ (f.cmd == Cmd.udp_data)
                      (on_udp_data-Said n t s (s.udp f.channel) (parse_udp_data f.payload) found)
                      (pick _ _ (f.cmd == Cmd.udp_close) (apart n t s _ found refl refl) (
                        pick _ _ (f.cmd == Cmd.host_req) (sent_aside n t _ s _ found refl refl list)
                          same))))))))))
