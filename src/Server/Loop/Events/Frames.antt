-- ===== src/Server/Loop/Events/Frames.antt =====
-- rushtle/src/server.rs, the bytes of a TCP channel through a frame that the main loop handles.
use kubectl_sshuttle.Base.{
  get_elem?-append, ℕ, ◌≡◌, refl, inl, inr, Bool, true, false, ◌||◌, Option, none, some, List, [],
  ◌==◌, ==_iff, if◌then◌else◌, ltb, length, get_elem?, Bool-cases, ParseError, Result, ok, err,
}
use kubectl_sshuttle.Text.Utf8.{Bytes, Str}
use kubectl_sshuttle.Ssnet.Cmd
use kubectl_sshuttle.Ssnet.Frame.{Frame}
use kubectl_sshuttle.Ssnet.Connect.{ConnectTarget, parse_connect}
use kubectl_sshuttle.Ssnet.Udp.{parse_udp_data}
use kubectl_sshuttle.Server.Loop.State.{Server, Main, TcpTask, UdpTask, capacity}
use kubectl_sshuttle.Server.Loop.{
  emit, offer_udp, spawn_tcp, spawn_udp, on_connect, on_data, on_udp_data, handle, family_of,
}
use kubectl_sshuttle.Server.Loop.Events.Flow.{held, Moved, still, payload_for, on_data-Moved}

-- the task is as it was, and nothing is held for it
pub record Kept (n : ℕ) (t : TcpTask) (s : Server) : Type 0 where
  pub there : get_elem? s.tasks n ≡ some t
  pub nothing : held s.main n ≡ []

Kept-if :
    (b : Bool) (n : ℕ) (t : TcpTask) {x y : Server}
    → Kept n t x
    → Kept n t y
    → Kept n t (if b then x else y)
Kept-if true n t hx hy = hx
Kept-if false n t hx hy = hy

on_connect-Kept :
    (s : Server) (n : ℕ) (f : Frame) (t : TcpTask) (r : Result ParseError ConnectTarget)
    → Kept n t s
    → Kept n t (on_connect s f r)
unfolding on_connect spawn_tcp emit
on_connect-Kept s n f t (ok target) k = record {
  there = get_elem?-append s.tasks _ n t k.there;
  nothing = k.nothing;
}
on_connect-Kept s n f t (err e) k = record { there = k.there; nothing = k.nothing }

spawn_udp-Kept :
    (binds : Bool) (s : Server) (n : ℕ) (channel family : ℕ) (t : TcpTask)
    → Kept n t s
    → Kept n t (spawn_udp binds s channel family)
unfolding spawn_udp
spawn_udp-Kept false s n channel family t k = k
spawn_udp-Kept true s n channel family t k = record { there = k.there; nothing = k.nothing }

pub offer_udp-Kept :
    (s : Server) (n m : ℕ) (item : Str × ℕ × Bytes) (t : TcpTask) (u : Option UdpTask)
    → Kept n t s
    → Kept n t (offer_udp s m item u)
unfolding offer_udp
offer_udp-Kept s n m item t none k = k
offer_udp-Kept s n m item t (some u) k =
    Kept-if (ltb (length u.queue) capacity) n t (record { there = k.there; nothing = refl })
      (record { there = k.there; nothing = refl })

on_udp_data-Kept :
    (s : Server) (n : ℕ) (t : TcpTask) (found : Option ℕ) (r : Result ParseError (Str × ℕ × Bytes))
    → Kept n t s
    → Kept n t (on_udp_data s found r)
unfolding on_udp_data
on_udp_data-Kept s n t found (err e) k = k
on_udp_data-Kept s n t none (ok item) k = k
on_udp_data-Kept s n t (some m) (ok item) k =
    offer_udp-Kept s n m item t (get_elem? s.udp_tasks m) k

handle-Kept :
    (hosts : Option Str) (binds : Bool) (s : Server) (n : ℕ) (f : Frame) (t : TcpTask)
    → (f.cmd == Cmd.tcp_data) ≡ false
    → Kept n t s
    → Kept n t (handle hosts binds s f)
unfolding handle emit
handle-Kept hosts binds s n f t other k = rw (other) (
    Kept-if (f.cmd == Cmd.ping) n t same (
      Kept-if (f.cmd == Cmd.pong) n t k (
        Kept-if (f.cmd == Cmd.exit) n t (record { there = k.there; nothing = refl })
          (Kept-if (f.cmd == Cmd.tcp_connect) n t
            (on_connect-Kept s n f t (parse_connect f.payload) k)
            (Kept-if (f.cmd == Cmd.tcp_eof || f.cmd == Cmd.tcp_stop_sending) n t
              (record { there = k.there; nothing = k.nothing })
              (Kept-if (f.cmd == Cmd.dns_req) n t (record { there = k.there; nothing = k.nothing })
                (Kept-if (f.cmd == Cmd.udp_open) n t
                  (spawn_udp-Kept binds s n f.channel (family_of f.payload) t k)
                  (Kept-if (f.cmd == Cmd.udp_data) n t
                    (on_udp_data-Kept s n t (s.udp f.channel) (parse_udp_data f.payload) k)
                    (Kept-if (f.cmd == Cmd.udp_close) n t
                      (record { there = k.there; nothing = k.nothing })
                      (Kept-if (f.cmd == Cmd.host_req) n t
                        (record { there = k.there; nothing = k.nothing }) k))))))))))
  where
    same : {fs : List Frame} → Kept n t (record s { out = fs })
    same = record { there = k.there; nothing = k.nothing }

-- what a frame brings for the task
abbrev pub brought : ℕ → Frame → Server → Bytes
brought n f s = if f.cmd == Cmd.tcp_data then payload_for n f (s.tcp f.channel) else []

handle-data :
    (hosts : Option Str) (binds : Bool) (s : Server) (f : Frame)
    → f.cmd ≡ Cmd.tcp_data
    → handle hosts binds s f ≡ on_data s f.payload (s.tcp f.channel)
unfolding handle
handle-data hosts binds s f e = rw e refl

pub handle-Moved :
    (hosts : Option Str) (binds : Bool) (s : Server) (n : ℕ) (f : Frame) (t : TcpTask)
    → s.main ≡ Main.reading
    → get_elem? s.tasks n ≡ some t
    → Moved n t [] (brought n f s) (handle hosts binds s f)
handle-Moved hosts binds s n f t r h = elim (Bool-cases (f.cmd == Cmd.tcp_data)) [
  | inl carries ↦
      rw (carries, handle-data hosts binds s f ((==_iff f.cmd Cmd.tcp_data).0 carries))
        (on_data-Moved s n f t (s.tcp f.channel) r h)
  | inr other ↦
      let k = handle-Kept hosts binds s n f t other (record { there = h; nothing = rw r refl }) in
      rw other (still n t (handle hosts binds s f) [] k.there k.nothing)
]
