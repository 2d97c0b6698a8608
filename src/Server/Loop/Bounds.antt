-- ===== src/Server/Loop/Bounds.antt =====
-- rushtle/src/server.rs, the invariant of the tasks and of the two maps, through a frame.
use kubectl_sshuttle.Base.{
  ℕ, ◌≡◌, refl, Bool, true, false, ◌||◌, Option, none, some, [], ◌∷◌, ◌++◌, arith, ltb, ◌==◌,
  if◌then◌else◌, length, get_elem?, Bool-cases, inl, inr, length-append, Result, ok, err,
  ParseError, IsSound, erase-IsSound, set-IsSound, push-IsSound,
}
use kubectl_sshuttle.Text.Utf8.{Bytes, Str}
use kubectl_sshuttle.Ssnet.Cmd
use kubectl_sshuttle.Ssnet.Frame.{Frame}
use kubectl_sshuttle.Ssnet.Connect.{ConnectTarget, parse_connect}
use kubectl_sshuttle.Ssnet.Udp.{parse_udp_data}
use kubectl_sshuttle.Server.Loop.State.{Server, TcpTask, UdpTask, capacity, is_dropped}
use kubectl_sshuttle.Server.Loop.{
  emit, set_task, offer, offer_udp, spawn_tcp, on_connect, on_data, family_of, spawn_udp,
  on_udp_data, handle,
}

abbrev pub queued : TcpTask → ℕ
queued t = length t.queue

abbrev pub tcp_channel : TcpTask → ℕ
tcp_channel t = t.channel

abbrev pub udp_queued : UdpTask → ℕ
udp_queued t = length t.queue

abbrev pub udp_channel : UdpTask → ℕ
udp_channel t = t.channel

-- the invariant of a state
pub record Sound (s : Server) : Type 0 where
  pub tcp : IsSound capacity queued tcp_channel s.tcp s.tasks
  pub udp : IsSound capacity udp_queued udp_channel s.udp s.udp_tasks

pub offer-Sound :
    (s : Server) (n : ℕ) (buf : Bytes) (o : Option TcpTask)
    → get_elem? s.tasks n ≡ o
    → Sound s
    → Sound (offer s n buf o)
unfolding offer set_task
offer-Sound s n buf none found v = v
offer-Sound s n buf (some t) found v = elim (Bool-cases (is_dropped t)) [
  | inl gone ↦ rw gone (record { tcp = v.tcp; udp = v.udp })
  | inr live ↦ elim (Bool-cases (ltb (length t.queue) capacity)) [
    | inl room ↦
        rw (live, room)
          (record {
            tcp =
                set-IsSound capacity queued tcp_channel s.tcp s.tasks n t
                  (record t { queue = t.queue ++ buf ∷ [] }) found refl
                  (ground (arith, length-append t.queue (buf ∷ []))) v.tcp;
            udp = v.udp;
          })
    | inr full ↦ rw (live, full) (record { tcp = v.tcp; udp = v.udp })
  ]
]

pub offer_udp-Sound :
    (s : Server) (n : ℕ) (item : Str × ℕ × Bytes) (o : Option UdpTask)
    → get_elem? s.udp_tasks n ≡ o
    → Sound s
    → Sound (offer_udp s n item o)
unfolding offer_udp
offer_udp-Sound s n item none found v = v
offer_udp-Sound s n item (some t) found v = elim (Bool-cases (ltb (length t.queue) capacity)) [
  | inl room ↦ rw room (record {
    tcp = v.tcp;
    udp =
        set-IsSound capacity udp_queued udp_channel s.udp s.udp_tasks n t
          (record t { queue = t.queue ++ item ∷ [] }) found refl
          (ground (arith, length-append t.queue (item ∷ []))) v.udp;
  })
  | inr full ↦ rw full (record { tcp = v.tcp; udp = v.udp })
]

on_connect-Sound :
    (s : Server) (f : Frame) (r : Result ParseError ConnectTarget)
    → Sound s
    → Sound (on_connect s f r)
unfolding on_connect spawn_tcp emit
on_connect-Sound s f (ok target) v = record {
  tcp = push-IsSound capacity queued tcp_channel s.tcp s.tasks _ (omega arith) v.tcp;
  udp = v.udp;
}
on_connect-Sound s f (err e) v = record { tcp = v.tcp; udp = v.udp }

on_data-Sound : (s : Server) (buf : Bytes) (o : Option ℕ) → Sound s → Sound (on_data s buf o)
unfolding on_data
on_data-Sound s buf none v = v
on_data-Sound s buf (some n) v = offer-Sound s n buf (get_elem? s.tasks n) refl v

spawn_udp-Sound :
    (binds : Bool) (s : Server) (channel family : ℕ)
    → Sound s
    → Sound (spawn_udp binds s channel family)
unfolding spawn_udp
spawn_udp-Sound false s channel family v = v
spawn_udp-Sound true s channel family v = record {
  tcp = v.tcp;
  udp = push-IsSound capacity udp_queued udp_channel s.udp s.udp_tasks _ (omega arith) v.udp;
}

on_udp_data-Sound :
    (s : Server) (found : Option ℕ) (r : Result ParseError (Str × ℕ × Bytes))
    → Sound s
    → Sound (on_udp_data s found r)
unfolding on_udp_data
on_udp_data-Sound s found (err e) v = v
on_udp_data-Sound s none (ok item) v = v
on_udp_data-Sound s (some n) (ok item) v = offer_udp-Sound s n item (get_elem? s.udp_tasks n) refl v

Sound-if : (b : Bool) (s t : Server) → Sound s → Sound t → Sound (if b then s else t)
Sound-if true s t hs ht = hs
Sound-if false s t hs ht = ht

pub handle-Sound :
    (hosts : Option Str) (binds : Bool) (s : Server) (f : Frame)
    → Sound s
    → Sound (handle hosts binds s f)
unfolding handle emit
handle-Sound hosts binds s f v =
    Sound-if (f.cmd == Cmd.ping) _ _ (record { tcp = v.tcp; udp = v.udp })
      (Sound-if (f.cmd == Cmd.pong) _ _ v (
        Sound-if (f.cmd == Cmd.exit) _ _ (record { tcp = v.tcp; udp = v.udp })
          (Sound-if (f.cmd == Cmd.tcp_connect) _ _
            (on_connect-Sound s f (parse_connect f.payload) v)
            (Sound-if (f.cmd == Cmd.tcp_data) _ _ (on_data-Sound s f.payload (s.tcp f.channel) v) (
              Sound-if (f.cmd == Cmd.tcp_eof || f.cmd == Cmd.tcp_stop_sending) _ _
                (record {
                  tcp = erase-IsSound capacity queued tcp_channel s.tcp s.tasks f.channel v.tcp;
                  udp = v.udp;
                })
                (Sound-if (f.cmd == Cmd.dns_req) _ _ (record { tcp = v.tcp; udp = v.udp })
                  (Sound-if (f.cmd == Cmd.udp_open) _ _
                    (spawn_udp-Sound binds s f.channel (family_of f.payload) v)
                    (Sound-if (f.cmd == Cmd.udp_data) _ _
                      (on_udp_data-Sound s (s.udp f.channel) (parse_udp_data f.payload) v)
                      (Sound-if (f.cmd == Cmd.udp_close) _ _
                        (record {
                          tcp = v.tcp;
                          udp =
                              erase-IsSound capacity udp_queued udp_channel s.udp s.udp_tasks
                                f.channel v.udp;
                        })
                        (Sound-if (f.cmd == Cmd.host_req) _ _ (record { tcp = v.tcp; udp = v.udp })
                          v))))))))))
