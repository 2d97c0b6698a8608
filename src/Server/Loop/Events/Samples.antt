-- ===== src/Server/Loop/Events/Samples.antt =====
-- rushtle/src/server.rs, a connection that is opened, and bytes both ways, on concrete events.
use kubectl_sshuttle.Base.{◌≡◌, refl, true, none, some, List, [], ◌∷◌, arith, codes}
use kubectl_sshuttle.Ssnet.Cmd
use kubectl_sshuttle.Ssnet.Frame.{frame}
use kubectl_sshuttle.Ssnet.Connect.{encode_connect, parse_connect-encode_connect}
use kubectl_sshuttle.Server.Loop.State.{
  Server, TcpTask, Phase, initial, put, no_channels, is_dropped,
}
use kubectl_sshuttle.Server.Loop.{handle, on_connect, on_data, spawn_tcp, offer, set_task, emit}
use kubectl_sshuttle.Server.Loop.Bounds.{Sound}
use kubectl_sshuttle.Server.Loop.Events.{
  Event, TcpEvent, and_then, main_step, on_task, tcp_step, write_round, put_back, no_bytes, step,
  run, Reach, here, next,
}
use kubectl_sshuttle.Server.Loop.Events.Reached.{Reach-Sound}

abbrev pub ssh_task : TcpTask
ssh_task = record {
  channel = 1;
  target = record { family = some 2; host = codes "10.0.0.7"; port = 22 };
  phase = Phase.connecting;
  queue = [];
  written = [];
  writer_live = true;
  reader_live = true;
}

-- the server once channel 1 is opened
abbrev pub opened : Server
opened = record initial { tcp = put no_channels 1 0; tasks = ssh_task ∷ [] }

abbrev opens : Event
opens = Event.arrives true (frame 1 Cmd.tcp_connect (encode_connect 2 (codes "10.0.0.7") 22))

opened-step : step none opens initial ≡ some opened
unfolding step main_step handle on_connect spawn_tcp
opened-step =
    rw
      (parse_connect-encode_connect 2 (codes "10.0.0.7") 22 (omega arith) (omega arith)
        (omega arith) (omega arith))
      refl

pub opened_reached : Reach none initial opened
opened_reached = next opens here opened-step

Reach-Sound_example : Sound opened
Reach-Sound_example = Reach-Sound none opened opened_reached

-- a buffer arrives, and the socket takes it; another is sent
abbrev pub both_ways : List Event
both_ways =
    Event.arrives true (frame 1 Cmd.tcp_data (codes "hi"))
    ∷ Event.tcp_event 0 TcpEvent.connects
    ∷ Event.tcp_event 0 (TcpEvent.writes true)
    ∷ Event.tcp_event 0 (TcpEvent.reads (codes "yo"))
    ∷ []

abbrev pub after_both : Server
after_both = record opened {
  tasks = record ssh_task { phase = Phase.streaming; written = codes "hi" } ∷ [];
  out = frame 1 Cmd.tcp_data (codes "yo") ∷ [];
}

pub both_run : run none both_ways opened ≡ some after_both
unfolding run step main_step on_task tcp_step and_then handle on_data offer set_task emit is_dropped
    write_round put_back no_bytes
both_run = refl
