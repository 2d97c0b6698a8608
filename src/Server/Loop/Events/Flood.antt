-- ===== src/Server/Loop/Events/Flood.antt =====
-- rushtle/src/server.rs on concrete events of the main loop and its tasks.
use kubectl_sshuttle.Base.{
  suc, ◌≡◌, refl, true, none, some, List, [], ◌∷◌, ◌++◌, arith, replicate, codes,
}
use kubectl_sshuttle.Ssnet.Cmd
use kubectl_sshuttle.Ssnet.Frame.{frame}
use kubectl_sshuttle.Ssnet.Connect.{encode_connect, parse_connect-encode_connect}
use kubectl_sshuttle.Server.Loop.State.{
  Server, Main, TcpTask, Phase, capacity, initial, put, no_channels, is_dropped,
}
use kubectl_sshuttle.Server.Loop.{handle, on_connect, on_data, spawn_tcp, offer, set_task, emit}
use kubectl_sshuttle.Server.Loop.Events.{
  Event, TcpEvent, and_then, main_step, on_task, tcp_step, answer, without, step, run, here, next,
}
use kubectl_sshuttle.Server.Loop.Events.{write_round, put_back, no_bytes}
use kubectl_sshuttle.Server.Loop.Events.Flow.{held, flow}
use kubectl_sshuttle.Server.Loop.Events.Runs.{brought_in, run-flow}
use kubectl_sshuttle.Base.{◌⊎◌, get_elem?}
use kubectl_sshuttle.Server.Loop.Events.Deadlock.{deadlock}

-- A connection to a port that refuses it, and 65 buffers for it before the refused task has the
-- lock.
abbrev flood : List Event
flood =
    Event.arrives true (frame 3 Cmd.tcp_connect (encode_connect 2 (codes "10.0.0.9") 81))
    ∷ Event.tcp_event 0 TcpEvent.refuses
    ∷ replicate (suc capacity) (Event.arrives true (frame 3 Cmd.tcp_data (codes "x")))

abbrev refused_task : TcpTask
refused_task = record {
  channel = 3;
  target = record { family = some 2; host = codes "10.0.0.9"; port = 81 };
  phase = Phase.refused;
  queue = replicate capacity (codes "x");
  written = [];
  writer_live = true;
  reader_live = true;
}

abbrev flooded : Server
flooded = record initial {
  main = Main.offering 0 (codes "x");
  tcp = put no_channels 3 0;
  tasks = refused_task ∷ [];
  out = frame 3 Cmd.tcp_stop_sending [] ∷ [];
}

flood_reached : run none flood initial ≡ some flooded
unfolding run step main_step on_task tcp_step and_then handle on_connect on_data spawn_tcp offer
    set_task emit is_dropped
flood_reached =
    rw
      (parse_connect-encode_connect 2 (codes "10.0.0.9") 81 (omega arith) (omega arith)
        (omega arith) (omega arith))
      refl

-- a DNS query answered meanwhile
abbrev asked : Server
asked = record flooded { dns = (5, codes "q") ∷ [] }

abbrev after_answer : Server
after_answer = record flooded {
  dns = [];
  out = flooded.out ++ frame 5 Cmd.dns_response (codes "a") ∷ [];
}

answered : step none (Event.dns_answered 0 (codes "a")) asked ≡ some after_answer
unfolding step answer emit without
answered = refl

deadlock_example : after_answer.main ≡ Main.offering 0 (codes "x")
deadlock_example =
    deadlock none 0 (codes "x") asked after_answer (refused_task, refl, refl, refl, omega arith)
      (next (Event.dns_answered 0 (codes "a")) here answered)

-- A task that is connected, two buffers for it, and a write of the first.
abbrev connected : Server
connected = record flooded {
  main = Main.reading;
  tasks = record refused_task { phase = Phase.streaming; queue = [] } ∷ [];
}

abbrev talk : List Event
talk =
    Event.arrives true (frame 3 Cmd.tcp_data (codes "ab"))
    ∷ Event.arrives true (frame 3 Cmd.tcp_data (codes "c"))
    ∷ Event.tcp_event 0 (TcpEvent.writes true)
    ∷ []

abbrev talked : Server
talked = record connected {
  tasks =
      record refused_task { phase = Phase.streaming; queue = codes "c" ∷ []; written = codes "ab" }
      ∷ [];
}

talk_reached : run none talk connected ≡ some talked
unfolding run step main_step on_task tcp_step and_then handle on_data offer set_task is_dropped
    write_round put_back no_bytes
talk_reached = refl

run-flow_example :
    (t' : TcpTask) × (get_elem? talked.tasks 0 ≡ some t')
    × ((is_dropped t' ≡ true)
        ⊎ (flow t' (held talked.main 0)
            ≡ flow (record refused_task { phase = Phase.streaming; queue = [] }) []
              ++ brought_in none 0 talk connected))
run-flow_example =
    run-flow none talk connected talked 0
      (record refused_task { phase = Phase.streaming; queue = [] }) refl talk_reached
