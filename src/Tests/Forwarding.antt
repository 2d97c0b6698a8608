-- ===== src/Tests/Forwarding.antt =====
-- rushtle/src/client.rs and rushtle/src/server.rs together on a connection and on a query.
use kubectl_sshuttle.Base.{
  zero, suc, ◌⊎◌, ◌≡◌, refl, true, false, none, some, [], ◌∷◌, ◌++◌, arith, codes, get_elem?,
}
use kubectl_sshuttle.Ssnet.Frame.{Frame, frame}
use kubectl_sshuttle.Client.Forward.State.{Client, at_start, unlocked}
use kubectl_sshuttle.Client.Forward.Events.{accepts, inserts, at_conn, opens, client_run}
use kubectl_sshuttle.Client.Forward.Events.Opening.{open_conn}
use kubectl_sshuttle.Client.Forward.Events.Samples.{target}
use kubectl_sshuttle.Server.Loop.State.{Server, initial}
use kubectl_sshuttle.Server.Loop.Events.{arrives, step}
use kubectl_sshuttle.Server.Loop.Events.Serving.{new_task}
use kubectl_sshuttle.Client.Forward.State.{Conn, in_rx_dropped}
use kubectl_sshuttle.Client.Forward.Events.Samples as Forwarded
use kubectl_sshuttle.Client.Forward.Events.Flow as Arriving
use kubectl_sshuttle.Server.Loop.State.{TcpTask, is_dropped}
use kubectl_sshuttle.Server.Loop.Events.Samples as Served
use kubectl_sshuttle.Server.Loop.Events.Flow as Serving
use kubectl_sshuttle.Ssnet.Cmd
use kubectl_sshuttle.Tunnel.Uploads.{under_way, upload}
use kubectl_sshuttle.Tunnel.Downloads.{download}
use kubectl_sshuttle.Tunnel.Connections.{target_of, connection_reaches}

connection_reaches_example :
    (d : Client) × (f : Frame) × (s' : Server) × (client_run
        (accepts false target ∷ inserts false ∷ at_conn 0 opens ∷ [])
        (at_start true)
      ≡ some d)
    × (d.out ≡ [] ++ f ∷ [])
    × (d.channels 1 ≡ some 0)
    × (get_elem? d.conns 0 ≡ some (open_conn 1 target))
    × (step none (arrives true f) initial ≡ some s')
    × (s'.tcp 1 ≡ some 0)
    × (get_elem? s'.tasks 0 ≡ some (new_task 1 (target_of target)))
unfolding unlocked
connection_reaches_example =
    connection_reaches (at_start true) false (codes "10.0.0.7") 22 none true initial refl refl refl
      refl (omega arith) (omega arith) (omega arith)

upload_example :
    (t' : TcpTask) × (get_elem? Served.after_both.tasks 0 ≡ some t')
    × ((is_dropped t' ≡ true)
        ⊎ (Serving.flow t' (Serving.held Served.after_both.main 0)
              ++ under_way 1
                  (frame 1 Cmd.tcp_data (codes "hi") ∷ [])
                  (frame 1 Cmd.tcp_data (codes "more") ∷ [])
            ≡ [] ++ (codes "hi" ++ (codes "more" ++ []))))
upload_example =
    upload Forwarded.both_ways Forwarded.opened Forwarded.after_both 0 (open_conn 1 target) none
      Served.both_ways Served.opened Served.after_both 0 Served.ssh_task
      (frame 1 Cmd.tcp_data (codes "more") ∷ []) refl refl Forwarded.both_run
      (elim [ zero ↦ λ j h e. refl | suc m ↦ λ j h e. absurd (cc) ]) refl refl refl
      Served.opened_reached Served.both_run
      (elim [ zero ↦ λ j h e. refl | suc m ↦ λ j h e. absurd (cc) ]) refl refl

download_example :
    (k' : Conn) × (get_elem? Forwarded.after_both.conns 0 ≡ some k')
    × ((in_rx_dropped k' ≡ true)
        ⊎ (Arriving.flow k' (Arriving.held Forwarded.after_both.demux 0)
              ++ under_way 1 (frame 1 Cmd.tcp_data (codes "yo") ∷ []) []
            ≡ [] ++ (codes "yo" ++ [])))
download_example =
    download none Served.both_ways Served.opened Served.after_both 0 Served.ssh_task false
      Forwarded.both_ways Forwarded.opened Forwarded.after_both 0 (open_conn 1 target) [] refl refl
      (refl, tt) Served.both_run (elim [ zero ↦ λ j h e. refl | suc m ↦ λ j h e. absurd (cc) ]) refl
      refl refl Forwarded.opened_reached Forwarded.both_run
      (elim [ zero ↦ λ j h e. refl | suc m ↦ λ j h e. absurd (cc) ]) refl refl
