-- ===== src/Server/Loop/Events/Serving.antt =====
-- rushtle/src/server.rs, what the main loop does with a connection and with a query.
use kubectl_sshuttle.Base.{
  ℕ, ◌≤◌, ◌≡◌, refl, ap, ◌∙◌, Bool, true, Option, some, [], ◌∷◌, ◌++◌, arith, length, get_elem?,
  get_elem?-push, ok, leb,
}
use kubectl_sshuttle.Text.Utf8.{Bytes, Str}
use kubectl_sshuttle.Ssnet.Cmd
use kubectl_sshuttle.Ssnet.Frame.{frame}
use kubectl_sshuttle.Ssnet.Connect.{ConnectTarget, parse_connect}
use kubectl_sshuttle.Server.Loop.State.{Server, Main, TcpTask, Phase, put}
use kubectl_sshuttle.Server.Loop.{emit, handed, spawn_tcp, on_connect, handle}
use kubectl_sshuttle.Server.Loop.Events.{
  arrives, dns_answered, answer, without, step, and_then, run, step_arrives,
}

abbrev pub new_task : ℕ → ConnectTarget → TcpTask
new_task channel target = record {
  channel = channel;
  target = target;
  phase = Phase.connecting;
  queue = [];
  written = [];
  writer_live = true;
  reader_live = true;
}

-- A request for a connection starts a task, which the channel then leads to.
pub step-connect :
    (hosts : Option Str) (binds : Bool) (s : Server) (channel : ℕ) (payload : Bytes)
    (target : ConnectTarget)
    → s.main ≡ Main.reading
    → parse_connect payload ≡ ok target
    → (s' : Server) × (step hosts (arrives binds (frame channel Cmd.tcp_connect payload)) s
        ≡ some s')
      × (get_elem? s'.tasks (length s.tasks) ≡ some (new_task channel target))
      × (s'.tcp channel ≡ some (length s.tasks))
unfolding handle on_connect spawn_tcp
step-connect hosts binds s channel payload target reads parsed =
    let here : put s.tcp channel (length s.tasks) channel ≡ some (length s.tasks) = ground arith in
    (
      spawn_tcp s channel target,
      step_arrives hosts binds (frame channel Cmd.tcp_connect payload) s reads
          ∙ ap (λ r. some (on_connect s (frame channel Cmd.tcp_connect payload) r)) parsed,
      get_elem?-push s.tasks (new_task channel target),
      here,
    )

-- A query is answered with the resolver's reply, on its channel.
pub run-dns :
    (hosts : Option Str) (binds : Bool) (s : Server) (channel : ℕ) (query reply : Bytes)
    → s.main ≡ Main.reading
    → s.out_open ≡ true
    → length reply ≤ 4096
    → (s' : Server) × (run hosts
          (arrives binds (frame channel Cmd.dns_req query) ∷ dns_answered (length s.dns) reply ∷ [])
          s
        ≡ some s')
      × (s'.out ≡ s.out ++ frame channel Cmd.dns_response reply ∷ [])
      × (s'.main ≡ Main.reading)
unfolding run and_then step answer handle emit
run-dns hosts binds s channel query reply reads on few =
    let asked : Server = record s { dns = s.dns ++ (channel, query) ∷ [] } in
    let within : leb (length reply) 4096 ≡ true = ground arith in
    let found : get_elem? asked.dns (length s.dns) ≡ some (channel, query) =
      get_elem?-push s.dns (channel, query) in
    (
      emit (record asked { dns = without (length s.dns) asked.dns })
          (frame channel Cmd.dns_response reply),
      rw (step_arrives hosts binds (frame channel Cmd.dns_req query) s reads) (
          ap (λ o. and_then (answer asked (length s.dns) reply o) (λ x. some x)) found
          ∙ rw within refl),
      ap (λ b. handed b s.out (frame channel Cmd.dns_response reply)) on,
      reads,
    )
