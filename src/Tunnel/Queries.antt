-- ===== src/Tunnel/Queries.antt =====
-- rushtle/src/client.rs and rushtle/src/server.rs together: a DNS query.
use kubectl_sshuttle.Ssnet.Cmd
use kubectl_sshuttle.Ssnet.Frame.{Frame}
use kubectl_sshuttle.Client.Forward.State.{Client}
use kubectl_sshuttle.Server.Loop.State.{Server}
