-- ===== src/Tunnel/Downloads.antt =====
-- rushtle/src/server.rs and rushtle/src/client.rs together: the bytes of a connection, from the remote
-- socket to the local one.
use mathlib.Core.List.{append_cancel_left}
use kubectl_sshuttle.Base.{
  ℕ, ◌≡◌, sym, ap, ◌∙◌, ◌⊎◌, inl, inr, Bool, true, Option, some, List, ◌++◌, append_assoc,
  get_elem?, Only, All,
}
use kubectl_sshuttle.Text.Utf8.{Str}
use kubectl_sshuttle.Ssnet.Frame.{Frame}
use kubectl_sshuttle.Ssnet.Carried.{payloads, payloads-append}
use kubectl_sshuttle.Client.Forward.State.{Client, Conn, at_start, in_rx_dropped}
use kubectl_sshuttle.Client.Forward.Bounds.{channel_of}
use kubectl_sshuttle.Client.Forward.Events.{ClientEvent, Reaches, client_run}
use kubectl_sshuttle.Client.Forward.Events.Flow.{held, flow}
use kubectl_sshuttle.Client.Forward.Events.Reached.{Reaches-Sound}
use kubectl_sshuttle.Client.Forward.Events.Heard.{came_in, client_run-heard}
use kubectl_sshuttle.Server.Loop.State.{Server, TcpTask}
use kubectl_sshuttle.Server.Loop.Bounds.{tcp_channel}
use kubectl_sshuttle.Server.Loop.Events.{Event, run}
use kubectl_sshuttle.Server.Loop.Events.Said.{speaks}
use kubectl_sshuttle.Server.Loop.Events.Speech.{NoConnect}
use kubectl_sshuttle.Server.Loop.Events.Given.{given, run-said}
use kubectl_sshuttle.Server.Loop.Events.Heard.{arrived_in}
use kubectl_sshuttle.Tunnel.Uploads.{under_way}

-- The tunnel is a pipe of bytes, first in first out, from the remote socket of a connection to the
-- local one. While the client reads, in order, frames that the server hands over, others being under
-- way, the server's writer task still runs, no other connection on either side has the channel, and
-- no frame that the server reads asks for a connection on it, the client's connection has dropped its queue, or: what its socket has
-- taken, what is queued and held for it, and what is under way on the channel are, in this order,
-- what was there at first, followed by exactly what the remote socket gave.
pub download :
    (hosts : Option Str) (es : List Event) (s s' : Server) (m : ℕ) (t : TcpTask) (dns : Bool)
    (es' : List ClientEvent) (c d : Client) (n : ℕ) (k : Conn) (later : List Frame)
    → get_elem? s.tasks m ≡ some t
    → speaks t ≡ true
    → All (NoConnect t.channel) (arrived_in es)
    → run hosts es s ≡ some s'
    → Only tcp_channel m t.channel s'.tasks
    → s'.out_open ≡ true
    → get_elem? c.conns n ≡ some k
    → k.channel ≡ t.channel
    → Reaches (at_start dns) c
    → client_run es' c ≡ some d
    → Only channel_of n k.channel d.conns
    → c.channels k.channel ≡ some n
    → s'.out ≡ s.out ++ (came_in es' ++ later)
    → (k' : Conn) × (get_elem? d.conns n ≡ some k')
      × ((in_rx_dropped k' ≡ true)
          ⊎ (flow k' (held d.demux n) ++ under_way t.channel (came_in es') later
              ≡ flow k (held c.demux n) ++ given m es))
download hosts es s s' m t dns es' c d n k later there live no_connect ran only on found same
      reached ran' only' leads out =
    let (fs, sent, said) = run-said hosts es s s' m t there live no_connect ran only on in
    let (k', found', grown) =
      client_run-heard es' c d n k found (Reaches-Sound dns c reached) ran' only' leads in
    let both : fs ≡ came_in es' ++ later = append_cancel_left s.out _ _ (sym sent ∙ out) in
    (
      k',
      found',
      elim grown [
        | inl gone ↦ inl gone
        | inr e ↦ inr (
            ap (λ b. b ++ under_way t.channel (came_in es') later) e
            ∙ append_assoc (flow k (held c.demux n)) _ _
            ∙ ap (λ b. flow k (held c.demux n) ++ b)
                (ap (λ ch. payloads ch (came_in es') ++ under_way t.channel (came_in es') later)
                    same
                  ∙ sym (payloads-append t.channel (came_in es') later)
                  ∙ ap (payloads t.channel) (sym both)
                  ∙ sym said))
      ],
    )
