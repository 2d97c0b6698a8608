-- ===== src/Tunnel/Uploads.antt =====
-- rushtle/src/client.rs and rushtle/src/server.rs together: the bytes of a connection, from the local
-- socket to the remote one.
use mathlib.Core.List.{append_cancel_left}
use kubectl_sshuttle.Base.{
  ℕ, ◌≡◌, sym, ap, ◌∙◌, ◌⊎◌, inl, inr, true, Option, some, List, [], ◌++◌, append_assoc,
  if◌then◌else◌, get_elem?, Only,
}
use kubectl_sshuttle.Text.Utf8.{Bytes, Str}
use kubectl_sshuttle.Ssnet.Frame.{Frame}
use kubectl_sshuttle.Ssnet.Carried.{payloads, is_open, payloads-append}
use kubectl_sshuttle.Client.Forward.State.{Client, Conn}
use kubectl_sshuttle.Client.Forward.Bounds.{channel_of}
use kubectl_sshuttle.Client.Forward.Events.{ClientEvent, client_run}
use kubectl_sshuttle.Client.Forward.Events.Spoken.{spoken}
use kubectl_sshuttle.Client.Forward.Events.Speech.{client_run-spoken}
use kubectl_sshuttle.Server.Loop.State.{Server, TcpTask, initial, is_dropped}
use kubectl_sshuttle.Server.Loop.Bounds.{tcp_channel}
use kubectl_sshuttle.Server.Loop.Events.{Event, Reach, run}
use kubectl_sshuttle.Server.Loop.Events.Flow.{held, flow}
use kubectl_sshuttle.Server.Loop.Events.Reached.{Reach-Sound}
use kubectl_sshuttle.Server.Loop.Events.Heard.{arrived_in, run-heard}

-- what frames that are under way behind others that were read carry on a channel
abbrev pub under_way : ℕ → List Frame → List Frame → Bytes
under_way ch before later = if is_open ch before then payloads ch later else []

-- The tunnel is a pipe of bytes, first in first out, from a connection's local socket to the remote
-- one. While the server reads, in order, frames that the client hands over, others being under way,
-- and no other connection on either side has the channel, the server's task has dropped its queue,
-- or: what its socket has taken, what is queued and held for it, and what is under way on the
-- channel are, in this order, what was there at first, followed by exactly what the local socket
-- gave.
pub upload :
    (es : List ClientEvent) (c d : Client) (n : ℕ) (k : Conn) (hosts : Option Str)
    (es' : List Event) (s s' : Server) (m : ℕ) (t : TcpTask) (later : List Frame)
    → get_elem? c.conns n ≡ some k
    → k.reader_live ≡ true
    → client_run es c ≡ some d
    → Only channel_of n k.channel d.conns
    → d.out_open ≡ true
    → get_elem? s.tasks m ≡ some t
    → t.channel ≡ k.channel
    → Reach hosts initial s
    → run hosts es' s ≡ some s'
    → Only tcp_channel m t.channel s'.tasks
    → s.tcp t.channel ≡ some m
    → d.out ≡ c.out ++ (arrived_in es' ++ later)
    → (t' : TcpTask) × (get_elem? s'.tasks m ≡ some t')
      × ((is_dropped t' ≡ true)
          ⊎ (flow t' (held s'.main m) ++ under_way k.channel (arrived_in es') later
              ≡ flow t (held s.main m) ++ spoken n es))
upload es c d n k hosts es' s s' m t later found live ran only on there same reached ran' only'
      leads out =
    let (fs, sent, said) = client_run-spoken es c d n k found live ran only on in
    let (t', there', grown) =
      run-heard hosts es' s s' m t there (Reach-Sound hosts s reached) ran' only' leads in
    let both : fs ≡ arrived_in es' ++ later = append_cancel_left c.out _ _ (sym sent ∙ out) in
    (
      t',
      there',
      elim grown [
        | inl gone ↦ inl gone
        | inr e ↦ inr (
            ap (λ b. b ++ under_way k.channel (arrived_in es') later) e
            ∙ append_assoc (flow t (held s.main m)) _ _
            ∙ ap (λ b. flow t (held s.main m) ++ b)
                (ap
                    (λ ch.
                      payloads ch (arrived_in es') ++ under_way k.channel (arrived_in es') later)
                    same
                  ∙ sym (payloads-append k.channel (arrived_in es') later)
                  ∙ ap (payloads k.channel) (sym both)
                  ∙ sym said))
      ],
    )
