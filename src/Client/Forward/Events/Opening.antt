-- ===== src/Client/Forward/Events/Opening.antt =====
-- rushtle/src/client.rs, a connection from its acceptance to its first frame.
use kubectl_sshuttle.Base.{
  ℕ, ◌≡◌, refl, ap, ◌∙◌, Bool, true, false, some, [], ◌∷◌, ◌++◌, arith, if◌then◌else◌, length,
  get_elem?, get_elem?-push, get_elem?-set_self,
}
use kubectl_sshuttle.Ssnet.Frame.{Frame, frame, af_inet, af_inet6}
use kubectl_sshuttle.Ssnet.Cmd
use kubectl_sshuttle.Ssnet.Connect.{encode_connect}
use kubectl_sshuttle.Client.Subnets.{is_v6}
use kubectl_sshuttle.Client.Channels.{allocate}
use kubectl_sshuttle.Client.Forward.State.{
  Client, Conn, ConnPhase, Accept, Address, insert, set_conn, unlocked,
}
use kubectl_sshuttle.Client.Forward.{send}
use kubectl_sshuttle.Client.Forward.Events.{
  accepts, inserts, at_conn, opens, accept_of, set_accept, draw, spawn_conn, connect_frame,
  conn_step, on_conn, client_step, then_step, client_run,
}

-- a connection that has been accepted, and one whose first frame is sent
abbrev pub new_conn : ℕ → Address → Conn
new_conn ch dst = record {
  channel = ch;
  dst = dst;
  phase = ConnPhase.opening;
  queue = [];
  written = [];
  writer_live = true;
  reader_live = true;
}

abbrev pub open_conn : ℕ → Address → Conn
open_conn ch dst = record (new_conn ch dst) { phase = ConnPhase.copying }

-- the state in which the new connection has the last place
-- the frame that asks for a destination
abbrev pub connect_request : ℕ → Address → Frame
connect_request ch (host, port) =
    frame ch Cmd.tcp_connect (encode_connect (if is_v6 host then af_inet6 else af_inet) host port)

spawned : Client → Bool → Address → Client
spawned c v6 dst =
    set_accept
      (record c {
        next = (allocate c.next).1;
        channels = insert c.channels c.next (length c.conns);
        conns = c.conns ++ new_conn c.next dst ∷ [];
      })
      v6 Accept.listening

drawn_by : Client → Bool → Address → Client
drawn_by c v6 dst =
    set_accept (record c { next = (allocate c.next).1 }) v6 (Accept.inserting c.next dst)

accepts_lem :
    (c : Client) (v6 : Bool) (dst : Address)
    → accept_of c v6 ≡ Accept.listening
    → client_step (accepts v6 dst) c ≡ some (drawn_by c v6 dst)
unfolding client_step draw drawn_by allocate
accepts_lem c v6 dst idle = ap (draw c v6 dst) idle

inserts_lem :
    (c : Client) (v6 : Bool) (dst : Address)
    → unlocked c.demux ≡ true
    → client_step (inserts v6) (drawn_by c v6 dst) ≡ some (spawned c v6 dst)
unfolding client_step spawn_conn spawned drawn_by
inserts_lem c false dst free = rw free refl
inserts_lem c true dst free = rw free refl

opens_lem :
    (d : Client) (n : ℕ) (k : Conn)
    → get_elem? d.conns n ≡ some k
    → k.phase ≡ ConnPhase.opening
    → d.out_open ≡ true
    → client_step (at_conn n opens) d
      ≡ some (
          set_conn
            (record d { out = d.out ++ connect_frame k ∷ [] })
            n
            (record k { phase = ConnPhase.copying }))
unfolding client_step on_conn conn_step send
opens_lem d n k found fresh on =
    ap (on_conn d n opens) found
    ∙ ap (conn_step d n k opens) fresh
    ∙ (if_true _ _ d.out_open on
        ∙ ap (λ (e : Client). some (set_conn e n (record k { phase = ConnPhase.copying })))
            (if_true _ _ d.out_open on))
  where
    if_true : {A : Type 0} (x y : A) (b : Bool) → b ≡ true → (if b then x else y) ≡ x
    if_true x y true h = refl
    if_true x y false h = cc

-- what stands in the state with the new connection
spawned-fields :
    (c : Client) (v6 : Bool) (dst : Address)
    → ((spawned c v6 dst).conns ≡ c.conns ++ new_conn c.next dst ∷ [])
      × ((spawned c v6 dst).channels ≡ insert c.channels c.next (length c.conns))
      × ((spawned c v6 dst).out ≡ c.out)
      × ((spawned c v6 dst).out_open ≡ c.out_open)
unfolding spawned
spawned-fields c false dst = (refl, refl, refl, refl)
spawned-fields c true dst = (refl, refl, refl, refl)

-- Accepting a connection, entering it in the map and opening it hands the frame that asks for its
-- destination to the writer task, on a channel that leads to the connection.
pub opened :
    (c : Client) (v6 : Bool) (dst : Address)
    → accept_of c v6 ≡ Accept.listening
    → unlocked c.demux ≡ true
    → c.out_open ≡ true
    → (d : Client) × (client_run
          (accepts v6 dst ∷ inserts v6 ∷ at_conn (length c.conns) opens ∷ [])
          c
        ≡ some d)
      × (d.out ≡ c.out ++ connect_request c.next dst ∷ [])
      × (d.channels c.next ≡ some (length c.conns))
      × (get_elem? d.conns (length c.conns) ≡ some (open_conn c.next dst))
unfolding client_run then_step connect_frame
opened c v6 dst idle free on =
    let n = length c.conns in
    let k = new_conn c.next dst in
    let w = spawned c v6 dst in
    let (conns, channels, out, out_open) = spawned-fields c v6 dst in
    let found : get_elem? w.conns n ≡ some k =
      ap (λ l. get_elem? l n) conns ∙ get_elem?-push c.conns k in
    let here : insert c.channels c.next n c.next ≡ some n = ground arith in
    let opens_it = opens_lem w n k found refl (out_open ∙ on) in
    (
      set_conn (record w { out = w.out ++ connect_frame k ∷ [] }) n
          (record k { phase = ConnPhase.copying }),
      rw (accepts_lem c v6 dst idle, inserts_lem c v6 dst free, opens_it) refl,
      ap (λ l. l ++ connect_frame k ∷ []) out,
      ap (λ m. m c.next) channels ∙ here,
      get_elem?-set_self w.conns n k (open_conn c.next dst) found,
    )
