-- ===== src/Client/Forward/Events/Answers.antt =====
-- rushtle/src/client.rs, the answer to a DNS query.
use kubectl_sshuttle.Base.{
  ℕ, ◌≡◌, refl, sym, ap, ◌∙◌, true, ◌&&◌, none, some, List, [], ◌∷◌, ◌++◌, arith, leb, length,
  Bool-cases, append-nil, inl, inr,
}
use kubectl_sshuttle.Text.Utf8.{Bytes}
use kubectl_sshuttle.Ssnet.Cmd
use kubectl_sshuttle.Ssnet.Frame.{frame}
use kubectl_sshuttle.Client.Channels.{allocate}
use kubectl_sshuttle.Client.Forward.State.{Client, Demux, Address, insert, delete}
use kubectl_sshuttle.Client.Forward.{send, reply, on_response, demux_frame}
use kubectl_sshuttle.Client.Forward.Events.{arrives, queried, on_query, demux_step, client_step}
use kubectl_sshuttle.Client.Forward.Events.Queries.{
  Same, Waits, asked, later, send-Same, client_step-Same,
}

-- what the socket is handed for an answer
abbrev pub to_peer : Address → Bytes → List (Address × Bytes)
to_peer peer [] = []
to_peer peer (b ∷ bs) = (peer, b ∷ bs) ∷ []

Waits-Same : (ch : ℕ) (c d : Client) → Waits ch c d → Same ch c d
Waits-Same ch c d asked = (refl, refl)
Waits-Same ch c d (later {d = x} e w ran quiet) =
    let (entry, sock) = Waits-Same ch c x w in
    let last : Same ch x d = rw ran at (client_step-Same ch e x quiet) in
    (last.0 ∙ entry, last.1 ∙ sock)

-- a query that the task takes
pub queried_lem :
    (c c₁ : Client) (peer : Address) (query : Bytes)
    → client_step (queried peer query) c ≡ some c₁
    → (c₁.inflight c.next ≡ some peer) × (c₁.dns_sock ≡ c.dns_sock)
unfolding client_step on_query allocate
queried_lem c c₁ peer query ran = elim (Bool-cases (c.dns_live && leb (length query) 4096)) [
  | inl taken ↦
      let d : Client = record c {
        next = (allocate c.next).1;
        inflight = insert c.inflight c.next peer;
      } in
      let f = frame c.next Cmd.dns_req query in
      let (entry, sock) = send-Same c.next d f in
      let e : record (send d f) { dns_live = c.out_open } ≡ c₁ =
        ground (arith, (rw taken at ran)) in
      let here : insert c.inflight c.next peer c.next ≡ some peer = ground arith in
      rw (← e) (entry ∙ here, sock)
  | inr refused ↦ absurd (cc (rw refused at ran))
]

pub query_sent :
    (c c₁ : Client) (peer : Address) (query : Bytes)
    → c.out_open ≡ true
    → client_step (queried peer query) c ≡ some c₁
    → c₁.out ≡ c.out ++ frame c.next Cmd.dns_req query ∷ []
unfolding client_step on_query send allocate
query_sent c c₁ peer query on ran = elim (Bool-cases (c.dns_live && leb (length query) 4096)) [
  | inl taken ↦
      let d : Client = record c {
        next = (allocate c.next).1;
        inflight = insert c.inflight c.next peer;
      } in
      let f = frame c.next Cmd.dns_req query in
      let e : record (send d f) { dns_live = c.out_open } ≡ c₁ =
        ground (arith, (rw taken at ran)) in
      rw (← e, on) refl
  | inr refused ↦ absurd (cc (rw refused at ran))
]

reply_lem :
    (c : Client) (peer : Address) (answer : Bytes)
    → c.dns_sock ≡ true
    → ((reply c peer answer).replies ≡ c.replies ++ to_peer peer answer)
      × ((reply c peer answer).inflight ≡ c.inflight)
unfolding reply
reply_lem c peer [] sock = (sym (append-nil c.replies), refl)
reply_lem c peer (b ∷ bs) sock = rw sock (refl, refl)

response_lem :
    (c : Client) (ch : ℕ) (peer : Address) (answer : Bytes)
    → c.demux ≡ Demux.reading
    → c.inflight ch ≡ some peer
    → client_step (arrives (frame ch Cmd.dns_response answer)) c
      ≡ some (reply (record c { inflight = delete c.inflight ch }) peer answer)
unfolding client_step demux_step demux_frame on_response
response_lem c ch peer answer reads entry =
    let f = frame ch Cmd.dns_response answer in
    ap (demux_step (arrives f) c) reads ∙ ap (λ o. some (on_response c f o)) entry

-- A DNS query that the client has taken waits, through steps of any tasks that neither answer it nor
-- draw its channel again, for the response on its channel. That response is then handed to the
-- socket for the peer that asked, and for no other, unless it is empty, and the query is forgotten.
pub answered :
    (c c₁ c₂ : Client) (peer : Address) (query answer : Bytes)
    → c.dns_sock ≡ true
    → client_step (queried peer query) c ≡ some c₁
    → Waits c.next c₁ c₂
    → c₂.demux ≡ Demux.reading
    → (d : Client) × (client_step (arrives (frame c.next Cmd.dns_response answer)) c₂ ≡ some d)
      × (d.replies ≡ c₂.replies ++ to_peer peer answer)
      × (d.inflight c.next ≡ none)
answered c c₁ c₂ peer query answer on ran waits reads =
    let (entry, sock) = queried_lem c c₁ peer query ran in
    let (entry', sock') = Waits-Same c.next c₁ c₂ waits in
    let f = frame c.next Cmd.dns_response answer in
    let d : Client = record c₂ { inflight = delete c₂.inflight c.next } in
    let forget : delete c₂.inflight c.next c.next ≡ none = ground arith in
    let (replies, forgotten) = reply_lem d peer answer (sock' ∙ sock ∙ on) in
    (
      reply d peer answer,
      response_lem c₂ c.next peer answer reads (entry' ∙ entry),
      replies,
      ap (λ m. m c.next) forgotten ∙ forget,
    )
