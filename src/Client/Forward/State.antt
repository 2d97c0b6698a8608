-- ===== src/Client/Forward/State.antt =====
-- rushtle/src/client.rs, what the tasks that forward connections and DNS queries share.
use kubectl_sshuttle.Base.{
  ℕ, Bool, true, false, not, Option, none, some, List, [], ◌==◌, if◌then◌else◌, set,
}
use kubectl_sshuttle.Text.Utf8.{Bytes, Str}
use kubectl_sshuttle.Ssnet.Frame.{Frame}
use kubectl_sshuttle.Client.Channels.{first_id}

-- the capacity of a connection's inbound queue, `mpsc::channel(64)`
abbrev pub inbound : ℕ
inbound = 64

-- an address with a port: the original destination of a connection, or the peer of a DNS query
abbrev pub Address : Type 0
Address = Str × ℕ

-- `handle_conn`: it is about to send `CMD_TCP_CONNECT`; its two tasks copy, or are joined; it has
-- returned.
pub data ConnPhase : Type 0 where
  opening copying finished : ConnPhase

pub record Conn : Type 0 where
  pub channel : ℕ
  pub dst : Address
  pub phase : ConnPhase
  -- what stands in `in_rx`
  pub queue : List Bytes
  -- what `wh` took
  pub written : Bytes
  pub writer_live : Bool
  pub reader_live : Bool

-- the demultiplexer reads frames; or it holds the lock of `channels` and waits for room in the queue
-- of a connection; or it has ended
pub data Demux : Type 0 where
  reading stopped : Demux
  offering : ℕ → Bytes → Demux

-- an accept loop waits for a connection, or, a number drawn, for the lock of `channels`
pub data Accept : Type 0 where
  listening : Accept
  inserting : ℕ → Address → Accept

-- A `HashMap` whose keys are channels.
abbrev pub Table : Type 0 → Type 0
Table A = ℕ → Option A

abbrev pub insert : {A : Type 0} → Table A → ℕ → A → Table A
insert m k v c = if c == k then some v else m c

abbrev pub delete : {A : Type 0} → Table A → ℕ → Table A
delete m k c = if c == k then none else m c

-- `channels` gives the number of the connection whose task has the receiver; `out` is what was
-- handed to the writer task, and `out_open` whether that still receives; `replies` is what was
-- handed to the DNS socket.
pub record Client : Type 0 where
  pub demux : Demux
  pub accept_v4 : Accept
  pub accept_v6 : Accept
  pub next : ℕ
  pub channels : Table ℕ
  pub conns : List Conn
  pub out : List Frame
  pub out_open : Bool
  -- the DNS socket, if DNS is to be forwarded, and its task
  pub dns_sock : Bool
  pub dns_live : Bool
  pub inflight : Table Address
  pub replies : List (Address × Bytes)

-- before the tasks run; `dns` is the command line's
abbrev pub at_start : Bool → Client
at_start dns = record {
  demux = Demux.reading;
  accept_v4 = Accept.listening;
  accept_v6 = Accept.listening;
  next = first_id;
  channels = λ c. none;
  conns = [];
  out = [];
  out_open = true;
  dns_sock = dns;
  dns_live = dns;
  inflight = λ c. none;
  replies = [];
}

-- `in_rx` is dropped: by the writing task's end, or with `handle_conn`
pub dropped : ConnPhase → Bool → Bool
dropped ConnPhase.opening live = false
dropped ConnPhase.copying live = not live
dropped ConnPhase.finished live = true

unfoldable pub in_rx_dropped : Conn → Bool
unfolding dropped
in_rx_dropped k = dropped k.phase k.writer_live

-- The lock of `channels` is free.
unfoldable pub unlocked : Demux → Bool
unlocked (Demux.offering n buf) = false
unlocked _ = true

abbrev pub set_conn : Client → ℕ → Conn → Client
set_conn c n k = record c { conns = set c.conns n k }
