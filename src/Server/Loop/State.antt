-- ===== src/Server/Loop/State.antt =====
-- rushtle/src/server.rs, what the main loop and its tasks share.
use kubectl_sshuttle.Base.{ℕ, Bool, true, false, not, none, List, []}
pub use kubectl_sshuttle.Base.{ChannelMap, put, erase}
use kubectl_sshuttle.Text.Utf8.{Bytes, Str}
use kubectl_sshuttle.Ssnet.Frame.{Frame}
use kubectl_sshuttle.Ssnet.Connect.{ConnectTarget}

-- the capacity of a channel's inbound queue, `mpsc::channel(64)`
abbrev pub capacity : ℕ
capacity = 64

-- A task of `spawn_tcp_connect`: it connects; then it copies both ways; or, the connection refused,
-- it waits for the lock of the map; at last it is gone.
pub data Phase : Type 0 where
  connecting streaming refused gone : Phase

pub record TcpTask : Type 0 where
  pub channel : ℕ
  pub target : ConnectTarget
  pub phase : Phase
  -- the inbound queue
  pub queue : List Bytes
  -- what `write_half` took
  pub written : Bytes
  pub writer_live : Bool
  pub reader_live : Bool

pub record UdpTask : Type 0 where
  pub channel : ℕ
  pub family : ℕ
  pub queue : List (Str × ℕ × Bytes)
  -- the task that receives from the socket: it runs; it is about to look its channel up
  pub listening : Bool
  pub checking : Bool

-- the main loop reads frames; or it holds the lock of a map and waits for room in a queue; or it
-- has ended
pub data Main : Type 0 where
  reading stopped : Main
  offering : ℕ → Bytes → Main
  offering_udp : ℕ → Str × ℕ × Bytes → Main

abbrev pub no_channels : ChannelMap
no_channels c = none

-- `out` is what was handed to the writer task, and `out_open` whether that still runs; when it has
-- ended, a frame that is sent is lost, and the sender is told so
pub record Server : Type 0 where
  pub main : Main
  pub tcp : ChannelMap
  pub udp : ChannelMap
  pub tasks : List TcpTask
  pub udp_tasks : List UdpTask
  -- the channels of the DNS queries under way
  pub dns : List (ℕ × Bytes)
  pub out : List Frame
  pub out_open : Bool

abbrev pub initial : Server
initial = record {
  main = Main.reading;
  tcp = no_channels;
  udp = no_channels;
  tasks = [];
  udp_tasks = [];
  dns = [];
  out = [];
  out_open = true;
}

-- the receiver of the queue is dropped: by the phase, and whether the writing half still runs
pub dropped_in : Phase → Bool → Bool
dropped_in Phase.connecting live = false
dropped_in Phase.streaming live = not live
dropped_in Phase.refused live = false
dropped_in Phase.gone live = true

unfoldable pub is_dropped : TcpTask → Bool
unfolding dropped_in
is_dropped t = dropped_in t.phase t.writer_live
