-- ===== src/Queue.antt =====
-- src/queue.rs: the bounded, nonblocking queue whose overflow makes its connection fail. The flag may
-- be shared with other queues, which set it as well.
pub mod Delivery
use rust_trader.Base.{ℕ, Bool, true, false, List, [], ◌∷◌, ◌++◌, ltb, if◌then◌else◌, not}
use rust_trader.Base.Lists.{length}

abbrev pub capacity_default : ℕ
capacity_default = 1024

-- A channel: both ends of `sync_channel`, with the failure flag.
pub record Channel (T : Type 0) : Type 0 where
  pub capacity : ℕ
  pub waiting : List T
  pub connected : Bool
  pub failed : Bool

pub data TrySendError : Type 0 where
  full disconnected : TrySendError

pub data Sent : Type 0 where
  accepted : Sent
  refused : TrySendError → Sent

module _ {T : Type 0} where
  unfoldable pub channel_with_flag : ℕ → Bool → Channel T
  channel_with_flag capacity failed = record {
    capacity = capacity;
    waiting = [];
    connected = true;
    failed = failed;
  }

  unfoldable pub channel : Channel T
  unfolding channel_with_flag
  channel = channel_with_flag capacity_default false

  -- `SyncSender::try_send`
  unfoldable pub try_send : Channel T → T → Sent × Channel T
  try_send c value =
      if not c.connected
      then (refused disconnected, c)
      else if ltb (length c.waiting) c.capacity
      then (accepted, record c { waiting = c.waiting ++ value ∷ [] })
      else (refused full, c)

  mark : Sent × Channel T → Sent × Channel T
  mark (accepted, c) = (accepted, c)
  mark (refused e, c) = (refused e, record c { failed = true })

  unfoldable pub send : Channel T → T → Sent × Channel T
  unfolding try_send mark
  send c value = if c.failed then (refused disconnected, c) else mark (try_send c value)
