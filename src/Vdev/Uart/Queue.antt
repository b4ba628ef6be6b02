-- ===== src/Vdev/Uart/Queue.antt =====
-- `RxQueue` and `TxQueue` of uart.rs: rings in an array of `capacity` bytes.
use switchvisor.Base.{
  ℕ, zero, suc, ◌+◌, ◌-◌, ◌%◌, min, Bool, true, false, ◌==◌, if◌then◌else◌, List, [], ◌∷◌, get_or,
  set, replicate, Option, none, some, saturating_add,
}

-- `RxQueue`, and the part of `TxQueue` that is the same.
pub record Ring : Type 0 where
  pub bytes : List ℕ
  pub head : ℕ
  pub len : ℕ

unfoldable pub new : ℕ → Ring
new capacity = record { bytes = replicate capacity 0; head = 0; len = 0 }

-- `self.bytes[(self.head + self.len) % N] = byte; self.len += 1`
unfoldable pub store : ℕ → Ring → ℕ → Ring
store capacity q byte = record q {
  bytes = set q.bytes ((q.head + q.len) % capacity) byte;
  len = q.len + 1;
}

unfoldable pub push : ℕ → Ring → ℕ → Bool × Ring
push capacity q byte = if q.len == capacity then (false, q) else (true, store capacity q byte)

-- `self.head = (self.head + count) % N`, unless N is 0.
unfoldable pub advance : ℕ → Ring → ℕ → Ring
advance capacity q count = record q {
  head = if capacity == 0 then q.head else (q.head + count) % capacity;
  len = q.len - count;
}

unfoldable pub pop : ℕ → Ring → Option ℕ × Ring
pop capacity q =
    if q.len == 0 then (none, q) else (some (get_or q.bytes q.head 0), advance capacity q 1)

unfoldable pub clear : Ring → Ring
clear q = record q { head = 0; len = 0 }

unfoldable pub free : ℕ → Ring → ℕ
free capacity q = capacity - q.len

pub record TxQueue : Type 0 where
  pub ring : Ring
  pub dropped : ℕ

unfoldable pub tx_new : ℕ → TxQueue
tx_new capacity = record { ring = new capacity; dropped = 0 }

unfoldable pub tx_push : ℕ → TxQueue → ℕ → TxQueue
tx_push capacity q byte =
    if q.ring.len == capacity
    then record q { dropped = saturating_add q.dropped 1 }
    else record q { ring = store capacity q.ring byte }

-- The bytes from `index` on that `peek` copies, `count` of them.
unfoldable pub peek_from : ℕ → Ring → ℕ → ℕ → List ℕ
peek_from capacity q index zero = []
peek_from capacity q index (suc count) =
    get_or q.bytes ((q.head + index) % capacity) 0 ∷ peek_from capacity q (index + 1) count

-- What `peek` writes to an output of `room` bytes.
unfoldable pub tx_peek : ℕ → TxQueue → ℕ → List ℕ
tx_peek capacity q room = peek_from capacity q.ring 0 (min q.ring.len room)

unfoldable pub tx_consume : ℕ → TxQueue → ℕ → TxQueue
tx_consume capacity q count = record q { ring = advance capacity q.ring (min count q.ring.len) }
