-- ===== src/Kbd/Queue.antt =====
-- The input queue of kernel/dev/bcon_kbd.c: a ring of BCON_KBD_QUEUE_LEN (100) ASCII keys.
pub mod Laws
pub mod Refine
use eaburns_sos.Prelude.{
  ℕ, ◌+◌, ◌-◌, ◌%◌, List, Option, none, some, ReturnCode, ret_failure, ret_success, u16, ◌==◌,
  if◌then◌else◌, get_or, set,
}

-- OPTION_BCON_KBD_QUEUE_LEN of kernel/.config
abbrev pub queue_len : ℕ
queue_len = 100

-- `keyqueue_t`
pub record KeyQueue : Type 0 where
  pub head : ℕ
  pub tail : ℕ
  pub count : ℕ
  pub keys : List ℕ

-- A full queue is left alone (the source prints "QueueFull"; `Kbd.Keys.handle` records that).
unfoldable pub enqueue : KeyQueue → ℕ → ReturnCode × KeyQueue
enqueue q c = if q.count == queue_len then (ret_failure, q) else (
  ret_success,
  record q {
    keys = set q.keys q.tail c;
    tail = u16 (q.tail + 1) % queue_len;
    count = u16 (q.count + 1);
  },
)

-- The key, or 0 from an empty queue.
unfoldable pub dequeue : KeyQueue → ℕ × KeyQueue
dequeue q = if q.count == 0 then (0, q) else (
  get_or q.keys q.head 0,
  record q { head = u16 (q.head + 1) % queue_len; count = q.count - 1 },
)

-- `bcon_input_queue_head`: RET_FAILURE is `none`. It moves `head` and leaves `count`.
unfoldable pub input_queue_head : KeyQueue → Option ℕ × KeyQueue
input_queue_head q =
    if q.count == 0
    then (none, q)
    else (some (get_or q.keys q.head 0), record q { head = u16 (q.head + 1) % queue_len })
