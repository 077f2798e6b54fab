-- ===== src/Input.antt =====
-- src/KBDAction.hpp and src/KeyValue.hpp: the packets that the two daemons exchange.
-- A field of w bits is the number of its bit pattern; `value` is the pattern of a signed word, and
-- the program compares it with 0, 1 and 2 only.
use hawck.Prelude.{ℕ, Bool, false}

-- `struct input_id` of the kernel.
pub record InputId : Type 0 where
  pub bustype : ℕ
  pub vendor : ℕ
  pub product : ℕ
  pub version : ℕ

-- `struct input_event` of the kernel.
pub record InputEvent : Type 0 where
  pub time : ℕ
  pub type : ℕ
  pub code : ℕ
  pub value : ℕ

pub record KbdAction : Type 0 where
  pub done : Bool
  pub dev_id : InputId
  pub ev : InputEvent

-- `enum KeyValue`.
abbrev pub key_val_up : ℕ
key_val_up = 0

abbrev pub key_val_down : ℕ
key_val_down = 1

abbrev pub key_val_repeat : ℕ
key_val_repeat = 2

-- Numbers of the kernel's event interface (linux/input-event-codes.h).
abbrev pub ev_syn : ℕ
ev_syn = 0

abbrev pub ev_key : ℕ
ev_key = 1

abbrev pub key_max : ℕ
key_max = 0x2ff

-- What `memset(&x, 0, sizeof(x))` leaves.
abbrev pub zero_id : InputId
zero_id = record { bustype = 0; vendor = 0; product = 0; version = 0 }

abbrev pub zero_event : InputEvent
zero_event = record { time = 0; type = 0; code = 0; value = 0 }

abbrev pub zero_action : KbdAction
zero_action = record { done = false; dev_id = zero_id; ev = zero_event }
