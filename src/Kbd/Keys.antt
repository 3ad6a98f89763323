-- ===== src/Kbd/Keys.antt =====
-- The key handler of kernel/dev/bcon_kbd.c: modifier state, echo, and the input queue.
-- `kbd_state` is a uint16 of flags. What the handler calls outside the file is a list of effects,
-- in the order of the calls.
pub mod Flags
pub mod Laws
use eaburns_sos.Prelude.{
  ℕ, ◌+◌, ◌-◌, ◌*◌, ◌%◌, ◌^◌, List, [], ◌∷◌, Bool, not, ◌&&◌, ◌||◌, ReturnCode, ret_failure,
  ret_success, ltb, ◌==◌, if◌then◌else◌, bit_and, bit_or, bit_xor,
}
use eaburns_sos.Kbd.Keymap.{key_at, k_ctl, k_lmeta, k_rmeta, k_del, k_lshift, k_rshift, k_caps}
use eaburns_sos.Kbd.Queue.{KeyQueue, enqueue, dequeue}

-- the bit numbers of K_ST_SHIFT, K_ST_META, K_ST_CTL, K_ST_CAPS, K_ST_DEL and ECHO_STATE
abbrev pub shift_bit : ℕ
shift_bit = 0

abbrev pub meta_bit : ℕ
meta_bit = 1

abbrev pub ctl_bit : ℕ
ctl_bit = 2

abbrev pub caps_bit : ℕ
caps_bit = 4

abbrev pub del_bit : ℕ
del_bit = 12

abbrev pub echo_bit : ℕ
echo_bit = 15

-- `~K_ST_X` for `#define K_ST_X 1<<k`. The macro has no parentheses, so this is `(~1)<<k`, here in
-- the 16 bits that the assignment keeps.
abbrev pub clear_mask : ℕ → ℕ
clear_mask k = (131072 - 2 * 2 ^ k) % 65536

-- `kbd_state |= K_ST_X`
unfoldable pub raise : ℕ → ℕ → ℕ
raise s k = bit_or s (2 ^ k)

-- `kbd_state &= ~K_ST_X`
unfoldable pub lower : ℕ → ℕ → ℕ
lower s k = bit_and s (clear_mask k)

-- `kbd_state&K_ST_X` as a test
unfoldable pub has : ℕ → ℕ → Bool
has s k = not (bit_and s (2 ^ k) == 0)

pub data Effect : Type 0 where
  -- `bcon_putchar( key )`
  echo : ℕ → Effect
  -- `puts( "\nQueueFull\n" )`
  queue_full : Effect
  -- `arch_kbd_reboot()`
  reboot : Effect

-- the file's static variables
pub record Keyboard : Type 0 where
  pub queue : KeyQueue
  pub kbd_state : ℕ

unfoldable pub echo_on : Keyboard → Keyboard
echo_on k = record k { kbd_state = raise k.kbd_state echo_bit }

unfoldable pub echo_off : Keyboard → Keyboard
echo_off k = record k { kbd_state = lower k.kbd_state echo_bit }

-- the lookup in the keymap, shift and caps lock considered
unfoldable pub key_of : ℕ → ℕ → ℕ
key_of s scancode =
    if has s shift_bit || has s caps_bit then key_at (scancode + 128) else key_at scancode

unfoldable pub echo_key : ℕ → ℕ → List Effect
echo_key s key = if has s echo_bit then echo key ∷ [] else []

-- '\b' (8): a key is dequeued, and nothing is enqueued.
unfoldable pub handle_backspace : Keyboard → Keyboard × List Effect
handle_backspace k =
    let (c, q) = dequeue k.queue in
    (record k { queue = q }, if c == 0 then [] else echo_key k.kbd_state 8)

unfoldable pub handle_char : Keyboard → ℕ → Keyboard × List Effect
handle_char k key =
    let (r, q) = enqueue k.queue key in
    (
      record k { queue = q },
      elim r [ ret_failure ↦ queue_full ∷ [] | ret_success ↦ echo_key k.kbd_state key ],
    )

-- The ASCII branch. Releases are ignored, and '\r' (13) becomes '\n' (10).
unfoldable pub handle_ascii : Keyboard → ℕ → ℕ → Keyboard × List Effect
unfolding handle_backspace handle_char
handle_ascii k key state =
    if state == 1
    then (k, [])
    else if key == 8
    then handle_backspace k
    else handle_char k (if key == 13 then 10 else key)

-- `if( state == 0 ) { set } else { clear }`
unfoldable pub press : ℕ → ℕ → ℕ → ℕ
unfolding raise lower
press s k state = if state == 0 then raise s k else lower s k

-- The switch over the keys that are not ASCII.
unfoldable pub modifier : ℕ → ℕ → ℕ → ℕ
unfolding press
modifier s key state =
    if key == k_ctl
    then press s ctl_bit state
    else if key == k_lmeta || key == k_rmeta
    then press s meta_bit state
    else if key == k_del
    then press s del_bit state
    else if key == k_lshift || key == k_rshift
    then press s shift_bit state
    else if key == k_caps
    then (if state == 0 then bit_xor s (2 ^ caps_bit) else s)
    else s

unfoldable pub handle_other : Keyboard → ℕ → ℕ → Keyboard × List Effect
unfolding modifier
handle_other k key state =
    let s = modifier k.kbd_state key state in
    (
      record k { kbd_state = s },
      if state == 0 && has s ctl_bit && has s meta_bit && has s del_bit then reboot ∷ [] else [],
    )

-- `bcon_kbd_handle`; `state` is 0 for a press and 1 for a release.
unfoldable pub handle : Keyboard → ℕ → ℕ → Keyboard × List Effect
handle k scancode state =
    let key = key_of k.kbd_state scancode in
    if ltb key 128 && not (key == 0) then handle_ascii k key state else handle_other k key state
