-- ===== src/Kbd/Keys/Laws.antt =====
-- The key handler of kernel/dev/bcon_kbd.c, call by call.
use eaburns_sos.Prelude.{
  ℕ, ◌<◌, ◌≤◌, ◌≡◌, ◌≢◌, refl, ◌∙◌, [], ◌∷◌, ◌++◌, true, false, not, ◌&&◌, arith, ltb, leb, ◌==◌,
  if◌then◌else◌, Bool-cases, inl, inr, drop,
}
use eaburns_sos.Prelude.Bits.{bit}
use eaburns_sos.Kbd.Keymap.{key_at, k_ctl}
use eaburns_sos.Kbd.Queue.{KeyQueue, queue_len, enqueue, dequeue}
use eaburns_sos.Kbd.Queue.Laws.{
  IsValid, contents, enqueue-IsValid, dequeue-IsValid, contents-enqueue, contents-dequeue,
  dequeue_nil, contents_nil,
}
use eaburns_sos.Kbd.Keys.{
  Keyboard, echo, queue_full, has, modifier, handle, handle_ascii, handle_backspace, handle_char,
  handle_other, key_of, echo_key, echo_on, echo_off, echo_bit, ctl_bit,
}
use eaburns_sos.Kbd.Keys.Flags.{bit-raise, bit-lower}

module _ (k : Keyboard) (v : IsValid k.queue) where
  handle_backspace-IsValid : IsValid (handle_backspace k).0.queue
  unfolding handle_backspace
  handle_backspace-IsValid = dequeue-IsValid v

  handle_char-IsValid : (key : ℕ) → IsValid (handle_char k key).0.queue
  unfolding handle_char
  handle_char-IsValid key = enqueue-IsValid key v

  handle_ascii-IsValid : (key state : ℕ) → IsValid (handle_ascii k key state).0.queue
  unfolding handle_ascii
  handle_ascii-IsValid key state = elim (Bool-cases (state == 1)) [
    | inl e ↦ rw e v
    | inr e ↦ rw e (elim (Bool-cases (key == 8)) [
      | inl b ↦ rw b (dequeue-IsValid v)
      | inr b ↦ rw b (enqueue-IsValid (if key == 13 then 10 else key) v)
    ])
  ]

  -- Whatever key is pressed or released, the input queue stays well formed.
  pub handle-IsValid : (scancode state : ℕ) → IsValid (handle k scancode state).0.queue
  unfolding handle handle_other
  handle-IsValid scancode state =
      let key = key_of k.kbd_state scancode in
      elim (Bool-cases (ltb key 128 && not (key == 0))) [
        | inl e ↦ rw e (handle_ascii-IsValid key state)
        | inr e ↦ rw e v
      ]

-- the new-line that the handler stores for '\r'
abbrev newline : ℕ → ℕ
newline key = if key == 13 then 10 else key

is_ascii : (key : ℕ) → key < 128 → key ≢ 0 → (ltb key 128 && not (key == 0)) ≡ true
is_ascii key h ne = ground arith

contents-dequeue-drop : {q : KeyQueue} → IsValid q → contents (dequeue q).1 ≡ drop 1 (contents q)
contents-dequeue-drop {q} v = elim (Bool-cases (q.count == 0)) [
  | inl e ↦ let z : q.count ≡ 0 = ground arith in rw (dequeue_nil q z, contents_nil q z)
  | inr e ↦ rw (contents-dequeue v (ground arith))
]

handle_char_effects :
    (k : Keyboard) (c : ℕ)
    → (handle_char k c).1 ≡ (
        if k.queue.count == queue_len
        then queue_full ∷ []
        else if has k.kbd_state echo_bit
        then echo c ∷ []
        else [])
unfolding handle_char enqueue echo_key
handle_char_effects k c = ground arith

handle_char_rest :
    (k : Keyboard) (c : ℕ)
    → ((handle_char k c).0.queue ≡ (enqueue k.queue c).1)
      × ((handle_char k c).0.kbd_state ≡ k.kbd_state)
unfolding handle_char
handle_char_rest k c = (refl, refl)

module _ (k : Keyboard) (scancode key state : ℕ) (e : key_of k.kbd_state scancode ≡ key)
    (h : key < 128) (ne : key ≢ 0) where
  to_ascii : handle k scancode state ≡ handle_ascii k key state
  unfolding handle
  to_ascii = rw e (rw (is_ascii key h ne))

  to_char : key ≢ 8 → state ≢ 1 → handle k scancode state ≡ handle_char k (newline key)
  unfolding handle_ascii
  to_char nb pressed = to_ascii ∙ ground arith

  to_backspace : key ≡ 8 → state ≢ 1 → handle k scancode state ≡ handle_backspace k
  unfolding handle_ascii
  to_backspace b pressed = to_ascii ∙ ground arith

  -- The press of an ASCII key other than '\b' appends it to the input queue ('\r' as '\n'), and
  -- echoes it if echo is on; on a full queue the key is dropped and only the message is printed.
  -- The modifiers stay.
  pub handle_press :
      IsValid k.queue
      → key ≢ 8
      → state ≢ 1
      → let (k', effects) = handle k scancode state in
        (contents k'.queue ≡ (
          if k.queue.count == queue_len
          then contents k.queue
          else contents k.queue ++ (newline key ∷ [])))
        × (k'.kbd_state ≡ k.kbd_state)
        × (effects ≡ (
            if k.queue.count == queue_len
            then queue_full ∷ []
            else if has k.kbd_state echo_bit
            then echo (newline key) ∷ []
            else []))
  handle_press v nb pressed = rw (to_char nb pressed) (
    rw (handle_char_rest k (newline key)).0 (contents-enqueue (newline key) v),
    (handle_char_rest k (newline key)).1,
    handle_char_effects k (newline key),
  )

  -- The press of '\b' removes the oldest key of the input queue, not the last one typed.
  pub handle_erase :
      IsValid k.queue
      → key ≡ 8
      → state ≢ 1
      → contents (handle k scancode state).0.queue ≡ drop 1 (contents k.queue)
  handle_erase v b pressed =
      rw (to_backspace b pressed) (unfold handle_backspace in contents-dequeue-drop v)

  -- The release of an ASCII key does nothing.
  pub handle_release : state ≡ 1 → handle k scancode state ≡ (k, [])
  unfolding handle_ascii
  handle_release r = to_ascii ∙ ground arith

-- Scancode 29 is the control key, with shift and without.
key_of-ctl : (s : ℕ) → key_of s 29 ≡ k_ctl
unfolding key_of key_at
key_of-ctl s = ground arith

to_other :
    (k : Keyboard) (scancode key state : ℕ)
    → key_of k.kbd_state scancode ≡ key
    → 128 ≤ key
    → (handle k scancode state).0.kbd_state ≡ modifier k.kbd_state key state
unfolding handle handle_other
to_other k scancode key state e h =
    let a : (ltb key 128 && not (key == 0)) ≡ false = ground arith in rw e (rw a)

-- Pressing control sets its flag only.
pub handle-ctl_press :
    (k : Keyboard) (i : ℕ)
    → i < 16
    → bit i (handle k 29 0).0.kbd_state ≡ (if ctl_bit == i then 1 else bit i k.kbd_state)
handle-ctl_press k i h =
    rw (to_other k 29 k_ctl 0 (key_of-ctl k.kbd_state) (omega arith))
      (unfold modifier in bit-raise k.kbd_state ctl_bit i (omega arith) h)

-- Releasing control clears its flag and with it the flags of shift and meta, held or not.
pub handle-ctl_release :
    (k : Keyboard) (i : ℕ)
    → i < 16
    → bit i (handle k 29 1).0.kbd_state ≡ (if leb i ctl_bit then 0 else bit i k.kbd_state)
handle-ctl_release k i h =
    rw (to_other k 29 k_ctl 1 (key_of-ctl k.kbd_state) (omega arith))
      (unfold modifier in bit-lower k.kbd_state ctl_bit i (omega arith) h)

-- Turning echo off clears every flag of the keyboard, the held modifiers too; turning it on sets
-- its own flag only.
pub echo_switch :
    (k : Keyboard) (i : ℕ)
    → i < 16
    → (bit i (echo_off k).kbd_state ≡ 0)
      × (bit i (echo_on k).kbd_state ≡ (if echo_bit == i then 1 else bit i k.kbd_state))
unfolding echo_off echo_on
echo_switch k i h = (
  ground (arith, bit-lower k.kbd_state echo_bit i (omega arith) h),
  bit-raise k.kbd_state echo_bit i (omega arith) h,
)
