-- ===== src/Keyboard/Examples.antt =====
-- The keyboard before the first key, and how a key is seen to type a character.
use first_kernel.Base.{
  ℕ, ◌≡◌, refl, ◌==◌, leb, if◌then◌else◌, true, false, Bool, [], some, replicate, arith,
}
use first_kernel.Keyboard.{Keyboard, decode}
use first_kernel.Keyboard.Invariant.{IsValid}
use first_kernel.Keyboard.Typed.{Types}

abbrev pub idle : Keyboard
idle = record {
  shift_pressed = 0;
  caps_locks = 0;
  key_buffer = replicate 256 0;
  buffer_index = 0;
  last_command = replicate 256 0;
  last_command_len = 0;
  events = [];
}

pub idle-IsValid : IsValid idle
idle-IsValid = record { buffer = refl; index = omega arith; last = refl; last_len = omega arith }

-- The keys that do something else.
abbrev pub is_special : ℕ → ℕ → Bool
is_special scancode c =
    if leb scancode 57
    then (if scancode == 0x0F
        then true
        else if scancode == 0x2A
        then true
        else if scancode == 0x36
        then true
        else if c == 0
        then true
        else if c == 8
        then true
        else c == 10)
    else true

pub struck_key :
    (k : Keyboard) (scancode c : ℕ)
    → decode k scancode ≡ some c
    → is_special scancode c ≡ false
    → Types k scancode c
struck_key k scancode c e h = record {
  decoded = e;
  inside = ground arith;
  not_tab = λ z. ground arith;
  not_left = λ z. ground arith;
  not_right = λ z. ground arith;
  not_null = λ z. ground arith;
  not_back = λ z. ground arith;
  not_enter = λ z. ground arith;
}
