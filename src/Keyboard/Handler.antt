-- ===== src/Keyboard/Handler.antt =====
-- The handler of drivers/keyboard.c as a whole: Tab, the up arrow and the other keys.
use first_kernel.Base.{
  ℕ, zero, suc, ◌+◌, ◌≤◌, ◌<◌, ◌≡◌, refl, ◌∙◌, List, Option, some, Bool-cases, Option-cases, ◌==◌,
  leb, ltb, leb→le, if◌then◌else◌, ◌&&◌, ◌||◌, get_or, set, length-set, get_elem?-eq-get_or, arith,
  leb→le, inl, inr,
}
use first_kernel.Base.Partial.{◌>>=◌}
use first_kernel.Keyboard.{
  Keyboard, emit, keyboard_handler, other_key, press, recall, retype_from, erase, decode,
  scancode_to_char, scancode_to_char_shift, writes_port, prints_char,
}
use first_kernel.Keyboard.Invariant.{
  IsValid, Keeps, KeepsLength, type_char-Keeps, rubout-Keeps, submit-Keeps,
}
use first_kernel.Keyboard.Completion.{autocomplete_tab-Keeps}

erase-IsValid : (n : ℕ) (k : Keyboard) → n < 256 → IsValid k → IsValid (erase n k)
unfolding erase
erase-IsValid zero k h v = v
erase-IsValid (suc n) k h v =
    erase-IsValid n (record (emit (prints_char 8) k) { buffer_index = n }) (omega arith)
      (record { buffer = v.buffer; index = omega arith; last = v.last; last_len = v.last_len })

retype_from-Keeps :
    (left i : ℕ) (k : Keyboard) → i + left < 256 → IsValid k → Keeps (retype_from left i k)
unfolding retype_from
retype_from-Keeps zero i k h v = (k, refl, v)
retype_from-Keeps (suc left) i k h v =
    let c = get_or k.last_command i 0 in
    let (k', r, w) =
      retype_from-Keeps left (i + 1)
        (emit (prints_char c) (record k { key_buffer = set k.key_buffer i c })) (omega arith)
        (record {
          buffer = length-set k.key_buffer i c ∙ v.buffer;
          index = v.index;
          last = v.last;
          last_len = v.last_len;
        }) in
    (k', ground (arith, get_elem?-eq-get_or k.last_command i 0, v.buffer, v.last), w)

recall-Keeps : (k : Keyboard) → IsValid k → Keeps (recall k)
unfolding recall
recall-Keeps k v =
    let (k', r, w) =
      retype_from-Keeps k.last_command_len 0 (erase k.buffer_index k) (omega (arith, v.last_len))
        (erase-IsValid k.buffer_index k v.index v) in
    (
      record k' {
        key_buffer = set k'.key_buffer k'.last_command_len 0;
        buffer_index = k'.last_command_len;
      },
      ground (arith, w.buffer, w.last_len),
      record {
        buffer = length-set k'.key_buffer k'.last_command_len 0 ∙ w.buffer;
        index = w.last_len;
        last = w.last;
        last_len = w.last_len;
      },
    )

decode_total :
    (k : Keyboard) (scancode : ℕ) → scancode ≤ 57 → (c : ℕ) × (decode k scancode ≡ some c)
decode_total k scancode h = elim (Option-cases (decode k scancode)) [
  | inl nothing ↦ absurd (
      unfold decode in
      ground (
        arith,
        get_elem?-eq-get_or scancode_to_char scancode 0,
        get_elem?-eq-get_or scancode_to_char_shift scancode 0,
      ))
  | inr found ↦ found
]

-- The same result under another name.
Keeps-of : {result result' : Option Keyboard} → result ≡ result' → Keeps result' → Keeps result
Keeps-of e (k', r, w) = (k', e ∙ r, w)

module _ (shell : List ℕ → List ℕ) (keeps : KeepsLength shell) where
  press-Keeps : (c : ℕ) (k : Keyboard) → IsValid k → Keeps (press shell c k)
  unfolding press
  press-Keeps c k v = elim (Bool-cases (c == 10)) [
    | inl enter ↦ Keeps-of (ground arith) (submit-Keeps shell k keeps v)
    | inr other ↦ elim (Bool-cases (c == 8)) [
      | inl back ↦ Keeps-of (ground arith) (rubout-Keeps k v)
      | inr char ↦ elim (Bool-cases (c == 0)) [
        | inl nothing ↦ (k, ground arith, v)
        | inr letter ↦ Keeps-of (ground arith) (type_char-Keeps c k v)
      ]
    ]
  ]

  other_key-Keeps : (scancode : ℕ) (k : Keyboard) → IsValid k → Keeps (other_key shell scancode k)
  unfolding other_key
  other_key-Keeps scancode k v = elim (Bool-cases (scancode == 0x2A || scancode == 0x36)) [
    | inl down ↦ (
      record k { shift_pressed = 1 },
      ground arith,
      record { buffer = v.buffer; index = v.index; last = v.last; last_len = v.last_len },
    )
    | inr not_down ↦ elim (Bool-cases (scancode == 0xAA || scancode == 0xB6)) [
      | inl up ↦ (
        record k { shift_pressed = 0 },
        ground arith,
        record { buffer = v.buffer; index = v.index; last = v.last; last_len = v.last_len },
      )
      | inr not_up ↦ elim (Bool-cases (scancode == 0x3A)) [
        | inl caps ↦ (
          record k { caps_locks = if k.caps_locks == 0 then 1 else 0 },
          ground arith,
          record { buffer = v.buffer; index = v.index; last = v.last; last_len = v.last_len },
        )
        | inr not_caps ↦ elim (Bool-cases (leb scancode 57)) [
          | inl inside ↦
              let (c, r) = decode_total k scancode (leb→le scancode 57 inside) in
              Keeps-of (ground arith) (press-Keeps c k v)
          | inr outside ↦ (k, ground arith, v)
        ]
      ]
    ]
  ]

  ended :
      {result : Option Keyboard}
      → Keeps result
      → Keeps (do k' ← result; some (emit (writes_port 0x20 0x20) k'))
  ended (k', r, w) = (
    emit (writes_port 0x20 0x20) k',
    rw r refl,
    record { buffer = w.buffer; index = w.index; last = w.last; last_len = w.last_len },
  )

  -- From a valid state, whatever key is pressed or released and whatever the shell does to the buffer
  -- that it is handed, `keyboard_handler` faults nowhere and leaves a valid state: both indices stay
  -- inside their arrays of 256 bytes.
  pub keyboard_handler-Keeps :
      (scancode : ℕ) (k : Keyboard) → IsValid k → Keeps (keyboard_handler shell scancode k)
  unfolding keyboard_handler
  keyboard_handler-Keeps scancode k v = elim (Bool-cases (scancode == 0x0F)) [
    | inl tab ↦ Keeps-of (ground arith) (ended (autocomplete_tab-Keeps k v))
    | inr other ↦ elim (Bool-cases (scancode == 0x48 && ltb 0 k.last_command_len)) [
      | inl up ↦ Keeps-of (ground arith) (ended (recall-Keeps k v))
      | inr key ↦ Keeps-of (ground arith) (ended (other_key-Keeps scancode k v))
    ]
  ]
