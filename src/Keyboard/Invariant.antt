-- ===== src/Keyboard/Invariant.antt =====
-- The line editor's indices and arrays, under each kind of key.
use first_kernel.Base.{
  ℕ, zero, suc, ◌+◌, ◌-◌, ◌≤◌, ◌<◌, ◌≡◌, refl, ◌∙◌, List, Option, some, Bool-cases, ltb, get_or,
  set, length, length-set, get_elem?-eq-get_or, arith, inl, inr,
}
use first_kernel.Base.Text.{codes}
use first_kernel.Keyboard.{
  Keyboard, emit, type_char, rubout, submit, remember, remember_from, prints_char, prints, executes,
}

pub record IsValid (k : Keyboard) : Type 0 where
  pub buffer : length k.key_buffer ≡ 256
  pub index : k.buffer_index < 256
  pub last : length k.last_command ≡ 256
  pub last_len : k.last_command_len < 256

-- An operation that ends without a fault in a valid state.
abbrev pub Keeps : Option Keyboard → Type 0
Keeps result = (k' : Keyboard) × (result ≡ some k') × IsValid k'

pub type_char-Keeps : (c : ℕ) (k : Keyboard) → IsValid k → Keeps (type_char c k)
unfolding type_char
type_char-Keeps c k v = elim (Bool-cases (ltb k.buffer_index 255)) [
  | inl room ↦ (
    emit (prints_char c) (record k {
      key_buffer = set k.key_buffer k.buffer_index c;
      buffer_index = k.buffer_index + 1;
    }),
    ground (arith, v.buffer, v.index),
    record {
      buffer = length-set k.key_buffer k.buffer_index c ∙ v.buffer;
      index = ground arith;
      last = v.last;
      last_len = v.last_len;
    },
  )
  | inr full ↦ (k, ground arith, v)
]

pub rubout-Keeps : (k : Keyboard) → IsValid k → Keeps (rubout k)
unfolding rubout
rubout-Keeps k v = elim (Bool-cases (ltb 0 k.buffer_index)) [
  | inl some_char ↦ (
    emit (prints_char 8) (record k {
      key_buffer = set k.key_buffer (k.buffer_index - 1) 0;
      buffer_index = k.buffer_index - 1;
    }),
    ground (arith, v.buffer, v.index),
    record {
      buffer = length-set k.key_buffer (k.buffer_index - 1) 0 ∙ v.buffer;
      index = omega (arith, v.index);
      last = v.last;
      last_len = v.last_len;
    },
  )
  | inr empty ↦ (k, ground arith, v)
]

remember_from_lem :
    (left i : ℕ) (key_buffer last_command : List ℕ)
    → i + left ≤ 256
    → length key_buffer ≡ 256
    → length last_command ≡ 256
    → (after : List ℕ) × (remember_from left i key_buffer last_command ≡ some after)
      × (length after ≡ 256)
unfolding remember_from
remember_from_lem zero i key_buffer last_command h n m = (last_command, refl, m)
remember_from_lem (suc left) i key_buffer last_command h n m =
    let c = get_or key_buffer i 0 in
    let (after, r, l) =
      remember_from_lem left (i + 1) key_buffer (set last_command i c) (omega arith) n
        (length-set last_command i c ∙ m) in
    (after, ground (arith, get_elem?-eq-get_or key_buffer i 0), l)

pub remember-Keeps : (k : Keyboard) → IsValid k → Keeps (remember k)
unfolding remember
remember-Keeps k v = elim (Bool-cases (ltb 0 k.buffer_index)) [
  | inl some_char ↦
      let (after, r, l) =
        remember_from_lem (k.buffer_index + 1) 0 k.key_buffer k.last_command
          (omega (arith, v.index)) v.buffer v.last in
      (
        record k { last_command = after; last_command_len = k.buffer_index },
        ground arith,
        record { buffer = v.buffer; index = v.index; last = l; last_len = v.index },
      )
  | inr empty ↦ (k, ground arith, v)
]

-- The shell may overwrite the buffer that it is handed, but has no other.
abbrev pub KeepsLength : (List ℕ → List ℕ) → Type 0
KeepsLength shell = (buffer : List ℕ) → length (shell buffer) ≡ length buffer

pub submit-Keeps :
    (shell : List ℕ → List ℕ) (k : Keyboard)
    → KeepsLength shell
    → IsValid k
    → Keeps (submit shell k)
unfolding submit
submit-Keeps shell k keeps v =
    let buffer = set k.key_buffer k.buffer_index 0 in
    let k1 = record (emit (prints_char 10) k) { key_buffer = buffer } in
    let (k2, r, w) = remember-Keeps k1 (record {
      buffer = length-set k.key_buffer k.buffer_index 0 ∙ v.buffer;
      index = v.index;
      last = v.last;
      last_len = v.last_len;
    }) in
    (
      emit (prints (codes "OS> ")) (record (emit (executes k2.key_buffer) k2) {
        key_buffer = set (shell k2.key_buffer) 0 0;
        buffer_index = 0;
      }),
      ground (arith, v.buffer, v.index, w.buffer, keeps k2.key_buffer),
      record {
        buffer = length-set (shell k2.key_buffer) 0 0 ∙ keeps k2.key_buffer ∙ w.buffer;
        index = omega arith;
        last = w.last;
        last_len = w.last_len;
      },
    )
