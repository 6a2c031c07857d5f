-- ===== src/Keyboard/Completion.antt =====
-- Tab: `autocomplete_tab` of drivers/keyboard.c.
use first_kernel.Base.{
  ℕ, zero, suc, ◌+◌, ◌-◌, ◌≤◌, ◌<◌, ◌≡◌, refl, ◌∙◌, List, [], ◌∷◌, none, some, Bool-cases,
  Option-cases, ◌==◌, ltb, Bool, true, false, ◌&&◌, get_or, set, length, length-set,
  get_elem?-eq-get_or, All, arith, inl, inr, ◌⊎◌,
}
use first_kernel.CString.{strncmp, strlen, char_difference}
use first_kernel.Keyboard.{
  Keyboard, emit, autocomplete_tab, complete_command, complete_from, os_commands, prints_char,
}
use first_kernel.Keyboard.Invariant.{IsValid, Keeps}

-- A terminated command of less than 255 characters.
abbrev IsCommand : List ℕ → Type 0
IsCommand command = (n : ℕ) × (strlen command ≡ some n) × (n < 255) × (n < length command)

abbrev is_command : List ℕ → Bool
is_command command = elim (strlen command) [
  | none ↦ false
  | some n ↦ ltb n 255 && ltb n (length command)
]

abbrev all_commands : List (List ℕ) → Bool
all_commands [] = true
all_commands (command ∷ commands) = is_command command && all_commands commands

all_commands-IsCommand :
    (commands : List (List ℕ)) → all_commands commands ≡ true → All IsCommand commands
all_commands-IsCommand [] h = tt
all_commands-IsCommand (command ∷ commands) h =
    (one (Option-cases (strlen command)), all_commands-IsCommand commands (ground arith))
  where
    one : ((strlen command ≡ none) ⊎ ((n : ℕ) × (strlen command ≡ some n))) → IsCommand command
    one (inl none_left) = absurd (ground arith)
    one (inr (n, e)) = (n, e, ground arith, ground arith)

os_commands-IsCommand : All IsCommand os_commands
unfolding strlen
os_commands-IsCommand = all_commands-IsCommand os_commands refl

strncmp_total :
    (s1 s2 : List ℕ) (n m : ℕ)
    → n ≤ length s1
    → strlen s2 ≡ some m
    → (d : ℕ) × (strncmp s1 s2 n ≡ some d)
unfolding strncmp strlen
strncmp_total s1 s2 zero m h e = (0, refl)
strncmp_total [] s2 (suc n) m h e = absurd (omega arith)
strncmp_total (a ∷ s1) [] (suc n) m h e = absurd (cc)
strncmp_total (a ∷ s1) (b ∷ s2) (suc n) m h e = elim (Bool-cases (a == b)) [
  | inl same ↦ elim (Bool-cases (a == 0)) [
    | inl end ↦ (0, ground arith)
    | inr more ↦
        same_head same more (λ m' e'. strncmp_total s1 s2 n m' (omega arith) e')
          (Option-cases (strlen s2))
  ]
  | inr differ ↦ (char_difference a b, ground arith)
]
  where
    same_head :
        (a == b) ≡ true
        → (a == 0) ≡ false
        → ((m' : ℕ) → strlen s2 ≡ some m' → (d : ℕ) × (strncmp s1 s2 n ≡ some d))
        → ((strlen s2 ≡ none) ⊎ ((m' : ℕ) × (strlen s2 ≡ some m')))
        → (d : ℕ) × (strncmp (a ∷ s1) (b ∷ s2) (suc n) ≡ some d)
    same_head same more rest (inl unterminated) = absurd (ground arith)
    same_head same more rest (inr (m', e')) = let (d, r) = rest m' e' in (d, ground arith)

complete_from-Keeps :
    (missing : ℕ) (command : List ℕ) (k : Keyboard)
    → IsValid k
    → missing ≤ length command - k.buffer_index
    → missing ≤ 255 - k.buffer_index
    → Keeps (complete_from missing command k)
unfolding complete_from
complete_from-Keeps zero command k v h n = (k, refl, v)
complete_from-Keeps (suc missing) command k v h n =
    let c = get_or command k.buffer_index 0 in
    let k1 = emit (prints_char c) (record k {
      key_buffer = set k.key_buffer k.buffer_index c;
      buffer_index = k.buffer_index + 1;
    }) in
    let (k2, r, w) =
      complete_from-Keeps missing command k1
        (record {
          buffer = length-set k.key_buffer k.buffer_index c ∙ v.buffer;
          index = omega arith;
          last = v.last;
          last_len = v.last_len;
        })
        (omega arith) (omega arith) in
    (k2, ground (arith, get_elem?-eq-get_or command k.buffer_index 0, v.buffer), w)

complete_command-Keeps :
    (commands : List (List ℕ)) (k : Keyboard)
    → All IsCommand commands
    → IsValid k
    → Keeps (complete_command commands k)
unfolding complete_command
complete_command-Keeps [] k a v = (k, refl, v)
complete_command-Keeps (command ∷ commands) k ((n, e, small, inside), a) v =
    decided (complete_command-Keeps commands k a v)
      (strncmp_total k.key_buffer command k.buffer_index n (omega (arith, v.buffer, v.index)) e)
  where
    decided :
        Keeps (complete_command commands k)
        → ((d : ℕ) × (strncmp k.key_buffer command k.buffer_index ≡ some d))
        → Keeps (complete_command (command ∷ commands) k)
    decided (k', q, w) (d, r) = elim (Bool-cases (d == 0)) [
      | inl match ↦
          let (k'', q', w') =
            complete_from-Keeps (n - k.buffer_index) command k v (omega arith) (omega arith) in
          (k'', ground arith, w')
      | inr differs ↦ (k', ground arith, w)
    ]

pub autocomplete_tab-Keeps : (k : Keyboard) → IsValid k → Keeps (autocomplete_tab k)
unfolding autocomplete_tab
autocomplete_tab-Keeps k v = elim (Bool-cases (k.buffer_index == 0)) [
  | inl empty ↦ (k, ground arith, v)
  | inr some_char ↦
      let (k', r, w) =
        complete_command-Keeps os_commands
          (record k { key_buffer = set k.key_buffer k.buffer_index 0 }) os_commands-IsCommand
          (record {
            buffer = length-set k.key_buffer k.buffer_index 0 ∙ v.buffer;
            index = v.index;
            last = v.last;
            last_len = v.last_len;
          }) in
      (k', ground (arith, v.buffer, v.index), w)
]
