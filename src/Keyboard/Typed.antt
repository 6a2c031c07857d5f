-- ===== src/Keyboard/Typed.antt =====
-- Whole lines typed at drivers/keyboard.c: the keys that type a text, and the line that they make.
use first_kernel.Base.{
  ℕ, ◌+◌, ◌≤◌, ◌<◌, ◌≡◌, ◌≢◌, ap, ap₂, sym, ◌∙◌, List, [], ◌∷◌, ◌++◌, Option, some, store-append,
  length, length-append, append_assoc, append-nil, arith,
}
use first_kernel.Base.Partial.{◌>>=◌}
use first_kernel.Keyboard.{
  Keyboard, Event, keyboard_handler, other_key, press, type_char, decode, prints_char, writes_port,
}

-- Keys struck one after another.
unfoldable pub strike : (List ℕ → List ℕ) → List ℕ → Keyboard → Option Keyboard
strike shell [] k = some k
strike shell (s ∷ ss) k = do k' ← keyboard_handler shell s k; strike shell ss k'

-- A key that types a character: its scancode, as Shift and Caps Lock stand, is in the table of characters
-- and is none of the keys that do something else.
pub record Types (k : Keyboard) (scancode c : ℕ) : Type 0 where
  pub decoded : decode k scancode ≡ some c
  pub inside : scancode ≤ 57
  pub not_tab : scancode ≢ 0x0F
  pub not_left : scancode ≢ 0x2A
  pub not_right : scancode ≢ 0x36
  pub not_null : c ≢ 0
  pub not_back : c ≢ 8
  pub not_enter : c ≢ 10

-- Keys that type a text.
pub data TypesText (k : Keyboard) : List ℕ → List ℕ → Type 0 where
  no_key : TypesText k [] []
  and_key :
      {scancode c : ℕ} {ss text : List ℕ}
      → Types k scancode c
      → TypesText k ss text
      → TypesText k (scancode ∷ ss) (c ∷ text)

-- The events of such a key, and of several.
abbrev pub keyed : ℕ → List Event
keyed c = prints_char c ∷ writes_port 0x20 0x20 ∷ []

pub echoed : List ℕ → List Event
echoed [] = []
echoed (c ∷ text) = keyed c ++ echoed text

-- The line so far, and the rest of the buffer.
abbrev pub typing : Keyboard → List ℕ → List ℕ → List Event → Keyboard
typing k pre post events = record k {
  key_buffer = pre ++ post;
  buffer_index = length pre;
  events = events;
}

-- One character moves from the rest to the front.
pub moved : (pre : List ℕ) (c : ℕ) (xs : List ℕ) → pre ++ c ∷ xs ≡ (pre ++ c ∷ []) ++ xs
moved pre c xs = sym (append_assoc pre (c ∷ []) xs)

pub one_further : (pre : List ℕ) (c : ℕ) → length pre + 1 ≡ length (pre ++ c ∷ [])
one_further pre c = omega (arith, length-append pre (c ∷ []))

module _ (shell : List ℕ → List ℕ) where
  typed_key :
      (k : Keyboard) (pre : List ℕ) (d : ℕ) (post : List ℕ) (events : List Event) {s c : ℕ}
      → Types k s c
      → length pre < 255
      → keyboard_handler shell s (typing k pre (d ∷ post) events)
        ≡ some (record k {
          key_buffer = pre ++ c ∷ post;
          buffer_index = length pre + 1;
          events = (events ++ prints_char c ∷ []) ++ writes_port 0x20 0x20 ∷ [];
        })
  unfolding keyboard_handler other_key press type_char
  typed_key k pre d post events {s} {c} t room =
      let e : decode (typing k pre (d ∷ post) events) s ≡ some c = unfold decode in t.decoded in
      ground (
        arith,
        e,
        t.inside,
        t.not_tab,
        t.not_left,
        t.not_right,
        t.not_null,
        t.not_back,
        t.not_enter,
        store-append pre d c post,
      )

  pub typed_next :
      (k : Keyboard) (pre : List ℕ) (d : ℕ) (post : List ℕ) (events : List Event) {s c : ℕ}
      → Types k s c
      → length pre < 255
      → keyboard_handler shell s (typing k pre (d ∷ post) events)
        ≡ some (typing k (pre ++ c ∷ []) post (events ++ keyed c))
  typed_next k pre d post events {s} {c} t room =
      typed_key k pre d post events t room
      ∙ ap some (
          ap₂
            (λ (b : List ℕ) (n : ℕ). record k {
              key_buffer = b;
              buffer_index = n;
              events = (events ++ prints_char c ∷ []) ++ writes_port 0x20 0x20 ∷ [];
            })
            (moved pre c post) (one_further pre c)
          ∙ ap (λ (es : List Event). typing k (pre ++ c ∷ []) post es)
              (append_assoc events (prints_char c ∷ []) (writes_port 0x20 0x20 ∷ [])))

  pub strike_step :
      (s : ℕ) (ss : List ℕ) (k : Keyboard) {k' : Keyboard}
      → keyboard_handler shell s k ≡ some k'
      → strike shell (s ∷ ss) k ≡ strike shell ss k'
  unfolding strike
  strike_step s ss k e = ap (λ (o : Option Keyboard). do k' ← o; strike shell ss k') e

  pub typed_lem :
      (k : Keyboard) (pre post : List ℕ) (events : List Event) (more : List ℕ) {keys text : List ℕ}
      → TypesText k keys text
      → length pre + length text < 256
      → length pre + length post ≡ 256
      → (post' : List ℕ) × (length (pre ++ text) + length post' ≡ 256)
        × (strike shell (keys ++ more) (typing k pre post events)
            ≡ strike shell more (typing k (pre ++ text) post' (events ++ echoed text)))
  unfolding strike echoed
  typed_lem k pre post events more no_key room size = (
    post,
    omega (arith, length-append pre []),
    ap₂ (λ (l : List ℕ) (es : List Event). strike shell more (typing k l post es))
        (sym (append-nil pre)) (sym (append-nil events)),
  )
  typed_lem k pre [] events more (and_key t ts) room size = absurd (omega arith)
  typed_lem k pre (d ∷ post) events more
        (and_key {scancode = s} {c = c} {ss = ss} {text = text} t ts) room size =
      let (post', size', r) =
        typed_lem k (pre ++ c ∷ []) post (events ++ keyed c) more ts
          (omega (arith, length-append pre (c ∷ []))) (omega (arith, length-append pre (c ∷ []))) in
      (
        post',
        omega (arith, size', ap length (moved pre c text)),
        strike_step s (ss ++ more) (typing k pre (d ∷ post) events)
              (typed_next k pre d post events t (omega arith))
            ∙ r
            ∙ ap₂ (λ (l : List ℕ) (es : List Event). strike shell more (typing k l post' es))
                (sym (moved pre c text)) (append_assoc events (keyed c) (echoed text)),
      )
