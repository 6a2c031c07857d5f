-- ===== src/Keyboard/Recalled.antt =====
-- The up arrow of drivers/keyboard.c behind a line that was entered.
use first_kernel.Base.{
  take-append, length-set, length-drop, ℕ, ◌+◌, ◌≤◌, ◌<◌, ◌≡◌, refl, ap, ap₂, sym, ◌∙◌, List, [],
  ◌∷◌, ◌++◌, some, get_elem?-append, store-append, drop, length, arith, set, store,
}
use first_kernel.Keyboard.{
  Keyboard, Event, emit, keyboard_handler, recall, retype_from, erase, prints_char, writes_port,
}
use first_kernel.Keyboard.Invariant.{IsValid, KeepsLength}
use first_kernel.Keyboard.Typed.{strike, TypesText, moved, one_further, strike_step}
use first_kernel.Keyboard.Editing.{line}
use first_kernel.Keyboard.Entered.{line_entered}

module _ (shell : List ℕ → List ℕ) where
  retyped :
      (k : Keyboard) (mid pre r post : List ℕ) (events : List Event)
      → length mid ≤ length post
      → (es : List Event) × (retype_from (length mid) (length pre) (record k {
        last_command = pre ++ (mid ++ r);
        key_buffer = pre ++ post;
        events = events;
      })
          ≡ some (record k {
            last_command = pre ++ (mid ++ r);
            key_buffer = pre ++ (mid ++ drop (length mid) post);
            events = es;
          }))
  unfolding retype_from
  retyped k [] pre r post events h = (events, refl)
  retyped k (c ∷ mid) pre r [] events h = absurd (omega arith)
  retyped k (c ∷ mid) pre r (d ∷ post) events h =
      let (es, q) =
        retyped k mid (pre ++ c ∷ []) r post (events ++ prints_char c ∷ []) (omega arith) in
      (
        es,
        rw (get_elem?-append pre c (mid ++ r), store-append pre d c post)
            (ap₂
                (λ (l : List ℕ) (n : ℕ). retype_from (length mid) n (record k {
                  last_command = l;
                  key_buffer = pre ++ c ∷ post;
                  events = events ++ prints_char c ∷ [];
                }))
                (moved pre c (mid ++ r)) (one_further pre c)
              ∙ ap
                  (λ (b : List ℕ). retype_from (length mid) (length (pre ++ c ∷ [])) (record k {
                    last_command = (pre ++ c ∷ []) ++ (mid ++ r);
                    key_buffer = b;
                    events = events ++ prints_char c ∷ [];
                  }))
                  (moved pre c post)
              ∙ q
              ∙ ap₂
                  (λ (l b : List ℕ).
                    some (record k { last_command = l; key_buffer = b; events = es }))
                  (sym (moved pre c (mid ++ r)))
                  (sym (moved pre c (mid ++ drop (length mid) post)))),
      )

  stored_behind :
      (text xs : List ℕ)
      → 0 < length xs
      → (ys : List ℕ) × (store (text ++ xs) (length text) 0 ≡ some (text ++ ys))
  stored_behind text [] h = absurd (omega arith)
  stored_behind text (x ∷ xs) h = (0 ∷ xs, store-append text x 0 xs)

  up_arrow :
      (k : Keyboard) (c : ℕ) (text rest buffer : List ℕ) (events : List Event)
      → length (c ∷ text) < length buffer
      → (k' : Keyboard) × (keyboard_handler shell 0x48 (record k {
        key_buffer = buffer;
        buffer_index = 0;
        last_command = (c ∷ text) ++ rest;
        last_command_len = length (c ∷ text);
        events = events;
      })
          ≡ some k')
        × (line k' ≡ c ∷ text)
  unfolding keyboard_handler recall erase
  up_arrow k c text rest buffer events h =
      let (es, e) =
        retyped (record k { buffer_index = 0; last_command_len = length (c ∷ text) }) (c ∷ text) []
          rest buffer events (omega arith) in
      let (ys, stored) =
        stored_behind (c ∷ text) (drop (length (c ∷ text)) buffer)
          (omega (arith, length-drop (length (c ∷ text)) buffer)) in
      (
        emit (writes_port 0x20 0x20) (record k {
          key_buffer = (c ∷ text) ++ ys;
          buffer_index = length (c ∷ text);
          last_command = (c ∷ text) ++ rest;
          last_command_len = length (c ∷ text);
          events = es;
        }),
        ground (arith, e, stored),
        take-append (c ∷ text) ys (length (c ∷ text)) refl,
      )

  -- From a valid state with an empty line, the keys that type a text of 1 to 255 characters, then Enter and
  -- the up arrow, fault nowhere and leave that text on the line, for any shell that keeps the length of
  -- its line, whatever it leaves there.
  pub strike-recalls :
      (k : Keyboard) (c : ℕ) (text : List ℕ) {keys : List ℕ}
      → KeepsLength shell
      → IsValid k
      → k.buffer_index ≡ 0
      → length (c ∷ text) < 256
      → TypesText k keys (c ∷ text)
      → (k' : Keyboard) × (strike shell (keys ++ 28 ∷ 0x48 ∷ []) k ≡ some k') × (line k' ≡ c ∷ text)
  unfolding strike
  strike-recalls k c text keeps v start short types =
      let (rest, full, e) = line_entered shell k c text (0x48 ∷ []) keeps v start short types in
      let buffer = set (shell ((c ∷ text) ++ 0 ∷ rest)) 0 0 in
      let (k', r, shown) =
        up_arrow k c text (0 ∷ drop (length (c ∷ text) + 1) k.last_command) buffer _ (
          omega (
            arith,
            short,
            full,
            keeps ((c ∷ text) ++ 0 ∷ rest),
            length-set (shell ((c ∷ text) ++ 0 ∷ rest)) 0 0,
          )) in
      (k', e ∙ strike_step shell 0x48 [] _ r, shown)
