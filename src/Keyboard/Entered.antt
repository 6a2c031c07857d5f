-- ===== src/Keyboard/Entered.antt =====
-- Enter in drivers/keyboard.c behind a line that was typed: the line is remembered and handed to the
-- shell.
use first_kernel.Base.{
  ℕ, ◌+◌, ◌≤◌, ◌<◌, ◌≡◌, refl, ap, ap₂, sym, ◌∙◌, List, [], ◌∷◌, ◌++◌, some, get_elem?-append,
  store-append, drop, length, length-append, append_assoc, arith, set,
}
use first_kernel.Base.Text.{codes}
use first_kernel.Keyboard.{
  Keyboard, Event, keyboard_handler, other_key, press, submit, remember, remember_from, decode,
  prints_char, prints, executes, writes_port,
}
use first_kernel.Keyboard.Invariant.{IsValid, KeepsLength}
use first_kernel.Keyboard.Typed.{
  strike, TypesText, echoed, typing, moved, one_further, strike_step, typed_lem,
}

-- What Enter does with a line.
abbrev pub handed : List ℕ → List ℕ → List Event
handed text rest =
    prints_char 10
    ∷ executes (text ++ 0 ∷ rest)
    ∷ prints (codes "OS> ")
    ∷ writes_port 0x20 0x20
    ∷ []

module _ (shell : List ℕ → List ℕ) where
  copied :
      (mid pre r post : List ℕ)
      → length mid ≤ length post
      → remember_from (length mid) (length pre) (pre ++ (mid ++ r)) (pre ++ post)
        ≡ some (pre ++ (mid ++ drop (length mid) post))
  unfolding remember_from
  copied [] pre r post h = refl
  copied (c ∷ mid) pre r [] h = absurd (omega arith)
  copied (c ∷ mid) pre r (d ∷ post) h =
      rw (get_elem?-append pre c (mid ++ r), store-append pre d c post)
        (ap₂ (λ (b : List ℕ) (n : ℕ). remember_from (length mid) n b (pre ++ c ∷ post))
            (moved pre c (mid ++ r)) (one_further pre c)
          ∙ ap (remember_from (length mid) (length (pre ++ c ∷ [])) ((pre ++ c ∷ []) ++ (mid ++ r)))
              (moved pre c post)
          ∙ copied mid (pre ++ c ∷ []) r post (omega arith)
          ∙ ap some (sym (moved pre c (mid ++ drop (length mid) post))))

  remembered :
      (text post last : List ℕ)
      → length text < length last
      → remember_from (length text + 1) 0 (text ++ 0 ∷ post) last
        ≡ some (text ++ 0 ∷ drop (length text + 1) last)
  remembered text post last h =
      let kept = length-append text (0 ∷ []) in
      ap₂ (λ (n : ℕ) (b : List ℕ). remember_from n 0 b last) (sym kept) (moved text 0 post)
      ∙ copied (text ++ 0 ∷ []) [] post last (omega (arith, kept))
      ∙ ap some (
          append_assoc text (0 ∷ []) (drop (length (text ++ 0 ∷ [])) last)
          ∙ ap (λ (n : ℕ). text ++ 0 ∷ drop n last) kept)

  decode_enter : (k : Keyboard) → decode k 28 ≡ some 10
  unfolding decode
  decode_enter k = ground arith

  -- Enter behind a text of one character or more.
  pub entered :
      (k : Keyboard) (c : ℕ) (text : List ℕ) (d : ℕ) (post : List ℕ) (events : List Event)
      → length (c ∷ text) < length k.last_command
      → 0 < length (shell ((c ∷ text) ++ 0 ∷ post))
      → keyboard_handler shell 28 (typing k (c ∷ text) (d ∷ post) events)
        ≡ some (record k {
          key_buffer = set (shell ((c ∷ text) ++ 0 ∷ post)) 0 0;
          buffer_index = 0;
          last_command = (c ∷ text) ++ 0 ∷ drop (length (c ∷ text) + 1) k.last_command;
          last_command_len = length (c ∷ text);
          events =
              ((((events ++ prints_char 10 ∷ []) ++ executes ((c ∷ text) ++ 0 ∷ post) ∷ [])
                  ++ prints (codes "OS> ") ∷ [])
                ++ writes_port 0x20 0x20 ∷ []);
        })
  unfolding keyboard_handler other_key press submit remember
  entered k c text d post events h n = ground (
    arith,
    decode_enter (typing k (c ∷ text) (d ∷ post) events),
    store-append (c ∷ text) d 0 post,
    remembered (c ∷ text) post k.last_command h,
  )

  -- What Enter leaves behind a line.
  abbrev pub submitted : Keyboard → List ℕ → List ℕ → Keyboard
  submitted k text rest = record k {
    key_buffer = set (shell (text ++ 0 ∷ rest)) 0 0;
    buffer_index = 0;
    last_command = text ++ 0 ∷ drop (length text + 1) k.last_command;
    last_command_len = length text;
    events = k.events ++ (echoed text ++ handed text rest);
  }

  enter_typed :
      (k : Keyboard) (c : ℕ) (text more post : List ℕ)
      → KeepsLength shell
      → IsValid k
      → length (c ∷ text) < 256
      → length (c ∷ text) + length post ≡ 256
      → (rest : List ℕ) × (length ((c ∷ text) ++ 0 ∷ rest) ≡ 256)
        × (strike shell (28 ∷ more) (typing k (c ∷ text) post (k.events ++ echoed (c ∷ text)))
            ≡ strike shell more (submitted k (c ∷ text) rest))
  enter_typed k c text more [] keeps v short size = absurd (omega arith)
  enter_typed k c text more (d ∷ rest) keeps v short size = (
    rest,
    omega (arith, length-append (c ∷ text) (0 ∷ rest)),
    strike_step shell 28 more _ (
          entered k c text d rest (k.events ++ echoed (c ∷ text)) (omega (arith, v.last))
            (omega (arith, keeps ((c ∷ text) ++ 0 ∷ rest), length-append (c ∷ text) (0 ∷ rest))))
        ∙ ap
            (λ (es : List Event).
              strike shell more (record (submitted k (c ∷ text) rest) { events = es }))
            (simp append_assoc refl),
  )

  pub line_entered :
      (k : Keyboard) (c : ℕ) (text more : List ℕ) {keys : List ℕ}
      → KeepsLength shell
      → IsValid k
      → k.buffer_index ≡ 0
      → length (c ∷ text) < 256
      → TypesText k keys (c ∷ text)
      → (rest : List ℕ) × (length ((c ∷ text) ++ 0 ∷ rest) ≡ 256)
        × (strike shell (keys ++ 28 ∷ more) k ≡ strike shell more (submitted k (c ∷ text) rest))
  line_entered k c text more {keys} keeps v start short types =
      let (post, size, r) =
        typed_lem shell k [] k.key_buffer k.events (28 ∷ more) types (omega arith)
          (omega (arith, v.buffer)) in
      let (rest, full, e) = enter_typed k c text more post keeps v short size in
      (
        rest,
        full,
        ap (λ (n : ℕ). strike shell (keys ++ 28 ∷ more) (record k { buffer_index = n })) start
            ∙ r
            ∙ e,
      )
