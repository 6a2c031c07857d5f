-- ===== src/Session/Entered.antt =====
-- Enter at the keyboard: the line becomes a command.
use first_kernel.Base.{
  length-drop, length-set, ℕ, ◌+◌, ◌<◌, ◌≡◌, refl, ap, ◌∙◌, List, [], ◌∷◌, ◌++◌, Option, none, some,
  length, length-append, set, drop, arith,
}
use first_kernel.Base.Partial.{◌>>=◌}
use first_kernel.Base.Text.{codes}
use first_kernel.Keyboard.{writes_port, prints, executes, prints_char, Keyboard, Event}
use first_kernel.Keyboard.Invariant.{IsValid}
use first_kernel.Keyboard.Editing.{line}
use first_kernel.Keyboard.Typed.{TypesText, typing}
use first_kernel.Keyboard.Entered.{entered}
use first_kernel.Ports.{Ports}
use first_kernel.Shell.System.{Environment, System, tell}
use first_kernel.Shell.Dispatch.{execute_command}
use first_kernel.Session.{
  Machine, holding, acknowledge, left_line, perform, perform_all, keyboard_interrupt, interrupts,
}
use first_kernel.Session.Interrupt.{left_line-KeepsLength}
use first_kernel.Session.Lines.{hear, at, interrupted, typed_interrupts}

module _ {ports : Ports} (env : Environment) where
  -- The system once the line is entered, when the shell is called.
  abbrev pub called : List ℕ → List ℕ → System ports → System ports
  called text buffer s = holding env buffer (tell (10 ∷ []) (hear env text s))

  -- The keyboard behind it.
  abbrev ended : Keyboard → List ℕ → List ℕ → System ports → Keyboard
  ended k text rest s = record k {
    key_buffer = set (left_line env s (text ++ 0 ∷ rest)) 0 0;
    buffer_index = 0;
    last_command = text ++ 0 ∷ drop (length text + 1) k.last_command;
    last_command_len = length text;
    events =
        prints_char 10
        ∷ executes (text ++ 0 ∷ rest)
        ∷ prints (codes "OS> ")
        ∷ writes_port 0x20 0x20
        ∷ [];
  }

  ended-IsValid :
      (k : Keyboard) (text rest : List ℕ) (s : System ports)
      → IsValid k
      → length (text ++ 0 ∷ rest) ≡ 256
      → IsValid (ended k text rest s)
  ended-IsValid k text rest s v full = record {
    buffer =
        length-set (left_line env s (text ++ 0 ∷ rest)) 0 0
        ∙ left_line-KeepsLength env s (text ++ 0 ∷ rest)
        ∙ full;
    index = omega arith;
    last = omega (
      arith,
      length-append text (0 ∷ drop (length text + 1) k.last_command),
      length-append text (0 ∷ rest),
      full,
      v.last,
      length-drop (length text + 1) k.last_command,
    );
    last_len = omega (arith, length-append text (0 ∷ rest), full);
  }

  -- The prompt behind a command.
  prompted :
      (k : Keyboard) (o : Option (System ports))
      → (do
        s ← (do s' ← o; perform_all env (prints (codes "OS> ") ∷ writes_port 0x20 0x20 ∷ []) s')
        some (at env k s))
        ≡ (do s' ← o; some (at env k (acknowledge env 0x20 0x20 (tell (codes "OS> ") s'))))
  unfolding perform_all perform
  prompted k none = refl
  prompted k (some s) = refl

  enter_interrupt :
      (k : Keyboard) (c : ℕ) (text : List ℕ) (d : ℕ) (rest : List ℕ) (es : List Event)
      (s : System ports)
      → IsValid k
      → length ((c ∷ text) ++ 0 ∷ rest) ≡ 256
      → keyboard_interrupt env 28 (at env (typing k (c ∷ text) (d ∷ rest) es) s) ≡ (do
        s' ←
            execute_command env
              ((c ∷ text) ++ 0 ∷ rest)
              (holding env ((c ∷ text) ++ 0 ∷ rest) (tell (10 ∷ []) s))
        some (
            at env
              (ended k (c ∷ text) rest s)
              (acknowledge env 0x20 0x20 (tell (codes "OS> ") s'))))
  enter_interrupt k c text d rest es s v full =
      interrupted env 28 (at env (typing k (c ∷ text) (d ∷ rest) es) s) (ended k (c ∷ text) rest s)
        (entered (left_line env s) k c text d rest []
          (omega (arith, v.last, full, length-append (c ∷ text) (0 ∷ rest)))
          (omega (arith, left_line-KeepsLength env s ((c ∷ text) ++ 0 ∷ rest), full)))
      ∙ unfold perform_all perform in
        prompted (ended k (c ∷ text) rest s) (
          execute_command env ((c ∷ text) ++ 0 ∷ rest)
            (holding env ((c ∷ text) ++ 0 ∷ rest) (tell (10 ∷ []) s)))

  once : (o : Option (Machine ports)) → (do m ← o; some m) ≡ o
  once none = refl
  once (some m) = refl

  enter_interrupts :
      (k : Keyboard) (c : ℕ) (text post : List ℕ) (es : List Event) (s : System ports)
      → IsValid k
      → length (c ∷ text) < 256
      → length (c ∷ text) + length post ≡ 256
      → (rest : List ℕ) × (length ((c ∷ text) ++ 0 ∷ rest) ≡ 256)
        × (interrupts env (28 ∷ []) (at env (typing k (c ∷ text) post es) s) ≡ (do
          s' ←
              execute_command env
                ((c ∷ text) ++ 0 ∷ rest)
                (holding env ((c ∷ text) ++ 0 ∷ rest) (tell (10 ∷ []) s))
          some (
              at env
                (ended k (c ∷ text) rest s)
                (acknowledge env 0x20 0x20 (tell (codes "OS> ") s')))))
  unfolding interrupts
  enter_interrupts k c text [] es s v short size = absurd (omega arith)
  enter_interrupts k c text (d ∷ rest) es s v short size =
      let full : length ((c ∷ text) ++ 0 ∷ rest) ≡ 256 =
        omega (arith, length-append (c ∷ text) (0 ∷ rest)) in
      (rest, full, once _ ∙ enter_interrupt k c text d rest es s v full)

  pub interrupts-execute_command :
      (m : Machine ports) (c : ℕ) (text : List ℕ) {keys : List ℕ}
      → IsValid m.keyboard
      → m.keyboard.buffer_index ≡ 0
      → length (c ∷ text) < 256
      → TypesText m.keyboard keys (c ∷ text)
      → (k : Keyboard) × (rest : List ℕ) × IsValid k
        × (line k ≡ [])
        × (length ((c ∷ text) ++ 0 ∷ rest) ≡ 256)
        × (interrupts env (keys ++ 28 ∷ []) m ≡ (do
          s ←
              execute_command env
                ((c ∷ text) ++ 0 ∷ rest)
                (called (c ∷ text) ((c ∷ text) ++ 0 ∷ rest) m.system)
          some (at env k (acknowledge env 0x20 0x20 (tell (codes "OS> ") s)))))
  interrupts-execute_command m c text {keys} v start short types =
      let k = m.keyboard in
      let s = hear env (c ∷ text) m.system in
      let (post, es, size, r) =
        typed_interrupts env k [] k.key_buffer k.events m.system (28 ∷ []) types (omega arith)
          (omega (arith, v.buffer)) in
      let (rest, full, e) = enter_interrupts k c text post es s v short size in
      (
        ended k (c ∷ text) rest s,
        rest,
        ended-IsValid k (c ∷ text) rest s v full,
        refl,
        full,
        ap
              (λ (n : ℕ).
                interrupts env (keys ++ 28 ∷ []) (at env (record k { buffer_index = n }) m.system))
              start
            ∙ r
            ∙ e,
      )
