-- ===== src/Session/Lines.antt =====
-- The characters of a line typed at the keyboard, interrupt by interrupt.
use first_kernel.Base.{
  ℕ, ◌+◌, ◌<◌, ◌≡◌, refl, ap, sym, ◌∙◌, List, [], ◌∷◌, ◌++◌, Option, some, length, length-append,
  append-nil, arith,
}
use first_kernel.Base.Partial.{◌>>=◌}
use first_kernel.Keyboard.{Keyboard, Event, keyboard_handler}
use first_kernel.Keyboard.Typed.{
  and_key, no_key, Types, TypesText, typing, moved, typed_next, keyed,
}
use first_kernel.Ports.{Ports}
use first_kernel.Shell.System.{Environment, System, tell}
use first_kernel.Session.{
  Machine, acknowledge, left_line, perform, perform_all, keyboard_interrupt, interrupts,
}

module _ {ports : Ports} (env : Environment) where
  -- The system after characters were typed: each is printed, and each interrupt acknowledged.
  unfoldable pub hear : List ℕ → System ports → System ports
  hear [] s = s
  hear (c ∷ text) s = hear text (acknowledge env 0x20 0x20 (tell (c ∷ []) s))

  abbrev pub at : Keyboard → System ports → Machine ports
  at k s = record { keyboard = k; system = s }

  interrupts_step :
      (scancode : ℕ) (ss : List ℕ) (m m' : Machine ports)
      → keyboard_interrupt env scancode m ≡ some m'
      → interrupts env (scancode ∷ ss) m ≡ interrupts env ss m'
  unfolding interrupts
  interrupts_step scancode ss m m' e =
      ap (λ (o : Option (Machine ports)). do m1 ← o; interrupts env ss m1) e

  -- The interrupt once the handler's result is known.
  pub interrupted :
      (scancode : ℕ) (m : Machine ports) (k : Keyboard)
      → keyboard_handler (left_line env m.system) scancode (record m.keyboard { events = [] })
        ≡ some k
      → keyboard_interrupt env scancode m
        ≡ (do s ← perform_all env k.events m.system; some (at k s))
  unfolding keyboard_interrupt
  interrupted scancode m k e =
      ap
        (λ (o : Option Keyboard). do k' ← o; s ← perform_all env k'.events m.system; some (at k' s))
        e

  typed_interrupt :
      (k : Keyboard) (pre : List ℕ) (d : ℕ) (post : List ℕ) (es : List Event) (s : System ports)
      {scancode c : ℕ}
      → Types k scancode c
      → length pre < 255
      → keyboard_interrupt env scancode (at (typing k pre (d ∷ post) es) s)
        ≡ some (
            at
              (typing k (pre ++ c ∷ []) post (keyed c))
              (acknowledge env 0x20 0x20 (tell (c ∷ []) s)))
  typed_interrupt k pre d post es s {scancode} {c} t room =
      interrupted scancode (at (typing k pre (d ∷ post) es) s)
        (typing k (pre ++ c ∷ []) post (keyed c))
        (typed_next (left_line env s) k pre d post [] t room)
      ∙ unfold perform_all perform in refl

  pub typed_interrupts :
      (k : Keyboard) (pre post : List ℕ) (es : List Event) (s : System ports) (more : List ℕ)
      {keys text : List ℕ}
      → TypesText k keys text
      → length pre + length text < 256
      → length pre + length post ≡ 256
      → (post' : List ℕ) × (es' : List Event) × (length (pre ++ text) + length post' ≡ 256)
        × (interrupts env (keys ++ more) (at (typing k pre post es) s)
            ≡ interrupts env more (at (typing k (pre ++ text) post' es') (hear text s)))
  unfolding hear
  typed_interrupts k pre post es s more no_key room size = (
    post,
    es,
    omega (arith, length-append pre []),
    ap (λ (l : List ℕ). interrupts env more (at (typing k l post es) s)) (sym (append-nil pre)),
  )
  typed_interrupts k pre [] es s more (and_key t ts) room size = absurd (omega arith)
  typed_interrupts k pre (d ∷ post) es s more
        (and_key {scancode = sc} {c = c} {ss = ss} {text = text} t ts) room size =
      let (post', es', size', r) =
        typed_interrupts k (pre ++ c ∷ []) post (keyed c)
          (acknowledge env 0x20 0x20 (tell (c ∷ []) s)) more ts
          (omega (arith, length-append pre (c ∷ []))) (omega (arith, length-append pre (c ∷ []))) in
      (
        post',
        es',
        omega (arith, size', ap length (moved pre c text)),
        interrupts_step sc (ss ++ more) _ _ (typed_interrupt k pre d post es s t (omega arith))
            ∙ r
            ∙ ap
                (λ (l : List ℕ). interrupts env more (
                  at (typing k l post' es')
                    (hear text (acknowledge env 0x20 0x20 (tell (c ∷ []) s)))))
                (sym (moved pre c text)),
      )
