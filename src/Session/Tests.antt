-- ===== src/Session/Tests.antt =====
-- Lines typed at a keyboard in front of a system with a blank disk.
use first_kernel.Base.{ℕ, ◌≡◌, refl, List, [], ◌∷◌, ◌++◌, some, arith}
use first_kernel.Base.Partial.{◌>>=◌}
use first_kernel.Base.Text.{codes, is_plain-IsPlain}
use first_kernel.Fat16.Listed.{says}
use first_kernel.Keyboard.{Keyboard, decode}
use first_kernel.Keyboard.Invariant.{IsValid}
use first_kernel.Keyboard.Editing.{line}
use first_kernel.Keyboard.Examples.{idle, idle-IsValid, struck_key}
use first_kernel.Keyboard.Typed.{TypesText, no_key, and_key}
use first_kernel.Shell.Echo.{spoken}
use first_kernel.Shell.Lookup.{all_chars-IsText, all_spaceless-IsWord}
use first_kernel.Shell.Examples.{bare_ports, environment, blank_system}
use first_kernel.Session.{Machine, interrupts}
use first_kernel.Session.Spoken.{spaced_words, one_by_one, interrupts-spoken}

abbrev started : Machine bare_ports
started = record { keyboard = idle; system = blank_system }

abbrev keys : List ℕ
keys = 18 ∷ 46 ∷ 35 ∷ 24 ∷ 57 ∷ 30 ∷ []

echo_keys : TypesText idle keys (codes "echo a")
echo_keys = and_key (struck_key idle 18 b'e' (unfold decode in refl) refl) (
    and_key (struck_key idle 46 b'c' (unfold decode in refl) refl) (
      and_key (struck_key idle 35 b'h' (unfold decode in refl) refl) (
        and_key (struck_key idle 24 b'o' (unfold decode in refl) refl) (
          and_key (struck_key idle 57 b' ' (unfold decode in refl) refl)
            (and_key (struck_key idle 30 b'a' (unfold decode in refl) refl) no_key)))))

interrupts-spoken_example :
    (m : Machine bare_ports) × (interrupts environment (keys ++ 28 ∷ []) started ≡ some m)
    × IsValid m.keyboard
    × (line m.keyboard ≡ [])
    × (m.system.volume
        ≡ says
            (one_by_one (codes "echo a")
              ++ (codes "\n" ∷ (spoken (codes "a" ∷ []) ++ codes "OS> " ∷ [])))
            blank_system.volume)
unfolding spaced_words
interrupts-spoken_example =
    interrupts-spoken environment started (codes "a") [] idle-IsValid refl
      (
        all_chars-IsText (codes "a") refl,
        all_spaceless-IsWord (codes "a") refl,
        omega arith,
        is_plain-IsPlain (codes "a") refl,
      )
      tt (omega arith) echo_keys
