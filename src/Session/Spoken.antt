-- ===== src/Session/Spoken.antt =====
-- `echo` from the keyboard to the console.
use first_kernel.Base.{
  ℕ, ◌<◌, ◌≡◌, refl, ap, sym, ◌∙◌, List, [], ◌∷◌, ◌++◌, Option, some, All, length, append_assoc,
  append-nil,
}
use first_kernel.Base.Partial.{◌>>=◌}
use first_kernel.Base.Text.{codes, Console}
use first_kernel.Fat16.Volume.{Volume, say}
use first_kernel.Fat16.Listed.{says, says-says}
use first_kernel.Keyboard.Invariant.{IsValid}
use first_kernel.Keyboard.Editing.{line}
use first_kernel.Keyboard.Typed.{TypesText}
use first_kernel.Ports.{Ports}
use first_kernel.Shell.System.{Environment, System, tell}
use first_kernel.Shell.Dispatch.{execute_command}
use first_kernel.Shell.Echo.{IsSpoken, joined, spoken, echo-spoken}
use first_kernel.Session.{Machine, acknowledge, interrupts}
use first_kernel.Session.Lines.{hear, at}
use first_kernel.Session.Entered.{called, interrupts-execute_command}

-- Words with a space between each two.
unfoldable pub spaced_words : List ℕ → List (List ℕ) → List ℕ
spaced_words word [] = word
spaced_words word (w ∷ ws) = word ++ b' ' ∷ spaced_words w ws

joined-spaced_words :
    (word : List ℕ) (ws : List (List ℕ)) (rest : List ℕ)
    → spaced_words word ws ++ 0 ∷ rest ≡ joined word ws rest
unfolding spaced_words joined
joined-spaced_words word [] rest = refl
joined-spaced_words word (w ∷ ws) rest =
    append_assoc word (b' ' ∷ spaced_words w ws) (0 ∷ rest)
    ∙ ap (λ (l : List ℕ). word ++ b' ' ∷ l) (joined-spaced_words w ws rest)

-- Each character as a message of its own.
unfoldable pub one_by_one : List ℕ → Console
one_by_one [] = []
one_by_one (c ∷ text) = (c ∷ []) ∷ one_by_one text

-- What is printed before, by and behind a command.
console_of :
    (heard told : Console) (v : Volume)
    → say (codes "OS> ") (says told (say (codes "\n") (says heard v)))
      ≡ says (heard ++ (codes "\n" ∷ (told ++ codes "OS> " ∷ []))) v
unfolding says
console_of heard told v = ap (λ (c : Console). record v { console = c }) (simp append_assoc refl)

module _ {ports : Ports} (env : Environment) where
  hear-one_by_one :
      (text : List ℕ) (s : System ports)
      → (hear env text s).volume ≡ says (one_by_one text) s.volume
  unfolding hear one_by_one says
  hear-one_by_one [] s =
      ap (λ (c : Console). record s.volume { console = c }) (sym (append-nil s.volume.console))
  hear-one_by_one (c ∷ text) s =
      hear-one_by_one text (acknowledge env 0x20 0x20 (tell (c ∷ []) s))
      ∙ says-says ((c ∷ []) ∷ []) (one_by_one text) s.volume

  -- With the keyboard valid and its line empty, the keys that type `echo` and words without `%d`,
  -- in a line of at most 255 characters, and then Enter fault nowhere: the characters are printed,
  -- the end of the line, each word with a space behind it, the end of the line and the prompt, and
  -- the keyboard is ready for the next line.
  pub interrupts-spoken :
      (m : Machine ports) (word : List ℕ) (ws : List (List ℕ)) {keys : List ℕ}
      → IsValid m.keyboard
      → m.keyboard.buffer_index ≡ 0
      → IsSpoken word
      → All IsSpoken ws
      → length (codes "echo " ++ spaced_words word ws) < 256
      → TypesText m.keyboard keys (codes "echo " ++ spaced_words word ws)
      → (m' : Machine ports) × (interrupts env (keys ++ 28 ∷ []) m ≡ some m')
        × IsValid m'.keyboard
        × (line m'.keyboard ≡ [])
        × (m'.system.volume
            ≡ says
                (one_by_one (codes "echo " ++ spaced_words word ws)
                  ++ (codes "\n" ∷ (spoken (word ∷ ws) ++ codes "OS> " ∷ [])))
                m.system.volume)
  interrupts-spoken m word ws {keys} v start w all short types =
      let text = codes "cho " ++ spaced_words word ws in
      let (k, rest, k_valid, empty, full, r) =
        interrupts-execute_command env m b'e' text v start short types in
      let s : System ports = called env (b'e' ∷ text) ((b'e' ∷ text) ++ 0 ∷ rest) m.system in
      let (t, e) = echo-spoken env word ws rest s w all in
      let after : System ports = record s {
        tokens = t;
        volume = says (spoken (word ∷ ws)) s.volume;
      } in
      (
        at env k (acknowledge env 0x20 0x20 (tell (codes "OS> ") after)),
        r
            ∙ ap
                (λ (o : Option (System ports)). do
                  s' ← o
                  some (at env k (acknowledge env 0x20 0x20 (tell (codes "OS> ") s'))))
                (ap (λ (l : List ℕ). execute_command env (codes "echo" ++ b' ' ∷ l) s)
                    (joined-spaced_words word ws rest)
                  ∙ e),
        k_valid,
        empty,
        ap (λ (v : Volume). say (codes "OS> ") (says (spoken (word ∷ ws)) (say (10 ∷ []) v)))
              (hear-one_by_one (b'e' ∷ text) m.system)
            ∙ console_of (one_by_one (b'e' ∷ text)) (spoken (word ∷ ws)) m.system.volume,
      )
