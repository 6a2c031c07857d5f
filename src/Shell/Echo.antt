-- ===== src/Shell/Echo.antt =====
-- `cmd_echo` of kernel/shell.c on the words of a line.
use first_kernel.Base.{
  ℕ, zero, suc, ◌+◌, ◌<◌, ◌≤◌, ◌≡◌, refl, ap, ◌∙◌, List, [], ◌∷◌, ◌++◌, Option, none, some, All,
  length, arith, append_assoc, length-append, drop,
}
use first_kernel.Base.Partial.{◌>>=◌}
use first_kernel.Base.Text.{IsPlain, codes, c_text, IsText, Console}
use first_kernel.CString.{Tokens}
use first_kernel.CString.Printed.{c_text_terminated}
use first_kernel.CString.Words.{IsWord, Stands, next_token-end}
use first_kernel.Fat16.Volume.{Volume}
use first_kernel.Fat16.Listed.{says-says, says}
use first_kernel.Ports.{Ports}
use first_kernel.Shell.System.{Environment, System, tell, tell_text, next_arg, text_at}
use first_kernel.Shell.Arguments.{next_arg-word, next_arg-last, next_arg_step, drop-buffer}
use first_kernel.Shell.Commands.{echo_from, cmd_echo}
use first_kernel.Shell.Dispatch.{Handler, commands, echo, run_handler, execute_command}
use first_kernel.Shell.Lookup.{
  spaced, lookup, same_text, obey, execute_command_lem, all_chars-IsText, all_spaceless-IsWord,
}

-- Words with a space between each two, a terminator, and what lies behind it.
unfoldable pub joined : List ℕ → List (List ℕ) → List ℕ → List ℕ
joined word [] rest = word ++ 0 ∷ rest
joined word (w ∷ ws) rest = word ++ b' ' ∷ joined w ws rest

-- What is printed of them.
unfoldable pub spoken : List (List ℕ) → Console
spoken [] = codes "\n" ∷ []
spoken (w ∷ ws) = w ∷ codes " " ∷ spoken ws

-- A word, which has a character or more, but no `%d`.
abbrev pub IsSpoken : List ℕ → Type 0
IsSpoken word = IsText word × IsWord b' ' word × (0 < length word) × IsPlain word

length-joined :
    (word : List ℕ) (ws : List (List ℕ)) (rest : List ℕ)
    → length ws + 1 ≤ length (joined word ws rest)
unfolding joined
length-joined word [] rest = omega (arith, length-append word (0 ∷ rest))
length-joined word (w ∷ ws) rest =
    omega (arith, length-append word (b' ' ∷ joined w ws rest), length-joined w ws rest)

echo_found : lookup commands (codes "echo") ≡ some echo
unfolding lookup same_text
echo_found = refl

module _ {ports : Ports} (env : Environment) where
  -- The system with messages printed and the search in the line further on.
  abbrev said : Console → Tokens → System ports → System ports
  said messages t s = record s { tokens = t; volume = says messages s.volume }

  -- One round of the loop, on what `strtok` returns.
  abbrev go : ℕ → Option (System ports × Option ℕ) → Option (System ports)
  go fuel found = do
    (s', pos) ← found
    elim pos [
      | none ↦ some (tell (codes "\n") s')
      | some i ↦ echo_from env fuel (tell (codes " ") (tell_text (text_at i s') s'))
    ]

  said-said :
      (ms ns : Console) (t t' : Tokens) (s : System ports)
      → said ns t' (said ms t s) ≡ said (ms ++ ns) t' s
  said-said ms ns t t' s =
      ap (λ (v : Volume). record s { tokens = t'; volume = v }) (says-says ms ns s.volume)

  -- The two cases of the loop.
  echo_word :
      (fuel i : ℕ) (word : List ℕ) (t : Tokens) (s : System ports)
      → next_arg b' ' s ≡ some (record s { tokens = t }, some i)
      → c_text (drop i t.buffer) ≡ word
      → echo_from env (suc fuel) s ≡ echo_from env fuel (said (word ∷ codes " " ∷ []) t s)
  unfolding echo_from says
  echo_word fuel i word t s e shown =
      ap (go fuel) e
      ∙ ap
          (λ (m : List ℕ). echo_from env fuel (tell (codes " ") (tell m (record s { tokens = t }))))
          shown
      ∙ ap
          (λ (c : Console).
            echo_from env fuel (record s { tokens = t; volume = record s.volume { console = c } }))
          (append_assoc s.volume.console (word ∷ []) (codes " " ∷ []))

  echo_done :
      (fuel : ℕ) (t : Tokens) (s : System ports)
      → next_arg b' ' s ≡ some (record s { tokens = t }, none)
      → echo_from env (suc fuel) s ≡ some (said (codes "\n" ∷ []) t s)
  unfolding echo_from says
  echo_done fuel t s e = ap (go fuel) e

  echo_lem :
      (fuel : ℕ) (word : List ℕ) (ws : List (List ℕ)) (rest : List ℕ) (s : System ports)
      (pre : List ℕ)
      → length ws + 1 < fuel
      → IsSpoken word
      → All IsSpoken ws
      → Stands s.tokens pre (joined word ws rest)
      → (t : Tokens) × (echo_from env fuel s ≡ some (said (spoken (word ∷ ws)) t s))
  unfolding joined spoken
  echo_lem zero word ws rest s pre f w all st = absurd (omega arith)
  echo_lem (suc zero) word ws rest s pre f w all st = absurd (omega arith)
  echo_lem (suc (suc fuel)) [] ws rest s pre f w all st = absurd (omega (arith, w.2))
  echo_lem (suc (suc fuel)) (c ∷ word) [] rest s pre f w all st =
      let (t, e, st') = next_arg-last s pre c word rest b' ' w.1 st in
      let spoke = said ((c ∷ word) ∷ codes " " ∷ []) t s in
      (
        t,
        echo_word (suc fuel) (length pre) (c ∷ word) t s e (
              ap c_text (
                drop-buffer t pre ((c ∷ word) ++ 0 ∷ rest)
                  (st'.array ∙ append_assoc pre (c ∷ word) (0 ∷ rest)))
              ∙ c_text_terminated (c ∷ word) rest w.0 w.3)
            ∙ echo_done fuel t spoke (
                next_arg_step spoke b' ' t none
                  (next_token-end t (pre ++ (c ∷ word)) rest b' ' st'))
            ∙ ap some (said-said ((c ∷ word) ∷ codes " " ∷ []) (codes "\n" ∷ []) t t s),
      )
  echo_lem (suc (suc fuel)) (c ∷ word) (w' ∷ ws) rest s pre f w all st =
      let (t, e, st') =
        next_arg-word s pre (c ∷ word) (joined w' ws rest) b' ' (omega arith) w.1 st in
      let spoke = said ((c ∷ word) ∷ codes " " ∷ []) t s in
      let (t', r) =
        echo_lem (suc fuel) w' ws rest spoke (pre ++ ((c ∷ word) ++ 0 ∷ [])) (omega arith) all.0
          all.1 st' in
      (
        t',
        echo_word (suc fuel) (length pre) (c ∷ word) t s e (
              ap c_text (
                drop-buffer t pre ((c ∷ word) ++ 0 ∷ joined w' ws rest)
                  (st'.array ∙ simp append_assoc refl))
              ∙ c_text_terminated (c ∷ word) (joined w' ws rest) w.0 w.3)
            ∙ r
            ∙ ap some (said-said ((c ∷ word) ∷ codes " " ∷ []) (spoken (w' ∷ ws)) t t' s),
      )

  -- The line `echo` with any number of words, one or more, none with `%d`, and anything behind its
  -- terminator faults
  -- nowhere: the loop ends, and it prints each word and a space behind it, and then the end of the line;
  -- nothing else changes but the line.
  pub echo-spoken :
      (word : List ℕ) (ws : List (List ℕ)) (rest : List ℕ) (s : System ports)
      → IsSpoken word
      → All IsSpoken ws
      → (t : Tokens) × (execute_command env (codes "echo" ++ b' ' ∷ joined word ws rest) s
          ≡ some (record s { tokens = t; volume = says (spoken (word ∷ ws)) s.volume }))
  unfolding obey run_handler cmd_echo
  echo-spoken word ws rest s w all =
      let buffer = codes "echo" ++ 0 ∷ joined word ws rest in
      let started : System ports = record s {
        tokens = record { buffer = buffer; last_token = some 5 };
      } in
      let (t, r) =
        echo_lem (suc (length buffer)) word ws rest started (codes "echo" ++ 0 ∷ [])
          (omega (arith, length-joined word ws rest)) w all
          (record { array = refl; place = refl }) in
      (
        t,
        execute_command_lem env s (spaced (codes "echo") (joined word ws rest))
              (all_chars-IsText (codes "echo") refl) (all_spaceless-IsWord (codes "echo") refl)
            ∙ ap (λ (h : Option Handler). obey env h (codes "echo") started) echo_found
            ∙ r,
      )
