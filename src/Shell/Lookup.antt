-- ===== src/Shell/Lookup.antt =====
-- `execute_command` of kernel/shell.c against the search of the first word in the table.
use first_kernel.Base.{
  length-append, append_assoc, get_elem?, zero_test_ne, ℕ, ◌+◌, ◌^◌, ◌≡◌, ◌≢◌, refl, ap, ap₂, sym,
  ◌∙◌, List, [], ◌∷◌, ◌++◌, Option, none, some, length, drop, arith, Bool, true, false, ◌&&◌, ◌==◌,
  ltb, not, if◌then◌else◌, Bool-cases, inl, inr, ◌↔◌,
}
use first_kernel.Base.Partial.{◌>>=◌}
use first_kernel.Base.Text.{codes, IsText, c_text}
use first_kernel.CString.{Tokens, strcmp, strtok}
use first_kernel.CString.Compare.{strcmp_lem}
use first_kernel.CString.Words.{standing, standing_at, IsWord, next_token-word, next_token-last}
use first_kernel.CString.Printed.{c_text_rest}
use first_kernel.Ports.{Ports}
use first_kernel.Shell.System.{Environment, System, tell}
use first_kernel.Shell.Dispatch.{Handler, Command, commands, run_handler, dispatch, execute_command}

-- The first word of a line, and what `strtok` leaves: the word is cut off at a space, or it is the
-- whole line.
pub data Cut : List ℕ → List ℕ → Tokens → Type 0 where
  spaced :
      (word rest : List ℕ)
      → Cut
          (word ++ b' ' ∷ rest)
          word
          (record { buffer = word ++ 0 ∷ rest; last_token = some (length word + 1) })
  whole :
      (c : ℕ) (word rest : List ℕ)
      → Cut
          ((c ∷ word) ++ 0 ∷ rest)
          (c ∷ word)
          (record { buffer = (c ∷ word) ++ 0 ∷ rest; last_token = some (length (c ∷ word)) })

unfoldable pub same_text : List ℕ → List ℕ → Bool
same_text [] [] = true
same_text (a ∷ s) (b ∷ t) = a == b && same_text s t
same_text _ _ = false

-- The handler of the first command with a name.
unfoldable pub lookup : List Command → List ℕ → Option Handler
lookup [] word = none
lookup (c ∷ cs) word =
    let rest = lookup cs word in if same_text word c.name then some c.handler else rest

same_text_lem : (s t : List ℕ) → (same_text s t ≡ true) ↔ (s ≡ t)
unfolding same_text
same_text_lem [] [] = ((λ e. refl), (λ e. refl))
same_text_lem [] (b ∷ t) = ((λ e. absurd (cc)), (λ e. absurd (cc)))
same_text_lem (a ∷ s) [] = ((λ e. absurd (cc)), (λ e. absurd (cc)))
same_text_lem (a ∷ s) (b ∷ t) =
    let (forth, back) = same_text_lem s t in
    (
      (λ e. ap₂ (λ (x : ℕ) (xs : List ℕ). x ∷ xs) (ground arith) (forth (ground arith))),
      (λ e. let same : a ≡ b = cc in let more = back (cc) in ground (arith, same, more)),
    )

abbrev pub all_chars : List ℕ → Bool
all_chars [] = true
all_chars (c ∷ s) = not (c == 0) && ltb c (2 ^ 8) && all_chars s

pub all_chars-IsText : (s : List ℕ) → all_chars s ≡ true → IsText s
all_chars-IsText [] h = tt
all_chars-IsText (c ∷ s) h = ((ground arith, ground arith), all_chars-IsText s (ground arith))

abbrev pub all_spaceless : List ℕ → Bool
all_spaceless [] = true
all_spaceless (c ∷ s) = not (c == 0) && not (c == b' ') && all_spaceless s

pub all_spaceless-IsWord : (s : List ℕ) → all_spaceless s ≡ true → IsWord b' ' s
all_spaceless-IsWord [] h = tt
all_spaceless-IsWord (c ∷ s) h =
    ((ground arith, ground arith), all_spaceless-IsWord s (ground arith))

all_names : List Command → Bool
all_names [] = true
all_names (c ∷ cs) = all_chars c.name && all_names cs

names : all_names commands ≡ true
unfolding all_names
names = refl

-- A line that a word and a space begin does not begin with a zero.
first_char :
    {G : Type 0} (word rest : List ℕ)
    → IsText word
    → ((c : ℕ) → get_elem? (word ++ b' ' ∷ rest) 0 ≡ some c → c ≢ 0 → G)
    → G
first_char [] rest w k = k b' ' refl (omega arith)
first_char (c ∷ word) rest w k = k c refl w.0.0

true-ne-false : true ≢ false
true-ne-false e = absurd (cc)

module _ {ports : Ports} (env : Environment) where
  -- What is done with the handler that was found, or without one.
  unfoldable pub obey : Option Handler → List ℕ → System ports → Option (System ports)
  obey (some h) word s = run_handler env h s
  obey none word s =
      some (tell (codes "\n") (tell (c_text (word ++ 0 ∷ [])) (tell (codes "unknow command: ") s)))

  dispatch-found :
      (c : Command) (cs : List Command) (command : List ℕ) (s : System ports)
      → strcmp command (c.name ++ 0 ∷ []) ≡ some 0
      → dispatch env (c ∷ cs) command s ≡ run_handler env c.handler s
  unfolding dispatch
  dispatch-found c cs command s e = rw (e) refl

  dispatch-on :
      (c : Command) (cs : List Command) (command : List ℕ) (s : System ports) (d : ℕ)
      → strcmp command (c.name ++ 0 ∷ []) ≡ some d
      → d ≢ 0
      → dispatch env (c ∷ cs) command s ≡ dispatch env cs command s
  unfolding dispatch
  dispatch-on c cs command s d e ne =
      rw (e) (zero_test_ne d (run_handler env c.handler s) (dispatch env cs command s) ne)

  dispatch_lem :
      (cs : List Command) (word rest : List ℕ) (s : System ports)
      → all_names cs ≡ true
      → IsText word
      → dispatch env cs (word ++ 0 ∷ rest) s ≡ obey (lookup cs word) word s
  unfolding dispatch lookup obey all_names
  dispatch_lem [] word rest s ok w =
      ap (λ (m : List ℕ). some (tell (codes "\n") (tell m (tell (codes "unknow command: ") s))))
        (c_text_rest word rest)
  dispatch_lem (c ∷ cs) word rest s ok w =
      let (d, r, (forth, back)) =
        strcmp_lem word c.name rest [] w (all_chars-IsText c.name (ground arith)) in
      let (same, other) = same_text_lem word c.name in
      elim (Bool-cases (same_text word c.name)) [
        | inl e ↦
            dispatch-found c cs (word ++ 0 ∷ rest) s (r ∙ ap some (back (same e)))
            ∙ ap (λ (b : Bool). obey (if b then some c.handler else lookup cs word) word s) (sym e)
        | inr e ↦
            dispatch-on c cs (word ++ 0 ∷ rest) s d r
              (λ z. true-ne-false (sym (other (forth z)) ∙ e))
            ∙ dispatch_lem cs word rest s (ground arith) w
            ∙ ap (λ (b : Bool). obey (if b then some c.handler else lookup cs word) word s) (sym e)
      ]

  -- The rest of `execute_command`, on what `strtok` returns.
  abbrev first_word : System ports → Option (Tokens × Option ℕ) → Option (System ports)
  first_word s found = do
    (tokens, pos) ← found
    elim pos [
      | none ↦ none
      | some i ↦ dispatch env commands (drop i tokens.buffer) (record s { tokens = tokens })
    ]

  execute_command-started :
      (input : List ℕ) (c i : ℕ) (t : Tokens) (s : System ports)
      → get_elem? input 0 ≡ some c
      → c ≢ 0
      → strtok (some input) b' ' s.tokens ≡ some (t, some i)
      → execute_command env input s
        ≡ dispatch env commands (drop i t.buffer) (record s { tokens = t })
  unfolding execute_command
  execute_command-started input c i t s first ne cut =
      ap
        (λ (o : Option ℕ). do
          x ← o
          elim (x == 0) [
            | true ↦ some s
            | false ↦ first_word s (strtok (some input) b' ' s.tokens)
          ])
        first
      ∙ zero_test_ne c (some s) (first_word s (strtok (some input) b' ' s.tokens)) ne
      ∙ ap (first_word s) cut

  -- For a line whose first word is bytes, `execute_command` runs the handler of the first command in
  -- the table with that name, on the tokens that stand behind the word, and without such a command it
  -- only prints a message with what `c_text` gives for the word, in which a `%d` shows as a missing
  -- argument.
  pub execute_command_lem :
      {input word : List ℕ} {t : Tokens} (s : System ports)
      → Cut input word t
      → IsText word
      → IsWord b' ' word
      → execute_command env input s ≡ obey (lookup commands word) word (record s { tokens = t })
  unfolding execute_command
  execute_command_lem s (spaced word rest) w u =
      let input = word ++ b' ' ∷ rest in
      let (t, cut, st) =
        next_token-word (standing_at [] input) [] word rest b' ' (omega arith) u
          (record { array = refl; place = refl }) in
      first_char word rest w (λ c e ne.
        execute_command-started input c 0 t s e ne (unfold strtok in cut)
        ∙ ap (λ (k : Tokens). dispatch env commands k.buffer (record s { tokens = k }))
            (standing t (word ++ 0 ∷ []) rest st
              ∙ ap₂ (λ (b : List ℕ) (n : ℕ). record { buffer = b; last_token = some n })
                  (append_assoc word (0 ∷ []) rest) (length-append word (0 ∷ [])))
        ∙ dispatch_lem commands word rest _ names w)
  execute_command_lem s (whole c word rest) w u =
      let input = (c ∷ word) ++ 0 ∷ rest in
      let (t, cut, st) =
        next_token-last (standing_at [] input) [] c word rest b' ' u
          (record { array = refl; place = refl }) in
      execute_command-started input c 0 t s refl w.0.0 (unfold strtok in cut)
      ∙ ap (λ (k : Tokens). dispatch env commands k.buffer (record s { tokens = k }))
          (standing t (c ∷ word) (0 ∷ rest) st)
      ∙ dispatch_lem commands (c ∷ word) rest _ names w
