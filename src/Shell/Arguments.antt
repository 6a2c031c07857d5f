-- ===== src/Shell/Arguments.antt =====
-- The arguments that the handlers of kernel/shell.c take off the line.
use first_kernel.Base.{
  arith, ◌<◌, ℕ, ◌≡◌, ◌≢◌, ap, ◌∙◌, List, [], ◌∷◌, ◌++◌, Option, none, some, length, drop,
  append_assoc,
}
use first_kernel.Base.Partial.{◌>>=◌}
use first_kernel.CString.{Tokens, strtok, next_token}
use first_kernel.CString.Words.{IsWord, Stands, drop-append, next_token-word, next_token-last}
use first_kernel.Ports.{Ports}
use first_kernel.Shell.System.{System, tell, next_arg, with_arg, text_at}

-- The text that a token's position points to.
pub drop-buffer :
    (t : Tokens) (pre post : List ℕ) → t.buffer ≡ pre ++ post → drop (length pre) t.buffer ≡ post
drop-buffer t pre post e = ap (drop (length pre)) e ∙ drop-append pre post

module _ {ports : Ports} where
  pub next_arg_step :
      (s : System ports) (delim : ℕ) (t : Tokens) (pos : Option ℕ)
      → next_token delim s.tokens ≡ some (t, pos)
      → next_arg delim s ≡ some (record s { tokens = t }, pos)
  unfolding next_arg strtok
  next_arg_step s delim t pos e =
      ap
        (λ (o : Option (Tokens × Option ℕ)). do
          (tokens, p) ← o
          some (record s { tokens = tokens }, p))
        e

  pub next_arg-word :
      (s : System ports) (pre word rest : List ℕ) (delim : ℕ)
      → delim ≢ 0
      → IsWord delim word
      → Stands s.tokens pre (word ++ delim ∷ rest)
      → (t : Tokens) × (next_arg delim s ≡ some (record s { tokens = t }, some (length pre)))
        × Stands t (pre ++ (word ++ 0 ∷ [])) rest
  next_arg-word s pre word rest delim ne w st =
      let (t, e, st') = next_token-word s.tokens pre word rest delim ne w st in
      (t, next_arg_step s delim t (some (length pre)) e, st')

  pub next_arg-last :
      (s : System ports) (pre : List ℕ) (c : ℕ) (word rest : List ℕ) (delim : ℕ)
      → IsWord delim (c ∷ word)
      → Stands s.tokens pre ((c ∷ word) ++ 0 ∷ rest)
      → (t : Tokens) × (next_arg delim s ≡ some (record s { tokens = t }, some (length pre)))
        × Stands t (pre ++ (c ∷ word)) (0 ∷ rest)
  next_arg-last s pre c word rest delim w st =
      let (t, e, st') = next_token-last s.tokens pre c word rest delim w st in
      (t, next_arg_step s delim t (some (length pre)) e, st')

  -- The last word of the line, of one character or more.
  pub next_arg_rest :
      (s : System ports) (pre word rest : List ℕ) (delim : ℕ)
      → 0 < length word
      → IsWord delim word
      → Stands s.tokens pre (word ++ 0 ∷ rest)
      → (t : Tokens) × (next_arg delim s ≡ some (record s { tokens = t }, some (length pre)))
        × Stands t (pre ++ word) (0 ∷ rest)
  next_arg_rest s pre [] rest delim p w st = absurd (omega (arith, p))
  next_arg_rest s pre (c ∷ word) rest delim p w st = next_arg-last s pre c word rest delim w st

  -- The handlers with one argument, the last of the line.
  pub with_arg-last :
      (usage : List ℕ) (f : List ℕ → System ports → Option (System ports)) (s : System ports)
      (pre : List ℕ) (c : ℕ) (word rest : List ℕ)
      → IsWord b' ' (c ∷ word)
      → Stands s.tokens pre ((c ∷ word) ++ 0 ∷ rest)
      → (t : Tokens) × (with_arg usage f s ≡ f ((c ∷ word) ++ 0 ∷ rest) (record s { tokens = t }))
  unfolding with_arg
  with_arg-last usage f s pre c word rest w st =
      let (t, e, st') = next_arg-last s pre c word rest b' ' w st in
      (
        t,
        ap
              (λ (o : Option (System ports × Option ℕ)). do
                (s', pos) ← o
                elim pos [ none ↦ some (tell usage s') | some i ↦ f (text_at i s') s' ])
              e
            ∙ ap (λ (x : List ℕ). f x (record s { tokens = t }))
                (drop-buffer t pre ((c ∷ word) ++ 0 ∷ rest)
                  (st'.array ∙ append_assoc pre (c ∷ word) (0 ∷ rest))),
      )
