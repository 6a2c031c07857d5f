-- ===== src/Shell/WriteCat.antt =====
-- A session of kernel/shell.c: a file is written by one line and shown by the next.
use first_kernel.Base.{
  ℕ, suc, ◌<◌, ◌≤◌, ◌≡◌, refl, ap, ◌∙◌, List, [], ◌∷◌, ◌++◌, Option, none, some, All, length,
  get_or, take, arith, append_assoc,
}
use first_kernel.Base.Partial.{◌>>=◌}
use first_kernel.Base.Text.{codes, IsText, IsPlain}
use first_kernel.CString.{Tokens}
use first_kernel.CString.Words.{Stands}
use first_kernel.Fat16.Volume.{Volume, say}
use first_kernel.Fat16.Table.{fat}
use first_kernel.Fat16.Placement.{IsReady}
use first_kernel.Fat16.Stored.{here}
use first_kernel.Fat16.Search.{NoneFree}
use first_kernel.Fat16.Directory.{find_entry}
use first_kernel.Fat16.Files.{write_file, cat_file}
use first_kernel.Fat16.Padded.{stretched, pad_name-stretched}
use first_kernel.Fat16.ReadBack.{write_file-cat_file}
use first_kernel.Ports.{Ports}
use first_kernel.Shell.System.{Environment, System, on_volume}
use first_kernel.Shell.Arguments.{next_arg-word, next_arg-last, with_arg-last, drop-buffer}
use first_kernel.Shell.Commands.{all_given, save_text, cmd_write, cmd_cat}
use first_kernel.Shell.Dispatch.{Handler, commands, write, cat, execute_command, run_handler}
use first_kernel.Shell.Lookup.{
  all_spaceless-IsWord, all_chars-IsText, spaced, lookup, same_text, obey, execute_command_lem,
}
use first_kernel.Shell.StoredName.{
  IsNameChar, name-IsText, name-IsWord, text-IsWord, stored_name, stored_text, stored-IsText,
  stored-IsPlain, length-stored, stored-IsByte, stored-Agree, fat_name_lem,
}

module _ {ports : Ports} (env : Environment) (name ext : List ℕ) (named : All IsNameChar name)
    (extended : All IsNameChar ext) where
  save_text_lem :
      (s : System ports) (p q r text rest : List ℕ)
      → s.tokens.buffer ≡ p ++ (name ++ 0 ∷ q)
      → s.tokens.buffer ≡ p ++ (name ++ 0 ∷ []) ++ (ext ++ 0 ∷ r)
      → s.tokens.buffer ≡ p ++ (name ++ 0 ∷ []) ++ (ext ++ 0 ∷ []) ++ (text ++ 0 ∷ rest)
      → save_text env
          (
            length p,
            length (p ++ (name ++ 0 ∷ [])),
            length (p ++ (name ++ 0 ∷ []) ++ (ext ++ 0 ∷ [])),
          )
          s
        ≡ on_volume (write_file (stored_name name ext) (text ++ 0 ∷ rest)) s
  unfolding save_text
  save_text_lem s p q r text rest e1 e2 e3 =
      rw
        (
          drop-buffer s.tokens p (name ++ 0 ∷ q) e1,
          drop-buffer s.tokens (p ++ (name ++ 0 ∷ [])) (ext ++ 0 ∷ r) e2,
          drop-buffer s.tokens (p ++ (name ++ 0 ∷ []) ++ (ext ++ 0 ∷ [])) (text ++ 0 ∷ rest) e3,
        )
        (ap
          (λ (o : Option (List ℕ)). do
            filename ← o
            on_volume (write_file filename (text ++ 0 ∷ rest)) s)
          (fat_name_lem name ext q r (name-IsText name named) (name-IsText ext extended)))

  -- `write` with its three arguments.
  cmd_write_lem :
      (s : System ports) (pre : List ℕ) (c : ℕ) (text rest : List ℕ)
      → IsText (c ∷ text)
      → Stands s.tokens pre (name ++ b' ' ∷ (ext ++ b' ' ∷ ((c ∷ text) ++ 0 ∷ rest)))
      → (t : Tokens) × (cmd_write env s
          ≡ on_volume
              (write_file (stored_name name ext) ((c ∷ text) ++ 0 ∷ rest))
              (record s { tokens = t }))
  unfolding cmd_write
  cmd_write_lem s pre c text rest chars st =
      let (t1, e1, st1) =
        next_arg-word s pre name (ext ++ b' ' ∷ ((c ∷ text) ++ 0 ∷ rest)) b' ' (omega arith)
          (name-IsWord name named) st in
      let (t2, e2, st2) =
        next_arg-word (record s { tokens = t1 }) (pre ++ (name ++ 0 ∷ [])) ext
          ((c ∷ text) ++ 0 ∷ rest) b' ' (omega arith) (name-IsWord ext extended) st1 in
      let (t3, e3, st3) =
        next_arg-last (record s { tokens = t2 }) (pre ++ (name ++ 0 ∷ []) ++ (ext ++ 0 ∷ [])) c text
          rest 0 (text-IsWord (c ∷ text) chars) st2 in
      (
        t3,
        rw (e1, e2, e3)
            (unfold all_given in
              save_text_lem (record s { tokens = t3 }) pre (ext ++ 0 ∷ ((c ∷ text) ++ 0 ∷ rest))
                ((c ∷ text) ++ 0 ∷ rest) (c ∷ text) rest (st3.array ∙ simp append_assoc refl)
                (st3.array ∙ simp append_assoc refl)
                (st3.array
                  ∙ append_assoc (pre ++ (name ++ 0 ∷ []) ++ (ext ++ 0 ∷ [])) (c ∷ text)
                      (0 ∷ rest))),
      )

abbrev cat_usage : List ℕ
cat_usage = codes "Error: missing args\n- use: cat [filename]\n"

-- The two lines.
abbrev pub write_line : List ℕ → List ℕ → List ℕ → List ℕ → List ℕ
write_line name ext text rest =
    codes "write" ++ b' ' ∷ (name ++ b' ' ∷ (ext ++ b' ' ∷ (text ++ 0 ∷ rest)))

abbrev pub cat_line : List ℕ → List ℕ → List ℕ
cat_line name rest = codes "cat" ++ b' ' ∷ (name ++ 0 ∷ rest)

write_found : lookup commands (codes "write") ≡ some write
unfolding lookup same_text
write_found = refl

cat_found : lookup commands (codes "cat") ≡ some cat
unfolding lookup same_text
cat_found = refl

write-IsText : IsText (codes "write")
write-IsText = all_chars-IsText (codes "write") refl

cat-IsText : IsText (codes "cat")
cat-IsText = all_chars-IsText (codes "cat") refl

on_volume_lem :
    {ports : Ports} (f : Volume → Option Volume) (s : System ports) {v : Volume}
    → f s.volume ≡ some v
    → on_volume f s ≡ some (record s { volume = v })
on_volume_lem f s e =
    ap (λ (o : Option Volume). do volume ← o; some (record s { volume = volume })) e

module _ {ports : Ports} (env : Environment) (fuel : ℕ) (fuelled : env.fuel ≡ suc (suc fuel))
    (n : ℕ) (name ext : List ℕ) (named : All IsNameChar (n ∷ name)) (extended : All IsNameChar ext)
    (c : ℕ) (text : List ℕ) (chars : IsText (c ∷ text)) (plain : IsPlain (c ∷ text)) where
  write_line_lem :
      (s : System ports) (rest : List ℕ) {v : Volume}
      → write_file (stored_name (n ∷ name) ext) ((c ∷ text) ++ 0 ∷ rest) s.volume ≡ some v
      → (t : Tokens) × (execute_command env (write_line (n ∷ name) ext (c ∷ text) rest) s
          ≡ some (record s { tokens = t; volume = v }))
  unfolding obey run_handler
  write_line_lem s rest {v} e =
      let args = (n ∷ name) ++ b' ' ∷ (ext ++ b' ' ∷ ((c ∷ text) ++ 0 ∷ rest)) in
      let started : System ports = record s {
        tokens = record { buffer = codes "write" ++ 0 ∷ args; last_token = some 6 };
      } in
      let (t, r) =
        cmd_write_lem env (n ∷ name) ext named extended started (codes "write" ++ 0 ∷ []) c text
          rest chars (record { array = refl; place = refl }) in
      (
        t,
        execute_command_lem env s (spaced (codes "write") args) write-IsText
              (all_spaceless-IsWord (codes "write") refl)
            ∙ ap (λ (h : Option Handler). obey env h (codes "write") started) write_found
            ∙ r
            ∙ on_volume_lem (write_file (stored_name (n ∷ name) ext) ((c ∷ text) ++ 0 ∷ rest))
                (record s { tokens = t }) e,
      )

  cat_line_lem :
      (s : System ports) (rest : List ℕ) {v : Volume}
      → cat_file env.fuel ((n ∷ name) ++ 0 ∷ rest) s.volume ≡ some v
      → (t : Tokens) × (execute_command env (cat_line (n ∷ name) rest) s
          ≡ some (record s { tokens = t; volume = v }))
  unfolding obey run_handler cmd_cat
  cat_line_lem s rest {v} e =
      let args = (n ∷ name) ++ 0 ∷ rest in
      let started : System ports = record s {
        tokens = record { buffer = codes "cat" ++ 0 ∷ args; last_token = some 4 };
      } in
      let (t, r) =
        with_arg-last cat_usage (λ file_to_read. on_volume (cat_file env.fuel file_to_read)) started
          (codes "cat" ++ 0 ∷ []) n name rest (name-IsWord (n ∷ name) named)
          (record { array = refl; place = refl }) in
      (
        t,
        execute_command_lem env s (spaced (codes "cat") args) cat-IsText
              (all_spaceless-IsWord (codes "cat") refl)
            ∙ ap (λ (h : Option Handler). obey env h (codes "cat") started) cat_found
            ∙ r
            ∙ on_volume_lem (cat_file env.fuel ((n ∷ name) ++ 0 ∷ rest)) (record s { tokens = t })
                e,
      )

  module _ (s : System ports) (rest rest' : List ℕ) (ready : IsReady s.volume)
      (new : find_entry (stretched 8 (n ∷ name)) 0 (here s.volume) ≡ none) where
    -- In a system whose disk has a free cluster and a free place in the current directory, for a name
    -- that nothing answers to, the line `write NAME EXT TEXT` and then the line `cat NAME` fault
    -- nowhere, and the second prints the first 511 characters of the text, if there is no `%` in name and
    -- extension and no `%d` in the text.
    pub write-cat :
        (k : ℕ)
        → 2 ≤ k
        → k < 256
        → get_or (fat s.volume) k 0 ≡ 0
        → ¬ NoneFree (here s.volume)
        → (s1 s2 : System ports) × (execute_command env
              (write_line (n ∷ name) ext (c ∷ text) rest)
              s
            ≡ some s1)
          × (execute_command env (cat_line (n ∷ name) rest') s1 ≡ some s2)
          × (s2.volume
              ≡ say (codes "\n\n") (say (take 511 (c ∷ text)) (say (codes "\n") s1.volume)))
    write-cat k low high free room =
        let (v, wrote, shown) =
          write_file-cat_file (stored_name (n ∷ name) ext) (stored_text (n ∷ name) ext) []
            (c ∷ text) rest ((n ∷ name) ++ 0 ∷ rest') (stretched 8 (n ∷ name)) s.volume ready
            (omega (arith, length-stored (n ∷ name) ext))
            (stored-IsByte (n ∷ name) ext named extended) refl
            (stored-IsText (n ∷ name) ext named extended)
            (stored-IsPlain (n ∷ name) ext named extended) chars plain named.0.0
            (pad_name-stretched (n ∷ name) rest' (name-IsText (n ∷ name) named))
            (stored-Agree (n ∷ name) ext named) new fuel k low high free room in
        let (t1, r1) = write_line_lem s rest wrote in
        let s1 : System ports = record s { tokens = t1; volume = v } in
        let (t2, r2) =
          cat_line_lem s1 rest'
            (ap (λ (f : ℕ). cat_file f ((n ∷ name) ++ 0 ∷ rest') v) fuelled ∙ shown) in
        (s1, record s1 { tokens = t2; volume = _ }, r1, r2, refl)
