-- ===== src/Shell/Tests.antt =====
-- Lines typed into a system with a blank disk.
use first_kernel.Base.{inl, ℕ, ◌≡◌, refl, arith, List, [], ◌∷◌, ◌++◌, none, some, replicate, get_or}
use first_kernel.Base.Text.{codes, c_text, missing_argument, is_plain-IsPlain}
use first_kernel.Fat16.Volume.{say, read_current_directory, directory_sector}
use first_kernel.Fat16.Layout.{entries, split_entries, words}
use first_kernel.Fat16.Table.{fat}
use first_kernel.Fat16.Views.{all_bytes-IsByte}
use first_kernel.Fat16.Placement.{IsReady}
use first_kernel.Fat16.Stored.{here}
use first_kernel.Fat16.Search.{NoneFree}
use first_kernel.Fat16.Directory.{find_entry}
use first_kernel.Fat16.Padded.{stretched}
use first_kernel.Shell.System.{System, execute, interrupt}
use first_kernel.Shell.Dispatch.{commands, execute_command}
use first_kernel.Shell.Lookup.{
  spaced, lookup, obey, execute_command_lem, same_text, all_chars-IsText, all_spaceless-IsWord,
}
use first_kernel.Shell.WriteCat.{write_line, cat_line, write-cat}
use first_kernel.Shell.Echo.{joined, spoken, echo-spoken}
use first_kernel.Shell.Math.{quotient, math_line, math-Result, math_zero_lem}
use first_kernel.CString.{Tokens}
use first_kernel.CString.Printed.{decimal}
use first_kernel.Fat16.Listed.{says}
use first_kernel.Shell.Examples.{bare_ports, environment, blank_system}

blank-IsReady : IsReady blank_system.volume
blank-IsReady = record {
  valid = record { full = λ k. refl; bytes = λ k. all_bytes-IsByte (replicate 512 0) refl };
  home = inl refl;
}

new_name : find_entry (stretched 8 (codes "A")) 0 (here blank_system.volume) ≡ none
unfolding find_entry read_current_directory directory_sector entries split_entries
new_name = refl

free_cluster : get_or (fat blank_system.volume) 2 0 ≡ 0
unfolding words
free_cluster = refl

room : ¬ NoneFree (here blank_system.volume)
unfolding read_current_directory directory_sector entries split_entries
room h = cc (h.0)

write-cat_example :
    (s1 s2 : System bare_ports) × (execute_command environment
        (write_line (codes "A") (codes "B") (codes "hi") [])
        blank_system
      ≡ some s1)
    × (execute_command environment (cat_line (codes "A") []) s1 ≡ some s2)
    × (s2.volume ≡ say (codes "\n\n") (say (codes "hi") (say (codes "\n") s1.volume)))
write-cat_example =
    write-cat environment 0 refl b'A' [] (codes "B")
      ((omega arith, omega arith, omega arith, omega arith), tt)
      ((omega arith, omega arith, omega arith, omega arith), tt) b'h' (codes "i")
      (all_chars-IsText (codes "hi") refl) (is_plain-IsPlain (codes "hi") refl) blank_system [] []
      blank-IsReady new_name 2 (omega arith) (omega arith) free_cluster room

abbrev unknown : List ℕ
unknown = codes "dir"

execute_command_lem_example :
    execute_command environment (unknown ++ b' ' ∷ codes "x") blank_system
    ≡ obey environment (lookup commands unknown) unknown (record blank_system {
      tokens = record { buffer = unknown ++ 0 ∷ codes "x"; last_token = some 4 };
    })
execute_command_lem_example =
    execute_command_lem environment blank_system (spaced unknown (codes "x"))
      (all_chars-IsText unknown refl) (all_spaceless-IsWord unknown refl)

-- No command has that name.
dir_unknown : lookup commands unknown ≡ none
unfolding lookup same_text
dir_unknown = refl

abbrev words_said : List (List ℕ)
words_said = codes "a" ∷ codes "b!" ∷ []

echo-spoken_example :
    (t : Tokens) × (execute_command environment
        (codes "echo" ++ b' ' ∷ joined (codes "hello") words_said (codes "old"))
        blank_system
      ≡ some (record blank_system {
        tokens = t;
        volume = says (spoken (codes "hello" ∷ words_said)) blank_system.volume;
      }))
echo-spoken_example =
    echo-spoken environment (codes "hello") words_said (codes "old") blank_system
      (
        all_chars-IsText (codes "hello") refl,
        all_spaceless-IsWord (codes "hello") refl,
        omega arith,
        is_plain-IsPlain (codes "hello") refl,
      )
      (
        (
          all_chars-IsText (codes "a") refl,
          all_spaceless-IsWord (codes "a") refl,
          omega arith,
          is_plain-IsPlain (codes "a") refl,
        ),
        (
          (
            all_chars-IsText (codes "b!") refl,
            all_spaceless-IsWord (codes "b!") refl,
            omega arith,
            is_plain-IsPlain (codes "b!") refl,
          ),
          tt,
        ),
      )

math-Result_example :
    (t : Tokens) × (execute_command environment (math_line b'/' 1000 7 []) blank_system
      ≡ some (record blank_system {
        tokens = t;
        volume = says (codes "the result is: " ∷ decimal 142 ∷ codes "\n" ∷ []) blank_system.volume;
      }))
math-Result_example =
    math-Result environment blank_system [] (quotient 1000 7 (omega arith)) (omega arith)
      (omega arith) (omega arith)

math_zero_lem_example :
    (t : Tokens) × (execute_command environment (math_line b'/' 1 0 []) blank_system
      ≡ some (execute (interrupt 0x00) (record blank_system { tokens = t })))
math_zero_lem_example = math_zero_lem environment 1 blank_system [] (omega arith)

-- `echo %d` asks `print` for an argument that is not there.
echo_missing : c_text (codes "%d" ++ 0 ∷ []) ≡ missing_argument ∷ []
unfolding c_text
echo_missing = refl
