-- ===== src/Shell/Math.antt =====
-- `cmd_math` of kernel/shell.c on decimal numbers.
use first_kernel.Base.{
  ℕ, ◌+◌, ◌-◌, ◌*◌, ◌/◌, ◌^◌, ◌<◌, ◌≤◌, ◌≡◌, ◌≢◌, refl, ap, sym, ◌∙◌, List, [], ◌∷◌, ◌++◌, Option,
  none, some, All, length, arith, append_assoc, replicate,
}
use first_kernel.Base.Partial.{◌>>=◌}
use first_kernel.Base.Int.{divide, divide_lem}
use first_kernel.Base.Text.{codes}
use first_kernel.CString.{Tokens, strcmp, atoi, atoi_from, itoa}
use first_kernel.CString.Reverse.{rev_onto, length-rev_onto}
use first_kernel.CString.Decimal.{digits, IsDigit, digits-IsDigit, value-digits, atoi_from-rev_onto}
use first_kernel.CString.Printed.{decimal, itoa-printed}
use first_kernel.CString.Words.{IsWord, Stands}
use first_kernel.Ports.{Ports}
use first_kernel.Shell.System.{execute, interrupt, Environment, System, tell, tell_text}
use first_kernel.Shell.Arguments.{next_arg-word, next_arg_rest, drop-buffer}
use first_kernel.Shell.Commands.{
  Outcome, no_operator, divide_error, number, calculate, all_given, evaluate, cmd_math,
}
use first_kernel.Shell.Dispatch.{Handler, commands, math, run_handler, execute_command}
use first_kernel.Shell.Lookup.{
  spaced, lookup, same_text, obey, execute_command_lem, all_chars-IsText, all_spaceless-IsWord,
}
use first_kernel.Fat16.Listed.{says}

-- An operator, two numbers that are not negative, and the number that the operator makes of them.
pub data Result : ℕ → ℕ → ℕ → ℕ → Type 0 where
  sum : (a b : ℕ) → Result b'+' a b (a + b)
  difference : (a b : ℕ) → b ≤ a → Result b'-' a b (a - b)
  product : (a b : ℕ) → Result b'*' a b (a * b)
  quotient : (a b : ℕ) → 0 < b → Result b'/' a b (a / b)

calculate_lem :
    {op a b n : ℕ} (rest : List ℕ)
    → Result op a b n
    → a < 2 ^ 31
    → b < 2 ^ 31
    → n < 10 ^ 9
    → calculate (op ∷ 0 ∷ rest) a b ≡ some (number n)
unfolding calculate strcmp
calculate_lem rest (sum a b) ha hb h = ap (λ (k : ℕ). some (number k)) (omega arith)
calculate_lem rest (difference a b p) ha hb h = ap (λ (k : ℕ). some (number k)) (omega arith)
calculate_lem rest (product a b) ha hb h = ap (λ (k : ℕ). some (number k)) (omega arith)
calculate_lem rest (quotient a b p) ha hb h =
    ap (λ (o : Option ℕ). elim o [ none ↦ some divide_error | some q ↦ some (number q) ])
      (divide_lem a b ha p hb)

divided_by_zero : (a : ℕ) (rest : List ℕ) → calculate (b'/' ∷ 0 ∷ rest) a 0 ≡ some divide_error
unfolding calculate strcmp divide
divided_by_zero a rest = refl

rev_onto-append : (ds xs ys : List ℕ) → rev_onto ds (xs ++ ys) ≡ rev_onto ds xs ++ ys
unfolding rev_onto
rev_onto-append [] xs ys = refl
rev_onto-append (d ∷ ds) xs ys = rev_onto-append ds (d ∷ xs) ys

atoi-decimal : (n : ℕ) (rest : List ℕ) → n < 2 ^ 31 → atoi (decimal n ++ 0 ∷ rest) ≡ some n
unfolding atoi
atoi-decimal n rest h =
    ap (atoi_from 0) (sym (rev_onto-append (digits 10 n) [] (0 ∷ rest)))
    ∙ atoi_from-rev_onto (digits 10 n) (0 ∷ rest) (digits-IsDigit 10 n)
        (omega (arith, value-digits 10 n (omega arith)))
    ∙ unfold atoi_from in ap some (value-digits 10 n (omega arith))

rev_onto-All : (P : ℕ → Type 0) (ds xs : List ℕ) → All P ds → All P xs → All P (rev_onto ds xs)
unfolding rev_onto
rev_onto-All P [] xs h k = k
rev_onto-All P (d ∷ ds) xs h k = rev_onto-All P ds (d ∷ xs) h.1 (h.0, k)

digit-IsWord : (ds : List ℕ) → All IsDigit ds → IsWord b' ' ds
digit-IsWord [] h = tt
digit-IsWord (d ∷ ds) h = ((omega (arith, h.0), omega (arith, h.0)), digit-IsWord ds h.1)

decimal-IsWord : (n : ℕ) → IsWord b' ' (decimal n)
decimal-IsWord n =
    rev_onto-All (λ (c : ℕ). (c ≢ 0) × (c ≢ b' ')) (digits 10 n) []
      (digit-IsWord (digits 10 n) (digits-IsDigit 10 n)) tt

length-decimal : (n : ℕ) → 0 < length (decimal n)
length-decimal n = unfold digits in omega (arith, length-rev_onto (digits 10 n) [])

math_found : lookup commands (codes "math") ≡ some math
unfolding lookup same_text
math_found = refl

-- The line.
abbrev pub math_line : ℕ → ℕ → ℕ → List ℕ → List ℕ
math_line op a b rest =
    codes "math" ++ b' ' ∷ (decimal a ++ b' ' ∷ ((op ∷ []) ++ b' ' ∷ (decimal b ++ 0 ∷ rest)))

module _ {ports : Ports} (env : Environment) (op a b : ℕ) (small_a : a < 2 ^ 31)
    (small_b : b < 2 ^ 31) (operator : IsWord b' ' (op ∷ [])) where
  -- What is printed of a result.
  abbrev answer : System ports → Option Outcome → Option (System ports)
  answer s calculated = do
    outcome ← calculated
    elim outcome [
      | no_operator ↦ some s
      | divide_error ↦ some (execute (interrupt 0x00) s)
      | number m ↦ do
        result_str ← itoa m (replicate 10 0)
        some (tell (codes "\n") (tell_text result_str (tell (codes "the result is: ") s)))
    ]

  evaluate_lem :
      (s : System ports) (p rest : List ℕ)
      → s.tokens.buffer ≡ p ++ (decimal a ++ 0 ∷ ((op ∷ []) ++ 0 ∷ (decimal b ++ 0 ∷ rest)))
      → s.tokens.buffer ≡ (p ++ (decimal a ++ 0 ∷ [])) ++ ((op ∷ []) ++ 0 ∷ (decimal b ++ 0 ∷ rest))
      → s.tokens.buffer
        ≡ ((p ++ (decimal a ++ 0 ∷ [])) ++ ((op ∷ []) ++ 0 ∷ [])) ++ (decimal b ++ 0 ∷ rest)
      → evaluate env
          (
            length p,
            length (p ++ (decimal a ++ 0 ∷ [])),
            length ((p ++ (decimal a ++ 0 ∷ [])) ++ ((op ∷ []) ++ 0 ∷ [])),
          )
          s
        ≡ answer s (calculate (op ∷ 0 ∷ (decimal b ++ 0 ∷ rest)) a b)
  unfolding evaluate
  evaluate_lem s p rest e1 e2 e3 =
      rw
        (
          drop-buffer s.tokens p _ e1,
          drop-buffer s.tokens (p ++ (decimal a ++ 0 ∷ [])) _ e2,
          drop-buffer s.tokens ((p ++ (decimal a ++ 0 ∷ [])) ++ ((op ∷ []) ++ 0 ∷ [])) _ e3,
          atoi-decimal a ((op ∷ []) ++ 0 ∷ (decimal b ++ 0 ∷ rest)) small_a,
          atoi-decimal b rest small_b,
        )
        refl

  cmd_math_lem :
      (s : System ports) (pre rest : List ℕ)
      → Stands s.tokens pre (decimal a ++ b' ' ∷ ((op ∷ []) ++ b' ' ∷ (decimal b ++ 0 ∷ rest)))
      → (t : Tokens) × (cmd_math env s
          ≡ answer (record s { tokens = t }) (calculate (op ∷ 0 ∷ (decimal b ++ 0 ∷ rest)) a b))
  unfolding cmd_math
  cmd_math_lem s pre rest st =
      let (t1, e1, st1) =
        next_arg-word s pre (decimal a) ((op ∷ []) ++ b' ' ∷ (decimal b ++ 0 ∷ rest)) b' '
          (omega arith) (decimal-IsWord a) st in
      let (t2, e2, st2) =
        next_arg-word (record s { tokens = t1 }) (pre ++ (decimal a ++ 0 ∷ [])) (op ∷ [])
          (decimal b ++ 0 ∷ rest) b' ' (omega arith) operator st1 in
      let (t3, e3, st3) =
        next_arg_rest (record s { tokens = t2 })
          ((pre ++ (decimal a ++ 0 ∷ [])) ++ ((op ∷ []) ++ 0 ∷ [])) (decimal b) rest b' '
          (length-decimal b) (decimal-IsWord b) st2 in
      (
        t3,
        rw (e1, e2, e3)
            (unfold all_given in
              evaluate_lem (record s { tokens = t3 }) pre rest (st3.array ∙ simp append_assoc refl)
                (st3.array ∙ simp append_assoc refl)
                (st3.array
                  ∙ append_assoc ((pre ++ (decimal a ++ 0 ∷ [])) ++ ((op ∷ []) ++ 0 ∷ []))
                      (decimal b) (0 ∷ rest))),
      )

  math_line_lem :
      (s : System ports) (rest : List ℕ)
      → (t : Tokens) × (execute_command env (math_line op a b rest) s
          ≡ answer (record s { tokens = t }) (calculate (op ∷ 0 ∷ (decimal b ++ 0 ∷ rest)) a b))
  unfolding obey run_handler
  math_line_lem s rest =
      let args = decimal a ++ b' ' ∷ ((op ∷ []) ++ b' ' ∷ (decimal b ++ 0 ∷ rest)) in
      let started : System ports = record s {
        tokens = record { buffer = codes "math" ++ 0 ∷ args; last_token = some 5 };
      } in
      let (t, r) =
        cmd_math_lem started (codes "math" ++ 0 ∷ []) rest
          (record { array = refl; place = refl }) in
      (
        t,
        execute_command_lem env s (spaced (codes "math") args)
              (all_chars-IsText (codes "math") refl) (all_spaceless-IsWord (codes "math") refl)
            ∙ ap (λ (h : Option Handler). obey env h (codes "math") started) math_found
            ∙ r,
      )

Result-IsWord : {op a b n : ℕ} → Result op a b n → IsWord b' ' (op ∷ [])
Result-IsWord (sum a b) = ((omega arith, omega arith), tt)
Result-IsWord (difference a b p) = ((omega arith, omega arith), tt)
Result-IsWord (product a b) = ((omega arith, omega arith), tt)
Result-IsWord (quotient a b p) = ((omega arith, omega arith), tt)

-- The line `math A OP B` with decimal numbers from 0 below 2 ^ 31, one of the operators `+`, `-` (B at
-- most A), `*` and `/` (B not 0), and a result below 10 ^ 9 faults nowhere: it prints the result in
-- decimal, and nothing else changes but the line.
pub math-Result :
    {ports : Ports} (env : Environment) {op a b n : ℕ} (s : System ports) (rest : List ℕ)
    → Result op a b n
    → a < 2 ^ 31
    → b < 2 ^ 31
    → n < 10 ^ 9
    → (t : Tokens) × (execute_command env (math_line op a b rest) s
        ≡ some (record s {
          tokens = t;
          volume = says (codes "the result is: " ∷ decimal n ∷ codes "\n" ∷ []) s.volume;
        }))
unfolding says
math-Result env {op} {a} {b} {n} s rest result ha hb hn =
    let (t, r) = math_line_lem env op a b ha hb (Result-IsWord result) s rest in
    let (str, e, shown) = itoa-printed n (replicate 10 0) hn refl in
    (
      t,
      r
          ∙ rw (calculate_lem (decimal b ++ 0 ∷ rest) result ha hb hn, e, shown)
              (simp append_assoc refl),
    )

-- The line `math A / 0`, for every A below 2 ^ 31, prints nothing and ends in the processor's divide
-- error, interrupt 0; nothing else changes but the line.
pub math_zero_lem :
    {ports : Ports} (env : Environment) (a : ℕ) (s : System ports) (rest : List ℕ)
    → a < 2 ^ 31
    → (t : Tokens) × (execute_command env (math_line b'/' a 0 rest) s
        ≡ some (execute (interrupt 0x00) (record s { tokens = t })))
math_zero_lem env a s rest h =
    let (t, r) =
      math_line_lem env b'/' a 0 h (omega arith) ((omega arith, omega arith), tt) s rest in
    (
      t,
      r
          ∙ ap
              (answer env b'/' a 0 h (omega arith) ((omega arith, omega arith), tt)
                (record s { tokens = t }))
              (divided_by_zero a (decimal 0 ++ 0 ∷ rest)),
    )
