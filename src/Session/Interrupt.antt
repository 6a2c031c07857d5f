-- ===== src/Session/Interrupt.antt =====
-- The keyboard's interrupt keeps the keyboard valid, whatever command it runs.
use first_kernel.Base.{ℕ, ◌≡◌, refl, List, [], ◌∷◌, Option, none, some, length}
use first_kernel.Base.Partial.{◌>>=◌}
use first_kernel.Keyboard.{Keyboard}
use first_kernel.Keyboard.Invariant.{KeepsLength}
use first_kernel.Ports.{Ports}
use first_kernel.Shell.System.{Environment, System, tell}
use first_kernel.Shell.Dispatch.{execute_command}
use first_kernel.Shell.Line.{Kept}
use first_kernel.Shell.Keeps.{execute_command-Kept}
use first_kernel.Session.{holding, left_line}

module _ {ports : Ports} (env : Environment) where
  left-length :
      (buffer : List ℕ) (o : Option (System ports))
      → Kept (length buffer) o
      → length (elim o [ none ↦ buffer | some s ↦ s.tokens.buffer ]) ≡ length buffer
  left-length buffer none k = refl
  left-length buffer (some s) k = k

  -- The shell keeps the length of the keyboard's buffer.
  pub left_line-KeepsLength : (s : System ports) → KeepsLength (left_line env s)
  unfolding left_line
  left_line-KeepsLength s buffer =
      left-length buffer (execute_command env buffer (holding env buffer (tell (10 ∷ []) s)))
        (execute_command-Kept env buffer (holding env buffer (tell (10 ∷ []) s)) refl)
