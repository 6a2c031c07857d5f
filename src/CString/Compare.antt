-- ===== src/CString/Compare.antt =====
-- `strcmp` and `strncmp` of libc/string.c against equality of the texts.
use first_kernel.Base.{
  ℕ, ◌^◌, ◌<◌, ◌≡◌, ◌≢◌, refl, ap₂, sym, ◌↔◌, List, [], ◌∷◌, ◌++◌, some, arith, ℕ_discrete,
}
use first_kernel.Base.Text.{IsText}
use first_kernel.CString.{strcmp, char_difference}

-- Different bytes have a difference other than 0.
char_difference-ne : (a b : ℕ) → a < 2 ^ 8 → b < 2 ^ 8 → a ≢ b → char_difference a b ≢ 0
char_difference-ne a b ha hb ne e = ground arith

different : {d : ℕ} {s t : List ℕ} → d ≢ 0 → s ≢ t → (d ≡ 0) ↔ (s ≡ t)
different n m = ((λ e. absurd (n e)), (λ e. absurd (m e)))

-- `strcmp` ends inside two terminated strings, whatever lies behind them, and returns 0 exactly when
-- their texts are equal.
pub strcmp_lem :
    (s t rest rest' : List ℕ)
    → IsText s
    → IsText t
    → (d : ℕ) × (strcmp (s ++ 0 ∷ rest) (t ++ 0 ∷ rest') ≡ some d) × ((d ≡ 0) ↔ (s ≡ t))
unfolding strcmp
strcmp_lem [] [] rest rest' p q = (0, refl, ((λ e. refl), (λ e. refl)))
strcmp_lem [] (b ∷ t) rest rest' p q = (
  char_difference 0 b,
  ground (arith, q.0.0),
  different (char_difference-ne 0 b (omega arith) q.0.1 (λ e. q.0.0 (sym e))) (λ e. absurd (cc)),
)
strcmp_lem (a ∷ s) [] rest rest' p q = (
  char_difference a 0,
  ground (arith, p.0.0),
  different (char_difference-ne a 0 p.0.1 (omega arith) p.0.0) (λ e. absurd (cc)),
)
strcmp_lem (a ∷ s) (b ∷ t) rest rest' p q = elim (ℕ_discrete a b) [
  | yes e ↦ same_head e (strcmp_lem s t rest rest' p.1 q.1)
  | no ne ↦ (
    char_difference a b,
    ground arith,
    different (char_difference-ne a b p.0.1 q.0.1 ne) (λ e. ne (cc)),
  )
]
  where
    same_head :
        a ≡ b
        → ((d : ℕ) × (strcmp (s ++ 0 ∷ rest) (t ++ 0 ∷ rest') ≡ some d) × ((d ≡ 0) ↔ (s ≡ t)))
        → (d : ℕ) × (strcmp ((a ∷ s) ++ 0 ∷ rest) ((b ∷ t) ++ 0 ∷ rest') ≡ some d)
          × ((d ≡ 0) ↔ ((a ∷ s) ≡ (b ∷ t)))
    same_head e (d, r, (forth, back)) = (
      d,
      ground (arith, p.0.0),
      ((λ z. ap₂ (λ (x : ℕ) (xs : List ℕ). x ∷ xs) e (forth z)), (λ z. back (cc))),
    )
