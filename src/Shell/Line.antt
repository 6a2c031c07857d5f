-- ===== src/Shell/Line.antt =====
-- The line of kernel/shell.c under the commands: its array keeps its length.
use first_kernel.Fat16.Volume.{Volume}
use first_kernel.Base.{
  if◌then◌else◌, ltb, refl, ℕ, ◌+◌, ◌≡◌, ◌∙◌, List, [], ◌∷◌, Option, none, some, ◌==◌, true, false,
  Bool, get_elem?, drop, length, length-set, set, store,
}
use first_kernel.Base.Partial.{◌>>=◌}
use first_kernel.CString.{Tokens, scan, next_token, strtok}
use first_kernel.Ports.{Ports, Io}
use first_kernel.Shell.System.{System, next_arg, with_arg, text_at, on_volume, on_io, io_of}

-- What holds of a result, if there is one.
abbrev pub Every {ℓ κ} : {A : Type ℓ} → (A → Type κ) → Option A → Type κ
Every P none = Unit
Every P (some x) = P x

pub Every-bind {ℓ ℓ' κ} :
    {A : Type ℓ} {B : Type ℓ'} (P : B → Type κ) (o : Option A) (f : A → Option B)
    → ((x : A) → Every P (f x))
    → Every P (o >>= f)
Every-bind P none f h = tt
Every-bind P (some x) f h = h x

pub Every-then {ℓ ℓ' κ κ'} :
    {A : Type ℓ} {B : Type ℓ'} (Q : A → Type κ) (P : B → Type κ') (o : Option A) (f : A → Option B)
    → Every Q o
    → ((x : A) → Q x → Every P (f x))
    → Every P (o >>= f)
Every-then Q P none f q h = tt
Every-then Q P (some x) f q h = h x q

pub Every-branch {ℓ κ} :
    {A : Type ℓ} (P : A → Type κ) (b : Bool) (x y : Option A)
    → Every P x
    → Every P y
    → Every P (elim b [ true ↦ x | false ↦ y ])
Every-branch P true x y h k = h
Every-branch P false x y h k = k

pub Every-if {ℓ κ} :
    {A : Type ℓ} (P : A → Type κ) (b : Bool) (x y : Option A)
    → Every P x
    → Every P y
    → Every P (if b then x else y)
Every-if P true x y h k = h
Every-if P false x y h k = k

pub Every-option {ℓ ℓ' κ} :
    {A : Type ℓ} {B : Type ℓ'} (P : B → Type κ) (o : Option A) (x : Option B) (f : A → Option B)
    → Every P x
    → ((a : A) → Every P (f a))
    → Every P (elim o [ none ↦ x | some a ↦ f a ])
Every-option P none x f h k = h
Every-option P (some a) x f h k = k a

-- Arrays of the same length.
abbrev pub SameLength : List ℕ → List ℕ → Type 0
SameLength xs ys = length ys ≡ length xs

store-length : (xs : List ℕ) (i v : ℕ) → Every (SameLength xs) (store xs i v)
store-length xs i v =
    Every-if (SameLength xs) (ltb i (length xs)) (some (set xs i v)) none (length-set xs i v) tt

scan-length :
    (rest : List ℕ) (delim pos : ℕ) (buffer : List ℕ)
    → Every (λ (r : List ℕ × ℕ). SameLength buffer r.0) (scan rest delim pos buffer)
unfolding scan
scan-length [] delim pos buffer = tt
scan-length (c ∷ rest) delim pos buffer =
    let P : List ℕ × ℕ → Type 0 = λ r. SameLength buffer r.0 in
    Every-branch P (c == 0) _ _ refl (
      Every-branch P (c == delim) _ _
        (Every-then (SameLength buffer) P (store buffer pos 0) _ (store-length buffer pos 0)
          (λ b q. q))
        (scan-length rest delim (pos + 1) buffer))

-- `strtok` keeps the length of the array.
pub next_token-length :
    (delim : ℕ) (t : Tokens)
    → Every (λ (r : Tokens × Option ℕ). SameLength t.buffer r.0.buffer) (next_token delim t)
unfolding next_token
next_token-length delim t =
    let P : Tokens × Option ℕ → Type 0 = λ r. SameLength t.buffer r.0.buffer in
    Every-option P t.last_token _ _ refl (λ pos. Every-bind P (get_elem? t.buffer pos) _ (λ c.
      Every-branch P (c == 0) _ _ refl (
        Every-then (λ (r : List ℕ × ℕ). SameLength t.buffer r.0) P
          (scan (drop pos t.buffer) delim pos t.buffer) _
          (scan-length (drop pos t.buffer) delim pos t.buffer) (λ r q. q))))

module _ {ports : Ports} (n : ℕ) where
  abbrev pub HasLine : System ports → Type 0
  HasLine s = length s.tokens.buffer ≡ n

  -- The line that a result has.
  abbrev pub Kept : Option (System ports) → Type 0
  Kept = Every HasLine

  pub next_arg-Kept :
      (delim : ℕ) (s : System ports) (f : System ports × Option ℕ → Option (System ports))
      → HasLine s
      → ((s' : System ports) (pos : Option ℕ) → HasLine s' → Kept (f (s', pos)))
      → Kept (next_arg delim s >>= f)
  unfolding next_arg strtok
  next_arg-Kept delim s f l h =
      let Q : System ports × Option ℕ → Type 0 = λ r. HasLine r.0 in
      Every-then Q HasLine (next_arg delim s) f
        (Every-then (λ (r : Tokens × Option ℕ). SameLength s.tokens.buffer r.0.buffer) Q
          (next_token delim s.tokens) _ (next_token-length delim s.tokens) (λ r q. q ∙ l))
        (λ r q. h r.0 r.1 q)

  pub with_arg-Kept :
      (usage : List ℕ) (f : List ℕ → System ports → Option (System ports))
      → ((text : List ℕ) (s : System ports) → HasLine s → Kept (f text s))
      → (s : System ports) → HasLine s
      → Kept (with_arg usage f s)
  unfolding with_arg
  with_arg-Kept usage f h s l =
      next_arg-Kept b' ' s _ l
        (λ s' pos l'. Every-option HasLine pos _ _ l' (λ i. h (text_at i s') s' l'))

  pub on_volume-Kept :
      (f : Volume → Option Volume) (s : System ports) → HasLine s → Kept (on_volume f s)
  on_volume-Kept f s l = Every-bind HasLine (f s.volume) _ (λ v. l)

  pub on_io-Kept :
      (f : Io ports → Option (Io ports)) (s : System ports) → HasLine s → Kept (on_io f s)
  on_io-Kept f s l = Every-bind HasLine (f (io_of s)) _ (λ io. l)
