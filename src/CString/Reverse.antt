-- ===== src/CString/Reverse.antt =====
-- `reverse` of libc/string.c, in place, against the reversal of a list.
use first_kernel.Base.{
  get_or-append, ℕ, zero, suc, ◌+◌, ◌-◌, ◌≤◌, ◌<◌, ◌≡◌, refl, ap, ap₂, sym, ◌∙◌, List, [], ◌∷◌,
  ◌++◌, some, Bool-cases, ◌==◌, leb, ltb, if◌then◌else◌, ◌&&◌, length, get_or, set, dec_lt, arith,
  inl, inr, length-append, length-set, get_or-set_self, get_or-set_ne, get_elem?-eq-get_or,
}
use first_kernel.CString.{reverse_from, reverse}

-- The reversal of a list in front of another.
unfoldable pub rev_onto : List ℕ → List ℕ → List ℕ
rev_onto [] tail = tail
rev_onto (d ∷ ds) tail = rev_onto ds (d ∷ tail)

pub length-rev_onto : (ds tail : List ℕ) → length (rev_onto ds tail) ≡ length ds + length tail
unfolding rev_onto
length-rev_onto [] tail = omega arith
length-rev_onto (d ∷ ds) tail = omega (arith, length-rev_onto ds (d ∷ tail))

get_or-rev_onto :
    (ds tail : List ℕ) (j : ℕ)
    → get_or (rev_onto ds tail) j 0 ≡ (
        if ltb j (length ds)
        then get_or ds (length ds - 1 - j) 0
        else get_or tail (j - length ds) 0)
unfolding rev_onto
get_or-rev_onto [] tail j = ground arith
get_or-rev_onto (d ∷ ds) tail j = elim (dec_lt j (length ds)) [
  | yes p ↦
      let there : suc (length ds) - 1 - j ≡ suc (length ds - 1 - j) = omega arith in
      ground (arith, get_or-rev_onto ds (d ∷ tail) j, ap (λ (k : ℕ). get_or (d ∷ ds) k 0) there)
  | no p ↦ get_or-rev_onto ds (d ∷ tail) j ∙ beyond (j - length ds) (omega arith)
]
  where
    beyond :
        (m : ℕ)
        → j ≡ length ds + m
        → (if ltb j (length ds)
            then get_or ds (length ds - 1 - j) 0
            else get_or (d ∷ tail) (j - length ds) 0)
          ≡ (if ltb j (suc (length ds))
              then get_or (d ∷ ds) (suc (length ds) - 1 - j) 0
              else get_or tail (j - suc (length ds)) 0)
    beyond zero e =
        let at : j - length ds ≡ 0 = omega (arith, e) in
        let back : suc (length ds) - 1 - j ≡ 0 = omega (arith, e) in
        ground (
          arith,
          ap (λ (k : ℕ). get_or (d ∷ tail) k 0) at,
          ap (λ (k : ℕ). get_or (d ∷ ds) k 0) back,
        )
    beyond (suc m) e =
        let at : j - length ds ≡ suc m = omega (arith, e) in
        let next : j - suc (length ds) ≡ m = omega (arith, e) in
        ground
          (arith, ap (λ (k : ℕ). get_or (d ∷ tail) k 0) at, ap (λ (k : ℕ). get_or tail k 0) next)

list_ext :
    (xs ys : List ℕ)
    → length xs ≡ length ys
    → ((j : ℕ) → j < length xs → get_or xs j 0 ≡ get_or ys j 0)
    → xs ≡ ys
list_ext [] [] n h = refl
list_ext [] (y ∷ ys) n h = absurd (omega arith)
list_ext (x ∷ xs) [] n h = absurd (omega arith)
list_ext (x ∷ xs) (y ∷ ys) n h =
    ap₂ (λ (z : ℕ) (zs : List ℕ). z ∷ zs) (h 0 (omega arith))
      (list_ext xs ys (omega arith) (λ j p. h (suc j) (omega arith)))

-- Positions from `s` to `e` are mirrored, the others kept.
record Mirrored (s e : ℕ) (str str' : List ℕ) : Type 0 where
  same_length : length str' ≡ length str
  mirrored :
      (j : ℕ)
      → get_or str' j 0 ≡ (if leb s j && leb j e then get_or str (s + e - j) 0 else get_or str j 0)

swap : ℕ → ℕ → List ℕ → List ℕ
swap s e str = set (set str s (get_or str e 0)) e (get_or str s 0)

reverse_from-step :
    (fuel s e : ℕ) (str : List ℕ)
    → s < e
    → e < length str
    → reverse_from (suc fuel) s e str ≡ reverse_from fuel (s + 1) (e - 1) (swap s e str)
unfolding reverse_from swap
reverse_from-step fuel s e str h k = ground (
  arith,
  get_elem?-eq-get_or str s 0,
  get_elem?-eq-get_or str e 0,
  length-set str s (get_or str e 0),
)

length-swap : (s e : ℕ) (str : List ℕ) → length (swap s e str) ≡ length str
unfolding swap
length-swap s e str =
    length-set (set str s (get_or str e 0)) e (get_or str s 0) ∙ length-set str s (get_or str e 0)

get_or-swap :
    (s e : ℕ) (str : List ℕ) (k : ℕ)
    → s < e
    → e < length str
    → get_or (swap s e str) k 0
      ≡ (if k == s then get_or str e 0 else if k == e then get_or str s 0 else get_or str k 0)
unfolding swap
get_or-swap s e str k h n = ground (
  arith,
  get_or-set_self (set str s (get_or str e 0)) e (get_or str s 0) 0,
  get_or-set_ne (set str s (get_or str e 0)) e k (get_or str s 0) 0,
  get_or-set_self str s (get_or str e 0) 0,
  get_or-set_ne str s k (get_or str e 0) 0,
  length-set str s (get_or str e 0),
)

still :
    (s e : ℕ) (str : List ℕ) (j : ℕ)
    → e ≤ s
    → get_or str j 0 ≡ (if leb s j && leb j e then get_or str (s + e - j) 0 else get_or str j 0)
still s e str j h = elim (Bool-cases (leb s j && leb j e)) [
  | inl at ↦ rw at (ap (λ (k : ℕ). get_or str k 0) (ground arith))
  | inr off ↦ rw off refl
]

Mirrored-step :
    (s e : ℕ) (str : List ℕ) {str' : List ℕ}
    → s < e
    → e < length str
    → Mirrored (s + 1) (e - 1) (swap s e str) str'
    → Mirrored s e str str'
Mirrored-step s e str h n m = record {
  same_length = m.same_length ∙ length-swap s e str;
  mirrored = λ j.
      m.mirrored j
      ∙ ground (arith, get_or-swap s e str j h n, get_or-swap s e str (s + 1 + (e - 1) - j) h n);
}

reverse_from_lem :
    (fuel s e : ℕ) (str : List ℕ)
    → e < length str
    → e ≤ s + fuel
    → (str' : List ℕ) × (reverse_from fuel s e str ≡ some str') × Mirrored s e str str'
reverse_from_lem zero s e str h k = (
  str,
  unfold reverse_from in refl,
  record { same_length = refl; mirrored = λ j. still s e str j (omega arith) },
)
reverse_from_lem (suc fuel) s e str h k = elim (Bool-cases (ltb s e)) [
  | inl lt ↦
      let (str', r, m) =
        reverse_from_lem fuel (s + 1) (e - 1) (swap s e str) (ground (arith, length-swap s e str))
          (ground arith) in
      (
        str',
        reverse_from-step fuel s e str (ground arith) h ∙ r,
        Mirrored-step s e str (ground arith) h m,
      )
  | inr ge ↦ (
    str,
    unfold reverse_from in ground arith,
    record { same_length = refl; mirrored = λ j. still s e str j (ground arith) },
  )
]

mirror-rev_onto :
    (ds post str' : List ℕ)
    → 0 < length ds
    → Mirrored 0 (length ds - 1) (ds ++ post) str'
    → str' ≡ rev_onto ds post
mirror-rev_onto ds post str' h m =
    list_ext str' (rev_onto ds post)
      (m.same_length ∙ length-append ds post ∙ sym (length-rev_onto ds post))
      (λ j p. m.mirrored j ∙ place j ∙ sym (get_or-rev_onto ds post j))
  where
    place :
        (j : ℕ)
        → (if leb 0 j && leb j (length ds - 1)
            then get_or (ds ++ post) (0 + (length ds - 1) - j) 0
            else get_or (ds ++ post) j 0)
          ≡ (if ltb j (length ds)
              then get_or ds (length ds - 1 - j) 0
              else get_or post (j - length ds) 0)
    place j =
        ground (arith, get_or-append ds post j 0, get_or-append ds post (0 + (length ds - 1) - j) 0)

-- `reverse` on the first `length ds` bytes of an array reverses them and keeps the rest.
pub reverse_lem : (ds post : List ℕ) → reverse (ds ++ post) (length ds) ≡ some (rev_onto ds post)
unfolding reverse
reverse_lem [] post = unfold reverse_from rev_onto in refl
reverse_lem (d ∷ ds) post =
    let n = length (d ∷ ds) in
    let (str', r, m) =
      reverse_from_lem n 0 (n - 1) ((d ∷ ds) ++ post) (omega (arith, length-append (d ∷ ds) post))
        (omega arith) in
    r ∙ ap some (mirror-rev_onto (d ∷ ds) post str' (omega arith) m)
