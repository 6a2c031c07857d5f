-- ===== src/Fat16/DirectoryName.antt =====
-- The names of directories: what `make_directory` writes into an entry, and what the searches look
-- for.
use first_kernel.Base.{
  ℕ, zero, suc, ◌+◌, ◌-◌, ◌≤◌, ◌<◌, ◌≡◌, refl, ap, ◌∙◌, List, [], ◌∷◌, ◌++◌, some, Bool-cases, ◌==◌,
  ==_iff, ltb, if◌then◌else◌, length, get_or, set, arith, inl, inr, ◌⊎◌, length-set,
  get_or-set_self, get_or-set_ne,
}
use native.Mathlib.Nat.{zero-add}
use first_kernel.Fat16.Layout.{DirEntry, set_name, set_ext}
use first_kernel.Fat16.Directory.{pad_from, pad_name}
use first_kernel.Fat16.Contents.{IsText, strlen_lem}
use first_kernel.Fat16.Files.{fill_dirname}

-- Byte `j` of a name of eight characters and an extension of three, padded with spaces.
abbrev pub padded_byte : List ℕ → ℕ → ℕ
padded_byte text j = if ltb j 8 then get_or text j b' ' else b' '

-- A character of the text, or a space behind it, as the source picks it.
pub picked :
    (text rest : List ℕ) (j : ℕ)
    → (if ltb j (length text) then get_or (text ++ 0 ∷ rest) j 0 else b' ') ≡ get_or text j b' '
picked [] rest j = ground arith
picked (c ∷ text) rest zero = ground arith
picked (c ∷ text) rest (suc j) = ground (arith, picked text rest j)

fill_slot :
    (i c : ℕ) (e : DirEntry)
    → (if ltb i 8 then set_name e i c else set_ext e (i - 8) b' ')
      ≡ set e i (if ltb i 8 then c else b' ')
fill_slot i c e = elim (Bool-cases (ltb i 8)) [
  | inl in_name ↦ rw in_name refl
  | inr in_ext ↦ rw in_ext (ap (λ k. set e k b' ') (ground arith))
]

-- The loop writes the padded name from byte `i` on.
pub record Written (left i : ℕ) (text : List ℕ) (e e' : DirEntry) : Type 0 where
  pub same_length : length e' ≡ length e
  pub inside : (j : ℕ) → i ≤ j → j < i + left → get_or e' j 0 ≡ padded_byte text j
  pub outside : (j : ℕ) → (j < i) ⊎ (i + left ≤ j) → get_or e' j 0 ≡ get_or e j 0

module _ (text rest : List ℕ) where
  fill_dirname-suc :
      (left i : ℕ) (e : DirEntry)
      → fill_dirname (suc left) i (length text) (text ++ 0 ∷ rest) e
        ≡ fill_dirname left (i + 1) (length text) (text ++ 0 ∷ rest) (set e i (padded_byte text i))
  unfolding fill_dirname
  fill_dirname-suc left i e =
      ap (fill_dirname left (i + 1) (length text) (text ++ 0 ∷ rest)) (
        fill_slot i _ e
        ∙ ap (λ (c : ℕ). set e i (if ltb i 8 then c else b' ')) (picked text rest i))

  pub fill_dirname_lem :
      (left i : ℕ) (e : DirEntry)
      → i + left ≤ length e
      → Written left i text e (fill_dirname left i (length text) (text ++ 0 ∷ rest) e)
  fill_dirname_lem zero i e k =
      unfold fill_dirname in
      record { same_length = refl; inside = λ j p q. absurd (omega arith); outside = λ j p. refl }
  fill_dirname_lem (suc left) i e k =
      rw (fill_dirname-suc left i e)
        (extend (fill_dirname_lem left (i + 1) (set e i c) (omega (arith, length-set e i c))))
    where
      c : ℕ
      c = padded_byte text i

      extend :
          {e' : DirEntry}
          → Written left (i + 1) text (set e i c) e'
          → Written (suc left) i text e e'
      extend f = record {
        same_length = f.same_length ∙ length-set e i c;
        inside = λ j p q. elim (Bool-cases (i == j)) [
          | inl at ↦
              rw (← (==_iff i j).0 at)
                (f.outside i (inl (omega arith)) ∙ get_or-set_self e i c 0 (omega arith))
          | inr later ↦ f.inside j (ground arith) (omega arith)
        ];
        outside = λ j p. f.outside j (omega arith) ∙ get_or-set_ne e i j c 0 (λ same. ground arith);
      }

  pad_from_lem :
      (left i j : ℕ)
      → j < left
      → get_or (pad_from left i (length text) (text ++ 0 ∷ rest)) j 0 ≡ get_or text (i + j) b' '
  unfolding pad_from
  pad_from_lem zero i j h = absurd (omega arith)
  pad_from_lem (suc left) i zero h =
      picked text rest i ∙ ap (λ (k : ℕ). get_or text k b' ') (omega arith)
  pad_from_lem (suc left) i (suc j) h =
      pad_from_lem left (i + 1) j (omega arith) ∙ ap (λ (k : ℕ). get_or text k b' ') (omega arith)

  -- The padded name that a search compares is the name that `make_directory` writes.
  pub pad_name_lem :
      IsText text
      → (padded : List ℕ) × (pad_name (text ++ 0 ∷ rest) ≡ some padded)
        × ((j : ℕ) → j < 8 → get_or padded j 0 ≡ padded_byte text j)
  pad_name_lem chars = (
    pad_from 8 0 (length text) (text ++ 0 ∷ rest),
    unfold pad_name in rw (strlen_lem text rest chars) refl,
    λ j h. ground (arith, pad_from_lem 8 0 j, zero-add j),
  )
