-- ===== src/Fat16/Write.antt =====
-- The loop of `write_file` that fills in a name.
use first_kernel.Base.{
  ℕ, zero, suc, ◌+◌, ◌-◌, ◌≤◌, ◌<◌, ◌≡◌, refl, ap, ◌∙◌, List, Option, some, Bool-cases, ◌==◌,
  ==_iff, ltb, if◌then◌else◌, length, get_or, set, arith, inl, inr, ◌⊎◌, length-set,
  get_or-set_self, get_or-set_ne, get_elem?-eq-get_or,
}
use first_kernel.Fat16.Layout.{DirEntry, set_name, set_ext}
use first_kernel.Fat16.Files.{fill_name}

-- The loop that fills name and extension writes `filename` from byte `i` on.
pub record Filled (left i : ℕ) (filename : List ℕ) (e e' : DirEntry) : Type 0 where
  pub same_length : length e' ≡ length e
  pub inside : (j : ℕ) → i ≤ j → j < i + left → get_or e' j 0 ≡ get_or filename j 0
  pub outside : (j : ℕ) → (j < i) ⊎ (i + left ≤ j) → get_or e' j 0 ≡ get_or e j 0

-- Name and extension lie one behind the other.
fill_slot :
    (i c : ℕ) (e : DirEntry) → (if ltb i 8 then set_name e i c else set_ext e (i - 8) c) ≡ set e i c
fill_slot i c e = elim (Bool-cases (ltb i 8)) [
  | inl in_name ↦ rw in_name
  | inr in_ext ↦ rw in_ext (ap (λ k. set e k c) (ground arith))
]

fill_name-suc :
    (left i : ℕ) (filename : List ℕ) (e : DirEntry)
    → i < length filename
    → fill_name (suc left) i filename e
      ≡ fill_name left (i + 1) filename (set e i (get_or filename i 0))
unfolding fill_name
fill_name-suc left i filename e h =
    rw (get_elem?-eq-get_or filename i 0 h)
      (ap (fill_name left (i + 1) filename) (fill_slot i (get_or filename i 0) e))

pub fill_name_lem :
    (left i : ℕ) (filename : List ℕ) (e : DirEntry)
    → i + left ≤ length filename
    → i + left ≤ length e
    → (e' : DirEntry) × (fill_name left i filename e ≡ some e') × Filled left i filename e e'
fill_name_lem zero i filename e h k = (
  e,
  unfold fill_name in refl,
  record { same_length = refl; inside = λ j p q. absurd (omega arith); outside = λ j p. refl },
)
fill_name_lem (suc left) i filename e h k = rw (fill_name-suc left i filename e (omega arith)) (
    extend (
      fill_name_lem left (i + 1) filename (set e i (get_or filename i 0)) (omega arith)
        (omega (arith, length-set e i (get_or filename i 0)))))
  where
    c : ℕ
    c = get_or filename i 0

    extend :
        {result : Option DirEntry}
        → ((e' : DirEntry) × (result ≡ some e') × Filled left (i + 1) filename (set e i c) e')
        → (e' : DirEntry) × (result ≡ some e') × Filled (suc left) i filename e e'
    extend (e', r, f) = (
      e',
      r,
      record {
        same_length = f.same_length ∙ length-set e i c;
        inside = λ j p q. elim (Bool-cases (i == j)) [
          | inl here ↦
              rw (← (==_iff i j).0 here)
                (f.outside i (inl (omega arith)) ∙ get_or-set_self e i c 0 (omega arith))
          | inr later ↦ f.inside j (ground arith) (omega arith)
        ];
        outside = λ j p. f.outside j (omega arith) ∙ get_or-set_ne e i j c 0 (λ same. ground arith);
      },
    )
