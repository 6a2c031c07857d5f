-- ===== src/Cpu/Translation.antt =====
-- The tables of cpu/paging.c as the processor walks them.
use first_kernel.Base.{
  lt→ltb, dec_lt, sym, ℕ, zero, suc, ◌+◌, ◌*◌, ◌/◌, ◌%◌, ◌^◌, ◌<◌, ◌≤◌, ◌≡◌, refl, ap, ◌∙◌, List,
  Option, none, some, length, get_or, set, store_lem, arith, bit_or, bit_or-shifted, ◌==◌, ltb,
  ◌&&◌, if◌then◌else◌, Bool, false, length-set, get_or-set_self, get_or-set_ne, ℕ_discrete,
}
use first_kernel.Base.Partial.{◌>>=◌}
use first_kernel.Cpu.Paging.{Paging, fill_from, table_entry, init_paging}

-- The physical address of a linear one, if its page is present; `table` is the address of the page
-- table, the only one that the walk finds.
pub translate : ℕ → Paging → ℕ → Option ℕ
translate table p x =
    let directory_entry = get_or p.page_directory (x / 2 ^ 22) 0 in
    let entry = get_or p.first_page_table (x / 2 ^ 12 % 2 ^ 10) 0 in
    if directory_entry % 2 == 1 && directory_entry / 2 ^ 12 * 2 ^ 12 == table && entry % 2 == 1
    then some (entry / 2 ^ 12 * 2 ^ 12 + x % 2 ^ 12)
    else none

-- What the loop writes, and that it leaves the rest.
record Filled (value : ℕ → ℕ) (left i : ℕ) (array : List ℕ) (result : Option (List ℕ))
    : Type 0 where
  array' : List ℕ
  returns : result ≡ some array'
  size : length array' ≡ length array
  inside : (j : ℕ) → i ≤ j → j < i + left → get_or array' j 0 ≡ value j
  below : (j : ℕ) → j < i → get_or array' j 0 ≡ get_or array j 0

fill_from_lem :
    (value : ℕ → ℕ) (left i : ℕ) (array : List ℕ)
    → i + left ≤ length array
    → Filled value left i array (fill_from value left i array)
unfolding fill_from
fill_from_lem value zero i array h = record {
  array' = array;
  returns = refl;
  size = refl;
  inside = λ j p q. absurd (omega arith);
  below = λ j p. refl;
}
fill_from_lem value (suc left) i array h =
    let rest =
      fill_from_lem value left (i + 1) (set array i (value i))
        (omega (arith, length-set array i (value i), h)) in
    record {
      array' = rest.array';
      returns =
          ap (λ (o : Option (List ℕ)). do xs ← o; fill_from value left (i + 1) xs)
            (store_lem array i (value i) (omega arith))
          ∙ rest.returns;
      size = rest.size ∙ length-set array i (value i);
      inside = λ j p q. elim (ℕ_discrete j i) [
        | yes e ↦
            ap (λ (k : ℕ). get_or rest.array' k 0) e
            ∙ rest.below i (omega arith)
            ∙ get_or-set_self array i (value i) 0 (omega arith)
            ∙ ap value (sym e)
        | no ne ↦ rest.inside j (omega (arith, ne)) (omega arith)
      ];
      below = λ j p.
          rest.below j (omega arith)
          ∙ get_or-set_ne array i j (value i) 0 (λ e. absurd (omega (arith, e)));
    }

present : (n : ℕ) → bit_or (n * 4096) 3 ≡ n * 4096 + 3
present n = bit_or-shifted 12 n 3 (omega arith)

module _ (page : ℕ) (p' : Paging) (first : get_or p'.page_directory 0 0 ≡ page * 4096 + 3)
    (others : (j : ℕ) → 1 ≤ j → j < 1024 → get_or p'.page_directory j 0 ≡ 0)
    (pages : (j : ℕ) → j < 1024 → get_or p'.first_page_table j 0 ≡ j * 4096 + 3) where
  translate-low : (x : ℕ) → x < 2 ^ 22 → translate (page * 4096) p' x ≡ some x
  unfolding translate
  translate-low x h =
      let top : x / 2 ^ 22 ≡ 0 = omega arith in
      let small : x / 2 ^ 12 % 2 ^ 10 < 1024 = omega arith in
      ground (
        arith,
        ap (λ (k : ℕ). get_or p'.page_directory k 0) top,
        first,
        pages (x / 2 ^ 12 % 2 ^ 10) small,
      )

  translate-high : (x : ℕ) → 2 ^ 22 ≤ x → x < 2 ^ 32 → translate (page * 4096) p' x ≡ none
  unfolding translate
  translate-high x l h = ground (arith, others (x / 2 ^ 22))

not_below : {x n : ℕ} → ¬ (x < n) → false ≡ ltb x n
not_below {x} {n} high = ground (arith, high)

-- With both arrays of 1024 entries, whatever they hold, and the page table at a page's start,
-- `init_paging` faults nowhere, and the tables translate each address of the first four MiB to itself
-- and no other.
pub init_paging-translate :
    (page : ℕ) (p : Paging)
    → length p.page_directory ≡ 1024
    → length p.first_page_table ≡ 1024
    → (p' : Paging) × (init_paging (page * 4096) p ≡ some p')
      × ((x : ℕ)
          → x < 2 ^ 32
          → translate (page * 4096) p' x ≡ (if ltb x (2 ^ 22) then some x else none))
unfolding init_paging
init_paging-translate page p d t =
    let pages = fill_from_lem table_entry 1024 0 p.first_page_table (omega (arith, t)) in
    let entry = bit_or (page * 4096) 3 in
    let directory = set p.page_directory 0 entry in
    let others =
      fill_from_lem (λ i. 0) 1023 1 directory
        (omega (arith, length-set p.page_directory 0 entry, d)) in
    let p' : Paging = record { page_directory = others.array'; first_page_table = pages.array' } in
    let first : get_or others.array' 0 0 ≡ page * 4096 + 3 =
      others.below 0 (omega arith)
      ∙ get_or-set_self p.page_directory 0 entry 0 (omega (arith, d))
      ∙ present page in
    (
      p',
      rw (pages.returns, store_lem p.page_directory 0 entry (omega (arith, d)), others.returns)
          refl,
      λ x h. elim (dec_lt x (2 ^ 22)) [
        | yes low ↦
            translate-low page p' first (λ j p q. others.inside j p (omega arith))
              (λ j q. pages.inside j (omega arith) (omega arith) ∙ present j) x low
            ∙ sym (ap (λ (b : Bool). if b then some x else none) (lt→ltb x (2 ^ 22) low))
        | no high ↦
            translate-high page p' first (λ j p q. others.inside j p (omega arith))
              (λ j q. pages.inside j (omega arith) (omega arith) ∙ present j) x
              (omega (arith, high)) h
            ∙ ap (λ (b : Bool). if b then some x else none) (not_below high)
      ],
    )
