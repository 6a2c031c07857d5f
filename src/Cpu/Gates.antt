-- ===== src/Cpu/Gates.antt =====
-- The table of gates that `isr_install` of cpu/isr.c fills.
use first_kernel.Base.{
  ℕ, ◌^◌, ◌<◌, ◌≡◌, ◌≢◌, refl, ap, ◌∙◌, sym, List, [], ◌∷◌, Option, some, length, arith, get_or,
  set, store_lem, length-set, get_or-set_self, get_or-set_ne, All, Bool, true, not, ◌&&◌, ◌==◌,
}
use first_kernel.Base.Partial.{◌>>=◌}
use first_kernel.Ports.{Ports}
use first_kernel.Cpu.Interrupts.{
  IdtEntry, Idt, EntryPoints, idt_gate, set_idt_gate, set_gates, gates, set_idt, isr_install,
  pic_remap,
}
use first_kernel.Cpu.Segments.{gate_target, idt_gate_lem}

-- A vector whose gate is among those to be set.
abbrev IsVector : ℕ × ℕ → Type 0
IsVector g = (g.0 < 256) × (g.1 < 2 ^ 32)

-- No later gate in the list has the same vector.
abbrev Fresh : ℕ → List (ℕ × ℕ) → Type 0
Fresh n gs = All (λ (g : ℕ × ℕ). n ≢ g.0) gs

abbrev Distinct : List (ℕ × ℕ) → Type 0
Distinct [] = Unit
Distinct (g ∷ gs) = Fresh g.0 gs × Distinct gs

abbrev is_fresh : ℕ → List (ℕ × ℕ) → Bool
is_fresh n [] = true
is_fresh n (g ∷ gs) = not (n == g.0) && is_fresh n gs

is_fresh-Fresh : (n : ℕ) (gs : List (ℕ × ℕ)) → is_fresh n gs ≡ true → Fresh n gs
is_fresh-Fresh n [] h = tt
is_fresh-Fresh n (g ∷ gs) h = (ground arith, is_fresh-Fresh n gs (ground arith))

abbrev are_distinct : List (ℕ × ℕ) → Bool
are_distinct [] = true
are_distinct (g ∷ gs) = is_fresh g.0 gs && are_distinct gs

are_distinct-Distinct : (gs : List (ℕ × ℕ)) → are_distinct gs ≡ true → Distinct gs
are_distinct-Distinct [] h = tt
are_distinct-Distinct (g ∷ gs) h =
    (is_fresh-Fresh g.0 gs (ground arith), are_distinct-Distinct gs (ground arith))

vectors :
    (gs : List (ℕ × ℕ))
    → All (λ (g : ℕ × ℕ). g.0 < 256) gs
    → All (λ (g : ℕ × ℕ). g.1 < 2 ^ 32) gs
    → All IsVector gs
vectors [] h k = tt
vectors (g ∷ gs) h k = ((h.0, k.0), vectors gs h.1 k.1)

abbrev no_gate : IdtEntry
no_gate = record { base_lo = 0; sel = 0; always0 = 0; flags = 0; base_hi = 0 }

-- The gate of each vector leads to its handler, as an interrupt gate of ring 0, present.
abbrev pub Leads : List IdtEntry → ℕ × ℕ → Type 0
Leads table g =
    let e = get_or table g.0 no_gate in (gate_target e ≡ g.1) × (e.sel ≡ 0x08) × (e.flags ≡ 0x8E)

-- What the calls of `set_idt_gate` do to a table of 256 entries.
record Set (gs : List (ℕ × ℕ)) (t : Idt) (result : Option Idt) : Type 0 where
  after : Idt
  returns : result ≡ some after
  size : length after.idt ≡ length t.idt
  leads : All (Leads after.idt) gs
  others : (n : ℕ) → Fresh n gs → get_or after.idt n no_gate ≡ get_or t.idt n no_gate

set_gates_lem :
    (gs : List (ℕ × ℕ)) (t : Idt)
    → length t.idt ≡ 256
    → All IsVector gs
    → Distinct gs
    → Set gs t (set_gates gs t)
unfolding set_gates set_idt_gate idt_gate
set_gates_lem [] t size v d = record {
  after = t;
  returns = refl;
  size = refl;
  leads = tt;
  others = λ n f. refl;
}
set_gates_lem ((n, handler) ∷ gs) t size v d =
    let table = set t.idt n (idt_gate handler) in
    let t' : Idt = record t { idt = table } in
    let rest = set_gates_lem gs t' (length-set t.idt n (idt_gate handler) ∙ size) v.1 d.1 in
    let here : get_or rest.after.idt n no_gate ≡ idt_gate handler =
      rest.others n d.0
      ∙ get_or-set_self t.idt n (idt_gate handler) no_gate (omega (arith, size, v.0.0)) in
    record {
      after = rest.after;
      returns =
          ap
            (λ (o : Option (List IdtEntry)). do
              t' ← (do idt ← o; some (record t { idt = idt }))
              set_gates gs t')
            (store_lem t.idt n (idt_gate handler) (omega (arith, size, v.0.0)))
          ∙ rest.returns;
      size = rest.size ∙ length-set t.idt n (idt_gate handler);
      leads = (
        (
          ap gate_target here ∙ unfold idt_gate in idt_gate_lem handler v.0.1,
          ap (λ (e : IdtEntry). e.sel) here,
          ap (λ (e : IdtEntry). e.flags) here,
        ),
        rest.leads,
      );
      others = λ k f.
          rest.others k f.1 ∙ get_or-set_ne t.idt n k (idt_gate handler) no_gate (λ e. f.0 (sym e));
    }

module _ (ports : Ports) where
  -- With a table of 256 entries, whatever they hold, and entry points of 32 bits, `isr_install` faults
  -- nowhere, and each of the nine vectors leads to its entry point.
  pub isr_install_lem :
      (table : ℕ) (e : EntryPoints) (t : Idt) (s : ports.State)
      → length t.idt ≡ 256
      → All (λ (g : ℕ × ℕ). g.1 < 2 ^ 32) (gates e)
      → (t' : Idt) × (isr_install ports table e t s ≡ some (t', pic_remap ports s))
        × All (Leads t'.idt) (gates e)
  unfolding isr_install
  isr_install_lem table e t s size small =
      let rest =
        set_gates_lem (gates e) t size
          (vectors (gates e)
            (
              omega arith,
              (
                omega arith,
                (
                  omega arith,
                  (
                    omega arith,
                    (omega arith, (omega arith, (omega arith, (omega arith, (omega arith, tt))))),
                  ),
                ),
              ),
            )
            small)
          (are_distinct-Distinct (gates e) refl) in
      (
        set_idt table rest.after,
        ap (λ (o : Option Idt). do t' ← o; some (set_idt table t', pic_remap ports s)) rest.returns,
        rest.leads,
      )
