-- ===== src/Drivers/Bus.antt =====
-- The configuration addresses of drivers/pci.c and the search of drivers/e1000.c on a PCI bus.
use first_kernel.Base.{
  Bool, true, false, ℕ, zero, suc, ◌+◌, ◌*◌, ◌/◌, ◌^◌, ◌<◌, ◌≤◌, ◌≡◌, ◌≢◌, refl, ap, ap₂, sym, ◌∙◌,
  Option, Bool, true, false, none, some, bit_or, arith, bit_or-shifted, bit_or_low, bit_and_aligned,
  ℕ_discrete, ◌==◌, ==_ne,
}
use first_kernel.Ports.{Ports}
use first_kernel.Drivers.Pci.{pci_address, pci_read_dword}
use first_kernel.Drivers.NetworkCard.{search_slots}

-- The fields of a configuration address do not overlap.
pub pci_address_lem :
    (bus slot func offset : ℕ)
    → bus < 2 ^ 8
    → slot < 2 ^ 5
    → func < 2 ^ 3
    → offset < 2 ^ 8
    → pci_address bus slot func offset
      ≡ 2 ^ 31 + bus * 2 ^ 16 + slot * 2 ^ 11 + func * 2 ^ 8 + offset / 2 ^ 2 * 2 ^ 2
unfolding pci_address
pci_address_lem bus slot func offset hb hs hf ho =
    ap (λ (a : ℕ). bit_or a 0x80000000)
      (ap₂ bit_or
          (ap (λ (a : ℕ). bit_or a (func * 2 ^ 8))
              (bit_or-shifted 16 bus (slot * 2 ^ 11) (omega arith) ∙ as_slots)
            ∙ bit_or-shifted 11 (bus * 2 ^ 5 + slot) (func * 2 ^ 8) (omega arith)
            ∙ as_functions)
          (bit_and_aligned offset ho)
        ∙ bit_or-shifted 8 (bus * 2 ^ 8 + slot * 2 ^ 3 + func) (offset / 2 ^ 2 * 2 ^ 2)
            (omega arith))
    ∙ bit_or_low 31 1 ((bus * 2 ^ 8 + slot * 2 ^ 3 + func) * 2 ^ 8 + offset / 2 ^ 2 * 2 ^ 2)
        (omega arith)
    ∙ whole_address
  where
    as_slots : bus * 2 ^ 16 + slot * 2 ^ 11 ≡ (bus * 2 ^ 5 + slot) * 2 ^ 11
    as_slots = omega arith

    as_functions :
        (bus * 2 ^ 5 + slot) * 2 ^ 11 + func * 2 ^ 8 ≡ (bus * 2 ^ 8 + slot * 2 ^ 3 + func) * 2 ^ 8
    as_functions = omega arith

    whole_address :
        1 * 2 ^ 31 + ((bus * 2 ^ 8 + slot * 2 ^ 3 + func) * 2 ^ 8 + offset / 2 ^ 2 * 2 ^ 2)
        ≡ 2 ^ 31 + bus * 2 ^ 16 + slot * 2 ^ 11 + func * 2 ^ 8 + offset / 2 ^ 2 * 2 ^ 2
    whole_address = omega arith

-- The bus behind the two ports: the configuration registers of four bytes, by bus, slot, function and
-- number, which reading them does not change.
pub record PciBus (ports : Ports) : Type 0 where
  pub config : ports.State → ℕ → ℕ → ℕ → ℕ → ℕ
  pub selects : (a : ℕ) (s : ports.State) → config (ports.port_dword_out 0xCF8 a s) ≡ config s
  pub keeps : (s : ports.State) → config (ports.port_dword_in 0xCFC s).1 ≡ config s
  pub reads :
      (bus slot func register : ℕ) (s : ports.State)
      → bus < 2 ^ 8
      → slot < 2 ^ 5
      → func < 2 ^ 3
      → register < 2 ^ 6
      → (ports.port_dword_in 0xCFC (
          ports.port_dword_out 0xCF8
            (2 ^ 31 + bus * 2 ^ 16 + slot * 2 ^ 11 + func * 2 ^ 8 + register * 2 ^ 2)
            s)).0
        ≡ config s bus slot func register

module _ {ports : Ports} (pci : PciBus ports) where
  read_lem :
      (bus slot : ℕ) (s : ports.State)
      → bus < 2 ^ 8
      → slot < 2 ^ 5
      → (pci_read_dword ports bus slot 0 0 s).0 ≡ pci.config s bus slot 0 0
  unfolding pci_read_dword
  read_lem bus slot s hb hs =
      ap (λ (a : ℕ). (ports.port_dword_in 0xCFC (ports.port_dword_out 0xCF8 a s)).0)
        (pci_address_lem bus slot 0 0 hb hs (omega arith) (omega arith))
      ∙ pci.reads bus slot 0 0 s hb hs (omega arith) (omega arith)

  read_keeps :
      (bus slot : ℕ) (s : ports.State)
      → pci.config (pci_read_dword ports bus slot 0 0 s).1 ≡ pci.config s
  unfolding pci_read_dword
  read_keeps bus slot s =
      pci.keeps (ports.port_dword_out 0xCF8 (pci_address bus slot 0 0) s)
      ∙ pci.selects (pci_address bus slot 0 0) s

  -- Device 0x100E of vendor 0x8086.
  abbrev pub IsCard : ports.State → ℕ → ℕ → Type 0
  IsCard s bus slot = pci.config s bus slot 0 0 ≡ 0x100E8086

  -- The search of one bus from `slot` on, with `left` slots to go.
  pub data SlotResult (left bus slot : ℕ) (s : ports.State) (r : Option (ℕ × ℕ) × ports.State)
      : Type 0 where
    here :
        (k : ℕ)
        → r.0 ≡ some (bus, k)
        → slot ≤ k
        → k < slot + left
        → IsCard s bus k
        → ((j : ℕ) → slot ≤ j → j < k → ¬ IsCard s bus j)
        → pci.config r.1 ≡ pci.config s
        → SlotResult left bus slot s r
    nowhere :
        r.0 ≡ none
        → ((j : ℕ) → slot ≤ j → j < slot + left → ¬ IsCard s bus j)
        → pci.config r.1 ≡ pci.config s
        → SlotResult left bus slot s r

  abbrev at_slot : ℕ → ℕ → ℕ → ports.State → Bool → Option (ℕ × ℕ) × ports.State
  at_slot left bus slot s found = elim found [
    | true ↦ (some (bus, slot), (pci_read_dword ports bus slot 0 0 s).1)
    | false ↦ search_slots ports left bus (slot + 1) (pci_read_dword ports bus slot 0 0 s).1
  ]

  search_slots-found :
      (left bus slot : ℕ) (s : ports.State)
      → (pci_read_dword ports bus slot 0 0 s).0 ≡ 0x100E8086
      → search_slots ports (suc left) bus slot s
        ≡ (some (bus, slot), (pci_read_dword ports bus slot 0 0 s).1)
  unfolding search_slots
  search_slots-found left bus slot s e = ap (λ (v : ℕ). at_slot left bus slot s (v == 0x100E8086)) e

  search_slots-on :
      (left bus slot : ℕ) (s : ports.State)
      → (pci_read_dword ports bus slot 0 0 s).0 ≢ 0x100E8086
      → search_slots ports (suc left) bus slot s
        ≡ search_slots ports left bus (slot + 1) (pci_read_dword ports bus slot 0 0 s).1
  unfolding search_slots
  search_slots-on left bus slot s ne =
      ap (at_slot left bus slot s) (==_ne (pci_read_dword ports bus slot 0 0 s).0 0x100E8086 ne)

  pub search_slots_lem :
      (left bus slot : ℕ) (s : ports.State)
      → bus < 2 ^ 8
      → slot + left ≤ 32
      → SlotResult left bus slot s (search_slots ports left bus slot s)
  search_slots_lem zero bus slot s hb hs =
      unfold search_slots in nowhere refl (λ j p q. absurd (omega arith)) refl
  search_slots_lem (suc left) bus slot s hb hs =
      let value = read_lem bus slot s hb (omega arith) in
      let s1 = (pci_read_dword ports bus slot 0 0 s).1 in
      let kept = read_keeps bus slot s in
      elim (ℕ_discrete (pci_read_dword ports bus slot 0 0 s).0 0x100E8086) [
        | yes e ↦ rw (search_slots-found left bus slot s e) (
            here slot refl (omega arith) (omega arith) (sym value ∙ e)
              (λ j p q. absurd (omega arith)) kept)
        | no ne ↦ rw (search_slots-on left bus slot s ne) (
            later (λ c. ne (value ∙ c)) kept
              (search_slots_lem left bus (slot + 1) s1 hb (omega arith)))
      ]
    where
      earlier :
          {s1 : ports.State}
          → pci.config s1 ≡ pci.config s
          → ¬ IsCard s bus slot
          → (j : ℕ) → slot ≤ j
          → (slot + 1 ≤ j → ¬ IsCard s1 bus j)
          → ¬ IsCard s bus j
      earlier same other j l more c = elim (ℕ_discrete j slot) [
        | yes e ↦ other (ap (λ (k : ℕ). pci.config s bus k 0 0) (sym e) ∙ c)
        | no ne ↦ more (omega (arith, ne)) (ap (λ (f : ℕ → ℕ → ℕ → ℕ → ℕ). f bus j 0 0) same ∙ c)
      ]

      later :
          {s1 : ports.State} {r : Option (ℕ × ℕ) × ports.State}
          → ¬ IsCard s bus slot
          → pci.config s1 ≡ pci.config s
          → SlotResult left bus (slot + 1) s1 r
          → SlotResult (suc left) bus slot s r
      later other same (here k e p q card before kept) =
          here k e (omega arith) (omega arith)
            (ap (λ (f : ℕ → ℕ → ℕ → ℕ → ℕ). f bus k 0 0) (sym same) ∙ card)
            (λ j l h c. earlier same other j l (λ more c'. before j more h c') c) (kept ∙ same)
      later other same (nowhere e before kept) =
          nowhere e
            (λ j l h c. earlier same other j l (λ more c'. before j more (omega arith) c') c)
            (kept ∙ same)
