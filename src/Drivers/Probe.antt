-- ===== src/Drivers/Probe.antt =====
-- The search of drivers/e1000.c over all buses.
use first_kernel.Base.{
  ℕ, zero, suc, ◌+◌, ◌<◌, ◌≤◌, ◌≡◌, refl, ap, sym, ◌∙◌, Option, none, some, arith, ℕ_discrete,
}
use first_kernel.Base.Text.{codes}
use first_kernel.Ports.{Ports, Io, tell}
use first_kernel.Drivers.NetworkCard.{Card, search_slots, search_buses, start_card, init_e1000}
use first_kernel.Drivers.Bus.{PciBus, IsCard, SlotResult, here, nowhere, search_slots_lem}

module _ {ports : Ports} (pci : PciBus ports) where
  -- The first card in the order of buses and slots from `bus` on, or none.
  pub data BusResult (left bus : ℕ) (s : ports.State) (r : Option (ℕ × ℕ) × ports.State)
      : Type 0 where
    at :
        (b k : ℕ)
        → r.0 ≡ some (b, k)
        → bus ≤ b
        → b < bus + left
        → k < 32
        → IsCard pci s b k
        → ((j : ℕ) → j < k → ¬ IsCard pci s b j)
        → ((a j : ℕ) → bus ≤ a → a < b → j < 32 → ¬ IsCard pci s a j)
        → pci.config r.1 ≡ pci.config s
        → BusResult left bus s r
    absent :
        r.0 ≡ none
        → ((a j : ℕ) → bus ≤ a → a < bus + left → j < 32 → ¬ IsCard pci s a j)
        → pci.config r.1 ≡ pci.config s
        → BusResult left bus s r

  -- What `search_buses` does with what it found on a bus.
  abbrev at_bus : ℕ → ℕ → ports.State → Option (ℕ × ℕ) → Option (ℕ × ℕ) × ports.State
  at_bus left bus s' found = elim found [
    | some target ↦ (some target, s')
    | none ↦ search_buses ports left (bus + 1) s'
  ]

  search_buses_step :
      (left bus : ℕ) (s : ports.State) {found : Option (ℕ × ℕ)}
      → (search_slots ports 32 bus 0 s).0 ≡ found
      → search_buses ports (suc left) bus s
        ≡ at_bus left bus (search_slots ports 32 bus 0 s).1 found
  unfolding search_buses
  search_buses_step left bus s e = ap (at_bus left bus (search_slots ports 32 bus 0 s).1) e

  pub search_buses_lem :
      (left bus : ℕ) (s : ports.State)
      → bus + left ≤ 256
      → BusResult left bus s (search_buses ports left bus s)
  search_buses_lem zero bus s h =
      unfold search_buses in absent refl (λ a j p q. absurd (omega arith)) refl
  search_buses_lem (suc left) bus s h =
      on_bus (search_slots_lem pci 32 bus 0 s (omega arith) (omega arith))
        (search_buses_lem left (bus + 1) (search_slots ports 32 bus 0 s).1 (omega arith))
    where
      earlier :
          {s1 : ports.State}
          → ((j : ℕ) → 0 ≤ j → j < 0 + 32 → ¬ IsCard pci s bus j)
          → pci.config s1 ≡ pci.config s
          → (a j : ℕ) → bus ≤ a
          → j < 32
          → (bus + 1 ≤ a → ¬ IsCard pci s1 a j)
          → ¬ IsCard pci s a j
      earlier none_here same a j l m more c = elim (ℕ_discrete a bus) [
        | yes e ↦
            none_here j (omega arith) (omega (arith, m))
              (ap (λ (k : ℕ). pci.config s k j 0 0) (sym e) ∙ c)
        | no ne ↦ more (omega (arith, ne)) (ap (λ (f : ℕ → ℕ → ℕ → ℕ → ℕ). f a j 0 0) same ∙ c)
      ]

      later :
          {s1 : ports.State} {r : Option (ℕ × ℕ) × ports.State}
          → ((j : ℕ) → 0 ≤ j → j < 0 + 32 → ¬ IsCard pci s bus j)
          → pci.config s1 ≡ pci.config s
          → BusResult left (bus + 1) s1 r
          → BusResult (suc left) bus s r
      later none_here same (at b k e p q r card first before kept) =
          at b k e (omega arith) (omega arith) r
            (ap (λ (f : ℕ → ℕ → ℕ → ℕ → ℕ). f b k 0 0) (sym same) ∙ card)
            (λ j l c. first j l (ap (λ (f : ℕ → ℕ → ℕ → ℕ → ℕ). f b j 0 0) same ∙ c))
            (λ a j l l' m c. earlier none_here same a j l m (λ more c'. before a j more l' m c') c)
            (kept ∙ same)
      later none_here same (absent e before kept) =
          absent e
            (λ a j l l' m c.
              earlier none_here same a j l m (λ more c'. before a j more (omega arith) m c') c)
            (kept ∙ same)

      on_bus :
          SlotResult pci 32 bus 0 s (search_slots ports 32 bus 0 s)
          → (let s1 = (search_slots ports 32 bus 0 s).1 in
              BusResult left (bus + 1) s1 (search_buses ports left (bus + 1) s1))
          → BusResult (suc left) bus s (search_buses ports (suc left) bus s)
      on_bus (here k e p q card before kept) rest = rw (search_buses_step left bus s e) (
          at bus k refl (omega arith) (omega arith) (omega arith) card
            (λ j l. before j (omega arith) l) (λ a j l l'. absurd (omega arith)) kept)
      on_bus (nowhere e before kept) rest =
          rw (search_buses_step left bus s e) (later before kept rest)

  abbrev searching : Io ports → Io ports
  searching io =
      tell (codes "searching card intel pro/1000 (E1000)... \n")
        (tell (codes "--- starting network ---\n") io)

  -- The first card in the order of buses and slots is started; without one only a message is printed.
  -- The search itself leaves the configuration registers as they were.
  pub data Started (ring buffers : ℕ) (c : Card) (io : Io ports) (r : Option (Card × Io ports))
      : Type 0 where
    starts :
        (b k : ℕ) (devices : ports.State)
        → b < 256
        → k < 32
        → IsCard pci io.devices b k
        → ((a j : ℕ) → a < b → j < 32 → ¬ IsCard pci io.devices a j)
        → ((j : ℕ) → j < k → ¬ IsCard pci io.devices b j)
        → pci.config devices ≡ pci.config io.devices
        → r ≡ start_card ports ring buffers (b, k) c (record (searching io) { devices = devices })
        → Started ring buffers c io r
    no_card :
        (devices : ports.State)
        → ((a j : ℕ) → a < 256 → j < 32 → ¬ IsCard pci io.devices a j)
        → pci.config devices ≡ pci.config io.devices
        → r
          ≡ some (
            c,
            tell
                (codes "Critical error: hardware compatible not found\n")
                (record (searching io) { devices = devices }),
          )
        → Started ring buffers c io r

  -- What `init_e1000` does with the result of the search.
  abbrev with_found :
      ℕ → ℕ → Card → Io ports → ports.State → Option (ℕ × ℕ) → Option (Card × Io ports)
  with_found ring buffers c io devices found = elim found [
    | none ↦ some (
      c,
      tell (codes "Critical error: hardware compatible not found\n")
          (record (searching io) { devices = devices }),
    )
    | some target ↦
        start_card ports ring buffers target c (record (searching io) { devices = devices })
  ]

  -- On any machine with a PCI bus, `init_e1000` starts the first E1000 card in the order of buses and
  -- slots, of 256 buses of 32 slots, and where there is none it prints a message and changes neither
  -- the driver's state nor the registers.
  pub init_e1000-Started :
      (ring buffers : ℕ) (c : Card) (io : Io ports)
      → Started ring buffers c io (init_e1000 ports ring buffers c io)
  unfolding init_e1000
  init_e1000-Started ring buffers c io = outcome (search_buses_lem 256 0 io.devices (omega arith))
    where
      devices : ports.State
      devices = (search_buses ports 256 0 io.devices).1

      outcome :
          BusResult 256 0 io.devices (search_buses ports 256 0 io.devices)
          → Started ring buffers c io (init_e1000 ports ring buffers c io)
      outcome (at b k e p q r card first before kept) =
          starts b k devices q r card (λ a j l m. before a j (omega arith) l m) first kept
            (ap (with_found ring buffers c io devices) e)
      outcome (absent e before kept) =
          no_card devices (λ a j l m. before a j (omega arith) l m) kept
            (ap (with_found ring buffers c io devices) e)
