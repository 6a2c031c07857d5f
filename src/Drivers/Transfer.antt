-- ===== src/Drivers/Transfer.antt =====
-- The transfers of drivers/disk.c against the sectors of the disk.
use first_kernel.Base.{
  ◌==◌, ℕ_discrete, ◌≢◌, ℕ, zero, suc, ◌+◌, ◌-◌, ◌*◌, ◌/◌, ◌%◌, ◌^◌, ◌<◌, ◌≡◌, refl, ap, ◌∙◌,
  Option, some, true, false, arith, bit_or, bit_and, bit_or-shifted, bit_and_mask,
}
use first_kernel.Ports.{Ports}
use first_kernel.Drivers.Disk.{wait_data, wait_ready, select}
use first_kernel.Drivers.Ata.{
  Mode, idle, sending, receiving, Drive, status, command, drive_out, Ata,
}

-- The upper byte of the address, with the bits that select the disk.
head_byte : (lba : ℕ) → bit_or 0xE0 (bit_and (lba / 2 ^ 24) 0x0F) ≡ 0xE0 + lba / 2 ^ 24 % 2 ^ 4
head_byte lba =
    ap (bit_or 0xE0) (bit_and_mask 4 (lba / 2 ^ 24))
    ∙ bit_or-shifted 4 14 (lba / 2 ^ 24 % 2 ^ 4) (omega arith)

-- A sector's number is put together again from the registers.
pub number :
    (lba : ℕ)
    → lba < 2 ^ 28
    → (0xE0 + lba / 2 ^ 24 % 2 ^ 4) % 16 * 2 ^ 24
        + lba / 2 ^ 16 % 2 ^ 8 * 2 ^ 16
        + lba / 2 ^ 8 % 2 ^ 8 * 2 ^ 8
        + lba % 2 ^ 8
      ≡ lba
number lba h = omega arith

-- The registers while a sector is transferred.
abbrev pub addressed : ℕ → Drive → Drive
addressed lba d = record d {
  drive_head = 0xE0 + lba / 2 ^ 24 % 2 ^ 4;
  sector_count = 1;
  lba_low = lba % 2 ^ 8;
  lba_mid = lba / 2 ^ 8 % 2 ^ 8;
  lba_high = lba / 2 ^ 16 % 2 ^ 8;
}

status-busy : (b : ℕ) (m : Mode) → b ≢ 0 → status b m ≡ 0x80
unfolding status
status-busy zero m ne = absurd (ne refl)
status-busy (suc b) m ne = refl

status-ready : (m : Mode) → bit_and (status 0 m) 0x80 ≡ 0
unfolding status
status-ready idle = refl
status-ready (sending ws) = refl
status-ready (receiving lba ws) = refl

module _ {ports : Ports} (ata : Ata ports) where
  pub select_lem :
      (lba c : ℕ) (s : ports.State)
      → ata.view (select ports lba c s) ≡ command c (addressed lba (ata.view s))
  unfolding select drive_out
  select_lem lba c s =
      ata.writes 0x1F7 c _
      ∙ ap (drive_out 0x1F7 c) (
          ata.writes 0x1F5 (lba / 2 ^ 16 % 2 ^ 8) _
          ∙ ap (drive_out 0x1F5 (lba / 2 ^ 16 % 2 ^ 8)) (
              ata.writes 0x1F4 (lba / 2 ^ 8 % 2 ^ 8) _
              ∙ ap (drive_out 0x1F4 (lba / 2 ^ 8 % 2 ^ 8)) (
                  ata.writes 0x1F3 (lba % 2 ^ 8) _
                  ∙ ap (drive_out 0x1F3 (lba % 2 ^ 8)) (
                      ata.writes 0x1F2 1 _
                      ∙ ap (drive_out 0x1F2 1) (
                          ata.writes 0x1F6 (bit_or 0xE0 (bit_and (lba / 2 ^ 24) 0x0F)) s
                          ∙ ap (λ (v : ℕ). drive_out 0x1F6 v (ata.view s)) (head_byte lba))))))

  -- One read of the status.
  abbrev looked : ports.State → ports.State
  looked s = (ports.port_bytes_in 0x1F7 s).1

  abbrev again_data : ℕ → ports.State → ℕ → Option ports.State
  again_data fuel s flag = elim (flag == 0) [
    | true ↦ wait_data ports fuel (looked s)
    | false ↦ some (looked s)
  ]

  abbrev again_ready : ℕ → ports.State → ℕ → Option ports.State
  again_ready fuel s flag = elim (flag == 0) [
    | true ↦ some (looked s)
    | false ↦ wait_ready ports fuel (looked s)
  ]

  wait_data-done :
      (fuel v : ℕ) (s : ports.State)
      → (ports.port_bytes_in 0x1F7 s).0 ≡ v
      → bit_and v 0x08 ≡ 8
      → wait_data ports (suc fuel) s ≡ some (looked s)
  unfolding wait_data
  wait_data-done fuel v s e b =
      ap (λ (x : ℕ). again_data fuel s (bit_and x 0x08)) e ∙ ap (again_data fuel s) b

  wait_data-on :
      (fuel : ℕ) (s : ports.State)
      → (ports.port_bytes_in 0x1F7 s).0 ≡ 0x80
      → wait_data ports (suc fuel) s ≡ wait_data ports fuel (looked s)
  unfolding wait_data
  wait_data-on fuel s e = ap (λ (x : ℕ). again_data fuel s (bit_and x 0x08)) e

  wait_ready-done :
      (fuel v : ℕ) (s : ports.State)
      → (ports.port_bytes_in 0x1F7 s).0 ≡ v
      → bit_and v 0x80 ≡ 0
      → wait_ready ports (suc fuel) s ≡ some (looked s)
  unfolding wait_ready
  wait_ready-done fuel v s e b =
      ap (λ (x : ℕ). again_ready fuel s (bit_and x 0x80)) e ∙ ap (again_ready fuel s) b

  wait_ready-on :
      (fuel : ℕ) (s : ports.State)
      → (ports.port_bytes_in 0x1F7 s).0 ≡ 0x80
      → wait_ready ports (suc fuel) s ≡ wait_ready ports fuel (looked s)
  unfolding wait_ready
  wait_ready-on fuel s e = ap (λ (x : ℕ). again_ready fuel s (bit_and x 0x80)) e

  looked-busy : (s : ports.State) → (ata.view (looked s)).busy ≡ (ata.view s).busy - 1
  looked-busy s = ap (λ (d : Drive). d.busy) (ata.ticks s)

  looked-mode : (s : ports.State) → (ata.view (looked s)).mode ≡ (ata.view s).mode
  looked-mode s = ap (λ (d : Drive). d.mode) (ata.ticks s)

  -- A wait ends with the disk in the same state, but for what it was busy with.
  abbrev pub Waited : ports.State → Option ports.State → Type 0
  Waited s result =
      (s' : ports.State) × (result ≡ some s') × (ata.view s' ≡ record (ata.view s) { busy = 0 })

  settled :
      (s : ports.State)
      → (ata.view s).busy ≡ 0
      → ata.view (looked s) ≡ record (ata.view s) { busy = 0 }
  settled s e = ata.ticks s ∙ ap (λ (b : ℕ). record (ata.view s) { busy = b }) (omega (arith, e))

  still :
      (s : ports.State) {result result' : Option ports.State}
      → result ≡ result'
      → Waited (looked s) result'
      → Waited s result
  still s e (s', r, seen) =
      (s', e ∙ r, seen ∙ ap (λ (d : Drive). record d { busy = 0 }) (ata.ticks s))

  pub wait_data_lem :
      (fuel : ℕ) (s : ports.State)
      → (ata.view s).busy < fuel
      → status 0 (ata.view s).mode ≡ 0x48
      → Waited s (wait_data ports fuel s)
  wait_data_lem zero s h m = absurd (omega arith)
  wait_data_lem (suc fuel) s h m = elim (ℕ_discrete (ata.view s).busy 0) [
    | yes e ↦ (
      looked s,
      wait_data-done fuel 0x48 s
          (ata.reads_status s ∙ ap (λ (b : ℕ). status b (ata.view s).mode) e ∙ m) refl,
      settled s e,
    )
    | no ne ↦ still s (wait_data-on fuel s (ata.reads_status s ∙ status-busy _ _ ne)) (
        wait_data_lem fuel (looked s) (omega (arith, looked-busy s))
          (ap (status 0) (looked-mode s) ∙ m))
  ]

  pub wait_ready_lem :
      (fuel : ℕ) (s : ports.State) → (ata.view s).busy < fuel → Waited s (wait_ready ports fuel s)
  wait_ready_lem zero s h = absurd (omega arith)
  wait_ready_lem (suc fuel) s h = elim (ℕ_discrete (ata.view s).busy 0) [
    | yes e ↦ (
      looked s,
      wait_ready-done fuel (status 0 (ata.view s).mode) s
          (ata.reads_status s ∙ ap (λ (b : ℕ). status b (ata.view s).mode) e)
          (status-ready (ata.view s).mode),
      settled s e,
    )
    | no ne ↦
        still s (wait_ready-on fuel s (ata.reads_status s ∙ status-busy _ _ ne))
          (wait_ready_lem fuel (looked s) (omega (arith, looked-busy s)))
  ]
