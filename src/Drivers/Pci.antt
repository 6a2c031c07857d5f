-- ===== src/Drivers/Pci.antt =====
-- drivers/pci.c, and the two functions of drivers/e1000.c on the configuration space of PCI.
use first_kernel.Base.{
  ℕ, zero, suc, ◌+◌, ◌*◌, ◌/◌, ◌^◌, Option, some, bit_and, bit_or, replicate, ◌==◌, true, false,
}
use first_kernel.Base.Partial.{◌>>=◌}
use first_kernel.Base.Text.{codes}
use first_kernel.CString.{hex_to_string}
use first_kernel.Ports.{Ports, Io, tell, tell_text}

-- The address of a configuration register, from four `unsigned char`s.
unfoldable pub pci_address : ℕ → ℕ → ℕ → ℕ → ℕ
pci_address bus slot func offset =
    bit_or
      (bit_or (bit_or (bit_or (bus * 2 ^ 16) (slot * 2 ^ 11)) (func * 2 ^ 8)) (bit_and offset 0xFC))
      0x80000000

module _ (ports : Ports) where
  unfoldable pub pci_read_dword : ℕ → ℕ → ℕ → ℕ → ports.State → ℕ × ports.State
  pci_read_dword bus slot func offset s =
      ports.port_dword_in 0xCFC (ports.port_dword_out 0xCF8 (pci_address bus slot func offset) s)

  unfoldable pub pci_write_dword : ℕ → ℕ → ℕ → ℕ → ℕ → ports.State → ports.State
  pci_write_dword bus slot func offset value s =
      ports.port_dword_out 0xCFC value
        (ports.port_dword_out 0xCF8 (pci_address bus slot func offset) s)

  unfoldable pub pci_read_word : ℕ → ℕ → ℕ → ℕ → ports.State → ℕ × ports.State
  pci_read_word bus slot func offset s =
      let s1 = ports.port_dword_out 0xCF8 (pci_address bus slot func offset) s in
      let (dword, s2) = ports.port_dword_in 0xCFC s1 in
      (bit_and (dword / 2 ^ (bit_and offset 2 * 8)) 0xFFFF, s2)

  -- What is printed of a device that is there.
  unfoldable pub report_device : ℕ → ℕ → Io ports → Option (Io ports)
  report_device vendor_id device_id io = do
    v_str ← hex_to_string vendor_id (replicate 11 0)
    d_str ← hex_to_string device_id (replicate 11 0)
    let io1 = tell_text v_str (tell (codes "device detected! seller: ") io)
    let io2 = tell_text d_str (tell (codes " Device: ") io1)
    some (tell (codes "\n") io2)

  -- The loop of `check_all_pci_buses` at `device`, with `left` rounds to go.
  unfoldable pub check_from : ℕ → ℕ → Io ports → Option (Io ports)
  check_from zero device io = some io
  check_from (suc left) device io =
      let (vendor_id, s1) = pci_read_word 0 device 0 0 io.devices in
      elim (vendor_id == 0xFFFF) [
        | true ↦ check_from left (device + 1) (record io { devices = s1 })
        | false ↦ do
          let (device_id, s2) = pci_read_word 0 device 0 2 s1
          io' ← report_device vendor_id device_id (record io { devices = s2 })
          check_from left (device + 1) io'
      ]

  unfoldable pub check_all_pci_buses : Io ports → Option (Io ports)
  check_all_pci_buses io = check_from 32 0 (tell (codes "Scanning Bus PCI...\n") io)
