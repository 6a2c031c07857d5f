-- ===== src/Drivers/NetworkCard.antt =====
-- drivers/e1000.c: the search of the network card, and its registers in memory.
use first_kernel.Base.{
  ℕ, zero, suc, ◌+◌, ◌*◌, ◌/◌, ◌%◌, ◌^◌, List, [], ◌∷◌, Option, none, some, bit_and, bit_or, drop,
  replicate, ◌==◌, true, false,
}
use first_kernel.Base.Partial.{◌>>=◌}
use first_kernel.Base.Text.{codes}
use first_kernel.CString.{hex_to_string}
use first_kernel.Ports.{Ports, Io, tell, tell_text}
use first_kernel.Drivers.Pci.{pci_read_dword, pci_write_dword}

-- `struct e1000_tx_desc`
pub record TxDesc : Type 0 where
  pub buffer_addr : ℕ
  pub length : ℕ
  pub cso : ℕ
  pub cmd : ℕ
  pub status : ℕ
  pub css : ℕ
  pub special : ℕ

-- The globals of the driver; the buffers themselves are not read or written.
pub record Card : Type 0 where
  pub e1000_mmio_base : ℕ
  pub mac_address : List ℕ
  pub tx_ring : List TxDesc

abbrev pub tx_desc_count : ℕ
tx_desc_count = 8

-- The loop over the ring: descriptor `i` points to the buffer at `buffers + 2048 * i`.
unfoldable pub reset_ring : ℕ → List TxDesc → List TxDesc
reset_ring buffer [] = []
reset_ring buffer (d ∷ ring) =
    record d { buffer_addr = buffer; length = 0; cmd = 0; status = 0 }
    ∷ reset_ring (buffer + 2048) ring

abbrev pub tctl : ℕ
tctl = bit_or (bit_or (bit_or (2 ^ 1) (2 ^ 3)) (0x0F * 2 ^ 4)) (0x3F * 2 ^ 12)

module _ (ports : Ports) where
  unfoldable pub e1000_read_reg : ℕ → Card → ports.State → ℕ × ports.State
  e1000_read_reg offset c s = ports.volatile_read ((c.e1000_mmio_base + offset) % 2 ^ 32) s

  unfoldable pub e1000_write_reg : ℕ → ℕ → Card → ports.State → ports.State
  e1000_write_reg offset value c s =
      ports.volatile_write ((c.e1000_mmio_base + offset) % 2 ^ 32) value s

  -- The bytes of the address, with a colon between two of them.
  unfoldable pub print_mac : List ℕ → Io ports → Option (Io ports)
  print_mac [] io = some io
  print_mac (b ∷ bs) io = do
    hex_str ← hex_to_string b (replicate 11 0)
    let io' = tell_text (drop 8 hex_str) io
    print_mac bs (elim bs [ [] ↦ io' | _ ∷ _ ↦ tell (codes ":") io' ])

  abbrev pub mac_bytes : ℕ → ℕ → List ℕ
  mac_bytes mac_low mac_high =
      bit_and mac_low 0xFF
      ∷ bit_and (mac_low / 2 ^ 8) 0xFF
      ∷ bit_and (mac_low / 2 ^ 16) 0xFF
      ∷ bit_and (mac_low / 2 ^ 24) 0xFF
      ∷ bit_and mac_high 0xFF
      ∷ bit_and (mac_high / 2 ^ 8) 0xFF
      ∷ []

  unfoldable pub read_mac_address : Card → Io ports → Option (Card × Io ports)
  read_mac_address c io = do
    let (mac_low, s1) = e1000_read_reg 0x5400 c io.devices
    let (mac_high, s2) = e1000_read_reg 0x5404 c s1
    let mac = mac_bytes mac_low mac_high
    let io1 = tell (codes "mac address:\n") (record io { devices = s2 })
    io2 ← print_mac mac io1
    some (record c { mac_address = mac }, tell (codes "\n") io2)

  -- `ring` and `buffers` are the addresses of `tx_ring` and `tx_buffers`.
  unfoldable pub e1000_init_tx : ℕ → ℕ → Card → Io ports → Card × Io ports
  e1000_init_tx ring buffers c io =
      let io1 = tell (codes "initializing transmission ring (TX)...\n") io in
      let c' = record c { tx_ring = reset_ring buffers c.tx_ring } in
      let s1 = e1000_write_reg 0x3800 ring c' io1.devices in
      let s2 = e1000_write_reg 0x3804 0 c' s1 in
      let s3 = e1000_write_reg 0x3808 (tx_desc_count * 16) c' s2 in
      let s4 = e1000_write_reg 0x3810 0 c' s3 in
      let s5 = e1000_write_reg 0x3818 0 c' s4 in
      let s6 = e1000_write_reg 0x0400 tctl c' s5 in
      (c', tell (codes "TX motor on and descriptors mapped.\n") (record io1 { devices = s6 }))

  -- The inner loop of the search, at `slot`, with `left` rounds to go.
  unfoldable pub search_slots : ℕ → ℕ → ℕ → ports.State → Option (ℕ × ℕ) × ports.State
  search_slots zero bus slot s = (none, s)
  search_slots (suc left) bus slot s =
      let (vendor_device, s') = pci_read_dword ports bus slot 0 0 s in
      elim (vendor_device == 0x100E8086) [
        | true ↦ (some (bus, slot), s')
        | false ↦ search_slots left bus (slot + 1) s'
      ]

  unfoldable pub search_buses : ℕ → ℕ → ports.State → Option (ℕ × ℕ) × ports.State
  search_buses zero bus s = (none, s)
  search_buses (suc left) bus s =
      let (found, s') = search_slots 32 bus 0 s in
      elim found [ some target ↦ (some target, s') | none ↦ search_buses left (bus + 1) s' ]

  -- What is done with the card that was found.
  unfoldable pub start_card : ℕ → ℕ → ℕ × ℕ → Card → Io ports → Option (Card × Io ports)
  start_card ring buffers (target_bus, target_slot) c io = do
    let (bar0, s1) = pci_read_dword ports target_bus target_slot 0 0x10 io.devices
    let mmio_address = bit_and bar0 0xFFFFFFF0
    let (pci_command, s2) = pci_read_dword ports target_bus target_slot 0 0x04 s1
    let pci_command' = bit_or pci_command (bit_or (bit_or (2 ^ 2) (2 ^ 1)) (2 ^ 10))
    let s3 = pci_write_dword ports target_bus target_slot 0 0x04 pci_command' s2
    let c' = record c { e1000_mmio_base = mmio_address }
    let s4 = e1000_write_reg 0x00D8 0xFFFFFFFF c' s3
    let (clear_interrupt, s5) = e1000_read_reg 0x00C0 c' s4
    let io1 =
        tell (codes "DMA activated. the card have access to the ram\n") (record io { devices = s5 })
    hex_address ← hex_to_string mmio_address (replicate 11 0)
    let io2 = tell (codes "\n") (tell_text hex_address (tell (codes "MMIO Base: ") io1))
    (c'', io3) ← read_mac_address c' io2
    some (e1000_init_tx ring buffers c'' io3)

  unfoldable pub init_e1000 : ℕ → ℕ → Card → Io ports → Option (Card × Io ports)
  init_e1000 ring buffers c io =
      let io1 =
        tell (codes "searching card intel pro/1000 (E1000)... \n")
          (tell (codes "--- starting network ---\n") io) in
      let (found, s) = search_buses 256 0 io1.devices in
      let io2 = record io1 { devices = s } in
      elim found [
        | none ↦ some (c, tell (codes "Critical error: hardware compatible not found\n") io2)
        | some target ↦ start_card ring buffers target c io2
      ]
