-- ===== src/Drivers/Ata.antt =====
-- What drivers/disk.c relies on: an ATA disk with one sector in transfer, seen through its ports.
use first_kernel.Base.{
  ℕ, zero, suc, ◌+◌, ◌-◌, ◌*◌, ◌%◌, ◌^◌, ◌≡◌, List, [], ◌∷◌, ◌++◌, length, ◌==◌, if◌then◌else◌,
}
use first_kernel.Ports.{Ports}

-- Nothing, or a transfer: the words still to be sent, or those received for a sector.
pub data Mode : Type 0 where
  idle : Mode
  sending : List ℕ → Mode
  receiving : ℕ → List ℕ → Mode

-- The registers; for how many more reads of the status the disk is busy, and for how many it is after
-- a command; the transfer; the sectors as words.
pub record Drive : Type 0 where
  pub drive_head : ℕ
  pub sector_count : ℕ
  pub lba_low : ℕ
  pub lba_mid : ℕ
  pub lba_high : ℕ
  pub busy : ℕ
  pub latency : ℕ
  pub mode : Mode
  pub contents : ℕ → List ℕ

abbrev pub address : Drive → ℕ
address d = d.drive_head % 16 * 2 ^ 24 + d.lba_high * 2 ^ 16 + d.lba_mid * 2 ^ 8 + d.lba_low

-- Bit 7 while it is busy, bit 3 while it waits for the data of a transfer.
unfoldable pub status : ℕ → Mode → ℕ
status (suc busy) mode = 0x80
status zero idle = 0x40
status zero (sending ws) = 0x48
status zero (receiving lba ws) = 0x48

unfoldable pub command : ℕ → Drive → Drive
command c d =
    if c == 0x20
    then record d { busy = d.latency; mode = sending (d.contents (address d)) }
    else if c == 0x30
    then record d { busy = d.latency; mode = receiving (address d) [] }
    else record d { busy = d.latency }

unfoldable pub drive_out : ℕ → ℕ → Drive → Drive
drive_out port value d =
    if port == 0x1F6
    then record d { drive_head = value }
    else if port == 0x1F2
    then record d { sector_count = value }
    else if port == 0x1F3
    then record d { lba_low = value }
    else if port == 0x1F4
    then record d { lba_mid = value }
    else if port == 0x1F5
    then record d { lba_high = value }
    else if port == 0x1F7
    then command value d
    else d

-- A word that the disk sends, and the rest of the transfer.
unfoldable pub send : Mode → ℕ × Mode
send (sending (w ∷ [])) = (w, idle)
send (sending (w ∷ w' ∷ ws)) = (w, sending (w' ∷ ws))
send mode = (0, mode)

-- A word that it receives; the last one of 256 fills the sector.
unfoldable pub receive : ℕ → Mode → Drive → Drive
receive w (receiving lba ws) d =
    let got = ws ++ w ∷ [] in
    if length got == 256
    then record d {
      mode = idle;
      busy = d.latency;
      contents = λ k. if lba == k then got else d.contents k;
    }
    else record d { mode = receiving lba got }
receive w _ d = d

-- The ports of a machine with such a disk: what the instructions do to the disk that one sees behind
-- them.
pub record Ata (ports : Ports) : Type 0 where
  pub view : ports.State → Drive
  pub writes :
      (port value : ℕ) (s : ports.State)
      → view (ports.port_bytes_out port value s) ≡ drive_out port value (view s)
  pub reads_status :
      (s : ports.State) → (ports.port_bytes_in 0x1F7 s).0 ≡ status (view s).busy (view s).mode
  pub ticks :
      (s : ports.State)
      → view (ports.port_bytes_in 0x1F7 s).1 ≡ record (view s) { busy = (view s).busy - 1 }
  pub sends : (s : ports.State) → (ports.port_word_in 0x1F0 s).0 ≡ (send (view s).mode).0
  pub sent :
      (s : ports.State)
      → view (ports.port_word_in 0x1F0 s).1 ≡ record (view s) { mode = (send (view s).mode).1 }
  pub receives :
      (w : ℕ) (s : ports.State)
      → view (ports.port_word_out 0x1F0 w s) ≡ receive w (view s).mode (view s)
