-- ===== src/Drivers/Disk.antt =====
-- drivers/disk.c: sectors over the ports of an ATA disk. Each wait on the status byte has fuel; fuel
-- that runs out is `none`.
use first_kernel.Base.{
  ℕ, zero, suc, ◌/◌, ◌%◌, ◌^◌, List, [], ◌∷◌, Option, none, some, bit_and, bit_or, ◌==◌, true,
  false,
}
use first_kernel.Base.Partial.{◌>>=◌}
use first_kernel.Fat16.Layout.{words, unwords}
use first_kernel.Ports.{Ports}

module _ (ports : Ports) where
  -- `do status = … while (!(status & 0x08))`
  unfoldable pub wait_data : ℕ → ports.State → Option ports.State
  wait_data zero s = none
  wait_data (suc fuel) s =
      let (status, s') = ports.port_bytes_in 0x1F7 s in
      elim (bit_and status 0x08 == 0) [ true ↦ wait_data fuel s' | false ↦ some s' ]

  -- `do status = … while (status & 0x80)`
  unfoldable pub wait_ready : ℕ → ports.State → Option ports.State
  wait_ready zero s = none
  wait_ready (suc fuel) s =
      let (status, s') = ports.port_bytes_in 0x1F7 s in
      elim (bit_and status 0x80 == 0) [ true ↦ some s' | false ↦ wait_ready fuel s' ]

  -- The sector's number, in the five registers, and the command.
  unfoldable pub select : ℕ → ℕ → ports.State → ports.State
  select lba command s =
      let s1 = ports.port_bytes_out 0x1F6 (bit_or 0xE0 (bit_and (lba / 2 ^ 24) 0x0F)) s in
      let s2 = ports.port_bytes_out 0x1F2 1 s1 in
      let s3 = ports.port_bytes_out 0x1F3 (lba % 2 ^ 8) s2 in
      let s4 = ports.port_bytes_out 0x1F4 (lba / 2 ^ 8 % 2 ^ 8) s3 in
      let s5 = ports.port_bytes_out 0x1F5 (lba / 2 ^ 16 % 2 ^ 8) s4 in
      ports.port_bytes_out 0x1F7 command s5

  unfoldable pub read_words : ℕ → ports.State → List ℕ × ports.State
  read_words zero s = ([], s)
  read_words (suc left) s =
      let (w, s1) = ports.port_word_in 0x1F0 s in let (ws, s2) = read_words left s1 in (w ∷ ws, s2)

  unfoldable pub write_words : List ℕ → ports.State → ports.State
  write_words [] s = s
  write_words (w ∷ ws) s = write_words ws (ports.port_word_out 0x1F0 w s)

  unfoldable pub read_sector : ℕ → ℕ → ports.State → Option (List ℕ × ports.State)
  read_sector fuel lba s = do
    s' ← wait_data fuel (select lba 0x20 s)
    let (buffer_16, s'') = read_words 256 s'
    some (unwords buffer_16, s'')

  unfoldable pub write_sector : ℕ → ℕ → List ℕ → ports.State → Option ports.State
  write_sector fuel lba buffer s = do
    s1 ← wait_ready fuel s
    s2 ← wait_data fuel (select lba 0x30 s1)
    let s3 = write_words (words buffer) s2
    wait_ready fuel (ports.port_bytes_out 0x1F7 0xE7 s3)
