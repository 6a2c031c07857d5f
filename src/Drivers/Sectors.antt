-- ===== src/Drivers/Sectors.antt =====
-- `read_sector` and `write_sector` of drivers/disk.c against the sectors that fs/fat16.c works on.
use first_kernel.Base.{
  ℕ, ◌+◌, ◌*◌, ◌/◌, ◌%◌, ◌^◌, ◌<◌, ◌≡◌, refl, ap, ap₂, ◌∙◌, List, [], ◌∷◌, Option, some, All,
  length, arith, ◌==◌, if◌then◌else◌, Bool, true, false,
}
use first_kernel.Base.Partial.{◌>>=◌}
use first_kernel.Ports.{Ports}
use first_kernel.Fat16.Layout.{words, unwords}
use first_kernel.Fat16.Views.{IsByte, length-words}
use first_kernel.Fat16.Volume
use first_kernel.Fat16.Volume.{Volume}
use first_kernel.Fat16.Table.{IsVolume}
use first_kernel.Drivers.Disk.{
  select, wait_data, wait_ready, read_words, write_words, read_sector, write_sector,
}
use first_kernel.Drivers.Ata.{
  idle, sending, receiving, Drive, address, status, command, drive_out, Ata,
}
use first_kernel.Drivers.Transfer.{
  addressed, number, select_lem, Waited, wait_data_lem, wait_ready_lem,
}
use first_kernel.Drivers.Words.{stored, read_sector_words, write_sector_words}

unwords-words :
    (bytes : List ℕ) → length bytes % 2 ≡ 0 → All IsByte bytes → unwords (words bytes) ≡ bytes
unfolding words unwords
unwords-words [] even h = refl
unwords-words (lo ∷ []) even h = absurd (omega (arith, even))
unwords-words (lo ∷ hi ∷ bytes) even h =
    let low : (hi * 2 ^ 8 + lo) % 2 ^ 8 ≡ lo = omega (arith, h.0) in
    let high : (hi * 2 ^ 8 + lo) / 2 ^ 8 % 2 ^ 8 ≡ hi = omega (arith, h.0, h.1.0) in
    ap₂ (λ (a b : ℕ). a ∷ b ∷ unwords (words bytes)) low high
    ∙ ap (λ (bs : List ℕ). lo ∷ hi ∷ bs) (unwords-words bytes (omega (arith, even)) h.1.1)

picked :
    (here : Bool) (new old : List ℕ) {ws : List ℕ}
    → ws ≡ words old
    → (if here then words new else ws) ≡ words (if here then new else old)
picked true new old e = refl
picked false new old e = e

module _ {ports : Ports} (ata : Ata ports) where
  -- The two functions from the place where the disk is ready for the words.
  abbrev take_words : Option ports.State → Option (List ℕ × ports.State)
  take_words o = do
    s' ← o
    let (buffer_16, s'') = read_words ports 256 s'
    some (unwords buffer_16, s'')

  abbrev put_words : ℕ → List ℕ → Option ports.State → Option ports.State
  put_words fuel buffer o = do
    s' ← o
    wait_ready ports fuel (ports.port_bytes_out 0x1F7 0xE7 (write_words ports (words buffer) s'))

  -- The disk is at rest, holds the sectors of the volume, and is ready again within the fuel.
  pub record Holds (fuel : ℕ) (s : ports.State) (v : Volume) : Type 0 where
    pub rests : (ata.view s).mode ≡ idle
    pub free : (ata.view s).busy ≡ 0
    pub patient : (ata.view s).latency < fuel
    pub same : (lba : ℕ) → lba < 2 ^ 28 → (ata.view s).contents lba ≡ words (v.sectors lba)

  address-addressed : (lba : ℕ) (d : Drive) → lba < 2 ^ 28 → address (addressed lba d) ≡ lba
  address-addressed lba d h = number lba h

  module _ (fuel : ℕ) (s : ports.State) (v : Volume) (valid : IsVolume v) (holds : Holds fuel s v)
      (lba : ℕ) (small : lba < 2 ^ 28) where
    -- After the command to read, the words of the sector are to be sent.
    abbrev asked : ports.State
    asked = select ports lba 0x20 s

    asked_lem : ata.view asked ≡ record (addressed lba (ata.view s)) {
      busy = (ata.view s).latency;
      mode = sending (words (v.sectors lba));
    }
    unfolding command
    asked_lem =
        select_lem ata lba 0x20 s
        ∙ ap
            (λ (ws : List ℕ). record (addressed lba (ata.view s)) {
              busy = (ata.view s).latency;
              mode = sending ws;
            })
            (ap (ata.view s).contents (address-addressed lba (ata.view s) small)
              ∙ holds.same lba small)

    -- `read_sector` ends without a fault, returns the bytes of the volume's sector and leaves the disk
    -- with the same sectors, at rest.
    pub read_sector-Holds :
        (s' : ports.State) × (read_sector ports fuel lba s ≡ some (Volume.read_sector lba v, s'))
        × Holds fuel s' v
    unfolding read_sector status
    read_sector-Holds =
        let ws = words (v.sectors lba) in
        let (s1, r1, seen1) =
          wait_data_lem ata fuel asked
            (omega (arith, ap (λ (d : Drive). d.busy) asked_lem, holds.patient))
            (ap (λ (d : Drive). status 0 d.mode) asked_lem) in
        let (s2, r2, seen2) =
          read_sector_words ata ws 255 s1
            (omega (arith, length-words (v.sectors lba), valid.full lba))
            (ap (λ (d : Drive). d.mode)
              (seen1 ∙ ap (λ (d : Drive). record d { busy = 0 }) asked_lem)) in
        let after =
          seen2
          ∙ ap (λ (d : Drive). record d { mode = idle })
              (seen1 ∙ ap (λ (d : Drive). record d { busy = 0 }) asked_lem) in
        (
          s2,
          ap take_words r1
              ∙ ap (λ (p : List ℕ × ports.State). some (unwords p.0, p.1)) r2
              ∙ ap (λ (bs : List ℕ). some (bs, s2))
                  (unwords-words (v.sectors lba) (omega (arith, valid.full lba)) (valid.bytes lba)),
          record {
            rests = ap (λ (d : Drive). d.mode) after;
            free = ap (λ (d : Drive). d.busy) after;
            patient = omega (arith, ap (λ (d : Drive). d.latency) after, holds.patient);
            same = λ k h. ap (λ (d : Drive). d.contents k) after ∙ holds.same k h;
          },
        )

    module _ (buffer : List ℕ) (whole : length buffer ≡ 512) where
      -- The disk is not busy; after the command to write it waits for the words.
      ready : Waited ata s (wait_ready ports fuel s)
      ready = wait_ready_lem ata fuel s (omega (arith, holds.free, holds.patient))

      abbrev told : ports.State
      told = select ports lba 0x30 ready.0

      told_lem : ata.view told ≡ record (addressed lba (ata.view s)) {
        busy = (ata.view s).latency;
        mode = receiving lba [];
      }
      unfolding command
      told_lem =
          select_lem ata lba 0x30 ready.0
          ∙ ap (λ (d : Drive). command 0x30 (addressed lba d)) ready.2
          ∙ ap
              (λ (k : ℕ). record (addressed lba (ata.view s)) {
                busy = (ata.view s).latency;
                mode = receiving k [];
              })
              (address-addressed lba (ata.view s) small)

      -- `write_sector` ends without a fault and leaves the disk at rest, with the bytes in that sector
      -- and every other sector as it was.
      pub write_sector-Holds :
          (s' : ports.State) × (write_sector ports fuel lba buffer s ≡ some s')
          × Holds fuel s' (Volume.write_sector lba buffer v)
      unfolding write_sector status drive_out command
      write_sector-Holds =
          let (s1, r1, seen1) =
            wait_data_lem ata fuel told
              (omega (arith, ap (λ (d : Drive). d.busy) told_lem, holds.patient))
              (ap (λ (d : Drive). status 0 d.mode) told_lem) in
          let waiting = seen1 ∙ ap (λ (d : Drive). record d { busy = 0 }) told_lem in
          let s2 = write_words ports (words buffer) s1 in
          let seen2 =
            write_sector_words ata (words buffer) lba s1 (omega (arith, length-words buffer, whole))
              (ap (λ (d : Drive). d.mode) waiting)
            ∙ ap (λ (d : Drive). stored ata lba (words buffer) d) waiting in
          let s3 = ports.port_bytes_out 0x1F7 0xE7 s2 in
          let seen3 = ata.writes 0x1F7 0xE7 s2 ∙ ap (drive_out 0x1F7 0xE7) seen2 in
          let (s4, r4, seen4) =
            wait_ready_lem ata fuel s3
              (omega (arith, ap (λ (d : Drive). d.busy) seen3, holds.patient)) in
          let after = seen4 ∙ ap (λ (d : Drive). record d { busy = 0 }) seen3 in
          (
            s4,
            ap
                  (λ (o : Option ports.State). do
                    a ← o
                    put_words fuel buffer (wait_data ports fuel (select ports lba 0x30 a)))
                  ready.1
                ∙ ap (put_words fuel buffer) r1
                ∙ r4,
            record {
              rests = ap (λ (d : Drive). d.mode) after;
              free = ap (λ (d : Drive). d.busy) after;
              patient = omega (arith, ap (λ (d : Drive). d.latency) after, holds.patient);
              same = λ k h.
                  ap (λ (d : Drive). d.contents k) after
                  ∙ picked (lba == k) buffer (v.sectors k) (holds.same k h);
            },
          )
