-- ===== src/Drivers/Tests.antt =====
-- A machine whose ports lead to a disk only, and the drivers on it.
use first_kernel.Base.{◌-◌, ◌≡◌, refl, arith, [], some, replicate}
use first_kernel.Ports.{Ports}
use first_kernel.Fat16.Volume
use first_kernel.Fat16.Volume.{Volume}
use first_kernel.Fat16.Layout.{words}
use first_kernel.Fat16.Table.{IsVolume}
use first_kernel.Fat16.Views.{all_bytes-IsByte}
use first_kernel.Drivers.Disk.{read_sector, write_sector}
use first_kernel.Drivers.Ata.{Drive, idle, status, drive_out, send, receive, Ata}
use first_kernel.Drivers.Sectors.{Holds, read_sector-Holds, write_sector-Holds}

disk_ports : Ports
disk_ports = record {
  State = Drive;
  port_bytes_in = λ p d. (status d.busy d.mode, record d { busy = d.busy - 1 });
  port_bytes_out = λ p v d. drive_out p v d;
  port_word_in = λ p d. ((send d.mode).0, record d { mode = (send d.mode).1 });
  port_word_out = λ p w d. receive w d.mode d;
  port_dword_in = λ p d. (0, d);
  port_dword_out = λ p w d. d;
  volatile_read = λ a d. (0, d);
  volatile_write = λ a w d. d;
}

disk_ata : Ata disk_ports
unfolding disk_ports
disk_ata = record {
  view = λ d. d;
  writes = λ p v d. refl;
  reads_status = λ d. refl;
  ticks = λ d. refl;
  sends = λ d. refl;
  sent = λ d. refl;
  receives = λ w d. refl;
}

abbrev blank_disk : Volume
blank_disk = record { sectors = λ k. replicate 512 0; current_dir_cluster = 0; console = [] }

blank_disk-IsVolume : IsVolume blank_disk
blank_disk-IsVolume = record {
  full = λ k. refl;
  bytes = λ k. all_bytes-IsByte (replicate 512 0) refl;
}

blank_drive : disk_ports.State
unfolding disk_ports
blank_drive = record {
  drive_head = 0;
  sector_count = 0;
  lba_low = 0;
  lba_mid = 0;
  lba_high = 0;
  busy = 0;
  latency = 3;
  mode = idle;
  contents = λ k. words (replicate 512 0);
}

blank_drive-Holds : Holds disk_ata 4 blank_drive blank_disk
unfolding disk_ports disk_ata blank_drive
blank_drive-Holds = record { rests = refl; free = refl; patient = omega arith; same = λ k h. refl }

read_sector-Holds_example :
    (s' : disk_ports.State) × (read_sector disk_ports 4 68 blank_drive
      ≡ some (Volume.read_sector 68 blank_disk, s'))
    × Holds disk_ata 4 s' blank_disk
read_sector-Holds_example =
    read_sector-Holds disk_ata 4 blank_drive blank_disk blank_disk-IsVolume blank_drive-Holds 68
      (omega arith)

write_sector-Holds_example :
    (s' : disk_ports.State) × (write_sector disk_ports 4 68 (replicate 512 7) blank_drive ≡ some s')
    × Holds disk_ata 4 s' (Volume.write_sector 68 (replicate 512 7) blank_disk)
write_sector-Holds_example =
    write_sector-Holds disk_ata 4 blank_drive blank_disk blank_disk-IsVolume blank_drive-Holds 68
      (omega arith) (replicate 512 7) refl
