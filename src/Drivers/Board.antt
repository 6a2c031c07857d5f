-- ===== src/Drivers/Board.antt =====
-- A machine with an interval timer, a clock and a PCI bus behind its ports, for the tests.
use first_kernel.Base.{
  ℕ, ◌+◌, ◌*◌, ◌/◌, ◌%◌, ◌^◌, ◌≡◌, refl, ap₂, ◌∙◌, arith, ◌==◌, ◌&&◌, if◌then◌else◌,
}
use first_kernel.Ports.{Ports}
use first_kernel.Drivers.Sound.{Pit}
use first_kernel.Drivers.Clock.{Clock}
use first_kernel.Drivers.Bus.{PciBus}

pub record Board : Type 0 where
  pub clock_low : ℕ
  pub clock_high : ℕ
  pub speaker_low : ℕ
  pub speaker_high : ℕ
  pub selected : ℕ
  pub registers : ℕ → ℕ
  pub address : ℕ
  pub space : ℕ → ℕ → ℕ → ℕ → ℕ

-- A channel keeps the last two bytes written to it.
abbrev pub board_out : ℕ → ℕ → Board → Board
board_out p v b =
    if p == 0x40
    then record b { clock_low = b.clock_high; clock_high = v }
    else if p == 0x42
    then record b { speaker_low = b.speaker_high; speaker_high = v }
    else if p == 0x70
    then record b { selected = v }
    else b

abbrev pub board_ports : Ports
board_ports = record {
  State = Board;
  port_bytes_in = λ p b. (if p == 0x71 then b.registers b.selected else 0, b);
  port_bytes_out = board_out;
  port_word_in = λ p b. (0, b);
  port_word_out = λ p w b. b;
  port_dword_in = λ p b. (
    b.space (b.address / 2 ^ 16 % 2 ^ 8) (b.address / 2 ^ 11 % 2 ^ 5) (b.address / 2 ^ 8 % 2 ^ 3)
        (b.address / 2 ^ 2 % 2 ^ 6),
    b,
  );
  port_dword_out = λ p w b. if p == 0xCF8 then record b { address = w } else b;
  volatile_read = λ a b. (0, b);
  volatile_write = λ a w b. b;
}

pub board_pit : Pit board_ports
board_pit = record {
  reload = λ channel b.
      if channel == 0
      then b.clock_high * 2 ^ 8 + b.clock_low
      else b.speaker_high * 2 ^ 8 + b.speaker_low;
  sets_clock = λ low high b. refl;
  sets_speaker = λ low high b. refl;
  keeps = λ channel v b. refl;
  gate_in = λ channel b. refl;
  gate_out = λ channel v b. refl;
}

abbrev pub board_clock : Clock board_ports
board_clock = record {
  register = λ b k. b.registers k;
  selects = λ reg k b. refl;
  reads = λ reg b. refl;
  keeps = λ k b. refl;
}

pub board_pci : PciBus board_ports
board_pci = record {
  config = λ b. b.space;
  selects = λ a b. refl;
  keeps = λ b. refl;
  reads = λ bus slot func register b hb hs hf hr.
      let a = 2 ^ 31 + bus * 2 ^ 16 + slot * 2 ^ 11 + func * 2 ^ 8 + register * 2 ^ 2 in
      let e1 : a / 2 ^ 16 % 2 ^ 8 ≡ bus = omega arith in
      let e2 : a / 2 ^ 11 % 2 ^ 5 ≡ slot = omega arith in
      let e3 : a / 2 ^ 8 % 2 ^ 3 ≡ func = omega arith in
      let e4 : a / 2 ^ 2 % 2 ^ 6 ≡ register = omega arith in
      ap₂ (λ (x y : ℕ). b.space x y (a / 2 ^ 8 % 2 ^ 3) (a / 2 ^ 2 % 2 ^ 6)) e1 e2
      ∙ ap₂ (λ (x y : ℕ). b.space bus slot x y) e3 e4;
}

-- The time is 9:33:05; the card is in slot 3 of bus 0.
abbrev pub board : Board
board = record {
  clock_low = 0;
  clock_high = 0;
  speaker_low = 0;
  speaker_high = 0;
  selected = 0;
  registers = λ k. if k == 4 then 0x09 else if k == 2 then 0x33 else 0x05;
  address = 0;
  space = λ bus slot func register.
      if bus == 0 && slot == 3 then (if register == 0 then 0x100E8086 else 0) else 0xFFFFFFFF;
}
