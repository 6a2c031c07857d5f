-- ===== src/Screen/Tests.antt =====
-- Runs of the text screen, and its theorems at concrete inputs.
use first_kernel.Base.{ℕ, ◌≡◌, refl, [], ◌∷◌, some, replicate, arith, length-replicate}
use first_kernel.Screen.{Screen, log_char}
use first_kernel.Screen.Log.{Logged, log_char-Logged}

abbrev blank_screen : Screen
blank_screen = record {
  vga_mem = 0xE0000000;
  frame = λ p. 0;
  klog_buffer = replicate 4096 0;
  klog_index = 0;
  klog_wrapped = 0;
  dmesg_active = 0;
  current_color = 0xFFFFFF;
  current_col = 49;
  current_row = 36;
}

blank_screen-Logged : Logged [] blank_screen
blank_screen-Logged = record {
  size = length-replicate {A = ℕ} 4096 0;
  index = refl;
  wrapped = refl;
  kept = λ j p q. absurd (omega arith);
}

log_char-Logged_example : (s' : Screen) × (log_char 65 blank_screen ≡ some s') × Logged (65 ∷ []) s'
log_char-Logged_example = log_char-Logged [] 65 blank_screen refl blank_screen-Logged
