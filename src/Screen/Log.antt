-- ===== src/Screen/Log.antt =====
-- The kernel log of drivers/screen.c as a ring.
use first_kernel.Base.{
  ℕ, ◌+◌, ◌-◌, ◌%◌, ◌≤◌, ◌<◌, ◌≡◌, ◌≢◌, ap, sym, ◌∙◌, List, [], ◌∷◌, ◌++◌, some, ◌==◌, leb, ltb,
  if◌then◌else◌, length, get_or, set, arith, length-set, length-append, get_or-append,
  get_or-set_self, get_or-set_ne, ℕ_discrete,
}
use first_kernel.Screen.{Screen, klog_size, log_char}

-- The characters `history`, the oldest first, were logged.
pub record Logged (history : List ℕ) (s : Screen) : Type 0 where
  pub size : length s.klog_buffer ≡ klog_size
  pub index : s.klog_index ≡ length history % klog_size
  pub wrapped : (s.klog_wrapped == 0) ≡ ltb (length history) klog_size
  pub kept :
      (j : ℕ)
      → j < length history
      → length history ≤ j + klog_size
      → get_or s.klog_buffer (j % klog_size) 0 ≡ get_or history j 0

-- `log_char`, outside of a dump, faults nowhere and keeps the last 4096 characters that were logged,
-- with the place of the next one and the mark that the buffer is full.
pub log_char-Logged :
    (history : List ℕ) (c : ℕ) (s : Screen)
    → s.dmesg_active ≡ 0
    → Logged history s
    → (s' : Screen) × (log_char c s ≡ some s') × Logged (history ++ c ∷ []) s'
unfolding log_char
log_char-Logged history c s active l = (
  after,
  ground (arith, l.size, l.index),
  record {
    size = ground (arith, length-set s.klog_buffer s.klog_index c, l.size);
    index = ground (arith, length-append history (c ∷ []), l.index);
    wrapped = ground (arith, length-append history (c ∷ []), l.index, l.wrapped);
    kept = λ j p q. ap (λ (b : List ℕ). get_or b (j % klog_size) 0) stored ∙ slot j p q;
  },
)
  where
    buffer : List ℕ
    buffer = set s.klog_buffer s.klog_index c

    after : Screen
    after =
        if leb klog_size (s.klog_index + 1)
        then record s { klog_buffer = buffer; klog_index = 0; klog_wrapped = 1 }
        else record s { klog_buffer = buffer; klog_index = s.klog_index + 1 }

    stored : after.klog_buffer ≡ buffer
    stored = ground arith

    slot :
        (j : ℕ)
        → j < length (history ++ c ∷ [])
        → length (history ++ c ∷ []) ≤ j + klog_size
        → get_or buffer (j % klog_size) 0 ≡ get_or (history ++ c ∷ []) j 0
    slot j p q = elim (ℕ_discrete j (length history)) [
      | yes e ↦
          let here : j % klog_size ≡ s.klog_index = omega (arith, e, l.index) in
          let first : j - length history ≡ 0 = omega (arith, e) in
          ap (λ (k : ℕ). get_or buffer k 0) here
          ∙ get_or-set_self s.klog_buffer s.klog_index c 0 (omega (arith, l.size, l.index))
          ∙ ap (λ (k : ℕ). get_or (c ∷ []) k 0) (sym first)
          ∙ ground (arith, get_or-append history (c ∷ []) j 0)
      | no ne ↦
          let elsewhere : s.klog_index ≢ j % klog_size =
            omega (arith, l.index, length-append history (c ∷ [])) in
          get_or-set_ne s.klog_buffer s.klog_index (j % klog_size) c 0 elsewhere
          ∙ l.kept j (omega (arith, length-append history (c ∷ [])))
              (omega (arith, length-append history (c ∷ [])))
          ∙ ground (arith, get_or-append history (c ∷ []) j 0, length-append history (c ∷ []))
    ]
