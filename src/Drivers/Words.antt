-- ===== src/Drivers/Words.antt =====
-- The loops of drivers/disk.c that move the words of a sector between the port and a buffer.
use first_kernel.Base.{
  ℕ, suc, ◌+◌, ◌<◌, ◌≡◌, refl, ap, ap₂, ◌∙◌, List, [], ◌∷◌, ◌++◌, length, arith, append_assoc,
  length-append, ◌==◌, if◌then◌else◌, Bool, ==_ne,
}
use first_kernel.Ports.{Ports}
use first_kernel.Drivers.Disk.{read_words, write_words}
use first_kernel.Drivers.Ata.{Mode, idle, sending, receiving, Drive, send, receive, Ata}

module _ {ports : Ports} (ata : Ata ports) where
  read_words_lem :
      (w : ℕ) (ws : List ℕ) (s : ports.State)
      → (ata.view s).mode ≡ sending (w ∷ ws)
      → (s' : ports.State) × (read_words ports (suc (length ws)) s ≡ (w ∷ ws, s'))
        × (ata.view s' ≡ record (ata.view s) { mode = idle })
  unfolding read_words send
  read_words_lem w [] s m = (
    (ports.port_word_in 0x1F0 s).1,
    ap (λ (x : ℕ). (x ∷ [], (ports.port_word_in 0x1F0 s).1))
        (ata.sends s ∙ ap (λ (k : Mode). (send k).0) m),
    ata.sent s ∙ ap (λ (k : Mode). record (ata.view s) { mode = (send k).1 }) m,
  )
  read_words_lem w (w' ∷ ws) s m =
      let s1 = (ports.port_word_in 0x1F0 s).1 in
      let seen : ata.view s1 ≡ record (ata.view s) { mode = sending (w' ∷ ws) } =
        ata.sent s ∙ ap (λ (k : Mode). record (ata.view s) { mode = (send k).1 }) m in
      let (s', r, after) = read_words_lem w' ws s1 (ap (λ (d : Drive). d.mode) seen) in
      (
        s',
        ap₂ (λ (x : ℕ) (p : List ℕ × ports.State). (x ∷ p.0, p.1))
            (ata.sends s ∙ ap (λ (k : Mode). (send k).0) m) r,
        after ∙ ap (λ (d : Drive). record d { mode = idle }) seen,
      )

  -- The disk once a sector is full.
  abbrev pub stored : ℕ → List ℕ → Drive → Drive
  stored lba got d = record d {
    mode = idle;
    busy = d.latency;
    contents = λ k. if lba == k then got else d.contents k;
  }

  receive-last :
      (w lba : ℕ) (got : List ℕ) (d : Drive)
      → length got ≡ 255
      → receive w (receiving lba got) d ≡ stored lba (got ++ w ∷ []) d
  unfolding receive
  receive-last w lba got d h = rw (length-append got (w ∷ []), h) refl

  receive-more :
      (w lba : ℕ) (got : List ℕ) (d : Drive)
      → length got < 255
      → receive w (receiving lba got) d ≡ record d { mode = receiving lba (got ++ w ∷ []) }
  unfolding receive
  receive-more w lba got d h =
      ap
        (λ (b : Bool).
          if b
          then stored lba (got ++ w ∷ []) d
          else record d { mode = receiving lba (got ++ w ∷ []) })
        (==_ne (length (got ++ w ∷ [])) 256
          (λ e. absurd (omega (arith, length-append got (w ∷ []), e, h))))

  write_words_lem :
      (w : ℕ) (ws : List ℕ) (lba : ℕ) (got : List ℕ) (s : ports.State)
      → (ata.view s).mode ≡ receiving lba got
      → length got + suc (length ws) ≡ 256
      → ata.view (write_words ports (w ∷ ws) s) ≡ stored lba (got ++ w ∷ ws) (ata.view s)
  unfolding write_words
  write_words_lem w [] lba got s m h =
      ata.receives w s
      ∙ ap (λ (k : Mode). receive w k (ata.view s)) m
      ∙ receive-last w lba got (ata.view s) (omega arith)
  write_words_lem w (w' ∷ ws) lba got s m h =
      let s1 = ports.port_word_out 0x1F0 w s in
      let seen : ata.view s1 ≡ record (ata.view s) { mode = receiving lba (got ++ w ∷ []) } =
        ata.receives w s
        ∙ ap (λ (k : Mode). receive w k (ata.view s)) m
        ∙ receive-more w lba got (ata.view s) (omega arith) in
      write_words_lem w' ws lba (got ++ w ∷ []) s1 (ap (λ (d : Drive). d.mode) seen)
        (omega (arith, length-append got (w ∷ []), h))
      ∙ ap (λ (xs : List ℕ). stored lba xs (ata.view s1)) (append_assoc got (w ∷ []) (w' ∷ ws))
      ∙ ap (λ (d : Drive). stored lba (got ++ w ∷ w' ∷ ws) d) seen

  -- A whole sector.
  pub read_sector_words :
      (ws : List ℕ) (n : ℕ) (s : ports.State)
      → length ws ≡ suc n
      → (ata.view s).mode ≡ sending ws
      → (s' : ports.State) × (read_words ports (suc n) s ≡ (ws, s'))
        × (ata.view s' ≡ record (ata.view s) { mode = idle })
  read_sector_words [] n s h m = absurd (omega (arith, h))
  read_sector_words (w ∷ ws) n s h m =
      let (s', r, seen) = read_words_lem w ws s m in
      let count : n ≡ length ws = omega (arith, h) in
      (s', ap (λ (k : ℕ). read_words ports (suc k) s) count ∙ r, seen)

  pub write_sector_words :
      (ws : List ℕ) (lba : ℕ) (s : ports.State)
      → length ws ≡ 256
      → (ata.view s).mode ≡ receiving lba []
      → ata.view (write_words ports ws s) ≡ stored lba ws (ata.view s)
  write_sector_words [] lba s h m = absurd (omega (arith, h))
  write_sector_words (w ∷ ws) lba s h m = write_words_lem w ws lba [] s m (omega (arith, h))
