-- ===== src/CString/Words.antt =====
-- `strtok` of libc/string.c against the words of a line.
use first_kernel.Base.{
  ap₂, ℕ, ◌+◌, ◌≡◌, ◌≢◌, refl, ap, sym, ◌∙◌, List, [], ◌∷◌, ◌++◌, Option, none, some, All, length,
  get_elem?, get_elem?-append, drop, store-append, length-append, append_assoc, arith,
}
use first_kernel.Base.Partial.{◌>>=◌}
use first_kernel.CString.{Tokens, scan, next_token}

-- The characters of a word that `strtok` does not cut.
abbrev pub IsWord : ℕ → List ℕ → Type 0
IsWord delim word = All (λ (c : ℕ). (c ≢ 0) × (c ≢ delim)) word

-- The array is `pre` and what is still to be cut.
pub record Stands (t : Tokens) (pre post : List ℕ) : Type 0 where
  pub array : t.buffer ≡ pre ++ post
  pub place : t.last_token ≡ some (length pre)

pub drop-append : (pre post : List ℕ) → drop (length pre) (pre ++ post) ≡ post
drop-append [] post = refl
drop-append (p ∷ pre) post = drop-append pre post

scan-zero :
    (rest buffer : List ℕ) (delim pos : ℕ) → scan (0 ∷ rest) delim pos buffer ≡ some (buffer, pos)
unfolding scan
scan-zero rest buffer delim pos = refl

scan-cut :
    (pre rest : List ℕ) (delim : ℕ)
    → delim ≢ 0
    → scan (delim ∷ rest) delim (length pre) (pre ++ delim ∷ rest)
      ≡ some (pre ++ 0 ∷ rest, length pre + 1)
unfolding scan
scan-cut pre rest delim ne = ground (arith, store-append pre delim 0 rest)

scan-on :
    (c : ℕ) (rest buffer : List ℕ) (delim pos : ℕ)
    → (c ≢ 0) × (c ≢ delim)
    → scan (c ∷ rest) delim pos buffer ≡ scan rest delim (pos + 1) buffer
unfolding scan
scan-on c rest buffer delim pos (n0, nd) = ground arith

scan_word :
    (pre word rest : List ℕ) (delim : ℕ)
    → delim ≢ 0
    → IsWord delim word
    → scan (word ++ delim ∷ rest) delim (length pre) (pre ++ (word ++ delim ∷ rest))
      ≡ some (pre ++ (word ++ 0 ∷ rest), length pre + length word + 1)
scan_word pre [] rest delim ne w =
    scan-cut pre rest delim ne ∙ ap (λ (n : ℕ). some (pre ++ 0 ∷ rest, n)) (omega arith)
scan_word pre (c ∷ word) rest delim ne w =
    scan-on c (word ++ delim ∷ rest) (pre ++ c ∷ (word ++ delim ∷ rest)) delim (length pre) w.0
    ∙ ap₂ (scan (word ++ delim ∷ rest) delim) one_more
        (sym (append_assoc pre (c ∷ []) (word ++ delim ∷ rest)))
    ∙ scan_word (pre ++ c ∷ []) word rest delim ne w.1
    ∙ ap₂ (λ (b : List ℕ) (n : ℕ). some (b, n)) (append_assoc pre (c ∷ []) (word ++ 0 ∷ rest))
        (omega (arith, one_more))
  where
    one_more : length pre + 1 ≡ length (pre ++ c ∷ [])
    one_more = omega (arith, length-append pre (c ∷ []))

scan_end :
    (word rest buffer : List ℕ) (delim pos : ℕ)
    → IsWord delim word
    → scan (word ++ 0 ∷ rest) delim pos buffer ≡ some (buffer, pos + length word)
scan_end [] rest buffer delim pos w =
    scan-zero rest buffer delim pos ∙ ap (λ (n : ℕ). some (buffer, n)) (omega arith)
scan_end (c ∷ word) rest buffer delim pos w =
    scan-on c (word ++ 0 ∷ rest) buffer delim pos w.0
    ∙ scan_end word rest buffer delim (pos + 1) w.1
    ∙ ap (λ (n : ℕ). some (buffer, n)) (omega arith)

abbrev pub standing_at : List ℕ → List ℕ → Tokens
standing_at pre post = record { buffer = pre ++ post; last_token = some (length pre) }

pub standing : (t : Tokens) (pre post : List ℕ) → Stands t pre post → t ≡ standing_at pre post
standing t pre post st =
    ap₂ (λ (b : List ℕ) (p : Option ℕ). record { buffer = b; last_token = p }) st.array st.place

next_token-here :
    (buffer : List ℕ) (pos c delim : ℕ)
    → get_elem? buffer pos ≡ some c
    → c ≢ 0
    → next_token delim (record { buffer = buffer; last_token = some pos }) ≡ (do
      (buffer', pos') ← scan (drop pos buffer) delim pos buffer
      some (record { buffer = buffer'; last_token = some pos' }, some pos))
unfolding next_token
next_token-here buffer pos c delim e ne = ground arith

next_token-stop :
    (buffer : List ℕ) (pos delim : ℕ)
    → get_elem? buffer pos ≡ some 0
    → next_token delim (record { buffer = buffer; last_token = some pos })
      ≡ some (record { buffer = buffer; last_token = some pos }, none)
unfolding next_token
next_token-stop buffer pos delim e = ground arith

next_token-started :
    (t : Tokens) (pre : List ℕ) (c : ℕ) (post : List ℕ) (delim : ℕ)
    → Stands t pre (c ∷ post)
    → c ≢ 0
    → next_token delim t ≡ (do
      (buffer, pos') ← scan (c ∷ post) delim (length pre) (pre ++ c ∷ post)
      some (record { buffer = buffer; last_token = some pos' }, some (length pre)))
next_token-started t pre c post delim st ne =
    ap (next_token delim) (standing t pre (c ∷ post) st)
    ∙ next_token-here (pre ++ c ∷ post) (length pre) c delim (get_elem?-append pre c post) ne
    ∙ ap
        (λ (xs : List ℕ). do
          (buffer, pos') ← scan xs delim (length pre) (pre ++ c ∷ post)
          some (record { buffer = buffer; last_token = some pos' }, some (length pre)))
        (drop-append pre (c ∷ post))

-- A word that the delimiter ends: it is cut off, and the search goes on behind it.
pub next_token-word :
    (t : Tokens) (pre word rest : List ℕ) (delim : ℕ)
    → delim ≢ 0
    → IsWord delim word
    → Stands t pre (word ++ delim ∷ rest)
    → (t' : Tokens) × (next_token delim t ≡ some (t', some (length pre)))
      × Stands t' (pre ++ (word ++ 0 ∷ [])) rest
next_token-word t pre word rest delim ne w st = (
  record { buffer = pre ++ (word ++ 0 ∷ rest); last_token = some (length pre + length word + 1) },
  started word w st
      ∙ ap
          (λ (o : Option (List ℕ × ℕ)). do
            (buffer, pos') ← o
            some (record { buffer = buffer; last_token = some pos' }, some (length pre)))
          (scan_word pre word rest delim ne w),
  record {
    array = sym (simp append_assoc refl);
    place =
        ap some (omega (arith, length-append pre (word ++ 0 ∷ []), length-append word (0 ∷ [])));
  },
)
  where
    started :
        (word : List ℕ)
        → IsWord delim word
        → Stands t pre (word ++ delim ∷ rest)
        → next_token delim t ≡ (do
          (buffer, pos') ←
              scan (word ++ delim ∷ rest) delim (length pre) (pre ++ (word ++ delim ∷ rest))
          some (record { buffer = buffer; last_token = some pos' }, some (length pre)))
    started [] w st = next_token-started t pre delim rest delim st ne
    started (c ∷ word) w st = next_token-started t pre c (word ++ delim ∷ rest) delim st w.0.0

-- The last word of the line; the search stays on the terminator.
pub next_token-last :
    (t : Tokens) (pre : List ℕ) (c : ℕ) (word rest : List ℕ) (delim : ℕ)
    → IsWord delim (c ∷ word)
    → Stands t pre ((c ∷ word) ++ 0 ∷ rest)
    → (t' : Tokens) × (next_token delim t ≡ some (t', some (length pre)))
      × Stands t' (pre ++ (c ∷ word)) (0 ∷ rest)
next_token-last t pre c word rest delim w st = (
  record {
    buffer = pre ++ ((c ∷ word) ++ 0 ∷ rest);
    last_token = some (length pre + length (c ∷ word));
  },
  next_token-started t pre c (word ++ 0 ∷ rest) delim st w.0.0
      ∙ ap
          (λ (o : Option (List ℕ × ℕ)). do
            (buffer, pos') ← o
            some (record { buffer = buffer; last_token = some pos' }, some (length pre)))
          (scan_end (c ∷ word) rest (pre ++ ((c ∷ word) ++ 0 ∷ rest)) delim (length pre) w),
  record {
    array = sym (append_assoc pre (c ∷ word) (0 ∷ rest));
    place = ap some (omega (arith, length-append pre (c ∷ word)));
  },
)

-- On the terminator there is no further word.
pub next_token-end :
    (t : Tokens) (pre rest : List ℕ) (delim : ℕ)
    → Stands t pre (0 ∷ rest)
    → next_token delim t ≡ some (t, none)
next_token-end t pre rest delim st =
    ap (next_token delim) (standing t pre (0 ∷ rest) st)
    ∙ next_token-stop (pre ++ 0 ∷ rest) (length pre) delim (get_elem?-append pre 0 rest)
    ∙ ap (λ (u : Tokens). some (u, none)) (sym (standing t pre (0 ∷ rest) st))
