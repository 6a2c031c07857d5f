-- ===== src/Fat16/Listed.antt =====
-- What `list_files` of fs/fat16.c prints, against the list of the entries in use.
use first_kernel.Base.{
  take, drop, subst, ==_ne, ap₂, ◌≢◌, ℕ_discrete, ℕ, suc, ◌+◌, ◌<◌, ◌^◌, ◌≡◌, refl, ap, sym, ◌∙◌,
  List, [], ◌∷◌, ◌++◌, Option, some, All, length, arith, append_assoc, append-nil, ◌==◌,
  if◌then◌else◌, Bool, true, false, replicate,
}
use first_kernel.Base.Partial.{◌>>=◌}
use first_kernel.Base.Text.{IsPlain, codes, Console, c_text}
use first_kernel.CString.Printed.{decimal, itoa-printed}
use first_kernel.Fat16.Layout.{DirEntry, name, attributes, size}
use first_kernel.Fat16.Volume.{Volume, say}
use first_kernel.Fat16.Stored.{here}
use first_kernel.Fat16.Listing.{
  say_text, name_text, ext_text, say_number, list_entry, list_from, list_files,
}

-- The entries before the first one that was never used, less the deleted ones.
unfoldable pub live : List DirEntry → List DirEntry
live [] = []
live (e ∷ es) =
    let rest = live es in
    if name e 0 == 0x00 then [] else if name e 0 == 0xE5 then rest else e ∷ rest

-- The bytes in front of the first zero.
unfoldable pub up_to_zero : List ℕ → List ℕ
up_to_zero [] = []
up_to_zero (c ∷ s) = let rest = up_to_zero s in if c == 0 then [] else c ∷ rest

-- Name and extension, which may fill their fields without a zero.
abbrev pub name_of : DirEntry → List ℕ
name_of e = take 8 e

abbrev pub ext_of : DirEntry → List ℕ
ext_of e = take 3 (drop 8 e)

-- The line of an entry, as the messages it is printed in.
unfoldable pub line : DirEntry → Console
line e =
    if attributes e == 0x10
    then codes "[DIR] " ∷ up_to_zero (name_of e) ∷ codes "\n" ∷ []
    else codes "File: "
      ∷ up_to_zero (name_of e)
      ∷ codes "."
      ∷ up_to_zero (ext_of e)
      ∷ codes " ("
      ∷ decimal (size e)
      ∷ codes " bytes)\n"
      ∷ []

unfoldable pub listing : List DirEntry → Console
listing [] = []
listing (e ∷ es) = line e ++ listing es

-- Several messages, one after another; nothing but the console changes.
unfoldable pub says : Console → Volume → Volume
says messages v = record v { console = v.console ++ messages }

abbrev pub title : Volume → List ℕ
title v =
    if v.current_dir_cluster == 0
    then codes "\n--- ROOT DIR ---\n"
    else codes "\n--- FOLDER DIR ---\n"

abbrev pub footer : List DirEntry → Console
footer es =
    if length es == 0 then codes "Files not found\n" ∷ codes "---------------\n" ∷ [] else []

-- An entry whose size nine digits hold, and whose name and extension have no `%d`.
abbrev pub IsListable : DirEntry → Type 0
IsListable e = (size e < 10 ^ 9) × IsPlain (name_of e) × IsPlain (ext_of e)

c_text-up_to_zero : (s : List ℕ) → IsPlain s → c_text (s ++ 0 ∷ []) ≡ up_to_zero s
unfolding c_text up_to_zero
c_text-up_to_zero [] p = refl
c_text-up_to_zero (c ∷ []) p = ground arith
c_text-up_to_zero (c ∷ d ∷ s) p = ground (arith, p.0, c_text-up_to_zero (d ∷ s) p.1)

console_ap :
    (v : Volume) {c c' : Console}
    → c ≡ c'
    → some (record v { console = c }) ≡ some (record v { console = c' })
console_ap v p = ap (λ (c : Console). some (record v { console = c })) p

append3 : (a b c d : Console) → a ++ b ++ c ++ d ≡ a ++ (b ++ (c ++ d))
append3 a b c d = simp append_assoc refl

pub says-says : (ms ns : Console) (v : Volume) → says ns (says ms v) ≡ says (ms ++ ns) v
unfolding says
says-says ms ns v = ap (λ (c : Console). record v { console = c }) (append_assoc v.console ms ns)

say_number_lem : (n : ℕ) (v : Volume) → n < 10 ^ 9 → say_number n v ≡ some (say (decimal n) v)
unfolding say_number
say_number_lem n v h =
    let (s, writes, shows) = itoa-printed n (replicate 10 0) h refl in
    rw (writes) (ap (λ (m : List ℕ). some (say m v)) shows)

-- The same line with what `print` puts out of the copies of name and extension.
raw_line : DirEntry → List ℕ → List ℕ → Console
raw_line e named extended =
    if attributes e == 0x10
    then codes "[DIR] " ∷ named ∷ codes "\n" ∷ []
    else codes "File: "
      ∷ named
      ∷ codes "."
      ∷ extended
      ∷ codes " ("
      ∷ decimal (size e)
      ∷ codes " bytes)\n"
      ∷ []

raw_line-line :
    (e : DirEntry) → IsListable e → raw_line e (c_text (name_text e)) (c_text (ext_text e)) ≡ line e
unfolding raw_line line
raw_line-line e h =
    ap₂ (raw_line e) (c_text-up_to_zero (name_of e) h.1) (c_text-up_to_zero (ext_of e) h.2)

list_entry_lem-directory :
    (e : DirEntry) (v : Volume)
    → attributes e ≡ 0x10
    → list_entry e v ≡ some (says (raw_line e (c_text (name_text e)) (c_text (ext_text e))) v)
unfolding list_entry raw_line says
list_entry_lem-directory e v h = ground (
  arith,
  console_ap v
      (append3 v.console (codes "[DIR] " ∷ []) (c_text (name_text e) ∷ []) (codes "\n" ∷ [])),
)

abbrev before : DirEntry → Volume → Volume
before e v =
    say (codes " (")
      (say_text (ext_text e) (say (codes ".") (say_text (name_text e) (say (codes "File: ") v))))

list_entry_lem-file :
    (e : DirEntry) (v : Volume)
    → attributes e ≢ 0x10
    → size e < 10 ^ 9
    → list_entry e v ≡ some (says (raw_line e (c_text (name_text e)) (c_text (ext_text e))) v)
unfolding list_entry raw_line says
list_entry_lem-file e v ne h =
    ap
      (λ (b : Bool). elim b [
        | true ↦ some (say (codes "\n") (say_text (name_text e) (say (codes "[DIR] ") v)))
        | false ↦ (do v3 ← say_number (size e) (before e v); some (say (codes " bytes)\n") v3))
      ])
      (==_ne (attributes e) 0x10 ne)
    ∙ ap (λ (o : Option Volume). do v3 ← o; some (say (codes " bytes)\n") v3))
        (say_number_lem (size e) (before e v) h)
    ∙ rw (==_ne (attributes e) 0x10 ne) (console_ap v (simp append_assoc refl))

list_entry_raw :
    (e : DirEntry) (v : Volume)
    → size e < 10 ^ 9
    → list_entry e v ≡ some (says (raw_line e (c_text (name_text e)) (c_text (ext_text e))) v)
list_entry_raw e v h = elim (ℕ_discrete (attributes e) 0x10) [
  | yes dir ↦ list_entry_lem-directory e v dir
  | no file ↦ list_entry_lem-file e v file h
]

list_entry_lem :
    (e : DirEntry) (v : Volume) → IsListable e → list_entry e v ≡ some (says (line e) v)
list_entry_lem e v h =
    list_entry_raw e v h.0 ∙ ap (λ (c : Console). some (says c v)) (raw_line-line e h)

live-last : (e : DirEntry) (es : List DirEntry) → name e 0 ≡ 0x00 → live (e ∷ es) ≡ []
unfolding live
live-last e es h = ground arith

live-gone : (e : DirEntry) (es : List DirEntry) → name e 0 ≡ 0xE5 → live (e ∷ es) ≡ live es
unfolding live
live-gone e es h = ground arith

live-used :
    (e : DirEntry) (es : List DirEntry)
    → name e 0 ≢ 0x00
    → name e 0 ≢ 0xE5
    → live (e ∷ es) ≡ e ∷ live es
unfolding live
live-used e es n0 n1 = ground arith

says-nothing : (v : Volume) → says [] v ≡ v
unfolding says
says-nothing v = ap (λ (c : Console). record v { console = c }) (append-nil v.console)

list_from-used :
    (e : DirEntry) (es : List DirEntry) (k : ℕ) (v : Volume)
    → name e 0 ≢ 0x00
    → name e 0 ≢ 0xE5
    → list_from (e ∷ es) k v ≡ (do v' ← list_entry e v; list_from es (k + 1) v')
unfolding list_from
list_from-used e es k v n0 n1 = ground arith

list_from_lem :
    (es : List DirEntry) (k : ℕ) (v : Volume)
    → All IsListable (live es)
    → list_from es k v ≡ some (says (listing (live es)) v, k + length (live es))
unfolding list_from listing says live
list_from_lem [] k v h =
    ap₂ (λ (w : Volume) (n : ℕ). some (w, n)) (sym (says-nothing v)) (omega arith)
list_from_lem (e ∷ es) k v h = elim (ℕ_discrete (name e 0) 0x00) [
  | yes last ↦ ground (arith, says-nothing v, live-last e es last)
  | no more ↦ elim (ℕ_discrete (name e 0) 0xE5) [
    | yes gone ↦ ground (
      arith,
      live-gone e es gone,
      list_from_lem es k v (subst (All IsListable) (live-gone e es gone) h),
    )
    | no used ↦
        let both = subst (All IsListable) (live-used e es more used) h in
        list_from-used e es k v more used
        ∙ ap (λ (o : Option Volume). do v' ← o; list_from es (k + 1) v') (list_entry_lem e v both.0)
        ∙ list_from_lem es (k + 1) (says (line e) v) both.1
        ∙ ap₂ (λ (w : Volume) (n : ℕ). some (w, n))
            (says-says (line e) (listing (live es)) v
              ∙ sym (ap (λ (l : List DirEntry). says (listing l) v) (live-used e es more used)))
            (omega (arith, ap length (live-used e es more used)))
  ]
]

ending :
    (es : List DirEntry) (t : List ℕ) (v : Volume)
    → (if 0 + length es == 0
        then say
            (codes "---------------\n")
            (say (codes "Files not found\n") (says (listing es) (say t v)))
        else says (listing es) (say t v))
      ≡ says (t ∷ (listing es ++ footer es)) v
unfolding says listing
ending [] t v =
    ap (λ (c : Console). record v { console = c }) (simp (append_assoc, append-nil) refl)
ending (e ∷ es) t v =
    rw
      (
        ==_ne (0 + suc (length es)) 0 (λ q. absurd (omega arith)),
        ==_ne (suc (length es)) 0 (λ q. absurd (omega arith)),
      )
      (ap (λ (c : Console). record v { console = c }) (simp (append_assoc, append-nil) refl))

-- In a directory whose entries in use have at most nine digits of size and no `%d` in name and
-- extension, `list_files` faults nowhere; it prints the title, a line for each entry in use, in their
-- order, and the note on an empty directory only there; it changes nothing but the console.
pub list_files_lem :
    (v : Volume)
    → All IsListable (live (here v))
    → list_files v ≡ some (says (title v ∷ (listing (live (here v)) ++ footer (live (here v)))) v)
unfolding list_files says
list_files_lem v h =
    rw (list_from_lem (here v) 0 (say (title v) v) h) (ap some (ending (live (here v)) (title v) v))
