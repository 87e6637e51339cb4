-- ===== src/Psutil/Status.antt =====
-- procGetMisc of psutil/process_infos.go on the file that the kernel writes.
use go_bitflow_collector.Prelude.{
  ℕ, ◌^◌, ◌<◌, ◌≡◌, refl, ◌∙◌, ap, true, false, none, some, List, [], ◌∷◌, ◌++◌, map, pos, negsuc,
  ◌+ℤ◌, contains, arith, length, Option-cases, inl, inr,
}
use go_bitflow_collector.Pcap.{Text, eq_text}
use go_bitflow_collector.Pcap.Proc.{split}
use go_bitflow_collector.Pcap.Proc.Split.{split-part, split_at}
use go_bitflow_collector.Psutil.ProcStatus.{
  split_tab, trim_colons, threads_key, voluntary_key, involuntary_key, Misc, read_field, read_line,
  read_lines, proc_get_misc, no_misc, is_done,
}
use go_bitflow_collector.Psutil.Decimal.{digits, number, IsNumber, parse_int-digits}

-- A line of the file: a field `key:\tvalue`, or a text without a tab.
pub data StatusLine : Type 0 where
  field : Text → Text → StatusLine
  bare : Text → StatusLine

abbrev pub line_text : StatusLine → Text
line_text (field key value) = key ++ b':' ∷ 9 ∷ value
line_text (bare text) = text

split_tab-bare : (text : Text) → contains 9 text ≡ false → split_tab text ≡ none
unfolding split_tab contains
split_tab-bare [] h = refl
split_tab-bare (b ∷ text) h = ground (arith, split_tab-bare text (ground (arith, h)), h)

split_tab_tab : (value : Text) → split_tab (9 ∷ value) ≡ some ([], value)
unfolding split_tab
split_tab_tab value = elim (Option-cases (split_tab value)) [
  | inl e ↦ ground (arith, e)
  | inr (parts, e) ↦ ground (arith, e)
]

split_tab-field :
    (key value : Text)
    → contains 9 key ≡ false
    → split_tab (key ++ b':' ∷ 9 ∷ value) ≡ some (key ++ b':' ∷ [], value)
unfolding split_tab contains
split_tab-field [] value h = ground (arith, split_tab_tab value)
split_tab-field (b ∷ key) value h = ground (arith, split_tab-field key value (ground (arith, h)), h)

trim_colons-key : (key : Text) → contains b':' key ≡ false → trim_colons (key ++ b':' ∷ []) ≡ key
unfolding trim_colons contains
trim_colons-key [] h = refl
trim_colons-key (b ∷ []) h = ground (arith, h)
trim_colons-key (b ∷ c ∷ key) h = ground (arith, trim_colons-key (c ∷ key) (ground (arith, h)), h)

-- A line that procGetMisc does not read: a text without a tab, or a field with another key.
abbrev pub IsOther : StatusLine → Type 0
IsOther (field key value) =
    (contains 9 key ≡ false)
    × (contains b':' key ≡ false)
    × (eq_text key threads_key ≡ false)
    × (eq_text key voluntary_key ≡ false)
    × (eq_text key involuntary_key ≡ false)
IsOther (bare text) = contains 9 text ≡ false

abbrev pub AreOther : List StatusLine → Type 0
AreOther [] = Unit {0}
AreOther (line ∷ lines) = IsOther line × AreOther lines

read_line-field :
    (key value : Text) (misc : Misc)
    → contains 9 key ≡ false
    → contains b':' key ≡ false
    → read_line (line_text (field key value)) misc ≡ read_field key value misc
unfolding read_line
read_line-field key value misc no_tab no_colon =
    let named : read_field (trim_colons (key ++ b':' ∷ [])) value misc ≡ read_field key value misc =
      ap (λ (k : Text). read_field k value misc) (trim_colons-key key no_colon) in
    ground (arith, split_tab-field key value no_tab, named)

read_line-other :
    (line : StatusLine) (misc : Misc) → IsOther line → read_line (line_text line) misc ≡ some misc
unfolding read_line read_field
read_line-other (bare text) misc h = ground (arith, split_tab-bare text h)
read_line-other (field key value) misc (no_tab, no_colon, t, v, w) =
    read_line-field key value misc no_tab no_colon ∙ ground (arith, t, v, w)

read_others :
    (others : List StatusLine) (lines : List Text) (misc : Misc)
    → AreOther others
    → is_done misc.leftover_fields ≡ false
    → read_lines (map line_text others ++ lines) misc ≡ read_lines lines misc
unfolding read_lines
read_others [] lines misc h going = refl
read_others (line ∷ others) lines misc (h, hs) going =
    ground (arith, read_line-other line misc h, going, read_others others lines misc hs going)

-- The lines joined as in the file.
abbrev pub unlines : List Text → Text
unlines [] = []
unlines (line ∷ []) = line
unlines (line ∷ next ∷ lines) = line ++ 10 ∷ unlines (next ∷ lines)

abbrev pub AreLines : List Text → Type 0
AreLines [] = Unit {0}
AreLines (line ∷ lines) = (contains 10 line ≡ false) × AreLines lines

split-unlines :
    (line : Text) (lines : List Text)
    → AreLines (line ∷ lines)
    → split 10 (unlines (line ∷ lines)) ≡ line ∷ lines
split-unlines line [] (h, hs) = split-part 10 line h
split-unlines line (next ∷ lines) (h, hs) =
    split_at 10 line (unlines (next ∷ lines)) h
    ∙ ap (λ (rest : List Text). line ∷ rest) (split-unlines next lines hs)

abbrev pub number_line : Text → List ℕ → Text
number_line key ds = line_text (field key (digits ds))

-- The fields stand in the kernel's order, among other lines.
abbrev pub status_lines :
    List StatusLine
    → List ℕ
    → List StatusLine
    → List ℕ
    → List StatusLine
    → List ℕ
    → List Text
    → List Text
status_lines first t second v third w rest =
    map line_text first
    ++ (number_line threads_key t
        ∷ (map line_text second
            ++ (number_line voluntary_key v
                ∷ (map line_text third ++ (number_line involuntary_key w ∷ rest)))))

read_threads :
    (ds : List ℕ) (misc : Misc)
    → IsNumber (2 ^ 31) ds
    → read_line (number_line threads_key ds) misc
      ≡ some (record misc {
        num_threads = pos (number ds);
        leftover_fields = misc.leftover_fields +ℤ negsuc 0;
      })
unfolding read_field eq_text contains
read_threads ds misc h =
    read_line-field threads_key (digits ds) misc refl refl
    ∙ ground (arith, parse_int-digits (2 ^ 31) ds h)

read_voluntary :
    (ds : List ℕ) (misc : Misc)
    → IsNumber (2 ^ 63) ds
    → read_line (number_line voluntary_key ds) misc
      ≡ some (record misc {
        voluntary = pos (number ds);
        leftover_fields = misc.leftover_fields +ℤ negsuc 0;
      })
unfolding read_field eq_text contains
read_voluntary ds misc h =
    read_line-field voluntary_key (digits ds) misc refl refl
    ∙ ground (arith, parse_int-digits (2 ^ 63) ds h)

read_involuntary :
    (ds : List ℕ) (misc : Misc)
    → IsNumber (2 ^ 63) ds
    → read_line (number_line involuntary_key ds) misc
      ≡ some (record misc {
        involuntary = pos (number ds);
        leftover_fields = misc.leftover_fields +ℤ negsuc 0;
      })
unfolding read_field eq_text contains
read_involuntary ds misc h =
    read_line-field involuntary_key (digits ds) misc refl refl
    ∙ ground (arith, parse_int-digits (2 ^ 63) ds h)

split-file :
    (lines : List Text) → 0 < length lines → AreLines lines → split 10 (unlines lines) ≡ lines
split-file [] full h = absurd (omega (arith, full))
split-file (line ∷ lines) full h = split-unlines line lines h

length-pos : (xs : List Text) (x : Text) (ys : List Text) → 0 < length (xs ++ x ∷ ys)
length-pos [] x ys = omega arith
length-pos (a ∷ xs) x ys = omega arith

-- A field after other lines, where there are more to come.
read_next :
    (others : List StatusLine) (line : Text) (lines : List Text) (misc misc' : Misc)
    → AreOther others
    → is_done misc.leftover_fields ≡ false
    → read_line line misc ≡ some misc'
    → is_done misc'.leftover_fields ≡ false
    → read_lines (map line_text others ++ line ∷ lines) misc ≡ read_lines lines misc'
unfolding read_lines
read_next others line lines misc misc' h going e more =
    read_others others (line ∷ lines) misc h going ∙ ground (arith, e, more)

-- The last field.
read_last :
    (others : List StatusLine) (line : Text) (lines : List Text) (misc misc' : Misc)
    → AreOther others
    → is_done misc.leftover_fields ≡ false
    → read_line line misc ≡ some misc'
    → is_done misc'.leftover_fields ≡ true
    → read_lines (map line_text others ++ line ∷ lines) misc ≡ some misc'
unfolding read_lines
read_last others line lines misc misc' h going e over =
    read_others others (line ∷ lines) misc h going ∙ ground (arith, e, over)

-- Where no line has a line break in it, the lines of the three fields stand in the kernel's order,
-- with a number in decimal that fits the type of the field, and the lines before and between them
-- have no tab, or another key without a tab and without a colon: procGetMisc reads exactly these
-- numbers, without an error, whatever lines follow.
pub proc_get_misc-unlines :
    (first second third : List StatusLine) (t v w : List ℕ) (rest : List Text)
    → AreOther first
    → AreOther second
    → AreOther third
    → IsNumber (2 ^ 31) t
    → IsNumber (2 ^ 63) v
    → IsNumber (2 ^ 63) w
    → AreLines (status_lines first t second v third w rest)
    → proc_get_misc (some (unlines (status_lines first t second v third w rest)))
      ≡ some (record {
        num_threads = pos (number t);
        voluntary = pos (number v);
        involuntary = pos (number w);
        leftover_fields = pos 0;
      })
unfolding proc_get_misc ◌+ℤ◌
proc_get_misc-unlines first second third t v w rest o1 o2 o3 n1 n2 n3 lines =
    let file = status_lines first t second v third w rest in
    let full : 0 < length file = length-pos (map line_text first) (number_line threads_key t) (
      map line_text second
      ++ (number_line voluntary_key v
          ∷ (map line_text third ++ (number_line involuntary_key w ∷ rest)))) in
    let misc1 = record no_misc { num_threads = pos (number t); leftover_fields = pos 2 } in
    let misc2 = record misc1 { voluntary = pos (number v); leftover_fields = pos 1 } in
    let misc3 = record misc2 { involuntary = pos (number w); leftover_fields = pos 0 } in
    ap (λ (ls : List Text). read_lines ls no_misc) (split-file file full lines)
    ∙ read_next first (number_line threads_key t)
        (map line_text second
          ++ (number_line voluntary_key v
              ∷ (map line_text third ++ (number_line involuntary_key w ∷ rest))))
        no_misc misc1 o1 refl (read_threads t no_misc n1) refl
    ∙ read_next second (number_line voluntary_key v)
        (map line_text third ++ (number_line involuntary_key w ∷ rest)) misc1 misc2 o2 refl
        (read_voluntary v misc1 n2) refl
    ∙ read_last third (number_line involuntary_key w) rest misc2 misc3 o3 refl
        (read_involuntary w misc2 n3) refl
