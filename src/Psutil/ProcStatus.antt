-- ===== src/Psutil/ProcStatus.antt =====
-- procGetMisc of psutil/process_infos.go: what is read of the status file of a process.
use go_bitflow_collector.Prelude.{
  ℕ, zero, suc, ◌+◌, ◌-◌, ◌*◌, ◌^◌, Bool, true, Option, none, some, List, [], ◌∷◌, if◌then◌else◌,
  ◌==◌, ◌&&◌, leb, ltb, ℤ, pos, negsuc, ◌+ℤ◌,
}
use go_bitflow_collector.Pcap.{Text, eq_text}
use go_bitflow_collector.Pcap.Proc.{split}

-- strconv.ParseInt(value, 10, bits), where `limit` is 2 ^ (bits - 1); none is an error.
unfoldable pub decimal_digits : Text → ℕ → Option ℕ
decimal_digits [] n = some n
decimal_digits (b ∷ text) n =
    let rest = decimal_digits text (10 * n + (b - b'0')) in
    if leb b'0' b && leb b b'9' then rest else none

unfoldable pub unsigned_decimal : Text → Option ℕ
unfolding decimal_digits
unsigned_decimal [] = none
unsigned_decimal (b ∷ text) = decimal_digits (b ∷ text) 0

abbrev pub in_positive : ℕ → Option ℕ → Option ℤ
in_positive limit none = none
in_positive limit (some n) = if ltb n limit then some (pos n) else none

abbrev pub in_negative : ℕ → Option ℕ → Option ℤ
in_negative limit none = none
in_negative limit (some zero) = some (pos 0)
in_negative limit (some (suc n)) = if ltb n limit then some (negsuc n) else none

unfoldable pub parse_int : ℕ → Text → Option ℤ
unfolding unsigned_decimal
parse_int limit [] = none
parse_int limit (b ∷ text) =
    if b == b'+'
    then in_positive limit (unsigned_decimal text)
    else if b == b'-'
    then in_negative limit (unsigned_decimal text)
    else in_positive limit (unsigned_decimal (b ∷ text))

-- strings.SplitN(line, "\t", 2): the two parts, if there are two.
unfoldable pub split_tab : Text → Option (Text × Text)
split_tab [] = none
split_tab (b ∷ line) = elim (split_tab line) [
  | none ↦ if b == 9 then some ([], line) else none
  | some (first, value) ↦ if b == 9 then some ([], line) else some (b ∷ first, value)
]

-- strings.TrimRight(text, ":")
unfoldable pub trim_colons : Text → Text
trim_colons [] = []
trim_colons (b ∷ text) = elim (trim_colons text) [
  | [] ↦ if b == b':' then [] else b ∷ []
  | c ∷ rest ↦ b ∷ c ∷ rest
]

abbrev pub threads_key : Text
threads_key = b'T' ∷ b'h' ∷ b'r' ∷ b'e' ∷ b'a' ∷ b'd' ∷ b's' ∷ []

abbrev switches_key : Text
switches_key =
    b'v' ∷ b'o' ∷ b'l' ∷ b'u' ∷ b'n' ∷ b't' ∷ b'a' ∷ b'r' ∷ b'y' ∷ b'_' ∷ b'c' ∷ b't' ∷ b'x' ∷ b't'
    ∷ b'_' ∷ b's' ∷ b'w' ∷ b'i' ∷ b't' ∷ b'c' ∷ b'h' ∷ b'e' ∷ b's' ∷ []

abbrev pub voluntary_key : Text
voluntary_key = switches_key

abbrev pub involuntary_key : Text
involuntary_key = b'n' ∷ b'o' ∷ b'n' ∷ switches_key

-- The results of procGetMisc, and leftover_fields.
pub record Misc : Type 0 where
  pub num_threads : ℤ
  pub voluntary : ℤ
  pub involuntary : ℤ
  pub leftover_fields : ℤ

abbrev pub no_misc : Misc
no_misc = record {
  num_threads = pos 0;
  voluntary = pos 0;
  involuntary = pos 0;
  leftover_fields = pos 3;
}

-- The switch of the loop: none is an error.
unfoldable pub read_field : Text → Text → Misc → Option Misc
unfolding parse_int
read_field key value misc =
    let left = misc.leftover_fields +ℤ negsuc 0 in
    if eq_text key threads_key
    then elim (parse_int (2 ^ 31) value) [
      | none ↦ none
      | some v ↦ some (record misc { num_threads = v; leftover_fields = left })
    ]
    else if eq_text key voluntary_key
    then elim (parse_int (2 ^ 63) value) [
      | none ↦ none
      | some v ↦ some (record misc { voluntary = v; leftover_fields = left })
    ]
    else if eq_text key involuntary_key
    then elim (parse_int (2 ^ 63) value) [
      | none ↦ none
      | some v ↦ some (record misc { involuntary = v; leftover_fields = left })
    ]
    else some misc

-- leftover_fields <= 0
abbrev pub is_done : ℤ → Bool
is_done (pos n) = n == 0
is_done (negsuc n) = true

unfoldable pub read_line : Text → Misc → Option Misc
unfolding split_tab trim_colons read_field
read_line line misc = elim (split_tab line) [
  | none ↦ some misc
  | some (first, value) ↦ read_field (trim_colons first) value misc
]

-- The loop over the lines. A line without a tab is skipped, with the test of leftover_fields,
-- which is the same as before.
unfoldable pub read_lines : List Text → Misc → Option Misc
unfolding read_line
read_lines [] misc = some misc
read_lines (line ∷ lines) misc = elim (read_line line misc) [
  | none ↦ none
  | some misc' ↦
      let rest = read_lines lines misc' in
      if is_done misc'.leftover_fields then some misc' else rest
]

-- procGetMisc, on the contents of the file.
unfoldable pub proc_get_misc : Option Text → Option Misc
unfolding read_lines split
proc_get_misc none = none
proc_get_misc (some contents) = read_lines (split 10 contents) no_misc
