-- ===== src/Psutil/Decimal.antt =====
-- strconv.ParseInt on numbers in decimal.
use go_bitflow_collector.Prelude.{
  ℕ, suc, ◌+◌, ◌-◌, ◌*◌, ◌^◌, ◌<◌, ◌≡◌, ◌∙◌, sym, ap, true, false, none, some, List, [], ◌∷◌, map,
  if◌then◌else◌, ◌==◌, ◌&&◌, leb, ltb, pos, arith, length,
}
use go_bitflow_collector.Pcap.{Text}
use go_bitflow_collector.Psutil.ProcStatus.{
  decimal_digits, unsigned_decimal, parse_int, in_positive, in_negative,
}

-- A number in decimal: its digits, from the first to the last.
abbrev pub AreDigits : List ℕ → Type 0
AreDigits [] = Unit {0}
AreDigits (d ∷ ds) = (d < 10) × AreDigits ds

abbrev pub digits : List ℕ → Text
digits ds = map (λ d. b'0' + d) ds

-- The number with the digits: each has the weight of ten to the power of those behind it.
abbrev pub number : List ℕ → ℕ
number [] = 0
number (d ∷ ds) = d * 10 ^ length ds + number ds

shift : (n d p r : ℕ) → (10 * n + d) * p + r ≡ n * (10 * p) + (d * p + r)
shift n d p r = omega arith

digit-read :
    (d n : ℕ)
    → d < 10
    → ((leb b'0' (b'0' + d) && leb (b'0' + d) b'9') ≡ true)
      × (10 * n + (b'0' + d - b'0') ≡ 10 * n + d)
digit-read d n h = (ground (arith, h), omega arith)

power_suc : (k : ℕ) → 10 ^ suc k ≡ 10 * 10 ^ k
power_suc k = omega arith

decimal_digits-digits :
    (ds : List ℕ) (n : ℕ)
    → AreDigits ds
    → decimal_digits (digits ds) n ≡ some (n * 10 ^ length ds + number ds)
unfolding decimal_digits
decimal_digits-digits [] n h = ap some (omega arith)
decimal_digits-digits (d ∷ ds) n (h, hs) =
    let (is_digit, read) = digit-read d n h in
    let rest = decimal_digits-digits ds (10 * n + d) hs in
    let next : decimal_digits (digits ds) (10 * n + (b'0' + d - b'0'))
        ≡ some ((10 * n + d) * 10 ^ length ds + number ds) =
      ap (decimal_digits (digits ds)) read ∙ rest in
    let same : (10 * n + d) * 10 ^ length ds + number ds
        ≡ n * 10 ^ suc (length ds) + (d * 10 ^ length ds + number ds) =
      shift n d (10 ^ length ds) (number ds)
      ∙ ap (λ p. n * p + (d * 10 ^ length ds + number ds)) (sym (power_suc (length ds))) in
    ap (λ b. if b then decimal_digits (digits ds) (10 * n + (b'0' + d - b'0')) else none) is_digit
    ∙ next
    ∙ ap some same

-- A number that a field of the type with this limit holds.
abbrev pub IsNumber : ℕ → List ℕ → Type 0
IsNumber limit ds = (0 < length ds) × AreDigits ds × (number ds < limit)

pub parse_int-digits :
    (limit : ℕ) (ds : List ℕ)
    → IsNumber limit ds
    → parse_int limit (digits ds) ≡ some (pos (number ds))
unfolding parse_int unsigned_decimal
parse_int-digits limit [] (full, are, below) = absurd (omega (arith, full))
parse_int-digits limit (d ∷ ds) (full, are, below) =
    let parsed : decimal_digits (digits (d ∷ ds)) 0 ≡ some (number (d ∷ ds)) =
      decimal_digits-digits (d ∷ ds) 0 are ∙ ap some (omega arith) in
    let no_plus : (b'0' + d == b'+') ≡ false = ground arith in
    let no_minus : (b'0' + d == b'-') ≡ false = ground arith in
    let in_range : ltb (number (d ∷ ds)) limit ≡ true = ground (arith, below) in
    let signed = in_positive limit (unsigned_decimal (digits ds)) in
    let negated = in_negative limit (unsigned_decimal (digits ds)) in
    let plain = in_positive limit (decimal_digits (digits (d ∷ ds)) 0) in
    ap (λ b. if b then signed else if b'0' + d == b'-' then negated else plain) no_plus
    ∙ ap (λ b. if b then negated else plain) no_minus
    ∙ ap (in_positive limit) parsed
    ∙ ap (λ b. if b then some (pos (number (d ∷ ds))) else none) in_range
