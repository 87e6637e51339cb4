-- ===== src/Pcap/Proc/Address.antt =====
-- The IPv4 addresses that parseIp of pcap/proc.go reads.
use go_bitflow_collector.Prelude.{
  ℕ, ◌+◌, ◌-◌, ◌*◌, ◌/◌, ◌%◌, ◌<◌, ◌≤◌, ◌≡◌, refl, ap, ◌∙◌, some, [], ◌∷◌, ◌++◌, if◌then◌else◌, ltb,
  arith, pos,
}
use go_bitflow_collector.Pcap.{Text, ok}
use go_bitflow_collector.Pcap.Proc.{
  hex_digit, hex_digits, unsigned, parse_hex, parse_ip, join_ipv4, show_nat, show_int, slice,
}

-- A byte as the kernel writes it, in two upper-case hexadecimal digits.
unfoldable pub hex_char : ℕ → ℕ
hex_char d = if ltb d 10 then b'0' + d else b'A' + (d - 10)

unfoldable pub hex_byte : ℕ → Text
hex_byte n = hex_char (n / 16) ∷ hex_char (n % 16) ∷ []

-- A number below 1000 in decimal digits, without leading zeros.
unfoldable pub decimal : ℕ → Text
decimal n =
    if ltb n 10
    then (b'0' + n) ∷ []
    else if ltb n 100
    then (b'0' + n / 10) ∷ (b'0' + n % 10) ∷ []
    else (b'0' + n / 100) ∷ (b'0' + n / 10 % 10) ∷ (b'0' + n % 10) ∷ []

hex_digit-hex_char : (d : ℕ) → d < 16 → hex_digit (hex_char d) ≡ some d
unfolding hex_digit hex_char
hex_digit-hex_char d h = ground arith

hex_char-no_sign : (d : ℕ) → b'0' ≤ hex_char d
unfolding hex_char
hex_char-no_sign d = ground arith

high : (n : ℕ) → n < 256 → n / 16 < 16
high n h = omega arith

joined : (n : ℕ) → 16 * (16 * 0 + n / 16) + n % 16 ≡ n
joined n = omega arith

two_digits :
    (x y d e : ℕ)
    → hex_digit x ≡ some d
    → hex_digit y ≡ some e
    → hex_digits (x ∷ y ∷ []) 0 ≡ some (16 * (16 * 0 + d) + e)
unfolding hex_digits
two_digits x y d e first second = ground (arith, first, second)

unsigned-hex_byte : (n : ℕ) → n < 256 → unsigned (hex_byte n) ≡ some n
unfolding unsigned hex_byte
unsigned-hex_byte n h =
    two_digits (hex_char (n / 16)) (hex_char (n % 16)) (n / 16) (n % 16)
      (hex_digit-hex_char (n / 16) (high n h)) (hex_digit-hex_char (n % 16) (omega arith))
    ∙ ap (λ (k : ℕ). some k) (joined n)

parse_hex-hex_byte : (n : ℕ) → n < 256 → parse_hex (hex_byte n) ≡ ok (pos n)
unfolding parse_hex hex_byte
parse_hex-hex_byte n h = ground (arith, hex_char-no_sign (n / 16), unsigned-hex_byte n h)

show_nat-decimal : (n : ℕ) → n < 1000 → show_nat 10 n ≡ decimal n
unfolding show_nat decimal
show_nat-decimal n h = ground arith

-- The IPv4 address that the kernel writes as the bytes a, b, c and d in hexadecimal, from the last
-- to the first as on a little-endian machine, is read by parseIp as d.c.b.a in decimal.
pub parse_ip-hex_byte :
    (a b c d : ℕ)
    → a < 256
    → b < 256
    → c < 256
    → d < 256
    → parse_ip (hex_byte a ++ (hex_byte b ++ (hex_byte c ++ hex_byte d)))
      ≡ ok (decimal d ++ b'.' ∷ decimal c ++ b'.' ∷ decimal b ++ b'.' ∷ decimal a)
unfolding parse_ip slice hex_byte join_ipv4 show_int
parse_ip-hex_byte a b c d ha hb hc hd =
    rw
      (
        parse_hex-hex_byte a ha,
        parse_hex-hex_byte b hb,
        parse_hex-hex_byte c hc,
        parse_hex-hex_byte d hd,
      )
      (rw
        (
          show_nat-decimal a (omega arith),
          show_nat-decimal b (omega arith),
          show_nat-decimal c (omega arith),
          show_nat-decimal d (omega arith),
        )
        refl)
