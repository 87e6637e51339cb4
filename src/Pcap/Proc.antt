-- ===== src/Pcap/Proc.antt =====
-- pcap/proc.go: the connections that the kernel lists in /proc/net. A file is the list of its bytes.
pub mod Address
pub mod Split
use go_bitflow_collector.Prelude.{
  ℕ, zero, suc, ◌+◌, ◌-◌, ◌*◌, ◌/◌, ◌%◌, ◌^◌, Bool, true, false, Option, none, some, List, [], ◌∷◌,
  ◌++◌, map, if◌then◌else◌, ltb, leb, ◌==◌, ◌&&◌, ◌||◌, not, length, take, drop, get_elem?, ℤ, pos,
  negsuc,
}
use go_bitflow_collector.Pcap.{
  Text, Connection, Connections, eq_text, all_connection_types, default_connection, Result, ok, err,
  panic,
}

infixl 5 ◌then_do◌
abbrev pub ◌then_do◌ : {A B : Type 0} → Result A → (A → Result B) → Result B
ok a then_do f = f a
err then_do f = err
panic then_do f = panic

abbrev pub index : {A : Type 0} → List A → ℕ → Result A
index list i = elim (get_elem? list i) [ none ↦ panic | some a ↦ ok a ]

-- s[lo:hi]
unfoldable pub slice : ℕ → ℕ → Text → Result Text
slice lo hi text =
    if leb lo hi && leb hi (length text) then ok (take (hi - lo) (drop lo text)) else panic

-- strings.Split by one byte.
unfoldable pub add_first : ℕ → List Text → List Text
add_first b [] = (b ∷ []) ∷ []
add_first b (part ∷ parts) = (b ∷ part) ∷ parts

unfoldable pub split : ℕ → Text → List Text
unfolding add_first
split sep [] = [] ∷ []
split sep (b ∷ text) = let rest = split sep text in if b == sep then [] ∷ rest else add_first b rest

-- strings.Fields of ASCII text: the parts that are not empty between white space.
abbrev pub is_space : ℕ → Bool
is_space b = b == b' ' || (leb 9 b && leb b 13)

unfoldable pub drop_empty : List Text → List Text
drop_empty [] = []
drop_empty ([] ∷ parts) = drop_empty parts
drop_empty ((b ∷ part) ∷ parts) = (b ∷ part) ∷ drop_empty parts

unfoldable pub fields : Text → List Text
unfolding split drop_empty
fields text = drop_empty (split b' ' (map (λ b. if is_space b then b' ' else b) text))

-- strconv.ParseInt(h, 16, 32); an error is none.
unfoldable pub hex_digit : ℕ → Option ℕ
hex_digit b =
    if leb b'0' b && leb b b'9'
    then some (b - b'0')
    else if leb b'a' b && leb b b'f'
    then some (b - b'a' + 10)
    else if leb b'A' b && leb b b'F'
    then some (b - b'A' + 10)
    else none

unfoldable pub hex_digits : Text → ℕ → Option ℕ
unfolding hex_digit
hex_digits [] n = some n
hex_digits (b ∷ text) n = elim (hex_digit b) [ none ↦ none | some d ↦ hex_digits text (16 * n + d) ]

unfoldable pub unsigned : Text → Option ℕ
unfolding hex_digits
unsigned [] = none
unsigned (b ∷ text) = hex_digits (b ∷ text) 0

abbrev bounded_pos : Option ℕ → Result ℤ
bounded_pos none = err
bounded_pos (some n) = if ltb n (2 ^ 31) then ok (pos n) else err

abbrev bounded_neg : Option ℕ → Result ℤ
bounded_neg none = err
bounded_neg (some zero) = ok (pos 0)
bounded_neg (some (suc n)) = if ltb n (2 ^ 31) then ok (negsuc n) else err

unfoldable pub parse_hex : Text → Result ℤ
unfolding unsigned
parse_hex [] = err
parse_hex (b ∷ text) =
    if b == b'+'
    then bounded_pos (unsigned text)
    else if b == b'-'
    then bounded_neg (unsigned text)
    else bounded_pos (unsigned (b ∷ text))

-- %v of an int. The fuel bounds the digits.
unfoldable pub show_nat : ℕ → ℕ → Text
show_nat zero n = []
show_nat (suc fuel) n =
    let last : Text = (b'0' + n % 10) ∷ [] in
    if ltb n 10 then last else show_nat fuel (n / 10) ++ last

-- An int that parseHex returns has at most ten digits.
unfoldable pub show_int : ℤ → Text
unfolding show_nat
show_int (pos n) = show_nat 10 n
show_int (negsuc n) = b'-' ∷ show_nat 10 (suc n)

-- i[k] in parseIp: the k-th pair of characters from the end.
abbrev pair_at : Text → ℕ → Text
pair_at ip k = take 2 (drop (30 - 2 * k) ip)

abbrev group : Text → ℕ → ℕ → Text
group ip j k = pair_at ip j ++ pair_at ip k

abbrev colon : Text → Text
colon text = b':' ∷ text

unfoldable pub parse_ipv6 : Text → Text
parse_ipv6 ip =
    group ip 14 15
    ++ colon (
        group ip 12 13
        ++ colon (
            group ip 10 11
            ++ colon (
                group ip 8 9
                ++ colon (
                    group ip 6 7
                    ++ colon (group ip 4 5 ++ colon (group ip 2 3 ++ colon (group ip 0 1)))))))

unfoldable pub join_ipv4 : ℤ → ℤ → ℤ → ℤ → Text
unfolding show_int
join_ipv4 a b c d = show_int d ++ b'.' ∷ show_int c ++ b'.' ∷ show_int b ++ b'.' ∷ show_int a

unfoldable pub parse_ip : Text → Result Text
unfolding parse_ipv6 slice parse_hex join_ipv4
parse_ip ip =
    if length ip == 32
    then ok (parse_ipv6 ip)
    else if length ip == 8
    then (slice 0 2 ip then_do λ s0. parse_hex s0 then_do λ a. slice 2 4 ip then_do λ s1.
        parse_hex s1 then_do λ b. slice 4 6 ip then_do λ s2. parse_hex s2 then_do λ c.
        slice 6 8 ip then_do λ s3. parse_hex s3 then_do λ d. ok (join_ipv4 a b c d))
    else err

-- stateMap; a state that it does not list is the empty string.
abbrev state_map : List (Text × Text)
state_map =
    (
      b'0' ∷ b'1' ∷ [],
      b'e' ∷ b's' ∷ b't' ∷ b'a' ∷ b'b' ∷ b'l' ∷ b'i' ∷ b's' ∷ b'h' ∷ b'e' ∷ b'd' ∷ [],
    )
    ∷ (b'0' ∷ b'2' ∷ [], b's' ∷ b'y' ∷ b'n' ∷ b'_' ∷ b's' ∷ b'e' ∷ b'n' ∷ b't' ∷ [])
    ∷ (b'0' ∷ b'3' ∷ [], b's' ∷ b'y' ∷ b'n' ∷ b'_' ∷ b'r' ∷ b'e' ∷ b'c' ∷ b'v' ∷ [])
    ∷ (b'0' ∷ b'4' ∷ [], b'f' ∷ b'i' ∷ b'n' ∷ b'_' ∷ b'w' ∷ b'a' ∷ b'i' ∷ b't' ∷ b'1' ∷ [])
    ∷ (b'0' ∷ b'5' ∷ [], b'f' ∷ b'i' ∷ b'n' ∷ b'_' ∷ b'w' ∷ b'a' ∷ b'i' ∷ b't' ∷ b'2' ∷ [])
    ∷ (b'0' ∷ b'6' ∷ [], b't' ∷ b'i' ∷ b'm' ∷ b'e' ∷ b'_' ∷ b'w' ∷ b'a' ∷ b'i' ∷ b't' ∷ [])
    ∷ (b'0' ∷ b'7' ∷ [], b'c' ∷ b'l' ∷ b'o' ∷ b's' ∷ b'e' ∷ [])
    ∷ (b'0' ∷ b'8' ∷ [], b'c' ∷ b'l' ∷ b'o' ∷ b's' ∷ b'e' ∷ b'_' ∷ b'w' ∷ b'a' ∷ b'i' ∷ b't' ∷ [])
    ∷ (b'0' ∷ b'9' ∷ [], b'l' ∷ b'a' ∷ b's' ∷ b't' ∷ b'_' ∷ b'a' ∷ b'c' ∷ b'k' ∷ [])
    ∷ (b'0' ∷ b'A' ∷ [], b'l' ∷ b'i' ∷ b's' ∷ b't' ∷ b'e' ∷ b'n' ∷ [])
    ∷ (b'0' ∷ b'B' ∷ [], b'c' ∷ b'l' ∷ b'o' ∷ b's' ∷ b'i' ∷ b'n' ∷ b'g' ∷ [])
    ∷ []

unfoldable pub state_of : List (Text × Text) → Text → Text
state_of [] code = []
state_of ((key, state) ∷ map) code =
    let rest = state_of map code in if eq_text key code then state else rest

unfoldable pub parse_connection_line : Text → Text → Result Connection
unfolding fields split parse_hex parse_ip state_of
parse_connection_line typ line =
    let parts = fields line in
    index parts 1 then_do λ local.
    let ip_port = split b':' local in
    index ip_port 1 then_do λ port_str. parse_hex port_str then_do λ port.
    index parts 2 then_do λ remote.
    let remote_ip_port = split b':' remote in
    index remote_ip_port 1 then_do λ remote_port_str.
    parse_hex remote_port_str then_do λ remote_port. index ip_port 0 then_do λ ip_str.
    parse_ip ip_str then_do λ ip. index remote_ip_port 0 then_do λ remote_ip_str.
    parse_ip remote_ip_str then_do λ remote_ip. index parts 3 then_do λ code.
    index parts 9 then_do λ inode. ok (record (default_connection typ) {
      state = state_of state_map code;
      inode = inode;
      ip = ip;
      port = port;
      fip = remote_ip;
      fport = remote_port;
    })

-- The loop of ReadConnections.
unfoldable pub parse_lines : Text → List Text → Result (List Connection)
unfolding parse_connection_line
parse_lines typ [] = ok []
parse_lines typ (line ∷ lines) = parse_connection_line typ line then_do λ con.
    parse_lines typ lines then_do λ cons. ok (con ∷ cons)

-- lines[1 : len(lines)-1]
abbrev inner_lines : List Text → Result (List Text)
inner_lines lines =
    if ltb (length lines) 2 then panic else ok (take (length lines - 2) (drop 1 lines))

-- `files` is ioutil.ReadFile of a type's file in /proc/net; none is an error.
module _ (files : Text → Option Text) where
  unfoldable pub read_connections : Text → Result (List Connection)
  unfolding parse_lines split
  read_connections typ = elim (files typ) [
    | none ↦ err
    | some contents ↦ inner_lines (split 10 contents) then_do λ lines. parse_lines typ lines
  ]

  unfoldable pub read_types : List Text → Result (List Connection)
  unfolding read_connections
  read_types [] = ok []
  read_types (typ ∷ types) =
      read_connections typ then_do λ cons. read_types types then_do λ all. ok (cons ++ all)

  abbrev pub read_all_connections : Result (List Connection)
  read_all_connections = read_types all_connection_types
