-- ===== src/Server/Address.antt =====
-- core::net: how a text is read as a SocketAddr. A reader takes what it reads off the text.
pub mod Laws
use Prim.Native.Char.{Char, code}
use Prim.Native.String
use gb_mahjong_server_rust.Prelude.{
  ℕ, zero, suc, ◌+◌, ◌-◌, ◌*◌, ◌≡◌, refl, Bool, true, false, Option, none, some, List, [], ◌∷◌,
  ◌++◌, String, length, ltb, unwrap_or, leb, nat_beq, if◌then◌else◌, ◌&&◌, ◌||◌, not,
}
use gb_mahjong_server_rust.Server.Number.{decimal_digit, hex_digit, u16_max}

-- The segments of an address, and what follows it.
pub data SocketAddr : Type 0 where
  v4 : (octets : List ℕ) (port : ℕ) → SocketAddr
  v6 : (segments : List ℕ) (scope_id port : ℕ) → SocketAddr

abbrev pub port_of : SocketAddr → ℕ
port_of (v4 octets port) = port
port_of (v6 segments scope_id port) = port

abbrev pub Reader : Type 0 → Type 0
Reader A = String → Option (A × String)

infixl 5 ◌>>=◌
abbrev ◌>>=◌ : {A B : Type 0} → Option A → (A → Option B) → Option B
none >>= f = none
some a >>= f = f a

-- The text behind a given character.
pub given : Char → String → Option String
given c String.[] = none
given c (String.◌∷◌ d s) = if nat_beq (code c) (code d) then some s else none

pub starts_with_zero : String → Bool
starts_with_zero String.[] = false
starts_with_zero (String.◌∷◌ c s) = nat_beq (code c) 48

pub is_past : Option ℕ → ℕ → Bool
is_past none read = false
is_past (some limit) read = ltb limit read

-- `read_number` from the digits already read: no digit may make the number larger than its type, or
-- the count of digits larger than `limit`.
pub number_from :
    (Char → Option ℕ)
    → (radix most : ℕ) → (limit : Option ℕ) → (read acc : ℕ) → String
    → Option (ℕ × ℕ × String)
number_from digit radix most limit read acc String.[] = some (read, acc, String.[])
number_from digit radix most limit read acc (String.◌∷◌ c s) = elim (digit c) [
  | none ↦ some (read, acc, String.◌∷◌ c s)
  | some d ↦
      if ltb most (acc * radix + d) || is_past limit (read + 1)
      then none
      else number_from digit radix most limit (read + 1) (acc * radix + d) s
]

pub read_number :
    (Char → Option ℕ)
    → (radix most : ℕ) → (limit : Option ℕ) → (allow_zero_prefix : Bool) → Reader ℕ
read_number digit radix most limit allow_zero_prefix s =
    elim (number_from digit radix most limit 0 0 s) [
      | none ↦ none
      | some (read, n, rest) ↦
          if nat_beq read 0 || (not allow_zero_prefix && starts_with_zero s && ltb 1 read)
          then none
          else some (n, rest)
    ]

-- An octet has three digits at most, and no zero in front.
pub read_octet : Reader ℕ
read_octet = read_number decimal_digit 10 255 (some 3) false

pub read_ipv4_addr : Reader (List ℕ)
read_ipv4_addr s = do
  (a, s₁) ← read_octet s
  s₂ ← given "." s₁
  (b, s₃) ← read_octet s₂
  s₄ ← given "." s₃
  (c, s₅) ← read_octet s₄
  s₆ ← given "." s₅
  (d, s₇) ← read_octet s₆
  some (a ∷ b ∷ c ∷ d ∷ [], s₇)

-- `":" port`
pub read_port : Reader ℕ
read_port s = do s₁ ← given ":" s; read_number decimal_digit 10 u16_max none true s₁

pub read_socket_addr_v4 : Reader SocketAddr
read_socket_addr_v4 s = do
  (octets, s₁) ← read_ipv4_addr s
  (port, s₂) ← read_port s₁
  some (v4 octets port, s₂)

-- A separator stands in front of each group but the first.
separated : {A : Type 0} → Bool → Reader A → Reader A
separated true read s = read s
separated false read s = do s₁ ← given ":" s; read s₁

-- Two groups from an IPv4 address.
halves : List ℕ → List ℕ
halves (a ∷ b ∷ c ∷ d ∷ _) = (a * 256 + b) ∷ (c * 256 + d) ∷ []
halves _ = []

-- `read_groups` with so many groups left: an IPv4 address may stand for the last two.
read_groups : (left : ℕ) → (is_first : Bool) → String → List ℕ × Bool × String
read_groups zero is_first s = ([], false, s)
read_groups (suc left) is_first s =
    let wide = if ltb 0 left then separated is_first read_ipv4_addr s else none in
    elim wide [
      | some (octets, rest) ↦ (halves octets, true, rest)
      | none ↦ elim (separated is_first (read_number hex_digit 16 u16_max (some 4) true) s) [
        | none ↦ ([], false, s)
        | some (group, rest) ↦
            let (groups, is_v4, end) = read_groups left false rest in (group ∷ groups, is_v4, end)
      ]
    ]

zeros : ℕ → List ℕ
zeros zero = []
zeros (suc n) = 0 ∷ zeros n

pub read_ipv6_addr : Reader (List ℕ)
read_ipv6_addr s =
    let (head, head_ipv4, s₁) = read_groups 8 true s in
    if nat_beq (length head) 8 then some (head, s₁) else if head_ipv4 then none else do
      s₂ ← given ":" s₁
      s₃ ← given ":" s₂
      let (tail, tail_ipv4, s₄) = read_groups (8 - (length head + 1)) true s₃
      some (head ++ zeros (8 - length head - length tail) ++ tail, s₄)

-- `"%" scope`
read_scope_id : Reader ℕ
read_scope_id s = do s₁ ← given "%" s; read_number decimal_digit 10 4294967295 none true s₁

pub read_socket_addr_v6 : Reader SocketAddr
read_socket_addr_v6 s = do
  s₁ ← given "[" s
  (segments, s₂) ← read_ipv6_addr s₁
  let (scope_id, s₃) = unwrap_or (read_scope_id s₂) (0, s₂)
  s₄ ← given "]" s₃
  (port, s₅) ← read_port s₄
  some (v6 segments scope_id port, s₅)

-- `str::parse::<SocketAddr>`: nothing may follow.
unfoldable pub parse_socket_addr : String → Option SocketAddr
unfolding read_socket_addr_v4 read_socket_addr_v6 read_ipv4_addr read_ipv6_addr read_port
    read_scope_id read_groups read_octet read_number number_from given separated halves zeros
    starts_with_zero is_past decimal_digit hex_digit
parse_socket_addr s =
    let read : Option (SocketAddr × String) = elim (read_socket_addr_v4 s) [
      | none ↦ read_socket_addr_v6 s
      | some found ↦ some found
    ] in
    elim read [ some (addr, String.[]) ↦ some addr | _ ↦ none ]
