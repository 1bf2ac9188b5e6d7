-- ===== src/Server/Address/Laws.antt =====
-- A printed IPv4 address with a port is read as that address (core::net).
use Prim.Native.Char.{Char}
use Prim.Native.String.append
use text.Mathlib.TextLemmas.{append_assoc, append-nil}
use gb_mahjong_server_rust.Prelude.{
  ℕ, zero, suc, ◌+◌, ◌*◌, ◌≤◌, ◌<◌, ◌≡◌, refl, sym, ap, ◌∙◌, subst, inl, inr, false, Option, none,
  some, List, [], ◌∷◌, String, ltb, nat_beq, ◌&&◌, Bool-cases, All, arith, length,
}
use gb_mahjong_server_rust.Prelude.Text.{◌+++◌}
use gb_mahjong_server_rust.Prelude.Decimal.{digits, digit_text, join_digits, show_ℕ}
use gb_mahjong_server_rust.Prelude.Decimal.Laws.{value, value-digits, first-digit, length-digits-le}
use gb_mahjong_server_rust.Prelude.Decimal.Text.{IsDigit, digits-IsDigit}
use gb_mahjong_server_rust.Server.Number.{decimal_digit}
use gb_mahjong_server_rust.Server.Number.Laws.{
  value-grows, decimal_digit-code, digit_front, digits_front,
}
use gb_mahjong_server_rust.Server.Address.{
  v4, given, starts_with_zero, is_past, number_from, read_number, read_octet, read_ipv4_addr,
  read_port, read_socket_addr_v4, parse_socket_addr,
}

is_past-le :
    (limit : Option ℕ) (m n : ℕ) → m ≤ n → is_past limit n ≡ false → is_past limit m ≡ false
unfolding is_past
is_past-le none m n le h = refl
is_past-le (some limit) m n le h = ground arith

module _ (most : ℕ) (limit : Option ℕ) (rest : String) where
  -- No digit stands at the front.
  abbrev Stops : Type 0
  Stops =
      (read acc : ℕ)
      → number_from decimal_digit 10 most limit read acc rest ≡ some (read, acc, rest)

  number_from-digits :
      (read acc : ℕ) (ds : List ℕ)
      → Stops
      → All IsDigit ds
      → value acc ds ≤ most
      → is_past limit (read + length ds) ≡ false
      → number_from decimal_digit 10 most limit read acc (join_digits ds +++ rest)
        ≡ some (read + length ds, value acc ds, rest)
  unfolding join_digits number_from
  number_from-digits read acc [] stops h small short =
      let same : read ≡ read + 0 = omega arith in
      ap (number_from decimal_digit 10 most limit read acc) (append.nil rest)
      ∙ stops read acc
      ∙ ap (λ (k : ℕ). some (k, acc, rest)) same
  number_from-digits read acc (d ∷ ds) stops h small short =
      let (c, shown, named) = digit_front d (join_digits ds +++ rest) h.0 in
      let text : join_digits (d ∷ ds) +++ rest ≡ String.◌∷◌ c (join_digits ds +++ rest) =
        append_assoc (digit_text d) (join_digits ds) rest ∙ shown in
      let in_range : ltb most (acc * 10 + d) ≡ false =
        let more = value-grows (acc * 10 + d) ds in ground arith in
      let few : is_past limit (read + 1) ≡ false =
        is_past-le limit (read + 1) (read + suc (length ds)) (omega arith) short in
      let step : number_from decimal_digit 10 most limit read acc
            (String.◌∷◌ c (join_digits ds +++ rest))
          ≡ number_from decimal_digit 10 most limit (read + 1) (acc * 10 + d)
              (join_digits ds +++ rest) =
        rw (decimal_digit-code c d h.0 named, number_from, in_range, few) refl in
      let counted : read + 1 + length ds ≡ read + suc (length ds) = omega arith in
      ap (number_from decimal_digit 10 most limit read acc) text
      ∙ step
      ∙ number_from-digits (read + 1) (acc * 10 + d) ds stops h.1 small
          (subst (λ (k : ℕ). is_past limit k ≡ false) (sym counted) short)
      ∙ ap (λ (k : ℕ). some (k, value (acc * 10 + d) ds, rest)) counted

  -- A number is read whole, if it is in range and what it is written with is allowed.
  number_from-show_ℕ :
      (n : ℕ)
      → Stops
      → n ≤ most
      → is_past limit (length (digits (suc n) n)) ≡ false
      → number_from decimal_digit 10 most limit 0 0 (show_ℕ n +++ rest)
        ≡ some (length (digits (suc n) n), n, rest)
  unfolding show_ℕ
  number_from-show_ℕ n stops small short =
      let ds = digits (suc n) n in
      let is_n : value 0 ds ≡ n = value-digits (suc n) n (omega arith) in
      let counted : 0 + length ds ≡ length ds = omega arith in
      number_from-digits 0 0 ds stops (digits-IsDigit (suc n) n) (omega arith)
        (subst (λ (k : ℕ). is_past limit k ≡ false) (sym counted) short)
      ∙ ap (λ (k : ℕ). some (k, value 0 ds, rest)) counted
      ∙ ap (λ (v : ℕ). some (length ds, v, rest)) is_n

-- Zero is written with one digit, and no other number starts with zero.
zero_prefix :
    (n : ℕ) (rest : String)
    → starts_with_zero (show_ℕ n +++ rest) && ltb 1 (length (digits (suc n) n)) ≡ false
unfolding starts_with_zero show_ℕ join_digits digits
zero_prefix zero rest = elim (Bool-cases (starts_with_zero (show_ℕ 0 +++ rest))) [
  | inl e ↦ rw e refl
  | inr e ↦ rw e refl
]
zero_prefix (suc n) rest =
    let (d, ds, e, more) = first-digit (suc (suc n)) (suc n) (omega arith) (omega arith) in
    let small : IsDigit d = (subst (All IsDigit) e (digits-IsDigit (suc (suc n)) (suc n))).0 in
    let (c, shown, named) = digit_front d (join_digits ds +++ rest) small in
    let text : show_ℕ (suc n) +++ rest ≡ String.◌∷◌ c (join_digits ds +++ rest) =
      ap (λ (xs : List ℕ). join_digits xs +++ rest) e
      ∙ append_assoc (digit_text d) (join_digits ds) rest
      ∙ shown in
    let not_zero : starts_with_zero (String.◌∷◌ c (join_digits ds +++ rest)) ≡ false =
      ground arith in
    rw (ap starts_with_zero text, not_zero) refl

module _ (n : ℕ) (rest : String) where
  no_zero_prefix : starts_with_zero (show_ℕ n +++ rest) && ltb 1 (length (digits (suc n) n)) ≡ false
  no_zero_prefix = zero_prefix n rest

  some_digits : nat_beq (length (digits (suc n) n)) 0 ≡ false
  some_digits = let (d, ds, e, _, _) = digits_front n in rw e (ground arith)

  read_octet-show_ℕ :
      n < 256 → Stops 255 (some 3) rest → read_octet (show_ℕ n +++ rest) ≡ some (n, rest)
  unfolding read_octet read_number is_past
  read_octet-show_ℕ small stops =
      let few : ltb 3 (length (digits (suc n) n)) ≡ false =
        let short = length-digits-le 2 (suc n) n (omega arith) in ground arith in
      rw
        (
          read_octet,
          read_number,
          number_from-show_ℕ 255 (some 3) rest n stops (omega arith) few,
          some_digits,
          no_zero_prefix,
        )
        refl

  read_port-show_ℕ :
      n ≤ 65535
      → Stops 65535 none rest
      → read_port (String.◌∷◌ ":" (show_ℕ n +++ rest)) ≡ some (n, rest)
  unfolding read_port read_number is_past given
  read_port-show_ℕ small stops =
      rw
        (read_port, read_number, number_from-show_ℕ 65535 none rest n stops small refl, some_digits)
        refl

-- `Display` of an IPv4 address.
unfoldable pub dotted : ℕ → ℕ → ℕ → ℕ → String
unfolding show_ℕ
dotted a b c d = show_ℕ a +++ "." +++ show_ℕ b +++ "." +++ show_ℕ c +++ "." +++ show_ℕ d

char_front : (c : Char) (t : String) → String.◌∷◌ c String.[] +++ t ≡ String.◌∷◌ c t
char_front c t = append.cons c String.[] t ∙ ap (λ s. String.◌∷◌ c s) (append.nil t)

-- No digit stands in front of a separator.
stops_at :
    (most : ℕ) (limit : Option ℕ) (c : Char) (t : String)
    → decimal_digit c ≡ none
    → Stops most limit (String.◌∷◌ c t)
unfolding number_from
stops_at most limit c t e read acc = rw (e, number_from) refl

-- An octet that is not the last one, with the full stop behind it.
module _ (n : ℕ) (small : n < 256) (t : String) where
  octet_dot : read_octet (show_ℕ n +++ "." +++ t) ≡ some (n, String.◌∷◌ "." t)
  unfolding decimal_digit
  octet_dot =
      ap (λ (s : String). read_octet (show_ℕ n +++ s)) (char_front "." t)
      ∙ read_octet-show_ℕ n (String.◌∷◌ "." t) small (stops_at 255 (some 3) "." t refl)

module _ (a b c d : ℕ) (a_small : a < 256) (b_small : b < 256) (c_small : c < 256)
    (d_small : d < 256) (t : String) where
  spread :
      dotted a b c d +++ t
      ≡ show_ℕ a +++ "." +++ show_ℕ b +++ "." +++ show_ℕ c +++ "." +++ show_ℕ d +++ t
  unfolding dotted
  spread = simp append_assoc

  read_ipv4_addr-dotted :
      Stops 255 (some 3) t → read_ipv4_addr (dotted a b c d +++ t) ≡ some (a ∷ b ∷ c ∷ d ∷ [], t)
  unfolding read_ipv4_addr given
  read_ipv4_addr-dotted stops =
      ap read_ipv4_addr spread
      ∙ rw
          (
            read_ipv4_addr,
            octet_dot a a_small _,
            octet_dot b b_small _,
            octet_dot c c_small _,
            read_octet-show_ℕ d t d_small stops,
          )
          refl

  parse_socket_addr-dotted_cons :
      (p : ℕ)
      → p ≤ 65535
      → t ≡ String.◌∷◌ ":" (show_ℕ p +++ String.[])
      → parse_socket_addr (dotted a b c d +++ t) ≡ some (v4 (a ∷ b ∷ c ∷ d ∷ []) p)
  unfolding parse_socket_addr
  parse_socket_addr-dotted_cons p p_small e =
      let stops = stops_at 255 (some 3) ":" (show_ℕ p +++ String.[]) refl in
      let at_end : Stops 65535 none String.[] = λ read acc. refl in
      let read : read_socket_addr_v4 (dotted a b c d +++ t)
          ≡ some (v4 (a ∷ b ∷ c ∷ d ∷ []) p, String.[]) =
        rw
          (
            read_socket_addr_v4,
            read_ipv4_addr-dotted (subst (Stops 255 (some 3)) (sym e) stops),
            e,
            read_port-show_ℕ p String.[] p_small at_end,
          )
          refl in
      rw (parse_socket_addr, read) refl

-- An address and a port, printed as a SocketAddr is, are read as themselves.
pub parse_socket_addr-dotted :
    (a b c d p : ℕ)
    → a < 256
    → b < 256
    → c < 256
    → d < 256
    → p ≤ 65535
    → parse_socket_addr (dotted a b c d +++ ":" +++ show_ℕ p) ≡ some (v4 (a ∷ b ∷ c ∷ d ∷ []) p)
parse_socket_addr-dotted a b c d p a_small b_small c_small d_small p_small =
    parse_socket_addr-dotted_cons a b c d a_small b_small c_small d_small (":" +++ show_ℕ p) p
      p_small (char_front ":" (show_ℕ p) ∙ ap (String.◌∷◌ ":") (sym (append-nil (show_ℕ p))))
