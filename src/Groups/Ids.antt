-- ===== src/Groups/Ids.antt =====
-- copy-trader-v1.6.63/src/groups.rs: the ids of the groups, `g1`, `g2` and so on: `format!` and `parse`
-- on `u64`, and the order of texts.
use rust_solana_cc_v.Prelude.{
  ℕ, suc, zero, ◌+◌, ◌-◌, ◌*◌, ◌/◌, ◌%◌, ◌≡◌, ◌<◌, Bool, true, false, ◌&&◌, ◌||◌, Option, none,
  some, [], ◌∷◌, arith, ltb, leb, ◌==◌, if◌then◌else◌, is_empty, Str, Bool-cases, inl, inr,
}

abbrev pub u64_size : ℕ
u64_size = 18446744073709551616

-- `left.id.cmp(&right.id)`, as `<=`.
unfoldable pub str_leb : Str → Str → Bool
str_leb [] t = true
str_leb (c ∷ s) [] = false
str_leb (c ∷ s) (d ∷ t) = let rest = str_leb s t in ltb c d || (c == d && rest)

-- The digits of a number before `rest`, on fuel: a number above the fuel is not written.
unfoldable pub digits_onto : ℕ → ℕ → Str → Str
digits_onto zero n rest = rest
digits_onto (suc fuel) n rest =
    let more = digits_onto fuel (n / 10) ((48 + n % 10) ∷ rest) in
    if ltb n 10 then (48 + n) ∷ rest else more

unfoldable pub to_decimal : ℕ → Str
unfolding digits_onto
to_decimal n = digits_onto (suc n) n []

-- The digits after `acc`; a character that is no digit, or a number that does not fit a `u64`, is an error.
unfoldable pub digits_from : ℕ → Str → Option ℕ
digits_from acc [] = some acc
digits_from acc (c ∷ s) =
    let next = acc * 10 + (c - 48) in
    let rest = digits_from next s in
    if leb 48 c && (leb c 57 && ltb next u64_size) then rest else none

-- `parse::<u64>()`, which takes a sign `+`.
unfoldable pub parse_u64 : Str → Option ℕ
unfolding digits_from
parse_u64 [] = none
parse_u64 (c ∷ s) =
    if c == 43 then (if is_empty s then none else digits_from 0 s) else digits_from 0 (c ∷ s)

-- `strip_prefix('g')?.parse::<u64>().ok()`
unfoldable pub group_number : Str → Option ℕ
unfolding parse_u64
group_number [] = none
group_number (c ∷ s) = if c == 103 then parse_u64 s else none

unfoldable pub group_id_of : ℕ → Str
unfolding to_decimal
group_id_of n = 103 ∷ to_decimal n

digits_from-digits_onto :
    (fuel n : ℕ) (rest : Str)
    → n < fuel
    → n < u64_size
    → digits_from 0 (digits_onto fuel n rest) ≡ digits_from n rest
unfolding digits_onto digits_from
digits_from-digits_onto zero n rest h b = absurd (omega arith)
digits_from-digits_onto (suc fuel) n rest h b =
    let more = digits_from-digits_onto fuel (n / 10) ((48 + n % 10) ∷ rest) in
    elim (Bool-cases (ltb n 10)) [
      | inl small ↦
          let value : 0 * 10 + (48 + n - 48) ≡ n = omega arith in
          rw (small, digits_onto) (rw (value, digits_from) (ground arith))
      | inr large ↦
          let value : n / 10 * 10 + (48 + n % 10 - 48) ≡ n = ground arith in
          let ih = more (ground arith) (omega arith) in rw (large, digits_onto) (ground arith)
    ]

digits_onto_some : (fuel n : ℕ) (rest : Str) → is_empty (digits_onto (suc fuel) n rest) ≡ false
unfolding digits_onto
digits_onto_some zero n rest = ground arith
digits_onto_some (suc fuel) n rest =
    ground (arith, digits_onto_some fuel (n / 10) ((48 + n % 10) ∷ rest))

parse_u64_digits :
    (s : Str) (n : ℕ) → is_empty s ≡ false → digits_from 0 s ≡ some n → parse_u64 s ≡ some n
unfolding parse_u64
parse_u64_digits [] n h e = cc
parse_u64_digits (c ∷ s) n h e = ground arith

-- The id of a number is read back.
pub group_number-group_id_of : (n : ℕ) → n < u64_size → group_number (group_id_of n) ≡ some n
unfolding group_number group_id_of to_decimal
group_number-group_id_of n b =
    parse_u64_digits (to_decimal n) n (digits_onto_some n n [])
      (digits_from-digits_onto (suc n) n [] (omega arith) b)
