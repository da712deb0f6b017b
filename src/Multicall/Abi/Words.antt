-- ===== src/Multicall/Abi/Words.antt =====
-- The words of the ABI, of 256 bits, as texts of 64 digits.
use ether_state.Prelude.{
  ℕ, zero, suc, ◌+◌, ◌-◌, ◌*◌, ◌/◌, ◌%◌, ◌≤◌, ◌<◌, ◌≡◌, refl, ap, ◌∙◌, false, List, [], ◌∷◌, ◌++◌,
  ltb, length, length-append, Bool-cases, inl, inr, arith,
}
use ether_state.Prelude.Results.{ok}
use ether_state.Multicall.Abi.{
  max_word, repeat, pad_start, hex_char, digit_value, hex_digits, word, hex_value,
}

-- The numbers of so many hexadecimal digits.
power_16 : ℕ → ℕ
power_16 zero = 1
power_16 (suc n) = 16 * power_16 n

digit_value-hex_char : (d : ℕ) → d < 16 → digit_value (hex_char d) ≡ d
digit_value-hex_char d l = ground (arith, l)

hex_value-append :
    (value c : ℕ) (t : List ℕ)
    → hex_value value (t ++ c ∷ []) ≡ hex_value value t * 16 + digit_value c
hex_value-append value c [] = refl
hex_value-append value c (d ∷ t) = hex_value-append (value * 16 + digit_value d) c t

hex_value-hex_digits : (fuel n : ℕ) → n < power_16 fuel → hex_value 0 (hex_digits fuel n) ≡ n
unfolding hex_digits power_16
hex_value-hex_digits zero n l = omega (arith, l)
hex_value-hex_digits (suc fuel) n l = elim (Bool-cases (ltb n 16)) [
  | inl small ↦
      let digit = digit_value-hex_char n (ground (arith, small)) in ground (arith, small, digit)
  | inr large ↦
      let rest = hex_value-hex_digits fuel (n / 16) (omega (arith, l)) in
      let last = digit_value-hex_char (n % 16) (omega arith) in
      let whole = hex_value-append 0 (hex_char (n % 16)) (hex_digits fuel (n / 16)) in
      ground (arith, large, rest, last, whole)
]

length-hex_digits_le : (fuel n : ℕ) → length (hex_digits fuel n) ≤ fuel
unfolding hex_digits
length-hex_digits_le zero n = omega arith
length-hex_digits_le (suc fuel) n = ground (
  arith,
  length-hex_digits_le fuel (n / 16),
  length-append (hex_digits fuel (n / 16)) (hex_char (n % 16) ∷ []),
)

length-repeat : (n c : ℕ) → length (repeat n c) ≡ n
length-repeat zero c = refl
length-repeat (suc n) c = ap suc (length-repeat n c)

hex_value-repeat : (n : ℕ) (t : List ℕ) → hex_value 0 (repeat n 48 ++ t) ≡ hex_value 0 t
hex_value-repeat zero t = refl
hex_value-repeat (suc n) t = hex_value-repeat n t

words_fit : max_word < power_16 64
unfolding power_16
words_fit = omega arith

-- A number below 2^256 is written with 64 digits, which read as hexadecimal give it back.
pub word_lem :
    (value : ℕ)
    → value ≤ max_word
    → (t : List ℕ) × (word value ≡ ok t) × (length t ≡ 64) × (hex_value 0 t ≡ value)
unfolding word
word_lem value fits =
    let within : ltb max_word value ≡ false = ground (arith, fits) in
    let short = length-hex_digits_le 64 value in
    let zeros = 64 - length (hex_digits 64 value) in
    (
      pad_start 64 (hex_digits 64 value),
      rw (within, word),
      length-append (repeat zeros 48) (hex_digits 64 value)
          ∙ ground (arith, length-repeat zeros 48, short),
      hex_value-repeat zeros (hex_digits 64 value)
          ∙ hex_value-hex_digits 64 value (omega (arith, fits, words_fit)),
    )
