-- ===== src/Multicall/Abi.antt =====
-- The encoding of calls for `aggregate3` of the contract Multicall3, and the decoding of what it
-- returns. Texts are lists of characters' codes; `none` is an exception.
pub mod Words
use ether_state.Prelude.{
  ℕ, zero, suc, ◌+◌, ◌-◌, ◌*◌, ◌/◌, ◌%◌, ◌^◌, Bool, true, false, not, ◌&&◌, ◌||◌, Option, none,
  some, List, [], ◌∷◌, ◌++◌, map, ltb, leb, ◌==◌, if◌then◌else◌, length, take, drop, all,
}
use ether_state.Prelude.Results.{Result, ok, err, ◌>>=◌, ◌>>◌, fail_if}

abbrev pub max_word : ℕ
max_word = 2 ^ 256 - 1

abbrev pub max_safe_integer : ℕ
max_safe_integer = 9007199254740991

-- The exceptions, by their messages.
pub data AbiError : Type 0 where
  bad_word bad_hex bad_address bad_offset too_large bad_range bad_array bad_boolean : AbiError

abbrev pub repeat : ℕ → ℕ → List ℕ
repeat zero c = []
repeat (suc n) c = c ∷ repeat n c

abbrev pub pad_start : ℕ → List ℕ → List ℕ
pad_start size t = repeat (size - length t) 48 ++ t

abbrev pub pad_end : ℕ → List ℕ → List ℕ
pad_end size t = t ++ repeat (size - length t) 48

abbrev pub hex_char : ℕ → ℕ
hex_char d = if ltb d 10 then 48 + d else 87 + d

abbrev pub is_hex : ℕ → Bool
is_hex c = (leb 48 c && leb c 57) || (leb 97 c && leb c 102) || (leb 65 c && leb c 70)

-- `toLowerCase` of a hexadecimal digit, and its value.
abbrev pub lower : ℕ → ℕ
lower c = if leb 65 c && leb c 70 then c + 32 else c

abbrev pub digit_value : ℕ → ℕ
digit_value c = if leb c 57 then c - 48 else lower c - 87

-- `toString(16)`; a number has fewer digits than its successor counts.
unfoldable pub hex_digits : ℕ → ℕ → List ℕ
hex_digits zero n = []
hex_digits (suc fuel) n =
    let rest = hex_digits fuel (n / 16) in
    if ltb n 16 then hex_char n ∷ [] else rest ++ hex_char (n % 16) ∷ []

-- The fuel is the number of digits of the largest word.
unfoldable pub word : ℕ → Result AbiError (List ℕ)
word value = fail_if (ltb max_word value) bad_word >> ok (pad_start 64 (hex_digits 64 value))

-- What comes after "0x", where a text begins with that; the pattern's `i` takes "0X" too.
abbrev pub after_0x : List ℕ → Option (List ℕ)
after_0x (zero_char ∷ x ∷ rest) =
    if zero_char == 48 && (x == 120 || x == 88) then some rest else none
after_0x _ = none

abbrev pub is_even : List ℕ → Bool
is_even t = length t % 2 == 0

-- `/^0x(?:[\da-f]{2})*$/i`
unfoldable pub hex : List ℕ → Result AbiError (List ℕ)
hex value = elim (after_0x value) [
  | none ↦ err bad_hex
  | some rest ↦ fail_if (not (is_even rest && all is_hex rest)) bad_hex >> ok (map lower rest)
]

unfoldable pub encode_bytes : List ℕ → Result AbiError (List ℕ)
unfolding hex word
encode_bytes value = do
  data' ← hex value
  size ← word (length data' / 2)
  ok (size ++ pad_end ((length data' + 63) / 64 * 64) data')

-- `/^0x[\da-f]{40}$/i`
unfoldable pub encode_address : List ℕ → Result AbiError (List ℕ)
encode_address value = elim (after_0x value) [
  | none ↦ err bad_address
  | some rest ↦
      fail_if (not (length rest == 40 && all is_hex rest)) bad_address
      >> ok (pad_start 64 (map lower rest))
]

pub record AggregateCall : Type 0 where
  pub target : List ℕ
  pub allow_failure : Bool
  pub call_data : List ℕ

unfoldable pub encode_call : AggregateCall → Result AbiError (List ℕ)
unfolding encode_address encode_bytes word
encode_call call = do
  target ← encode_address call.target
  flag ← word (if call.allow_failure then 1 else 0)
  offset ← word 96
  bytes ← encode_bytes call.call_data
  ok (target ++ flag ++ offset ++ bytes)

unfoldable pub encode_calls : List AggregateCall → Result AbiError (List (List ℕ))
unfolding encode_call
encode_calls [] = ok []
encode_calls (call ∷ calls) = do t ← encode_call call; ts ← encode_calls calls; ok (t ∷ ts)

-- `tuples.map`, with the offset so far.
unfoldable pub offsets_from : ℕ → List (List ℕ) → Result AbiError (List ℕ)
unfolding word
offsets_from offset [] = ok []
offsets_from offset (t ∷ ts) = do
  current ← word offset
  rest ← offsets_from (offset + length t / 2) ts
  ok (current ++ rest)

abbrev pub join_texts : List (List ℕ) → List ℕ
join_texts [] = []
join_texts (t ∷ ts) = t ++ join_texts ts

-- "0x82ad56cb"
abbrev pub aggregate3_selector : List ℕ
aggregate3_selector = 48 ∷ 120 ∷ 56 ∷ 50 ∷ 97 ∷ 100 ∷ 53 ∷ 54 ∷ 99 ∷ 98 ∷ []

unfoldable pub encode_aggregate3 : List AggregateCall → Result AbiError (List ℕ)
unfolding encode_calls offsets_from word
encode_aggregate3 calls = do
  tuples ← encode_calls calls
  offsets ← offsets_from (length calls * 32) tuples
  start ← word 32
  size ← word (length calls)
  ok (aggregate3_selector ++ start ++ size ++ offsets ++ join_texts tuples)

-- Two digits for each byte.
unfoldable pub pairs : List ℕ → List ℕ
pairs [] = []
pairs (a ∷ []) = []
pairs (a ∷ b ∷ rest) = (digit_value a * 16 + digit_value b) ∷ pairs rest

unfoldable pub bytes_of : List ℕ → Result AbiError (List ℕ)
unfolding hex pairs
bytes_of value = do data' ← hex value; ok (pairs data')

abbrev pub value_of : ℕ → List ℕ → ℕ
value_of value [] = value
value_of value (byte ∷ bytes) = value_of (value * 256 + byte) bytes

unfoldable pub read_word : List ℕ → ℕ → Result AbiError ℕ
read_word bytes offset =
    fail_if (not (leb offset max_safe_integer) || ltb (length bytes) (offset + 32)) bad_offset
    >> ok (value_of 0 (take 32 (drop offset bytes)))

abbrev pub safe_number : ℕ → Result AbiError ℕ
safe_number value = fail_if (ltb max_safe_integer value) too_large >> ok value

abbrev pub add_offset : ℕ → ℕ → Result AbiError ℕ
add_offset left right = fail_if (ltb max_safe_integer (left + right)) too_large >> ok (left + right)

abbrev pub hex_of : List ℕ → List ℕ
hex_of [] = []
hex_of (byte ∷ bytes) = hex_char (byte / 16) ∷ hex_char (byte % 16) ∷ hex_of bytes

unfoldable pub read_bytes : List ℕ → ℕ → Result AbiError (List ℕ)
unfolding read_word
read_bytes bytes offset = do
  size ← read_word bytes offset
  size ← safe_number size
  start ← add_offset offset 32
  end ← add_offset start size
  fail_if (ltb (length bytes) end) bad_range
  ok (48 ∷ 120 ∷ hex_of (take size (drop start bytes)))

-- A round of the loop: the tuple whose offset stands at `head`.
unfoldable pub read_result : List ℕ → ℕ → ℕ → Result AbiError (Bool × List ℕ)
unfolding read_word read_bytes
read_result bytes heads head = do
  offset ← read_word bytes head
  offset ← safe_number offset
  tuple ← add_offset heads offset
  success ← read_word bytes tuple
  fail_if (ltb 1 success) bad_boolean
  output ← read_word bytes (tuple + 32)
  output ← safe_number output
  output ← add_offset tuple output
  text ← read_bytes bytes output
  ok (success == 1, text)

unfoldable pub read_results : List ℕ → ℕ → ℕ → ℕ → Result AbiError (List (Bool × List ℕ))
unfolding read_result
read_results bytes heads head zero = ok []
read_results bytes heads head (suc count) = do
  result ← read_result bytes heads head
  results ← read_results bytes heads (head + 32) count
  ok (result ∷ results)

unfoldable pub decode_aggregate3 : List ℕ → Result AbiError (List (Bool × List ℕ))
unfolding bytes_of read_word read_results
decode_aggregate3 value = do
  bytes ← bytes_of value
  array ← read_word bytes 0
  array ← safe_number array
  size ← read_word bytes array
  size ← safe_number size
  heads ← add_offset array 32
  end ← add_offset heads (size * 32)
  fail_if (ltb (length bytes) end) bad_array
  read_results bytes heads heads size

-- `/^0x[\da-f]{64}$/i`, and `BigInt` of such a text.
abbrev pub is_word : List ℕ → Bool
is_word t = elim (after_0x t) [ none ↦ false | some rest ↦ length rest == 64 && all is_hex rest ]

abbrev pub hex_value : ℕ → List ℕ → ℕ
hex_value value [] = value
hex_value value (c ∷ cs) = hex_value (value * 16 + digit_value c) cs

-- "0xcA11bde05977b3631167028862bE2a173976CA11"
abbrev pub multicall_address : List ℕ
multicall_address =
    48 ∷ 120 ∷ 99 ∷ 65 ∷ 49 ∷ 49 ∷ 98 ∷ 100 ∷ 101 ∷ 48 ∷ 53 ∷ 57 ∷ 55 ∷ 55 ∷ 98 ∷ 51 ∷ 54 ∷ 51 ∷ 49
    ∷ 49 ∷ 54 ∷ 55 ∷ 48 ∷ 50 ∷ 56 ∷ 56 ∷ 54 ∷ 50 ∷ 98 ∷ 69 ∷ 50 ∷ 97 ∷ 49 ∷ 55 ∷ 51 ∷ 57 ∷ 55 ∷ 54
    ∷ 67 ∷ 65 ∷ 49 ∷ 49 ∷ []

-- "0x42cbb15c", and "0x".
abbrev pub block_number_selector : List ℕ
block_number_selector = 48 ∷ 120 ∷ 52 ∷ 50 ∷ 99 ∷ 98 ∷ 98 ∷ 49 ∷ 53 ∷ 99 ∷ []

abbrev pub no_bytes : List ℕ
no_bytes = 48 ∷ 120 ∷ []
