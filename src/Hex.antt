-- ===== src/Hex.antt =====
-- `rawdata_to_hex` and `hex_to_rawdata` of lib/utils.c: object ids as raw bytes and as text.
pub mod RoundTrip
use Prim.Native.Nat.{bit_or}
use seafile_server.Base.{
  ℕ, zero, suc, ◌+◌, ◌-◌, ◌*◌, ◌/◌, ◌%◌, ◌^◌, Bool, true, false, ◌&&◌, Option, none, some, List, [],
  ◌∷◌, CString, codes, leb, ◌==◌, if◌then◌else◌, get_or, ltb, length, ◌||◌,
}

abbrev pub hex_digits : CString
hex_digits = codes "0123456789abcdef"

-- `hex[val]`
abbrev pub hex_digit : ℕ → ℕ
hex_digit val = get_or hex_digits val 0

unfoldable pub rawdata_to_hex : List ℕ → CString
rawdata_to_hex [] = []
rawdata_to_hex (val ∷ rawdata) =
    hex_digit (val / 16) ∷ hex_digit (val % 16) ∷ rawdata_to_hex rawdata

abbrev between : ℕ → ℕ → ℕ → Bool
between lo hi c = leb lo c && leb c hi

-- A 32-bit unsigned number; `~0` for what is no digit.
unfoldable pub hexval : ℕ → ℕ
hexval c =
    if between b'0' b'9' c
    then c - b'0'
    else if between b'a' b'f' c
    then c - b'a' + 10
    else if between b'A' b'F' c
    then c - b'A' + 10
    else 2 ^ 32 - 1

-- One round: the byte of two digits, unless `val & ~0xff`.
unfoldable pub hex_byte : ℕ → ℕ → Option ℕ
unfolding hexval
hex_byte c d =
    let val = bit_or (hexval c * 16 % 2 ^ 32) (hexval d) in if ltb val 256 then some val else none

abbrev pub cons_byte : Option ℕ → Option (List ℕ) → Option (List ℕ)
cons_byte none rest = none
cons_byte (some val) none = none
cons_byte (some val) (some rawdata) = some (val ∷ rawdata)

-- `none` where the C function returns -1. Past the end of the text it reads the final zero, which
-- is no digit.
unfoldable pub hex_to_rawdata : CString → ℕ → Option (List ℕ)
unfolding hex_byte
hex_to_rawdata hex_str zero = some []
hex_to_rawdata [] (suc n) = none
hex_to_rawdata (c ∷ []) (suc n) = none
hex_to_rawdata (c ∷ d ∷ hex_str) (suc n) = cons_byte (hex_byte c d) (hex_to_rawdata hex_str n)

abbrev is_id_digit : ℕ → Bool
is_id_digit c = between b'0' b'9' c || between b'a' b'f' c

-- The loop of `is_object_id_valid`.
unfoldable pub all_id_digits : CString → Bool
all_id_digits [] = true
all_id_digits (c ∷ id) = is_id_digit c && all_id_digits id

unfoldable pub is_object_id_valid : CString → Bool
unfolding all_id_digits
is_object_id_valid obj_id = length obj_id == 40 && all_id_digits obj_id
