-- ===== src/Hex/RoundTrip.antt =====
-- Raw bytes survive the way to text and back.
use seafile_server.Base.{
  ℕ, zero, suc, ◌/◌, ◌%◌, ◌*◌, ◌<◌, ◌≡◌, refl, Bool, true, false, Option, none, some, List, [], ◌∷◌,
  CString, ◌==◌, if◌then◌else◌, ==_iff, length, All, arith,
}
use seafile_server.Hex.{
  hex_digit, hex_byte, rawdata_to_hex, hex_to_rawdata, all_id_digits, is_object_id_valid,
}

-- A test that every number under a bound passes, one after the other.
passes_under : (ℕ → Bool) → ℕ → Bool
passes_under test zero = true
passes_under test (suc bound) =
    let rest = passes_under test bound in if test bound then rest else false

passes_under_each :
    (test : ℕ → Bool) (bound : ℕ)
    → (val : ℕ) → val < bound
    → passes_under test bound ≡ true
    → test val ≡ true
unfolding passes_under
passes_under_each test zero val small passed = absurd (omega arith)
passes_under_each test (suc bound) val small passed =
    ground (arith, λ (less : val < bound). passes_under_each test bound val less)

abbrev is_byte : Option ℕ → ℕ → Bool
is_byte none x = false
is_byte (some y) x = y == x

is_byte_eq : (o : Option ℕ) (x : ℕ) → is_byte o x ≡ true → o ≡ some x
is_byte_eq none x h = cc
is_byte_eq (some y) x h = ground (arith, ==_iff y x)

-- Every byte, by evaluation.
byte_table :
    passes_under (λ x. is_byte (hex_byte (hex_digit (x / 16)) (hex_digit (x % 16))) x) 256 ≡ true
unfolding passes_under hex_byte
byte_table = refl

byte_back : (x : ℕ) → x < 256 → hex_byte (hex_digit (x / 16)) (hex_digit (x % 16)) ≡ some x
byte_back x h = is_byte_eq _ x (passes_under_each _ 256 x h byte_table)

-- Bytes written as hexadecimal digits are read back, all of them and none else.
pub hex_to_rawdata-rawdata_to_hex :
    (rawdata : List ℕ)
    → All (λ x. x < 256) rawdata
    → hex_to_rawdata (rawdata_to_hex rawdata) (length rawdata) ≡ some rawdata
unfolding hex_to_rawdata rawdata_to_hex
hex_to_rawdata-rawdata_to_hex [] h = refl
hex_to_rawdata-rawdata_to_hex (x ∷ rawdata) (h, hs) =
    rw (byte_back x h, hex_to_rawdata-rawdata_to_hex rawdata hs)

digits_table :
    passes_under (λ x. all_id_digits (hex_digit (x / 16) ∷ hex_digit (x % 16) ∷ [])) 256 ≡ true
unfolding passes_under all_id_digits
digits_table = refl

two_digits :
    (c d : ℕ) (rest : CString)
    → all_id_digits (c ∷ d ∷ []) ≡ true
    → all_id_digits rest ≡ true
    → all_id_digits (c ∷ d ∷ rest) ≡ true
unfolding all_id_digits
two_digits c d rest h k = ground arith

rawdata_to_hex-digits :
    (rawdata : List ℕ) → All (λ x. x < 256) rawdata → all_id_digits (rawdata_to_hex rawdata) ≡ true
unfolding rawdata_to_hex all_id_digits
rawdata_to_hex-digits [] h = refl
rawdata_to_hex-digits (x ∷ rawdata) (h, hs) =
    two_digits (hex_digit (x / 16)) (hex_digit (x % 16)) (rawdata_to_hex rawdata)
      (passes_under_each _ 256 x h digits_table) (rawdata_to_hex-digits rawdata hs)

pub length-rawdata_to_hex :
    (rawdata : List ℕ) → length (rawdata_to_hex rawdata) ≡ 2 * length rawdata
unfolding rawdata_to_hex
length-rawdata_to_hex [] = refl
length-rawdata_to_hex (x ∷ rawdata) = omega (arith, length-rawdata_to_hex rawdata)

-- Twenty raw bytes are written as a valid object id.
pub rawdata_to_hex-is_object_id_valid :
    (rawdata : List ℕ)
    → length rawdata ≡ 20
    → All (λ x. x < 256) rawdata
    → is_object_id_valid (rawdata_to_hex rawdata) ≡ true
unfolding is_object_id_valid
rawdata_to_hex-is_object_id_valid rawdata size small =
    ground (arith, rawdata_to_hex-digits rawdata small, length-rawdata_to_hex rawdata)
