-- ===== src/Tests/Numbers.antt =====
-- src/parse/number.h at concrete inputs; some are those of test/test_parser.cpp.
use ouinet.Prelude.{◌≡◌, refl, none, some, [], ◌++◌, ◌∷◌, codes, arith}
use ouinet.Prelude.Int.{negsuc}
use ouinet.Prelude.Decimal.{print_int}
use ouinet.Parse.Number.{one_byte, two_bytes, eight_bytes, number, signed_number, max_str}
use ouinet.Parse.Number.Spec.{read_number, above_nine-NoDigit}
use ouinet.Parse.Number.Exact.{number-read_number}
use ouinet.Parse.Number.Signed.{signed_number-print_int, signed_number-Within, Within}
use ouinet.Parse.Number.Overread.{number_refuses_max}

leading_zeros : number one_byte 0 (codes "0012x") ≡ (some 12, codes "x")
unfolding number
leading_zeros = refl

too_large : number one_byte 0 (codes "256") ≡ (none, codes "256")
unfolding number
too_large = refl

largest : number one_byte 0 (codes "255") ≡ (some 255, [])
unfolding number
largest = refl

smallest : signed_number one_byte 0 (codes "-128") ≡ (some (negsuc 127), [])
unfolding signed_number number
smallest = refl

number-read_number_example :
    number two_bytes 0 (codes "65535:") ≡ read_number two_bytes 0 (codes "65535:")
number-read_number_example =
    number-read_number two_bytes 0 (codes "65535:") (omega arith) (omega arith)

number_refuses_max_example :
    number two_bytes 0 (max_str two_bytes ++ b',' ∷ []) ≡ (none, max_str two_bytes ++ b',' ∷ [])
number_refuses_max_example = number_refuses_max two_bytes 0 b',' [] (omega arith) (omega arith)

signed_number-print_int_example :
    signed_number eight_bytes 0 (print_int (negsuc 41) ++ codes "e") ≡ (some (negsuc 41), codes "e")
unfolding print_int
signed_number-print_int_example =
    signed_number-print_int eight_bytes 0 (negsuc 41) (codes "e") (omega arith)
      (above_nine-NoDigit b'e' [] (omega arith)) (omega arith)

signed_number-Within_example :
    Within one_byte (codes "-129") (signed_number one_byte 0 (codes "-129"))
signed_number-Within_example = signed_number-Within one_byte 0 (codes "-129")
