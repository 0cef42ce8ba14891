-- ===== src/Stdio/Tests.antt =====
-- Numbers and formats at concrete values.
use zy_os.Base.{◌≡◌, refl, inr, List, [], ◌∷◌, arith}
use zy_os.Stdio.{itoa}
use zy_os.Stdio.Digits.{read_digits, itoa-read}
use zy_os.Stdio.Formats.{Piece, plain, dec, all_shown}

itoa-read_example : read_digits 16 0 (itoa 32 48879 16) ≡ 48879
itoa-read_example = itoa-read 32 48879 16 (inr refl) (omega arith) (omega arith)

beef : itoa 32 48879 16 ≡ 66 ∷ 69 ∷ 69 ∷ 70 ∷ []
unfolding itoa
beef = refl

-- "-%d" of -5
abbrev pieces : List Piece
pieces = plain 45 (omega arith) ∷ dec 4294967291 ∷ []

minus_five : all_shown pieces ≡ 45 ∷ 45 ∷ 53 ∷ []
unfolding itoa
minus_five = refl
