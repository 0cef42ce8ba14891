-- ===== src/Strings/Tests.antt =====
-- Strings in a small memory: "ab" at 1 and "ac" at 11.
use zy_os.Base.{ℕ, zero, suc, ◌+◌, ◌<◌, ◌≡◌, ◌≢◌, ◌↔◌, refl, [], ◌∷◌, arith, ok}
use zy_os.Base.Bytes.{memory}
use zy_os.Strings.{Bytes, same, strncmp}
use zy_os.Strings.Compare.{Agree, strncmp_lem}
use zy_os.Strings.Blocks.{StringAt}

abbrev strings : Bytes
strings = memory (0 ∷ 97 ∷ 98 ∷ 0 ∷ 0 ∷ 0 ∷ 0 ∷ 0 ∷ 0 ∷ 0 ∷ 0 ∷ 97 ∷ 99 ∷ 0 ∷ [])

at_one : StringAt strings 1 2
at_one = record { chars = λ i h. two_chars i h; end = refl }
  where
    two_chars : (i : ℕ) → i < 2 → strings (1 + i) ≢ 0
    two_chars zero h = ground arith
    two_chars (suc zero) h = ground arith
    two_chars (suc (suc i)) h = absurd (omega arith)

at_eleven : StringAt strings 11 2
at_eleven = record { chars = λ i h. two_chars i h; end = refl }
  where
    two_chars : (i : ℕ) → i < 2 → strings (11 + i) ≢ 0
    two_chars zero h = ground arith
    two_chars (suc zero) h = ground arith
    two_chars (suc (suc i)) h = absurd (omega arith)

strncmp_lem_example : (strncmp 1 11 1 strings ≡ ok same) ↔ Agree 1 11 1 strings
strncmp_lem_example = strncmp_lem 1 11 1 strings (λ k. omega arith) (omega arith) (omega arith)
