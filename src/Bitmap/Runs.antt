-- ===== src/Bitmap/Runs.antt =====
-- `bitmap_scan` for two bits and more: runs of free bits.
use zy_os.Base.{
  ℕ, zero, suc, ◌+◌, ◌-◌, ◌*◌, ◌/◌, ◌%◌, ◌^◌, ◌≤◌, ◌<◌, ◌≡◌, refl, true, false, some, arith, ◌==◌,
  ok, Bool-cases, inl, inr, ltb,
}
use zy_os.Bitmap.{Bitmap, find_run, bitmap_scan}
use zy_os.Bitmap.Bits.{bit, IsValid, scan_test-bit}
use zy_os.Bitmap.Scan.{first_bit, first_byte, first_bit-IsFirstFree, first_byte_cases, bit_of_full}

-- The bits from `s` on, `cnt` of them, are clear.
abbrev pub IsFreeRun : Bitmap → ℕ → ℕ → Type 0
IsFreeRun b s cnt = (k : ℕ) → s ≤ k → k < s + cnt → bit b k ≡ false

find_run-set :
    (b : Bitmap) (cnt left next count : ℕ)
    → 1 ≤ cnt
    → bit b next ≡ true
    → find_run b cnt (suc left) next count ≡ find_run b cnt left (next + 1) 0
unfolding find_run
find_run-set b cnt left next count h e = ground (arith, scan_test-bit b next)

find_run-more :
    (b : Bitmap) (cnt left next count : ℕ)
    → count + 1 < cnt
    → bit b next ≡ false
    → find_run b cnt (suc left) next count ≡ find_run b cnt left (next + 1) (count + 1)
unfolding find_run
find_run-more b cnt left next count h e = ground (arith, scan_test-bit b next)

find_run-found :
    (b : Bitmap) (left m next count : ℕ)
    → m + count ≡ next
    → next < 2 ^ 32 - 1
    → bit b next ≡ false
    → find_run b (count + 1) (suc left) next count ≡ some m
unfolding find_run
find_run-found b left m next count h l e = ground (arith, scan_test-bit b next)

IsFreeRun-suc :
    (b : Bitmap) (m next count : ℕ)
    → m + count ≡ next
    → IsFreeRun b m count
    → bit b next ≡ false
    → IsFreeRun b m (count + 1)
IsFreeRun-suc b m next count h run e k l u = elim (Bool-cases (k == next)) [
  | inl s ↦ ground arith
  | inr n ↦ run k l (ground arith)
]

-- `m` is where the run that ends before `next_bit` starts.
find_run_sound :
    (b : Bitmap) (cnt left m next count : ℕ) {s : ℕ}
    → count < cnt
    → next + left < 2 ^ 32 - 1
    → m + count ≡ next
    → IsFreeRun b m count
    → find_run b cnt left next count ≡ some s
    → (s + cnt ≤ next + left) × IsFreeRun b s cnt
find_run_sound b cnt zero m next count h l c run e = absurd (unfold find_run in cc)
find_run_sound b cnt (suc left) m next count {s} h l c run e = elim (Bool-cases (bit b next)) [
  | inl t ↦
      let rest =
        find_run_sound b cnt left (next + 1) (next + 1) 0 {s = s} (omega arith) (omega arith)
          (omega arith) (λ k x y. absurd (omega arith))
          (rw (← find_run-set b cnt left next count (omega arith) t) e) in
      (omega arith, rest.1)
  | inr f ↦
      let longer = IsFreeRun-suc b m next count c run f in
      elim (Bool-cases (count + 1 == cnt)) [
        | inl d ↦
            let d' : cnt ≡ count + 1 = ground arith in
            let at : some m ≡ some s = ground (arith, find_run-found b left m next count) in
            let same : s ≡ m = cc in (omega arith, rw (same, d') longer)
        | inr n ↦
            let rest =
              find_run_sound b cnt left m (next + 1) (count + 1) {s = s} (ground arith)
                (omega arith) (omega arith) longer
                (rw (← find_run-more b cnt left next count (ground arith) f) e) in
            (omega arith, rest.1)
      ]
]

-- A run that starts no earlier than the current one, and ends by the last bit read, is found, or
-- an earlier one.
find_run_complete :
    (b : Bitmap) (cnt left m next count t : ℕ)
    → count < cnt
    → next + left < 2 ^ 32 - 1
    → m + count ≡ next
    → m ≤ t
    → t + cnt ≤ next + left
    → IsFreeRun b t cnt
    → (s : ℕ) × (find_run b cnt left next count ≡ some s) × (s ≤ t)
find_run_complete b cnt zero m next count t h l c mt tl run = absurd (omega arith)
find_run_complete b cnt (suc left) m next count t h l c mt tl run = elim (Bool-cases (bit b next)) [
  | inl set ↦
      let after : next + 1 ≤ t = elim (Bool-cases (ltb next t)) [
        | inl y ↦ ground arith
        | inr n ↦ absurd (ground (arith, run next))
      ] in
      rw (find_run-set b cnt left next count (omega arith) set) (
        find_run_complete b cnt left (next + 1) (next + 1) 0 t (omega arith) (omega arith)
          (omega arith) after (omega arith) run)
  | inr f ↦ elim (Bool-cases (count + 1 == cnt)) [
    | inl d ↦
        let d' : cnt ≡ count + 1 = ground arith in
        (m, rw d' (find_run-found b left m next count c (omega arith) f), mt)
    | inr n ↦ rw (find_run-more b cnt left next count (ground arith) f) (
        find_run_complete b cnt left m (next + 1) (count + 1) t (ground arith) (omega arith)
          (omega arith) mt (omega arith) run)
  ]
]

-- From the first free bit on, the scan for `cnt` bits is the third loop.
scan-find_run :
    (b : Bitmap) (cnt : ℕ)
    → IsValid b
    → 2 ≤ cnt
    → first_byte b < b.bmap_bytes_len
    → bitmap_scan b cnt
      ≡ ok (find_run b cnt (b.bmap_bytes_len * 8 - first_bit b) (first_bit b + 1) 1)
unfolding bitmap_scan
scan-find_run b cnt v h l =
    let free = first_bit-IsFirstFree b v l in
    let e : (b.bmap_bytes_len * 8 + 2 ^ 32 - first_bit b) % 2 ^ 32
        ≡ b.bmap_bytes_len * 8 - first_bit b =
      omega (arith, v.small) in
    rw e (ground arith)

first_bit_run : (b : Bitmap) → bit b (first_bit b) ≡ false → IsFreeRun b (first_bit b) 1
first_bit_run b e k l u = let same : k ≡ first_bit b = omega arith in rw same e

-- In a valid map, a run of two or more bits that the scan returns is free, and it ends at most one bit
-- behind the map.
pub scan-IsFreeRun :
    (b : Bitmap) (cnt : ℕ) {s : ℕ}
    → IsValid b
    → 2 ≤ cnt
    → bitmap_scan b cnt ≡ ok (some s)
    → (s + cnt ≤ b.bmap_bytes_len * 8 + 1) × IsFreeRun b s cnt
scan-IsFreeRun b cnt {s} v h e = elim (first_byte_cases b) [
  | inl l ↦
      let free = first_bit-IsFirstFree b v l in
      let at : ok (find_run b cnt (b.bmap_bytes_len * 8 - first_bit b) (first_bit b + 1) 1)
          ≡ ok (some s) =
        rw (← scan-find_run b cnt v h l) e in
      let r =
        find_run_sound b cnt (b.bmap_bytes_len * 8 - first_bit b) (first_bit b) (first_bit b + 1) 1
          {s = s} h (omega (arith, v.small)) refl (first_bit_run b free.1) (cc) in
      (omega arith, r.1)
  | inr (at_end, _) ↦ absurd (unfold bitmap_scan in ground arith)
]

-- In a valid map, when a run of at least two free bits lies in the map, the scan for its length
-- succeeds with a run that starts no later.
scan_complete :
    (b : Bitmap) (cnt t : ℕ)
    → IsValid b
    → 2 ≤ cnt
    → t + cnt ≤ b.bmap_bytes_len * 8 + 1
    → IsFreeRun b t cnt
    → (s : ℕ) × (bitmap_scan b cnt ≡ ok (some s)) × (s ≤ t)
scan_complete b cnt t v h tl run = elim (first_byte_cases b) [
  | inl l ↦
      let free = first_bit-IsFirstFree b v l in
      let before : first_bit b ≤ t = elim (Bool-cases (ltb t (first_bit b))) [
        | inl y ↦ absurd (ground (arith, free.2 t, run t))
        | inr n ↦ ground arith
      ] in
      let (s, e, q) =
        find_run_complete b cnt (b.bmap_bytes_len * 8 - first_bit b) (first_bit b) (first_bit b + 1)
          1 t h (omega (arith, v.small)) refl before (omega arith) run in
      (s, rw (scan-find_run b cnt v h l, e), q)
  | inr (_, full) ↦ absurd (ground (arith, bit_of_full b t (full (t / 8) (omega arith)), run t))
]

-- In a valid map of which only the last bit is free, and where the bit behind the map reads as 0, a
-- scan for two bits returns a run that ends outside the map.
pub scan_past_end :
    (b : Bitmap) (cnt t : ℕ)
    → IsValid b
    → 2 ≤ cnt
    → t + cnt ≡ b.bmap_bytes_len * 8 + 1
    → ((j : ℕ) → j < t → bit b j ≡ true)
    → IsFreeRun b t cnt
    → bitmap_scan b cnt ≡ ok (some t)
scan_past_end b cnt t v h tl set run =
    let (s, e, l) = scan_complete b cnt t v h (omega arith) run in
    let clear : bit b s ≡ false = (scan-IsFreeRun b cnt v h e).1 s (omega arith) (omega arith) in
    elim (Bool-cases (ltb s t)) [
      | inl y ↦ absurd (ground (arith, set s))
      | inr n ↦ let same : s ≡ t = ground arith in rw (← same) e
    ]
