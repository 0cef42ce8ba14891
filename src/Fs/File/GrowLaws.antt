-- ===== src/Fs/File/GrowLaws.antt =====
-- The blocks that `file_write` of fs/file.c allocates.
use zy_os.Base.{
  ℕ, zero, suc, ◌+◌, ◌*◌, ◌%◌, ◌^◌, ◌≤◌, ◌<◌, ◌≡◌, ◌≢◌, inl, inr, refl, sym, ap, ◌∙◌, subst, true,
  false, Option, some, ◌==◌, ltb, if◌then◌else◌, update, arith, Bool-cases, Run, ok, panic, assert,
  ◌>>◌, >>=-eq-ok,
}
use zy_os.Bitmap.{Bitmap, bitmap_scan}
use zy_os.Bitmap.Bits.{bit, written, bit-written, written-IsValid, set-one}
use zy_os.Bitmap.Bits as Bits
use zy_os.Bitmap.Scan.{scan-one, IsFirstFree}
use zy_os.Fs.Files.{block_bitmap_alloc, mark}
use zy_os.Fs.File.Write.{Growth, bitmap_sync, allocated, with_block, grow_round, grow, sync_block}

ok_injective : {A : Type 0} {x y : A} → ok x ≡ ok y → x ≡ y
ok_injective e = cc

-- A block that is allocated was free, and is taken then.
pub block_bitmap_alloc_lem :
    (d : ℕ) (b : Bitmap) {r : Option ℕ × Bitmap}
    → Bits.IsValid b
    → block_bitmap_alloc d b ≡ ok r
    → (i : ℕ) × (r ≡ (some ((d + i) % 2 ^ 32), written b i 1)) × IsFirstFree b i
unfolding block_bitmap_alloc
block_bitmap_alloc_lem d b {r} v e =
    let mark_at = mark b (λ i. (d + i) % 2 ^ 32) in
    let (s, scanned, marked) = >>=-eq-ok (bitmap_scan b 1) mark_at {b = r} e in
    let (i, at, first) = scan-one b v scanned in
    let here = subst (λ z. mark_at z ≡ ok r) at marked in
    let done : mark_at (some i) ≡ ok (some ((d + i) % 2 ^ 32), written b i 1) =
      rw (set-one b i) refl in
    (i, ok_injective (sym here ∙ done), first)

-- The state behind the allocation of the bit `i`.
abbrev pub marked_at : (i : ℕ) → Growth → Growth
marked_at i g = record g {
  volume = record g.volume { block_bitmap = written g.volume.block_bitmap i 1 };
}

with_block_lem :
    (g : Growth) (next : ℕ → Growth → Run Growth) {g' : Growth}
    → Bits.IsValid g.volume.block_bitmap
    → with_block g next ≡ ok g'
    → (i : ℕ) × IsFirstFree g.volume.block_bitmap i
      × (next ((g.volume.data_start_lba + i) % 2 ^ 32) (marked_at i g) ≡ ok g')
unfolding with_block
with_block_lem g next {g'} v e =
    let b = g.volume.block_bitmap in
    let d = g.volume.data_start_lba in
    let (r, run, rest) = >>=-eq-ok (block_bitmap_alloc d b) (allocated g next) {b = g'} e in
    let (i, at, first) = block_bitmap_alloc_lem d b v run in
    (i, first, subst (λ z. allocated g next z ≡ ok g') at rest)

-- What one round changes.
record GrownOne (b i : ℕ) (g g' : Growth) : Type 0 where
  pub fine : g'.failed ≡ g.failed
  pub start : g'.volume.data_start_lba ≡ g.volume.data_start_lba
  pub bitmap : g'.volume.block_bitmap ≡ written g.volume.block_bitmap i 1
  pub listed : g'.all_blocks ≡ update g.all_blocks b ((g.volume.data_start_lba + i) % 2 ^ 32)

-- The end of a round, by where the block stands.
round_end : (b block_lba : ℕ) → Growth → Run Growth
round_end b block_lba h =
    let listed = record h { all_blocks = update h.all_blocks b block_lba } in
    let direct = record listed { i_sectors = update h.i_sectors b block_lba } in
    if ltb b 12
    then assert (h.i_sectors b == 0) >> ok (sync_block block_lba direct)
    else ok (sync_block block_lba listed)

round_end-GrownOne :
    (b i : ℕ) (g : Growth) {g' : Growth}
    → round_end b ((g.volume.data_start_lba + i) % 2 ^ 32) (marked_at i g) ≡ ok g'
    → GrownOne b i g g'
unfolding round_end bitmap_sync
round_end-GrownOne b i g {g'} e =
    let lba = (g.volume.data_start_lba + i) % 2 ^ 32 in
    let h = marked_at i g in
    let listed : Growth = record h { all_blocks = update h.all_blocks b lba } in
    let direct : Growth = record listed { i_sectors = update h.i_sectors b lba } in
    elim (Bool-cases (ltb b 12)) [
      | inl low ↦ elim (Bool-cases (g.i_sectors b == 0)) [
        | inl z ↦
            let same : sync_block lba direct ≡ g' = ok_injective (rw (low, z) at e) in
            subst (λ x. GrownOne b i g x) same
              (record { fine = refl; start = refl; bitmap = refl; listed = refl })
        | inr nz ↦ let halted : panic ≡ ok g' = rw (low, nz) at e in cc
      ]
      | inr high ↦
          let same : sync_block lba listed ≡ g' = ok_injective (rw high at e) in
          subst (λ x. GrownOne b i g x) same
            (record { fine = refl; start = refl; bitmap = refl; listed = refl })
    ]

grow_round_lem :
    (b : ℕ) (g : Growth) {g' : Growth}
    → Bits.IsValid g.volume.block_bitmap
    → grow_round b g ≡ ok g'
    → (i : ℕ) × IsFirstFree g.volume.block_bitmap i × GrownOne b i g g'
unfolding grow_round round_end
grow_round_lem b g {g'} v e =
    let (i, first, rest) = with_block_lem g (round_end b) {g' = g'} v e in
    (i, first, round_end-GrownOne b i g rest)

-- The block `k` of the list stands for a bit that was clear and is set now.
abbrev pub FreshAt : (d : ℕ) (old new : Bitmap) (all_blocks : ℕ → ℕ) (k : ℕ) → Type 0
FreshAt d old new all_blocks k =
    (i : ℕ) × (all_blocks k ≡ (d + i) % 2 ^ 32)
    × (i < old.bmap_bytes_len * 8)
    × (bit old i ≡ false)
    × (bit new i ≡ true)

-- The blocks from `b` up to `end` are allocated.
pub record Grown (b end : ℕ) (g g' : Growth) : Type 0 where
  pub fine : g'.failed ≡ false
  pub kept : (j : ℕ) → bit g.volume.block_bitmap j ≡ true → bit g'.volume.block_bitmap j ≡ true
  pub others : (k : ℕ) → k < b → g'.all_blocks k ≡ g.all_blocks k
  pub fresh :
      (k : ℕ)
      → b ≤ k
      → k < end
      → FreshAt g.volume.data_start_lba g.volume.block_bitmap g'.volume.block_bitmap g'.all_blocks k
  pub distinct : (j k : ℕ) → b ≤ j → j < k → k < end → g'.all_blocks j ≢ g'.all_blocks k

grow_step :
    (left b : ℕ) (g h : Growth) {g' : Growth}
    → h.failed ≡ false
    → grow_round b g ≡ ok h
    → grow (suc left) b g ≡ ok g'
    → grow left (b + 1) h ≡ ok g'
unfolding grow
grow_step left b g h {g'} fine run e =
    let rest = grow left (b + 1) h in
    let next : (if h.failed then ok h else rest) ≡ ok g' = rw run at e in
    subst (λ t. (if t then ok h else rest) ≡ ok g') fine next

grow_first :
    (left b : ℕ) (g : Growth) {g' : Growth}
    → grow (suc left) b g ≡ ok g'
    → (h : Growth) × (grow_round b g ≡ ok h)
unfolding grow
grow_first left b g {g'} e =
    let (h, run, rest) =
      >>=-eq-ok (grow_round b g)
        (λ h. let next = grow left (b + 1) h in if h.failed then ok h else next) {b = g'} e in
    (h, run)

Grown-step :
    (b i end : ℕ) (g h g' : Growth)
    → Bits.IsValid g.volume.block_bitmap
    → g.volume.data_start_lba + g.volume.block_bitmap.bmap_bytes_len * 8 ≤ 2 ^ 32
    → IsFirstFree g.volume.block_bitmap i
    → GrownOne b i g h
    → Grown (b + 1) end h g'
    → Grown b end g g'
Grown-step b i end g h g' v room (low, free, lower) one w =
    let old = g.volume.block_bitmap in
    let mid : (j : ℕ) → bit h.volume.block_bitmap j ≡ (if i == j then true else bit old j) =
      λ j. ap (λ x. bit x j) one.bitmap ∙ bit-written old i 1 j v in
    let here : bit h.volume.block_bitmap i ≡ true = ground (arith, mid i) in
    let first : g'.all_blocks b ≡ (g.volume.data_start_lba + i) % 2 ^ 32 =
      w.others b (omega arith) ∙ ground (arith, ap (λ f. f b) one.listed) in
    let later : (k : ℕ)
        → b + 1 ≤ k
        → k < end
        → (n : ℕ) × (g'.all_blocks k ≡ (g.volume.data_start_lba + n) % 2 ^ 32)
          × (n < old.bmap_bytes_len * 8)
          × (bit old n ≡ false)
          × (bit g'.volume.block_bitmap n ≡ true)
          × (n ≢ i) =
      λ k l m.
        let (n, at, inside, clear, taken) = w.fresh k l m in
        let ne : n ≢ i = λ e. cc (here, ap (λ x. bit h.volume.block_bitmap x) e) in
        (
          n,
          at ∙ ap (λ d. (d + n) % 2 ^ 32) one.start,
          omega (arith, inside, ap (λ (x : Bitmap). x.bmap_bytes_len) one.bitmap),
          ground (arith, mid n),
          taken,
          ne,
        ) in
    record {
      fine = w.fine;
      kept = λ j t. w.kept j (ground (arith, mid j));
      others = λ k l. w.others k (omega arith) ∙ ground (arith, ap (λ f. f k) one.listed);
      fresh = λ k l m. elim (Bool-cases (k == b)) [
        | inl e ↦ (i, ap g'.all_blocks (ground arith) ∙ first, low, free, w.kept i here)
        | inr ne ↦
            let (n, at, inside, clear, taken, other) = later k (ground arith) m in
            (n, at, inside, clear, taken)
      ];
      distinct = λ j k l lt m. elim (Bool-cases (j == b)) [
        | inl e ↦
            let (n, at, inside, clear, taken, other) = later k (ground arith) m in
            let same : j ≡ b = ground arith in
            λ eq. other (omega (arith, sym first ∙ ap g'.all_blocks (sym same) ∙ eq ∙ at))
        | inr ne ↦ w.distinct j k (ground arith) lt m
      ];
    }

-- When the loop that allocates returns, in a valid bitmap whose blocks end below 2^32, it has not
-- failed, and each of the blocks that it lists stood for a bit that was clear and is set now; the
-- blocks are different, no bit is cleared, and what was listed before them stays.
pub grow-Grown :
    (left b : ℕ) (g : Growth) {g' : Growth}
    → Bits.IsValid g.volume.block_bitmap
    → g.volume.data_start_lba + g.volume.block_bitmap.bmap_bytes_len * 8 ≤ 2 ^ 32
    → g.failed ≡ false
    → grow left b g ≡ ok g'
    → Grown b (b + left) g g'
grow-Grown zero b g {g'} v room fine e =
    let same : g ≡ g' = ok_injective (unfold grow in e) in
    subst (λ x. Grown b (b + zero) g x) same
      (record {
        fine = fine;
        kept = λ j t. t;
        others = λ k l. refl;
        fresh = λ k l m. absurd (omega arith);
        distinct = λ j k l lt m. absurd (omega arith);
      })
grow-Grown (suc left) b g {g'} v room fine e =
    let (h, run) = grow_first left b g {g' = g'} e in
    let (i, first, one) = grow_round_lem b g v run in
    let fine' : h.failed ≡ false = one.fine ∙ fine in
    let valid : Bits.IsValid h.volume.block_bitmap =
      subst (λ x. Bits.IsValid x) (sym one.bitmap) (written-IsValid g.volume.block_bitmap i 1 v) in
    let room' : h.volume.data_start_lba + h.volume.block_bitmap.bmap_bytes_len * 8 ≤ 2 ^ 32 =
      omega (arith, one.start, ap (λ (x : Bitmap). x.bmap_bytes_len) one.bitmap) in
    let rest = grow-Grown left (b + 1) h valid room' fine' (grow_step left b g h fine' run e) in
    let end : b + 1 + left ≡ b + suc left = omega arith in
    Grown-step b i (b + suc left) g h g' v room first one
      (subst (λ x. Grown (b + 1) x h g') end rest)
