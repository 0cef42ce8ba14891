-- ===== src/Memory/Malloc.antt =====
-- `vaddr_get` and `malloc_page`: the virtual pages that are taken, and what they are mapped to.
use zy_os.Base.{
  ℕ, zero, suc, ◌+◌, ◌*◌, ◌%◌, ◌≤◌, ◌≡◌, inl, inr, refl, sym, ap, subst, ◌∙◌, Bool, true, false,
  ◌&&◌, Option, none, some, arith, ◌==◌, ltb, leb, if◌then◌else◌, ok, assert, ◌>>=◌, ◌>>◌,
  >>=-eq-ok, Bool-cases,
}
use zy_os.Bitmap.{Bitmap, bitmap_scan, bitmap_set}
use zy_os.Bitmap.Bits.{bit, written, bit-written, written-IsValid, set-written}
use zy_os.Bitmap.Bits as Bits
use zy_os.Bitmap.Scan.{scan-one}
use zy_os.Bitmap.Runs.{scan-IsFreeRun, IsFreeRun}
use zy_os.Memory.Pool.{Pool, palloc, VirtualAddr, page_size, u32}
use zy_os.Memory.Paging.{Words, page_table_add}
use zy_os.Memory.PagingLaws.{window}
use zy_os.Memory.Pages.{
  PoolFlags, pf_kernel, pf_user, Mem, pool_of, set_pool, palloc_of, add_of, map_found, map_page,
  map_rest, vaddr_of, set_bitmap, take_run, set_bits, below_stack, map_pages, map_from, vaddr_get,
  malloc_page,
}
use zy_os.Memory.Mapped.{IsValidMem}
use zy_os.Memory.Region.{map_rest_inv, Region, map_pages-Region}

-- The addresses that the bitmap stands for are pages below the tables' window, and one page more.
pub record IsValidVaddr (a : VirtualAddr) : Type 0 where
  pub bitmap : Bits.IsValid a.vaddr_bitmap
  pub aligned : a.vaddr_start % page_size ≡ 0
  pub fits : a.vaddr_start + (a.vaddr_bitmap.bmap_bytes_len * 8 + 1) * page_size ≤ window

-- Whether `j` is one of the `n` numbers from `s` on.
abbrev pub within : ℕ → ℕ → ℕ → Bool
within s n j = leb s j && ltb j (s + n)

-- `set_bits` writes the bits of the run and no other.
pub set_bits_lem :
    (b : Bitmap) (s v n : ℕ) {c : Bitmap}
    → Bits.IsValid b
    → v ≤ 1
    → set_bits b s v n ≡ ok c
    → Bits.IsValid c × ((j : ℕ) → bit c j ≡ (if within s n j then v == 1 else bit b j))
unfolding set_bits
set_bits_lem b s v zero {c} val h e =
    let same : b ≡ c = ground arith in
    subst (λ z. Bits.IsValid z × ((j : ℕ) → bit z j ≡ (if within s 0 j then v == 1 else bit b j)))
      same (val, λ j. ground arith)
set_bits_lem b s v (suc n) {c} val h e =
    let (d, de, rest) = >>=-eq-ok (bitmap_set b s v) (λ b'. set_bits b' (s + 1) v n) {b = c} e in
    let at : d ≡ written b s v = ground (arith, set-written b s v) in
    let rest' = subst (λ z. set_bits z (s + 1) v n ≡ ok c) at rest in
    let (valid, bits) =
      set_bits_lem (written b s v) (s + 1) v n (written-IsValid b s v val) h rest' in
    (valid, λ j. ground (arith, bits j, bit-written b s v j val))

-- A run of bits that the scan gives is in the map or ends one bit behind it, and was free.
scan-run :
    (b : Bitmap) (cnt s : ℕ)
    → Bits.IsValid b
    → 1 ≤ cnt
    → bitmap_scan b cnt ≡ ok (some s)
    → (s + cnt ≤ b.bmap_bytes_len * 8 + 1) × IsFreeRun b s cnt
scan-run b cnt s v h e = elim (Bool-cases (cnt == 1)) [
  | inl one ↦
      let is_one : cnt ≡ 1 = ground arith in
      let (i, same, free) = scan-one b v (subst (λ z. bitmap_scan b z ≡ ok (some s)) is_one e) in
      let at : s ≡ i = ground arith in
      (omega (arith, free.0), λ k l u. subst (λ z. bit b z ≡ false) (omega arith) free.1)
  | inr more ↦ scan-IsFreeRun b cnt v (ground arith) e
]

set_bitmap-pools :
    (pf : PoolFlags) (b : Bitmap) (m : Mem) → IsValidMem m → IsValidMem (set_bitmap pf b m)
set_bitmap-pools pf_kernel b m v = record {
  kernel = v.kernel;
  user = v.user;
  kernel_aligned = v.kernel_aligned;
  user_aligned = v.user_aligned;
}
set_bitmap-pools pf_user b m v = record {
  kernel = v.kernel;
  user = v.user;
  kernel_aligned = v.kernel_aligned;
  user_aligned = v.user_aligned;
}

-- What `vaddr_get` gives: a run of free pages, whose bits it sets, and nothing else changes.
pub record Taken (pf : PoolFlags) (cnt v : ℕ) (m m' : Mem) : Type 0 where
  pub start : ℕ
  pub address : v ≡ (vaddr_of pf m).vaddr_start + start * page_size
  pub in_map : start + cnt ≤ (vaddr_of pf m).vaddr_bitmap.bmap_bytes_len * 8 + 1
  pub free : IsFreeRun (vaddr_of pf m).vaddr_bitmap start cnt
  pub bitmap : Bitmap
  pub bits :
      (j : ℕ)
      → bit bitmap j ≡ (if within start cnt j then true else bit (vaddr_of pf m).vaddr_bitmap j)
  pub same : m' ≡ set_bitmap pf bitmap m

take_run_inv :
    (pf : PoolFlags) (cnt : ℕ) (m : Mem) (found : Option ℕ) {v : ℕ} {m' : Mem}
    → take_run pf cnt m found ≡ ok (some v, m')
    → (s : ℕ) × (found ≡ some s)
      × (b : Bitmap) × (set_bits (vaddr_of pf m).vaddr_bitmap s 1 cnt ≡ ok b)
      × (v ≡ u32 ((vaddr_of pf m).vaddr_start + s * page_size))
      × (m' ≡ set_bitmap pf b m)
take_run_inv pf cnt m none e = absurd (ground arith)
take_run_inv pf cnt m (some s) {v} {m'} e =
    let at = u32 ((vaddr_of pf m).vaddr_start + s * page_size) in
    let (b, be, rest) =
      >>=-eq-ok (set_bits (vaddr_of pf m).vaddr_bitmap s 1 cnt)
        (λ b. assert (below_stack pf at) >> ok (some at, set_bitmap pf b m)) {b = (some v, m')} e in
    (s, refl, b, be, ground arith, ground arith)

-- The pages that `vaddr_get` gives were free, are marked as taken, and nothing else changes.
pub vaddr_get-Taken :
    (pf : PoolFlags) (cnt : ℕ) (m : Mem) {v : ℕ} {m' : Mem}
    → IsValidVaddr (vaddr_of pf m)
    → 1 ≤ cnt
    → vaddr_get pf cnt m ≡ ok (some v, m')
    → Taken pf cnt v m m'
unfolding vaddr_get
vaddr_get-Taken pf cnt m {v} {m'} val h e =
    let b = (vaddr_of pf m).vaddr_bitmap in
    let (found, scanned, rest) =
      >>=-eq-ok (bitmap_scan b cnt) (take_run pf cnt m) {b = (some v, m')} e in
    let (s, same, c, ce, addr, end) = take_run_inv pf cnt m found rest in
    let (inside, free) = scan-run b cnt s val.bitmap h (scanned ∙ ap ok same) in
    record {
      start = s;
      address = omega (arith, val.fits);
      in_map = inside;
      free = free;
      bitmap = c;
      bits = λ j. (set_bits_lem b s 1 cnt val.bitmap (omega arith) ce).1 j;
      same = end;
    }

map_from_inv :
    (pf : PoolFlags) (cnt : ℕ) (r : Option ℕ × Mem) {v : ℕ} {m' : Mem}
    → map_from pf cnt r ≡ ok (some v, m')
    → (m1 : Mem) × (r ≡ (some v, m1)) × (map_pages pf v cnt m1 ≡ ok (true, m'))
map_from_inv pf cnt (none, m1) e = absurd (ground arith)
map_from_inv pf cnt (some u, m1) {v} {m'} e =
    let (r, re, rest) =
      >>=-eq-ok (map_pages pf u cnt m1) (λ r. ok (if r.0 then some u else none, r.1))
        {b = (some v, m')} e in
    let same : u ≡ v = ground arith in
    let done : r ≡ (true, m') = ground arith in
    (m1, ground arith, subst (λ z. map_pages pf z cnt m1 ≡ ok (true, m')) same (re ∙ ap ok done))

-- The loop over the pages leaves the maps of virtual pages.
pub record SameMaps (m m' : Mem) : Type 0 where
  pub kernel : m'.kernel_vaddr ≡ m.kernel_vaddr
  pub user : m'.user_vaddr ≡ m.user_vaddr
  pub thread : m'.is_kernel ≡ m.is_kernel

SameMaps-trans : {m m1 m' : Mem} → SameMaps m m1 → SameMaps m1 m' → SameMaps m m'
SameMaps-trans a b = record {
  kernel = b.kernel ∙ a.kernel;
  user = b.user ∙ a.user;
  thread = b.thread ∙ a.thread;
}

SameMaps-refl : (m : Mem) → SameMaps m m
SameMaps-refl m = record { kernel = refl; user = refl; thread = refl }

set_pool-SameMaps : (pf : PoolFlags) (p : Pool) (m : Mem) → SameMaps m (set_pool pf p m)
set_pool-SameMaps pf_kernel p m = record { kernel = refl; user = refl; thread = refl }
set_pool-SameMaps pf_user p m = record { kernel = refl; user = refl; thread = refl }

map_found-SameMaps :
    (v : ℕ) (r : Option ℕ × Mem) (m' : Mem) → map_found v r ≡ ok (true, m') → SameMaps r.1 m'
map_found-SameMaps v (none, m) m' e = absurd (ground arith)
map_found-SameMaps v (some phy, m) m' e =
    let (m2, adding, last) =
      >>=-eq-ok (add_of v phy m) (λ (z : Mem). ok (true, z)) {b = (true, m')} e in
    let (r, run, made) =
      >>=-eq-ok (page_table_add v phy m.words m.kernel_pool)
        (λ (r : Words × Pool). ok (record m { words = r.0; kernel_pool = r.1 })) {b = m2} adding in
    let same : record m { words = r.0; kernel_pool = r.1 } ≡ m' = ground (arith, made, last) in
    subst (SameMaps m) same (record { kernel = refl; user = refl; thread = refl })

map_page-SameMaps :
    (pf : PoolFlags) (v : ℕ) (m m' : Mem) → map_page pf v m ≡ ok (true, m') → SameMaps m m'
unfolding map_page
map_page-SameMaps pf v m m' e =
    let (r, run, rest) = >>=-eq-ok (palloc_of pf m) (map_found v) {b = (true, m')} e in
    let (q, taking, put) =
      >>=-eq-ok (palloc (pool_of pf m)) (λ (q : Option ℕ × Pool). ok (q.0, set_pool pf q.1 m))
        {b = r} run in
    let at : set_pool pf q.1 m ≡ r.1 = ground (arith, put) in
    SameMaps-trans (subst (SameMaps m) at (set_pool-SameMaps pf q.1 m))
      (map_found-SameMaps v r m' rest)

map_pages-SameMaps :
    (pf : PoolFlags) (v n : ℕ) (m m' : Mem) → map_pages pf v n m ≡ ok (true, m') → SameMaps m m'
unfolding map_pages
map_pages-SameMaps pf v zero m m' e =
    let same : m ≡ m' = ground arith in subst (SameMaps m) same (SameMaps-refl m)
map_pages-SameMaps pf v (suc n) m m' e =
    let (r, pe, rest) =
      >>=-eq-ok (map_page pf v m) (map_rest (map_pages pf (u32 (v + page_size)) n)) {b = (true, m')}
        e in
    let (m1, same, rest') = map_rest_inv (map_pages pf (u32 (v + page_size)) n) r rest in
    SameMaps-trans (map_page-SameMaps pf v m m1 (pe ∙ ap ok same))
      (map_pages-SameMaps pf (u32 (v + page_size)) n m1 m' rest')

-- When malloc_page returns an address in a valid machine, the pg_cnt virtual pages from it on were free
-- and are marked in the machine that it leaves, where no other bit of that map, and nothing of the
-- other map, has changed, and each page is mapped to a frame of the pool that was free and is now
-- taken; the frames are distinct, and pages mapped before keep their translation.
pub malloc_page_lem :
    (pf : PoolFlags) (pg_cnt : ℕ) (m : Mem) {v : ℕ} {m' : Mem}
    → IsValidMem m
    → IsValidVaddr (vaddr_of pf m)
    → malloc_page pf pg_cnt m ≡ ok (some v, m')
    → (m1 : Mem) × Taken pf pg_cnt v m m1 × Region pf v pg_cnt m1 m' × SameMaps m1 m'
unfolding malloc_page
malloc_page_lem pf pg_cnt m {v} {m'} val vv e =
    let e' : (1 ≤ pg_cnt) × ((vaddr_get pf pg_cnt m >>= map_from pf pg_cnt) ≡ ok (some v, m')) =
      (ground arith, ground arith) in
    let (r, re, rest) =
      >>=-eq-ok (vaddr_get pf pg_cnt m) (map_from pf pg_cnt) {b = (some v, m')} e'.1 in
    let (m1, same, mapped) = map_from_inv pf pg_cnt r rest in
    let taken = vaddr_get-Taken pf pg_cnt m vv e'.0 (re ∙ ap ok same) in
    let val' = subst IsValidMem (sym taken.same) (set_bitmap-pools pf taken.bitmap m val) in
    (
      m1,
      taken,
      map_pages-Region pf v pg_cnt m1 val' (omega (arith, vv.fits, taken.address, taken.in_map))
          (omega (arith, vv.aligned, taken.address)) mapped,
      map_pages-SameMaps pf v pg_cnt m1 m' mapped,
    )
