-- ===== src/Memory/Mapped.antt =====
-- What `malloc_page` guarantees of the pages that it returns.
use zy_os.Base.{
  ℕ, ◌/◌, ◌%◌, ◌<◌, ◌≡◌, ◌≢◌, inl, inr, refl, sym, subst, ◌∙◌, true, false, Option, some, arith,
  Run, ok, >>=-eq-ok,
}
use zy_os.Bitmap.Bits.{bit, bit-written}
use zy_os.Bitmap.Scan.{IsFirstFree}
use zy_os.Memory.Pool.{Pool, palloc, page_size}
use zy_os.Memory.PoolLaws.{IsValid, taken, page_at, palloc_lem, taken-IsValid}
use zy_os.Memory.Paging.{Words, page_table_add, addr_v2p}
use zy_os.Memory.PagingLaws.{IsMapped, window, add_cases, v2p-add, v2p-add_other}
use zy_os.Memory.Pages.{
  PoolFlags, pf_kernel, pf_user, Mem, pool_of, set_pool, palloc_of, add_of, map_found, map_page,
}

-- The pools start at pages.
pub record IsValidMem (m : Mem) : Type 0 where
  pub kernel : IsValid m.kernel_pool
  pub user : IsValid m.user_pool
  pub kernel_aligned : m.kernel_pool.phy_addr_start % page_size ≡ 0
  pub user_aligned : m.user_pool.phy_addr_start % page_size ≡ 0

-- What one call may change of a pool: bits are set and none is cleared.
pub record Grows (p q : Pool) : Type 0 where
  pub start : q.phy_addr_start ≡ p.phy_addr_start
  pub bits : (j : ℕ) → bit p.pool_bitmap j ≡ true → bit q.pool_bitmap j ≡ true

pub Grows-refl : (p : Pool) → Grows p p
Grows-refl p = record { start = refl; bits = λ j h. h }

pub Grows-trans : {p q r : Pool} → Grows p q → Grows q r → Grows p r
Grows-trans a b = record { start = b.start ∙ a.start; bits = λ j h. b.bits j (a.bits j h) }

Grows-taken : (p : Pool) (i : ℕ) → IsValid p → Grows p (taken p i)
Grows-taken p i v = record {
  start = refl;
  bits = λ j h. ground (arith, bit-written p.pool_bitmap i 1 j v.bitmap);
}

-- What a successful call for the page `v` leaves.
pub record OnePage (pf : PoolFlags) (v : ℕ) (m m' : Mem) : Type 0 where
  pub frame : ℕ
  pub translated : addr_v2p v m'.words ≡ page_at (pool_of pf m) frame
  pub mapped : IsMapped m'.words v
  pub was_free : bit (pool_of pf m).pool_bitmap frame ≡ false
  pub is_taken : bit (pool_of pf m').pool_bitmap frame ≡ true
  pub others :
      (u : ℕ)
      → u < window
      → v / page_size ≢ u / page_size
      → IsMapped m.words u
      → (addr_v2p u m'.words ≡ addr_v2p u m.words) × IsMapped m'.words u
  pub kernel_grows : Grows m.kernel_pool m'.kernel_pool
  pub user_grows : Grows m.user_pool m'.user_pool
  pub valid : IsValidMem m'

-- The state behind the page frame's allocation, and behind the page table's entry.
abbrev pub with_frame : PoolFlags → ℕ → Mem → Mem
with_frame pf i m = set_pool pf (taken (pool_of pf m) i) m

abbrev pub with_entry : Words × Pool → Mem → Mem
with_entry w m = record m { words = w.0; kernel_pool = w.1 }

IsValid-pool : (pf : PoolFlags) (m : Mem) → IsValidMem m → IsValid (pool_of pf m)
IsValid-pool pf_kernel m v = v.kernel
IsValid-pool pf_user m v = v.user

map_page_inv :
    (pf : PoolFlags) (v : ℕ) (m : Mem) {m' : Mem}
    → IsValidMem m
    → map_page pf v m ≡ ok (true, m')
    → (i : ℕ) × IsFirstFree (pool_of pf m).pool_bitmap i
      × (w : Words × Pool) × (page_table_add v
            (page_at (pool_of pf m) i)
            (with_frame pf i m).words
            (with_frame pf i m).kernel_pool
          ≡ ok w)
      × (m' ≡ with_entry w (with_frame pf i m))
unfolding map_page
map_page_inv pf v m {m'} val e =
    let p = pool_of pf m in
    let (x, pe, rest) = >>=-eq-ok (palloc_of pf m) (map_found v) {b = (true, m')} e in
    let (r, pe', s) = >>=-eq-ok (palloc p) (λ r. ok (r.0, set_pool pf r.1 m)) {b = x} pe in
    let (i, same, free) = palloc_lem p (IsValid-pool pf m val) pe' in
    let s' =
      subst
        (λ (z : Option ℕ × Pool).
          ◌≡◌ {A = Run (Option ℕ × Mem)} (ok (z.0, set_pool pf z.1 m)) (ok x))
        same s in
    let x' : x ≡ (some (page_at p i), with_frame pf i m) = ground arith in
    let rest' = subst (λ z. map_found v z ≡ ok (true, m')) x' rest in
    let (m2, ae, t) =
      >>=-eq-ok (add_of v (page_at p i) (with_frame pf i m)) (λ m3. ok (true, m3)) {b = (true, m')}
        rest' in
    let (w, we, u) =
      >>=-eq-ok
        (page_table_add v (page_at p i) (with_frame pf i m).words (with_frame pf i m).kernel_pool)
        (λ r. ok (with_entry r (with_frame pf i m))) {b = m2} ae in
    let end : with_entry w (with_frame pf i m) ≡ m' = ground arith in (i, free, w, we, sym end)

-- The kernel's pool behind `page_table_add`.
add-pool :
    (v phy : ℕ) (words : Words) (pool : Pool) {r : Words × Pool}
    → IsValid pool
    → page_table_add v phy words pool ≡ ok r
    → Grows pool r.1 × IsValid r.1
add-pool v phy words pool {r} val e = elim (add_cases v phy words pool val e) [
  | inl (_, _, same) ↦
      subst (λ (z : Words × Pool). Grows pool z.1 × IsValid z.1) (sym same) (Grows-refl pool, val)
  | inr (i, _, same) ↦
      subst (λ (z : Words × Pool). Grows pool z.1 × IsValid z.1) (sym same)
        (Grows-taken pool i val, taken-IsValid pool i val)
]

taken-bit : (p : Pool) (i : ℕ) → IsValid p → bit (taken p i).pool_bitmap i ≡ true
taken-bit p i v = ground (arith, bit-written p.pool_bitmap i 1 i v.bitmap)

-- A page that is mapped has a frame that was free, and other pages keep theirs.
pub map_page-OnePage :
    (pf : PoolFlags) (v : ℕ) (m : Mem) {m' : Mem}
    → IsValidMem m
    → v < window
    → v % page_size ≡ 0
    → map_page pf v m ≡ ok (true, m')
    → OnePage pf v m m'
map_page-OnePage pf_kernel v m {m'} val h al e =
    let (i, free, w, we, same) = map_page_inv pf_kernel v m val e in
    let p = m.kernel_pool in
    let val' = taken-IsValid p i val.kernel in
    let own =
      v2p-add v (page_at p i) m.words (taken p i) val' h (omega (arith, val.kernel_aligned))
        (omega (arith, val.kernel.fits, free.0)) we in
    let (g, gv) = add-pool v (page_at p i) m.words (taken p i) val' we in
    subst (OnePage pf_kernel v m) (sym same) (record {
      frame = i;
      translated = omega (arith, own.0);
      mapped = own.1;
      was_free = free.1;
      is_taken = g.bits i (taken-bit p i val.kernel);
      others = λ u hu ne mu. v2p-add_other v u (page_at p i) m.words (taken p i) val' h hu ne mu we;
      kernel_grows = Grows-trans (Grows-taken p i val.kernel) g;
      user_grows = Grows-refl m.user_pool;
      valid = record {
        kernel = gv;
        user = val.user;
        kernel_aligned = rw g.start val.kernel_aligned;
        user_aligned = val.user_aligned;
      };
    })
map_page-OnePage pf_user v m {m'} val h al e =
    let (i, free, w, we, same) = map_page_inv pf_user v m val e in
    let p = m.user_pool in
    let own =
      v2p-add v (page_at p i) m.words m.kernel_pool val.kernel h (omega (arith, val.user_aligned))
        (omega (arith, val.user.fits, free.0)) we in
    let (g, gv) = add-pool v (page_at p i) m.words m.kernel_pool val.kernel we in
    subst (OnePage pf_user v m) (sym same) (record {
      frame = i;
      translated = omega (arith, own.0);
      mapped = own.1;
      was_free = free.1;
      is_taken = taken-bit p i val.user;
      others = λ u hu ne mu.
          v2p-add_other v u (page_at p i) m.words m.kernel_pool val.kernel h hu ne mu we;
      kernel_grows = g;
      user_grows = Grows-taken p i val.user;
      valid = record {
        kernel = gv;
        user = taken-IsValid p i val.user;
        kernel_aligned = rw g.start val.kernel_aligned;
        user_aligned = val.user_aligned;
      };
    })
