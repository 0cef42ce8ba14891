-- ===== src/Memory/Region.antt =====
-- `malloc_page`: the pages of a region, their frames, and what stays as it was.
use zy_os.Base.{
  ℕ, zero, suc, ◌+◌, ◌*◌, ◌/◌, ◌%◌, ◌≤◌, ◌<◌, ◌≡◌, ◌≢◌, ◌⊎◌, inl, inr, refl, sym, ap, subst, ◌∙◌,
  Bool, true, false, arith, Run, ok, >>=-eq-ok, Bool-cases,
}
use zy_os.Bitmap.Bits.{bit}
use zy_os.Memory.Pool.{page_size, u32}
use zy_os.Memory.PoolLaws.{page_at}
use zy_os.Memory.Paging.{addr_v2p}
use zy_os.Memory.PagingLaws.{IsMapped, window}
use zy_os.Memory.Pages.{PoolFlags, pf_kernel, pf_user, Mem, pool_of, map_page, map_pages, map_rest}
use zy_os.Memory.Mapped.{IsValidMem, Grows, Grows-refl, Grows-trans, OnePage, map_page-OnePage}

Grows-of :
    (pf : PoolFlags) {v : ℕ} {m m' : Mem} → OnePage pf v m m' → Grows (pool_of pf m) (pool_of pf m')
Grows-of pf_kernel o = o.kernel_grows
Grows-of pf_user o = o.user_grows

-- The page `k` of a region at `v` has the frame `i`, which was free and is taken now.
pub record HasFrame (pf : PoolFlags) (v : ℕ) (m m' : Mem) (k : ℕ) : Type 0 where
  pub frame : ℕ
  pub translated : addr_v2p (v + k * page_size) m'.words ≡ page_at (pool_of pf m) frame
  pub mapped : IsMapped m'.words (v + k * page_size)
  pub was_free : bit (pool_of pf m).pool_bitmap frame ≡ false
  pub is_taken : bit (pool_of pf m').pool_bitmap frame ≡ true

-- What a successful allocation of `n` pages from `v` on leaves.
pub record Region (pf : PoolFlags) (v n : ℕ) (m m' : Mem) : Type 0 where
  pub frames : (k : ℕ) → k < n → HasFrame pf v m m' k
  pub distinct :
      (j k : ℕ)
      → j < k
      → k < n
      → addr_v2p (v + j * page_size) m'.words ≢ addr_v2p (v + k * page_size) m'.words
  pub others :
      (u : ℕ)
      → u < window
      → (u / page_size < v / page_size) ⊎ (v / page_size + n ≤ u / page_size)
      → IsMapped m.words u
      → (addr_v2p u m'.words ≡ addr_v2p u m.words) × IsMapped m'.words u
  pub grows : Grows (pool_of pf m) (pool_of pf m')
  pub valid : IsValidMem m'

Region-zero : (pf : PoolFlags) (v : ℕ) (m : Mem) → IsValidMem m → Region pf v 0 m m
Region-zero pf v m val = record {
  frames = λ k h. absurd (omega arith);
  distinct = λ j k h l. absurd (omega arith);
  others = λ u h o mu. (refl, mu);
  grows = Grows-refl (pool_of pf m);
  valid = val;
}

first_frame :
    (pf : PoolFlags) (v n : ℕ) {m m1 m' : Mem}
    → v < window
    → v % page_size ≡ 0
    → OnePage pf v m m1
    → Region pf (v + page_size) n m1 m'
    → HasFrame pf v m m' 0
first_frame pf v n {m} {m1} {m'} h al one rest =
    let (t, mp) = rest.others v h (inl (omega arith)) one.mapped in
    let at : v + 0 * page_size ≡ v = omega arith in
    record {
      frame = one.frame;
      translated = rw at (t ∙ one.translated);
      mapped = rw at mp;
      was_free = one.was_free;
      is_taken = rest.grows.bits one.frame one.is_taken;
    }

later_frame :
    (pf : PoolFlags) (v k : ℕ) {m m1 m' : Mem}
    → Grows (pool_of pf m) (pool_of pf m1)
    → HasFrame pf (v + page_size) m1 m' k
    → HasFrame pf v m m' (suc k)
later_frame pf v k {m} {m1} {m'} g f =
    let at : v + suc k * page_size ≡ v + page_size + k * page_size = omega arith in
    record {
      frame = f.frame;
      translated = rw at (f.translated ∙ ap (λ (z : ℕ). z + f.frame * page_size) g.start);
      mapped = rw at f.mapped;
      was_free = elim (Bool-cases (bit (pool_of pf m).pool_bitmap f.frame)) [
        | inl t ↦ absurd (ground (arith, g.bits f.frame t, f.was_free))
        | inr n ↦ n
      ];
      is_taken = f.is_taken;
    }

-- The first page's frame is none of the later ones'.
first_distinct :
    (pf : PoolFlags) (v n k : ℕ) {m m1 m' : Mem}
    → v < window
    → v % page_size ≡ 0
    → OnePage pf v m m1
    → Region pf (v + page_size) n m1 m'
    → k < n
    → addr_v2p v m'.words ≢ addr_v2p (v + page_size + k * page_size) m'.words
first_distinct pf v n k {m} {m1} {m'} h al one rest l e =
    let (t, mp) = rest.others v h (inl (omega arith)) one.mapped in
    let f = rest.frames k l in
    let g = Grows-of pf one in
    let f' : addr_v2p (v + page_size + k * page_size) m'.words ≡ page_at (pool_of pf m) f.frame =
      f.translated ∙ ap (λ (z : ℕ). z + f.frame * page_size) g.start in
    let same : page_at (pool_of pf m) one.frame ≡ page_at (pool_of pf m) f.frame =
      sym (t ∙ one.translated) ∙ e ∙ f' in
    let frames : f.frame ≡ one.frame = omega (arith, same) in
    let free = subst (λ z. bit (pool_of pf m1).pool_bitmap z ≡ false) frames f.was_free in
    cc (one.is_taken, free)

Region-frames :
    (pf : PoolFlags) (v n : ℕ) {m m1 m' : Mem}
    → v < window
    → v % page_size ≡ 0
    → OnePage pf v m m1
    → Region pf (v + page_size) n m1 m'
    → (k : ℕ) → k < suc n
    → HasFrame pf v m m' k
Region-frames pf v n h al one rest zero l = first_frame pf v n h al one rest
Region-frames pf v n h al one rest (suc k) l =
    later_frame pf v k (Grows-of pf one) (rest.frames k (omega arith))

Region-distinct :
    (pf : PoolFlags) (v n : ℕ) {m m1 m' : Mem}
    → v < window
    → v % page_size ≡ 0
    → OnePage pf v m m1
    → Region pf (v + page_size) n m1 m'
    → (j k : ℕ) → j < k
    → k < suc n
    → addr_v2p (v + j * page_size) m'.words ≢ addr_v2p (v + k * page_size) m'.words
Region-distinct pf v n h al one rest j zero l b = absurd (omega arith)
Region-distinct pf v n h al one rest zero (suc k) l b =
    let at : v + 0 * page_size ≡ v = omega arith in
    let at' : v + suc k * page_size ≡ v + page_size + k * page_size = omega arith in
    rw (at, at') (first_distinct pf v n k h al one rest (omega arith))
Region-distinct pf v n h al one rest (suc j) (suc k) l b =
    let at : v + suc j * page_size ≡ v + page_size + j * page_size = omega arith in
    let at' : v + suc k * page_size ≡ v + page_size + k * page_size = omega arith in
    rw (at, at') (rest.distinct j k (omega arith) (omega arith))

Region-others :
    (pf : PoolFlags) (v n : ℕ) {m m1 m' : Mem}
    → v % page_size ≡ 0
    → OnePage pf v m m1
    → Region pf (v + page_size) n m1 m'
    → (u : ℕ) → u < window
    → (u / page_size < v / page_size) ⊎ (v / page_size + suc n ≤ u / page_size)
    → IsMapped m.words u
    → (addr_v2p u m'.words ≡ addr_v2p u m.words) × IsMapped m'.words u
Region-others pf v n al one rest u h o mu =
    let (t, mp) = one.others u h (omega arith) mu in
    let (t', mp') = rest.others u h (omega arith) mp in (t' ∙ t, mp')

Region-suc :
    (pf : PoolFlags) (v n : ℕ) {m m1 m' : Mem}
    → v + suc n * page_size ≤ window
    → v % page_size ≡ 0
    → OnePage pf v m m1
    → Region pf (v + page_size) n m1 m'
    → Region pf v (suc n) m m'
Region-suc pf v n h al one rest = record {
  frames = Region-frames pf v n (omega arith) al one rest;
  distinct = Region-distinct pf v n (omega arith) al one rest;
  others = Region-others pf v n al one rest;
  grows = Grows-trans (Grows-of pf one) rest.grows;
  valid = rest.valid;
}

pub map_rest_inv :
    (next : Mem → Run (Bool × Mem)) (r : Bool × Mem) {m' : Mem}
    → map_rest next r ≡ ok (true, m')
    → (m1 : Mem) × (r ≡ (true, m1)) × (next m1 ≡ ok (true, m'))
map_rest_inv next (true, m1) e = (m1, refl, e)
map_rest_inv next (false, m1) e = absurd (ground arith)

-- A loop that maps all its pages gives each a frame of its own that was free, keeps what the other
-- pages of the address space translate to, and clears no bit of the pool.
pub map_pages-Region :
    (pf : PoolFlags) (v n : ℕ) (m : Mem) {m' : Mem}
    → IsValidMem m
    → v + n * page_size ≤ window
    → v % page_size ≡ 0
    → map_pages pf v n m ≡ ok (true, m')
    → Region pf v n m m'
unfolding map_pages
map_pages-Region pf v zero m {m'} val h al e =
    let same : m ≡ m' = ground arith in subst (Region pf v 0 m) same (Region-zero pf v m val)
map_pages-Region pf v (suc n) m {m'} val h al e =
    let (r, pe, rest) =
      >>=-eq-ok (map_page pf v m) (map_rest (map_pages pf (u32 (v + page_size)) n)) {b = (true, m')}
        e in
    let (m1, same, rest') = map_rest_inv (map_pages pf (u32 (v + page_size)) n) r rest in
    let one = map_page-OnePage pf v m val (omega arith) al (pe ∙ ap ok same) in
    let at : u32 (v + page_size) ≡ v + page_size = omega arith in
    Region-suc pf v n h al one (
      map_pages-Region pf (v + page_size) n m1 one.valid (omega arith) (omega arith)
        (subst (λ z. map_pages pf z n m1 ≡ ok (true, m')) at rest'))
