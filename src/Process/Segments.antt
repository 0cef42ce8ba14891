-- ===== src/Process/Segments.antt =====
-- The pages that `segment_load` (user_process/exec.c) sees to.
use zy_os.Base.{
  ℕ, zero, suc, ◌+◌, ◌-◌, ◌*◌, ◌/◌, ◌%◌, ◌^◌, ◌≤◌, ◌<◌, ◌≡◌, inl, inr, refl, sym, ◌∙◌, subst, Bool,
  true, false, ◌&&◌, Option, none, some, ◌==◌, ltb, arith, Bool-cases, Run, ok, panic, assert,
  ◌>>=◌, ◌>>◌, >>=-eq-ok,
}
use zy_os.Bitmap.{Bitmap, bitmap_set}
use zy_os.Memory.Pool.{u32, sub32}
use zy_os.Memory.Paging.{Words, pde_ptr, pte_ptr, present, addr_v2p}
use zy_os.Memory.PagingLaws.{IsMapped, window, pte_ptr_lem, pde_ptr_lem}
use zy_os.Memory.Pages.{
  Mem, pf_user, palloc_of, add_of, map_page, install_page, get_a_page, lock_pool, unlock_pool,
  set_bitmap, vaddr_of, own_pool,
}
use zy_os.Memory.Mapped.{IsValidMem, map_page-OnePage}
use zy_os.Process.{page_size, occupy_pages, load_pages, page_got, segment_load}

-- What a call may do to the pages of others: those that are mapped stay so, at their frames.
pub record Keeps (m m' : Mem) : Type 0 where
  pub mapped :
      (u : ℕ)
      → u < window
      → IsMapped m.words u
      → (addr_v2p u m'.words ≡ addr_v2p u m.words) × IsMapped m'.words u
  pub valid : IsValidMem m'

-- Whether an address is mapped is the same all over its page.
pub same_page :
    (words : Words) (a b : ℕ)
    → a < 2 ^ 32
    → b < 2 ^ 32
    → a / 4096 ≡ b / 4096
    → IsMapped words a
    → IsMapped words b
same_page words a b ha hb e h =
    let p : pte_ptr a ≡ pte_ptr b = omega (arith, pte_ptr_lem a ha, pte_ptr_lem b hb) in
    let d : pde_ptr a ≡ pde_ptr b = omega (arith, pde_ptr_lem a ha, pde_ptr_lem b hb) in
    record {
      table = subst (λ x. present (words x) ≡ true) d h.table;
      entry = subst (λ x. present (words x) ≡ true) p h.entry;
    }

-- The state in which `get_a_page` takes the frame.
abbrev marked : (vaddr : ℕ) → Bitmap → Mem → Mem
marked vaddr bitmap m = set_bitmap pf_user bitmap (lock_pool pf_user m)

-- A page that is installed is one that `map_page` maps.
install_page-map_page_at :
    (v : ℕ) (m : Mem) (a : ℕ) (m' : Mem) (x : Option ℕ × Mem)
    → palloc_of pf_user m ≡ ok x
    → install_page pf_user v x ≡ ok (some a, m')
    → (m2 : Mem) × (map_page pf_user v m ≡ ok (true, m2)) × (m' ≡ unlock_pool pf_user m2)
unfolding map_page
install_page-map_page_at v m a m' (none, mx) run h = cc
install_page-map_page_at v m a m' (some phy, mx) run h =
    let (m2, adding, t) =
      >>=-eq-ok (add_of v phy mx) (λ (z : Mem). ok (some v, unlock_pool pf_user z))
        {b = (some a, m')} h in
    (m2, rw (run, adding) refl, ground (arith, t))

install_page-map_page :
    (v : ℕ) (m : Mem) (a : ℕ) (m' : Mem)
    → (palloc_of pf_user m >>= install_page pf_user v) ≡ ok (some a, m')
    → (m2 : Mem) × (map_page pf_user v m ≡ ok (true, m2)) × (m' ≡ unlock_pool pf_user m2)
install_page-map_page v m a m' h =
    let (x, run, rest) =
      >>=-eq-ok (palloc_of pf_user m) (install_page pf_user v) {b = (some a, m')} h in
    install_page-map_page_at v m a m' x run rest

behind_assert {ℓ} : {A : Type ℓ} (b : Bool) (k : Run A) {a : A} → (assert b >> k) ≡ ok a → k ≡ ok a
behind_assert true k h = h
behind_assert false k h = cc

-- What `get_a_page` leaves when it returns a page that was not mapped.
get_a_page-Keeps :
    (v a : ℕ) (m m' : Mem)
    → IsValidMem m
    → v < window
    → v % page_size ≡ 0
    → (IsMapped m.words v → ⊥)
    → get_a_page pf_user v m ≡ ok (some a, m')
    → Keeps m m' × IsMapped m'.words v
unfolding get_a_page
get_a_page-Keeps v a m m' val small aligned absent h =
    let m1 = lock_pool pf_user m in
    let bit_idx = sub32 v (vaddr_of pf_user m1).vaddr_start / 4096 in
    let take =
      λ (b : Bitmap). palloc_of pf_user (set_bitmap pf_user b m1) >>= install_page pf_user v in
    let tail = bitmap_set (vaddr_of pf_user m1).vaddr_bitmap bit_idx 1 >>= take in
    let h1 =
      behind_assert (own_pool pf_user m1) (assert (ltb 0 bit_idx) >> tail) {a = (some a, m')} h in
    let h2 = behind_assert (ltb 0 bit_idx) tail {a = (some a, m')} h1 in
    let (b, set, h3) =
      >>=-eq-ok (bitmap_set (vaddr_of pf_user m1).vaddr_bitmap bit_idx 1) take {b = (some a, m')}
        h2 in
    let (m2, run, same) = install_page-map_page v (marked v b m) a m' h3 in
    let val' : IsValidMem (marked v b m) = record {
      kernel = val.kernel;
      user = record { bitmap = val.user.bitmap; fits = val.user.fits };
      kernel_aligned = val.kernel_aligned;
      user_aligned = val.user_aligned;
    } in
    let one = map_page-OnePage pf_user v (marked v b m) val' small aligned run in
    subst (λ (z : Mem). Keeps m z × IsMapped z.words v) (sym same)
      (
        record {
          mapped = λ u hu mu. elim (Bool-cases (v / 4096 == u / 4096)) [
            | inl e ↦
                absurd
                  (absent (same_page m.words u v (omega arith) (omega arith) (ground arith) mu))
            | inr ne ↦ one.others u hu (ground arith) mu
          ];
          valid = record {
            kernel = one.valid.kernel;
            user = record { bitmap = one.valid.user.bitmap; fits = one.valid.user.fits };
            kernel_aligned = one.valid.kernel_aligned;
            user_aligned = one.valid.user_aligned;
          };
        },
        one.mapped,
      )

Keeps-refl : (m : Mem) → IsValidMem m → Keeps m m
Keeps-refl m val = record { mapped = λ u hu mu. (refl, mu); valid = val }

Keeps-trans : (m n o : Mem) → Keeps m n → Keeps n o → Keeps m o
Keeps-trans m n o a b = record {
  mapped = λ u hu mu. let x = a.mapped u hu mu in let y = b.mapped u hu x.1 in (y.0 ∙ x.0, y.1);
  valid = b.valid;
}

got_page :
    (left v : ℕ) (m m' : Mem) (r : Option ℕ × Mem)
    → IsValidMem m
    → v < window
    → v % page_size ≡ 0
    → (IsMapped m.words v → ⊥)
    → get_a_page pf_user v m ≡ ok r
    → page_got (load_pages left (u32 (v + page_size))) r ≡ ok (true, m')
    → (n : Mem) × Keeps m n
      × IsMapped n.words v
      × (load_pages left (u32 (v + page_size)) n ≡ ok (true, m'))
got_page left v m m' (none, n) val small aligned absent got h = cc
got_page left v m m' (some a, n) val small aligned absent got h =
    let (kept, here) = get_a_page-Keeps v a m n val small aligned absent got in
    elim (Bool-cases (a == 0)) [
      | inl z ↦ absurd (ground (arith, rw z at h))
      | inr nz ↦ (n, kept, here, rw nz at h)
    ]

-- One round.
load_round :
    (left v : ℕ) (m m' : Mem)
    → IsValidMem m
    → v < window
    → v % page_size ≡ 0
    → load_pages (suc left) v m ≡ ok (true, m')
    → (n : Mem) × Keeps m n
      × IsMapped n.words v
      × (load_pages left (u32 (v + page_size)) n ≡ ok (true, m'))
unfolding load_pages
load_round left v m m' val small aligned h =
    elim (Bool-cases (present (m.words (pde_ptr v)) && present (m.words (pte_ptr v)))) [
      | inl y ↦
          let there : IsMapped m.words v = record { table = ground arith; entry = ground arith } in
          let h' : load_pages left (u32 (v + page_size)) m ≡ ok (true, m') = ground arith in
          (m, Keeps-refl m val, there, h')
      | inr n ↦
          let absent : IsMapped m.words v → ⊥ = λ t. ground (arith, t.table, t.entry) in
          let (r, got, rest) = >>=-eq-ok (get_a_page pf_user v m) _ {b = (true, m')} (rw n at h) in
          got_page left v m m' r val small aligned absent got rest
    ]

first_and_rest :
    (words : Words) (left v : ℕ)
    → IsMapped words v
    → ((j : ℕ) → j < left → IsMapped words (v + page_size + j * page_size))
    → (i : ℕ) → i < suc left
    → IsMapped words (v + i * page_size)
first_and_rest words left v h rest zero l = subst (IsMapped words) (omega arith) h
first_and_rest words left v h rest (suc j) l =
    subst (IsMapped words) (omega arith) (rest j (omega arith))

-- The loop over the pages.
load_pages_lem :
    (left v : ℕ) (m m' : Mem)
    → IsValidMem m
    → v % page_size ≡ 0
    → v + left * page_size ≤ window
    → load_pages left v m ≡ ok (true, m')
    → Keeps m m' × ((i : ℕ) → i < left → IsMapped m'.words (v + i * page_size))
load_pages_lem zero v m m' val aligned room h =
    let e : m ≡ m' = unfold load_pages in ground arith in
    (subst (Keeps m) e (Keeps-refl m val), λ i l. absurd (omega arith))
load_pages_lem (suc left) v m m' val aligned room h =
    let (n, kept, here, rest) = load_round left v m m' val (omega arith) aligned h in
    let next : u32 (v + page_size) ≡ v + page_size = omega arith in
    let rest' = subst (λ w. load_pages left w n ≡ ok (true, m')) next rest in
    let (later, all) =
      load_pages_lem left (v + page_size) n m' kept.valid (omega arith) (omega arith) rest' in
    (
      Keeps-trans m n m' kept later,
      first_and_rest m'.words left v (later.mapped v (omega arith) here).1 all,
    )

-- The pages hold the segment, and no more than that.
occupy_pages_bounds :
    (vaddr filesz : ℕ)
    → vaddr + filesz ≤ 0xc0000000
    → (vaddr % page_size + filesz ≤ occupy_pages vaddr filesz * page_size)
      × (occupy_pages vaddr filesz * page_size ≤ vaddr % page_size + filesz + page_size)
unfolding occupy_pages
occupy_pages_bounds vaddr filesz room = ground arith

-- For valid pools and page tables and a segment that ends below the kernel's addresses, when
-- segment_load succeeds, every byte of the segment is mapped, and every address that was mapped before
-- keeps its frame.
pub segment_load_lem :
    (filesz vaddr : ℕ) (m m' : Mem)
    → IsValidMem m
    → vaddr + filesz ≤ 0xc0000000
    → segment_load filesz vaddr m ≡ ok (true, m')
    → Keeps m m' × ((a : ℕ) → vaddr ≤ a → a < vaddr + filesz → IsMapped m'.words a)
unfolding segment_load
segment_load_lem filesz vaddr m m' val room h =
    let first = vaddr - vaddr % 4096 in
    let bounds = occupy_pages_bounds vaddr filesz room in
    let (kept, all) =
      load_pages_lem (occupy_pages vaddr filesz) first m m' val (omega arith)
        (omega (arith, bounds.0, bounds.1)) h in
    (
      kept,
      λ a lo hi.
          let i = (a - first) / 4096 in
          same_page m'.words (first + i * 4096) a (omega arith) (omega arith) (omega arith)
            (all i (omega (arith, bounds.0))),
    )

some_page : (vaddr filesz : ℕ) → (k : ℕ) × (occupy_pages vaddr filesz ≡ suc k)
unfolding occupy_pages
some_page vaddr filesz = (occupy_pages vaddr filesz - 1, ground arith)

segment_load-first_page :
    (filesz vaddr : ℕ) (m : Mem)
    → let first = vaddr - vaddr % page_size in
      first ≡ m.user_vaddr.vaddr_start
      → first < 2 ^ 32
      → present (m.words (pde_ptr first)) && present (m.words (pte_ptr first)) ≡ false
      → segment_load filesz vaddr m ≡ panic
unfolding segment_load load_pages get_a_page
segment_load-first_page filesz vaddr m start small absent =
    let (k, pages) = some_page vaddr filesz in
    let zero_bit : sub32 (vaddr - vaddr % 4096) m.user_vaddr.vaddr_start / 4096 ≡ 0 = omega arith in
    rw (pages, absent, zero_bit)
      (elim (Bool-cases m.is_kernel) [ inl y ↦ rw y refl | inr n ↦ rw n refl ])
