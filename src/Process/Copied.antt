-- ===== src/Process/Copied.antt =====
-- Pages that are taken for a copy, and a copy of several pages (user_process/fork.c).
use zy_os.Base.{
  ℕ, ◌+◌, ◌*◌, ◌/◌, ◌%◌, ◌≤◌, ◌<◌, ◌≡◌, ◌≢◌, inl, inr, refl, sym, ◌∙◌, subst, Bool, true, false,
  Option, none, some, ◌==◌, ltb, arith, Bool-cases, ok, >>=-eq-ok,
}
use zy_os.Memory.PagingLaws.{IsMapped, window}
use zy_os.Memory.Pages.{
  Mem, pf_user, palloc_of, add_of, map_page, install_page_unlocking,
  get_a_page_without_opvaddrbitmap, lock_pool, unlock_pool,
}
use zy_os.Memory.Mapped.{IsValidMem, map_page-OnePage}
use zy_os.Process.{page_size, Space}
use zy_os.Process.Segments.{same_page}

-- Pages stay mapped.
pub record MapsMore (m m' : Mem) : Type 0 where
  pub mapped : (u : ℕ) → u < window → IsMapped m.words u → IsMapped m'.words u
  pub valid : IsValidMem m'

unlocking :
    (v : ℕ) (m : Mem) (a : ℕ) (m' : Mem) (x : Option ℕ × Mem)
    → palloc_of pf_user m ≡ ok x
    → install_page_unlocking pf_user v x ≡ ok (some a, m')
    → (m2 : Mem) × (map_page pf_user v m ≡ ok (true, m2)) × (m' ≡ unlock_pool pf_user m2)
unfolding map_page
unlocking v m a m' (none, mx) run h = cc
unlocking v m a m' (some phy, mx) run h =
    let (m2, adding, t) =
      >>=-eq-ok (add_of v phy mx) (λ (z : Mem). ok (some v, unlock_pool pf_user z))
        {b = (some a, m')} h in
    (m2, rw (run, adding) refl, ground (arith, t))

pub get_a_page-MapsMore :
    (v a : ℕ) (m m' : Mem)
    → IsValidMem m
    → v < window
    → v % page_size ≡ 0
    → get_a_page_without_opvaddrbitmap pf_user v m ≡ ok (some a, m')
    → MapsMore m m' × IsMapped m'.words v
unfolding get_a_page_without_opvaddrbitmap
get_a_page-MapsMore v a m m' val small aligned h =
    let m1 = lock_pool pf_user m in
    let (x, run, rest) =
      >>=-eq-ok (palloc_of pf_user m1) (install_page_unlocking pf_user v) {b = (some a, m')} h in
    let (m2, mapping, same) = unlocking v m1 a m' x run rest in
    let val1 : IsValidMem m1 = record {
      kernel = val.kernel;
      user = record { bitmap = val.user.bitmap; fits = val.user.fits };
      kernel_aligned = val.kernel_aligned;
      user_aligned = val.user_aligned;
    } in
    let one = map_page-OnePage pf_user v m1 val1 small aligned mapping in
    subst (λ (z : Mem). MapsMore m z × IsMapped z.words v) (sym same)
      (
        record {
          mapped = λ u hu mu. elim (Bool-cases (v / 4096 == u / 4096)) [
            | inl e ↦ same_page m2.words v u (omega arith) (omega arith) (ground arith) one.mapped
            | inr ne ↦ (one.others u hu (ground arith) mu).1
          ];
          valid = record {
            kernel = one.valid.kernel;
            user = record { bitmap = one.valid.user.bitmap; fits = one.valid.user.fits };
            kernel_aligned = one.valid.kernel_aligned;
            user_aligned = one.valid.user_aligned;
          };
        },
        one.mapped,
      )

-- The page of the bit `j`.
abbrev pub page_of : (vaddr_start j : ℕ) → ℕ
page_of vaddr_start j = j * page_size + vaddr_start

-- The bits from `lo` up to `hi` have been gone through: the pages of those that `set` tells are mapped and
-- hold what the parent has there, and other pages are as they were.
pub record Copied (set : ℕ → Bool) (vaddr_start : ℕ) (parent : ℕ → ℕ → ℕ) (lo hi : ℕ) (c c' : Space)
    : Type 0 where
  pub more : MapsMore c.mem c'.mem
  pub copied :
      (j : ℕ)
      → lo ≤ j
      → j < hi
      → set j ≡ true
      → (c'.pages (page_of vaddr_start j) ≡ parent (page_of vaddr_start j))
        × IsMapped c'.mem.words (page_of vaddr_start j)
  pub others :
      (a : ℕ)
      → ((j : ℕ) → lo ≤ j → j < hi → set j ≡ true → a ≢ page_of vaddr_start j)
      → c'.pages a ≡ c.pages a

pub Copied-none :
    (set : ℕ → Bool) (vaddr_start : ℕ) (parent : ℕ → ℕ → ℕ) (lo hi : ℕ) (c : Space)
    → IsValidMem c.mem
    → ((j : ℕ) → lo ≤ j → j < hi → set j ≡ false)
    → Copied set vaddr_start parent lo hi c c
Copied-none set vaddr_start parent lo hi c val clear = record {
  more = record { mapped = λ u hu mu. mu; valid = val };
  copied = λ j l h s. absurd (ground (arith, clear j));
  others = λ a apart. refl;
}

pub Copied-trans :
    (set : ℕ → Bool) (vaddr_start : ℕ) (parent : ℕ → ℕ → ℕ) (lo mid hi : ℕ) (c d e : Space)
    → lo ≤ mid
    → mid ≤ hi
    → page_of vaddr_start hi ≤ window
    → Copied set vaddr_start parent lo mid c d
    → Copied set vaddr_start parent mid hi d e
    → Copied set vaddr_start parent lo hi c e
Copied-trans set vaddr_start parent lo mid hi c d e low high room x y = record {
  more = record {
    mapped = λ u hu mu. y.more.mapped u hu (x.more.mapped u hu mu);
    valid = y.more.valid;
  };
  copied = λ j l h s. elim (Bool-cases (ltb j mid)) [
    | inl before ↦
        let done = x.copied j l (ground arith) s in
        let kept = y.others (page_of vaddr_start j) (λ k lk hk sk same. ground arith) in
        (kept ∙ done.0, y.more.mapped (page_of vaddr_start j) (omega arith) done.1)
    | inr behind ↦ y.copied j (ground arith) h s
  ];
  others = λ a apart.
      y.others a (λ j l h s. apart j (omega arith) h s)
      ∙ x.others a (λ j l h s. apart j l (omega arith) s);
}
