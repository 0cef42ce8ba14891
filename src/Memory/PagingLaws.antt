-- ===== src/Memory/PagingLaws.antt =====
-- What a mapping makes of the address translation, and what it leaves alone.
use zy_os.Base.{
  ℕ, ◌+◌, ◌*◌, ◌/◌, ◌%◌, ◌^◌, ◌<◌, ◌≡◌, ◌≢◌, ◌⊎◌, inl, inr, refl, sym, subst, true, false, arith,
  update, ok, ◌>>=◌, >>=-eq-ok, Bool-cases,
}
use zy_os.Memory.Pool.{Pool, palloc}
use zy_os.Memory.PoolLaws.{IsValid, taken, page_at, palloc_lem}
use zy_os.Memory.Paging.{
  Words, pte_ptr, pde_ptr, present, user_page, clear_page, add_table, page_table_add,
  page_table_pte_remove, addr_v2p,
}

-- The addresses that are mapped through the tables: all but the last 4 MB, where the tables themselves
-- are seen.
abbrev pub window : ℕ
window = 0xffc00000

pub pte_ptr_lem : (v : ℕ) → v < 2 ^ 32 → pte_ptr v ≡ window + v / 4096 * 4
unfolding pte_ptr
pte_ptr_lem v h = omega arith

pub pde_ptr_lem : (v : ℕ) → v < 2 ^ 32 → pde_ptr v ≡ 0xfffff000 + v / 2 ^ 22 * 4
unfolding pde_ptr
pde_ptr_lem v h = omega arith

-- Whether the page of `v` has an entry that is present, in a table that is present.
pub record IsMapped (words : Words) (v : ℕ) : Type 0 where
  pub table : present (words (pde_ptr v)) ≡ true
  pub entry : present (words (pte_ptr v)) ≡ true

-- The two ways in which `page_table_add` succeeds.
pub add_cases :
    (v phy : ℕ) (words : Words) (pool : Pool) {r : Words × Pool}
    → IsValid pool
    → page_table_add v phy words pool ≡ ok r
    → ((present (words (pde_ptr v)) ≡ true)
        × (present (words (pte_ptr v)) ≡ false)
        × (r ≡ (update words (pte_ptr v) (user_page phy), pool)))
      ⊎ ((i : ℕ) × (present (words (pde_ptr v)) ≡ false)
          × (r ≡ (
            update
                (clear_page (pte_ptr v) (update words (pde_ptr v) (user_page (page_at pool i))))
                (pte_ptr v)
                (user_page phy),
            taken pool i,
          )))
unfolding page_table_add
add_cases v phy words pool {r} val e = elim (Bool-cases (present (words (pde_ptr v)))) [
  | inl there ↦ inl (there, ground arith, ground arith)
  | inr absent ↦
      let e' : (palloc pool >>= add_table v phy words) ≡ ok r = ground arith in
      let (found, pe, rest) = >>=-eq-ok (palloc pool) (add_table v phy words) e' in
      let (i, same, free) = palloc_lem pool val pe in
      let rest' = subst (λ z. add_table v phy words z ≡ ok r) same rest in
      inr (i, absent, ground arith)
]

-- A page table that was just installed, with one entry, at the addresses `p` of the entry and `d` of
-- the directory's entry.
abbrev installed : Words → (p d a phy : ℕ) → Words
installed words p d a phy = update (clear_page p (update words d (user_page a))) p (user_page phy)

installed_self :
    (words : Words) (p d a phy : ℕ)
    → p / 4096 ≢ d / 4096
    → (installed words p d a phy p ≡ user_page phy) × (present (installed words p d a phy d) ≡ true)
installed_self words p d a phy ne = ground arith

installed_other :
    (words : Words) (p d a phy k : ℕ)
    → k ≢ d
    → k / 4096 ≢ p / 4096
    → installed words p d a phy k ≡ words k
installed_other words p d a phy k h ne = ground arith

-- The directory lies in a page of its own, and each page table in another.
pages_apart : (v u : ℕ) → v < window → u < window → pte_ptr v / 4096 ≢ pde_ptr u / 4096
pages_apart v u h k = omega (arith, pte_ptr_lem v (omega arith), pde_ptr_lem u (omega arith))

tables_apart :
    (v u : ℕ)
    → v < window
    → u < window
    → pde_ptr v ≢ pde_ptr u
    → pte_ptr v / 4096 ≢ pte_ptr u / 4096
tables_apart v u h k ne = omega (
  arith,
  pte_ptr_lem v (omega arith),
  pte_ptr_lem u (omega arith),
  pde_ptr_lem v (omega arith),
  pde_ptr_lem u (omega arith),
)

-- When page_table_add succeeds for an address below the tables' window and an aligned 32-bit frame,
-- with a valid kernel pool, the page is mapped and addr_v2p translates the address to the frame plus
-- its offset.
pub v2p-add :
    (v phy : ℕ) (words : Words) (pool : Pool) {r : Words × Pool}
    → IsValid pool
    → v < window
    → phy % 4096 ≡ 0
    → phy < 2 ^ 32
    → page_table_add v phy words pool ≡ ok r
    → (addr_v2p v r.0 ≡ phy + v % 4096) × IsMapped r.0 v
unfolding addr_v2p
v2p-add v phy words pool {r} val small aligned fits e =
    let apart = pages_apart v v small small in
    let w : (r.0 (pte_ptr v) ≡ user_page phy) × (present (r.0 (pde_ptr v)) ≡ true) =
      elim (add_cases v phy words pool val e) [
        | inl (there, free, same) ↦ ground arith
        | inr (i, absent, same) ↦
            subst
              (λ (z : Words × Pool).
                (z.0 (pte_ptr v) ≡ user_page phy) × (present (z.0 (pde_ptr v)) ≡ true))
              (sym same) (installed_self words (pte_ptr v) (pde_ptr v) (page_at pool i) phy apart)
      ] in
    (omega (arith, w.0), record { table = w.1; entry = ground (arith, w.0) })

-- When page_table_add succeeds for one page with a valid kernel pool, another page below the window
-- that was mapped stays mapped with the same translation.
pub v2p-add_other :
    (v u phy : ℕ) (words : Words) (pool : Pool) {r : Words × Pool}
    → IsValid pool
    → v < window
    → u < window
    → v / 4096 ≢ u / 4096
    → IsMapped words u
    → page_table_add v phy words pool ≡ ok r
    → (addr_v2p u r.0 ≡ addr_v2p u words) × IsMapped r.0 u
unfolding addr_v2p
v2p-add_other v u phy words pool {r} val sv su ne m e =
    let tv = pte_ptr_lem v (omega arith) in
    let tu = pte_ptr_lem u (omega arith) in
    let differ : pte_ptr u ≢ pte_ptr v = omega arith in
    let w : (r.0 (pte_ptr u) ≡ words (pte_ptr u)) × (present (r.0 (pde_ptr u)) ≡ true) =
      elim (add_cases v phy words pool val e) [
        | inl (there, free, same) ↦
            let apart = pages_apart v u sv su in
            subst
              (λ (z : Words × Pool).
                (z.0 (pte_ptr u) ≡ words (pte_ptr u)) × (present (z.0 (pde_ptr u)) ≡ true))
              (sym same) (ground arith, ground (arith, m.table))
        | inr (i, absent, same) ↦
            let other : pde_ptr v ≢ pde_ptr u = ground (arith, m.table) in
            let apart = pages_apart v u sv su in
            let apart' = pages_apart u v su sv in
            let apart'' = tables_apart v u sv su other in
            let keep =
              installed_other words (pte_ptr v) (pde_ptr v) (page_at pool i) phy (pte_ptr u)
                (ground arith) (ground arith) in
            let keep' =
              installed_other words (pte_ptr v) (pde_ptr v) (page_at pool i) phy (pde_ptr u)
                (ground arith) (ground arith) in
            subst
              (λ (z : Words × Pool).
                (z.0 (pte_ptr u) ≡ words (pte_ptr u)) × (present (z.0 (pde_ptr u)) ≡ true))
              (sym same) (keep, rw keep' m.table)
      ] in
    (rw w.0 refl, record { table = w.1; entry = rw w.0 m.entry })

-- `page_table_pte_remove` takes the page out of the tables.
pub remove_lem :
    (v : ℕ) (words : Words) → present (page_table_pte_remove v words (pte_ptr v)) ≡ false
unfolding page_table_pte_remove
remove_lem v words = ground arith
