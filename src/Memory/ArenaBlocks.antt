-- ===== src/Memory/ArenaBlocks.antt =====
-- The blocks of an arena in a free list, as the loops of kernel/memory.c add and remove them.
use zy_os.Base.{
  ℕ, zero, suc, ◌+◌, ◌%◌, ◌^◌, ◌≤◌, ◌<◌, ◌≡◌, ◌≢◌, inl, inr, refl, sym, ap, ◌∙◌, true, false, List,
  [], ◌∷◌, ◌++◌, ◌==◌, ltb, arith, Bool-cases, ok,
}
use zy_os.Memory.Pool.{page_size}
use zy_os.Memory.Blocks.{block_desc_init, desc, desc_cnt, arena2block, blocks_lem}
use zy_os.Memory.Heap.{has_block, without_block, add_blocks, remove_blocks}

pub desc_pos :
    (i : ℕ)
    → i < desc_cnt
    → (0 < (desc i).block_size)
      × (1 < (desc i).blocks_per_arena)
      × ((desc i).blocks_per_arena < 4096)
unfolding block_desc_init
desc_pos zero h = omega arith
desc_pos (suc zero) h = omega arith
desc_pos (suc (suc zero)) h = omega arith
desc_pos (suc (suc (suc zero))) h = omega arith
desc_pos (suc (suc (suc (suc zero)))) h = omega arith
desc_pos (suc (suc (suc (suc (suc zero))))) h = omega arith
desc_pos (suc (suc (suc (suc (suc (suc zero)))))) h = omega arith
desc_pos (suc (suc (suc (suc (suc (suc (suc i))))))) h = absurd (omega arith)

-- `n` blocks of an arena, from the block `s` on.
abbrev pub blocks : (a block_size s n : ℕ) → List ℕ
blocks a block_size s zero = []
blocks a block_size s (suc n) = arena2block a block_size s ∷ blocks a block_size (s + 1) n

blocks_snoc :
    (a size s n : ℕ)
    → blocks a size s n ++ (arena2block a size (s + n) ∷ []) ≡ blocks a size s (suc n)
blocks_snoc a size s zero = ap (λ k. arena2block a size k ∷ []) (omega arith)
blocks_snoc a size s (suc n) =
    let e : s + suc n ≡ s + 1 + n = omega arith in
    rw e (ap (λ l. arena2block a size s ∷ l) (blocks_snoc a size (s + 1) n))

has_block-snoc : (b : ℕ) (xs : List ℕ) → has_block b (xs ++ (b ∷ [])) ≡ true
unfolding has_block
has_block-snoc b [] = ground arith
has_block-snoc b (x ∷ xs) = ground (arith, has_block-snoc b xs)

without_block-snoc :
    (b : ℕ) (xs : List ℕ) → has_block b xs ≡ false → without_block b (xs ++ (b ∷ [])) ≡ xs
unfolding has_block without_block
without_block-snoc b [] h = ground arith
without_block-snoc b (x ∷ xs) h = ground (arith, without_block-snoc b xs)

module _ (a i : ℕ) (aligned : a % page_size ≡ 0) (inside : a + page_size ≤ 2 ^ 32)
    (small : i < desc_cnt) where
  apart :
      (j k : ℕ)
      → j < (desc i).blocks_per_arena
      → k < (desc i).blocks_per_arena
      → j ≢ k
      → arena2block a (desc i).block_size j ≢ arena2block a (desc i).block_size k
  apart j k hj hk ne e =
      let pos = desc_pos i small in
      elim (Bool-cases (ltb j k)) [
        | inl lt ↦
            let l : j < k = ground arith in
            let (p, q, r, s) = blocks_lem a i j k aligned inside small l hk in omega arith
        | inr ge ↦
            let l : k < j = ground arith in
            let (p, q, r, s) = blocks_lem a i k j aligned inside small l hj in omega arith
      ]

  has_block-blocks :
      (k s n : ℕ)
      → k < (desc i).blocks_per_arena
      → s + n ≤ (desc i).blocks_per_arena
      → ((j : ℕ) → s ≤ j → j < s + n → j ≢ k)
      → has_block (arena2block a (desc i).block_size k) (blocks a (desc i).block_size s n) ≡ false
  unfolding has_block
  has_block-blocks k s zero hk h ne = refl
  has_block-blocks k s (suc n) hk h ne =
      let head = apart s k (omega arith) hk (ne s (omega arith) (omega arith)) in
      let rest =
        has_block-blocks k (s + 1) n hk (omega arith) (λ j l m. ne j (omega arith) (omega arith)) in
      ground arith

  -- No block is in the list before it is added, and each one is found when it is removed.
  pub add_blocks_lem :
      (left idx : ℕ)
      → idx + left ≤ (desc i).blocks_per_arena
      → add_blocks a (desc i).block_size left idx (blocks a (desc i).block_size 0 idx)
        ≡ ok (blocks a (desc i).block_size 0 (idx + left))
  unfolding add_blocks
  add_blocks_lem zero idx h = ap (λ n. ok (blocks a (desc i).block_size 0 n)) (omega arith)
  add_blocks_lem (suc left) idx h =
      let fresh =
        has_block-blocks idx 0 idx (omega arith) (omega arith) (λ j l m e. absurd (omega arith)) in
      let z : 0 + idx ≡ idx = omega arith in
      let next : suc idx ≡ idx + 1 = omega arith in
      let more = ap (λ k. blocks a (desc i).block_size 0 k) next in
      let snoc =
        ap (λ k. blocks a (desc i).block_size 0 idx ++ (arena2block a (desc i).block_size k ∷ []))
          (sym z)
        ∙ blocks_snoc a (desc i).block_size 0 idx
        ∙ more in
      rw (fresh, snoc)
        (add_blocks_lem left (idx + 1) (omega arith)
          ∙ ap (λ n. ok (blocks a (desc i).block_size 0 n)) (omega arith))

remove_blocks_lem :
    (a size left idx : ℕ) → remove_blocks a size left idx (blocks a size idx left) ≡ ok []
unfolding remove_blocks has_block without_block
remove_blocks_lem a size zero idx = refl
remove_blocks_lem a size (suc left) idx =
    let b = arena2block a size idx in
    let here : (b == b) ≡ true = ground arith in rw (here) (remove_blocks_lem a size left (idx + 1))

-- All the blocks of an arena, the first one behind the others.
pub remove_all :
    (a i n : ℕ)
    → a % page_size ≡ 0
    → a + page_size ≤ 2 ^ 32
    → i < desc_cnt
    → suc n ≡ (desc i).blocks_per_arena
    → remove_blocks a
        (desc i).block_size
        (suc n)
        0
        (blocks a (desc i).block_size 1 n ++ (arena2block a (desc i).block_size 0 ∷ []))
      ≡ ok []
unfolding remove_blocks
remove_all a i n aligned inside small whole =
    let size = (desc i).block_size in
    let b = arena2block a size 0 in
    let out =
      has_block-blocks a i aligned inside small 0 1 n (omega arith) (omega arith)
        (λ j l m e. absurd (omega arith)) in
    rw (has_block-snoc b (blocks a size 1 n), without_block-snoc b (blocks a size 1 n) out)
      (remove_blocks_lem a size n 1)
