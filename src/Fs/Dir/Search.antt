-- ===== src/Fs/Dir/Search.antt =====
-- What the search for a name in fs/dir.c finds.
use zy_os.Base.{
  ℕ, zero, suc, ◌+◌, ◌*◌, ◌≤◌, ◌<◌, ◌≡◌, ◌≢◌, ◌⊎◌, inl, inr, ap, ◌∙◌, true, false, Option, none,
  some, List, ◌==◌, arith, Bool-cases,
}
use zy_os.Fs.Inode.{Disk}
use zy_os.Fs.Dir.{
  dir_entry_size, dir_blocks, named, search_sector, at_block, search_blocks, search_dir_entry,
}

-- The first place from `idx` on whose entry has the name, or none.
abbrev FirstNamed : (sector : ℕ → ℕ) (name : List ℕ) (idx end : ℕ) → Option ℕ → Type 0
FirstNamed sector name idx end none =
    (i : ℕ) → idx ≤ i → i < end → named sector (i * dir_entry_size) name ≡ false
FirstNamed sector name idx end (some k) =
    (idx ≤ k)
    × (k < end)
    × (named sector (k * dir_entry_size) name ≡ true)
    × ((i : ℕ) → idx ≤ i → i < k → named sector (i * dir_entry_size) name ≡ false)

FirstNamed-step :
    (sector : ℕ → ℕ) (name : List ℕ) (idx end : ℕ) (r : Option ℕ)
    → named sector (idx * dir_entry_size) name ≡ false
    → FirstNamed sector name (idx + 1) end r
    → FirstNamed sector name idx end r
FirstNamed-step sector name idx end none n h =
    λ i l m. elim (Bool-cases (i == idx)) [ inl e ↦ ground arith | inr ne ↦ h i (ground arith) m ]
FirstNamed-step sector name idx end (some k) n (low, high, hit, before) = (
  omega arith,
  high,
  hit,
  λ i l m. elim (Bool-cases (i == idx)) [
    | inl e ↦ ground arith
    | inr ne ↦ before i (ground arith) m
  ],
)

search_sector-FirstNamed :
    (sector : ℕ → ℕ) (name : List ℕ) (left idx end : ℕ)
    → idx + left ≡ end
    → FirstNamed sector name idx end (search_sector sector name left idx)
unfolding search_sector
search_sector-FirstNamed sector name zero idx end e = λ i l m. absurd (omega arith)
search_sector-FirstNamed sector name (suc left) idx end e =
    elim (Bool-cases (named sector (idx * dir_entry_size) name)) [
      | inl y ↦ rw y (omega arith, omega arith, y, λ i l m. absurd (omega arith))
      | inr n ↦ rw n (
          FirstNamed-step sector name idx end (search_sector sector name left (idx + 1)) n
            (search_sector-FirstNamed sector name left (idx + 1) end (omega arith)))
    ]

-- No entry of the blocks from `from` up to `to` has the name; a block with the address 0 has no entries.
abbrev pub NoneNamed : Disk → (blocks : ℕ → ℕ) (name : List ℕ) (from to : ℕ) → Type 0
NoneNamed disk blocks name from to =
    (b i : ℕ)
    → from ≤ b
    → b < to
    → blocks b ≢ 0
    → i < 21
    → named (disk (blocks b)) (i * dir_entry_size) name ≡ false

-- The first entry with the name, block by block.
abbrev FirstEntry : Disk → (blocks : ℕ → ℕ) (name : List ℕ) (from to : ℕ) → Option (ℕ × ℕ) → Type 0
FirstEntry disk blocks name from to none = NoneNamed disk blocks name from to
FirstEntry disk blocks name from to (some (b, i)) =
    (from ≤ b)
    × (b < to)
    × (blocks b ≢ 0)
    × (i < 21)
    × (named (disk (blocks b)) (i * dir_entry_size) name ≡ true)
    × ((j : ℕ) → j < i → named (disk (blocks b)) (j * dir_entry_size) name ≡ false)
    × NoneNamed disk blocks name from b

FirstEntry-step :
    (disk : Disk) (blocks : ℕ → ℕ) (name : List ℕ) (from to : ℕ) (r : Option (ℕ × ℕ))
    → NoneNamed disk blocks name from (from + 1)
    → FirstEntry disk blocks name (from + 1) to r
    → FirstEntry disk blocks name from to r
FirstEntry-step disk blocks name from to none n h = λ b i l m nz k. elim (Bool-cases (b == from)) [
  | inl e ↦ n b i l (ground arith) nz k
  | inr ne ↦ h b i (ground arith) m nz k
]
FirstEntry-step disk blocks name from to (some (b, i)) n
      (low, high, there, small, hit, before, none_yet) =
    (
      omega arith,
      high,
      there,
      small,
      hit,
      before,
      λ c k l m nz q. elim (Bool-cases (c == from)) [
        | inl e ↦ n c k l (ground arith) nz q
        | inr ne ↦ none_yet c k (ground arith) m nz q
      ],
    )

only_here :
    (disk : Disk) (blocks : ℕ → ℕ) (name : List ℕ) (from : ℕ)
    → (blocks from ≡ 0)
      ⊎ ((i : ℕ) → i < 21 → named (disk (blocks from)) (i * dir_entry_size) name ≡ false)
    → NoneNamed disk blocks name from (from + 1)
only_here disk blocks name from why b i l m nz k =
    let same : b ≡ from = omega arith in
    elim why [ inl z ↦ absurd (nz (ap blocks same ∙ z)) | inr h ↦ rw same (h i k) ]

search_here :
    (disk : Disk) (blocks : ℕ → ℕ) (name : List ℕ) (from to : ℕ) (here : Option ℕ)
    (rest : Option (ℕ × ℕ))
    → from < to
    → blocks from ≢ 0
    → FirstNamed (disk (blocks from)) name 0 21 here
    → FirstEntry disk blocks name (from + 1) to rest
    → FirstEntry disk blocks name from to (at_block from here rest)
search_here disk blocks name from to none rest lt nz f h =
    FirstEntry-step disk blocks name from to rest
      (only_here disk blocks name from (inr (λ i k. f i (omega arith) k))) h
search_here disk blocks name from to (some i) rest lt nz (low, high, hit, before) h = (
  omega arith,
  lt,
  nz,
  high,
  hit,
  (λ j l. before j (omega arith) l),
  λ b k l m z q. absurd (omega arith),
)

search_blocks-FirstEntry :
    (disk : Disk) (blocks : ℕ → ℕ) (name : List ℕ) (left from to : ℕ)
    → from + left ≡ to
    → FirstEntry disk blocks name from to (search_blocks disk blocks name left from)
unfolding search_blocks
search_blocks-FirstEntry disk blocks name zero from to e = λ b i l m nz k. absurd (omega arith)
search_blocks-FirstEntry disk blocks name (suc left) from to e =
    let rest = search_blocks disk blocks name left (from + 1) in
    let ih = search_blocks-FirstEntry disk blocks name left (from + 1) to (omega arith) in
    elim (Bool-cases (blocks from == 0)) [
      | inl z ↦ rw z (
          FirstEntry-step disk blocks name from to rest
            (only_here disk blocks name from (inl (ground arith))) ih)
      | inr nz ↦ rw nz (
          search_here disk blocks name from to (search_sector (disk (blocks from)) name 21 0) rest
            (omega arith) (ground arith)
            (search_sector-FirstNamed (disk (blocks from)) name 21 0 21 (omega arith)) ih)
    ]

-- search_dir_entry finds the first entry that has the name, over the blocks of the directory that have
-- an address and the 21 entries of each, and returns false only if no entry of them has it.
search_dir_entry-FirstEntry :
    (disk : Disk) (i_sectors : ℕ → ℕ) (name : List ℕ)
    → FirstEntry disk (dir_blocks disk i_sectors) name 0 140 (search_dir_entry disk i_sectors name)
unfolding search_dir_entry
search_dir_entry-FirstEntry disk i_sectors name =
    search_blocks-FirstEntry disk (dir_blocks disk i_sectors) name 140 0 140 (omega arith)
