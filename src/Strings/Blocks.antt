-- ===== src/Strings/Blocks.antt =====
-- Filling, copying and joining blocks of memory.
use zy_os.Base.{
  ℕ, zero, suc, ◌+◌, ◌-◌, ◌≤◌, ◌<◌, ◌≡◌, ◌≢◌, ◌⊎◌, inl, inr, refl, sym, ap, ◌∙◌, Bool, false, ◌&&◌,
  ◌==◌, ltb, leb, if◌then◌else◌, arith, update, Bool-cases, some, ok,
}
use zy_os.Strings.{Bytes, fill, memset, copy, memcpy, len_from, cat_from, strcat}

-- Whether `k` is one of the `n` addresses from `p` on.
abbrev pub within : ℕ → ℕ → ℕ → Bool
within p n k = leb p k && ltb k (p + n)

fill_lem :
    (dst v n : ℕ) (m : Bytes) (k : ℕ) → fill dst v n m k ≡ (if within dst n k then v else m k)
unfolding fill
fill_lem dst v zero m k = ground arith
fill_lem dst v (suc n) m k = ground (arith, fill_lem (dst + 1) v n (update m dst v) k)

-- `memset` to an address other than `NULL` writes the block and nothing else.
pub memset_lem :
    (dst v n : ℕ) (m : Bytes)
    → dst ≢ 0
    → (m' : Bytes) × (memset dst v n m ≡ ok m')
      × ((k : ℕ) → m' k ≡ (if within dst n k then v else m k))
unfolding memset
memset_lem dst v n m h = (fill dst v n m, ground arith, fill_lem dst v n m)

-- Blocks that do not overlap.
abbrev pub Apart : ℕ → ℕ → ℕ → Type 0
Apart dst src n = (dst + n ≤ src) ⊎ (src + n ≤ dst)

copy_lem :
    (dst src n : ℕ) (m : Bytes) (k : ℕ)
    → Apart dst src n
    → copy dst src n m k ≡ (if within dst n k then m (src + (k - dst)) else m k)
unfolding copy
copy_lem dst src zero m k h = ground arith
copy_lem dst src (suc n) m k h =
    let m' = update m dst (m src) in
    let apart : Apart (dst + 1) (src + 1) n = ground arith in
    let ih = copy_lem (dst + 1) (src + 1) n m' k apart in
    elim (Bool-cases (k == dst)) [
      | inl first ↦
          let here : m src ≡ m (src + (k - dst)) = ap m (ground arith) in ground (arith, here)
      | inr other ↦ elim (Bool-cases (within (dst + 1) n k)) [
        | inl inside ↦
            let at : src + 1 + (k - (dst + 1)) ≡ src + (k - dst) = ground arith in
            let moved : m' (src + 1 + (k - (dst + 1))) ≡ m (src + (k - dst)) =
              ap m' at ∙ ground arith in
            ground arith
        | inr outside ↦ ground arith
      ]
    ]

-- `memcpy` between blocks that do not overlap copies the block and writes nothing else.
pub memcpy_lem :
    (dst src n : ℕ) (m : Bytes)
    → dst ≢ 0
    → src ≢ 0
    → Apart dst src n
    → (m' : Bytes) × (memcpy dst src n m ≡ ok m')
      × ((k : ℕ) → m' k ≡ (if within dst n k then m (src + (k - dst)) else m k))
unfolding memcpy
memcpy_lem dst src n m h g a = (copy dst src n m, ground arith, λ k. copy_lem dst src n m k a)

-- A string of `n` characters at `p`.
pub record StringAt (m : Bytes) (p n : ℕ) : Type 0 where
  pub chars : (i : ℕ) → i < n → m (p + i) ≢ 0
  pub end : m (p + n) ≡ 0

StringAt-next :
    (m m' : Bytes) (p n : ℕ)
    → StringAt m p (suc n)
    → ((i : ℕ) → i ≤ n → m' (p + 1 + i) ≡ m (p + 1 + i))
    → StringAt m' (p + 1) n
StringAt-next m m' p n s same = record {
  chars =
      λ i h e. s.chars (i + 1) (omega arith) (ap m (omega arith) ∙ sym (same i (omega arith)) ∙ e);
  end = same n (omega arith) ∙ ap m (omega arith) ∙ s.end;
}

first_char : (m : Bytes) (p n : ℕ) → StringAt m p (suc n) → (m p == 0) ≡ false
first_char m p n s =
    let ne : m p ≢ 0 = λ e. s.chars 0 (omega arith) (ap m (omega arith) ∙ e) in ground arith

len_from_lem :
    (fuel p c n : ℕ) (m : Bytes) → StringAt m p n → n < fuel → len_from fuel p c m ≡ some (c + n)
unfolding len_from
len_from_lem zero p c n m s h = absurd (omega arith)
len_from_lem (suc fuel) p c zero m s h =
    let z : m p ≡ 0 = ap m (omega arith) ∙ s.end in ground arith
len_from_lem (suc fuel) p c (suc n) m s h =
    let next = StringAt-next m m p n s (λ i l. refl) in
    let ih = len_from_lem fuel (p + 1) (c + 1) n m next (omega arith) in
    ground (arith, first_char m p n s)

cat_from_lem :
    (fuel dst src n : ℕ) (m : Bytes)
    → StringAt m src n
    → n < fuel
    → Apart dst src (suc n)
    → cat_from fuel dst src m ≡ some (copy dst src (suc n) m)
unfolding cat_from copy
cat_from_lem zero dst src n m s h a = absurd (omega arith)
cat_from_lem (suc fuel) dst src zero m s h a =
    let z : m src ≡ 0 = ap m (omega arith) ∙ s.end in ground arith
cat_from_lem (suc fuel) dst src (suc n) m s h a =
    let m' = update m dst (m src) in
    let next = StringAt-next m m' src n s (λ i l. ground arith) in
    let ih = cat_from_lem fuel (dst + 1) (src + 1) n m' next (omega arith) (ground arith) in
    ground (arith, first_char m src n s)

-- For two strings that are not NULL, where the second lies apart from the joined one, and enough fuel,
-- strcat ends and leaves at dst the string of both lengths whose characters are those of dst and then
-- those of src.
pub strcat_lem :
    (fuel dst src n l : ℕ) (m : Bytes)
    → dst ≢ 0
    → src ≢ 0
    → StringAt m dst n
    → StringAt m src l
    → n + l < fuel
    → (dst + n + l < src) ⊎ (src + l < dst)
    → (m' : Bytes) × (strcat fuel dst src m ≡ ok (some m'))
      × StringAt m' dst (n + l)
      × ((i : ℕ) → i < n → m' (dst + i) ≡ m (dst + i))
      × ((i : ℕ) → i ≤ l → m' (dst + n + i) ≡ m (src + i))
unfolding strcat
strcat_lem fuel dst src n l m p q s t h a =
    let m' = copy (dst + n) src (suc l) m in
    let apart : Apart (dst + n) src (suc l) = ground arith in
    let length = len_from_lem fuel dst 0 n m s (omega arith) in
    let joined = cat_from_lem fuel (dst + n) src l m t (omega arith) apart in
    let front : (i : ℕ) → i < n → m' (dst + i) ≡ m (dst + i) =
      λ i g. ground (arith, copy_lem (dst + n) src (suc l) m (dst + i) apart) in
    let back : (i : ℕ) → i ≤ l → m' (dst + n + i) ≡ m (src + i) = λ i g.
      let at : src + (dst + n + i - (dst + n)) ≡ src + i = omega arith in
      let moved = ap m at in ground (arith, copy_lem (dst + n) src (suc l) m (dst + n + i) apart) in
    (
      m',
      ground (arith, length, joined),
      record {
        chars = λ i g. elim (Bool-cases (ltb i n)) [
          | inl y ↦ λ e. s.chars i (ground arith) (sym (front i (ground arith)) ∙ e)
          | inr z ↦ λ e.
              t.chars (i - n) (ground arith)
                (sym (back (i - n) (ground arith)) ∙ ap m' (ground arith) ∙ e)
        ];
        end = ap m' (omega arith) ∙ back l (omega arith) ∙ t.end;
      },
      front,
      back,
    )
