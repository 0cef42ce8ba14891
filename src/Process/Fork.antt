-- ===== src/Process/Fork.antt =====
-- What `copy_body_stack3` (user_process/fork.c) copies.
use zy_os.Base.{
  ℕ, zero, suc, ◌+◌, ◌-◌, ◌*◌, ◌/◌, ◌%◌, ◌≤◌, ◌<◌, ◌≡◌, ◌≢◌, inl, inr, refl, sym, ap, ◌∙◌, subst,
  Bool, true, false, Option, none, some, ◌==◌, if◌then◌else◌, update, arith, Bool-cases, Run, ok,
  ◌>>=◌, >>=-eq-ok,
}
use zy_os.Base.Bytes.{bit_on, zero_byte}
use zy_os.Memory.Pool.{VirtualAddr, u32}
use zy_os.Memory.PagingLaws.{IsMapped, window}
use zy_os.Memory.Pages.{Mem, pf_user, get_a_page_without_opvaddrbitmap}
use zy_os.Memory.Mapped.{IsValidMem}
use zy_os.Bitmap.{Bitmap}
use zy_os.Bitmap.Bits.{bit}
use zy_os.Process.{
  page_size, Space, page_copied, copy_page, copy_bits, copy_bytes, copy_body_stack3,
}
use zy_os.Process.Copied.{get_a_page-MapsMore, page_of, Copied, Copied-none, Copied-trans}

ok_inj : {a b : Space} → ok a ≡ ok b → a ≡ b
ok_inj e = cc

update_at : (f : ℕ → ℕ → ℕ) (v : ℕ) (p : ℕ → ℕ) → update f v p v ≡ p
update_at f v p = ground arith

update_off : (f : ℕ → ℕ → ℕ) (v : ℕ) (p : ℕ → ℕ) (b : ℕ) → b ≢ v → update f v p b ≡ f b
update_off f v p b ne = ground arith

page-Copied :
    (set : ℕ → Bool) (vaddr_start : ℕ) (parent : ℕ → ℕ → ℕ) (j : ℕ) (c c' : Space)
    (x : Option ℕ × Mem)
    → IsValidMem c.mem
    → set j ≡ true
    → vaddr_start % page_size ≡ 0
    → page_of vaddr_start (j + 1) ≤ window
    → get_a_page_without_opvaddrbitmap pf_user (page_of vaddr_start j) c.mem ≡ ok x
    → page_copied (page_of vaddr_start j) (parent (page_of vaddr_start j)) c x ≡ ok c'
    → Copied set vaddr_start parent j (j + 1) c c'
page-Copied set vaddr_start parent j c c' (none, m) val is_set aligned room run h = cc
page-Copied set vaddr_start parent j c c' (some a, m) val is_set aligned room run h =
    let v = page_of vaddr_start j in
    let (more, there) = get_a_page-MapsMore v a c.mem m val (omega arith) (omega arith) run in
    subst (Copied set vaddr_start parent j (j + 1) c) (ok_inj h) (record {
      more = more;
      copied = λ k l u s.
          let same : k ≡ j = omega arith in
          (
            rw (same) (update_at c.pages v (parent v)),
            subst (λ i. IsMapped m.words (page_of vaddr_start i)) (sym same) there,
          );
      others = λ b apart.
          update_off c.pages v (parent v) b (λ e. apart j (omega arith) (omega arith) is_set e);
    })

copy_page_lem :
    (set : ℕ → Bool) (vaddr_start : ℕ) (parent : ℕ → ℕ → ℕ) (j : ℕ) (c c' : Space)
    → IsValidMem c.mem
    → set j ≡ true
    → vaddr_start % page_size ≡ 0
    → page_of vaddr_start (j + 1) ≤ window
    → copy_page (page_of vaddr_start j) parent c ≡ ok c'
    → Copied set vaddr_start parent j (j + 1) c c'
unfolding copy_page
copy_page_lem set vaddr_start parent j c c' val is_set aligned room h =
    let v = page_of vaddr_start j in
    let (x, run, rest) =
      >>=-eq-ok (get_a_page_without_opvaddrbitmap pf_user v c.mem) (page_copied v (parent v) c)
        {b = c'} h in
    page-Copied set vaddr_start parent j c c' x val is_set aligned room run rest

-- What one round and the rest copy.
round-Copied :
    (set : ℕ → Bool) (vaddr_start : ℕ) (parent : ℕ → ℕ → ℕ) (lo mid hi : ℕ) (now : Run Space)
    (rest : Space → Run Space) (c e : Space)
    → lo ≤ mid
    → mid ≤ hi
    → page_of vaddr_start hi ≤ window
    → ((d : Space) → now ≡ ok d → Copied set vaddr_start parent lo mid c d)
    → ((d : Space) → IsValidMem d.mem → rest d ≡ ok e → Copied set vaddr_start parent mid hi d e)
    → (now >>= rest) ≡ ok e
    → Copied set vaddr_start parent lo hi c e
round-Copied set vaddr_start parent lo mid hi now rest c e low high room first behind h =
    let (d, run, last) = >>=-eq-ok now rest {b = e} h in
    let x = first d run in
    Copied-trans set vaddr_start parent lo mid hi c d e low high room x (behind d x.more.valid last)

copy_bits_lem :
    (set : ℕ → Bool) (vaddr_start byte : ℕ) (parent : ℕ → ℕ → ℕ) (left idx_byte idx_bit : ℕ)
    (c c' : Space)
    → IsValidMem c.mem
    → idx_bit + left ≡ 8
    → ((k : ℕ) → k < 8 → set (idx_byte * 8 + k) ≡ bit_on byte k)
    → vaddr_start % page_size ≡ 0
    → page_of vaddr_start (idx_byte * 8 + 8) ≤ window
    → copy_bits vaddr_start byte parent left idx_byte idx_bit c ≡ ok c'
    → Copied set vaddr_start parent (idx_byte * 8 + idx_bit) (idx_byte * 8 + 8) c c'
unfolding copy_bits
copy_bits_lem set vaddr_start byte parent zero idx_byte idx_bit c c' val eight same aligned room h =
    subst (Copied set vaddr_start parent (idx_byte * 8 + idx_bit) (idx_byte * 8 + 8) c) (ok_inj h) (
      Copied-none set vaddr_start parent (idx_byte * 8 + idx_bit) (idx_byte * 8 + 8) c val
        (λ j l u. absurd (omega arith)))
copy_bits_lem set vaddr_start byte parent (suc left) idx_byte idx_bit c c' val eight same aligned
      room h =
    let j = idx_byte * 8 + idx_bit in
    let next = copy_bits vaddr_start byte parent left idx_byte (idx_bit + 1) in
    let ih : (d : Space)
        → IsValidMem d.mem
        → next d ≡ ok c'
        → Copied set vaddr_start parent (j + 1) (idx_byte * 8 + 8) d c' =
      λ d vd hd.
        subst (λ i. Copied set vaddr_start parent i (idx_byte * 8 + 8) d c') (omega arith)
          (copy_bits_lem set vaddr_start byte parent left idx_byte (idx_bit + 1) d c' vd
            (omega arith) same aligned room hd) in
    let known = same idx_bit (omega arith) in
    let here : u32 (page_of vaddr_start j) ≡ page_of vaddr_start j = omega arith in
    elim (Bool-cases (bit_on byte idx_bit)) [
      | inl y ↦
          round-Copied set vaddr_start parent j (j + 1) (idx_byte * 8 + 8)
            (copy_page (page_of vaddr_start j) parent c) next c c' (omega arith) (omega arith) room
            (λ d e.
              copy_page_lem set vaddr_start parent j c d val (known ∙ y) aligned (omega arith) e)
            ih
            (let e : copy_bits vaddr_start byte parent (suc left) idx_byte idx_bit c
                  ≡ (copy_page (page_of vaddr_start j) parent c >>= next) =
                rw (y, here) refl in
              sym e ∙ h)
      | inr n ↦
          round-Copied set vaddr_start parent j (j + 1) (idx_byte * 8 + 8) (ok c) next c c'
            (omega arith) (omega arith) room
            (λ d e. subst (Copied set vaddr_start parent j (j + 1) c) (ok_inj e) (
              Copied-none set vaddr_start parent j (j + 1) c val
                (λ k l u. ap set (omega arith) ∙ (known ∙ n))))
            ih
            (let e : copy_bits vaddr_start byte parent (suc left) idx_byte idx_bit c
                  ≡ (ok c >>= next) =
                rw n refl in
              sym e ∙ h)
    ]

bits_of : (b : Bitmap) (i k : ℕ) → k < 8 → bit b (i * 8 + k) ≡ bit_on (b.bits i) k
unfolding bit
bits_of b i k h =
    let byte : (i * 8 + k) / 8 ≡ i = omega arith in
    let place : (i * 8 + k) % 8 ≡ k = omega arith in rw (byte, place) refl

-- The bits of a byte that the loop over the bytes goes through.
byte-Copied :
    (set : ℕ → Bool) (vaddr_start byte : ℕ) (parent : ℕ → ℕ → ℕ) (i : ℕ) (c c' : Space)
    → IsValidMem c.mem
    → ((k : ℕ) → k < 8 → set (i * 8 + k) ≡ bit_on byte k)
    → vaddr_start % page_size ≡ 0
    → page_of vaddr_start (i * 8 + 8) ≤ window
    → (if byte == 0 then ok c else copy_bits vaddr_start byte parent 8 i 0 c) ≡ ok c'
    → Copied set vaddr_start parent (i * 8) (i * 8 + 8) c c'
byte-Copied set vaddr_start byte parent i c c' val same aligned room h =
    elim (Bool-cases (byte == 0)) [
      | inl y ↦
          let zeroed : byte ≡ 0 = ground arith in
          subst (Copied set vaddr_start parent (i * 8) (i * 8 + 8) c)
            (let e : (if byte == 0 then ok c else copy_bits vaddr_start byte parent 8 i 0 c)
                  ≡ ok c =
                rw y refl in
              ok_inj (sym e ∙ h))
            (Copied-none set vaddr_start parent (i * 8) (i * 8 + 8) c val (λ j l u.
              let k = j - i * 8 in
              let placed : j ≡ i * 8 + k = omega arith in
              ap set placed
              ∙ (same k (omega arith) ∙ (ap (λ b. bit_on b k) zeroed ∙ zero_byte k (omega arith)))))
      | inr n ↦
          subst (λ lo. Copied set vaddr_start parent lo (i * 8 + 8) c c') (omega arith)
            (copy_bits_lem set vaddr_start byte parent 8 i 0 c c' val refl same aligned room (
              let e : (if byte == 0 then ok c else copy_bits vaddr_start byte parent 8 i 0 c)
                  ≡ copy_bits vaddr_start byte parent 8 i 0 c =
                rw n refl in
              sym e ∙ h))
    ]

swapped :
    (b : Bool) (c : Space) (now : Run Space) (next : Space → Run Space)
    → ((if b then ok c else now) >>= next) ≡ (if b then next c else now >>= next)
swapped true c now next = refl
swapped false c now next = refl

copy_bytes_lem :
    (vaddr : VirtualAddr) (parent : ℕ → ℕ → ℕ) (left i : ℕ) (c c' : Space)
    → IsValidMem c.mem
    → vaddr.vaddr_start % page_size ≡ 0
    → page_of vaddr.vaddr_start ((i + left) * 8) ≤ window
    → copy_bytes vaddr.vaddr_start vaddr.vaddr_bitmap.bits parent left i c ≡ ok c'
    → Copied (bit vaddr.vaddr_bitmap) vaddr.vaddr_start parent (i * 8) ((i + left) * 8) c c'
unfolding copy_bytes
copy_bytes_lem vaddr parent zero i c c' val aligned room h =
    subst (Copied (bit vaddr.vaddr_bitmap) vaddr.vaddr_start parent (i * 8) ((i + 0) * 8) c)
      (ok_inj h)
      (Copied-none (bit vaddr.vaddr_bitmap) vaddr.vaddr_start parent (i * 8) ((i + 0) * 8) c val
        (λ j l u. absurd (omega arith)))
copy_bytes_lem vaddr parent (suc left) i c c' val aligned room h =
    let start = vaddr.vaddr_start in
    let byte = vaddr.vaddr_bitmap.bits i in
    let set = bit vaddr.vaddr_bitmap in
    let next = copy_bytes start vaddr.vaddr_bitmap.bits parent left (i + 1) in
    let now : Run Space = if byte == 0 then ok c else copy_bits start byte parent 8 i 0 c in
    round-Copied set start parent (i * 8) (i * 8 + 8) ((i + suc left) * 8) now next c c'
      (omega arith) (omega arith) room
      (λ d e.
        byte-Copied set start byte parent i c d val (bits_of vaddr.vaddr_bitmap i) aligned
          (omega arith) e)
      (λ d vd hd.
        subst (λ lo. Copied set start parent lo ((i + suc left) * 8) d c') (omega arith)
          (subst (λ hi. Copied set start parent ((i + 1) * 8) hi d c') (omega arith)
            (copy_bytes_lem vaddr parent left (i + 1) d c' vd aligned (omega arith) hd)))
      (swapped (byte == 0) c (copy_bits start byte parent 8 i 0 c) next ∙ h)

-- For valid pools and page tables of the child and a bitmap of virtual addresses whose pages lie below
-- the page tables, when copy_body_stack3 returns, every page whose bit is set is mapped in the child
-- and holds what the parent has there, every page that was mapped still is, and the contents of all
-- other pages are as before.
pub copy_body_stack3_lem :
    (vaddr : VirtualAddr) (parent : ℕ → ℕ → ℕ) (c c' : Space)
    → IsValidMem c.mem
    → vaddr.vaddr_start % page_size ≡ 0
    → page_of vaddr.vaddr_start (vaddr.vaddr_bitmap.bmap_bytes_len * 8) ≤ window
    → copy_body_stack3 vaddr parent c ≡ ok c'
    → Copied
        (bit vaddr.vaddr_bitmap)
        vaddr.vaddr_start
        parent
        0
        (vaddr.vaddr_bitmap.bmap_bytes_len * 8)
        c
        c'
unfolding copy_body_stack3
copy_body_stack3_lem vaddr parent c c' val aligned room h =
    let len = vaddr.vaddr_bitmap.bmap_bytes_len in
    let set = bit vaddr.vaddr_bitmap in
    subst (λ hi. Copied set vaddr.vaddr_start parent 0 hi c c') (omega arith)
      (copy_bytes_lem vaddr parent len 0 c c' val aligned (omega arith) h)
