-- ===== src/Ide/Waiting.antt =====
-- `busy_wait`, `swap_pairs_bytes` and `intr_hd_handler` of device/ide.c.
use zy_os.Base.{
  ℕ, zero, suc, ◌+◌, ◌-◌, ◌*◌, ◌/◌, ◌%◌, ◌≤◌, ◌<◌, ◌≡◌, ◌⊎◌, inl, inr, refl, ap, ◌∙◌, bit_and, Bool,
  true, false, not, ◌||◌, ◌==◌, if◌then◌else◌, update, arith, Bool-cases, Run, ok, assert, ◌>>◌,
}

-- The bits `BIT_STAT_BSY` and `BIT_STAT_DRQ` of the status that a read of the register gives.
unfoldable pub is_busy : (status : ℕ) → Bool
is_busy status = not (bit_and status 0x80 == 0)

unfoldable pub has_data : (status : ℕ) → Bool
has_data status = not (bit_and status 0x8 == 0)

-- The register is read again for the data: `status k` is what the first read of the round `k` gives, and
-- `again k` the second. `time_limit -= 10 >= 0` subtracts 1 from a `uint16_t`, so
-- the loop has one round less than it starts with. The result comes with the calls of `mtime_sleep(10)`.
unfoldable pub poll : (status again : ℕ → ℕ) (left k : ℕ) → Bool × ℕ
poll status again zero k = (false, k)
poll status again (suc left) k =
    let rest = poll status again left (k + 1) in
    if not (is_busy (status k)) then (has_data (again k), k) else rest

unfoldable pub busy_wait : (status again : ℕ → ℕ) → Bool × ℕ
busy_wait status again = poll status again (30 * 1000 - 1) 0

-- The first round whose first read finds the disk idle.
pub record IdleAt (status : ℕ → ℕ) (start k : ℕ) : Type 0 where
  pub low : start ≤ k
  pub idle : is_busy (status k) ≡ false
  pub before : (j : ℕ) → start ≤ j → j < k → is_busy (status j) ≡ true

abbrev pub Polled : (status again : ℕ → ℕ) (start end : ℕ) → Bool × ℕ → Type 0
Polled status again start end r =
    ((k : ℕ) × (k < end) × IdleAt status start k × (r ≡ (has_data (again k), k)))
    ⊎ (((j : ℕ) → start ≤ j → j < end → is_busy (status j) ≡ true) × (r ≡ (false, end)))

poll-Polled :
    (status again : ℕ → ℕ) (left k : ℕ)
    → Polled status again k (k + left) (poll status again left k)
unfolding poll
poll-Polled status again zero k =
    inr ((λ j l h. absurd (omega arith)), ap (λ n. (false, n)) (omega arith))
poll-Polled status again (suc left) k = elim (Bool-cases (is_busy (status k))) [
  | inl busy ↦
      let end : k + 1 + left ≡ k + suc left = omega arith in
      rw busy (elim (poll-Polled status again left (k + 1)) [
        | inl (n, low, at, r) ↦ inl (
          n,
          omega arith,
          record {
            low = omega (arith, at.low);
            idle = at.idle;
            before = λ j l h. elim (Bool-cases (j == k)) [
              | inl e ↦ ground arith
              | inr ne ↦ at.before j (ground arith) h
            ];
          },
          r,
        )
        | inr (all, r) ↦ inr (
          (λ j l h. elim (Bool-cases (j == k)) [
            | inl e ↦ ground arith
            | inr ne ↦ all j (ground arith) (omega arith)
          ]),
          r ∙ ap (λ n. (false, n)) end,
        )
      ])
  | inr idle ↦ rw idle (
      inl (
        k,
        omega arith,
        record { low = omega arith; idle = idle; before = λ j l h. absurd (omega arith) },
        refl,
      ))
]

-- busy_wait ends in the first of its rounds whose first read of the status finds the disk idle, answers
-- whether the second read of that round has data, and sleeps once for each round before; after 29999
-- rounds that all find it busy, and as many sleeps, it answers false.
pub busy_wait-Polled : (status again : ℕ → ℕ) → Polled status again 0 29999 (busy_wait status again)
unfolding busy_wait
busy_wait-Polled status again = poll-Polled status again 29999 0

-- The loop of `swap_pairs_bytes`, with the rounds left; `idx` is a `uint8_t`.
unfoldable pub swap_from : (left idx : ℕ) (dst buf : ℕ → ℕ) → ℕ → ℕ
swap_from zero idx dst buf = update buf idx 0
swap_from (suc left) idx dst buf =
    swap_from left ((idx + 2) % 256) dst
      (update (update buf (idx + 1) (dst idx)) idx (dst (idx + 1)))

unfoldable pub swap_pairs_bytes : (dst buf : ℕ → ℕ) (len : ℕ) → ℕ → ℕ
swap_pairs_bytes dst buf len = swap_from ((len + 1) / 2) 0 dst buf

-- `struct ide_channel`, with the ports read; the result says whether `sema_up` is called.
pub record Channel : Type 0 where
  pub irq_no : ℕ
  pub expecting_intr : Bool

unfoldable pub intr_hd_handler : (irq_no : ℕ) → Channel → Run (Channel × Bool)
intr_hd_handler irq_no channel =
    assert (irq_no == 0x2e || irq_no == 0x2f)
    >> (assert (channel.irq_no == irq_no)
        >> ok (
            if channel.expecting_intr
            then (record channel { expecting_intr = false }, true)
            else (channel, false)))
