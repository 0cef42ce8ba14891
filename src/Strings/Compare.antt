-- ===== src/Strings/Compare.antt =====
-- What the comparison of strings compares.
use zy_os.Base.{
  ℕ, zero, suc, ◌+◌, ◌-◌, ◌≤◌, ◌<◌, ◌≡◌, ◌≢◌, ◌↔◌, inl, inr, sym, ap, subst, ◌∙◌, ◌==◌, arith,
  Bool-cases, ok,
}
use zy_os.Strings.{Bytes, same, last_sign, ncmp_from, strncmp}

-- The characters at the indices up to `n`, that one included, agree as far as no NUL stands before them.
abbrev pub Agree : (a b n : ℕ) → Bytes → Type 0
Agree a b n m = (i : ℕ) → i ≤ n → ((j : ℕ) → j < i → m (a + j) ≢ 0) → m (a + i) ≡ m (b + i)

last_sign-same : (x y : ℕ) → x < 256 → y < 256 → (last_sign x y ≡ same) ↔ (x ≡ y)
last_sign-same x y h k = ground arith

Agree-zero : (a b : ℕ) (m : Bytes) → Agree a b 0 m ↔ (m a ≡ m b)
Agree-zero a b m = (
  λ g.
      subst (λ z. m z ≡ m (b + 0)) (omega arith) (g 0 (omega arith) (λ j h. absurd (omega arith)))
      ∙ ap m (omega arith),
  λ e i h n. ap m (omega arith) ∙ e ∙ ap m (omega arith),
)

Agree-suc :
    (a b n : ℕ) (m : Bytes)
    → m a ≢ 0
    → Agree a b (suc n) m ↔ ((m a ≡ m b) × Agree (a + 1) (b + 1) n m)
Agree-suc a b n m ne = (
  λ g. (
    (Agree-zero a b m).0 (λ i h. g i (omega arith)),
    λ i h k.
        ap m (omega arith)
        ∙ g (i + 1) (omega arith) (λ j l. elim (Bool-cases (j == 0)) [
          | inl z ↦ λ e. ne (ap m (ground arith) ∙ e)
          | inr p ↦ λ e. k (j - 1) (ground arith) (ap m (ground arith) ∙ e)
        ])
        ∙ ap m (omega arith),
  ),
  λ (e, g) i h k. elim (Bool-cases (i == 0)) [
    | inl z ↦ ap m (ground arith) ∙ e ∙ ap m (ground arith)
    | inr p ↦
        ap m (ground arith)
        ∙ g (i - 1) (ground arith) (λ j l f. k (j + 1) (ground arith) (ap m (omega arith) ∙ f))
        ∙ ap m (ground arith)
  ],
)

Agree-stop : (a b n : ℕ) (m : Bytes) → m a ≡ 0 → Agree a b n m ↔ (m a ≡ m b)
Agree-stop a b n m z = (
  λ g. (Agree-zero a b m).0 (λ i h. g i (omega arith)),
  λ e i h k. elim (Bool-cases (i == 0)) [
    | inl y ↦ (Agree-zero a b m).1 e i (ground arith) k
    | inr p ↦ absurd (k 0 (ground arith) (ap m (omega arith) ∙ z))
  ],
)

ncmp_from-Agree :
    (a b n : ℕ) (m : Bytes) → ((k : ℕ) → m k < 256) → (ncmp_from a b n m ≡ same) ↔ Agree a b n m
unfolding ncmp_from
ncmp_from-Agree a b zero m byte =
    let s = last_sign-same (m a) (m b) (byte a) (byte b) in
    let z = Agree-zero a b m in (λ e. z.1 (s.0 e), λ g. s.1 (z.0 g))
ncmp_from-Agree a b (suc n) m byte =
    let s = last_sign-same (m a) (m b) (byte a) (byte b) in
    elim (Bool-cases (m a == 0)) [
      | inl z ↦
          let stop = Agree-stop a b (suc n) m (ground arith) in
          let here : ncmp_from a b (suc n) m ≡ last_sign (m a) (m b) = ground arith in
          (λ e. stop.1 (s.0 (sym here ∙ e)), λ g. here ∙ s.1 (stop.0 g))
      | inr p ↦
          let ne : m a ≢ 0 = ground arith in
          let next = Agree-suc a b n m ne in
          let ih = ncmp_from-Agree (a + 1) (b + 1) n m byte in
          elim (Bool-cases (m a == m b)) [
            | inl q ↦
                let eq : m a ≡ m b = ground arith in
                let here : ncmp_from a b (suc n) m ≡ ncmp_from (a + 1) (b + 1) n m = ground arith in
                (λ e. next.1 (eq, ih.0 (sym here ∙ e)), λ g. here ∙ ih.1 (next.0 g).1)
            | inr q ↦
                let here : ncmp_from a b (suc n) m ≡ last_sign (m a) (m b) = ground arith in
                (
                  λ e. next.1 (absurd (ground (arith, s.0 (sym here ∙ e)))),
                  λ g. absurd (ground (arith, (next.0 g).0)),
                )
          ]
    ]

-- For two strings that are not NULL, strncmp with size n returns 0 exactly when the characters at the
-- indices from 0 to n, n included, agree as far as no NUL stands before them.
pub strncmp_lem :
    (a b n : ℕ) (m : Bytes)
    → ((k : ℕ) → m k < 256)
    → a ≢ 0
    → b ≢ 0
    → (strncmp a b n m ≡ ok same) ↔ Agree a b n m
unfolding strncmp
strncmp_lem a b n m byte p q =
    let run : strncmp a b n m ≡ ok (ncmp_from a b n m) = ground arith in
    let iff = ncmp_from-Agree a b n m byte in
    (λ e. iff.0 (ground arith), λ g. run ∙ ap ok (iff.1 g))
