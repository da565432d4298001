-- ===== src/Base/Counts.antt =====
-- Tests on numbers, changed at one number, and how many numbers below a bound pass.
use radix_graph.Base.{
  if◌then◌else◌, ℕ, zero, suc, ◌+◌, ◌≤◌, ◌<◌, ◌≡◌, refl, ◌∙◌, Bool, true, false, bit, ltb, ◌==◌,
  arith, Bool-cases, inl, inr, ==→≡,
}

abbrev pub update {ℓ} : {A : Type ℓ} → (ℕ → A) → ℕ → A → ℕ → A
update f k a j = if k == j then a else f j

abbrev pub count : (ℕ → Bool) → ℕ → ℕ
count c zero = 0
count c (suc n) = count c n + bit (c n)

pub count-le : (c : ℕ → Bool) (n : ℕ) → count c n ≤ n
count-le c zero = omega arith
count-le c (suc n) = ground (arith, count-le c n)

pub count-update_beyond : (c : ℕ → Bool) (n i : ℕ) → n ≤ i → count (update c i true) n ≡ count c n
count-update_beyond c zero i h = refl
count-update_beyond c (suc n) i h =
    let apart : (i == n) ≡ false = ground (arith, h) in
    rw (apart, count-update_beyond c n i (omega arith))

pub count-update :
    (c : ℕ → Bool) (n i : ℕ) → i < n → c i ≡ false → count (update c i true) n ≡ count c n + 1
count-update c zero i h e = absurd (omega arith)
count-update c (suc n) i h e = elim (Bool-cases (i == n)) [
  | inl last ↦
      let at : i ≡ n = ==→≡ _ _ last in
      ground (arith, at, e, last, count-update_beyond c n i (omega (arith, at)))
  | inr before ↦ ground (arith, before, count-update c n i (ground (arith, h, before)) e)
]

-- When as many places are counted as there are, each one is.
pub count-all : (c : ℕ → Bool) (n i : ℕ) → count c n ≡ n → i < n → c i ≡ true
count-all c zero i full h = absurd (omega arith)
count-all c (suc n) i full h = elim (Bool-cases (i == n)) [
  | inl last ↦ let at : i ≡ n = ==→≡ _ _ last in ground (arith, at, full, count-le c n)
  | inr before ↦ count-all c n i (ground (arith, full, count-le c n)) (ground (arith, h, before))
]

count-ltb_below : (c : ℕ → Bool) (m n : ℕ) → ((i : ℕ) → c i ≡ ltb i m) → n ≤ m → count c n ≡ n
count-ltb_below c m zero all h = refl
count-ltb_below c m (suc n) all h =
    ground (arith, all n, h, count-ltb_below c m n all (omega (arith, h)))

pub count-ltb : (c : ℕ → Bool) (m n : ℕ) → ((i : ℕ) → c i ≡ ltb i m) → m ≤ n → count c n ≡ m
count-ltb c m zero all h = omega arith
count-ltb c m (suc n) all h = elim (Bool-cases (m == suc n)) [
  | inl whole ↦
      let e : m ≡ suc n = ==→≡ _ _ whole in
      count-ltb_below c m (suc n) all (omega (arith, e)) ∙ omega (arith, e)
  | inr short ↦
      let le : m ≤ n = ground (arith, h, short) in ground (arith, all n, le, count-ltb c m n all le)
]

pub count_ext : (c d : ℕ → Bool) (n : ℕ) → ((q : ℕ) → q < n → c q ≡ d q) → count c n ≡ count d n
count_ext c d zero h = refl
count_ext c d (suc n) h = rw (h n (omega arith), count_ext c d n (λ q lt. h q (omega (arith, lt))))

-- When none are counted, no test passes.
pub count-none : (c : ℕ → Bool) (n i : ℕ) → count c n ≡ 0 → i < n → c i ≡ false
count-none c zero i e h = absurd (omega arith)
count-none c (suc n) i e h = elim (Bool-cases (i == n)) [
  | inl last ↦ let at : i ≡ n = ==→≡ _ _ last in ground (arith, at, e)
  | inr before ↦ count-none c n i (ground (arith, e)) (ground (arith, h, before))
]

pub count-blank : (c : ℕ → Bool) (n : ℕ) → ((q : ℕ) → q < n → c q ≡ false) → count c n ≡ 0
count-blank c zero h = refl
count-blank c (suc n) h = ground (arith, h n, count-blank c n (λ q lt. h q (omega (arith, lt))))

pub count_mono : (c : ℕ → Bool) (m n : ℕ) → m ≤ n → count c m ≤ count c n
count_mono c m zero h = let e : m ≡ 0 = omega (arith, h) in rw e (omega arith)
count_mono c m (suc n) h = elim (Bool-cases (m == suc n)) [
  | inl same ↦ let e : m ≡ suc n = ==→≡ _ _ same in rw e (omega arith)
  | inr apart ↦ omega (arith, count_mono c m n (ground (arith, h, apart)))
]

-- When fewer are counted than there are, one is not.
pub count-missing : (c : ℕ → Bool) (n : ℕ) → count c n < n → (i : ℕ) × (i < n) × (c i ≡ false)
count-missing c zero h = absurd (omega (arith, h))
count-missing c (suc n) h = elim (Bool-cases (c n)) [
  | inr off ↦ (n, omega arith, off)
  | inl on ↦
      let fewer : count c n < n = ground (arith, h, on) in
      let (i, lt, off) = count-missing c n fewer in (i, omega (arith, lt), off)
]
