-- ===== src/Regs/Ring/Counters.antt =====
-- The ring helpers against two counters that never wrap: how many descriptors were submitted and
-- how many completed. The indices in the device's registers are the counters modulo the size.
use Prim.Native.Nat.add
use native.Mathlib.Nat.{pow-suc, one-le-pow, pow-le-pow_right, mul-add-mod_self_left}
use native.Mathlib.Nat.{div-add-mod, mod-lt, mod_self, mod-add-mod, add-mod_right}
use native.Mathlib.Decide.{dec_lt}
use phantomfpga_project.Base.{ℕ, zero, suc, ◌+◌, ◌-◌, ◌*◌, ◌/◌, ◌%◌, ◌^◌, ◌≤◌, ◌<◌, bit_and}
use phantomfpga_project.Base.{◌≡◌, ◌↔◌, true, ap, sym, ◌∙◌, arith, sub32, ==_iff}
use phantomfpga_project.Bits.Mask.{bit_and-low_ones, mod-eq_of_fields}
use phantomfpga_project.Regs.Ring.{desc_pending, desc_free, desc_ring_empty, desc_ring_full}

pow-add : (j k : ℕ) → 2 ^ (j + k) ≡ 2 ^ j * 2 ^ k
pow-add zero k = rw add.zero (omega arith)
pow-add (suc j) k =
    rw add.suc
      (omega (arith, pow-suc 2 (j + k), ap (λ (t : ℕ). t * 2 ^ k) (pow-suc 2 j), pow-add j k))

-- A word splits into its k low digits and the rest.
word_as_product : (k : ℕ) → k < 32 → 2 ^ 32 ≡ 2 ^ k * 2 ^ (32 - k)
word_as_product k small =
    let split : 32 ≡ k + (32 - k) = omega arith in ap (λ w. 2 ^ w) split ∙ pow-add k (32 - k)

remainder_of_cut : (k x : ℕ) → k < 32 → x % 2 ^ 32 % 2 ^ k ≡ x % 2 ^ k
remainder_of_cut k x small =
    sym (mul-add-mod_self_left (2 ^ k) (2 ^ (32 - k) * (x / 2 ^ 32)) (x % 2 ^ 32))
    ∙ ap (λ y. y % 2 ^ k)
        (omega (
          arith,
          div-add-mod x (2 ^ 32),
          ap (λ (t : ℕ). t * (x / 2 ^ 32)) (word_as_product k small),
        ))

-- The difference of two indices, one multiple of the size added, is that of the counters.
index_difference :
    (n m s c : ℕ) → 0 < n → c ≤ s → s - c < n → (s % n + n * suc m - c % n) % n ≡ s - c
index_difference n m s c pos le close = elim (dec_lt (c % n + (s - c)) n) [
  | yes h ↦
      let same : s % n ≡ c % n + (s - c) =
        ap (λ x. x % n) (omega (arith, div-add-mod c n))
        ∙ mod-eq_of_fields n (c / n) (c % n + (s - c)) h in
      ap (λ x. x % n) (omega arith) ∙ mod-eq_of_fields n (suc m) (s - c) close
  | no h ↦
      let below = mod-lt c pos in
      let wrapped : s % n ≡ c % n + (s - c) - n =
        ap (λ x. x % n) (omega (arith, div-add-mod c n))
        ∙ mod-eq_of_fields n (c / n + 1) (c % n + (s - c) - n) (omega arith) in
      ap (λ x. x % n) (omega arith) ∙ mod-eq_of_fields n m (s - c) close
]

size_fits : (k : ℕ) → k < 32 → (1 ≤ 2 ^ k) × (2 ^ k ≤ 2 ^ 31)
size_fits k small =
    (one-le-pow k 2 (omega arith), pow-le-pow_right (omega arith) {i = k} {j = 31} (omega arith))

-- `x & (ring_size - 1)` on `u32`.
mask_lem : (k x : ℕ) → k < 32 → bit_and (x % 2 ^ 32) (sub32 (2 ^ k) 1) ≡ x % 2 ^ k
mask_lem k x small =
    let mask : sub32 (2 ^ k) 1 ≡ 2 ^ k - 1 = omega (arith, size_fits k small) in
    rw (mask, bit_and-low_ones) (remainder_of_cut k x small)

same_remainder : (n s c : ℕ) → 0 < n → c ≤ s → s - c < n → s % n ≡ c % n → s ≡ c
same_remainder n s c pos le close e =
    let difference = index_difference n 0 s c pos le close in
    let none_left : (s % n + n * 1 - c % n) % n ≡ 0 =
      ap (λ x. x % n) (omega (arith, mod-lt c pos)) ∙ mod_self n in
    omega (arith, difference, none_left)

-- With one more submitted than fits, the indices meet again, and only then.
next_meets : (n s c : ℕ) → 0 < n → c ≤ s → s - c < n → ((s % n + 1) % n ≡ c % n) ↔ (s - c ≡ n - 1)
next_meets n s c pos le close = (
  λ e. elim (dec_lt (s - c) (n - 1)) [
    | yes h ↦ absurd (
        omega (
          arith,
          same_remainder n (s + 1) c pos (omega arith) (omega arith) (sym (mod-add-mod s n 1) ∙ e),
        ))
    | no h ↦ omega arith
  ],
  λ e. mod-add-mod s n 1 ∙ ap (λ x. x % n) (omega arith) ∙ add-mod_right c n,
)

-- The four helpers, for a ring of 2^k slots whose indices stand for counters at most 2^k - 1 apart.
pub record Counts (size s c : ℕ) : Type 0 where
  pub pending : desc_pending (s % size) (c % size) size ≡ s - c
  pub free : desc_free (s % size) (c % size) size ≡ size - 1 - (s - c)
  pub empty : (desc_ring_empty (s % size) (c % size) ≡ true) ↔ (s ≡ c)
  pub full : (desc_ring_full (s % size) (c % size) size ≡ true) ↔ (s - c ≡ size - 1)

module _ (k : ℕ) (small : k < 32) (s c : ℕ) (ordered : c ≤ s) (fits : s - c < 2 ^ k) where
  pub desc_pending-counters : desc_pending (s % 2 ^ k) (c % 2 ^ k) (2 ^ k) ≡ s - c
  unfolding desc_pending
  desc_pending-counters =
      let range = size_fits k small in
      let rest = one-le-pow (32 - k) 2 (omega arith) in
      let product : 2 ^ 32 ≡ 2 ^ k * suc (2 ^ (32 - k) - 1) =
        word_as_product k small ∙ ap (λ m. 2 ^ k * m) (omega arith) in
      mask_lem k (s % 2 ^ k + 2 ^ 32 - c % 2 ^ k) small
      ∙ ap (λ w. (s % 2 ^ k + w - c % 2 ^ k) % 2 ^ k) product
      ∙ index_difference (2 ^ k) (2 ^ (32 - k) - 1) s c (omega arith) ordered fits

  desc_free-counters : desc_free (s % 2 ^ k) (c % 2 ^ k) (2 ^ k) ≡ 2 ^ k - 1 - (s - c)
  unfolding desc_free
  desc_free-counters = rw desc_pending-counters (omega (arith, size_fits k small))

  desc_ring_empty-counters : (desc_ring_empty (s % 2 ^ k) (c % 2 ^ k) ≡ true) ↔ (s ≡ c)
  unfolding desc_ring_empty
  desc_ring_empty-counters = (
    λ e. same_remainder (2 ^ k) s c (size_fits k small).0 ordered fits ((==_iff _ _).0 e),
    λ e. (==_iff _ _).1 (ap (λ x. x % 2 ^ k) e),
  )

  desc_ring_full-counters :
      (desc_ring_full (s % 2 ^ k) (c % 2 ^ k) (2 ^ k) ≡ true) ↔ (s - c ≡ 2 ^ k - 1)
  unfolding desc_ring_full
  desc_ring_full-counters =
      let meets = next_meets (2 ^ k) s c (size_fits k small).0 ordered fits in
      let next = mask_lem k (s % 2 ^ k + 1) small in
      (λ e. meets.0 (sym next ∙ (==_iff _ _).0 e), λ e. (==_iff _ _).1 (next ∙ meets.1 e))

  -- For a ring of 2^k slots, k below 32, and counters of submitted and completed descriptors of
  -- which the second is at most the first and at most 2^k - 1 behind: `desc_pending` of the
  -- indices is the difference of the counters, `desc_free` what is left of 2^k - 1, the ring is
  -- `empty` exactly when the counters agree and `full` exactly when they are 2^k - 1 apart.
  pub ring-Counts : Counts (2 ^ k) s c
  ring-Counts = record {
    pending = desc_pending-counters;
    free = desc_free-counters;
    empty = desc_ring_empty-counters;
    full = desc_ring_full-counters;
  }
