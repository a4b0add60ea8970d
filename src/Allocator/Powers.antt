-- ===== src/Allocator/Powers.antt =====
-- Alignments and the sizes of the classes are powers of two, so the smaller divides the larger.
use Prim.Native.Nat.{◌∣◌}
use native.Mathlib.Nat.{
  mod-eq-zero_of_dvd, dvd_refl, dvd-mul_right_of_dvd, pow-suc, one-le-pow, zero-add, dvd-zero,
  pow-le-pow_right, mod-mod_of_dvd,
}
use mathlib.Core.Path.{subst}
use alilu_os.Common.{
  ℕ, zero, suc, ◌+◌, ◌-◌, ◌*◌, ◌%◌, ◌^◌, ◌≤◌, ◌<◌, ◌≡◌, refl, sym, ap, ◌∙◌, arith, ltb, Bool-cases,
  inl, inr, get_or, ltb→lt,
}
use alilu_os.Allocator.{block_sizes}

abbrev pub IsPowerOfTwo : ℕ → Type 0
IsPowerOfTwo n = (k : ℕ) × (n ≡ 2 ^ k)

power-dvd : (k d : ℕ) → 2 ^ k ∣ 2 ^ (d + k)
power-dvd k zero = subst (λ n. 2 ^ k ∣ 2 ^ n) (sym (zero-add k)) (dvd_refl (2 ^ k))
power-dvd k (suc d) =
    let next : 2 ^ (d + k) * 2 ≡ 2 ^ (suc d + k) =
      sym (pow-suc 2 (d + k)) ∙ ap (λ n. 2 ^ n) (omega arith) in
    subst (λ n. 2 ^ k ∣ n) next (dvd-mul_right_of_dvd (2 ^ k) (power-dvd k d) 2)

exponent-le : (k j : ℕ) → 2 ^ k ≤ 2 ^ j → k ≤ j
exponent-le k j h = elim (Bool-cases (ltb j k)) [
  | inl more ↦
      let larger : 2 ^ suc j ≤ 2 ^ k = pow-le-pow_right {n = 2} (omega arith) (ltb→lt j k more) in
      absurd (omega (arith, pow-suc 2 j, one-le-pow j 2, larger))
  | inr less ↦ ground arith
]

-- Of two powers of two the one that is not larger divides the other.
pub aligned_more :
    (x : ℕ) {small large : ℕ}
    → IsPowerOfTwo small
    → IsPowerOfTwo large
    → small ≤ large
    → x % large ≡ 0
    → x % small ≡ 0
aligned_more x {small} {large} (k, e) (j, f) le h =
    let ordered : k ≤ j =
      exponent-le k j (subst (λ n. n ≤ 2 ^ j) e (subst (λ n. small ≤ n) f le)) in
    let divides : small ∣ large =
      subst (λ n. n ∣ large) (sym e)
        (subst (λ n. 2 ^ k ∣ n) (ap (λ n. 2 ^ n) (omega arith) ∙ sym f) (power-dvd k (j - k))) in
    sym (mod-mod_of_dvd small x divides)
    ∙ ap (λ n. n % small) h
    ∙ mod-eq-zero_of_dvd small (dvd-zero small)

pub block_size-IsPowerOfTwo : (i : ℕ) → i < 8 → IsPowerOfTwo (get_or block_sizes i 0)
block_size-IsPowerOfTwo zero h = (4, refl)
block_size-IsPowerOfTwo (suc zero) h = (5, refl)
block_size-IsPowerOfTwo (suc (suc zero)) h = (6, refl)
block_size-IsPowerOfTwo (suc (suc (suc zero))) h = (7, refl)
block_size-IsPowerOfTwo (suc (suc (suc (suc zero)))) h = (8, refl)
block_size-IsPowerOfTwo (suc (suc (suc (suc (suc zero))))) h = (9, refl)
block_size-IsPowerOfTwo (suc (suc (suc (suc (suc (suc zero)))))) h = (10, refl)
block_size-IsPowerOfTwo (suc (suc (suc (suc (suc (suc (suc zero))))))) h = (11, refl)
block_size-IsPowerOfTwo (suc (suc (suc (suc (suc (suc (suc (suc i)))))))) h = absurd (omega arith)
