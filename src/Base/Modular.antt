-- ===== src/Base/Modular.antt =====
-- Products, powers and digits modulo a native number.
use Prim.Native.Nat.{ℕ, zero, suc, ◌+◌, ◌*◌, ◌/◌, ◌%◌, ◌^◌, ◌<◌, ◌≤◌}
use mathlib.Core.Path.{◌≡◌, sym, ap, ◌∙◌}
use native.Mathlib.Omega.{arith}
use native.Mathlib.Nat.{pow-suc, pow-zero, mul-one, mul_comm, mul_assoc, add-mul, mul-le-mul_right}
use native.Mathlib.Nat.{mod-add-div, mod-lt, mod-eq_of_lt, add-mul-mod_self_left}

pub mod_mul : (a m b : ℕ) → a % m * b % m ≡ a * b % m
mod_mul a m b =
    let whole : a * b ≡ a % m * b + m * (a / m * b) =
      ap (λ k. k * b) (sym (mod-add-div a m))
      ∙ add-mul (a % m) (m * (a / m)) b
      ∙ ap (◌+◌ (a % m * b)) (mul_assoc m (a / m) b) in
    sym (ap (λ k. k % m) whole ∙ add-mul-mod_self_left (a % m * b) m (a / m * b))

pub mul_mod : (a m b : ℕ) → b * (a % m) % m ≡ b * a % m
mul_mod a m b =
    ap (λ k. k % m) (mul_comm b (a % m)) ∙ mod_mul a m b ∙ ap (λ k. k % m) (mul_comm a b)

pub mod_pow : (a m k : ℕ) → (a % m) ^ k % m ≡ a ^ k % m
mod_pow a m zero = ap (λ p. p % m) (pow-zero (a % m) ∙ sym (pow-zero a))
mod_pow a m (suc k) =
    ap (λ p. p % m) (pow-suc (a % m) k)
    ∙ mul_mod a m ((a % m) ^ k)
    ∙ sym (mod_mul ((a % m) ^ k) m a)
    ∙ ap (λ p. p * a % m) (mod_pow a m k)
    ∙ mod_mul (a ^ k) m a
    ∙ ap (λ p. p % m) (sym (pow-suc a k))

pub pow_two-pos : (n : ℕ) → 0 < 2 ^ n
pow_two-pos zero = omega arith
pow_two-pos (suc n) = omega (arith, pow-suc 2 n, pow_two-pos n)

pub pow_add : (b m n : ℕ) → b ^ (m + n) ≡ b ^ m * b ^ n
pow_add b m zero = ap (◌^◌ b) (omega arith) ∙ sym (ap (◌*◌ (b ^ m)) (pow-zero b) ∙ mul-one (b ^ m))
pow_add b m (suc n) =
    ap (◌^◌ b) (omega arith)
    ∙ pow-suc b (m + n)
    ∙ ap (λ p. p * b) (pow_add b m n)
    ∙ mul_assoc (b ^ m) (b ^ n) b
    ∙ ap (◌*◌ (b ^ m)) (sym (pow-suc b n))

block_comm : (d p k : ℕ) → p * d * k ≡ p * k * d
block_comm d p k = rw (mul_assoc p d k, mul_comm d k, mul_assoc p k d)

-- A number modulo a multiple of `d` by its last digit to the base `d` and the digits before it.
pub last_digit : (d p v : ℕ) → 0 < d → 0 < p → v / d % p * d + v % d ≡ v % (p * d)
last_digit d p v h k =
    let q = v / d in
    let low = q % p * d + v % d in
    let digits : q * d ≡ q % p * d + p * (q / p) * d =
      ap (λ n. n * d) (sym (mod-add-div q p)) ∙ add-mul (q % p) (p * (q / p)) d in
    let whole : v ≡ low + p * d * (q / p) =
      omega (arith, mod-add-div v d, mul_comm d q, digits, block_comm d p (q / p)) in
    let room : (q % p + 1) * d ≤ p * d = mul-le-mul_right d (omega (arith, mod-lt q k)) in
    let below : low < p * d = omega (arith, room, add-mul (q % p) 1 d, mod-lt v h) in
    sym
      (ap (λ n. n % (p * d)) whole ∙ add-mul-mod_self_left low (p * d) (q / p) ∙ mod-eq_of_lt below)
