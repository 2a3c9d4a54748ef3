-- ===== src/System/OnBlock/Power.antt =====
-- About `power` and the halving of the rewards in contracts/flon.system/src/producer_pay.cpp.
use flon_contracts.Base.{
  ℕ, zero, suc, ◌+◌, ◌*◌, ◌/◌, ◌^◌, ◌<◌, ◌≡◌, pos, pos-*, wrap-pos, div_pos, ok, arith, ap, ◌∙◌,
}
use native.Mathlib.Nat.{pow-le-pow_right, one-le-pow}
use native.Mathlib.Numerals.{towards_suc}
use flon_contracts.System.OnBlock.{power_loop, power, quotient}

two_to : (k : ℕ) → k < 63 → 2 ^ k < 2 ^ 63
two_to k h = omega (arith, pow-le-pow_right {n = 2} (omega arith) {i = k} {j = 62} (omega arith))

power_loop-pow :
    (k exp : ℕ) → k + exp < 63 → power_loop (pos (2 ^ k)) (pos 2) exp ≡ pos (2 ^ (k + exp))
unfolding power_loop
power_loop-pow k zero h = ap (λ n. pos (2 ^ n)) (omega arith)
power_loop-pow k (suc exp) h =
    let doubled : 2 ^ k * 2 ≡ 2 ^ (k + 1) = simp towards_suc (omega arith) in
    let fits : 2 ^ k * 2 < 2 ^ 63 = rw doubled (two_to (k + 1) (omega (arith, h))) in
    rw (pos-* (2 ^ k) 2) (
      rw (wrap-pos (2 ^ 63) (2 ^ k * 2) fits) (
        rw doubled
          (power_loop-pow (k + 1) exp (omega (arith, h)) ∙ ap (λ n. pos (2 ^ n)) (omega arith))))

-- The loop computes the power of two that it means to, below the 63rd.
pub power-pow : (exp : ℕ) → exp < 63 → power (pos 2) exp ≡ pos (2 ^ exp)
unfolding power
power-pow exp h = power_loop-pow 0 exp (omega (arith, h)) ∙ ap (λ n. pos (2 ^ n)) (omega arith)

-- Below the 63rd period the division by the power halves the amount in every period.
pub quotient-power :
    (amount exp : ℕ)
    → exp < 63
    → quotient (pos amount) (power (pos 2) exp) ≡ ok (pos (amount / 2 ^ exp))
unfolding quotient div_pos
quotient-power amount exp h = rw (power-pow exp h) (ground (arith, one-le-pow exp 2 (omega arith)))
