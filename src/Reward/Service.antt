-- ===== src/Reward/Service.antt =====
-- About one settlement in contracts/flon.reward/src/flon.reward.cpp: whether a claim is covered.
use flon_contracts.Base.{
  ℕ, zero, suc, ◌^◌, ◌*◌, ◌+◌, ◌-◌, ◌/◌, ◌≤◌, ◌<◌, ◌≡◌, refl, ◌∙◌, true, false, ◌&&◌, ℤ, pos, ◌+ℤ◌,
  ◌*ℤ◌, div_pos, ltb, i64, i128, ok, Bool-cases, inl, inr, arith, pos-*, pos-+, pos-sub, wrap-pos,
}
use native.Mathlib.Nat.{div-le_self, mul-div-le}
use flon_contracts.Chain.{Symbol, asset, AssetOps}
use flon_contracts.Reward.Defs.{
  Producer, serve, settle, calc_voter_rewards, calc_rewards_per_vote, high_precision,
}

-- The rewards of `n` votes for a difference `d` of the accumulator.
abbrev pub share : ℕ → ℕ → ℕ
share n d = n * d / high_precision

module _ ⦃ops : AssetOps⦄ where
  calc_voter_rewards_lem :
      (n d : ℕ) (y : Symbol)
      → 0 < n
      → n * d < 2 ^ 62 * high_precision
      → ops.symbol_is_valid y ≡ true
      → calc_voter_rewards (pos n) (pos d) y ≡ ok (asset (pos (share n d)) y)
  unfolding calc_voter_rewards div_pos
  calc_voter_rewards_lem n d y p small valid =
      let product : i128 (pos n *ℤ pos d) ≡ pos (n * d) =
        rw (pos-* n d) (wrap-pos (2 ^ 127) (n * d) (omega arith)) in
      let grows : d ≤ n * d = grind arith in
      let word : i64 (pos (share n d)) ≡ pos (share n d) =
        wrap-pos (2 ^ 63) (share n d) (omega arith) in
      ground
        (arith, product, word, ops.make_total (pos (share n d)) y (omega arith, omega arith) valid)

-- A producer row that allocates `a` of `t` rewards, has allocated `b` and has `v` votes.
abbrev pub row : Symbol → Producer → ℕ → ℕ → ℕ → ℕ → Producer
row y p a b t v = record p {
  total_rewards = asset (pos t) y;
  allocating_rewards = asset (pos a) y;
  allocated_rewards = asset (pos b) y;
  votes = pos v;
}

no_share : (n d : ℕ) → (ltb 0 d && ltb 0 n) ≡ false → n * d ≡ 0
no_share zero d h = omega arith
no_share (suc n) zero h = omega arith
no_share (suc n) (suc d) h = ground arith

module _ ⦃ops : AssetOps⦄ where
  sub_lem :
      (y : Symbol) (a x : ℕ)
      → x ≤ a
      → a < 2 ^ 62
      → ops.sub (asset (pos a) y) (asset (pos x) y) ≡ ok (asset (pos (a - x)) y)
  sub_lem y a x h r =
      let e = pos-sub a x h in
      ops.sub_total (asset (pos a) y) (asset (pos x) y) refl (rw e (omega arith, omega arith))
      ∙ rw e refl

  add_lem :
      (y : Symbol) (a x : ℕ)
      → a + x < 2 ^ 62
      → ops.add (asset (pos a) y) (asset (pos x) y) ≡ ok (asset (pos (a + x)) y)
  add_lem y a x r =
      let e = pos-+ a x in
      ops.add_total (asset (pos a) y) (asset (pos x) y) refl (rw e (omega arith, omega arith))
      ∙ rw e refl

  serve_total :
      (y : Symbol) (p : Producer) (a b v n d o : ℕ)
      → ops.symbol_is_valid y ≡ true
      → n ≤ v
      → n * d ≤ a * high_precision
      → a + b < 2 ^ 62
      → o + a < 2 ^ 62
      → serve y (pos n) (pos d) (row y p a b (a + b) v) (asset (pos o) y)
        ≡ ok (row y p (a - share n d) (b + share n d) (a + b) v, asset (pos (o + share n d)) y)
  unfolding serve
  serve_total y p a b v n d o valid voted covered fits out_fits =
      elim (Bool-cases (ltb 0 d && ltb 0 n)) [
        | inr idle ↦ ground (arith, no_share n d idle)
        | inl busy ↦
            let within : share n d ≤ a = omega arith in
            ground (
              arith,
              calc_voter_rewards_lem n d y (ground arith) (omega arith) valid,
              sub_lem y a (share n d) within (omega arith),
              add_lem y b (share n d) (omega arith),
              add_lem y (a - share n d) (b + share n d) (omega arith),
              add_lem y o (share n d) (omega arith),
            )
      ]

  -- A voter with `n` of a producer's `v` votes, who was last served at `l`, is owed
  -- `n * (r - l)` units of the accumulator `r`. If the producer's allocating rewards cover that
  -- claim and the claims `rest` of all other voters, then the settlement succeeds, the voter receives
  -- its share rounded down, the votes change by the given amount, and what is left covers the claims
  -- of the others. Conditions: the symbol is valid, the producer's total rewards are the sum of its
  -- allocating and its allocated ones, `l <= r`, `n <= v`, the changed votes are in range, the
  -- accumulator is below 2 ^ 127, and the sums of the amounts are below 2 ^ 62.
  pub settle_covered :
      (now : ℕ) (y : Symbol) (p : Producer) (a b v n l r o rest : ℕ) (delta : ℤ) (v' : ℕ)
      → ops.symbol_is_valid y ≡ true
      → p.rewards_per_vote ≡ pos r
      → l ≤ r
      → r < 2 ^ 127
      → n ≤ v
      → n * (r - l) + rest ≤ a * high_precision
      → a + b < 2 ^ 62
      → o + a < 2 ^ 62
      → i64 (pos v +ℤ delta) ≡ pos v'
      → (settle now y (pos n) delta (pos l) (row y p a b (a + b) v) (asset (pos o) y)
          ≡ ok (
            record (row y p (a - share n (r - l)) (b + share n (r - l)) (a + b) v') {
              update_at = now;
            },
            pos r,
            asset (pos (o + share n (r - l))) y,
          ))
        × (rest ≤ (a - share n (r - l)) * high_precision)
  unfolding settle
  settle_covered now y p a b v n l r o rest delta v' valid acc le word voted covered fits out_fits
        moved =
      (
        ground (
          arith,
          pos-sub r l le,
          wrap-pos (2 ^ 127) (r - l) (omega arith),
          serve_total y p a b v n (r - l) o valid voted (omega arith) fits out_fits,
          moved,
        ),
        omega arith,
      )

no_growth : (x n : ℕ) → (ltb 0 x && ltb 0 n) ≡ false → x * high_precision / n ≡ 0
no_growth zero n h = omega arith
no_growth (suc x) zero h = omega arith
no_growth (suc x) (suc n) h = ground arith

mul-le_mono : (a b c : ℕ) → a ≤ b → a * c ≤ b * c
mul-le_mono a b c h = grind arith

-- The growth of the accumulator of a producer with `n` votes that receives `x`: rounded down, and
-- nothing where there are no votes.
calc_rewards_per_vote_lem :
    (y : Symbol) (r x n : ℕ)
    → x < 2 ^ 62
    → r + x * high_precision < 2 ^ 127
    → calc_rewards_per_vote (pos r) (asset (pos x) y) (pos n)
      ≡ ok (pos (r + x * high_precision / n))
unfolding calc_rewards_per_vote div_pos
calc_rewards_per_vote_lem y r x n fits word =
    let grown = x * high_precision / n in
    let product : i128 (pos x *ℤ pos high_precision) ≡ pos (x * high_precision) =
      rw (pos-* x high_precision) (wrap-pos (2 ^ 127) (x * high_precision) (omega arith)) in
    let sums : i128 (pos r +ℤ pos grown) ≡ pos (r + grown) =
      rw (pos-+ r grown)
        (wrap-pos (2 ^ 127) (r + grown) (omega (arith, div-le_self (x * high_precision) n))) in
    elim (Bool-cases (ltb 0 x && ltb 0 n)) [
      | inr idle ↦ ground (arith, no_growth x n idle)
      | inl busy ↦ ground (arith, product, sums)
    ]

-- If a producer's allocating rewards `a` cover `claims`, then after it has received `x` the sum
-- `a + x` covers these claims and what the accumulator's growth adds for `held` votes, when `held` is
-- at most the producer's votes. The accumulator does not fall, and does not overflow when `x` is
-- below 2 ^ 62 and `r + x * 10 ^ 18` is below 2 ^ 127.
pub reward_covered :
    (y : Symbol) (r x n a held claims : ℕ)
    → x < 2 ^ 62
    → r + x * high_precision < 2 ^ 127
    → held ≤ n
    → claims ≤ a * high_precision
    → (r' : ℕ) × (calc_rewards_per_vote (pos r) (asset (pos x) y) (pos n) ≡ ok (pos r'))
      × (r ≤ r')
      × (claims + held * (r' - r) ≤ (a + x) * high_precision)
reward_covered y r x n a held claims fits word few covered =
    let grown = x * high_precision / n in
    (
      r + grown,
      calc_rewards_per_vote_lem y r x n fits word,
      omega arith,
      covers (r + grown - r) (omega arith),
    )
  where
    covers : (d : ℕ) → d ≡ x * high_precision / n → claims + held * d ≤ (a + x) * high_precision
    covers d e = rw e (
        omega (
          arith,
          mul-le_mono held n (x * high_precision / n) few,
          mul-div-le (x * high_precision) n,
        ))
