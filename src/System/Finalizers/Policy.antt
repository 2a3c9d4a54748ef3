-- ===== src/System/Finalizers/Policy.antt =====
-- About `set_proposed_finalizers` of contracts/flon.system/src/finalizer_key.cpp.
use flon_contracts.Base.{
  ℕ, ◌*◌, ◌≤◌, ◌<◌, ◌≡◌, ◌≢◌, refl, Bool, true, List, [], ◌∷◌, ◌++◌, map, arith, Bool-cases, inl,
  inr, size, Sorted, count_of,
}
use flon_contracts.System.Voting.{same_names}
use flon_contracts.System.Finalizers.{
  FinalizerAuthInfo, FinalizerState, FinalizerPolicy, same_entries, get_last_proposed_finalizers,
  sort_by_id, set_proposed_finalizers,
}

same_names_refl : (xs : List ℕ) → same_names xs xs ≡ true
unfolding same_names
same_names_refl [] = refl
same_names_refl (x ∷ xs) = ground (arith, same_names_refl xs)

same_entries_refl : (xs : List FinalizerAuthInfo) → same_entries xs xs ≡ true
unfolding same_entries
same_entries_refl [] = refl
same_entries_refl (x ∷ xs) =
    ground (arith, same_entries_refl xs, same_names_refl x.fin_authority.public_key)

-- What `set_proposed_finalizers` sends when the finalizers have changed.
pub record Proposed (proposed : List FinalizerAuthInfo) (s t : FinalizerState) : Type 0 where
  pub policy : FinalizerPolicy
  pub sent : t.policies ≡ s.policies ++ policy ∷ []
  pub number : size policy.finalizers ≡ size proposed
  pub listed : policy.finalizers ≡ map (λ e. e.fin_authority) (get_last_proposed_finalizers t)
  pub two_thirds : 2 * size proposed < 3 * policy.threshold
  pub attainable : proposed ≢ [] → policy.threshold ≤ size proposed
  pub ascending : Sorted (λ e. e.key_id) (get_last_proposed_finalizers t)
  pub same_finalizers :
      (p : FinalizerAuthInfo → Bool)
      → count_of p (get_last_proposed_finalizers t) ≡ count_of p proposed

-- Proposing the same finalizers again sends no second policy.
pub set_proposed_finalizers_again :
    (proposed : List FinalizerAuthInfo) (s : FinalizerState)
    → set_proposed_finalizers proposed (set_proposed_finalizers proposed s)
      ≡ set_proposed_finalizers proposed s
unfolding set_proposed_finalizers get_last_proposed_finalizers
set_proposed_finalizers_again proposed s =
    elim (Bool-cases (same_entries (sort_by_id proposed) (get_last_proposed_finalizers s))) [
      | inl e ↦ rw e (rw e refl)
      | inr e ↦ rw e (rw (same_entries_refl (sort_by_id proposed)) refl)
    ]
