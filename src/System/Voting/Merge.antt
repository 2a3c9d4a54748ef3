-- ===== src/System/Voting/Merge.antt =====
-- About the loop of `voteproducer` in contracts/flon.system/src/voting.cpp, which compares addresses.
use flon_contracts.Base.{ℕ, ◌+◌, ◌*◌, ◌≤◌, ◌≡◌, refl, ◌⊎◌, inl, inr, List, [], ◌∷◌, arith}
use flon_contracts.System.Voting.{Changes, classify, length}

abbrev pub all_changed : List ℕ → List ℕ → Changes
all_changed olds news = record { removed_prods = olds; modified_prods = []; added_prods = news }

news_left : (old new : ℕ) (news : List ℕ) → classify old new [] news ≡ all_changed [] news
unfolding classify
news_left old new [] = refl
news_left old new (n ∷ news) = ground (arith, news_left old (new + 8) news)

olds_left : (old new : ℕ) (olds : List ℕ) → classify old new olds [] ≡ all_changed olds []
unfolding classify
olds_left old new [] = refl
olds_left old new (o ∷ olds) = ground (arith, olds_left (old + 8) new olds)

old_first :
    (old new : ℕ) (olds news : List ℕ)
    → old + 8 * length olds ≤ new
    → classify old new olds news ≡ all_changed olds news
unfolding classify
old_first old new [] news h = news_left old new news
old_first old new (o ∷ olds) [] h = olds_left old new (o ∷ olds)
old_first old new (o ∷ olds) (n ∷ news) h =
    ground (arith, old_first (old + 8) new olds (n ∷ news) (omega arith))

new_first :
    (old new : ℕ) (olds news : List ℕ)
    → new + 8 * length news ≤ old
    → classify old new olds news ≡ all_changed olds news
unfolding classify
new_first old new [] news h = news_left old new news
new_first old new (o ∷ olds) [] h = olds_left old new (o ∷ olds)
new_first old new (o ∷ olds) (n ∷ news) h =
    ground (arith, new_first old (new + 8) (o ∷ olds) news (omega arith))

-- When the two vectors do not overlap in memory, every old producer counts as removed and every new
-- one as added, also one that is in both lists.
pub classify_disjoint :
    (old new : ℕ) (olds news : List ℕ)
    → (old + 8 * length olds ≤ new) ⊎ (new + 8 * length news ≤ old)
    → classify old new olds news ≡ all_changed olds news
classify_disjoint old new olds news (inl h) = old_first old new olds news h
classify_disjoint old new olds news (inr h) = new_first old new olds news h
