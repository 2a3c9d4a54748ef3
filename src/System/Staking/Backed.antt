-- ===== src/System/Staking/Backed.antt =====
-- About contracts/flon.system/src/voting.cpp with contracts/flon.token: the stakes and the refunds
-- against the balance of the account of the votes.
use flon_contracts.Base.{
  ℕ, ◌≡◌, refl, sym, subst, ap, ◌∙◌, [], ◌∷◌, some, String, ok, pos, ℤ, ◌+ℤ◌, ◌-ℤ◌, ◌≤ℤ◌, Dict,
  lookup, insert, erase, lookup_or, sum_by, sum_by-insert, sum_by-erase, Unique, insert-Unique,
  erase-Unique, AllRows, AllRows-insert, AllRows-erase, AllRows-lookup_or, List, List, int_laws,
  arith, Result-cases, inl, inr,
}
use flon_contracts.Chain.{asset, Asset, AssetOps, Context}
use flon_contracts.Token.{TokenState, transfer}
use flon_contracts.Token.Balances.{balance}
use flon_contracts.Token.Transfers.{transfer_moves}
use flon_contracts.Token.Others.{transfer_auth}
use flon_contracts.System.Voting.{
  VotingState, VoteRefund, Inline, vote_account, refund_delay_sec, addvote, subvote, voterefund,
  voteproducer,
}
use flon_contracts.System.Voting.Elected.{blank_voter}
use flon_contracts.System.Staking.{pay}
use flon_contracts.System.Staking.Effects.{staked, before, addvote-Added}
use flon_contracts.System.Staking.Returns.{subvote-Removed, voterefund-Repaid, voteproducer-Revoted}
use flon_contracts.System.Staking.Summed.{
  Positive, Summed, before-Positive, Moved-Summed, emptied, unchanged,
}

abbrev pub owed : VoteRefund → ℤ
owed r = r.vote_staked.amount

abbrev pub InCode : ℕ → VoteRefund → Type 0
InCode code r = r.vote_staked.symbol.code ≡ code

-- The stakes and the refunds, which are one for each key, are covered by the balance of the account
-- of the votes; nothing is left to be sent.
pub record Backed (code : ℕ) (s : VotingState) (k : TokenState) : Type 0 where
  pub summed : Summed code s
  pub idle : s.sent ≡ []
  pub unique : Unique s.refunds
  pub denominated : AllRows (InCode code) s.refunds
  pub funds : s.total_vote_stake.amount +ℤ sum_by owed s.refunds ≤ℤ balance vote_account code k

more : (x' q x y z r : ℤ) → x' ≡ x +ℤ q → x +ℤ r ≤ℤ y → z ≡ y +ℤ q → x' +ℤ r ≤ℤ z
more x' q x y z r e h f = grind (int_laws, e, h, f)

moved_over :
    (x' q x y r r' : ℤ)
    → x' ≡ x +ℤ (pos 0 -ℤ q)
    → r' +ℤ pos 0 ≡ r +ℤ q
    → x +ℤ r ≤ℤ y
    → x' +ℤ r' ≤ℤ y
moved_over x' q x y r r' e f h = grind (int_laws, e, f, h)

less : (q x y z r r' : ℤ) → r' +ℤ q ≡ r → x +ℤ r ≤ℤ y → z ≡ y -ℤ q → x +ℤ r' ≤ℤ z
less q x y z r r' e h f = grind (int_laws, e, h, f)

abbrev no_refund : VoteRefund
no_refund = record {
  owner = 0;
  request_time = 0;
  vote_staked = asset (pos 0) (record { code = 0; precision = 0 });
}

found_code :
    (code owner : ℕ) (refunds : Dict VoteRefund) (r : VoteRefund)
    → lookup owner refunds ≡ some r
    → AllRows (InCode code) refunds
    → InCode code r
found_code code owner refunds r e h =
    let blank : VoteRefund = record no_refund {
      vote_staked = asset (pos 0) (record { code = code; precision = 0 });
    } in
    let there : lookup_or blank owner refunds ≡ r = rw (e, lookup_or) refl in
    subst (InCode code) there (AllRows-lookup_or (InCode code) blank owner refunds refl h)

module _ ⦃ops : AssetOps⦄ where
  pay_added :
      (d : Context) (memo : String) (voter : ℕ) (q : Asset) (x : ℤ) (s k : TokenState)
      → pay d memo
          (Inline.token_transfer voter vote_account q ∷ Inline.reward_addvote voter x ∷ [])
          s
        ≡ ok k
      → transfer d voter vote_account q memo s ≡ ok k
  unfolding pay
  pay_added d memo voter q x s k h = elim (Result-cases (transfer d voter vote_account q memo s)) [
    | inl (t, e) ↦ ground (arith, e)
    | inr (m, e) ↦ ground (arith, e)
  ]

  pay_repaid :
      (d : Context) (memo : String) (owner : ℕ) (q : Asset) (s k : TokenState)
      → pay d memo (Inline.token_transfer vote_account owner q ∷ []) s ≡ ok k
      → transfer d vote_account owner q memo s ≡ ok k
  unfolding pay
  pay_repaid d memo owner q s k h = elim (Result-cases (transfer d vote_account owner q memo s)) [
    | inl (t, e) ↦ ground (arith, e)
    | inr (m, e) ↦ ground (arith, e)
  ]

  pay_removed :
      (d : Context) (memo : String) (voter delay : ℕ) (x : ℤ) (s k : TokenState)
      → pay d memo (Inline.reward_subvote voter x ∷ Inline.deferred_voterefund voter delay ∷ []) s
        ≡ ok k
      → s ≡ k
  unfolding pay
  pay_removed d memo voter delay x s k h = ground arith

  pay_revoted :
      (d : Context) (memo : String) (voter : ℕ) (producers : List ℕ) (s k : TokenState)
      → pay d memo (Inline.reward_voteproducer voter producers ∷ []) s ≡ ok k
      → s ≡ k
  unfolding pay
  pay_revoted d memo voter producers s k h = ground arith

  pub addvote-Backed :
      (code : ℕ) (c d : Context) (voter : ℕ) (q : Asset) (memo : String) (s t : VotingState)
      (j k : TokenState)
      → Backed code s j
      → addvote c voter q s ≡ ok t
      → pay d memo t.sent j ≡ ok k
      → Backed code (record t { sent = [] }) k
  addvote-Backed code c d voter q memo s t j k v h p =
      let a = addvote-Added c voter q s t h in
      let sent : t.sent
          ≡ Inline.token_transfer voter vote_account q ∷ Inline.reward_addvote voter q.amount ∷ [] =
        rw v.idle at a.sent in
      let paid = pay_added d memo voter q q.amount j k (rw sent at p) in
      let (_, _, credit, _, _) = transfer_moves d voter vote_account q memo j k paid in
      let (_, valid) = transfer_auth d voter vote_account q memo j k paid in
      let here : q.symbol.code ≡ code = a.q_code ∙ v.summed.in_code in
      record {
        summed = emptied code t (
            Moved-Summed code voter q.amount s t a.moved (a.in_range (ops.is_valid_range q valid))
              v.summed);
        idle = refl;
        unique = rw a.refunds v.unique;
        denominated = rw a.refunds v.denominated;
        funds = rw a.refunds (
            more t.total_vote_stake.amount q.amount s.total_vote_stake.amount
              (balance vote_account code j) (balance vote_account code k) (sum_by owed s.refunds)
              a.moved.total v.funds (rw here at credit));
      }

  pub subvote-Backed :
      (code : ℕ) (c d : Context) (voter : ℕ) (q : Asset) (memo : String) (s t : VotingState)
      (j k : TokenState)
      → Backed code s j
      → subvote c voter q s ≡ ok t
      → pay d memo t.sent j ≡ ok k
      → Backed code (record t { sent = [] }) k
  subvote-Backed code c d voter q memo s t j k v h p =
      let r = subvote-Removed c voter q s t h in
      let sent : t.sent
          ≡ Inline.reward_subvote voter q.amount
            ∷ Inline.deferred_voterefund voter refund_delay_sec
            ∷ [] =
        rw v.idle at r.sent in
      let same = pay_removed d memo voter refund_delay_sec q.amount j k (rw sent at p) in
      let sum = sum_by-insert owed no_refund voter r.refund s.refunds refl in
      let nothing : owed (lookup_or no_refund voter s.refunds) ≡ pos 0 =
        rw (r.absent, owed, lookup_or) refl in
      let amount : owed r.refund ≡ q.amount = ap (λ y. y.amount) r.refunded in
      let here : InCode code r.refund =
        ap (λ y. y.symbol.code) r.refunded ∙ r.q_code ∙ v.summed.in_code in
      subst (Backed code (record t { sent = [] })) same (record {
        summed =
            emptied code t
              (Moved-Summed code voter (pos 0 -ℤ q.amount) s t r.moved r.in_range v.summed);
        idle = refl;
        unique = rw r.refunds (insert-Unique voter r.refund s.refunds v.unique);
        denominated =
            rw r.refunds (AllRows-insert (InCode code) voter r.refund s.refunds here v.denominated);
        funds = rw r.refunds (
            moved_over t.total_vote_stake.amount q.amount s.total_vote_stake.amount
              (balance vote_account code j) (sum_by owed s.refunds)
              (sum_by owed (insert voter r.refund s.refunds)) r.moved.total
              (rw (nothing, amount) at sum) v.funds);
      })

  pub voterefund-Backed :
      (code : ℕ) (c d : Context) (owner : ℕ) (memo : String) (s t : VotingState) (j k : TokenState)
      → Backed code s j
      → voterefund c owner s ≡ ok t
      → pay d memo t.sent j ≡ ok k
      → Backed code (record t { sent = [] }) k
  voterefund-Backed code c d owner memo s t j k v h p =
      let r = voterefund-Repaid c owner s t h in
      let q = r.row.vote_staked in
      let sent : t.sent ≡ Inline.token_transfer vote_account r.row.owner q ∷ [] =
        rw v.idle at r.sent in
      let paid = pay_repaid d memo r.row.owner q j k (rw sent at p) in
      let (_, debit, _, _, _) = transfer_moves d vote_account r.row.owner q memo j k paid in
      let there : lookup_or no_refund owner s.refunds ≡ r.row = rw (r.found, lookup_or) refl in
      let here = found_code code owner s.refunds r.row r.found v.denominated in
      let sum = rw there at (sum_by-erase owed no_refund owner s.refunds refl v.unique) in
      record {
        summed = record {
          in_code = rw r.total v.summed.in_code;
          total = rw (r.total, r.voters) v.summed.total;
          positive = rw r.voters v.summed.positive;
        };
        idle = refl;
        unique = rw r.refunds (erase-Unique owner s.refunds v.unique);
        denominated = rw r.refunds (AllRows-erase (InCode code) owner s.refunds v.denominated);
        funds =
            rw (r.total, r.refunds)
              (less q.amount s.total_vote_stake.amount (balance vote_account code j)
                (balance vote_account code k) (sum_by owed s.refunds)
                (sum_by owed (erase owner s.refunds)) sum v.funds (rw here at debit));
      }

  pub voteproducer-Backed :
      (code : ℕ) (c d : Context) (old new voter : ℕ) (producers : List ℕ) (memo : String)
      (s t : VotingState) (j k : TokenState)
      → Backed code s j
      → voteproducer c old new voter producers s ≡ ok t
      → pay d memo t.sent j ≡ ok k
      → Backed code (record t { sent = [] }) k
  voteproducer-Backed code c d old new voter producers memo s t j k v h p =
      let r = voteproducer-Revoted c old new voter producers s t h in
      let sent : t.sent ≡ Inline.reward_voteproducer voter producers ∷ [] = rw v.idle at r.sent in
      let same = pay_revoted d memo voter producers j k (rw sent at p) in
      let sum = sum_by-insert staked (blank_voter voter) voter r.row s.voters refl in
      subst (Backed code (record t { sent = [] })) same (record {
        summed = record {
          in_code = rw r.total v.summed.in_code;
          total =
              rw (r.total, r.voters)
                (v.summed.total
                  ∙ sym (
                      unchanged (sum_by staked (insert voter r.row s.voters)) (before voter s).votes
                        (sum_by staked s.voters) r.row.votes r.votes sum));
          positive = rw r.voters (
              AllRows-insert Positive voter r.row s.voters
                (rw r.votes (before-Positive code voter s v.summed)) v.summed.positive);
        };
        idle = refl;
        unique = rw r.refunds v.unique;
        denominated = rw r.refunds v.denominated;
        funds = rw (r.total, r.refunds) v.funds;
      })
