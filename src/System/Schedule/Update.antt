-- ===== src/System/Schedule/Update.antt =====
-- About `update_elected_producers` of contracts/flon.system/src/voting.cpp.
use flon_contracts.Base.{
  ap, ℕ, ◌≤◌, ◌≡◌, ◌⊎◌, refl, Bool, ◌||◌, List, [], ◌∷◌, ◌++◌, map, Option, ltb, ◌==◌, Dict, size,
  All, Sorted, sort_by, sort_by-Sorted, All-sort_by, sort_by-All, count_of, count_of-sort_by,
  size-sort_by, arith, Bool-cases, Option-cases, inl, inr,
}
use flon_contracts.System.Voting.{ProducerInfo}
use flon_contracts.System.Finalizers.{is_savanna_consensus}
use flon_contracts.System.Schedule.{
  by_votes, TopProducer, top_producer, select, prototalvote, ScheduleState,
  update_elected_producers,
}
use flon_contracts.System.Schedule.Top.{VotesFit, Best, select-Best}

abbrev pub rows : Dict ProducerInfo → List ProducerInfo
rows table = map (λ r. r.1) table

-- A schedule of the best producers has been proposed.
pub record Scheduled (s t : ScheduleState) : Type 0 where
  pub producers : List TopProducer
  pub proposed : t.schedules ≡ s.schedules ++ producers ∷ []
  pub by_name : Sorted (λ p. p.producer_name) producers
  pub nonempty : 1 ≤ size producers
  pub top : List TopProducer
  pub best : Best (is_savanna_consensus s.finality) s.finality.finalizers 21 (rows s.producers) top
  pub same : (p : TopProducer → Bool) → count_of p producers ≡ count_of p top
  pub no_fewer : s.last_producer_schedule_size ≤ size producers
  pub no_more : size producers ≤ 21
  pub new_size :
      (t.last_producer_schedule_size ≡ s.last_producer_schedule_size)
      ⊎ (t.last_producer_schedule_size ≡ size producers)

select-rows :
    (s : ScheduleState)
    → All VotesFit (rows s.producers)
    → Best
        (is_savanna_consensus s.finality)
        s.finality.finalizers
        21
        (rows s.producers)
        (select
          (is_savanna_consensus s.finality)
          s.finality.finalizers
          21
          (prototalvote s.producers)).top_producers
unfolding prototalvote
select-rows s fit =
    let ps = rows s.producers in
    let by_owner = sort_by (λ (p : ProducerInfo). p.owner) ps in
    let r =
      select-Best (is_savanna_consensus s.finality) s.finality.finalizers 21
        (sort_by by_votes by_owner) (sort_by-Sorted by_votes by_owner)
        (All-sort_by VotesFit by_votes by_owner (All-sort_by VotesFit (λ p. p.owner) ps fit)) in
    record {
      chosen = r.chosen;
      same = r.same;
      number = r.number;
      good = r.good;
      best = sort_by-All _ (λ p. p.owner) ps (sort_by-All _ by_votes by_owner r.best);
    }

size-map : (ps : List ProducerInfo) → size (map top_producer ps) ≡ size ps
size-map [] = refl
size-map (p ∷ ps) = ground (arith, size-map ps)

-- Either the schedule stays as it was, or one is proposed, in the order of the names, of at least one
-- producer and at most 21, no fewer than in the last one: those with the most votes among the active
-- producers that have votes and, under Savanna, an active finalizer key.
pub update_elected_producers-Scheduled :
    (set_proposed_producers : List TopProducer → Option ℕ) (time : ℕ) (s : ScheduleState)
    → All VotesFit (rows s.producers)
    → (update_elected_producers set_proposed_producers time s
        ≡ record s { last_producer_schedule_update = time })
      ⊎ Scheduled s (update_elected_producers set_proposed_producers time s)
unfolding update_elected_producers
update_elected_producers-Scheduled host time s fit =
    let b = select-rows s fit in
    let top =
      (select (is_savanna_consensus s.finality) s.finality.finalizers 21
        (prototalvote s.producers)).top_producers in
    let n = size top in
    let small : n ≤ 21 = omega (arith, b.number, ap size b.same, size-map b.chosen) in
    let m = size-sort_by (λ t. t.producer_name) top in
    elim (Bool-cases (n == 0 || ltb n s.last_producer_schedule_size)) [
      | inl e ↦ inl (rw e refl)
      | inr e ↦ inr (
          rw e record {
            producers = sort_by (λ t. t.producer_name) top;
            proposed = refl;
            by_name = sort_by-Sorted (λ t. t.producer_name) top;
            nonempty = ground (arith, m, e);
            top = top;
            best = b;
            same = λ p. count_of-sort_by p (λ t. t.producer_name) top;
            no_fewer = ground (arith, m, e);
            no_more = omega (arith, m, small);
            new_size = elim (Option-cases (host (sort_by (λ t. t.producer_name) top))) [
              | inl none_taken ↦ inl (rw none_taken refl)
              | inr (version, taken) ↦ inr (rw taken (omega (arith, m, small)))
            ];
          })
    ]
