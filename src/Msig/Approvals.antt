-- ===== src/Msig/Approvals.antt =====
-- About `approve` and `unapprove` of contracts/flon.msig/src/flon.msig.cpp: who has approved and who
-- has not.
use flon_contracts.Base.{
  ◌++◌, lookup-insert, ℕ, ◌+◌, ◌≤◌, ◌≡◌, ◌≢◌, refl, sym, ap, subst, ◌∙◌, List, [], ◌∷◌, Option,
  none, some, Bool, ltb, if◌then◌else◌, Option-cases, Result-cases, Bool-cases, inl, inr, arith, ok,
  Dict, lookup, insert, lookup_in, insert_in, lookup_in-insert_in_self,
}
use flon_contracts.Chain.{Context}
use flon_contracts.Msig.{
  Level, level_eq, Approval, ApprovalsInfo, MsigState, Host, take_level, valid_levels,
  get_approvals, give_approval, take_back, approve, unapprove, invalidate, Invalidation,
}

-- How often a level stands in a list of approvals.
abbrev pub count : Level → List Approval → ℕ
count k [] = 0
count k (a ∷ rest) = (if level_eq a.level k then 1 else 0) + count k rest

take_level-count :
    (l k : Level) (xs ys : List Approval)
    → take_level l xs ≡ some ys
    → count k xs ≡ (if level_eq l k then 1 else 0) + count k ys
unfolding take_level
take_level-count l k [] ys h = ground arith
take_level-count l k (a ∷ xs) ys h = elim (Option-cases (take_level l xs)) [
  | inl e ↦ ground arith
  | inr (zs, e) ↦ ground (arith, take_level-count l k xs zs e)
]

count-++ :
    (k : Level) (xs : List Approval) (a : Approval)
    → count k (xs ++ a ∷ []) ≡ count k xs + count k (a ∷ [])
count-++ k [] a = omega arith
count-++ k (x ∷ xs) a = omega (arith, count-++ k xs a)

-- The row of approvals after a level has approved.
abbrev given_row : ApprovalsInfo → Level → ℕ → List Approval → ApprovalsInfo
given_row row level time requested = record row {
  requested_approvals = requested;
  provided_approvals = row.provided_approvals ++ record { level = level; time = time } ∷ [];
}

abbrev taken_row : ApprovalsInfo → Level → ℕ → List Approval → ApprovalsInfo
taken_row row level time provided = record row {
  requested_approvals = row.requested_approvals ++ record { level = level; time = time } ∷ [];
  provided_approvals = provided;
}

module _ (host : Host) (has_level : Level → Bool) (c : Context) (proposer name : ℕ)
    (level : Level) where
  give_inv :
      (s t : MsigState) (row : ApprovalsInfo)
      → lookup_in proposer name s.approvals ≡ some row
      → give_approval host c proposer name level s ≡ ok t
      → (requested : List Approval) × (take_level level row.requested_approvals ≡ some requested)
        × (t ≡ record s {
          approvals = insert_in proposer name (given_row row level c.now requested) s.approvals;
        })
  unfolding give_approval
  give_inv s t row e h = elim (Option-cases (take_level level row.requested_approvals)) [
    | inl f ↦ ground arith
    | inr (requested, f) ↦ (requested, f, ground arith)
  ]

  pub approve_inv :
      (hash : Option ℕ) (s t : MsigState) (row : ApprovalsInfo)
      → lookup_in proposer name s.approvals ≡ some row
      → approve host has_level c proposer name level hash s ≡ ok t
      → (requested : List Approval) × (take_level level row.requested_approvals ≡ some requested)
        × (lookup_in proposer name t.approvals ≡ some (given_row row level c.now requested))
  unfolding approve
  approve_inv hash s t row e h = elim (Option-cases (lookup_in proposer name s.proposals)) [
    | inl none_there ↦ ground arith
    | inr (prop, p) ↦ elim (Result-cases (give_approval host c proposer name level s)) [
      | inr (m, g) ↦ ground arith
      | inl (given, g) ↦
          let (requested, f, done) = give_inv s given row e g in
          let same : t.approvals ≡ given.approvals = ground arith in
          (
            requested,
            f,
            rw same (
                rw done (
                  lookup_in-insert_in_self proposer name (given_row row level c.now requested)
                    s.approvals)),
          )
    ]
  ]

  pub unapprove_inv :
      (s t : MsigState) (row : ApprovalsInfo)
      → lookup_in proposer name s.approvals ≡ some row
      → unapprove host has_level c proposer name level s ≡ ok t
      → (provided : List Approval) × (take_level level row.provided_approvals ≡ some provided)
        × (lookup_in proposer name t.approvals ≡ some (taken_row row level c.now provided))
  unfolding unapprove take_back
  unapprove_inv s t row e h = elim (Option-cases (take_level level row.provided_approvals)) [
    | inl f ↦ ground arith
    | inr (provided, f) ↦
        let written : t.approvals
            ≡ insert_in proposer name (taken_row row level c.now provided) s.approvals =
          ground arith in
        (
          provided,
          f,
          rw written (
              lookup_in-insert_in_self proposer name (taken_row row level c.now provided)
                s.approvals),
        )
  ]

-- Both lists together hold every level as often as before.
abbrev pub SameLevels : ApprovalsInfo → ApprovalsInfo → Type 0
SameLevels row row' =
    (k : Level)
    → count k row'.requested_approvals + count k row'.provided_approvals
      ≡ count k row.requested_approvals + count k row.provided_approvals

module _ (host : Host) (has_level : Level → Bool) (c d : Context) (proposer name : ℕ)
    (level : Level) where
  -- A successful `approve` moves one approval of the level from the requested to the provided ones,
  -- with the current time, and loses and adds none; a `unapprove` of the same level after it, when it
  -- succeeds, makes every level as often requested and as often provided as before the `approve`.
  pub unapprove-approve :
      (hash : Option ℕ) (s t u : MsigState) (row : ApprovalsInfo)
      → lookup_in proposer name s.approvals ≡ some row
      → approve host has_level c proposer name level hash s ≡ ok t
      → unapprove host has_level d proposer name level t ≡ ok u
      → (given : ApprovalsInfo) × (taken : ApprovalsInfo) × (lookup_in proposer name t.approvals
          ≡ some given)
        × (lookup_in proposer name u.approvals ≡ some taken)
        × (given.provided_approvals
            ≡ row.provided_approvals ++ record { level = level; time = c.now } ∷ [])
        × SameLevels row given
        × ((k : Level) → count k taken.requested_approvals ≡ count k row.requested_approvals)
        × ((k : Level) → count k taken.provided_approvals ≡ count k row.provided_approvals)
  unapprove-approve hash s t u row e h g =
      let (requested, f, there) =
        approve_inv host has_level c proposer name level hash s t row e h in
      let given = given_row row level c.now requested in
      let (provided, f', there') =
        unapprove_inv host has_level d proposer name level t u given there g in
      let taken = taken_row given level d.now provided in
      (
        given,
        taken,
        there,
        there',
        refl,
        λ k. omega (
          arith,
          take_level-count level k row.requested_approvals requested f,
          count-++ k row.provided_approvals (record { level = level; time = c.now }),
        ),
        λ k. omega (
          arith,
          take_level-count level k row.requested_approvals requested f,
          count-++ k requested (record { level = level; time = d.now }),
        ),
        λ k. omega (
          arith,
          take_level-count level k given.provided_approvals provided f',
          count-++ k row.provided_approvals (record { level = level; time = c.now }),
        ),
      )

-- No level of the account is in the list.
abbrev pub NoActor : ℕ → List Level → Type 0
NoActor a [] = Unit {0}
NoActor a (l ∷ ls) = (l.actor ≢ a) × NoActor a ls

-- All approvals were given by the time.
abbrev pub GivenBy : ℕ → List Approval → Type 0
GivenBy time [] = Unit {0}
GivenBy time (a ∷ rest) = (a.time ≤ time) × GivenBy time rest

valid_levels-NoActor :
    (account time : ℕ) (inv : Dict Invalidation) (xs : List Approval)
    → GivenBy time xs
    → lookup account inv ≡ some (record { account = account; last_invalidation_time = time })
    → NoActor account (valid_levels inv xs)
unfolding valid_levels
valid_levels-NoActor account time inv [] g e = tt
valid_levels-NoActor account time inv (a ∷ rest) g e =
    let more = valid_levels-NoActor account time inv rest g.1 e in
    elim (Option-cases (lookup a.level.actor inv)) [
      | inl f ↦
          let apart : a.level.actor ≢ account = λ same. clash none same f (ground arith) in
          let kept : valid_levels inv (a ∷ rest) ≡ a.level ∷ valid_levels inv rest = ground arith in
          subst (NoActor account) (sym kept) (apart, more)
      | inr (i, f) ↦ elim (Bool-cases (ltb i.last_invalidation_time a.time)) [
        | inr late ↦
            let kept : valid_levels inv (a ∷ rest) ≡ valid_levels inv rest = ground arith in
            subst (NoActor account) (sym kept) more
        | inl early ↦
            let apart : a.level.actor ≢ account =
              λ same. clash (some i) same f (ground (arith, g.0)) in
            let kept : valid_levels inv (a ∷ rest) ≡ a.level ∷ valid_levels inv rest =
              ground arith in
            subst (NoActor account) (sym kept) (apart, more)
      ]
    ]
  where
    clash :
        (o : Option Invalidation)
        → a.level.actor ≡ account
        → lookup a.level.actor inv ≡ o
        → o ≢ some (record { account = account; last_invalidation_time = time })
        → ⊥
    clash o same f ne = ne (sym f ∙ ap (λ k. lookup k inv) same ∙ e)

-- After an account has invalidated itself, no proposal counts an approval by it that was given
-- before or at that time.
pub invalidate-get_approvals :
    (c : Context) (account proposer name : ℕ) (s t : MsigState) (row : ApprovalsInfo)
    → invalidate c account s ≡ ok t
    → lookup_in proposer name s.approvals ≡ some row
    → GivenBy c.now row.provided_approvals
    → NoActor account (get_approvals proposer name t)
unfolding invalidate get_approvals
invalidate-get_approvals c account proposer name s t row h e g =
    let i : Invalidation = record { account = account; last_invalidation_time = c.now } in
    let written : t ≡ record s { invalidations = insert account i s.invalidations } =
      ground arith in
    let found : lookup account (insert account i s.invalidations) ≡ some i =
      ground (arith, lookup-insert account account i s.invalidations) in
    let read : get_approvals proposer name t
        ≡ valid_levels (insert account i s.invalidations) row.provided_approvals =
      ground (arith, written, e) in
    subst (NoActor account) (sym read) (
      valid_levels-NoActor account c.now (insert account i s.invalidations) row.provided_approvals g
        found)
