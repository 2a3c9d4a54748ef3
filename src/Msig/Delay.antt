-- ===== src/Msig/Delay.antt =====
-- Histories of the actions of contracts/flon.msig/src/flon.msig.cpp, and the delay of a transaction.
use flon_contracts.Base.{
  ℕ, ◌*◌, ◌+◌, ◌≤◌, ◌≡◌, ◌≢◌, List, [], ◌∷◌, Option, some, Bool, Result-cases, inl, inr, arith,
  Result, ok, err, lookup_in,
}
use flon_contracts.Chain.{Context}
use flon_contracts.Msig.{
  Bytes, Level, Proposal, MsigState, Host, TransactionHeader, propose, approve, unapprove, cancel,
  exec, invalidate,
}
use flon_contracts.Msig.Exec.{exec_inv}
use flon_contracts.Msig.Late.{
  LateAt, missing, untimed_before, timed_before, Timed-cases, propose_late, approve_late,
  unapprove_late, cancel_late, exec_late,
}

pub data Action : Type 0 where
  proposes : ℕ → ℕ → List Level → Bytes → Action
  approves : ℕ → ℕ → Level → Option ℕ → Action
  unapproves : ℕ → ℕ → Level → Action
  cancels : ℕ → ℕ → ℕ → Action
  execs : ℕ → ℕ → ℕ → Action
  invalidates : ℕ → Action

-- Every action of the history is made at `u` or later.
abbrev pub NotBefore : ℕ → List ((Level → Bool) × Context × Action) → Type 0
NotBefore u [] = Unit {0}
NotBefore u ((auth, c, a) ∷ rest) = (u ≤ c.now) × NotBefore u rest

abbrev after : MsigState → Result MsigState → MsigState
after s (ok t) = t
after s (err e) = s

module _ (host : Host) where
  unfoldable pub apply : (Level → Bool) → Context → Action → MsigState → Result MsigState
  apply auth c (proposes p n requested trx) s = propose host c p n requested trx s
  apply auth c (approves p n level hash) s = approve host auth c p n level hash s
  apply auth c (unapproves p n level) s = unapprove host auth c p n level s
  apply auth c (cancels p n canceler) s = cancel host c p n canceler s
  apply auth c (execs p n executer) s = exec host c p n executer s
  apply auth c (invalidates account) s = invalidate c account s

  unfoldable pub run : List ((Level → Bool) × Context × Action) → MsigState → MsigState
  run [] s = s
  run ((auth, c, a) ∷ rest) s = run rest (after s (apply auth c a s))

  module _ (u q j : ℕ) where
    apply_late :
        (auth : Level → Bool) (c : Context) (a : Action) (s t : MsigState)
        → u ≤ c.now
        → apply auth c a s ≡ ok t
        → LateAt host u q j s
        → LateAt host u q j t
    unfolding apply invalidate
    apply_late auth c (proposes p n requested trx) s t le h old =
        propose_late host u q j c p n requested trx s t h old
    apply_late auth c (approves p n level hash) s t le h old =
        approve_late host u q j auth c p n level hash s t le h old
    apply_late auth c (unapproves p n level) s t le h old =
        unapprove_late host u q j auth c p n level s t h old
    apply_late auth c (cancels p n canceler) s t le h old =
        cancel_late host u q j c p n canceler s t h old
    apply_late auth c (execs p n executer) s t le h old =
        exec_late host u q j c p n executer s t h old
    apply_late auth c (invalidates account) s t le h old =
        let same : t.proposals ≡ s.proposals = ground arith in rw same old

    run_late :
        (history : List ((Level → Bool) × Context × Action)) (s : MsigState)
        → NotBefore u history
        → LateAt host u q j s
        → LateAt host u q j (run history s)
    unfolding run
    run_late [] s later old = old
    run_late ((auth, c, a) ∷ rest) s later old = elim (Result-cases (apply auth c a s)) [
      | inr (m, e) ↦ rw (e, run) (run_late rest s later.1 old)
      | inl (t, e) ↦ rw (e, run) (run_late rest t later.1 (apply_late auth c a s t later.0 e old))
    ]

  propose_fresh :
      (c : Context) (p n : ℕ) (requested : List Level) (trx : Bytes) (s t : MsigState)
      (r : Proposal)
      → propose host c p n requested trx s ≡ ok t
      → lookup_in p n s.proposals ≢ some r
  unfolding propose
  propose_fresh c p n requested trx s t r h e = elim (Result-cases (host.unpack_header trx)) [
    | inr (m, f) ↦ ground arith
    | inl (header, f) ↦ elim (Result-cases (host.unpack_context_free_actions trx)) [
      | inr (m, g) ↦ ground arith
      | inl (free, g) ↦ ground arith
    ]
  ]

  -- A transaction that has been proposed is executed no earlier than its delay after the proposal,
  -- whatever actions of the contract come between, if no action is made before the proposal. (The
  -- transaction executed is the one that stands under the name at the time.)
  pub propose-exec :
      (c d : Context) (p n executer : ℕ) (requested : List Level) (trx : Bytes)
      (history : List ((Level → Bool) × Context × Action)) (s s' t : MsigState)
      → propose host c p n requested trx s ≡ ok s'
      → NotBefore c.now history
      → c.now ≤ d.now
      → exec host d p n executer (run history s') ≡ ok t
      → (prop : Proposal) × (header : TransactionHeader) × (lookup_in p n (run history s').proposals
          ≡ some prop)
        × (host.unpack_header prop.packed_transaction ≡ ok header)
        × (c.now + header.delay_sec * 1000000 ≤ d.now)
  propose-exec c d p n executer requested trx history s s' t h later le e =
      let fresh : LateAt host c.now p n s =
        λ r f. absurd (propose_fresh c p n requested trx s s' r h f) in
      let x = exec_inv host d p n executer (run history s') t e in
      let (present, bound) =
        run_late c.now p n history s' later
          (propose_late host c.now p n c p n requested trx s s' h fresh) x.prop x.found in
      let in_time : c.now + x.header.delay_sec * 1000000 ≤ d.now =
        elim (Timed-cases x.prop.earliest_exec_time) [
          | missing f ↦ absurd (present f)
          | untimed_before f ↦ ground (arith, x.untimed f)
          | timed_before time f ↦ omega (arith, bound x.header time x.has_header f, x.timed time f)
        ] in
      (x.prop, x.header, x.found, x.has_header, in_time)
