-- ===== src/Msig/Late.antt =====
-- About contracts/flon.msig/src/flon.msig.cpp: what each action keeps of the delay of a proposal.
use flon_contracts.Base.{
  ℕ, ◌*◌, ◌+◌, ◌≤◌, ◌≡◌, ◌≢◌, ◌⊎◌, refl, subst, List, Option, none, some, Bool, ◌&&◌, ◌==◌,
  Option-cases, Result-cases, Bool-cases, inl, inr, arith, ok, Dict, lookup_in, insert_in, erase_in,
  lookup_in-insert_in, lookup_in-erase_in,
}
use flon_contracts.Chain.{Context}
use flon_contracts.Msig.{
  Bytes, Level, Proposal, MsigState, Host, TransactionHeader, get_approvals, trx_is_authorized,
  give_approval, take_back, propose, approve, unapprove, cancel, exec,
}
use flon_contracts.Msig.Exec.{exec_inv}

-- The three contents of `earliest_exec_time`.
pub data TimedCase (o : Option (Option ℕ)) : Type 0 where
  missing : o ≡ none → TimedCase o
  untimed_before : o ≡ some none → TimedCase o
  timed_before : (time : ℕ) → o ≡ some (some time) → TimedCase o

pub Timed-cases : (o : Option (Option ℕ)) → TimedCase o
Timed-cases none = missing refl
Timed-cases (some none) = untimed_before refl
Timed-cases (some (some time)) = timed_before time refl

module _ (host : Host) where
  -- The proposal is timed, if at all, at least its delay after the time `u`.
  abbrev pub Late : ℕ → Proposal → Type 0
  Late u p =
      (p.earliest_exec_time ≢ none)
      × ((h : TransactionHeader) (time : ℕ)
          → host.unpack_header p.packed_transaction ≡ ok h
          → p.earliest_exec_time ≡ some (some time)
          → u + h.delay_sec * 1000000 ≤ time)

  abbrev pub LateAt : ℕ → ℕ → ℕ → MsigState → Type 0
  LateAt u proposer name s =
      (p : Proposal) → lookup_in proposer name s.proposals ≡ some p → Late u p

  -- A row is written: the row in question, or another one.
  written :
      (u p n q j : ℕ) (v : Proposal) (d : Dict (Dict Proposal))
      → Late u v
      → ((r : Proposal) → lookup_in q j d ≡ some r → Late u r)
      → (r : Proposal) → lookup_in q j (insert_in p n v d) ≡ some r
      → Late u r
  written u p n q j v d new old r h = elim (Bool-cases (q == p && j == n)) [
    | inl e ↦
        let same : v ≡ r = ground (arith, lookup_in-insert_in p n q j v d) in
        subst (Late u) same new
    | inr e ↦ old r (ground (arith, lookup_in-insert_in p n q j v d))
  ]

  erased :
      (u p n q j : ℕ) (d : Dict (Dict Proposal))
      → ((r : Proposal) → lookup_in q j d ≡ some r → Late u r)
      → (r : Proposal) → lookup_in q j (erase_in p n d) ≡ some r
      → Late u r
  erased u p n q j d old r h = old r (ground (arith, lookup_in-erase_in p n q j d))

  untimed_Late : (u : ℕ) (p : Proposal) → p.earliest_exec_time ≡ some none → Late u p
  untimed_Late u p e = (λ f. ground arith, λ h time f g. ground arith)

  timed_Late :
      (u now : ℕ) (p : Proposal) (header : TransactionHeader)
      → u ≤ now
      → host.unpack_header p.packed_transaction ≡ ok header
      → p.earliest_exec_time ≡ some (some (now + header.delay_sec * 1000000))
      → Late u p
  timed_Late u now p header le e f = (λ g. ground arith, λ h time g k. ground arith)

  module _ (u q j : ℕ) where
    pub propose_late :
        (c : Context) (p n : ℕ) (requested : List Level) (trx : Bytes) (s t : MsigState)
        → propose host c p n requested trx s ≡ ok t
        → LateAt u q j s
        → LateAt u q j t
    unfolding propose
    propose_late c p n requested trx s t h old = elim (Result-cases (host.unpack_header trx)) [
      | inr (m, e) ↦ ground arith
      | inl (header, e) ↦ elim (Result-cases (host.unpack_context_free_actions trx)) [
        | inr (m, f) ↦ ground arith
        | inl (free, f) ↦
            let prop : Proposal = record {
              proposal_name = n;
              packed_transaction = trx;
              earliest_exec_time = some none;
            } in
            let same : t.proposals ≡ insert_in p n prop s.proposals = ground arith in
            rw same (written u p n q j prop s.proposals (untimed_Late u prop refl) old)
      ]
    ]

    give_kept :
        (c : Context) (p n : ℕ) (level : Level) (s t : MsigState)
        → give_approval host c p n level s ≡ ok t
        → t.proposals ≡ s.proposals
    unfolding give_approval
    give_kept c p n level s t h = ground arith

    pub approve_late :
        (auth : Level → Bool) (c : Context) (p n : ℕ) (level : Level) (hash : Option ℕ)
        (s t : MsigState)
        → u ≤ c.now
        → approve host auth c p n level hash s ≡ ok t
        → LateAt u q j s
        → LateAt u q j t
    unfolding approve
    approve_late auth c p n level hash s t le h old =
        elim (Option-cases (lookup_in p n s.proposals)) [
          | inl e ↦ ground arith
          | inr (prop, e) ↦ elim (Result-cases (give_approval host c p n level s)) [
            | inr (m, g) ↦ ground arith
            | inl (given, g) ↦ elim (Result-cases (host.unpack_header prop.packed_transaction)) [
              | inr (m, f) ↦ ground arith
              | inl (header, f) ↦
                  let kept = give_kept c p n level s given g in
                  let timed : Proposal = record prop {
                    earliest_exec_time = some (some (c.now + header.delay_sec * 1000000));
                  } in
                  let either : (t.proposals ≡ s.proposals)
                      ⊎ (t.proposals ≡ insert_in p n timed s.proposals) =
                    elim (Timed-cases prop.earliest_exec_time) [
                      | timed_before time e1 ↦ inl (ground arith)
                      | missing e1 ↦ inl (ground arith)
                      | untimed_before e1 ↦
                          elim (Bool-cases (
                            trx_is_authorized host (get_approvals p n given)
                              prop.packed_transaction)) [
                                | inl e2 ↦ inr (ground arith)
                                | inr e2 ↦ inl (ground arith)
                              ]
                    ] in
                  elim either [
                    | inl same ↦ rw same old
                    | inr same ↦ rw same (
                        written u p n q j timed s.proposals
                          (timed_Late u c.now timed header le f refl) old)
                  ]
            ]
          ]
        ]

    taken_kept :
        (c : Context) (p n : ℕ) (level : Level) (s t : MsigState)
        → take_back host c p n level s ≡ ok t
        → t.proposals ≡ s.proposals
    unfolding take_back
    taken_kept c p n level s t h = ground arith

    pub unapprove_late :
        (auth : Level → Bool) (c : Context) (p n : ℕ) (level : Level) (s t : MsigState)
        → unapprove host auth c p n level s ≡ ok t
        → LateAt u q j s
        → LateAt u q j t
    unfolding unapprove
    unapprove_late auth c p n level s t h old = elim (Option-cases (lookup_in p n s.proposals)) [
      | inl e ↦ elim (Result-cases (take_back host c p n level s)) [
        | inr (m, g) ↦ ground arith
        | inl (taken, g) ↦ ground (arith, taken_kept c p n level s taken g)
      ]
      | inr (prop, e) ↦ elim (Result-cases (take_back host c p n level s)) [
        | inr (m, g) ↦ ground arith
        | inl (taken, g) ↦
            let kept = taken_kept c p n level s taken g in
            let untimed : Proposal = record prop { earliest_exec_time = some none } in
            let either : (t.proposals ≡ s.proposals)
                ⊎ (t.proposals ≡ insert_in p n untimed s.proposals) =
              elim (Timed-cases prop.earliest_exec_time) [
                | untimed_before e1 ↦ inl (ground arith)
                | missing e1 ↦ inl (ground arith)
                | timed_before time e1 ↦
                    elim (Bool-cases
                      (trx_is_authorized host (get_approvals p n taken) prop.packed_transaction)) [
                        | inl e2 ↦ inl (ground arith)
                        | inr e2 ↦ inr (ground arith)
                      ]
              ] in
            elim either [
              | inl same ↦ rw same old
              | inr same ↦
                  rw same (written u p n q j untimed s.proposals (untimed_Late u untimed refl) old)
            ]
      ]
    ]

    pub cancel_late :
        (c : Context) (p n canceler : ℕ) (s t : MsigState)
        → cancel host c p n canceler s ≡ ok t
        → LateAt u q j s
        → LateAt u q j t
    unfolding cancel
    cancel_late c p n canceler s t h old =
        let same : t.proposals ≡ erase_in p n s.proposals = ground arith in
        rw same (erased u p n q j s.proposals old)

    pub exec_late :
        (c : Context) (p n executer : ℕ) (s t : MsigState)
        → exec host c p n executer s ≡ ok t
        → LateAt u q j s
        → LateAt u q j t
    exec_late c p n executer s t h old =
        let x = exec_inv host c p n executer s t h in rw (x.done) (erased u p n q j s.proposals old)
