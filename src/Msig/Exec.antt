-- ===== src/Msig/Exec.antt =====
-- About `exec` of contracts/flon.msig/src/flon.msig.cpp.
use flon_contracts.Base.{
  ◌++◌, ℕ, ◌≤◌, ◌≡◌, ◌≢◌, ap, List, none, some, true, not, ◌&&◌, leb_ℤ, Option-cases, Result-cases,
  inl, inr, ℤ, pos, arith, ok, lookup_in, erase_in, lookup_in-erase_in_self,
}
use flon_contracts.Chain.{Context}
use flon_contracts.Msig.{Proposal, MsigState, Host, TransactionHeader, get_approvals, exec}

module _ (host : Host) where
  -- What a successful `exec` has checked and done.
  pub record Executed (c : Context) (proposer name : ℕ) (s t : MsigState) : Type 0 where
    pub prop : Proposal
    pub header : TransactionHeader
    pub actions : List ℕ
    pub found : lookup_in proposer name s.proposals ≡ some prop
    pub has_header : host.unpack_header prop.packed_transaction ≡ ok header
    pub has_actions : host.unpack_actions prop.packed_transaction ≡ ok actions
    pub in_time : c.now_sec ≤ header.expiration
    pub authorized :
        host.check_authorization prop.packed_transaction (get_approvals proposer name s) ≢ pos 0
    pub timed : (time : ℕ) → prop.earliest_exec_time ≡ some (some time) → time ≤ c.now
    pub untimed : prop.earliest_exec_time ≡ some none → header.delay_sec ≡ 0
    pub done : t ≡ record s {
      proposals = erase_in proposer name s.proposals;
      approvals = erase_in proposer name s.approvals;
      sent = s.sent ++ actions;
    }

  nonzero : (x : ℤ) → not (leb_ℤ x (pos 0) && leb_ℤ (pos 0) x) ≡ true → x ≢ pos 0
  nonzero x h e = ground arith

  pub exec_inv :
      (c : Context) (proposer name executer : ℕ) (s t : MsigState)
      → exec host c proposer name executer s ≡ ok t
      → Executed c proposer name s t
  unfolding exec
  exec_inv c proposer name executer s t h =
      elim (Option-cases (lookup_in proposer name s.proposals)) [
        | inl e ↦ ground arith
        | inr (prop, e) ↦ elim (Result-cases (host.unpack_header prop.packed_transaction)) [
          | inr (m, f) ↦ ground arith
          | inl (header, f) ↦
              elim (Result-cases (host.unpack_context_free_actions prop.packed_transaction)) [
                | inr (m, g) ↦ ground arith
                | inl (free, g) ↦
                    elim (Result-cases (host.unpack_actions prop.packed_transaction)) [
                      | inr (m, a) ↦ ground arith
                      | inl (actions, a) ↦ record {
                        prop = prop;
                        header = header;
                        actions = actions;
                        found = e;
                        has_header = f;
                        has_actions = a;
                        in_time = ground arith;
                        authorized = nonzero _ (ground arith);
                        timed = λ time set. ground arith;
                        untimed = λ set. ground arith;
                        done = ground arith;
                      }
                    ]
              ]
        ]
      ]

  exec_missing :
      (c : Context) (proposer name executer : ℕ) (s : MsigState)
      → lookup_in proposer name s.proposals ≡ none
      → (u : MsigState) → exec host c proposer name executer s ≢ ok u
  unfolding exec
  exec_missing c proposer name executer s e u h = ground arith

  -- A successful `exec` finds a proposal that has not expired and that the chain authorizes with the
  -- approvals that are valid; it sends the actions of the proposed transaction, in order, and nothing
  -- else, and no later `exec` of the proposal succeeds in the state that it leaves.
  pub exec_authorized :
      (c : Context) (proposer name executer : ℕ) (s t : MsigState)
      → exec host c proposer name executer s ≡ ok t
      → (prop : Proposal) × (header : TransactionHeader) × (actions : List ℕ) × (lookup_in proposer
            name s.proposals
          ≡ some prop)
        × (host.unpack_header prop.packed_transaction ≡ ok header)
        × (c.now_sec ≤ header.expiration)
        × (host.check_authorization prop.packed_transaction (get_approvals proposer name s) ≢ pos 0)
        × (host.unpack_actions prop.packed_transaction ≡ ok actions)
        × (t.sent ≡ s.sent ++ actions)
        × ((d : Context) (k : ℕ) (u : MsigState) → exec host d proposer name k t ≢ ok u)
  exec_authorized c proposer name executer s t h =
      let x = exec_inv c proposer name executer s t h in
      let gone : lookup_in proposer name t.proposals ≡ none =
        rw (x.done) (lookup_in-erase_in_self proposer name s.proposals) in
      (
        x.prop,
        x.header,
        x.actions,
        x.found,
        x.has_header,
        x.in_time,
        x.authorized,
        x.has_actions,
        ap (λ (y : MsigState). y.sent) x.done,
        λ d k u. exec_missing d proposer name k t gone u,
      )
