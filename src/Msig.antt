-- ===== src/Msig.antt =====
-- contracts/flon.msig/src/flon.msig.cpp: transactions that several accounts approve together.
pub mod Approvals
pub mod Exec
pub mod Late
pub mod Delay
mod Tests
use flon_contracts.Base.{
  ℕ, ◌+◌, ◌*◌, Bool, true, false, not, ◌&&◌, ◌||◌, Option, none, some, List, [], ◌∷◌, ◌++◌, ℤ, pos,
  ltb, leb, ltb_ℤ, leb_ℤ, ◌==◌, if◌then◌else◌, Result, ok, err, ◌>>=◌, ◌>>◌, check, or_fail, Dict,
  lookup, insert, lookup_in, insert_in, erase_in,
}
use flon_contracts.Chain.{Context}

-- `permission_level`
pub record Level : Type 0 where
  pub actor : ℕ
  pub permission : ℕ

abbrev pub level_eq : Level → Level → Bool
level_eq a b = a.actor == b.actor && a.permission == b.permission

pub record Approval : Type 0 where
  pub level : Level
  pub time : ℕ

-- A packed transaction is a text of bytes.
abbrev pub Bytes : Type 0
Bytes = List ℕ

-- `earliest_exec_time`: `none` in a row that was written before the member was added.
pub record Proposal : Type 0 where
  pub proposal_name : ℕ
  pub packed_transaction : Bytes
  pub earliest_exec_time : Option (Option ℕ)

pub record ApprovalsInfo : Type 0 where
  pub version : ℕ
  pub proposal_name : ℕ
  pub requested_approvals : List Approval
  pub provided_approvals : List Approval

pub record Invalidation : Type 0 where
  pub account : ℕ
  pub last_invalidation_time : ℕ

-- `proposals` and `approvals` have a scope for each proposer. `sent` are the actions that have been
-- sent, in order; an action is its number.
pub record MsigState : Type 0 where
  pub proposals : Dict (Dict Proposal)
  pub approvals : Dict (Dict ApprovalsInfo)
  pub invalidations : Dict Invalidation
  pub sent : List ℕ

pub record TransactionHeader : Type 0 where
  pub expiration : ℕ
  pub delay_sec : ℕ

-- What the contract takes from the chain and its library: the parts of a packed transaction, which
-- fail where the bytes are no transaction, `check_transaction_authorization` with the levels that are
-- given, the hash of the bytes, and the authority of a level in the action.
pub record Host : Type 0 where
  pub unpack_header : Bytes → Result TransactionHeader
  pub unpack_context_free_actions : Bytes → Result (List ℕ)
  pub unpack_actions : Bytes → Result (List ℕ)
  pub check_authorization : Bytes → List Level → ℤ
  pub sha256 : Bytes → ℕ

abbrev is_none {ℓ} : {A : Type ℓ} → Option A → Bool
is_none none = true
is_none (some _) = false

abbrev is_empty : List ℕ → Bool
is_empty [] = true
is_empty (x ∷ xs) = false

abbrev require_auth : Context → ℕ → Result (Unit {0})
require_auth c a = check (c.has_auth a) "missing authority"

-- `std::find_if` by the level, and `erase` of what it finds: `none` if it finds nothing.
unfoldable pub take_level : Level → List Approval → Option (List Approval)
take_level l [] = none
take_level l (a ∷ rest) =
    let deeper = elim (take_level l rest) as (λ _. Option (List Approval)) [
      | none ↦ none
      | some r ↦ some (a ∷ r)
    ] in
    if level_eq a.level l then some rest else deeper

-- The loop of `get_approvals_and_adjust_table`.
unfoldable pub valid_levels : Dict Invalidation → List Approval → List Level
valid_levels inv [] = []
valid_levels inv (a ∷ rest) =
    let more = valid_levels inv rest in
    elim (lookup a.level.actor inv) [
      | none ↦ a.level ∷ more
      | some i ↦ if ltb i.last_invalidation_time a.time then a.level ∷ more else more
    ]

unfoldable pub get_approvals : ℕ → ℕ → MsigState → List Level
unfolding valid_levels
get_approvals proposer proposal_name s = elim (lookup_in proposer proposal_name s.approvals) [
  | none ↦ []
  | some row ↦ valid_levels s.invalidations row.provided_approvals
]

abbrev fresh : List Level → List Approval
fresh [] = []
fresh (l ∷ ls) = record { level = l; time = 0 } ∷ fresh ls

abbrev no_levels : List Level → Bool
no_levels [] = true
no_levels (l ∷ ls) = false

module _ (host : Host) where
  -- The number that the chain returns, as a condition.
  abbrev pub trx_is_authorized : List Level → Bytes → Bool
  trx_is_authorized approvals packed_trx = not (
      leb_ℤ (host.check_authorization packed_trx approvals) (pos 0)
      && leb_ℤ (pos 0) (host.check_authorization packed_trx approvals))

  unfoldable pub propose : Context → ℕ → ℕ → List Level → Bytes → MsigState → Result MsigState
  propose c proposer proposal_name requested trx s = do
    require_auth c proposer
    check (not (proposal_name == 0)) "proposal name cannot be empty"
    check (not (no_levels requested)) "must request at least one approval"
    trx_header ← host.unpack_header trx
    check (leb c.now_sec trx_header.expiration) "transaction expired"
    context_free_actions ← host.unpack_context_free_actions trx
    check (is_empty context_free_actions)
        "not allowed to `propose` a transaction with context-free actions"
    check (is_none (lookup_in proposer proposal_name s.proposals))
        "proposal with the same name exists"
    check (ltb_ℤ (pos 0) (host.check_authorization trx requested))
        "transaction authorization failed"
    check (is_none (lookup_in proposer proposal_name s.approvals))
        "could not insert object, most likely a uniqueness constraint was violated"
    let prop : Proposal = record {
      proposal_name = proposal_name;
      packed_transaction = trx;
      earliest_exec_time = some none;
    }
    let row : ApprovalsInfo = record {
      version = 1;
      proposal_name = proposal_name;
      requested_approvals = fresh requested;
      provided_approvals = [];
    }
    ok (record s {
      proposals = insert_in proposer proposal_name prop s.proposals;
      approvals = insert_in proposer proposal_name row s.approvals;
    })

  -- What `approve` does to the row of approvals, if there is one.
  unfoldable pub give_approval : Context → ℕ → ℕ → Level → MsigState → Result MsigState
  give_approval c proposer proposal_name level s =
      elim (lookup_in proposer proposal_name s.approvals) as (λ _. Result MsigState) [
        | none ↦ ok s
        | some row ↦ do
          requested ←
              or_fail (take_level level row.requested_approvals)
                "approval is not on the list of requested approvals"
          let row' : ApprovalsInfo = record row {
            requested_approvals = requested;
            provided_approvals =
                row.provided_approvals ++ record { level = level; time = c.now } ∷ [];
          }
          ok (record s { approvals = insert_in proposer proposal_name row' s.approvals })
      ]

  -- `has_level` is the authority of the level in the action.
  unfoldable pub approve :
      (Level → Bool) → Context → ℕ → ℕ → Level → Option ℕ → MsigState → Result MsigState
  approve has_level c proposer proposal_name level proposal_hash s = do
    check (has_level level) "missing authority"
    prop ← or_fail (lookup_in proposer proposal_name s.proposals) "proposal not found"
    check
        (elim proposal_hash as (λ _. Bool) [
          | none ↦ true
          | some h ↦ host.sha256 prop.packed_transaction == h
        ])
        "hash mismatch"
    given ← give_approval c proposer proposal_name level s
    trx_header ← host.unpack_header prop.packed_transaction
    elim prop.earliest_exec_time [
      | none ↦ do
        check (trx_header.delay_sec == 0)
            "old proposals are not allowed to have non-zero `delay_sec`; cancel and retry"
        ok given
      | some (some t) ↦ ok given
      | some none ↦
          let time = c.now + trx_header.delay_sec * 1000000 in
          let timed =
            insert_in proposer proposal_name (record prop { earliest_exec_time = some (some time) })
              given.proposals in
          if trx_is_authorized (get_approvals proposer proposal_name given) prop.packed_transaction
          then ok (record given { proposals = timed })
          else ok given
    ]

  unfoldable pub take_back : Context → ℕ → ℕ → Level → MsigState → Result MsigState
  take_back c proposer proposal_name level s = do
    row ← or_fail (lookup_in proposer proposal_name s.approvals) "proposal not found"
    provided ← or_fail (take_level level row.provided_approvals) "no approval previously granted"
    let row' : ApprovalsInfo = record row {
      requested_approvals = row.requested_approvals ++ record { level = level; time = c.now } ∷ [];
      provided_approvals = provided;
    }
    ok (record s { approvals = insert_in proposer proposal_name row' s.approvals })

  unfoldable pub unapprove : (Level → Bool) → Context → ℕ → ℕ → Level → MsigState → Result MsigState
  unapprove has_level c proposer proposal_name level s = do
    check (has_level level) "missing authority"
    taken ← take_back c proposer proposal_name level s
    prop ← or_fail (lookup_in proposer proposal_name taken.proposals) "proposal not found"
    elim prop.earliest_exec_time [
      | none ↦ do
        trx_header ← host.unpack_header prop.packed_transaction
        check (trx_header.delay_sec == 0)
            "old proposals are not allowed to have non-zero `delay_sec`; cancel and retry"
        ok taken
      | some none ↦ ok taken
      | some (some t) ↦
          let untimed =
            insert_in proposer proposal_name (record prop { earliest_exec_time = some none })
              taken.proposals in
          if trx_is_authorized (get_approvals proposer proposal_name taken) prop.packed_transaction
          then ok taken
          else ok (record taken { proposals = untimed })
    ]

  unfoldable pub cancel : Context → ℕ → ℕ → ℕ → MsigState → Result MsigState
  cancel c proposer proposal_name canceler s = do
    require_auth c canceler
    prop ← or_fail (lookup_in proposer proposal_name s.proposals) "proposal not found"
    (if canceler == proposer then ok tt else (do
      trx_header ← host.unpack_header prop.packed_transaction
      check (ltb trx_header.expiration c.now_sec) "cannot cancel until expiration"))
    ok (record s {
      proposals = erase_in proposer proposal_name s.proposals;
      approvals = erase_in proposer proposal_name s.approvals;
    })

  unfoldable pub exec : Context → ℕ → ℕ → ℕ → MsigState → Result MsigState
  exec c proposer proposal_name executer s = do
    require_auth c executer
    prop ← or_fail (lookup_in proposer proposal_name s.proposals) "proposal not found"
    trx_header ← host.unpack_header prop.packed_transaction
    check (leb c.now_sec trx_header.expiration) "transaction expired"
    context_free_actions ← host.unpack_context_free_actions prop.packed_transaction
    check (is_empty context_free_actions)
        "not allowed to `exec` a transaction with context-free actions"
    actions ← host.unpack_actions prop.packed_transaction
    check (trx_is_authorized (get_approvals proposer proposal_name s) prop.packed_transaction)
        "transaction authorization failed"
    (elim prop.earliest_exec_time as (λ _. Result (Unit {0})) [
      | some (some t) ↦ check (leb t c.now) "too early to execute"
      | _ ↦
          check (trx_header.delay_sec == 0)
            "old proposals are not allowed to have non-zero `delay_sec`; cancel and retry"
    ])
    ok (record s {
      proposals = erase_in proposer proposal_name s.proposals;
      approvals = erase_in proposer proposal_name s.approvals;
      sent = s.sent ++ actions;
    })

unfoldable pub invalidate : Context → ℕ → MsigState → Result MsigState
invalidate c account s = do
  require_auth c account
  ok (record s {
    invalidations =
        insert account (record { account = account; last_invalidation_time = c.now })
          s.invalidations;
  })
