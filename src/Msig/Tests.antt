-- ===== src/Msig/Tests.antt =====
-- contracts/flon.msig/src/flon.msig.cpp at concrete inputs.
use flon_contracts.Base.{
  ℕ, ◌+◌, ◌*◌, ◌≤◌, ◌≡◌, ◌≢◌, ◌++◌, refl, List, [], ◌∷◌, none, some, Bool, true, pos, arith, Result,
  ok, err, lookup_in, insert_in, erase_in,
}
use flon_contracts.Chain.{Context}
use flon_contracts.Msig.{
  Level, ApprovalsInfo, Proposal, Bytes, MsigState, Host, TransactionHeader, take_level,
  get_approvals, give_approval, take_back, propose, approve, unapprove, exec, invalidate,
}
use flon_contracts.Msig.Approvals.{
  count, SameLevels, NoActor, unapprove-approve, invalidate-get_approvals,
}
use flon_contracts.Msig.Exec.{exec_authorized}
use flon_contracts.Msig.Delay.{Action, apply, run, propose-exec}

-- A transaction of the tests is its expiration, its delay and its actions.
abbrev header_of : Bytes → Result TransactionHeader
header_of (e ∷ d ∷ rest) = ok (record { expiration = e; delay_sec = d })
header_of _ = err "no transaction"

abbrev actions_of : Bytes → Result (List ℕ)
actions_of (e ∷ d ∷ rest) = ok rest
actions_of _ = err "no transaction"

abbrev how_many : List Level → ℕ
how_many [] = 0
how_many (l ∷ ls) = 1 + how_many ls

-- One approval is enough.
abbrev host : Host
host = record {
  unpack_header = header_of;
  unpack_context_free_actions = λ b. ok [];
  unpack_actions = actions_of;
  check_authorization = λ b ls. pos (how_many ls);
  sha256 = λ b. 7;
}

abbrev everyone : Level → Bool
everyone l = true

abbrev at_second : ℕ → Context
at_second t = record {
  has_auth = λ _. true;
  is_account = λ _. true;
  self = 9;
  now = 1000000 * t;
  now_sec = t;
  now_slot = 2 * t;
}

abbrev level : Level
level = record { actor = 3; permission = 1 }

-- It expires at 1000 and waits for 5 seconds.
abbrev trx : Bytes
trx = 1000 ∷ 5 ∷ 77 ∷ []

abbrev nothing : MsigState
nothing = record { proposals = []; approvals = []; invalidations = []; sent = [] }

abbrev asked : ApprovalsInfo
asked = record {
  version = 1;
  proposal_name = 8;
  requested_approvals = record { level = level; time = 0 } ∷ [];
  provided_approvals = [];
}

abbrev proposed : MsigState
proposed = record nothing {
  proposals =
      (
        4,
        (8, record { proposal_name = 8; packed_transaction = trx; earliest_exec_time = some none })
            ∷ [],
      )
      ∷ [];
  approvals = (4, (8, asked) ∷ []) ∷ [];
}

abbrev answered : ApprovalsInfo
answered = record asked {
  requested_approvals = [];
  provided_approvals = record { level = level; time = 1000000 } ∷ [];
}

abbrev approved : MsigState
approved = record nothing {
  proposals =
      (
        4,
        (
          8,
          record {
            proposal_name = 8;
            packed_transaction = trx;
            earliest_exec_time = some (some 6000000);
          },
        )
            ∷ [],
      )
      ∷ [];
  approvals = (4, (8, answered) ∷ []) ∷ [];
}

abbrev executed : MsigState
executed = record nothing { proposals = (4, []) ∷ []; approvals = (4, []) ∷ []; sent = 77 ∷ [] }

abbrev history : List ((Level → Bool) × Context × Action)
history = (everyone, at_second 1, Action.approves 4 8 level (some 7)) ∷ []

proposes : propose host (at_second 0) 4 8 (level ∷ []) trx nothing ≡ ok proposed
unfolding propose insert_in
proposes = refl

approves : approve host everyone (at_second 1) 4 8 level (some 7) proposed ≡ ok approved
unfolding approve give_approval take_level get_approvals insert_in
approves = refl

executes : exec host (at_second 7) 4 8 3 approved ≡ ok executed
unfolding exec get_approvals erase_in
executes = refl

executes_history : exec host (at_second 7) 4 8 3 (run host history proposed) ≡ ok executed
unfolding run apply exec approve give_approval take_level get_approvals insert_in erase_in
executes_history = refl

propose-exec_example :
    (prop : Proposal) × (header : TransactionHeader) × (lookup_in 4 8
        (run host history proposed).proposals
      ≡ some prop)
    × (header_of prop.packed_transaction ≡ ok header)
    × (0 + header.delay_sec * 1000000 ≤ 7000000)
propose-exec_example =
    propose-exec host (at_second 0) (at_second 7) 4 8 3 (level ∷ []) trx history nothing proposed
      executed proposes (omega arith) (omega arith) executes_history

exec_authorized_example :
    (prop : Proposal) × (header : TransactionHeader) × (actions : List ℕ) × (lookup_in 4 8
        approved.proposals
      ≡ some prop)
    × (header_of prop.packed_transaction ≡ ok header)
    × (7 ≤ header.expiration)
    × (pos (how_many (get_approvals 4 8 approved)) ≢ pos 0)
    × (actions_of prop.packed_transaction ≡ ok actions)
    × (executed.sent ≡ [] ++ actions)
    × ((d : Context) (k : ℕ) (u : MsigState) → exec host d 4 8 k executed ≢ ok u)
exec_authorized_example = exec_authorized host (at_second 7) 4 8 3 approved executed executes

abbrev unapproved_row : ApprovalsInfo
unapproved_row = record asked {
  requested_approvals = record { level = level; time = 2000000 } ∷ [];
}

abbrev unapproved : MsigState
unapproved = record proposed { approvals = (4, (8, unapproved_row) ∷ []) ∷ [] }

unapproves : unapprove host everyone (at_second 2) 4 8 level approved ≡ ok unapproved
unfolding unapprove take_back take_level get_approvals insert_in
unapproves = refl

unapprove-approve_example :
    (given : ApprovalsInfo) × (taken : ApprovalsInfo) × (lookup_in 4 8 approved.approvals
      ≡ some given)
    × (lookup_in 4 8 unapproved.approvals ≡ some taken)
    × (given.provided_approvals ≡ [] ++ record { level = level; time = 1000000 } ∷ [])
    × SameLevels asked given
    × ((k : Level) → count k taken.requested_approvals ≡ count k asked.requested_approvals)
    × ((k : Level) → count k taken.provided_approvals ≡ count k asked.provided_approvals)
unapprove-approve_example =
    unapprove-approve host everyone (at_second 1) (at_second 2) 4 8 level (some 7) proposed approved
      unapproved asked refl approves unapproves

abbrev invalidated : MsigState
invalidated = record approved {
  invalidations = (3, record { account = 3; last_invalidation_time = 2000000 }) ∷ [];
}

invalidates : invalidate (at_second 2) 3 approved ≡ ok invalidated
unfolding invalidate
invalidates = refl

invalidate-get_approvals_example : NoActor 3 (get_approvals 4 8 invalidated)
invalidate-get_approvals_example =
    invalidate-get_approvals (at_second 2) 3 4 8 approved invalidated answered invalidates refl
      (omega arith, tt)
