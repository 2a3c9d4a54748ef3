-- ===== src/System/LimitAuth.antt =====
-- contracts/flon.system/src/limit_auth_changes.cpp: which permissions may change an account's
-- authorities.
pub mod Native
use flon_contracts.Base.{
  ℕ, ◌≡◌, ◌↔◌, Bool, true, false, not, ◌&&◌, ◌||◌, List, [], ◌∷◌, Option, none, some, ◌==◌,
  if◌then◌else◌, Result, ok, ◌>>◌, check, Dict, lookup, insert, erase, lookup-insert, lookup-erase,
  arith,
}

-- "owner"_n
abbrev pub owner_permission : ℕ
owner_permission = 12044502819693133824

pub record LimitAuthChange : Type 0 where
  pub version : ℕ
  pub account : ℕ
  pub allow_perms : List ℕ
  pub disallow_perms : List ℕ

-- `std::find( … ) != end`
unfoldable pub contains : ℕ → List ℕ → Bool
contains p [] = false
contains p (x ∷ xs) = p == x || contains p xs

abbrev pub is_empty : List ℕ → Bool
is_empty [] = true
is_empty (x ∷ xs) = false

-- A row that is modified keeps its version; a new one has 0.
abbrev row_version : ℕ → Dict LimitAuthChange → ℕ
row_version account table = elim (lookup account table) [ none ↦ 0 | some row ↦ row.version ]

-- `has_auth account` is the authority of the account in the action.
unfoldable pub limitauthchg :
    (ℕ → Bool) → ℕ → List ℕ → List ℕ → Dict LimitAuthChange → Result (Dict LimitAuthChange)
limitauthchg has_auth account allow_perms disallow_perms table = do
  check (has_auth account) "missing authority"
  check (is_empty allow_perms || is_empty disallow_perms)
      "either allow_perms or disallow_perms must be empty"
  check (is_empty allow_perms || contains owner_permission allow_perms)
      "allow_perms does not contain owner"
  check (is_empty disallow_perms || not (contains owner_permission disallow_perms))
      "disallow_perms contains owner"
  let row : LimitAuthChange = record {
    version = row_version account table;
    account = account;
    allow_perms = allow_perms;
    disallow_perms = disallow_perms;
  }
  if not (is_empty allow_perms) || not (is_empty disallow_perms)
      then ok (insert account row table)
      else ok (erase account table)

-- `has_perm account permission` is the authority of one permission of the account in the action.
-- The optional argument `authorized_by` is 0 where it is missing.
unfoldable pub check_auth_change :
    (ℕ → ℕ → Bool) → ℕ → Option ℕ → Dict LimitAuthChange → Result (Unit {0})
check_auth_change has_perm account authorized_by table = do
  let by : ℕ = elim authorized_by [ none ↦ 0 | some p ↦ p ]
  check (by == 0 || has_perm account by) "missing authority"
  elim (lookup account table) [
    | none ↦ ok tt
    | some row ↦ do
      check (not (by == 0)) "authorized_by is required for this account"
      if not (is_empty row.allow_perms)
          then check (contains by row.allow_perms) "authorized_by does not appear in allow_perms"
          else check (not (contains by row.disallow_perms))
              "authorized_by appears in disallow_perms"
  ]

-- What the two lists admit: a change that names no permission only where both are empty; the name 0
-- counts as none. Others have the authority of the permission that they name, which is in the allowed
-- ones if there are any, else outside the disallowed ones.
abbrev pub admitted : (ℕ → Bool) → Option ℕ → List ℕ → List ℕ → Bool
admitted has_perm none allow disallow = is_empty allow && is_empty disallow
admitted has_perm (some p) allow disallow =
    (p == 0 || has_perm p)
    && (if is_empty allow
        then (is_empty disallow || (not (p == 0) && not (contains p disallow)))
        else (not (p == 0) && contains p allow))

-- The row of the account after a `limitauthchg`.
limitauthchg_row :
    (has_auth : ℕ → Bool) (account : ℕ) (allow disallow : List ℕ)
    (table table' : Dict LimitAuthChange)
    → limitauthchg has_auth account allow disallow table ≡ ok table'
    → lookup account table' ≡ (
        if is_empty allow && is_empty disallow
        then none
        else some (record {
          version = row_version account table;
          account = account;
          allow_perms = allow;
          disallow_perms = disallow;
        }))
unfolding limitauthchg
limitauthchg_row has_auth account allow disallow table table' h = ground (
  arith,
  lookup-insert account account
      (record {
        version = row_version account table;
        account = account;
        allow_perms = allow;
        disallow_perms = disallow;
      })
      table,
  lookup-erase account account table,
)

-- After `limitauthchg` has gone through, an authority change of the account passes its check exactly
-- if the lists admit it.
pub limitauthchg-check_auth_change :
    (has_auth : ℕ → Bool) (has_perm : ℕ → ℕ → Bool) (account : ℕ) (by : Option ℕ)
    (allow disallow : List ℕ) (table table' : Dict LimitAuthChange)
    → limitauthchg has_auth account allow disallow table ≡ ok table'
    → (check_auth_change has_perm account by table' ≡ ok tt)
      ↔ (admitted (has_perm account) by allow disallow ≡ true)
unfolding check_auth_change limitauthchg
limitauthchg-check_auth_change has_auth has_perm account none allow disallow table table' h =
    ground (arith, limitauthchg_row has_auth account allow disallow table table' h)
limitauthchg-check_auth_change has_auth has_perm account (some p) allow disallow table table' h =
    ground (arith, limitauthchg_row has_auth account allow disallow table table' h)

-- A `limitauthchg` that succeeds for one account leaves the row of every other account as it is.
pub limitauthchg_others :
    (has_auth : ℕ → Bool) (account other : ℕ) (allow disallow : List ℕ)
    (table table' : Dict LimitAuthChange)
    → limitauthchg has_auth account allow disallow table ≡ ok table'
    → (other == account) ≡ false
    → lookup other table' ≡ lookup other table
unfolding limitauthchg
limitauthchg_others has_auth account other allow disallow table table' h ne = ground (
  arith,
  lookup-insert account other
      (record {
        version = row_version account table;
        account = account;
        allow_perms = allow;
        disallow_perms = disallow;
      })
      table,
  lookup-erase account other table,
)

-- After a `limitauthchg` that has succeeded, an authority change that is authorized by the account's
-- owner permission passes the check, if the action has that permission's authority.
pub owner_never_locked_out :
    (has_auth : ℕ → Bool) (has_perm : ℕ → ℕ → Bool) (account : ℕ) (allow disallow : List ℕ)
    (table table' : Dict LimitAuthChange)
    → limitauthchg has_auth account allow disallow table ≡ ok table'
    → has_perm account owner_permission ≡ true
    → check_auth_change has_perm account (some owner_permission) table' ≡ ok tt
unfolding limitauthchg check_auth_change
owner_never_locked_out has_auth has_perm account allow disallow table table' h p = ground (
  arith,
  lookup-insert account account
      (record {
        version = row_version account table;
        account = account;
        allow_perms = allow;
        disallow_perms = disallow;
      })
      table,
  lookup-erase account account table,
)
