-- ===== src/System/LimitAuth/Native.antt =====
-- contracts/flon.system/include/flon.system/native.hpp: the actions of the chain that change
-- authorities, as the contract checks them.
use flon_contracts.Base.{ℕ, ◌≡◌, ◌↔◌, Bool, true, List, Option, Result, ok, refl, err, Dict}
use flon_contracts.System.LimitAuth.{
  LimitAuthChange, admitted, limitauthchg, check_auth_change, limitauthchg-check_auth_change,
}

pub record PermissionLevelWeight : Type 0 where
  pub actor : ℕ
  pub permission : ℕ
  pub weight : ℕ

pub record KeyWeight : Type 0 where
  pub key : ℕ
  pub weight : ℕ

pub record WaitWeight : Type 0 where
  pub wait_sec : ℕ
  pub weight : ℕ

pub record Authority : Type 0 where
  pub threshold : ℕ
  pub keys : List KeyWeight
  pub accounts : List PermissionLevelWeight
  pub waits : List WaitWeight

module _ (has_perm : ℕ → ℕ → Bool) where
  unfoldable pub updateauth :
      ℕ → ℕ → ℕ → Authority → Option ℕ → Dict LimitAuthChange → Result (Unit {0})
  updateauth account permission parent auth authorized_by table =
      check_auth_change has_perm account authorized_by table

  unfoldable pub deleteauth : ℕ → ℕ → Option ℕ → Dict LimitAuthChange → Result (Unit {0})
  deleteauth account permission authorized_by table =
      check_auth_change has_perm account authorized_by table

  unfoldable pub linkauth : ℕ → ℕ → ℕ → ℕ → Option ℕ → Dict LimitAuthChange → Result (Unit {0})
  linkauth account code type requirement authorized_by table =
      check_auth_change has_perm account authorized_by table

  unfoldable pub unlinkauth : ℕ → ℕ → ℕ → Option ℕ → Dict LimitAuthChange → Result (Unit {0})
  unlinkauth account code type authorized_by table =
      check_auth_change has_perm account authorized_by table

  -- The changes that an account can make to its authorities, with their arguments.
  pub data AuthChange : Type 0 where
    updates : ℕ → ℕ → Authority → AuthChange
    deletes : ℕ → AuthChange
    links : ℕ → ℕ → ℕ → AuthChange
    unlinks : ℕ → ℕ → AuthChange

  unfoldable pub change : AuthChange → ℕ → Option ℕ → Dict LimitAuthChange → Result (Unit {0})
  change (updates permission parent auth) account by table =
      updateauth account permission parent auth by table
  change (deletes permission) account by table = deleteauth account permission by table
  change (links code type requirement) account by table =
      linkauth account code type requirement by table
  change (unlinks code type) account by table = unlinkauth account code type by table

  change-check_auth_change :
      (x : AuthChange) (account : ℕ) (by : Option ℕ) (table : Dict LimitAuthChange)
      → change x account by table ≡ check_auth_change has_perm account by table
  unfolding change updateauth deleteauth linkauth unlinkauth
  change-check_auth_change (updates permission parent auth) account by table = refl
  change-check_auth_change (deletes permission) account by table = refl
  change-check_auth_change (links code type requirement) account by table = refl
  change-check_auth_change (unlinks code type) account by table = refl

  -- After a limitauthchg that has succeeded, each action that changes the account's authorities
  -- passes its check exactly if the lists admit it. When it names no permission, both lists have to
  -- be empty. When it names one, it has to have the authority of that permission, which has to be in
  -- the allowed ones if there are any, else outside the disallowed ones; the name 0 counts as none.
  pub limitauthchg-change :
      (has_auth : ℕ → Bool) (account : ℕ) (by : Option ℕ) (allow disallow : List ℕ)
      (table table' : Dict LimitAuthChange)
      → limitauthchg has_auth account allow disallow table ≡ ok table'
      → (x : AuthChange)
      → (change x account by table' ≡ ok tt)
        ↔ (admitted (has_perm account) by allow disallow ≡ true)
  limitauthchg-change has_auth account by allow disallow table table' h x =
      rw (change-check_auth_change x account by table')
        (limitauthchg-check_auth_change has_auth has_perm account by allow disallow table table' h)

unfoldable pub onerror : Result (Unit {0})
onerror = err "the onerror action cannot be called directly"
