-- ===== src/Lease.antt =====
-- internal/lease/store.go: the table of issued leases. The mutex makes each method one step; the time
-- and the random part of an identifier are arguments. A lease that is returned is a copy.
pub mod Outcomes
pub mod Sweep
pub mod Lifecycle
use agent_cred_broker.Prelude.{
  ◌≡◌, Bool, true, false, not, ◌&&◌, Option, none, some, String, List, [], ◌∷◌, Assoc, lookup,
  insert, delete, if◌then◌else◌,
}
use agent_cred_broker.Time.{Instant, Duration, add, after}

pub record Lease : Type 0 where
  pub id : String
  pub subject_key : String
  pub scope : String
  pub semantics : String
  pub issued_at : Instant
  pub expires_at : Instant
  pub renewable : Bool
  pub surrendered : Bool
  pub expired_emit : Bool

-- Store.leases
abbrev pub Store : Type 0
Store = Assoc Lease

-- The outcome strings; `done` is "".
pub data Outcome : Type 0 where
  done notfound surrendered expired nonrenewable already : Outcome

unfoldable pub create :
    String → Instant → String → String → String → Duration → Bool → Store → Lease × Store
create id now subject_key scope semantics ttl renewable s =
    let l : Lease = record {
      id = id;
      subject_key = subject_key;
      scope = scope;
      semantics = semantics;
      issued_at = now;
      expires_at = add now ttl;
      renewable = renewable;
      surrendered = false;
      expired_emit = false;
    } in
    (l, insert id l s)

-- Get
abbrev pub get : String → Store → Option Lease
get = lookup

-- The switch of Renew, for a lease that is there.
unfoldable pub renewal : Instant → Lease → Outcome
renewal now l =
    if l.surrendered
    then surrendered
    else if after now l.expires_at
    then expired
    else if not l.renewable
    then nonrenewable
    else done

-- The lease as renewed is stored and returned only if nothing speaks against it.
settle : String → Lease → Outcome → Store → Option Lease × Outcome × Store
settle id l done s = (some l, done, insert id l s)
settle id l refused s = (none, refused, s)

-- The clock is read twice: for the test, and for the new end.
unfoldable pub renew :
    String → Instant → Instant → Duration → Store → Option Lease × Outcome × Store
unfolding settle
renew id now later ttl s = elim (lookup id s) [
  | none ↦ (none, notfound, s)
  | some l ↦ settle id (record l { expires_at = add later ttl }) (renewal now l) s
]

unfoldable pub surrender : String → Store → Option Lease × Outcome × Store
surrender id s = elim (lookup id s) [
  | none ↦ (none, notfound, s)
  | some l ↦
      if l.surrendered
      then (some l, already, s)
      else let l' : Lease = record l { surrendered = true } in (some l', done, insert id l' s)
]

unfoldable pub remove : String → Store → Store
remove id s = delete id s

-- The lease is past its end and has not been reported as expired.
unfoldable pub newly_expired : Instant → Lease → Bool
newly_expired now l = after now l.expires_at && not l.expired_emit && not l.surrendered

unfoldable pub mark : Instant → Lease → Lease
mark now l = if newly_expired now l then record l { expired_emit = true } else l

unfoldable pub dead : Duration → Instant → Lease → Bool
dead retain now l = after now (add l.expires_at retain)

-- The leases that are newly past their end, and the leases that stay in the table.
unfoldable pub sweep_expired : Duration → Instant → Store → List Lease × Store
sweep_expired retain now [] = ([], [])
sweep_expired retain now ((id, l) ∷ s) =
    let (out, kept) = sweep_expired retain now s in
    (
      if newly_expired now l then mark now l ∷ out else out,
      if dead retain now l then kept else (id, mark now l) ∷ kept,
    )
