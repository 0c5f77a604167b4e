-- ===== src/Policy.antt =====
-- internal/policy/policy.go: the grant policy and its lookups. The YAML reader, SHA-256 and the cron
-- library are parameters (`Loader`, in Policy/Parse). Parse first reads windows without a schedule,
-- so the types of a grant and a subject take the type of a window.
pub mod Windows
pub mod Patterns
pub mod Parse
pub mod Watcher
pub mod Listing
use Prim.Native.String.{compare as compare_text}
use agent_cred_broker.Prelude.{
  ℕ, ◌≡◌, Bool, true, false, not, ◌||◌, Option, none, some, List, [], ◌∷◌, String, Assoc, lookup, ℤ,
  pos, pos_part, neg_part, negsuc, if◌then◌else◌, str_eq, ◌>>=◌, map,
}
use agent_cred_broker.Time.{Instant, Duration, add, after}

pub record Scope : Type 0 where
  pub name : String
  pub provider : String
  pub ref : String
  pub fields : Assoc String
  pub params : Assoc String

-- cron.Schedule, an object with the method Next.
abbrev pub Schedule : Type 0
Schedule = Instant → Instant

-- An issue window as it is read, and with its schedule.
pub record WindowText : Type 0 where
  pub cron : String
  pub duration : Duration

pub record IssueWindow : Type 0 where
  pub cron : String
  pub duration : Duration
  pub sched : Schedule

pub record Grant (W : Type 0) : Type 0 where
  pub scope : String
  pub ttl_default : Duration
  pub ttl_max : Duration
  pub renewable : Bool
  pub issue_windows : List W

pub record SubjectPolicy (W : Type 0) : Type 0 where
  pub service_account : String
  pub grants : List (Grant W)
  pub claim_bytes_per_day : ℤ

pub record Policy : Type 0 where
  pub scopes : List Scope
  pub subjects : List (SubjectPolicy IssueWindow)
  pub hash : String
  pub scope_by_name : Assoc Scope
  pub grant_by_subj : Assoc (Assoc (Grant IssueWindow))

abbrev pub negate : Duration → Duration
negate (pos ℕ.zero) = pos 0
negate (pos (ℕ.suc n)) = negsuc n
negate (negsuc n) = pos (ℕ.suc n)

-- Open. Instants carry no time zone here: the code pins the evaluation to UTC.
unfoldable pub open_at : IssueWindow → Instant → Bool
open_at w t = not (after (w.sched (add t (negate w.duration))) t)

any_open : List IssueWindow → Instant → Bool
any_open [] t = false
any_open (w ∷ ws) t = open_at w t || any_open ws t

-- WindowOpen. No windows is any time.
unfoldable pub window_open : Grant IssueWindow → Instant → Bool
unfolding any_open
window_open g t = elim g.issue_windows [ [] ↦ true | w ∷ ws ↦ any_open (w ∷ ws) t ]

-- Scope
abbrev pub scope_named : Policy → String → Option Scope
scope_named p name = lookup name p.scope_by_name

-- Grant. A missing subject is an empty map.
unfoldable pub grant_for : Policy → String → String → Option (Grant IssueWindow)
grant_for p subject_key scope = do grants ← lookup subject_key p.grant_by_subj; lookup scope grants

cap_of : String → List (SubjectPolicy IssueWindow) → ℤ
cap_of k [] = pos 0
cap_of k (s ∷ ss) = if str_eq s.service_account k then s.claim_bytes_per_day else cap_of k ss

-- ClaimBytesCap. 0 is no cap.
unfoldable pub claim_bytes_cap : Policy → String → ℤ
unfolding cap_of
claim_bytes_cap p k = cap_of k p.subjects
