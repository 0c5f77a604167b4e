-- ===== src/Examples/Limits.antt =====
-- Calls of the rate limiter and of the byte budget, and tokens that are turned away or let in.
use agent_cred_broker.Prelude.{
  ◌+◌, ◌-◌, ◌*◌, ◌≤◌, ◌≡◌, refl, true, Option, none, some, List, [], ◌∷◌, String, lookup, arith,
  cut_prefix, cut, str_eq, if◌then◌else◌, some-injective, subst,
}
use agent_cred_broker.RateLimit.{Limiter, token, new, bucket_of, allow, new_byte_budget}
use agent_cred_broker.RateLimit.Window.{Call, granted, granted_bound, allow_after_wait}
use agent_cred_broker.RateLimit.Spending.{Spending}
use agent_cred_broker.RateLimit.Budget.{accepted, accepted_bound}
use agent_cred_broker.Audit.{Subject}
use agent_cred_broker.Authn.{
  ReviewStatus, replied, review, judge, contains, account_of, subject_of, accepted as let_in,
  decoded_reply,
}
use agent_cred_broker.Authn.Verdict.{Accepts, review-Accepts}
use agent_cred_broker.Server.{new_id}
use agent_cred_broker.Server.Auth.{get_lease, serve}
use agent_cred_broker.Server.Auth.Gate.{Rejected, TurnedAway, unauthenticated_is_TurnedAway}
use agent_cred_broker.Examples.PlainCodec.{plain}
use agent_cred_broker.Examples.Sample.{broker, leases, source, subject, size}

abbrev calls : List Call
calls = ("a", 10) ∷ ("b", 11) ∷ ("a", 12) ∷ ("a", 13) ∷ []

granted_bound_example :
    granted "a" (new 10 2) calls * token ≤ (new 10 2).burst + (13 - 10) * (new 10 2).rate
unfolding new lookup bucket_of
granted_bound_example =
    granted_bound "a" (new 10 2) 10 13 calls
      (omega arith, (omega arith, (omega arith, (omega arith, omega arith)))) (omega arith)

abbrev emptied : Limiter
emptied = record {
  buckets = ("a", record { tokens = 0; last = 0 }) ∷ [];
  rate = 10;
  burst = 60000000000;
}

allow_after_wait_example : (allow "a" 6000000000 emptied).0 ≡ true
unfolding bucket_of lookup
allow_after_wait_example = allow_after_wait "a" 6000000000 emptied (omega arith) (omega arith)

abbrev spendings : List Spending
spendings =
    record { key = "a"; bytes = 60; cap = 100; at = 5 }
    ∷ record { key = "b"; bytes = 90; cap = 100; at = 6 }
    ∷ record { key = "a"; bytes = 60; cap = 100; at = 7 }
    ∷ []

accepted_bound_example : accepted "a" 0 new_byte_budget spendings ≤ 100
accepted_bound_example = accepted_bound "a" 100 0 0 spendings (omega arith) (
  (λ x. refl),
  omega arith,
  omega arith,
  ((λ x. refl), omega arith, omega arith, ((λ x. refl), omega arith, omega arith, tt)),
)

abbrev status : ReviewStatus
status = record {
  authenticated = true;
  audiences = "broker" ∷ [];
  username = "system:serviceaccount:ci:bot";
  extra = [];
}

review_of_bot : review "broker" (replied 201 (some status)) ≡ let_in subject
unfolding review decoded_reply judge contains account_of subject_of cut_prefix cut lookup
review_of_bot = refl

review-Accepts_example : Accepts "broker" (replied 201 (some status)) subject
review-Accepts_example = review-Accepts "broker" (replied 201 (some status)) subject review_of_bot

abbrev authn : String → Option Subject
authn token = if str_eq token "good" then some subject else none

bad_header : Rejected authn "Bearer bad"
unfolding cut_prefix
bad_header token e full = subst (λ t. authn t ≡ none) (some-injective "bad" token e) refl

unauthenticated_is_TurnedAway_example :
    TurnedAway
      (record (broker leases) { trail = (new_id "req" (broker leases).trail).1 })
      (new_id "req" (broker leases).trail).0
      (serve plain authn size source "Bearer bad" (get_lease "lease_1") (broker leases))
unauthenticated_is_TurnedAway_example =
    unauthenticated_is_TurnedAway plain authn size source "Bearer bad" (get_lease "lease_1")
      (broker leases) bad_header
