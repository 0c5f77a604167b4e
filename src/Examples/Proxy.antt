-- ===== src/Examples/Proxy.antt =====
-- A notify proxy with one agent, who may push to its phone and touch notifications that begin with ci-.
use agent_cred_broker.Prelude.{
  ◌≡◌, refl, true, Option, none, some, List, [], ◌∷◌, String, lookup, insert, str_eq, if◌then◌else◌,
}
use agent_cred_broker.RateLimit.{new}
use agent_cred_broker.Audit.{Subject, key}
use agent_cred_broker.Regexp.{match_string, matches, deriv, nullable}
use agent_cred_broker.Policy.Patterns.{subject_key}
use agent_cred_broker.Server.{new_id, read_clock}
use agent_cred_broker.Notify.Grants.{
  Grant, SubjectPolicy, Policy, Loader, kind_push, known_kind, ha_target, fine, parse, build,
  add_subjects, check_subject, add_grants, check_grant, check_kind, check_push, check_targets,
  push_target, grant_for,
}
use agent_cred_broker.Notify.Grants.Valid.{IsNarrow, parse-IsNarrow}
use agent_cred_broker.Notify.LeaseClient.{Lease, lease, own_token, ask_with, ask, lease_of}
use agent_cred_broker.Notify.{replied, Outside, Proxy, allow_caller}
use agent_cred_broker.Notify.Handlers.{PushRequest, lease_context, push, route}
use agent_cred_broker.Notify.Handlers.Conduct.{Ends}
use agent_cred_broker.Notify.Handlers.Authority.{Authorized, calls_are_Authorized}
use agent_cred_broker.Notify.Handlers.Footprint.{Footprint, requests_leave_Footprint}
use agent_cred_broker.Notify.Handlers.Secrecy.{Alike, Indistinct, token_stays_secret}
use agent_cred_broker.Notify.Handlers.Reach.{target_of}
use agent_cred_broker.Notify.Auth.{serve}
use agent_cred_broker.Examples.PlainCodec.{plain}
use agent_cred_broker.Examples.Sample.{broker, leases, source, subject, caller}

abbrev push_grant : Grant
push_grant = record { kind = "push"; targets = "phone_1" ∷ "phone_2" ∷ []; id_prefix = "" }

abbrev create_grant : Grant
create_grant = record { kind = "persistent_create"; targets = []; id_prefix = "ci-" }

abbrev subjects : List SubjectPolicy
subjects = record { service_account = "ci/bot"; grants = push_grant ∷ create_grant ∷ [] } ∷ []

abbrev loader : Loader
loader = record { unmarshal = λ raw. some subjects; hash = λ raw. "sha256:1" }

abbrev policy : Policy
policy = record {
  subjects = subjects;
  hash = "sha256:1";
  by_key = ("ci/bot", ("push", push_grant) ∷ ("persistent_create", create_grant) ∷ []) ∷ [];
}

parsed : parse loader "" ≡ fine policy
unfolding parse build add_subjects check_subject add_grants check_grant check_kind check_push
    check_targets known_kind ha_target subject_key match_string matches deriv nullable lookup insert
parsed = refl

parse-IsNarrow_example : IsNarrow policy
parse-IsNarrow_example = parse-IsNarrow loader "" policy parsed

abbrev proxy : Proxy
proxy = record {
  cfg = record { rate_per_minute = 12; burst = 6; max_body_bytes = 16384 };
  policy = policy;
  ha_base = "https://ha";
  broker_url = "https://broker";
  scope = "ha-notify-token";
  limiter = new 12 6;
  auth_fail = new 1 1;
  rl_audit = new 1 1;
  trail = (broker leases).trail;
  token_reads = 0;
  leased = [];
  sent = [];
}

-- A broker that leases this token, and a Home Assistant that answers 200.
abbrev services : String → Outside
services token = record {
  read_token = λ n. some "own";
  accepts = λ url. true;
  broker = λ n r. replied 201 (some ("lease_1", ("token", token) ∷ []));
  home_assistant = λ n r. some 200;
}

abbrev authn : String → Option Subject
authn token = if str_eq token "good" then some subject else none

abbrev message : PushRequest
message = record { title = "build"; message = "done"; extra = ("tag", "ci") ∷ [] }

calls_are_Authorized_example :
    Ends
      (services "s3cret")
      (Authorized authn "Bearer good" policy "https://ha" (push (some message)))
      (new_id "req" proxy.trail).0
      []
      (serve plain (services "s3cret") authn source "Bearer good" (push (some message)) proxy)
calls_are_Authorized_example =
    calls_are_Authorized plain (services "s3cret") authn source "Bearer good" (push (some message))
      proxy

requests_leave_Footprint_example :
    Footprint plain caller
      (new 1 1)
      (read_clock proxy.trail).1
      (route plain (services "s3cret") (push (some message)) caller proxy)
requests_leave_Footprint_example =
    requests_leave_Footprint plain (services "s3cret") caller (push (some message)) proxy

alike : Alike (services "s3cret") (services "other")
unfolding lease_of lookup
alike = record {
  own = λ n. refl;
  urls = λ u. refl;
  leases = λ n r. refl;
  statuses = λ n r r' a b. refl;
}

token_stays_secret_example :
    Indistinct
      (serve plain (services "s3cret") authn source "Bearer good" (push (some message)) proxy)
      (serve plain (services "other") authn source "Bearer good" (push (some message)) proxy)
token_stays_secret_example =
    token_stays_secret plain authn (services "s3cret") (services "other") source "Bearer good"
      (push (some message)) proxy alike

pinned : push_target policy "ci/bot" ≡ "phone_1"
unfolding push_target grant_for lookup
pinned = refl

abbrev got : Lease
got = record { token = "s3cret"; lease_id = "lease_1" }

leased :
    (lease
      (services "s3cret")
      (lease_context caller kind_push "notify" (target_of caller proxy))
      (allow_caller (key caller.subject) proxy).1).0
    ≡ some got
unfolding lease own_token ask_with ask lease_of lookup allow_caller
leased = refl
