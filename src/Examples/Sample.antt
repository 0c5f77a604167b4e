-- ===== src/Examples/Sample.antt =====
-- A policy with one scope and one subject, and a broker that runs it.
use agent_cred_broker.Prelude.{
  ℕ, true, false, some, List, [], ◌∷◌, String, Assoc, pos, ◌≡◌, refl, ◌+◌, ◌*◌, lookup, insert,
}
use agent_cred_broker.Lease.{Lease, Store}
use agent_cred_broker.Audit.{Subject, Source}
use agent_cred_broker.Audit.Emitter.{Emitter, written}
use agent_cred_broker.Policy.{Scope, Grant, SubjectPolicy, Policy}
use agent_cred_broker.Policy.Parse.{
  Document, Loader, fine, parse, build, add_scopes, check_scope, first_fault, known_provider,
  all_token, read_windows, check_grant, read_grant, add_grants, check_subject, add_subjects,
}
use agent_cred_broker.Policy.Patterns.{installation_ref, permissions, subject_key}
use agent_cred_broker.Regexp.{match_string, matches, deriv, nullable}
use agent_cred_broker.Provider.{Provider}
use agent_cred_broker.Server.{Config, World, Server, Caller, new_limits}

abbrev pub scope : Scope
scope = record {
  name = "repo";
  provider = "github-app";
  ref = "installations/7";
  fields = ("token", "token") ∷ [];
  params = ("permissions", "a=read") ∷ [];
}

-- A scope that is granted to nobody.
abbrev pub hidden : Scope
hidden = record scope { name = "deploy" }

abbrev pub grant : {W : Type 0} → List W → Grant W
grant windows = record {
  scope = "repo";
  ttl_default = pos 600000000000;
  ttl_max = pos 3600000000000;
  renewable = true;
  issue_windows = windows;
}

abbrev pub subject_policy : {W : Type 0} → List W → SubjectPolicy W
subject_policy windows = record {
  service_account = "ci/bot";
  grants = grant windows ∷ [];
  claim_bytes_per_day = pos 1000;
}

abbrev pub document : Document
document = record { scopes = scope ∷ hidden ∷ []; subjects = subject_policy [] ∷ [] }

abbrev pub loader : Loader
loader = record {
  unmarshal = λ raw. some document;
  hash = λ raw. "sha256:0";
  parse_cron = λ cron. some (λ t. 0);
}

abbrev pub policy : Policy
policy = record {
  scopes = scope ∷ hidden ∷ [];
  subjects = subject_policy [] ∷ [];
  hash = "sha256:0";
  scope_by_name = ("repo", scope) ∷ ("deploy", hidden) ∷ [];
  grant_by_subj = ("ci/bot", ("repo", grant []) ∷ []) ∷ [];
}

-- The policy is what Parse makes of the document.
pub parsed : parse loader "" ≡ fine policy
unfolding parse build add_scopes check_scope first_fault known_provider all_token read_windows
    check_grant read_grant add_grants check_subject add_subjects installation_ref permissions
    subject_key match_string matches deriv nullable lookup insert
parsed = refl

abbrev pub provider : Provider
provider = record {
  name = "github-app";
  semantics = "revocable";
  fetch = λ now req.
      some (record { secret = ("token", "s3cret") ∷ []; expires_at = now + 1000000000000 });
}

abbrev pub config : Config
config = record {
  lease_rate_per_minute = 10;
  lease_burst = 10;
  claim_rate_per_minute = 60;
  claim_burst = 60;
  max_body_bytes = 131072;
  max_context_bytes = 4096;
  max_claim_bytes = 2048;
  max_claims_per_req = 50;
}

-- The clock goes a second further at each reading.
abbrev pub world : World
world = record {
  clock = λ n. 63900000000000000000 + n * 1000000000;
  random = λ n. "00";
  writing = λ n. written;
  reads = 0;
  draws = 0;
  writes = 0;
}

abbrev pub emitter : Emitter
emitter = record { instance_name = "broker"; kid = "kid"; seq = 0; out = [] }

abbrev pub broker : Store → Server
broker leases = record {
  cfg = config;
  policy = policy;
  providers = ("github-app", provider) ∷ [];
  leases = leases;
  limits = new_limits config;
  trail = record {
    emitter = emitter;
    metrics = record { counters = []; gauges = [] };
    world = world;
  };
}

abbrev pub subject : Subject
subject = record { namespace = "ci"; service_account = "bot"; pod = ""; pod_uid = "" }

abbrev pub source : Source
source = record { ip = "10.0.0.1"; user_agent = "" }

abbrev pub caller : Caller
caller = record { subject = subject; request_id = "req_0"; source = source }

-- A lease of the caller, and one of another subject.
abbrev pub lease_of : String → String → Lease
lease_of id owner = record {
  id = id;
  subject_key = owner;
  scope = "repo";
  semantics = "revocable";
  issued_at = 63900000000000000000;
  expires_at = 63900000600000000000;
  renewable = true;
  surrendered = false;
  expired_emit = false;
}

abbrev pub leases : Store
leases = ("lease_1", lease_of "lease_1" "ci/bot") ∷ ("lease_2", lease_of "lease_2" "ci/other") ∷ []

-- The length of a map as JSON, roughly.
abbrev pub size : Assoc String → ℕ
size m = 2
