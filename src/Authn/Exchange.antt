-- ===== src/Authn/Exchange.antt =====
-- internal/authn/tokenreview.go: InClusterConfig, New and the request of Review. The files and the API
-- server are arguments; the CA bundle and TLS are the library's.
use Prim.Native.String.{◌++◌ as append_text}
use agent_cred_broker.Prelude.{
  Bool, not, ◌||◌, ◌==◌, Option, none, some, List, [], ◌∷◌, String, str_eq, map_option, trim_space,
  trim_right, if◌then◌else◌,
}
use agent_cred_broker.Audit.{Subject}
use agent_cred_broker.Authn.{Review, accepted, denied, Reply, review, transport}

pub record Config : Type 0 where
  pub api_base : String
  pub token_file : String
  pub ca_file : String
  pub audience : String

-- InClusterConfig, with the host and the port of the environment.
unfoldable pub in_cluster_config : String → String → String → Option Config
in_cluster_config host port audience =
    if str_eq host "" || str_eq port ""
    then none
    else some (record {
      api_base = append_text "https://" (append_text host (append_text ":" port));
      token_file = "/var/run/secrets/kubernetes.io/serviceaccount/token";
      ca_file = "/var/run/secrets/kubernetes.io/serviceaccount/ca.crt";
      audience = audience;
    })

pub record Reviewer : Type 0 where
  pub api_base : String
  pub audience : String
  pub token_file : String

-- New, where the CA bundle is one that the library reads.
unfoldable pub new_reviewer : Config → Reviewer
new_reviewer cfg = record {
  api_base = trim_right (λ b. b == 47) cfg.api_base;
  audience = cfg.audience;
  token_file = cfg.token_file;
}

-- The POST of a TokenReview.
pub record ReviewRequest : Type 0 where
  pub url : String
  pub authorization : String
  pub api_version : String
  pub kind : String
  pub token : String
  pub audiences : List String

-- What Review uses: the files, the URLs that net/http accepts, and the API server.
pub record Cluster : Type 0 where
  pub read_file : String → Option String
  pub accepts : String → Bool
  pub post : ReviewRequest → Reply

unfoldable pub ask : Cluster → Reviewer → String → String → Option String → Review
ask k r presented url none = denied transport
ask k r presented url (some own) = review r.audience (
    k.post (record {
      url = url;
      authorization = append_text "Bearer " own;
      api_version = "authentication.k8s.io/v1";
      kind = "TokenReview";
      token = presented;
      audiences = r.audience ∷ [];
    }))

-- Review, from the token on.
unfoldable pub review_token : Cluster → Reviewer → String → Review
review_token k r presented =
    let url = append_text r.api_base "/apis/authentication.k8s.io/v1/tokenreviews" in
    if not (k.accepts url)
    then denied transport
    else ask k r presented url (map_option trim_space (k.read_file r.token_file))

-- The AuthnFunc that the two programs make of it.
unfoldable pub authn_func : Cluster → Reviewer → String → Option Subject
authn_func k r presented = elim (review_token k r presented) [
  | accepted s ↦ some s
  | denied e ↦ none
]
