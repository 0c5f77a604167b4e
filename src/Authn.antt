-- ===== src/Authn.antt =====
-- internal/authn/tokenreview.go: Review. The HTTP exchange with the API server is the parameter
-- `post`: the status and the body of its answer, or nothing on a transport error. Its body is modelled as
-- decoded. (Reading its own token, marshalling and building the request fail with an error as well.)
pub mod Verdict
pub mod Exchange
use agent_cred_broker.Prelude.{
  ℕ, ◌≡◌, Bool, true, false, not, ◌||◌, ◌&&◌, ◌==◌, Option, none, some, List, [], ◌∷◌, String,
  Assoc, lookup, str_eq, if◌then◌else◌, cut, cut_prefix, ◌>>=◌,
}
use agent_cred_broker.Audit.{Subject}

abbrev pub sa_prefix : String
sa_prefix = "system:serviceaccount:"

abbrev pub pod_name_extra : String
pod_name_extra = "authentication.kubernetes.io/pod-name"

abbrev pub pod_uid_extra : String
pod_uid_extra = "authentication.kubernetes.io/pod-uid"

-- The status of a tokenReview.
pub record ReviewStatus : Type 0 where
  pub authenticated : Bool
  pub audiences : List String
  pub username : String
  pub extra : Assoc (List String)

-- The errors of Review, by their step.
pub data Refusal : Type 0 where
  transport status undecodable token_rejected audience_mismatch not_service_account : Refusal

pub data Review : Type 0 where
  accepted : Subject → Review
  denied : Refusal → Review

-- slices.Contains
unfoldable pub contains : String → List String → Bool
contains a [] = false
contains a (b ∷ bs) = str_eq b a || contains a bs

abbrev first_of : String → Assoc (List String) → String
first_of k extra = elim (lookup k extra) [ none ↦ "" | some [] ↦ "" | some (v ∷ vs) ↦ v ]

-- The namespace and the account of a username, both not empty.
unfoldable pub account_of : String → Option (String × String)
account_of username = do
  rest ← cut_prefix sa_prefix username
  parts ← cut 58 rest
  if str_eq parts.0 "" || str_eq parts.1 "" then none else some parts

unfoldable pub subject_of : ReviewStatus → Option (String × String) → Review
subject_of st none = denied not_service_account
subject_of st (some parts) = accepted (record {
  namespace = parts.0;
  service_account = parts.1;
  pod = first_of pod_name_extra st.extra;
  pod_uid = first_of pod_uid_extra st.extra;
})

unfoldable pub judge : String → ReviewStatus → Review
judge audience st =
    if not st.authenticated
    then denied token_rejected
    else if not (contains audience st.audiences)
    then denied audience_mismatch
    else subject_of st (account_of st.username)

-- The answer of the API server: no answer, or a status with a body that may not decode.
pub data Reply : Type 0 where
  unreachable : Reply
  replied : ℕ → Option ReviewStatus → Reply

unfoldable pub decoded_reply : String → Option ReviewStatus → Review
unfolding judge
decoded_reply audience none = denied undecodable
decoded_reply audience (some st) = judge audience st

unfoldable pub review : String → Reply → Review
unfolding decoded_reply
review audience unreachable = denied transport
review audience (replied code body) =
    if not (code == 201) && not (code == 200) then denied status else decoded_reply audience body
