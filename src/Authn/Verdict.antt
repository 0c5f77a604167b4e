-- ===== src/Authn/Verdict.antt =====
-- internal/authn/tokenreview.go: which answers of the API server Review accepts.
use Prim.Native.String.{◌++◌ as append_text}
use agent_cred_broker.Prelude.{
  ℕ, ◌≡◌, ◌≢◌, refl, ap, ◌⊎◌, inl, inr, true, false, not, ◌&&◌, ◌==◌, Option, none, some, List, [],
  ◌∷◌, String, Bool-cases, or_parts, str_eq, str_ne, eq_iff, arith, cut_at, cut_prefix_joined,
  Lacks, else_branch,
}
use agent_cred_broker.Audit.{Subject}
use agent_cred_broker.Authn.{
  sa_prefix, ReviewStatus, Refusal, Reply, accepted, denied, unreachable, replied, contains,
  account_of, subject_of, judge, decoded_reply, review,
}

-- The name is in the list.
abbrev pub Member : String → List String → Type 0
Member a [] = ⊥
Member a (b ∷ bs) = (b ≡ a) ⊎ Member a bs

contains-Member : (a : String) (bs : List String) → contains a bs ≡ true → Member a bs
unfolding contains
contains-Member a [] h = cc
contains-Member a (b ∷ bs) h = elim (or_parts (str_eq b a) (contains a bs) h) [
  | inl y ↦ inl ((eq_iff b a).0 y)
  | inr more ↦ inr (contains-Member a bs more)
]

-- What an accepted answer says: status 200 or 201, and a token that is authenticated, for the audience,
-- of a service account.
pub record Accepts (audience : String) (reply : Reply) (sub : Subject) : Type 0 where
  pub status : ℕ
  pub st : ReviewStatus
  pub answer : reply ≡ replied status (some st)
  pub ok : (status ≡ 201) ⊎ (status ≡ 200)
  pub authenticated : st.authenticated ≡ true
  pub audience_listed : Member audience st.audiences
  pub account : account_of st.username ≡ some (sub.namespace, sub.service_account)

subject_of-account :
    (st : ReviewStatus) (parts : Option (String × String)) (sub : Subject)
    → subject_of st parts ≡ accepted sub
    → parts ≡ some (sub.namespace, sub.service_account)
unfolding subject_of
subject_of-account st none sub h = cc
subject_of-account st (some parts) sub h = ap some (
    ap {B = String × String}
      (λ r. elim r [ accepted s ↦ (s.namespace, s.service_account) | denied d ↦ ("", "") ]) h)

is_ok :
    (status : ℕ)
    → (not (status == 201) && not (status == 200)) ≡ false
    → (status ≡ 201) ⊎ (status ≡ 200)
is_ok status h = elim (Bool-cases (status == 201)) [
  | inl y ↦ inl (ground arith)
  | inr n ↦ inr (ground arith)
]

-- Review accepts a subject only on an answer of the API server with status 200 or 201 that says that the
-- token is authenticated and lists the audience, and the subject is the service account of its username.
pub review-Accepts :
    (audience : String) (reply : Reply) (sub : Subject)
    → review audience reply ≡ accepted sub
    → Accepts audience reply sub
unfolding review decoded_reply judge
review-Accepts audience unreachable sub h = cc
review-Accepts audience (replied status none) sub h =
    let (ok, bad) =
      else_branch _ (denied Refusal.status) (decoded_reply audience none) (accepted sub) (λ x. cc)
        h in
    cc
review-Accepts audience (replied status (some st)) sub h =
    let (ok, judged) =
      else_branch _ (denied Refusal.status) (judge audience st) (accepted sub) (λ x. cc) h in
    let (known, rest) =
      else_branch _ (denied Refusal.token_rejected) _ (accepted sub) (λ x. cc) judged in
    let (listed, made) =
      else_branch _ (denied Refusal.audience_mismatch) _ (accepted sub) (λ x. cc) rest in
    record {
      status = status;
      st = st;
      answer = refl;
      ok = is_ok status ok;
      authenticated = ground arith;
      audience_listed = contains-Member audience st.audiences (ground arith);
      account = subject_of-account st _ sub made;
    }

account_of_joined :
    (namespace account : String)
    → namespace ≢ ""
    → account ≢ ""
    → Lacks 58 namespace
    → account_of (append_text sa_prefix (append_text namespace (append_text ":" account)))
      ≡ some (namespace, account)
unfolding account_of
account_of_joined namespace account full full' lacks =
    let e = cut_prefix_joined sa_prefix (append_text namespace (append_text ":" account)) in
    rw (e, cut_at 58 ":" namespace account refl lacks)
      (rw (str_ne namespace "" full, str_ne account "" full') refl)

-- An answer of status 200 or 201 for an authenticated token of the service account `account` of
-- `namespace` that lists the audience is accepted, for that namespace and account, if neither is empty
-- and the namespace has no colon.
pub review_accepts_account :
    (audience namespace account : String) (status : ℕ) (st : ReviewStatus)
    → ((status ≡ 201) ⊎ (status ≡ 200))
    → st.authenticated ≡ true
    → contains audience st.audiences ≡ true
    → st.username ≡ append_text sa_prefix (append_text namespace (append_text ":" account))
    → namespace ≢ ""
    → account ≢ ""
    → Lacks 58 namespace
    → (sub : Subject) × (review audience (replied status (some st)) ≡ accepted sub)
      × (sub.namespace ≡ namespace)
      × (sub.service_account ≡ account)
unfolding review decoded_reply judge account_of subject_of
review_accepts_account audience namespace account status st ok auth listed named full full' lacks =
    let fine : (not (status == 201) && not (status == 200)) ≡ false = ground arith in
    rw (fine, auth, listed, named, account_of_joined namespace account full full' lacks)
      (_, refl, refl, refl)
