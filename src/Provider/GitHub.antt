-- ===== src/Provider/GitHub.antt =====
-- internal/provider/github.go: NewGitHubApp's base, appJWT, Fetch, parsePermissions and parseList. JSON, base64,
-- RSA and SHA-256 are in the parameter `Signing`, a signature over the claims that may fail; the answer
-- of the token exchange is the parameter `exchange`. ParseKey is the library's.
pub mod Parameters
pub mod Mint
pub mod Codes
pub mod Accepted
use Prim.Native.String.{◌++◌ as append_text}
use agent_cred_broker.Prelude.{
  ℕ, Bool, true, false, not, ◌||◌, ◌==◌, Option, none, some, List, [], ◌∷◌, String, Assoc, ℤ, pos,
  negsuc, lookup, insert, ◌>>=◌, str_eq, cut, cut_prefix, split, trim_space, trim_right,
  if◌then◌else◌,
}
use agent_cred_broker.Time.{Instant, add, is_zero, second, unix}
use agent_cred_broker.Regexp.{match_string}
use agent_cred_broker.Policy.Patterns.{installation_ref}
use agent_cred_broker.Provider.{Request, Result}

-- The claims of the App's token.
pub record Claims : Type 0 where
  pub issued_at : ℤ
  pub expires_at : ℤ
  pub issuer : String

-- The serialized and signed token; none if a step of it fails.
abbrev pub Signing : Type 0
Signing = Claims → Option String

-- What the exchange is asked for.
pub record Exchange : Type 0 where
  pub url : String
  pub authorization : String
  pub permissions : Assoc String
  pub repositories : List String

-- The answer: none, when the request cannot be built or sent, or a status with a body that may not decode
-- into a token and its end.
pub data Reply : Type 0 where
  unreachable : Reply
  replied : ℕ → Option (String × Instant) → Reply

pub record GitHubApp : Type 0 where
  pub base : String
  pub app_id : String
  pub signing : Signing

-- NewGitHubApp
unfoldable pub new_github_app : String → String → Signing → GitHubApp
new_github_app base_url app_id signing = record {
  base =
      trim_right (λ b. b == 47) (if str_eq base_url "" then "https://api.github.com" else base_url);
  app_id = app_id;
  signing = signing;
}

-- appJWT: issued 30 seconds ago, to end in 9 minutes.
unfoldable pub app_jwt : GitHubApp → Instant → Option String
app_jwt g now = g.signing (record {
  issued_at = unix (add now (negsuc 29999999999));
  expires_at = unix (add now (pos 540000000000));
  issuer = g.app_id;
})

-- The key and the value of one part, if it is well formed.
abbrev entry_of : Option (String × String) → Option (String × String)
entry_of none = none
entry_of (some (k, v)) =
    if str_eq (trim_space k) "" || str_eq (trim_space v) ""
    then none
    else some (trim_space k, trim_space v)

unfoldable pub permission_of : String → Option (String × String)
permission_of part =
    if str_eq (trim_space part) "" then none else entry_of (cut 61 (trim_space part))

unfoldable pub store_permission : Option (String × String) → Assoc String → Assoc String
store_permission none m = m
store_permission (some (k, v)) m = insert k v m

unfoldable pub add_permissions : Assoc String → List String → Assoc String
add_permissions m [] = m
add_permissions m (part ∷ parts) = add_permissions (store_permission (permission_of part) m) parts

-- parsePermissions
unfoldable pub parse_permissions : String → Assoc String
parse_permissions s = let parts = split 44 s in add_permissions [] (parts.0 ∷ parts.1)

-- The parts that are not blank, trimmed.
unfoldable pub trimmed : List String → List String
trimmed [] = []
trimmed (part ∷ parts) =
    let rest = trimmed parts in if str_eq (trim_space part) "" then rest else trim_space part ∷ rest

-- parseList
unfoldable pub parse_list : String → List String
parse_list s = let parts = split 44 s in trimmed (parts.0 ∷ parts.1)

-- Reading a key that a map of strings lacks gives "".
abbrev pub param : String → Assoc String → String
param k m = elim (lookup k m) [ none ↦ "" | some v ↦ v ]

-- ghInstallationRef, with the digits that it captures.
unfoldable pub installation_id : String → Option String
installation_id ref =
    if match_string installation_ref ref then cut_prefix "installations/" ref else none

-- The loop over the fields of the request.
unfoldable pub token_fields : String → Assoc String → Assoc String → Option (Assoc String)
token_fields token out [] = some out
token_fields token out ((field, key) ∷ fields) =
    let rest = token_fields token (insert field token out) fields in
    if not (str_eq key "token") then none else rest

unfoldable pub result_of : Assoc String → Reply → Option Result
result_of fields unreachable = none
result_of fields (replied status none) = none
result_of fields (replied status (some (token, expires_at))) =
    if not (status == 201) || str_eq token "" || is_zero expires_at
    then none
    else token_fields token [] fields >>= λ out.
        some (record { secret = out; expires_at = expires_at })

-- A scope without permissions would get all of the installation's: it gets nothing.
unfoldable pub permissions_of : Assoc String → Option (Assoc String)
permissions_of params = elim (parse_permissions (param "permissions" params)) [
  | [] ↦ none
  | p ∷ ps ↦ some (p ∷ ps)
]

-- Fetch, at this time. A result of none is an error.
unfoldable pub fetch : GitHubApp → (Exchange → Reply) → Instant → Request → Option Result
fetch g exchange now req = do
  id ← installation_id req.ref
  permissions ← permissions_of req.params
  jwt ← app_jwt g now
  result_of req.fields (
      exchange (record {
        url =
            append_text g.base
              (append_text "/app/installations/" (append_text id "/access_tokens"));
        authorization = append_text "Bearer " jwt;
        permissions = permissions;
        repositories = parse_list (param "repositories" req.params);
      }))
