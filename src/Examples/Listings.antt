-- ===== src/Examples/Listings.antt =====
-- A scope of github-app and its token, the listings of the sample policy, a change of it, and a certificate
-- that is rotated.
use agent_cred_broker.Prelude.{
  ℕ, ◌≡◌, ◌≢◌, refl, none, some, [], ◌∷◌, map, String, Assoc, lookup, insert, cut, cut_prefix,
  split, join, trim_left, trim_right, trim_space, is_space, eq_iff,
}
use agent_cred_broker.Audit.{key}
use agent_cred_broker.Regexp.{match_string, matches, deriv, nullable}
use agent_cred_broker.Policy.{grant_for}
use agent_cred_broker.Policy.Patterns.{installation_ref}
use agent_cred_broker.Policy.Parse.Valid.{IsSound}
use agent_cred_broker.Policy.Parse.Parsed
use agent_cred_broker.Policy.Listing.Sorted.{InOrder, find}
use agent_cred_broker.Provider.{Result}
use agent_cred_broker.Provider.GitHub.{
  GitHubApp, Exchange, Reply, replied, app_jwt, parse_permissions, add_permissions, permission_of,
  store_permission, installation_id, token_fields, result_of, permissions_of, fetch,
}
use agent_cred_broker.Provider.GitHub.Parameters.{
  IsPermission, print_permission, parse_permissions-print, comma,
}
use agent_cred_broker.Provider.GitHub.Mint.{IsMinted, fetch-IsMinted}
use agent_cred_broker.Provider.GitHub.Accepted.{request_of, sound_scope_is_minted}
use agent_cred_broker.Policy.Watcher.{Watcher}
use agent_cred_broker.Server.Whoami.{handle_whoami}
use agent_cred_broker.Server.Whoami.Answers.{Shows, scope_name, whoami_is_faithful}
use agent_cred_broker.Broker.Reload.{tick}
use agent_cred_broker.Broker.Reload.Signed.{Outcome, policy_changes_are_announced}
use agent_cred_broker.Tls.{Files, fresh, get_certificate, serve_all}
use agent_cred_broker.Tls.Newest.{IsNewest, onto, served-IsNewest}
use agent_cred_broker.Examples.PlainCodec.{plain}
use agent_cred_broker.Examples.Sample.{broker, leases, caller, scope, loader, policy, parsed}

abbrev app : GitHubApp
app = record { base = "https://api.github.com"; app_id = "7"; signing = λ claims. some "jwt" }

-- GitHub mints a token for each exchange.
abbrev exchange : Exchange → Reply
exchange q = replied 201 (some ("ghs_1", 99))

abbrev minted : Result
minted = record { secret = ("token", "ghs_1") ∷ []; expires_at = 99 }

mints : fetch app exchange 5 (request_of scope 0) ≡ some minted
unfolding fetch installation_id installation_ref match_string matches deriv nullable cut_prefix
    permissions_of parse_permissions add_permissions permission_of store_permission split cut
    trim_space trim_left trim_right is_space app_jwt result_of token_fields lookup insert
mints = refl

fetch-IsMinted_example : IsMinted app exchange 5 (request_of scope 0) minted
unfolding lookup
fetch-IsMinted_example = fetch-IsMinted app exchange 5 (request_of scope 0) minted (refl, tt) mints

scope_IsSound : IsSound scope
unfolding lookup
scope_IsSound = ((Parsed.parse-IsValid loader "" policy parsed).scope_sound "repo" scope refl).1

signed : app_jwt app 5 ≡ some "jwt"
unfolding app_jwt
signed = refl

not_empty : ◌≢◌ {A = String} "ghs_1" ""
not_empty e = let y = (eq_iff "ghs_1" "").1 e in cc

not_zero : ◌≢◌ {A = ℕ} 99 0
not_zero e = cc

sound_scope_is_minted_example : (r : Result) × (fetch app exchange 5 (request_of scope 0) ≡ some r)
sound_scope_is_minted_example =
    sound_scope_is_minted app exchange 5 0 scope "jwt" "ghs_1" 99 scope_IsSound refl signed
      (λ q. refl) not_empty not_zero

abbrev levels : Assoc String
levels = ("contents", "read") ∷ ("issues", "write") ∷ []

contents_IsPermission : IsPermission ("contents", "read")
unfolding is_space
contents_IsPermission = record {
  named = λ e. let y = (eq_iff "contents" "").1 e in cc;
  name_solid = (refl, (refl, (refl, (refl, (refl, (refl, (refl, (refl, tt))))))));
  name_whole = (refl, (refl, (refl, (refl, (refl, (refl, (refl, (refl, tt))))))));
  name_lacks = (refl, (refl, (refl, (refl, (refl, (refl, (refl, (refl, tt))))))));
  level = λ e. let y = (eq_iff "read" "").1 e in cc;
  level_solid = (refl, (refl, (refl, (refl, tt))));
  level_whole = (refl, (refl, (refl, (refl, tt))));
}

issues_IsPermission : IsPermission ("issues", "write")
unfolding is_space
issues_IsPermission = record {
  named = λ e. let y = (eq_iff "issues" "").1 e in cc;
  name_solid = (refl, (refl, (refl, (refl, (refl, (refl, tt))))));
  name_whole = (refl, (refl, (refl, (refl, (refl, (refl, tt))))));
  name_lacks = (refl, (refl, (refl, (refl, (refl, (refl, tt))))));
  level = λ e. let y = (eq_iff "write" "").1 e in cc;
  level_solid = (refl, (refl, (refl, (refl, (refl, tt)))));
  level_whole = (refl, (refl, (refl, (refl, (refl, tt)))));
}

parse_permissions-print_example :
    parse_permissions (join comma (map print_permission levels)) ≡ levels
unfolding lookup
parse_permissions-print_example =
    parse_permissions-print levels (contents_IsPermission, (issues_IsPermission, tt))
      (refl, (refl, tt))

whoami_is_faithful_example :
    ((handle_whoami caller (broker leases)).status ≡ 200)
    × ((handle_whoami caller (broker leases)).subject ≡ caller.subject)
    × InOrder scope_name (handle_whoami caller (broker leases)).grants
    × ((n : String)
        → Shows
            (grant_for policy (key caller.subject) n)
            (find scope_name n (handle_whoami caller (broker leases)).grants))
whoami_is_faithful_example = whoami_is_faithful loader "" caller (broker leases) parsed

-- The store has an older policy, and reads the sample.
abbrev before : Watcher
before = record {
  current = record policy { hash = "sha256:9"; grant_by_subj = [] };
  last_sum = "sha256:9";
}

policy_changes_are_announced_example :
    Outcome plain
      (before, (broker leases).trail)
      (tick plain loader "" (some "") (before, (broker leases).trail))
policy_changes_are_announced_example =
    policy_changes_are_announced plain loader "" (some "") before (broker leases).trail

-- A good pair, and then a rotation whose key does not load.
abbrev good : Files String
good = record { modified = some 5; pair = some "cert" }

abbrev bad : Files String
bad = record { modified = some 9; pair = none }

served-IsNewest_example :
    ((get_certificate bad (serve_all (good ∷ []) fresh)).0
      ≡ (get_certificate bad (serve_all (good ∷ []) fresh)).1.cert)
    × IsNewest (bad ∷ onto (good ∷ []) []) (get_certificate bad (serve_all (good ∷ []) fresh)).1
served-IsNewest_example = served-IsNewest (good ∷ []) bad
