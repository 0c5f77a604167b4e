-- ===== src/Provider/GitHub/Mint.antt =====
-- internal/provider/github.go: what a secret that Fetch returns comes from.
use Prim.Native.String.{◌++◌ as append_text}
use agent_cred_broker.Prelude.{
  ◌≡◌, ◌≢◌, refl, sym, ap, ◌∙◌, subst, inl, inr, false, not, ◌||◌, Option, none, some,
  some-injective, none-ne-some, [], ◌∷◌, String, Assoc, lookup, insert, lookup-insert, Unique,
  bind-eq-some, else_branch, Bool-cases, str_eq, eq_iff, ◌==◌, arith, ==_iff,
}
use agent_cred_broker.Time.{Instant, is_zero}
use agent_cred_broker.Provider.{Request, Result}
use agent_cred_broker.Provider.GitHub.{
  GitHubApp, Exchange, Reply, unreachable, replied, app_jwt, parse_permissions, parse_list, param,
  installation_id, token_fields, result_of, permissions_of, fetch,
}

-- Each field of the request has the token, and there is no other.
abbrev pub Holds : String → Assoc String → Assoc String → String → Option String → Type 0
Holds token out secret field none = lookup field secret ≡ lookup field out
Holds token out secret field (some key) = (key ≡ "token") × (lookup field secret ≡ some token)

Holds-inserted :
    (token : String) (out secret : Assoc String) (k f : String) (o : Option String)
    → str_eq k f ≡ false
    → Holds token (insert k token out) secret f o
    → Holds token out secret f o
Holds-inserted token out secret k f none n h = h ∙ rw (lookup-insert k f token out, n) refl
Holds-inserted token out secret k f (some key) n h = h

token_fields-Holds :
    (token : String) (out fields secret : Assoc String)
    → Unique fields
    → token_fields token out fields ≡ some secret
    → (f : String) → Holds token out secret f (lookup f fields)
unfolding token_fields lookup
token_fields-Holds token out [] secret u h f = ap (lookup f) (sym (some-injective out secret h))
token_fields-Holds token out ((k, key) ∷ fields) secret u h f =
    let (is, rest) =
      else_branch (not (str_eq key "token")) none (token_fields token (insert k token out) fields)
        (some secret) (none-ne-some secret) h in
    let ih = token_fields-Holds token (insert k token out) fields secret u.1 rest f in
    elim (Bool-cases (str_eq k f)) [
      | inl y ↦
          let absent : lookup f fields ≡ none =
            subst (λ x. lookup x fields ≡ none) ((eq_iff k f).0 y) u.0 in
          let read : Holds token (insert k token out) secret f none =
            subst (Holds token (insert k token out) secret f) absent ih in
          let named : key ≡ "token" = ground (arith, eq_iff key "token") in
          rw (y, lookup) (named, read ∙ rw (lookup-insert k f token out, y) refl)
      | inr n ↦ rw (n, lookup) (Holds-inserted token out secret k f (lookup f fields) n ih)
    ]

-- What stands behind a result of Fetch.
pub record IsMinted (g : GitHubApp) (exchange : Exchange → Reply) (now : Instant) (req : Request)
    (r : Result) : Type 0 where
  pub id : String
  pub jwt : String
  pub token : String
  pub asked : Exchange
  pub form : installation_id req.ref ≡ some id
  pub signed : app_jwt g now ≡ some jwt
  pub url_is :
      asked.url
      ≡ append_text g.base (append_text "/app/installations/" (append_text id "/access_tokens"))
  pub bearer : asked.authorization ≡ append_text "Bearer " jwt
  pub pinned : asked.permissions ≡ parse_permissions (param "permissions" req.params)
  pub some_permission : asked.permissions ≢ []
  pub repositories : asked.repositories ≡ parse_list (param "repositories" req.params)
  pub answer : exchange asked ≡ replied 201 (some (token, r.expires_at))
  pub full : token ≢ ""
  pub ends : r.expires_at ≢ 0
  pub fields : (f : String) → Holds token [] r.secret f (lookup f req.fields)

permissions_of-some :
    (params ps : Assoc String)
    → permissions_of params ≡ some ps
    → (ps ≡ parse_permissions (param "permissions" params)) × (ps ≢ [])
unfolding permissions_of
permissions_of-some params ps h =
    elim (parse_permissions (param "permissions" params))
        as (λ l. (elim l [ [] ↦ none | p ∷ qs ↦ some (p ∷ qs) ]) ≡ some ps → (ps ≡ l) × (ps ≢ [])) [
          | [] ↦ λ e. absurd (none-ne-some ps e)
          | p ∷ qs ↦ λ e. (
            sym (some-injective (p ∷ qs) ps e),
            (λ z. let z' = some-injective (p ∷ qs) ps e ∙ z in cc),
          )
        ]
      h

result_of-minted :
    (fields : Assoc String) (reply : Reply) (r : Result)
    → Unique fields
    → result_of fields reply ≡ some r
    → (token : String) × (reply ≡ replied 201 (some (token, r.expires_at)))
      × (token ≢ "")
      × (r.expires_at ≢ 0)
      × ((f : String) → Holds token [] r.secret f (lookup f fields))
unfolding result_of
result_of-minted fields unreachable r u h = absurd (none-ne-some r h)
result_of-minted fields (replied status none) r u h = absurd (none-ne-some r h)
result_of-minted fields (replied status (some (token, end))) r u h =
    let (good, rest) =
      else_branch (not (status == 201) || str_eq token "" || is_zero end) none _ (some r)
        (none-ne-some r) h in
    let (out, found, same) = bind-eq-some (token_fields token [] fields) _ rest in
    let is = some-injective _ r same in
    let created : status ≡ 201 = ground (arith, ==_iff status 201) in
    let ends = ap (λ (x : Result). x.expires_at) is in
    (
      token,
      ap (λ n. replied n (some (token, end))) created
          ∙ ap (λ n. replied 201 (some (token, n))) ends,
      (λ e. let y = (eq_iff token "").1 e in ground arith),
      (λ e. ground arith),
      (λ f.
          subst (λ x. Holds token [] x f (lookup f fields)) (ap (λ (x : Result). x.secret) is)
            (token_fields-Holds token [] fields out u found f)),
    )

-- A result of Fetch is a token that GitHub minted, status 201 and not empty, for the installation of the
-- reference, with exactly the permissions and repositories that the scope's parameters pin, of which there
-- is at least one permission. Each field of the request holds the token, no other field exists, and the
-- result ends when the token does. The request names each field once.
pub fetch-IsMinted :
    (g : GitHubApp) (exchange : Exchange → Reply) (now : Instant) (req : Request) (r : Result)
    → Unique req.fields
    → fetch g exchange now req ≡ some r
    → IsMinted g exchange now req r
unfolding fetch
fetch-IsMinted g exchange now req r u h =
    let (id, form, h1) = bind-eq-some (installation_id req.ref) _ h in
    let (permissions, pinned, h2) = bind-eq-some (permissions_of req.params) _ h1 in
    let (jwt, signed, h3) = bind-eq-some (app_jwt g now) _ h2 in
    let asked : Exchange = record {
      url =
          append_text g.base (append_text "/app/installations/" (append_text id "/access_tokens"));
      authorization = append_text "Bearer " jwt;
      permissions = permissions;
      repositories = parse_list (param "repositories" req.params);
    } in
    let (token, answer, full, ends, fields) = result_of-minted req.fields (exchange asked) r u h3 in
    let p = permissions_of-some req.params permissions pinned in
    record {
      id = id;
      jwt = jwt;
      token = token;
      asked = asked;
      form = form;
      signed = signed;
      url_is = refl;
      bearer = refl;
      pinned = p.0;
      some_permission = p.1;
      repositories = refl;
      answer = answer;
      full = full;
      ends = ends;
      fields = fields;
    }
