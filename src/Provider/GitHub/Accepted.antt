-- ===== src/Provider/GitHub/Accepted.antt =====
-- internal/provider/github.go and internal/policy/policy.go: Fetch tests the reference, the permissions and
-- the fields of a scope again; a scope that Parse lets through passes these tests.
use agent_cred_broker.Prelude.{
  ℕ, ◌≡◌, ◌≢◌, refl, sym, ap, ◌∙◌, subst, inl, inr, ◌⊎◌, Bool, true, false, ◌||◌, ◌==◌, Option,
  none, some, List, [], ◌∷◌, ◌++◌, All, String, Assoc, pos, insert, str_eq, eq_iff, str_ne,
  is_space, trim_space, trim_space-Free, split, arith, Bool-cases,
}
use agent_cred_broker.Time.{Instant}
use agent_cred_broker.Regexp.{
  class, seq, alt, codes, literal, match_string, Star, stop, more, Language,
}
use agent_cred_broker.Regexp.Correct.{match_string_iff}
use agent_cred_broker.Policy.{Scope}
use agent_cred_broker.Policy.Patterns.{is_lower, permission, installation_ref, permissions}
use agent_cred_broker.Policy.Parse.{param}
use agent_cred_broker.Policy.Parse.Valid.{IsSound}
use agent_cred_broker.Provider.{Request, Result}
use agent_cred_broker.Provider.GitHub.Codes.{
  chars-Language, cut_prefix-codes, Free-codes, All-append, All-map, split-codes, cut-codes,
}
use agent_cred_broker.Provider.GitHub.{
  GitHubApp, Exchange, Reply, replied, app_jwt, permission_of, store_permission, add_permissions,
  parse_permissions, installation_id, token_fields, result_of, permissions_of, fetch,
}

-- The reference that the pattern accepts names an installation.
installation_id-some :
    (ref : String)
    → match_string installation_ref ref ≡ true
    → (id : String) × (installation_id ref ≡ some id)
unfolding installation_id installation_ref
installation_id-some ref h =
    let (u, v, e, l, rest) = (match_string_iff installation_ref ref).0 h in
    let (id, found) =
      cut_prefix-codes "installations/" ref v
        (e ∙ ap (λ (w : List ℕ). w ++ v) (chars-Language (codes "installations/") u l)) in
    (id, rw (h, found) refl)

-- The code points of a name: neither spaces nor commas nor equals signs.
abbrev is_name : ℕ → Bool
is_name c = is_lower c || (c == 95)

Star-All : (u : List ℕ) → Star (Language (class is_name)) u → All (λ b. is_name b ≡ true) u
Star-All u stop = tt
Star-All u (more b [] t e (d, f, y) rest) =
    let head : b ≡ d = cc in rw e (rw head y, Star-All t rest)
Star-All u (more b (x ∷ s) t e (d, f, y) rest) = cc

abbrev Solid : ℕ → Type 0
Solid c = (is_space c ≡ false) × ((c == 44) ≡ false)

name-Solid : (c : ℕ) → is_name c ≡ true → Solid c
unfolding is_space
name-Solid c h = ground arith

name_unequal : (c : ℕ) → is_name c ≡ true → (c == 61) ≡ false
name_unequal c h = ground arith

-- A level is one of three words.
level-Solid :
    (u : List ℕ)
    → Language (alt (literal "read") (alt (literal "write") (literal "admin"))) u
    → (u ≢ []) × All Solid u
unfolding is_space
level-Solid u (inl h) = rw (chars-Language (codes "read") u h) ((λ e. cc), ground arith)
level-Solid u (inr (inl h)) = rw (chars-Language (codes "write") u h) ((λ e. cc), ground arith)
level-Solid u (inr (inr h)) = rw (chars-Language (codes "admin") u h) ((λ e. cc), ground arith)

-- The shape of one permission.
record Shape (u : List ℕ) : Type 0 where
  name : List ℕ
  level : List ℕ
  is : u ≡ name ++ 61 ∷ level
  named : name ≢ []
  name_is : All (λ b. is_name b ≡ true) name
  level_is : (level ≢ []) × All Solid level

permission-Shape : (u : List ℕ) → Language permission u → Shape u
permission-Shape u
      (s, t, e, (first, others, e1, (b, e2, y), more_is), (eq_sign, level, e3, lit, lev)) =
    let sign = chars-Language (codes "=") eq_sign lit in
    record {
      name = b ∷ others;
      level = level;
      is = e ∙ (rw (e1, e2, e3, sign) refl);
      named = λ z. cc;
      name_is = (y, Star-All others more_is);
      level_is = level-Solid level lev;
    }

no_space : (a : List ℕ) (s : String) → codes s ≡ a → All Solid a → trim_space s ≡ s
no_space a s e h =
    trim_space-Free s (Free-codes is_space s (rw e (All-map a (λ c (x : Solid c). x.0) h)))

nonempty : (a : List ℕ) (s : String) → codes s ≡ a → a ≢ [] → str_eq s "" ≡ false
nonempty a s e h = str_ne s "" (λ z. h (sym e ∙ ap codes z))

Shape-Solid : (u : List ℕ) → Shape u → All Solid u
unfolding is_space
Shape-Solid u h = rw h.is (
    All-append Solid h.name (61 ∷ h.level) (All-map h.name name-Solid h.name_is)
      ((refl, refl), h.level_is.1))

Shape-ne-nil : (u : List ℕ) → Shape u → u ≢ []
Shape-ne-nil u h z = go h.name (sym h.is ∙ z)
  where
    go : (a : List ℕ) → a ++ 61 ∷ h.level ≡ [] → ⊥
    go [] e = cc
    go (x ∷ a) e = cc

-- A part of this shape is read as a permission.
permission_of-Shape :
    (part : String) (u : List ℕ)
    → codes part ≡ u
    → Shape u
    → (p : String × String) × (permission_of part ≡ some p)
unfolding permission_of
permission_of-Shape part u e h =
    let (k, v, found, first, second) =
      cut-codes 61 part h.name h.level (e ∙ h.is) (All-map h.name name_unequal h.name_is) in
    let whole = no_space u part e (Shape-Solid u h) in
    let key = no_space h.name k first (All-map h.name name-Solid h.name_is) in
    let level = no_space h.level v second h.level_is.1 in
    let full = nonempty u part e (Shape-ne-nil u h) in
    let named = nonempty h.name k first h.named in
    let levelled = nonempty h.level v second h.level_is.0 in
    ((k, v), rw (whole, full, found) (rw (key, level, named, levelled) refl))

insert-ne-nil : (k v : String) (m : Assoc String) → insert k v m ≢ []
unfolding insert
insert-ne-nil k v [] e = cc
insert-ne-nil k v ((j, w) ∷ m) e = elim (Bool-cases (str_eq j k)) [
  | inl y ↦ let e' = rw (y, insert) at e in cc
  | inr n ↦ let e' = rw (n, insert) at e in cc
]

store-ne-nil :
    (o : Option (String × String)) (m : Assoc String) → m ≢ [] → store_permission o m ≢ []
unfolding store_permission
store-ne-nil none m h = h
store-ne-nil (some (k, v)) m h = insert-ne-nil k v m

add_permissions-ne-nil :
    (m : Assoc String) (parts : List String) → m ≢ [] → add_permissions m parts ≢ []
unfolding add_permissions
add_permissions-ne-nil m [] h = h
add_permissions-ne-nil m (part ∷ parts) h =
    add_permissions-ne-nil (store_permission (permission_of part) m) parts
      (store-ne-nil (permission_of part) m h)

-- After one permission there is nothing, or a comma.
comma_next :
    (b : List ℕ)
    → Star (Language (seq (literal ",") permission)) b
    → (b ≡ []) ⊎ ((t : List ℕ) × (b ≡ 44 ∷ t))
comma_next b stop = inl refl
comma_next b (more d s t e (u, v, e1, lit, rest) later) =
    let sign = chars-Language (codes ",") u lit in
    let same : d ∷ s ≡ 44 ∷ v = e1 ∙ ap (λ (w : List ℕ). w ++ v) sign in
    let head : d ≡ 44 = cc in inr (s ++ t, e ∙ ap (λ n. n ∷ (s ++ t)) head)

parse_permissions-ne-nil :
    (s : String) → match_string permissions s ≡ true → parse_permissions s ≢ []
unfolding parse_permissions permissions add_permissions store_permission
parse_permissions-ne-nil s h =
    let (a, b, e, l, rest) = (match_string_iff permissions s).0 h in
    let shape = permission-Shape a l in
    let solid = All-map a (λ c (x : Solid c). x.1) (Shape-Solid a shape) in
    let first = split-codes 44 s a b e solid (comma_next b rest) in
    let (p, read) = permission_of-Shape (split 44 s).0 a first shape in
    subst (λ o. add_permissions (store_permission o []) (split 44 s).1 ≢ []) (sym read)
      (add_permissions-ne-nil (insert p.0 p.1 []) (split 44 s).1 (insert-ne-nil p.0 p.1 []))

permissions_of-full :
    (params : Assoc String)
    → parse_permissions (param "permissions" params) ≢ []
    → (ps : Assoc String) × (permissions_of params ≡ some ps)
unfolding permissions_of
permissions_of-full params h =
    elim (parse_permissions (param "permissions" params))
        as (λ l.
          l ≢ []
          → (ps : Assoc String) × ((elim l [ [] ↦ none | p ∷ qs ↦ some (p ∷ qs) ]) ≡ some ps)) [
            | [] ↦ λ ne. absurd (ne refl)
            | p ∷ qs ↦ λ ne. (p ∷ qs, refl)
          ]
      h

token_fields-some :
    (token : String) (out fields : Assoc String)
    → All (λ kv. kv.1 ≡ "token") fields
    → (secret : Assoc String) × (token_fields token out fields ≡ some secret)
unfolding token_fields
token_fields-some token out [] h = (out, refl)
token_fields-some token out ((field, key) ∷ fields) h =
    let named = (eq_iff key "token").1 h.0 in
    let (secret, found) = token_fields-some token (insert field token out) fields h.1 in
    (secret, rw named found)

result_of-some :
    (fields : Assoc String) (token : String) (end : Instant)
    → All (λ kv. kv.1 ≡ "token") fields
    → token ≢ ""
    → end ≢ 0
    → (r : Result) × (result_of fields (replied 201 (some (token, end))) ≡ some r)
unfolding result_of
result_of-some fields token end h full ends =
    let (secret, found) = token_fields-some token [] fields h in
    let e : (end == 0) ≡ false = ground arith in
    (record { secret = secret; expires_at = end }, rw (str_ne token "" full, e, found) refl)

connect_is_other : ◌≢◌ {A = String} "onepassword-connect" "github-app"
connect_is_other e = let y = (eq_iff "onepassword-connect" "github-app").1 e in cc

-- The request of a scope.
abbrev pub request_of : Scope → Instant → Request
request_of s ttl = record { ref = s.ref; fields = s.fields; params = s.params; ttl = pos ttl }

-- A scope of github-app that Parse lets through passes every test that Fetch repeats: if the App's token is
-- signed, and GitHub answers each exchange with status 201, a token that is not empty and its end, then
-- Fetch gives a result.
pub sound_scope_is_minted :
    (g : GitHubApp) (exchange : Exchange → Reply) (now ttl : Instant) (s : Scope)
    (jwt token : String) (end : Instant)
    → IsSound s
    → s.provider ≡ "github-app"
    → app_jwt g now ≡ some jwt
    → ((q : Exchange) → exchange q ≡ replied 201 (some (token, end)))
    → token ≢ ""
    → end ≢ 0
    → (r : Result) × (fetch g exchange now (request_of s ttl) ≡ some r)
unfolding fetch
sound_scope_is_minted g exchange now ttl s jwt token end sound github signed replies full ends =
    elim sound.reference [
      | inl op ↦ absurd (connect_is_other (sym op.0 ∙ github))
      | inr (is, form, permitted, repos, tokens) ↦
          let (id, named) = installation_id-some s.ref form in
          let (ps, pinned) =
            permissions_of-full s.params
              (parse_permissions-ne-nil (param "permissions" s.params) permitted) in
          let (r, minted) = result_of-some s.fields token end tokens full ends in
          (r, rw (named, pinned, signed, replies) minted)
    ]
