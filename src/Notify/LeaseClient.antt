-- ===== src/Notify/LeaseClient.antt =====
-- internal/notify/lease.go: Lease, which asks the broker for the token of Home Assistant.
use Prim.Native.String.{◌++◌ as append_text}
use agent_cred_broker.Prelude.{
  suc, not, ◌||◌, ◌==◌, Option, none, some, [], ◌∷◌, ◌++◌, length, String, Assoc, lookup, str_eq,
  map_option, trim_space, if◌then◌else◌,
}
use agent_cred_broker.Notify.{
  LeaseRequest, Reply, unreachable, replied, Outside, Handler, ◌>>=◌, answer, reads,
}

pub record Lease : Type 0 where
  pub token : String
  pub lease_id : String

-- tokenFn
unfoldable pub own_token : Outside → Handler (Option String)
own_token o s = (
  map_option trim_space (o.read_token s.token_reads),
  record s { token_reads = suc s.token_reads },
)

abbrev token_field : Assoc String → String
token_field secret = elim (lookup "token" secret) [ none ↦ "" | some t ↦ t ]

-- What the client makes of an answer.
unfoldable pub lease_of : Reply → Option Lease
lease_of unreachable = none
lease_of (replied status none) = none
lease_of (replied status (some (id, secret))) =
    if not (status == 201)
    then none
    else if str_eq (token_field secret) "" || str_eq id ""
    then none
    else some (record { token = token_field secret; lease_id = id })

unfoldable pub ask : Outside → LeaseRequest → Handler (Option Lease)
ask o r s = (lease_of (o.broker (length s.leased) r), record s { leased = s.leased ++ r ∷ [] })

unfoldable pub ask_with : Outside → String → Assoc String → Option String → Handler (Option Lease)
ask_with o url context none = answer none
ask_with o url context (some token) = do
  scope ← reads (λ s. s.scope)
  ask o (record {
    url = url;
    authorization = append_text "Bearer " token;
    scope = scope;
    context = context;
  })

-- Lease. The URL is tested before the token is read.
unfoldable pub lease : Outside → Assoc String → Handler (Option Lease)
lease o context s =
    let url = append_text s.broker_url "/v1/leases" in
    if not (o.accepts url)
    then (none, s)
    else let (token, s') = own_token o s in ask_with o url context token s'
