-- ===== src/Examples/Providers.antt =====
-- A secret of 1Password Connect, and a cached probe.
use agent_cred_broker.Prelude.{◌≡◌, refl, some, [], ◌∷◌, String, lookup, insert, pos}
use agent_cred_broker.Regexp.{match_string, matches, deriv, nullable}
use agent_cred_broker.Policy.Patterns.{op_ref}
use agent_cred_broker.Provider.{Request, Result}
use agent_cred_broker.Provider.OnePassword.{
  Reply, replied, by_label, full_value, pick, secret_of, fetch,
}
use agent_cred_broker.Provider.OnePassword.Secrets.{IsWhole, fetch-IsWhole}

abbrev request : Request
request = record {
  ref = "vaults/abcdefghijklmnopqrstuvwxyz/items/abcdefghijklmnopqrstuvwxy7";
  fields = ("user", "username") ∷ ("pass", "password") ∷ [];
  params = [];
  ttl = pos 0;
}

abbrev connect : String → Reply
connect path = replied 200 (
    some (
      record { label = "username"; value = "bot" }
      ∷ record { label = "password"; value = "s3cret" }
      ∷ record { label = "notes"; value = "" }
      ∷ []))

abbrev secret : Result
secret = record { secret = ("user", "bot") ∷ ("pass", "s3cret") ∷ []; expires_at = 0 }

fetches : fetch connect request ≡ some secret
unfolding fetch secret_of pick full_value by_label lookup insert op_ref match_string matches deriv
    nullable
fetches = refl

fetch-IsWhole_example : IsWhole connect request secret
unfolding lookup
fetch-IsWhole_example = fetch-IsWhole connect request secret (refl, (refl, tt)) fetches
