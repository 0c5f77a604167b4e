-- ===== src/Notify/HomeAssistant.antt =====
-- internal/notify/ha.go: the calls that the binary can make at all, and Call.
pub mod Ceiling
use Prim.Native.Char.{code}
use Prim.Native.String.{◌++◌ as append_text}
use agent_cred_broker.Prelude.{
  ℕ, ◌+◌, ◌-◌, ◌/◌, ◌%◌, suc, Bool, true, false, not, ◌||◌, ◌&&◌, ◌==◌, leb, ltb, Option, none,
  some, List, [], ◌∷◌, ◌++◌, length, String, Assoc, str_eq, if◌then◌else◌,
}
use agent_cred_broker.Regexp.{match_string}
use agent_cred_broker.Notify.Grants.{ha_target}
use agent_cred_broker.Notify.{HaValue, HaRequest, Outside, Proxy, Handler}

-- haAllowed. haServiceNameRe is the pattern of the policy's targets.
unfoldable pub ha_allowed : String → String → Bool
ha_allowed domain service =
    if str_eq domain "notify"
    then match_string ha_target service
    else if str_eq domain "persistent_notification"
    then str_eq service "create" || str_eq service "dismiss"
    else false

-- The bytes of one code point in UTF-8.
unfoldable pub utf8 : ℕ → List ℕ
utf8 c =
    if ltb c 128
    then c ∷ []
    else if ltb c 2048
    then (192 + c / 64) ∷ (128 + c % 64) ∷ []
    else if ltb c 65536
    then (224 + c / 4096) ∷ (128 + c / 64 % 64) ∷ (128 + c % 64) ∷ []
    else (240 + c / 262144) ∷ (128 + c / 4096 % 64) ∷ (128 + c / 64 % 64) ∷ (128 + c % 64) ∷ []

nth_digit : ℕ → List String → String
nth_digit n [] = ""
nth_digit n (d ∷ ds) = let later = nth_digit (n - 1) ds in if n == 0 then d else later

abbrev hex_digits : List String
hex_digits =
    "0" ∷ "1" ∷ "2" ∷ "3" ∷ "4" ∷ "5" ∷ "6" ∷ "7" ∷ "8" ∷ "9" ∷ "A" ∷ "B" ∷ "C" ∷ "D" ∷ "E" ∷ "F"
    ∷ []

unfoldable pub percent : List ℕ → String
unfolding nth_digit
percent [] = ""
percent (b ∷ bs) = append_text "%" (
    append_text (nth_digit (b / 16) hex_digits)
      (append_text (nth_digit (b % 16) hex_digits) (percent bs)))

-- The code points that url.PathEscape leaves: letters, digits, and - _ . ~ $ & + : = @
unfoldable pub unescaped : ℕ → Bool
unescaped c =
    (leb 97 c && leb c 122)
    || (leb 65 c && leb c 90)
    || (leb 48 c && leb c 57)
    || (c == 45)
    || (c == 95)
    || (c == 46)
    || (c == 126)
    || (c == 36)
    || (c == 38)
    || (c == 43)
    || (c == 58)
    || (c == 61)
    || (c == 64)

-- url.PathEscape
unfoldable pub path_escape : String → String
path_escape String.[] = ""
path_escape (String.◌∷◌ c s) =
    let rest = path_escape s in
    if unescaped (code c) then String.◌∷◌ c rest else append_text (percent (utf8 (code c))) rest

unfoldable pub service_url : String → String → String → String
service_url base domain service = append_text base (
    append_text "/api/services/"
      (append_text (path_escape domain) (append_text "/" (path_escape service))))

-- The request is sent, and its answer's status is read; a transport error gives none.
unfoldable pub send : Outside → HaRequest → Handler (Option ℕ)
send o r s = (o.home_assistant (length s.sent) r, record s { sent = s.sent ++ r ∷ [] })

-- Call. A nil error comes with a status; with an error the status is 0.
unfoldable pub call : Outside → String → String → String → Assoc HaValue → Handler (Option ℕ)
call o token domain service body s =
    let url = service_url s.ha_base domain service in
    if not (ha_allowed domain service) || not (o.accepts url)
    then (none, s)
    else send o (record { url = url; authorization = append_text "Bearer " token; body = body }) s
