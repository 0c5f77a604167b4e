-- ===== src/Notify/HomeAssistant/Ceiling.antt =====
-- internal/notify/ha.go: PathEscape changes nothing in a service name, so that a call's URL is written
-- from the very names that were tested.
use Prim.Native.Char.{code}
use Prim.Native.String.{◌++◌ as append_text}
use text.Mathlib.TextLemmas.{append_assoc as text_assoc}
use agent_cred_broker.Prelude.{ℕ, ◌≡◌, refl, sym, ap, Bool, true, List, [], ◌∷◌, All, String, arith}
use agent_cred_broker.Regexp.{class, seq, star, codes, match_string, Star, stop, more, Language}
use agent_cred_broker.Regexp.Correct.{match_string_iff}
use agent_cred_broker.Notify.Grants.{is_target_char, ha_target}
use agent_cred_broker.Notify.HomeAssistant.{unescaped, path_escape, service_url}

-- A word of [p]* holds only characters of p.
Star-All : (p : ℕ → Bool) {u : List ℕ} → Star (Language (class p)) u → All (λ b. p b ≡ true) u
Star-All p stop = tt
Star-All p (more b [] t e (b', f, y) rest) =
    let head : b ≡ b' = cc in rw e (rw head y, Star-All p rest)
Star-All p (more b (d ∷ s) t e (b', f, y) rest) = cc

plus-All :
    (p : ℕ → Bool) (u : List ℕ)
    → Language (seq (class p) (star (class p))) u
    → All (λ b. p b ≡ true) u
plus-All p u (s, t, e, (b, f, y), rest) = rw (e, f) (y, Star-All p rest)

pub ha_target-All :
    (t : String) → match_string ha_target t ≡ true → All (λ b. is_target_char b ≡ true) (codes t)
unfolding ha_target
ha_target-All t h = plus-All is_target_char (codes t) ((match_string_iff ha_target t).0 h)

target_unescaped : (b : ℕ) → is_target_char b ≡ true → unescaped b ≡ true
unfolding unescaped
target_unescaped b h = ground arith

path_escape-All : (t : String) → All (λ b. is_target_char b ≡ true) (codes t) → path_escape t ≡ t
unfolding path_escape
path_escape-All String.[] h = refl
path_escape-All (String.◌∷◌ c s) h = rw (target_unescaped (code c) h.0, path_escape-All s h.1) refl

pub path_escape-ha_target : (t : String) → match_string ha_target t ≡ true → path_escape t ≡ t
path_escape-ha_target t h = path_escape-All t (ha_target-All t h)

-- The URL of a push.
pub service_url_push :
    (base t : String)
    → match_string ha_target t ≡ true
    → service_url base "notify" t ≡ append_text base (append_text "/api/services/notify/" t)
unfolding service_url path_escape unescaped
service_url_push base t h =
    let same = path_escape-ha_target t h in
    let joined = text_assoc "/api/services/" "notify/" t in
    let inner = text_assoc "notify" "/" t in ap (append_text base) (rw (same, ← inner) (sym joined))
