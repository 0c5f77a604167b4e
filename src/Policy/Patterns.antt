-- ===== src/Policy/Patterns.antt =====
-- internal/policy/policy.go: the patterns that Parse matches, each anchored at both ends.
use agent_cred_broker.Prelude.{ℕ, Bool, ◌&&◌, ◌||◌, ◌==◌, leb}
use agent_cred_broker.Regexp.{Regexp, seq, alt, star, class, plus, optional, times, literal}

abbrev between : ℕ → ℕ → ℕ → Bool
between a b c = leb a c && leb c b

-- [a-z], [0-9] and [A-Z]
abbrev pub is_lower : ℕ → Bool
is_lower = between 97 122

abbrev pub is_digit : ℕ → Bool
is_digit = between 48 57

abbrev is_upper : ℕ → Bool
is_upper = between 65 90

abbrev lower_or_digit : Regexp
lower_or_digit = class (λ c. is_lower c || is_digit c)

-- [a-z0-9]{26}
abbrev pub op_id : Regexp
op_id = times 26 lower_or_digit

-- opRefPattern: vaults/[a-z0-9]{26}/items/[a-z0-9]{26}
unfoldable pub op_ref : Regexp
op_ref = seq (literal "vaults/") (seq op_id (seq (literal "/items/") op_id))

-- ghInstallationRefPattern: installations/[0-9]+
unfoldable pub installation_ref : Regexp
installation_ref = seq (literal "installations/") (plus (class is_digit))

abbrev pub permission : Regexp
permission =
    seq (plus (class (λ c. is_lower c || (c == 95))))
      (seq (literal "=") (alt (literal "read") (alt (literal "write") (literal "admin"))))

-- r(,r)*
abbrev pub comma_list : Regexp → Regexp
comma_list r = seq r (star (seq (literal ",") r))

-- ghPermissionsPattern: [a-z_]+=(read|write|admin), in a list with commas
unfoldable pub permissions : Regexp
permissions = comma_list permission

-- ghRepositoriesPattern: [A-Za-z0-9._-]+, in a list with commas
unfoldable pub repositories : Regexp
repositories = comma_list (
    plus
      (class (λ c. is_upper c || is_lower c || is_digit c || (c == 46) || (c == 95) || (c == 45))))

-- [a-z0-9]([-a-z0-9]*[a-z0-9])?
abbrev label : Regexp
label =
    seq lower_or_digit
      (optional (seq (star (class (λ c. (c == 45) || is_lower c || is_digit c))) lower_or_digit))

-- subjectKeyPattern: two labels with a slash between them
unfoldable pub subject_key : Regexp
subject_key = seq label (seq (literal "/") label)
