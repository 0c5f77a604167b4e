-- ===== src/Prelude/Texts.antt =====
-- What the code uses of Go's packages strings and strconv: prefixes, cuts at one character, decimals.
use Prim.Native.Nat.{ℕ, zero, suc, ◌/◌, ◌%◌}
use Prim.Native.Char.{Char, code}
use Prim.Native.String.append
use Prim.Native.String.{String, ◌++◌ as append_text}
use mathlib.Core.Option.{Option, none, some}
use mathlib.Core.Path.{◌≡◌, refl}
use mathlib.Core.Bool.{Bool, true, false}
use native.Mathlib.Omega.{arith}
use agent_cred_broker.Prelude.Tests.{◌==◌, ltb, if◌then◌else◌}

-- CutPrefix: what follows the prefix, if the text begins with it.
unfoldable pub cut_prefix : String → String → Option String
cut_prefix String.[] s = some s
cut_prefix (String.◌∷◌ c p) String.[] = none
cut_prefix (String.◌∷◌ c p) (String.◌∷◌ d s) =
    let rest = cut_prefix p s in if code c == code d then rest else none

-- Cut at the first character of this code: the text before it and the text after it.
unfoldable pub cut : ℕ → String → Option (String × String)
cut sep String.[] = none
cut sep (String.◌∷◌ c s) =
    let rest = cut sep s in
    if code c == sep
    then some ("", s)
    else elim rest [ none ↦ none | some parts ↦ some (String.◌∷◌ c parts.0, parts.1) ]

-- No character of the text has the property.
abbrev pub Free : (ℕ → Bool) → String → Type 0
Free p String.[] = Unit
Free p (String.◌∷◌ c s) = (p (code c) ≡ false) × Free p s

-- No character of the text has this code.
abbrev pub Lacks : ℕ → String → Type 0
Lacks sep = Free (λ c. c == sep)

pub append-nil_text : (t : String) → append_text "" t ≡ t
append-nil_text t = λ i. append.nil t i

pub append-cons_text :
    (c : Char) (s t : String) → append_text (String.◌∷◌ c s) t ≡ String.◌∷◌ c (append_text s t)
append-cons_text c s t = λ i. append.cons c s t i

-- A text without the separator, the separator, and any text: the cut finds the two.
pub cut_joined :
    (sep : ℕ) (c : Char) (s t : String)
    → (code c == sep) ≡ true
    → Lacks sep s
    → cut sep (append_text s (String.◌∷◌ c t)) ≡ some (s, t)
unfolding cut
cut_joined sep c String.[] t h lacks = rw (append-nil_text (String.◌∷◌ c t), cut) (rw h)
cut_joined sep c (String.◌∷◌ d s) t h lacks =
    let ih = cut_joined sep c s t h lacks.1 in
    rw (append-cons_text d s (String.◌∷◌ c t), cut) (rw (lacks.0, ih))

-- A prefix is cut off again.
pub cut_prefix_joined : (p s : String) → cut_prefix p (append_text p s) ≡ some s
unfolding cut_prefix
cut_prefix_joined String.[] s = rw (append-nil_text s) refl
cut_prefix_joined (String.◌∷◌ c p) s =
    let ih = cut_prefix_joined p s in
    let same : (code c == code c) ≡ true = ground arith in
    rw (append-cons_text c p s, cut_prefix) (rw (same, ih))

-- The same for a separator that is a text of one character.
pub cut_at :
    (sep : ℕ) (c : Char) (s t : String)
    → (code c == sep) ≡ true
    → Lacks sep s
    → cut sep (append_text s (append_text (String.◌∷◌ c "") t)) ≡ some (s, t)
cut_at sep c s t h lacks =
    rw (append-cons_text c "" t, append-nil_text t) (cut_joined sep c s t h lacks)

-- The decimal digits of n, in fewer digits than the fuel.
digit : ℕ → String
digit zero = "0"
digit (suc zero) = "1"
digit (suc (suc zero)) = "2"
digit (suc (suc (suc zero))) = "3"
digit (suc (suc (suc (suc zero)))) = "4"
digit (suc (suc (suc (suc (suc zero))))) = "5"
digit (suc (suc (suc (suc (suc (suc zero)))))) = "6"
digit (suc (suc (suc (suc (suc (suc (suc zero))))))) = "7"
digit (suc (suc (suc (suc (suc (suc (suc (suc zero)))))))) = "8"
digit n = "9"

decimal_within : ℕ → ℕ → String
unfolding digit
decimal_within zero n = ""
decimal_within (suc fuel) n =
    let rest = decimal_within fuel (n / 10) in
    if ltb n 10 then digit n else append_text rest (digit (n % 10))

-- Sprintf with the verb %d: a number has at most as many digits as its value, and 0 has one.
unfoldable pub decimal : ℕ → String
unfolding decimal_within
decimal n = decimal_within (suc n) n
