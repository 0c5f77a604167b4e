-- ===== src/Metrics.antt =====
-- internal/server/metrics.go: the registry of counters and gauges. A float64 value is a number of
-- billionths, so that counts and seconds are both whole; rounding of floats is not modelled.
use Prim.Native.Char.{code}
use Prim.Native.String.{◌++◌ as append_text, compare as compare_text}
use Prim.Native.Nat.{Ordering}
use agent_cred_broker.Prelude.{
  ℕ, ◌+◌, Bool, true, false, none, some, List, [], ◌∷◌, String, Assoc, lookup, insert, ◌==◌,
  if◌then◌else◌,
}

pub record Metrics : Type 0 where
  pub counters : Assoc (Assoc ℕ)
  pub gauges : Assoc (Assoc ℕ)

-- The value 1.
abbrev pub unit : ℕ
unit = 1000000000

-- strings.NewReplacer: backslash, quotation mark and newline.
replace : String → String
replace String.[] = ""
replace (String.◌∷◌ c s) =
    let rest = replace s in
    if code c == 92
    then append_text "\\\\" rest
    else if code c == 34
    then append_text "\\\"" rest
    else if code c == 10
    then append_text "\\n" rest
    else String.◌∷◌ c rest

-- The verb %q escapes a quotation mark and a backslash. (Text that is not printable is not modelled:
-- labels are policy names, event types and fixed words.)
quote_chars : String → String
quote_chars String.[] = ""
quote_chars (String.◌∷◌ c s) =
    let rest = quote_chars s in
    if code c == 92
    then append_text "\\\\" rest
    else if code c == 34
    then append_text "\\\"" rest
    else String.◌∷◌ c rest

text_le : String → String → Bool
text_le a b = elim (compare_text a b) [ Ordering.gt ↦ false | _ ↦ true ]

insert_key : String × String → Assoc String → Assoc String
insert_key kv [] = kv ∷ []
insert_key kv (x ∷ xs) = if text_le kv.0 x.0 then kv ∷ x ∷ xs else x ∷ insert_key kv xs

-- sort.Strings of the keys, each with its value.
sort_keys : Assoc String → Assoc String
sort_keys [] = []
sort_keys (kv ∷ m) = insert_key kv (sort_keys m)

-- fmt.Sprintf("%s=%q", k, v)
part : String × String → String
part (k, v) = append_text k (append_text "=\"" (append_text (quote_chars (replace v)) "\""))

join : List (String × String) → String
join [] = ""
join (kv ∷ []) = part kv
join (kv ∷ kw ∷ m) = append_text (part kv) (append_text "," (join (kw ∷ m)))

-- labelString
unfoldable pub label_string : Assoc String → String
unfolding replace quote_chars text_le insert_key sort_keys part join
label_string [] = ""
label_string (kv ∷ m) = append_text "{" (append_text (join (sort_keys (kv ∷ m))) "}")

series_of : String → Assoc (Assoc ℕ) → Assoc ℕ
series_of name m = elim (lookup name m) [ none ↦ [] | some set ↦ set ]

value_in : String → Assoc ℕ → ℕ
value_in k m = elim (lookup k m) [ none ↦ 0 | some v ↦ v ]

-- Add
unfoldable pub add : String → Assoc String → ℕ → Metrics → Metrics
unfolding label_string series_of value_in
add name labels v m =
    let set = series_of name m.counters in
    let k = label_string labels in
    record m { counters = insert name (insert k (value_in k set + v) set) m.counters }

-- Inc
unfoldable pub inc : String → Assoc String → Metrics → Metrics
unfolding add
inc name labels m = add name labels unit m

-- Set
unfoldable pub set : String → Assoc String → ℕ → Metrics → Metrics
unfolding label_string series_of
set name labels v m = record m {
  gauges = insert name (insert (label_string labels) v (series_of name m.gauges)) m.gauges;
}

-- A counter's value under its labels.
unfoldable pub counter : String → Assoc String → Metrics → ℕ
unfolding label_string series_of value_in
counter name labels m = value_in (label_string labels) (series_of name m.counters)
