-- ===== src/Examples/PlainCodec.antt =====
-- A codec of short lines for the events of one broker, with a constant signature: it satisfies what
-- internal/audit/audit.go relies on.
use Prim.Native.Char.{code}
use agent_cred_broker.Prelude.{
  ℕ, zero, suc, Option-cases, and_parts, ◌&&◌, ◌+◌, ◌-◌, ◌≡◌, ◌≢◌, refl, sym, ap, ◌∙◌, subst, inl,
  inr, Bool, true, Option, none, some, some-injective, none-ne-some, [], ◌∷◌, String, All, str_eq,
  eq_iff, Bool-cases, if◌then◌else◌, arith, ◌==◌,
}
use agent_cred_broker.Audit.{
  Event, BrokerInfo, event, lease_issued, lease_renewed, lease_surrendered, claim_recorded,
}
use agent_cred_broker.Audit.Codec.{Codec, IsCodec, Bytes, newline, SameEnvelope}

-- The types that the codec writes, and their bytes.
abbrev type_byte : String → Option ℕ
type_byte t =
    if str_eq t lease_issued
    then some 20
    else if str_eq t lease_renewed
    then some 21
    else if str_eq t lease_surrendered
    then some 22
    else if str_eq t claim_recorded
    then some 23
    else none

abbrev byte_type : ℕ → String
byte_type n =
    if n == 20
    then lease_issued
    else if n == 21
    then lease_renewed
    else if n == 22
    then lease_surrendered
    else claim_recorded

type_byte-byte_type : (t : String) (n : ℕ) → type_byte t ≡ some n → byte_type n ≡ t
type_byte-byte_type t n h = elim (Bool-cases (str_eq t lease_issued)) [
  | inl y ↦ known t n lease_issued 20 y refl (rw y at h)
  | inr a ↦
      let h1 = rw a at h in
      elim (Bool-cases (str_eq t lease_renewed)) [
        | inl y ↦ known t n lease_renewed 21 y refl (rw y at h1)
        | inr b ↦
            let h2 = rw b at h1 in
            elim (Bool-cases (str_eq t lease_surrendered)) [
              | inl y ↦ known t n lease_surrendered 22 y refl (rw y at h2)
              | inr d ↦
                  let h3 = rw d at h2 in
                  elim (Bool-cases (str_eq t claim_recorded)) [
                    | inl y ↦ known t n claim_recorded 23 y refl (rw y at h3)
                    | inr e ↦ absurd (none-ne-some n (rw e at h3))
                  ]
            ]
      ]
]
  where
    known :
        (t : String) (n : ℕ) (u : String) (m : ℕ)
        → str_eq t u ≡ true
        → byte_type m ≡ u
        → some m ≡ some n
        → byte_type n ≡ t
    known t n u m y named e =
        ap byte_type (sym (some-injective m n e)) ∙ named ∙ sym ((eq_iff t u).0 y)

-- The signature is empty or "s".
abbrev sig_byte : String → Option ℕ
sig_byte s = if str_eq s "" then some 30 else if str_eq s "s" then some 31 else none

abbrev byte_sig : ℕ → String
byte_sig n = if n == 30 then "" else "s"

sig_byte-byte_sig : (s : String) (n : ℕ) → sig_byte s ≡ some n → byte_sig n ≡ s
sig_byte-byte_sig s n h = elim (Bool-cases (str_eq s "")) [
  | inl y ↦ ap byte_sig (sym (some-injective 30 n (rw y at h))) ∙ sym ((eq_iff s "").0 y)
  | inr a ↦
      let h1 = rw a at h in
      elim (Bool-cases (str_eq s "s")) [
        | inl y ↦ ap byte_sig (sym (some-injective 31 n (rw y at h1))) ∙ sym ((eq_iff s "s").0 y)
        | inr b ↦ absurd (none-ne-some n (rw b at h1))
      ]
]

-- A line holds the number, the type and the signature of an event of the broker "broker" with the key
-- "kid"; no other event is marshalled.
abbrev is_ours : Event → Bool
is_ours e = str_eq e.broker.instance_name "broker" && str_eq e.broker.kid "kid"

abbrev line_of : ℕ → Option ℕ → Option ℕ → Option Bytes
line_of seq (some t) (some s) = some ((seq + 50) ∷ (t + 50) ∷ (s + 50) ∷ [])
line_of seq _ _ = none

abbrev marshal : Event → Option Bytes
marshal e =
    if is_ours e then line_of e.broker.seq (type_byte e.event_type) (sig_byte e.sig) else none

abbrev unmarshal : Bytes → Option Event
unmarshal (n ∷ t ∷ s ∷ []) = some (record (event (byte_type (t - 50)) "" none none [] []) {
  broker = record { instance_name = "broker"; kid = "kid"; seq = n - 50 };
  sig = byte_sig (s - 50);
})
unmarshal _ = none

abbrev without_sig : Bytes → Option Bytes
without_sig (n ∷ t ∷ s ∷ []) = some (n ∷ t ∷ 80 ∷ [])
without_sig _ = none

-- A number as so many "a" and a "b".
abbrev unary : ℕ → String → String
unary zero rest = String.◌∷◌ "b" rest
unary (suc n) rest = String.◌∷◌ "a" (unary n rest)

abbrev units : Bytes → String
units [] = ""
units (n ∷ ns) = unary n (units ns)

abbrev encode : Bytes → String
encode b = String.◌∷◌ "s" (units b)

abbrev bump : Option Bytes → Option Bytes
bump (some (n ∷ ns)) = some (suc n ∷ ns)
bump _ = none

abbrev cons_zero : Option Bytes → Option Bytes
cons_zero (some ns) = some (0 ∷ ns)
cons_zero none = none

abbrev from_units : String → Option Bytes
from_units String.[] = some []
from_units (String.◌∷◌ c s) =
    let rest = from_units s in if code c == 97 then bump rest else cons_zero rest

abbrev decode : String → Option Bytes
decode String.[] = none
decode (String.◌∷◌ c s) = from_units s

abbrev pub plain : Codec
plain = record {
  marshal = marshal;
  unmarshal = unmarshal;
  without_sig = without_sig;
  transform = some;
  encode = encode;
  decode = decode;
  sign = λ b. [];
  check = λ b s. true;
}

from_units-unary :
    (n : ℕ) (rest : String) (ns : Bytes)
    → from_units rest ≡ some ns
    → from_units (unary n rest) ≡ some (n ∷ ns)
from_units-unary zero rest ns h = rw h refl
from_units-unary (suc n) rest ns h = rw (from_units-unary n rest ns h) refl

from_units-units : (b : Bytes) → from_units (units b) ≡ some b
from_units-units [] = refl
from_units-units (n ∷ ns) = from_units-unary n (units ns) ns (from_units-units ns)

-- What is known of an event that is marshalled.
record Line (e : Event) (line : Bytes) : Type 0 where
  instance_name : e.broker.instance_name ≡ "broker"
  kid : e.broker.kid ≡ "kid"
  t : ℕ
  s : ℕ
  typed : type_byte e.event_type ≡ some t
  signed : sig_byte e.sig ≡ some s
  is : line ≡ (e.broker.seq + 50) ∷ (t + 50) ∷ (s + 50) ∷ []

marshal-Line : (e : Event) (line : Bytes) → marshal e ≡ some line → Line e line
marshal-Line e line h = elim (Bool-cases (is_ours e)) [
  | inr n ↦ absurd (none-ne-some line (rw n at h))
  | inl y ↦
      let h1 : line_of e.broker.seq (type_byte e.event_type) (sig_byte e.sig) ≡ some line =
        rw y at h in
      let ours = and_parts _ _ y in
      elim (Option-cases (type_byte e.event_type)) [
        | inl none_t ↦ absurd (none-ne-some line (rw none_t at h1))
        | inr (t, et) ↦ elim (Option-cases (sig_byte e.sig)) [
          | inl none_s ↦ absurd (none-ne-some line (rw (et, none_s) at h1))
          | inr (s, es) ↦ record {
            instance_name = (eq_iff e.broker.instance_name "broker").0 ours.0;
            kid = (eq_iff e.broker.kid "kid").0 ours.1;
            t = t;
            s = s;
            typed = et;
            signed = es;
            is = sym (some-injective _ line (rw (et, es) at h1));
          }
        ]
      ]
]

back : (n : ℕ) → n + 50 - 50 ≡ n
back n = omega arith

broker_of :
    (b : BrokerInfo)
    → b.instance_name ≡ "broker"
    → b.kid ≡ "kid"
    → Path BrokerInfo (record { instance_name = "broker"; kid = "kid"; seq = b.seq + 50 - 50 }) b
broker_of b named keyed =
    λ i. record { instance_name = sym named i; kid = sym keyed i; seq = back b.seq i }

decoded-Line :
    (e : Event) (line : Bytes)
    → Line e line
    → (f : Event) × (unmarshal line ≡ some f) × SameEnvelope f e
decoded-Line e line l =
    subst (λ k. (f : Event) × (unmarshal k ≡ some f) × SameEnvelope f e) (sym l.is)
      (
        _,
        refl,
        (
          broker_of e.broker l.instance_name l.kid,
          ap byte_sig (back l.s) ∙ sig_byte-byte_sig e.sig l.s l.signed,
          ap byte_type (back l.t) ∙ type_byte-byte_type e.event_type l.t l.typed,
        ),
      )

whole-Line : (e : Event) (line : Bytes) → Line e line → All (λ b. (b ≢ newline) × (b ≢ 13)) line
whole-Line e line l = subst (All (λ b. (b ≢ newline) × (b ≢ 13))) (sym l.is) (
  ((λ x. omega arith), (λ x. omega arith)),
  (((λ x. omega arith), (λ x. omega arith)), (((λ x. omega arith), (λ x. omega arith)), tt)),
)

stripped :
    (e : Event) (sig : String) (form line : Bytes)
    → e.sig ≡ ""
    → Line e form
    → Line (record e { sig = sig }) line
    → without_sig line ≡ some form
stripped e sig form line blank l m =
    let types : l.t ≡ m.t = some-injective _ _ (sym l.typed ∙ m.typed) in
    let none_yet : 30 ≡ l.s = some-injective _ _ (rw blank at l.signed) in
    rw (m.is, l.is, types)
      (ap (λ s. some ((e.broker.seq + 50) ∷ (m.t + 50) ∷ s ∷ [])) (ap (λ s. s + 50) none_yet))

pub plain-IsCodec : IsCodec plain
plain-IsCodec = record {
  decodes = λ e line h. decoded-Line e line (marshal-Line e line h);
  one_line = λ e line h. whole-Line e line (marshal-Line e line h);
  nonempty = λ e h. let is = (marshal-Line e [] h).is in cc;
  canonical = λ e sig p line form blank h f g. (
    p,
    stripped e sig p line blank (marshal-Line e p h) (marshal-Line (record e { sig = sig }) line g),
    f,
  );
  decode-encode = from_units-units;
  encode-sign_nonempty = λ b e. cc;
  check-sign = λ b. refl;
}
