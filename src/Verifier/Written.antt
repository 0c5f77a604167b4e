-- ===== src/Verifier/Written.antt =====
-- internal/audit/audit.go: what a history of calls of Emit leaves in the stream, line by line.
use agent_cred_broker.Prelude.{
  ℕ, ◌+◌, ◌≤◌, ◌<◌, ◌≡◌, ◌≢◌, refl, ap, sym, ◌∙◌, none, some, List, [], ◌∷◌, ◌++◌, String, All,
  length, arith, append-nil, append_assoc, Option-cases, inl, inr, lookup, insert, Assoc, eq_refl,
}
use agent_cred_broker.Time.{Instant}
use agent_cred_broker.Audit.{Event}
use agent_cred_broker.Audit.Codec.{Codec, Bytes, newline}
use agent_cred_broker.Audit.Emitter.{
  Emitter, Writing, written, failed, next_seq, envelope, sign_line, write_line, emit,
}
use agent_cred_broker.Audit.Emitter.Signed.{wrote}
use agent_cred_broker.Verifier.{drop_cr, max_line, split_lines, append_seq}

-- One call of Emit: the time, what becomes of the write, and the event.
pub record Emission : Type 0 where
  pub at : Instant
  pub writing : Writing
  pub ev : Event

unfoldable pub run_emits : Codec → List Emission → Emitter → Emitter
run_emits c [] e = e
run_emits c (x ∷ xs) e = run_emits c xs (emit c x.at x.writing x.ev e).1

-- The lines that are written in full.
unfoldable pub lines_of : Codec → List Emission → Emitter → List Bytes
lines_of c [] e = []
lines_of c (x ∷ xs) e =
    let rest = lines_of c xs (emit c x.at x.writing x.ev e).1 in
    elim (sign_line c (envelope x.at x.ev e)) [
      | none ↦ rest
      | some line ↦ elim x.writing [ written ↦ line ∷ rest | failed n ↦ rest ]
    ]

-- No write stops in the middle of a line, and no line is too long for the scanner.
abbrev pub IsWhole : Writing → Type 0
IsWhole written = Unit
IsWhole (failed n) = n ≡ 0

abbrev pub AllWhole : List Emission → Type 0
AllWhole [] = Unit
AllWhole (x ∷ xs) = IsWhole x.writing × AllWhole xs

abbrev pub AreShort : List Bytes → Type 0
AreShort = All (λ l. length l < max_line)

-- Lines with their ends.
abbrev pub ends : List Bytes → Bytes
ends [] = []
ends (l ∷ ls) = (l ++ newline ∷ []) ++ ends ls

abbrev pub IsLine : Bytes → Type 0
IsLine = All (λ b. (b ≢ newline) × (b ≢ 13))

split_lines-line :
    (current l rest : Bytes)
    → IsLine l
    → split_lines current ((l ++ newline ∷ []) ++ rest) ≡ (current ++ l) ∷ split_lines [] rest
unfolding split_lines
split_lines-line current [] rest h = rw (append-nil current)
split_lines-line current (b ∷ l) rest h =
    ground
      (arith, split_lines-line (current ++ b ∷ []) l rest h.1, append_assoc current (b ∷ []) l, h.0)

pub split_lines-ends : (ls : List Bytes) → All IsLine ls → split_lines [] (ends ls) ≡ ls
split_lines-ends [] h = unfold split_lines in refl
split_lines-ends (l ∷ ls) h =
    split_lines-line [] l (ends ls) h.0 ∙ ap (λ (m : List Bytes). l ∷ m) (split_lines-ends ls h.1)

pub drop_cr-line : (l : Bytes) → IsLine l → drop_cr l ≡ l
unfolding drop_cr
drop_cr-line [] h = refl
drop_cr-line (b ∷ []) h = ground (arith, h.0)
drop_cr-line (b ∷ b' ∷ l) h = ap (λ (m : Bytes). b ∷ m) (drop_cr-line (b' ∷ l) h.1)

-- The numbers of one instance, in the map of the verifier.
abbrev pub one : String → List ℕ → Assoc (List ℕ)
one i [] = []
one i (q ∷ qs) = (i, q ∷ qs) ∷ []

pub append_seq-one :
    (i : String) (q : ℕ) (qs : List ℕ) → append_seq i q (one i qs) ≡ one i (qs ++ q ∷ [])
unfolding append_seq lookup insert
append_seq-one i q [] = refl
append_seq-one i q (p ∷ qs) = rw (eq_refl i, append_seq) (rw (eq_refl i, insert))

-- What one call does to the lines: nothing, or one more line.
pub data Emits (c : Codec) (x : Emission) (xs : List Emission) (e : Emitter) : Type 0 where
  nothing :
      (emit c x.at x.writing x.ev e).1 ≡ e
      → lines_of c (x ∷ xs) e ≡ lines_of c xs e
      → Emits c x xs e
  one_more :
      (line : Bytes)
      → sign_line c (envelope x.at x.ev e) ≡ some line
      → (emit c x.at x.writing x.ev e).1 ≡ wrote line e
      → lines_of c (x ∷ xs) e ≡ line ∷ lines_of c xs (wrote line e)
      → Emits c x xs e

same_emitter : (e : Emitter) → record e { out = e.out ++ [] } ≡ e
same_emitter e = rw (append-nil e.out)

pub emits :
    (c : Codec) (at : Instant) (w : Writing) (ev : Event) (xs : List Emission) (e : Emitter)
    → IsWhole w
    → Emits c (record { at = at; writing = w; ev = ev }) xs e
unfolding emit write_line lines_of
emits c at w ev xs e whole = elim (Option-cases (sign_line c (envelope at ev e))) [
  | inl f ↦ nothing (rw (f, emit)) (rw (f, lines_of) (rw (f, emit)))
  | inr (line, f) ↦ by_writing w whole line f
]
  where
    by_writing :
        (w : Writing)
        → IsWhole w
        → (line : Bytes) → sign_line c (envelope at ev e) ≡ some line
        → Emits c (record { at = at; writing = w; ev = ev }) xs e
    by_writing written whole line f =
        one_more line f (rw (f, emit)) (rw (f, lines_of) (rw (f, emit)))
    by_writing (failed n) whole line f =
        nothing (rw (f, emit) (rw whole (same_emitter e)))
          (rw (f, lines_of) (rw (f, emit) (rw whole (ap (lines_of c xs) (same_emitter e)))))

pub out-run_emits :
    (c : Codec) (xs : List Emission) (e : Emitter)
    → AllWhole xs
    → (run_emits c xs e).out ≡ e.out ++ ends (lines_of c xs e)
unfolding run_emits
out-run_emits c [] e whole = unfold lines_of in sym (append-nil e.out)
out-run_emits c (x ∷ xs) e whole = elim (emits c x.at x.writing x.ev xs e whole.0) [
  | nothing f g ↦ rw (f, g, run_emits) (out-run_emits c xs e whole.1)
  | one_more line s f g ↦
      rw (f, g, run_emits)
        (out-run_emits c xs (wrote line e) whole.1
          ∙ append_assoc e.out (line ++ newline ∷ []) (ends (lines_of c xs (wrote line e))))
]

-- 1 if the call writes its line in full.
written_by : Codec → Emission → Emitter → ℕ
written_by c x e = elim (sign_line c (envelope x.at x.ev e)) [
  | none ↦ 0
  | some line ↦ elim x.writing [ written ↦ 1 | failed n ↦ 0 ]
]

written_by-le-one : (c : Codec) (x : Emission) (e : Emitter) → written_by c x e ≤ 1
unfolding written_by
written_by-le-one c x e = ground arith

seq-emit :
    (c : Codec) (x : Emission) (e : Emitter)
    → e.seq + 1 < 18446744073709551616
    → (emit c x.at x.writing x.ev e).1.seq ≡ e.seq + written_by c x e
unfolding emit write_line next_seq written_by
seq-emit c x e h = ground arith

length-lines_of :
    (c : Codec) (x : Emission) (xs : List Emission) (e : Emitter)
    → length (lines_of c (x ∷ xs) e)
      ≡ written_by c x e + length (lines_of c xs (emit c x.at x.writing x.ev e).1)
unfolding lines_of written_by
length-lines_of c x xs e = ground arith

-- The sequence number counts the lines: whatever writes fail, and wherever they stop, it goes up by
-- one for each line that was written in full. The numbers do not wrap around.
pub seq-run_emits :
    (c : Codec) (xs : List Emission) (e : Emitter)
    → e.seq + length xs < 18446744073709551616
    → (run_emits c xs e).seq ≡ e.seq + length (lines_of c xs e)
unfolding run_emits
seq-run_emits c [] e fits = unfold lines_of in omega arith
seq-run_emits c (x ∷ xs) e fits =
    let one = seq-emit c x e (omega arith) in
    let few = written_by-le-one c x e in
    let rest = seq-run_emits c xs (emit c x.at x.writing x.ev e).1 (omega (arith, one, few)) in
    omega (arith, one, rest, length-lines_of c x xs e)
