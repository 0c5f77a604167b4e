-- ===== src/Verifier.antt =====
-- cmd/acb-verify/main.go: the offline check of a stream of events. The readers are the bytes of the
-- files; what is printed besides the final counts is not modelled.
pub mod Sequence
pub mod Written
pub mod Stream
use agent_cred_broker.Prelude.{
  ℕ, zero, suc, ◌+◌, ◌-◌, Bool, true, false, Option, none, some, List, [], ◌∷◌, ◌++◌, String,
  length, ltb, leb, ◌==◌, Assoc, lookup, insert, if◌then◌else◌, ◌>>=◌,
}
use agent_cred_broker.Audit.{Event}
use agent_cred_broker.Audit.Codec.{Codec, Bytes, newline}
use agent_cred_broker.Audit.Emitter.{Verdict, valid, invalid, verify}

-- bufio.ScanLines takes a carriage return off the end of a line.
unfoldable pub drop_cr : Bytes → Bytes
drop_cr [] = []
drop_cr (b ∷ []) = if b == 13 then [] else b ∷ []
drop_cr (b ∷ c ∷ bs) = b ∷ drop_cr (c ∷ bs)

-- The most that the scanner holds, 1 << 20.
abbrev pub max_line : ℕ
max_line = 1048576

-- The end of the input ends a line that is not empty.
last_line : Bytes → List Bytes
last_line [] = []
last_line (b ∷ bs) = (b ∷ bs) ∷ []

-- The lines, without their ends.
unfoldable pub split_lines : Bytes → Bytes → List Bytes
unfolding last_line
split_lines current [] = last_line current
split_lines current (b ∷ bs) =
    let rest = split_lines (if b == newline then [] else current ++ b ∷ []) bs in
    if b == newline then current ∷ rest else rest

pub record Tally : Type 0 where
  pub total : ℕ
  pub valids : ℕ
  pub invalids : ℕ
  pub seqs : Assoc (List ℕ)

abbrev pub empty_tally : Tally
empty_tally = record { total = 0; valids = 0; invalids = 0; seqs = [] }

-- seqs[instance] = append(seqs[instance], seq)
unfoldable pub append_seq : String → ℕ → Assoc (List ℕ) → Assoc (List ℕ)
append_seq i q m = elim (lookup i m) [
  | none ↦ insert i (q ∷ []) m
  | some qs ↦ insert i (qs ++ q ∷ []) m
]

count : Verdict → Tally → Tally
count (valid ev) t = record t {
  total = t.total + 1;
  valids = t.valids + 1;
  seqs = append_seq ev.broker.instance_name ev.broker.seq t.seqs;
}
count (invalid f) t = record t { total = t.total + 1; invalids = t.invalids + 1 }

count_line : Codec → Bytes → Tally → Tally
count_line c [] t = t
count_line c (b ∷ bs) t = count (verify c (b ∷ bs)) t

-- The scan of one reader; `none` is a line that is too long.
unfoldable pub tally : Codec → List Bytes → Tally → Option Tally
unfolding count count_line drop_cr
tally c [] t = some t
tally c (line ∷ lines) t =
    let rest = tally c lines (count_line c (drop_cr line) t) in
    if leb max_line (length line) then none else rest

unfoldable pub tally_all : Codec → List Bytes → Tally → Option Tally
unfolding split_lines tally
tally_all c [] t = some t
tally_all c (r ∷ readers) t = do t' ← tally c (split_lines [] r) t; tally_all c readers t'

-- sort.Slice by <
unfoldable pub insert_sorted : ℕ → List ℕ → List ℕ
insert_sorted q [] = q ∷ []
insert_sorted q (r ∷ rs) = if leb q r then q ∷ r ∷ rs else r ∷ insert_sorted q rs

unfoldable pub sort : List ℕ → List ℕ
unfolding insert_sorted
sort [] = []
sort (q ∷ qs) = insert_sorted q (sort qs)

pub record Breaks : Type 0 where
  pub gaps : ℕ
  pub dups : ℕ

-- The switch on the distance between neighbours.
unfoldable pub note : ℕ → Breaks → Breaks
note d b =
    if d == 0
    then record b { dups = b.dups + 1 }
    else if ltb 1 d
    then record b { gaps = b.gaps + 1 }
    else b

-- The loop over a sorted list, from its second entry; the loop adds to its counts.
unfoldable pub survey_from : ℕ → List ℕ → Breaks → Breaks
survey_from p [] b = b
survey_from p (q ∷ qs) b = survey_from q qs (note (q - p) b)

unfoldable pub survey : List ℕ → Breaks → Breaks
unfolding survey_from note
survey [] b = b
survey (q ∷ qs) b = survey_from q qs b

unfoldable pub survey_all : Assoc (List ℕ) → Breaks → Breaks
unfolding sort survey
survey_all [] b = b
survey_all ((i, qs) ∷ m) b = survey_all m (survey (sort qs) b)

pub record Report : Type 0 where
  pub events : ℕ
  pub valids : ℕ
  pub invalids : ℕ
  pub seq_gaps : ℕ
  pub duplicate_seqs : ℕ
  pub instances : ℕ

report : Tally → Report
unfolding survey_all
report t =
    let b = survey_all t.seqs (record { gaps = 0; dups = 0 }) in
    record {
      events = t.total;
      valids = t.valids;
      invalids = t.invalids;
      seq_gaps = b.gaps;
      duplicate_seqs = b.dups;
      instances = length t.seqs;
    }

-- The final counts; `none` is exit code 2.
unfoldable pub verify_streams : Codec → List Bytes → Option Report
unfolding tally_all report
verify_streams c readers = do t ← tally_all c readers empty_tally; some (report t)

abbrev pub exit_code : Option Report → ℕ
exit_code none = 2
exit_code (some r) = if ltb 0 r.invalids then 1 else 0
