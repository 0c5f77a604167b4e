-- ===== src/Verifier/Stream.antt =====
-- internal/audit/audit.go and cmd/acb-verify/main.go together: what the verifier counts in the
-- output of an emitter.
use agent_cred_broker.Prelude.{
  ℕ, zero, suc, ◌+◌, ◌<◌, ◌≡◌, ◌≢◌, refl, ap, ◌∙◌, some, List, [], ◌∷◌, ◌++◌, String, All, length,
  arith, ap₂, append-nil, append_assoc, if◌then◌else◌, ◌==◌,
}
use agent_cred_broker.Audit.{Event}
use agent_cred_broker.Audit.Codec.{Codec, IsCodec, Bytes}
use agent_cred_broker.Audit.Emitter.{Emitter, next_seq, envelope, sign_line, valid, verify}
use agent_cred_broker.Audit.Emitter.Signed.{parts, wrote, verify-sign_line}
use agent_cred_broker.Verifier.{
  split_lines, drop_cr, max_line, Tally, count, count_line, tally, Report, report, verify_streams,
}
use agent_cred_broker.Verifier.Sequence.{consecutive, no_breaks, survey-sort-consecutive}
use agent_cred_broker.Verifier.Written.{
  Emission, run_emits, lines_of, AllWhole, AreShort, ends, IsLine, split_lines-ends, drop_cr-line,
  one, append_seq-one, nothing, one_more, emits, out-run_emits,
}

-- What the verifier prints for n valid events of one instance and nothing else.
abbrev pub clean_report : ℕ → Report
clean_report n = record {
  events = n;
  valids = n;
  invalids = 0;
  seq_gaps = 0;
  duplicate_seqs = 0;
  instances = if n == 0 then 0 else 1;
}

module _ (c : Codec) (laws : IsCodec c) where
  lines_are_lines : (xs : List Emission) (e : Emitter) → AllWhole xs → All IsLine (lines_of c xs e)
  lines_are_lines [] e whole = unfold lines_of in tt
  lines_are_lines (x ∷ xs) e whole = elim (emits c x.at x.writing x.ev xs e whole.0) [
    | nothing f g ↦ rw g (lines_are_lines xs e whole.1)
    | one_more line s f g ↦ rw g (
      laws.one_line _ line (parts c (envelope x.at x.ev e) line s).signs,
      lines_are_lines xs (wrote line e) whole.1,
    )
  ]

  -- What the verifier has counted, if the numbers of the one instance are these.
  abbrev counted : ℕ → String → List ℕ → Tally
  counted n i qs = record { total = n; valids = n; invalids = 0; seqs = one i qs }

  count_nonempty :
      (line : Bytes) (t : Tally) → line ≢ [] → count_line c line t ≡ count (verify c line) t
  unfolding count_line
  count_nonempty [] t h = absurd (h refl)
  count_nonempty (b ∷ bs) t h = refl

  count_valid :
      (f : Event) (i : String) (q n : ℕ) (qs : List ℕ)
      → f.broker.instance_name ≡ i
      → f.broker.seq ≡ q
      → count (valid f) (counted n i qs) ≡ counted (n + 1) i (qs ++ q ∷ [])
  unfolding count
  count_valid f i q n qs hi hq = rw (hi, hq, append_seq-one i q qs)

  count_line-written :
      (x : Emission) (e : Emitter) (line : Bytes) (n : ℕ) (qs : List ℕ)
      → sign_line c (envelope x.at x.ev e) ≡ some line
      → count_line c (drop_cr line) (counted n e.instance_name qs)
        ≡ counted (n + 1) e.instance_name (qs ++ next_seq e ∷ [])
  unfolding envelope
  count_line-written x e line n qs s =
      let p = parts c (envelope x.at x.ev e) line s in
      let (f, ok, broker, kind) = verify-sign_line c laws (envelope x.at x.ev e) line refl s in
      let full : line ≢ [] = λ z. laws.nonempty _ (p.signs ∙ ap some z) in
      rw
        (
          drop_cr-line line (laws.one_line _ line p.signs),
          count_nonempty line (counted n e.instance_name qs) full,
          ok,
        )
        (count_valid f e.instance_name (next_seq e) n qs (ap (λ b. b.instance_name) broker)
          (ap (λ b. b.seq) broker))

  tally-cons :
      (line : Bytes) (ls : List Bytes) (t : Tally)
      → length line < max_line
      → tally c (line ∷ ls) t ≡ tally c ls (count_line c (drop_cr line) t)
  unfolding tally
  tally-cons line ls t h = ground arith

  next_seq_small : (e : Emitter) → e.seq + 1 < 18446744073709551616 → next_seq e ≡ e.seq + 1
  unfolding next_seq
  next_seq_small e h = omega arith

  regroup :
      (qs : List ℕ) (q s k : ℕ)
      → q ≡ s + 1
      → (qs ++ q ∷ []) ++ consecutive (q + 1) k ≡ qs ++ consecutive (s + 1) (suc k)
  regroup qs q s k h =
      append_assoc qs (q ∷ []) (consecutive (q + 1) k)
      ∙ ap (λ l. qs ++ l)
          (ap₂ (λ (a b : ℕ). a ∷ consecutive b k) h
            (let g : q + 1 ≡ suc (s + 1) = omega arith in g))

  tally-lines :
      (xs : List Emission) (e : Emitter) (n : ℕ) (qs : List ℕ)
      → AllWhole xs
      → AreShort (lines_of c xs e)
      → e.seq + length (lines_of c xs e) < 18446744073709551616
      → tally c (lines_of c xs e) (counted n e.instance_name qs)
        ≡ some (
            counted
              (n + length (lines_of c xs e))
              e.instance_name
              (qs ++ consecutive (e.seq + 1) (length (lines_of c xs e))))
  tally-lines [] e n qs whole short fits =
      let z : n + 0 ≡ n = omega arith in unfold lines_of tally in rw (z, append-nil qs)
  tally-lines (x ∷ xs) e n qs whole short fits = elim (emits c x.at x.writing x.ev xs e whole.0) [
    | nothing f g ↦ rw g (tally-lines xs e n qs whole.1 (rw g at short) (rw g at fits))
    | one_more line s f g ↦
        let e' = wrote line e in
        let short' : AreShort (line ∷ lines_of c xs e') = rw g at short in
        let i = e.instance_name in
        let fits' : e.seq + suc (length (lines_of c xs e')) < 18446744073709551616 = rw g at fits in
        let next = next_seq_small e (omega arith) in
        let k = length (lines_of c xs e') in
        let sum : n + 1 + k ≡ n + suc k = omega arith in
        rw g (
          tally-cons line (lines_of c xs e') (counted n i qs) short'.0
          ∙ ap (tally c (lines_of c xs e')) (count_line-written x e line n qs s)
          ∙ tally-lines xs e' (n + 1) (qs ++ next_seq e ∷ []) whole.1 short'.1 (omega (arith, next))
          ∙ ap₂ (λ (m : ℕ) (l : List ℕ). some (counted m i l)) sum
              (regroup qs (next_seq e) e.seq k next))
  ]

  report-counted : (i : String) (s n : ℕ) → report (counted n i (consecutive s n)) ≡ clean_report n
  unfolding report
  report-counted i s zero = refl
  report-counted i s (suc n) = rw (survey-sort-consecutive s (suc n) no_breaks) (ground arith)

  -- The lines of the stream of a new emitter are those that were written.
  pub split_lines-run_emits :
      (xs : List Emission) (e : Emitter)
      → e.out ≡ []
      → AllWhole xs
      → split_lines [] (run_emits c xs e).out ≡ lines_of c xs e
  split_lines-run_emits xs e fresh whole =
      ap (split_lines []) (out-run_emits c xs e whole ∙ ap (λ o. o ++ ends (lines_of c xs e)) fresh)
      ∙ split_lines-ends (lines_of c xs e) (lines_are_lines xs e whole)

  -- The verifier, run on all that an emitter has written, counts one valid event for each call of
  -- Emit that succeeded, no invalid one, no gap and no duplicate, whichever calls failed between
  -- them. The emitter has written nothing before, no write stops in the middle of a line, the lines
  -- fit the scanner and the sequence numbers do not wrap around.
  pub verify-run_emits :
      (xs : List Emission) (e : Emitter)
      → e.out ≡ []
      → AllWhole xs
      → AreShort (lines_of c xs e)
      → e.seq + length (lines_of c xs e) < 18446744073709551616
      → verify_streams c ((run_emits c xs e).out ∷ [])
        ≡ some (clean_report (length (lines_of c xs e)))
  unfolding verify_streams
  verify-run_emits xs e fresh whole short fits =
      let ls = lines_of c xs e in
      let split = split_lines-ends ls (lines_are_lines xs e whole) in
      let all = tally-lines xs e 0 [] whole short fits in
      let n = length ls in
      let out : (run_emits c xs e).out ≡ ends ls =
        out-run_emits c xs e whole ∙ ap (λ o. o ++ ends ls) fresh in
      let zero_add : 0 + n ≡ n = omega arith in
      rw (out, split, all) (rw zero_add (ap some (report-counted e.instance_name (e.seq + 1) n)))
