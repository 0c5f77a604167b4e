-- ===== src/Examples/Stream.antt =====
-- A stream of three events, the second of which is not written.
use agent_cred_broker.Prelude.{ℕ, ◌≡◌, ◌↔◌, refl, true, none, some, List, [], ◌∷◌, length, arith}
use mathlib.Core.List.{Perm}
use agent_cred_broker.Audit.{Event, event, lease_issued, lease_renewed}
use agent_cred_broker.Audit.Emitter.{
  written, failed, emit, envelope, next_seq, sign_line, write_line, verify, valid,
}
use agent_cred_broker.Audit.Emitter.Signed.{verify-sign_line}
use agent_cred_broker.Verifier.{survey, sort, verify_streams}
use agent_cred_broker.Verifier.Sequence.{consecutive, no_breaks, no_breaks_iff}
use agent_cred_broker.Verifier.Stream.{clean_report, verify-run_emits}
use agent_cred_broker.Verifier.Written.{Emission, run_emits, lines_of}
use agent_cred_broker.Regexp.{Language, literal, match_string, codes}
use agent_cred_broker.Regexp.Correct.{match_string_iff}
use agent_cred_broker.Examples.PlainCodec.{plain, plain-IsCodec}
use agent_cred_broker.Examples.Sample.{emitter}

abbrev issued : Event
issued = event lease_issued "req_0" none none [] []

abbrev renewal : Event
renewal = event lease_renewed "req_1" none none [] []

abbrev emissions : List Emission
emissions =
    record { at = 5; writing = written; ev = issued }
    ∷ record { at = 6; writing = failed 0; ev = renewal }
    ∷ record { at = 7; writing = written; ev = renewal }
    ∷ []

three_lines : lines_of plain emissions emitter ≡ (51 ∷ 70 ∷ 81 ∷ []) ∷ (52 ∷ 71 ∷ 81 ∷ []) ∷ []
unfolding lines_of emit envelope next_seq sign_line write_line
three_lines = refl

verify-run_emits_example :
    verify_streams plain ((run_emits plain emissions emitter).out ∷ [])
    ≡ some (clean_report (length (lines_of plain emissions emitter)))
unfolding lines_of emit envelope next_seq sign_line write_line
verify-run_emits_example =
    verify-run_emits plain plain-IsCodec emissions emitter refl (tt, (refl, (tt, tt)))
      (omega arith, (omega arith, tt)) (omega arith)

signs : sign_line plain (envelope 5 issued emitter) ≡ some (51 ∷ 70 ∷ 81 ∷ [])
unfolding envelope next_seq sign_line
signs = refl

verify-sign_line_example :
    (f : Event) × (verify plain (51 ∷ 70 ∷ 81 ∷ []) ≡ valid f)
    × (f.broker ≡ (envelope 5 issued emitter).broker)
    × (f.event_type ≡ (envelope 5 issued emitter).event_type)
unfolding envelope
verify-sign_line_example =
    verify-sign_line plain plain-IsCodec (envelope 5 issued emitter) (51 ∷ 70 ∷ 81 ∷ []) refl signs

no_breaks_iff_example :
    (survey (sort (3 ∷ 1 ∷ 2 ∷ [])) no_breaks ≡ no_breaks)
    ↔ ((s : ℕ) × (n : ℕ) × Perm (3 ∷ 1 ∷ 2 ∷ []) (consecutive s n))
no_breaks_iff_example = no_breaks_iff (3 ∷ 1 ∷ 2 ∷ [])

match_string_iff_example :
    (match_string (literal "ab") "ab" ≡ true) ↔ Language (literal "ab") (codes "ab")
match_string_iff_example = match_string_iff (literal "ab") "ab"
