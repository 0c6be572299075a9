-- ===== src/Inbox/Examples.antt =====
-- A question, those who answer it, and the theorems at them.
use etnpilot.Common.{
  ◌≡◌, refl, true, none, some, is_some, List, [], ◌∷◌, All, null, whole, ok, err, arith,
}
use etnpilot.Inbox.Types.{approved, Row, Table, already_decided, from_row}
use etnpilot.Inbox.Ops.{
  get_row, Question, new_row, Said, said, decided_row, create, get, expire, decide, decide_known,
}
use etnpilot.Inbox.Calls.{create_call, decide_call, expire_call, perform, perform_all}
use etnpilot.Inbox.Decisions.{
  IsKeyed, RowIsSound, perform_all_settled, perform_all-IsSound, decide-answer,
}
use etnpilot.Inbox.Handler.{Event, polled, Answer, approve_once, handle, wait_for, evidence_of}
use etnpilot.Inbox.Approving.{is_yes_to, handle-approved}
use etnpilot.Inbox.Waiting.{handle_answers}

abbrev question : Question
question = record {
  kind = some "write";
  details = null;
  run_id = some "run";
  queue_job_id = none;
  agent = some "coder";
  policy = none;
  service_instance_id = none;
}

abbrev asked : Table
asked = new_row "q" 100 50 question ∷ []

abbrev words : Said
words = record { actor = "ann"; reason = none; scope = none }

abbrev agreed : Row
agreed = decided_row (said words approved) 120 (new_row "q" 100 50 question)

perform_all_settled_example :
    get_row "q" (
      perform_all
        (expire_call 500 ∷ decide_call "q" "rejected" words 501 501 501 ∷ [])
        (agreed ∷ []))
    ≡ some agreed
perform_all_settled_example =
    perform_all_settled (expire_call 500 ∷ decide_call "q" "rejected" words 501 501 501 ∷ []) "q"
      (agreed ∷ []) agreed refl refl

perform_all-IsSound_example :
    IsKeyed (perform_all (create_call "q" 100 (whole 50) question ∷ expire_call 500 ∷ []) [])
    × All RowIsSound
        (perform_all (create_call "q" 100 (whole 50) question ∷ expire_call 500 ∷ []) [])
perform_all-IsSound_example =
    perform_all-IsSound (create_call "q" 100 (whole 50) question ∷ expire_call 500 ∷ [])

decide-answer_example :
    (decide "q" "approved" words 120 121 122 asked).0 ≡ ok (some (from_row agreed))
decide-answer_example = decide-answer "q" "approved" words 120 121 122 asked (refl, tt)

decided_late : (decide "q" "approved" words 149 150 150 asked).0 ≡ err already_decided
decided_late = decide-answer "q" "approved" words 149 150 150 asked (refl, tt)

abbrev ann_agrees : List Event
ann_agrees = polled (decide_call "q" "approved" words 120 121 122 ∷ []) 130 ∷ []

abbrev yes : Answer
yes = record {
  kind = approve_once none none;
  approval_id = "q";
  evidence = evidence_of (from_row agreed);
}

handled : (handle "q" 100 (whole 50) question [] 101 ann_agrees []).0 ≡ some yes
unfolding handle wait_for create perform perform_all decide decide_known get expire
handled = refl

handle-approved_example :
    (r : Row) × (get_row "q" (handle "q" 100 (whole 50) question [] 101 ann_agrees []).1 ≡ some r)
    × (is_yes_to (approve_once none none) r.status ≡ true)
handle-approved_example = handle-approved "q" 100 50 question [] 101 ann_agrees [] yes handled refl

handle_answers_example :
    is_some (handle "q" 100 (whole 50) question [] 101 (polled [] 150 ∷ []) []).0 ≡ true
handle_answers_example =
    handle_answers "q" 100 50 question [] 101 (polled [] 150 ∷ []) [] tt refl (omega arith) refl
