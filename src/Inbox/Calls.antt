-- ===== src/Inbox/Calls.antt =====
-- src/core/approval-inbox.js: the calls of the methods, as data, with the random id and the times
-- that each reads, and the table after any sequence of them.
use etnpilot.Common.{ℕ, List, [], ◌∷◌, String, JsNumber}
use etnpilot.Inbox.Types.{Table}
use etnpilot.Inbox.Ops.{Question, Said, create, get, list_approvals, decide, expire}

pub data Call : Type 0 where
  create_call : (id : String) (now : ℕ) → JsNumber → Question → Call
  get_call : (id : String) (now : ℕ) → Call
  list_call : (status : String) → JsNumber → (now : ℕ) → Call
  decide_call : (id decision : String) → Said → (now expiry seen : ℕ) → Call
  expire_call : (now : ℕ) → Call

unfoldable pub perform : Call → Table → Table
unfolding expire
perform (create_call id now timeout q) t = (create id now timeout q t).1
perform (get_call id now) t = (get id now t).1
perform (list_call status limit now) t = (list_approvals status limit now t).1
perform (decide_call id decision s now expiry seen) t = (decide id decision s now expiry seen t).1
perform (expire_call now) t = expire now t

unfoldable pub perform_all : List Call → Table → Table
perform_all [] t = t
perform_all (c ∷ cs) t = perform_all cs (perform c t)
