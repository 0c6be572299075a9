-- ===== src/Receipts/Lines.antt =====
-- src/runtime/jsonl.js: reading a file line by line, with its limit on the length of a line.
use etnpilot.Common.{
  ℕ, ◌+◌, ◌*◌, Bool, Option, none, some, List, [], ◌∷◌, map, if◌then◌else◌, ltb, Json, Result, ok,
  err,
}

-- What JSON.parse makes of the text of a line, or nothing if that is no JSON.
abbrev pub Line : Type 0
Line = Option Json

-- A line of a file: its bytes are counted without its newline.
pub record FileLine : Type 0 where
  pub content : Line
  pub bytes : ℕ

abbrev pub contents : List FileLine → List Line
contents ls = map (λ l. l.content) ls

-- `CHUNK`.
abbrev pub chunk : ℕ
chunk = 64 * 1024

abbrev pub max_line_bytes : ℕ
max_line_bytes = 8 * 1024 * 1024

-- `tooLong`.
pub data LineError : Type 0 where
  line_too_long : LineError

-- The test of `readLines`, on a whole line or on the part of it that is read so far.
abbrev pub exceeds : FileLine → Bool
exceeds l = ltb max_line_bytes l.bytes

-- `readLastLine` reads chunks from the end until it sees the newline in front of the last line, and
-- gives up when it has read more than `max_line_bytes` without it. With other lines in front, that
-- newline is `bytes + 2` from the end, and the most that is read is one chunk over the limit.
abbrev pub read_rest : List FileLine → Result LineError (Option Line)
read_rest [] = ok none
read_rest (l ∷ []) =
    if ltb (max_line_bytes + chunk) (l.bytes + 2) then err line_too_long else ok (some l.content)
read_rest (l ∷ k ∷ ls) = read_rest (k ∷ ls)

-- The last line of a file whose lines each end with a newline and are not blank, as the store writes
-- them. The only line of a file has no newline in front: the file is read whole, with its last newline.
abbrev pub read_last_line : List FileLine → Result LineError (Option Line)
read_last_line [] = ok none
read_last_line (l ∷ []) =
    if ltb max_line_bytes (l.bytes + 1) then err line_too_long else ok (some l.content)
read_last_line (l ∷ k ∷ ls) = read_rest (k ∷ ls)
