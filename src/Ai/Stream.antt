-- ===== src/Ai/Stream.antt =====
-- web/src/api/ai.ts: the parser of the event stream, chunk by chunk. `JSON.parse` is given: `none`
-- when it throws. An event is the JSON value.
pub mod Lines
pub mod Chunks
use Prim.Native.Char.{Char, code}
use Prim.Native.String
use text.Mathlib.Text.{◌==◌}
use tolquane.Base.{
  ℕ, zero, suc, String, ◌<>◌, Bool, true, false, ◌||◌, ◌&&◌, Option, none, some, List, [], ◌∷◌,
  ◌++◌, any, nat_eq, if◌then◌else◌, split_on,
}
use tolquane.Model.Json.{Json, object, field}
use tolquane.Model.Normal.{string_or_null}
use tolquane.Model.Params.{trim}

-- `KNOWN`
abbrev pub known : List String
known = "text" ∷ "tool" ∷ "flow" ∷ "done" ∷ "error" ∷ []

abbrev pub is_known : Option String → Bool
is_known none = false
is_known (some t) = any (λ k. k == t) known

abbrev pub event_of : Option Json → Option Json
event_of (some (object d)) =
    if is_known (string_or_null (field "type" d)) then some (object d) else none
event_of _ = none

unfoldable pub parse_event_data : (String → Option Json) → String → Option Json
parse_event_data parse payload = if trim payload == "" then none else event_of (parse payload)

pub record Parser : Type 0 where
  pub buffer : String
  pub data_lines : List String

abbrev pub fresh : Parser
fresh = record { buffer = ""; data_lines = [] }

-- `line.replace(/\r$/, '')`
unfoldable pub without_return : String → String
without_return String.[] = ""
without_return (String.◌∷◌ c s) =
    let rest = without_return s in if s == "" && nat_eq (code c) 13 then "" else String.◌∷◌ c rest

abbrev pub add_char : Char → Option (String × String) → Option (String × String)
add_char c none = none
add_char c (some (l, r)) = some (String.◌∷◌ c l, r)

-- The text up to the first line feed, and the text after it.
unfoldable pub cut : String → Option (String × String)
cut String.[] = none
cut (String.◌∷◌ c s) =
    let rest = add_char c (cut s) in if nat_eq (code c) b'\n' then some ("", s) else rest

unfoldable pub count : String → ℕ
count String.[] = 0
count (String.◌∷◌ c s) = suc (count s)

-- `data.join('\n')`
unfoldable pub join_lines : List String → String
join_lines [] = ""
join_lines (l ∷ []) = l
join_lines (l ∷ m ∷ ls) = l <> "\n" <> join_lines (m ∷ ls)

-- The field's name, up to the colon, and the value after it; without a colon the value is empty.
abbrev pub before_colon : List String → String
before_colon [] = ""
before_colon (p ∷ ps) = p

unfoldable pub after_colon : String → String
after_colon String.[] = ""
after_colon (String.◌∷◌ c s) = let rest = after_colon s in if nat_eq (code c) b':' then s else rest

-- `value.startsWith(' ') ? value.slice(1) : value`
unfoldable pub drop_space : String → String
drop_space String.[] = ""
drop_space (String.◌∷◌ c s) = if nat_eq (code c) b' ' then s else String.◌∷◌ c s

abbrev pub starts_with_colon : String → Bool
starts_with_colon String.[] = false
starts_with_colon (String.◌∷◌ c s) = nat_eq (code c) b':'

abbrev pub listed : Option Json → List Json
listed none = []
listed (some e) = e ∷ []

-- The events of one call, and the data lines that wait.
abbrev pub Waiting : Type 0
Waiting = List Json × List String

module _ (parse : String → Option Json) where
  unfoldable pub dispatch : List String → Waiting
  unfolding parse_event_data join_lines
  dispatch [] = ([], [])
  dispatch (l ∷ ls) = (listed (parse_event_data parse (join_lines (l ∷ ls))), [])

  -- `line`
  unfoldable pub take_line : String → List String → Waiting
  unfolding dispatch after_colon drop_space split_on
  take_line l held =
      if l == ""
      then dispatch held
      else if starts_with_colon l
      then ([], held)
      else if before_colon (split_on b':' l) == "data"
      then ([], held ++ drop_space (after_colon l) ∷ [])
      else ([], held)

  -- The loop of `push`, on fuel: the events, and the parser.
  unfoldable pub drain : ℕ → String → List String → List Json × Parser
  unfolding cut take_line without_return
  drain zero buffer held = ([], record { buffer = buffer; data_lines = held })
  drain (suc n) buffer held = elim (cut buffer) [
    | none ↦ ([], record { buffer = buffer; data_lines = held })
    | some (l, r) ↦
        let w = take_line (without_return l) held in
        let rest = drain n r w.1 in (w.0 ++ rest.0, rest.1)
  ]

  -- The buffer's length is fuel enough: each line takes a line feed off it.
  unfoldable pub push : String → Parser → List Json × Parser
  unfolding drain count
  push chunk p = drain (suc (count (p.buffer <> chunk))) (p.buffer <> chunk) p.data_lines

  abbrev pub flush_data : Waiting → List Json × Parser
  flush_data w = (w.0, record { buffer = ""; data_lines = w.1 })

  -- A last line without its line feed counts; if it gives no event, so does what waits.
  abbrev pub or_dispatch : Waiting → List Json × Parser
  or_dispatch ([], held) = flush_data (dispatch held)
  or_dispatch (e ∷ es, held) = flush_data (e ∷ es, held)

  unfoldable pub flush : Parser → List Json × Parser
  unfolding take_line dispatch without_return
  flush p =
      if p.buffer == ""
      then or_dispatch ([], p.data_lines)
      else or_dispatch (take_line (without_return p.buffer) p.data_lines)

  -- Chunks one after the other.
  unfoldable pub push_all : List String → Parser → List Json × Parser
  unfolding push
  push_all [] p = ([], p)
  push_all (c ∷ cs) p =
      let one = push c p in let rest = push_all cs one.1 in (one.0 ++ rest.0, rest.1)

  -- All events of a stream, as `chat` delivers them.
  unfoldable pub stream_events : List String → List Json
  unfolding push_all flush
  stream_events chunks = let pushed = push_all chunks fresh in pushed.0 ++ (flush pushed.1).0
