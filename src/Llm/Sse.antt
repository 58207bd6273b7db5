-- ===== src/Llm/Sse.antt =====
-- internal/burrow/llm/streaming.go, SSEParser: events out of the bytes of a response.
pub mod Roundtrip
pub mod Cancel
use Prim.Native.Char.{code}
use capyclaw.Prelude.{
  ℕ, zero, suc, String, Bool, ◌||◌, Option, none, some, List, [], ◌∷◌, nat_eq, if◌then◌else◌,
}

abbrev pub Bytes : Type 0
Bytes = List ℕ

-- the bytes of a text in ASCII
abbrev pub codes : String → Bytes
codes String.[] = []
codes (String.◌∷◌ c s) = code c ∷ codes s

abbrev pub newline : ℕ
newline = 10

abbrev pub carriage_return : ℕ
carriage_return = 13

pub record SseEvent : Type 0 where
  pub event : Bytes
  pub payload : Bytes
  pub id : Bytes

abbrev pub no_event : SseEvent
no_event = record { event = []; payload = []; id = [] }

-- How the reader ends once its bytes are used up.
pub data ReadError : Type 0 where
  eof : ReadError
  failed : Bytes → ReadError

-- `ReadString('\n')`: the line without its newline, and what follows; `none` if the input ends
-- before a newline.
unfoldable pub read_line : Bytes → Option (Bytes × Bytes)
read_line [] = none
read_line (b ∷ bs) =
    if nat_eq b newline
    then some ([], bs)
    else elim (read_line bs) [ none ↦ none | some (line, rest) ↦ some (b ∷ line, rest) ]

abbrev pub is_line_end : ℕ → Bool
is_line_end b = nat_eq b carriage_return || nat_eq b newline

abbrev pub cons_unless_end : ℕ → Bytes → Bytes
cons_unless_end b [] = if is_line_end b then [] else b ∷ []
cons_unless_end b (c ∷ cs) = b ∷ c ∷ cs

-- `strings.TrimRight(line, "\r\n")`
unfoldable pub trim_right : Bytes → Bytes
trim_right [] = []
trim_right (b ∷ bs) = cons_unless_end b (trim_right bs)

-- `strings.HasPrefix` with `strings.TrimPrefix`
unfoldable pub strip_prefix : Bytes → Bytes → Option Bytes
strip_prefix [] bs = some bs
strip_prefix (p ∷ ps) [] = none
strip_prefix (p ∷ ps) (b ∷ bs) = if nat_eq p b then strip_prefix ps bs else none

abbrev pub data_prefix : Bytes
data_prefix = codes "data: "

abbrev pub event_prefix : Bytes
event_prefix = codes "event: "

abbrev pub id_prefix : Bytes
id_prefix = codes "id: "

-- a line that is not empty sets at most one field
unfoldable pub set_field : SseEvent → Bytes → SseEvent
unfolding strip_prefix
set_field event line = elim (strip_prefix data_prefix line) [
  | some v ↦ record event { payload = v }
  | none ↦ elim (strip_prefix event_prefix line) [
    | some v ↦ record event { event = v }
    | none ↦ elim (strip_prefix id_prefix line) [ some v ↦ record event { id = v } | none ↦ event ]
  ]
]

abbrev pub read_failure : ReadError → List SseEvent
read_failure eof = []
read_failure (failed message) = record { event = codes "error"; payload = message; id = [] } ∷ []

-- one turn, on a line whose end is cut off; `go` is the rest of the loop
unfoldable pub on_line : (SseEvent → List SseEvent) → SseEvent → Bytes → List SseEvent
unfolding set_field
on_line go event (b ∷ line) = go (set_field event (b ∷ line))
on_line go event [] = elim event.payload [ [] ↦ go event | _ ∷ _ ↦ event ∷ go no_event ]

-- The events of an input that ends with `last`. The context is found done after `rounds` turns
-- of the loop, and a line takes one turn.
unfoldable pub parse : ℕ → ReadError → SseEvent → Bytes → List SseEvent
parse zero last event input = []
parse (suc rounds) last event input = elim (read_line input) [
  | none ↦ read_failure last
  | some (line, rest) ↦ on_line (λ e. parse rounds last e rest) event (trim_right line)
]
