-- ===== src/Llm/Sse/Roundtrip.antt =====
-- SSEParser reads back what a server writes.
use capyclaw.Prelude.{
  ℕ, zero, suc, ◌*◌, ◌<◌, ◌≡◌, refl, ap, ◌≢◌, false, some, List, [], ◌∷◌, ◌++◌, ◌∙◌, arith, All,
  length, nat_eq,
}
use capyclaw.Llm.Sse.{
  Bytes, newline, SseEvent, no_event, ReadError, eof, read_line, is_line_end, cons_unless_end,
  trim_right, strip_prefix, data_prefix, event_prefix, id_prefix, on_line, parse,
}

-- the three fields of an event, a line each, and the empty line that ends it
pub line : Bytes → Bytes → Bytes → Bytes
line p v rest = (p ++ v) ++ newline ∷ rest

pub print : SseEvent → Bytes → Bytes
print e rest =
    line event_prefix e.event (line id_prefix e.id (line data_prefix e.payload (newline ∷ rest)))

pub print_all : List SseEvent → Bytes
print_all [] = []
print_all (e ∷ es) = print e (print_all es)

-- a value fits on a line: it has no newline, and no line end at its end
pub record IsValue (v : Bytes) : Type 0 where
  pub no_newline : All (λ b. nat_eq b newline ≡ false) v
  pub trimmed : trim_right v ≡ v

pub record IsEvent (e : SseEvent) : Type 0 where
  pub event : IsValue e.event
  pub id : IsValue e.id
  pub payload : IsValue e.payload
  pub has_payload : e.payload ≢ []

read_line-append :
    (l rest : Bytes)
    → All (λ b. nat_eq b newline ≡ false) l
    → read_line (l ++ newline ∷ rest) ≡ some (l, rest)
unfolding read_line
read_line-append [] rest h = refl
read_line-append (b ∷ l) rest h = rw (h.0, read_line-append l rest h.1)

abbrev IsPlain : Bytes → Type 0
IsPlain = All (λ b. is_line_end b ≡ false)

cons_unless_end-plain : (b : ℕ) (bs : Bytes) → is_line_end b ≡ false → cons_unless_end b bs ≡ b ∷ bs
cons_unless_end-plain b [] h = rw h
cons_unless_end-plain b (c ∷ cs) h = refl

trim_right-append : (p v : Bytes) → IsPlain p → trim_right v ≡ v → trim_right (p ++ v) ≡ p ++ v
unfolding trim_right
trim_right-append [] v hp hv = hv
trim_right-append (b ∷ p) v hp hv =
    rw (trim_right-append p v hp.1 hv) (cons_unless_end-plain b (p ++ v) hp.0)

plain-no_newline :
    (p v : Bytes)
    → IsPlain p
    → All (λ b. nat_eq b newline ≡ false) v
    → All (λ b. nat_eq b newline ≡ false) (p ++ v)
plain-no_newline [] v hp hv = hv
plain-no_newline (b ∷ p) v hp hv = (ground (arith, hp.0), plain-no_newline p v hp.1 hv)

-- one turn of the loop on a whole line
strip_prefix-append : (p v : Bytes) → strip_prefix p (p ++ v) ≡ some v
unfolding strip_prefix
strip_prefix-append [] v = refl
strip_prefix-append (b ∷ p) v = ground (arith, strip_prefix-append p v)

parse-line :
    (n : ℕ) (last : ReadError) (e : SseEvent) (p v rest : Bytes)
    → IsPlain p
    → IsValue v
    → parse (suc n) last e (line p v rest) ≡ on_line (λ e'. parse n last e' rest) e (p ++ v)
unfolding parse line
parse-line n last e p v rest hp hv =
    rw (read_line-append (p ++ v) rest (plain-no_newline p v hp hv.no_newline), parse)
      (rw (trim_right-append p v hp hv.trimmed))

module _ (go : SseEvent → List SseEvent) (e : SseEvent) (v : Bytes) where
  on_line-event : on_line go e (event_prefix ++ v) ≡ go (record e { event = v })
  unfolding on_line
  on_line-event = refl

  on_line-id : on_line go e (id_prefix ++ v) ≡ go (record e { id = v })
  unfolding on_line
  on_line-id = refl

  on_line-data : on_line go e (data_prefix ++ v) ≡ go (record e { payload = v })
  unfolding on_line
  on_line-data = refl

on_line-end :
    (go : SseEvent → List SseEvent) (e : SseEvent)
    → e.payload ≢ []
    → on_line go e [] ≡ e ∷ go no_event
unfolding on_line
on_line-end go e h = ground arith

parse-empty_line :
    (n : ℕ) (last : ReadError) (e : SseEvent) (rest : Bytes)
    → parse (suc n) last e (newline ∷ rest) ≡ on_line (λ e'. parse n last e' rest) e []
unfolding parse read_line trim_right
parse-empty_line n last e rest = refl

parse-print :
    (n : ℕ) (last : ReadError) (e : SseEvent) (rest : Bytes)
    → IsEvent e
    → parse (suc (suc (suc (suc n)))) last no_event (print e rest) ≡ e ∷ parse n last no_event rest
unfolding print
parse-print n last e rest h =
    parse-line (suc (suc (suc n))) last no_event event_prefix e.event _ (ground arith) h.event
    ∙ on_line-event _ no_event e.event
    ∙ parse-line (suc (suc n)) last (record no_event { event = e.event }) id_prefix e.id _
        (ground arith) h.id
    ∙ on_line-id _ (record no_event { event = e.event }) e.id
    ∙ parse-line (suc n) last (record e { payload = [] }) data_prefix e.payload _ (ground arith)
        h.payload
    ∙ on_line-data _ (record e { payload = [] }) e.payload
    ∙ parse-empty_line n last e rest
    ∙ on_line-end (λ e'. parse n last e' rest) e h.has_payload

-- If events have a payload, and values that fit on a line, the parser gives back the printed
-- events, once a turn is given for each of the four lines of every event and one for the end of
-- the input.
pub parse-print_all :
    (es : List SseEvent) (rounds : ℕ)
    → All IsEvent es
    → 4 * length es < rounds
    → parse rounds eof no_event (print_all es) ≡ es
unfolding print_all
parse-print_all [] zero h lt = elim lt [ ]
parse-print_all [] (suc n) h lt = unfold parse read_line in refl
parse-print_all (e ∷ es) (suc (suc (suc (suc n)))) h lt =
    parse-print n eof e (print_all es) h.0
    ∙ ap (λ l. e ∷ l) (parse-print_all es n h.1 (omega arith))
parse-print_all (e ∷ es) n h lt = absurd (omega arith)
