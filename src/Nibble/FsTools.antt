-- ===== src/Nibble/FsTools.antt =====
-- The handlers of the tools read, write and edit in internal/burrow/nibble/tools_fs.go. A file is its
-- bytes. What `read` makes of a line range is its numbered lines; `list_files` is left out.
pub mod Edit
use capyclaw.Prelude.{
  ℕ, zero, suc, nat_eq, ltb, ◌+◌, ◌-◌, String, String_eq, ◌==◌, ◌||◌, Bool, true, false, Option,
  none, some, List, [], ◌∷◌, ◌++◌, lookup, length, take, concat, if◌then◌else◌,
}
use capyclaw.Action.{Result, ok, err, Action, pure, fail, within, ◌>>=◌, ◌>>◌}
use capyclaw.Llm.Sse.{Bytes, codes, strip_prefix, newline}
use capyclaw.Nibble.Executor.{Input, Value}

-- `os.ReadFile`, `os.MkdirAll` with `filepath.Dir`, `os.WriteFile`; the UTF-8 bytes of a text; the
-- text of a number, and of one in a field of four places; the whole part of a number that is
-- above 0, if a value is one; and the text of bytes
pub record Files (W : Type 0) : Type 0 where
  pub read_file : String → Action W Bytes
  pub make_parent : String → Action W (Unit {0})
  pub write_file : String → Bytes → Action W (Unit {0})
  pub bytes : String → Bytes
  pub number_text : ℕ → String
  pub number_field : ℕ → Bytes
  pub positive : Value → Option ℕ
  pub from_bytes : Bytes → String

-- `input[key].(string)`
unfoldable pub text_field : String → Input → String
text_field key input = elim (lookup key input) [ some (Value.text t) ↦ t | _ ↦ "" ]

abbrev pub starts : Bytes → Bytes → Bool
starts old bs = elim (strip_prefix old bs) [ none ↦ false | some _ ↦ true ]

-- `strings.Count` of a text that is not empty: the first argument is what is left to skip of the
-- last match
unfoldable pub count_from : ℕ → Bytes → Bytes → ℕ
count_from skip old [] = 0
count_from (suc skip) old (b ∷ bs) = count_from skip old bs
count_from zero old (b ∷ bs) =
    let found = starts old (b ∷ bs) in
    let rest = count_from (if found then length old - 1 else 0) old bs in
    if found then suc rest else rest

abbrev pub count_in : Bytes → Bytes → ℕ
count_in old content = count_from 0 old content

-- `strings.Replace` of the first match of a text that is not empty
unfoldable pub replace_first : Bytes → Bytes → Bytes → Bytes
replace_first old new [] = []
replace_first old new (b ∷ bs) = elim (strip_prefix old (b ∷ bs)) [
  | some rest ↦ new ++ rest
  | none ↦ b ∷ replace_first old new bs
]

-- `strings.Split` at the newlines
unfoldable pub split_lines : Bytes → List Bytes
split_lines [] = [] ∷ []
split_lines (b ∷ bs) =
    let rest = split_lines bs in
    if nat_eq b newline
    then [] ∷ rest
    else elim rest [ [] ↦ (b ∷ []) ∷ [] | line ∷ lines ↦ (b ∷ line) ∷ lines ]

-- `strings.Contains`
unfoldable pub contains : Bytes → Bytes → Bool
contains part [] = starts part []
contains part (b ∷ bs) = starts part (b ∷ bs) || contains part bs

module _ {W : Type 0} (files : Files W) where
  -- the lines from the number `i` on, as long as it is at most `last` (that `last` is cut down to the
  -- number of the lines first makes no difference: the lines end there)
  unfoldable pub numbered_lines : ℕ → ℕ → List Bytes → Bytes
  numbered_lines i last [] = []
  numbered_lines i last (line ∷ lines) =
      let rest = numbered_lines (i + 1) last lines in
      if ltb last i then [] else files.number_field i ++ (codes " | " ++ (line ++ newline ∷ rest))

  abbrev pub skip_lines : ℕ → List Bytes → List Bytes
  skip_lines zero lines = lines
  skip_lines (suc n) [] = []
  skip_lines (suc n) (line ∷ lines) = skip_lines n lines

  abbrev pub or_default : ℕ → Option ℕ → ℕ
  or_default n none = n
  or_default n (some m) = m

  abbrev pub number_of : String → Input → Option ℕ
  number_of key input = elim (lookup key input) [ none ↦ none | some v ↦ files.positive v ]

  -- at most 100000 bytes
  unfoldable pub truncated : Bytes → Bytes
  truncated result =
      if ltb 100000 (length result)
      then take 100000 result
        ++ (newline
            ∷ codes "... [output truncated, use start_line/end_line to read specific sections]")
      else result

  unfoldable pub read_range : Input → List Bytes → Result String
  read_range input lines =
      let asked = or_default 1 (number_of "start_line" input) in
      let start = if ltb asked 1 then 1 else asked in
      let last = or_default (length lines) (number_of "end_line" input) in
      if ltb (length lines) start
      then err (
          concat (
            "start_line "
            ∷ files.number_text start
            ∷ " exceeds file length "
            ∷ files.number_text (length lines)
            ∷ []))
      else ok
          (files.from_bytes (truncated (numbered_lines start last (skip_lines (start - 1) lines))))

  unfoldable pub read_handler : Input → Action W String
  read_handler input = if text_field "path" input == "" then fail "path is required" else (do
    content ← within "reading file: " (files.read_file (text_field "path" input))
    λ w. (read_range input (split_lines content), w))

  unfoldable pub write_to : String → String → Action W String
  write_to path content = do
    within "creating directory: " (files.make_parent path)
    within "writing file: " (files.write_file path (files.bytes content))
    pure (
        concat (
          "Wrote "
          ∷ files.number_text (length (files.bytes content))
          ∷ " bytes ("
          ∷ files.number_text (count_in (newline ∷ []) (files.bytes content) + 1)
          ∷ " lines) to "
          ∷ path
          ∷ []))

  unfoldable pub write_handler : Input → Action W String
  write_handler input =
      if text_field "path" input == ""
      then fail "path is required"
      else if contains (codes "..") (files.bytes (text_field "path" input))
      then fail "path traversal not allowed"
      else write_to (text_field "path" input) (text_field "content" input)

  -- the edit of a file's content, if there is one match
  unfoldable pub edit_content : Bytes → Bytes → Bytes → Result Bytes
  edit_content old new content =
      let n = count_in old content in
      if nat_eq n 0
      then err "old_text not found in file"
      else if ltb 1 n
      then err (
          concat (
            "old_text matches "
            ∷ files.number_text n
            ∷ " locations, please provide more context to make it unique"
            ∷ []))
      else ok (replace_first old new content)

  unfoldable pub put_edited : String → String → String → Bytes → Action W String
  put_edited path old new changed = do
    within "writing file: " (files.write_file path changed)
    pure (
        concat (
          "Applied edit to "
          ∷ path
          ∷ ": replaced "
          ∷ files.number_text (length (files.bytes old))
          ∷ " chars with "
          ∷ files.number_text (length (files.bytes new))
          ∷ " chars"
          ∷ []))

  unfoldable pub edit_file : String → String → String → Action W String
  edit_file path old new = do
    content ← within "reading file: " (files.read_file path)
    changed ← (λ w. (edit_content (files.bytes old) (files.bytes new) content, w))
    put_edited path old new changed

  unfoldable pub edit_handler : Input → Action W String
  edit_handler input =
      if text_field "path" input == "" || text_field "old_text" input == ""
      then fail "path and old_text are required"
      else edit_file (text_field "path" input) (text_field "old_text" input)
          (text_field "new_text" input)
