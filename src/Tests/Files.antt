-- ===== src/Tests/Files.antt =====
-- Examples for the file tools of internal/burrow/nibble/tools_fs.go.
use capyclaw.Prelude.{refl, none}
use capyclaw.Action.{ok}
use capyclaw.Llm.Sse.{Bytes, codes}
use capyclaw.Nibble.FsTools.{Files, edit_file}
use capyclaw.Nibble.FsTools.Edit.{Edited, edit_file-Edited}

-- a disk with one file, whose bytes are the state
abbrev one_file : Files Bytes
one_file = record {
  read_file = λ path w. (ok w, w);
  make_parent = λ path w. (ok tt, w);
  write_file = λ path content w. (ok tt, content);
  bytes = codes;
  number_text = λ n. "n";
  number_field = λ n. codes "   n";
  positive = λ v. none;
  from_bytes = λ content. "text";
}

edit_file-Edited_example :
    Edited one_file "a.txt" "two" "2"
      (codes "one two")
      (codes "one two")
      (edit_file one_file "a.txt" "two" "2" (codes "one two"))
edit_file-Edited_example =
    edit_file-Edited one_file "a.txt" "two" "2" (codes "one two") (codes "one two") refl
