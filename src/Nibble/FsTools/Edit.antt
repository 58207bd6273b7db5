-- ===== src/Nibble/FsTools/Edit.antt =====
-- What the tool edit writes.
use capyclaw.Prelude.{
  ℕ, arith, nat_eq, nat_eq_iff, ltb, ltb→lt, ◌<◌, ◌≡◌, refl, ap, ◌≢◌, ◌∙◌, sym, inl, inr, String,
  Bool-cases, true, false, none, some, Option-cases, [], ◌∷◌, ◌++◌, length, concat,
}
use capyclaw.Action.{Result, ok, err, panicked, pure, continue, within, ◌>>=◌}
use capyclaw.Llm.Sse.{Bytes, strip_prefix}
use capyclaw.Nibble.FsTools.{
  Files, count_from, count_in, replace_first, edit_content, put_edited, edit_file,
}

strip_prefix-append : (p bs rest : Bytes) → strip_prefix p bs ≡ some rest → bs ≡ p ++ rest
unfolding strip_prefix
strip_prefix-append [] bs rest h = cc
strip_prefix-append (p ∷ ps) [] rest h = absurd (cc h)
strip_prefix-append (p ∷ ps) (b ∷ bs) rest h = elim (Bool-cases (nat_eq p b)) [
  | inl same ↦
      let step : strip_prefix (p ∷ ps) (b ∷ bs) ≡ strip_prefix ps bs = rw same refl in
      let tails = strip_prefix-append ps bs rest (sym step ∙ h) in
      ap (λ x. x ∷ bs) (sym ((nat_eq_iff p b).0 same)) ∙ ap (λ l. p ∷ l) tails
  | inr other ↦
      let step : strip_prefix (p ∷ ps) (b ∷ bs) ≡ none = rw other refl in
      let absent : none ≡ some rest = sym step ∙ h in absurd (cc absent)
]

-- a text in which there is a match is split at its first one
replace_first-splits :
    (old new bs : Bytes)
    → count_from 0 old bs ≢ 0
    → (before : Bytes) × (after : Bytes) × (bs ≡ before ++ old ++ after)
      × (replace_first old new bs ≡ before ++ new ++ after)
unfolding count_from replace_first
replace_first-splits old new [] some_match = absurd (some_match refl)
replace_first-splits old new (b ∷ bs) some_match = elim (Option-cases (strip_prefix old (b ∷ bs))) [
  | inl missing ↦
      let no_start = ap (λ o. elim o [ none ↦ false | some _ ↦ true ]) missing in
      let (before, after, split, replaced) =
        replace_first-splits old new bs (λ e. some_match (rw no_start e)) in
      (
        b ∷ before,
        after,
        ap (λ l. b ∷ l) split,
        rw (missing, replace_first) (ap (λ l. b ∷ l) replaced),
      )
  | inr (rest, found) ↦
      ([], rest, strip_prefix-append old (b ∷ bs) rest found, rw (found, replace_first) refl)
]

not_none : (n : ℕ) → nat_eq n 0 ≡ false → n ≢ 0
not_none n h = ground arith

only_one : (n : ℕ) → nat_eq n 0 ≡ false → ltb 1 n ≡ false → n ≡ 1
only_one n h one = ground arith

module _ {W : Type 0} (files : Files W) where
  -- what the write of `changed` to the path, in the state `w`, comes to
  pub data Written (path old new : String) (changed : Bytes) (w : W)
      : Result String × W → Type 0 where
    wrote :
        (w' : W)
        → files.write_file path changed w ≡ (ok tt, w')
        → Written path old new changed w (
          ok (
              concat (
                "Applied edit to "
                ∷ path
                ∷ ": replaced "
                ∷ files.number_text (length (files.bytes old))
                ∷ " chars with "
                ∷ files.number_text (length (files.bytes new))
                ∷ " chars"
                ∷ [])),
          w',
        )
    not_written :
        (e : String) (w' : W)
        → files.write_file path changed w ≡ (err e, w')
        → Written path old new changed w (err (concat ("writing file: " ∷ e ∷ [])), w')
    broke_off :
        (w' : W)
        → files.write_file path changed w ≡ (panicked, w')
        → Written path old new changed w (panicked, w')

  put_edited-Written :
      (path old new : String) (changed : Bytes) (w : W)
      → Written path old new changed w (put_edited files path old new changed w)
  unfolding put_edited within ◌>>=◌ pure
  put_edited-Written path old new changed w =
      by (files.write_file path changed w).0 (files.write_file path changed w).1 refl
    where
      by :
          (r : Result (Unit {0})) (w' : W)
          → files.write_file path changed w ≡ (r, w')
          → Written path old new changed w (put_edited files path old new changed w)
      by (ok tt) w' h = rw h (Written.wrote w' h)
      by (err e) w' h = rw h (Written.not_written e w' h)
      by panicked w' h = rw h (Written.broke_off w' h)

  -- what an edit of a file that holds `content` comes to, in the state `w` after the read
  pub data Edited (path old new : String) (content : Bytes) (w : W)
      : Result String × W → Type 0 where
    absent :
        count_in (files.bytes old) content ≡ 0
        → Edited path old new content w (err "old_text not found in file", w)
    ambiguous :
        (message : String)
        → 1 < count_in (files.bytes old) content
        → Edited path old new content w (err message, w)
    replaced :
        (before after : Bytes) (x : Result String × W)
        → count_in (files.bytes old) content ≡ 1
        → content ≡ before ++ files.bytes old ++ after
        → Written path old new (before ++ files.bytes new ++ after) w x
        → Edited path old new content w x

  after_read :
      (path old new : String) (content : Bytes) (w : W)
      → (files.read_file path w).0 ≡ ok content
      → edit_file files path old new w
        ≡ continue
            (edit_content files (files.bytes old) (files.bytes new) content)
            (put_edited files path old new)
            (files.read_file path w).1
  unfolding edit_file within ◌>>=◌
  after_read path old new content w h = rw h refl

  edit_content-Edited :
      (path old new : String) (content : Bytes) (w : W)
      → Edited path old new content w (
          continue
            (edit_content files (files.bytes old) (files.bytes new) content)
            (put_edited files path old new)
            w)
  unfolding edit_content
  edit_content-Edited path old new content w =
      let n = count_in (files.bytes old) content in
      elim (Bool-cases (nat_eq n 0)) [
        | inl none_there ↦ rw none_there (Edited.absent ((nat_eq_iff n 0).0 none_there))
        | inr there ↦ elim (Bool-cases (ltb 1 n)) [
          | inl many ↦ rw (there, many) (Edited.ambiguous _ (ltb→lt 1 n many))
          | inr one ↦
              let (before, after, split, result) =
                replace_first-splits (files.bytes old) (files.bytes new) content
                  (not_none n there) in
              rw (there, one, result)
                (Edited.replaced before after _ (only_one n there one) split
                  (put_edited-Written path old new (before ++ files.bytes new ++ after) w))
        ]
      ]

  -- If the file can be read, as `content`, an edit of it comes to one of three: the old text is not in
  -- it, which is an error that leaves the state as the read left it; it is in it more than once, which is
  -- too; or it is in it once, and the edit writes `content` with the new text in the old text's place,
  -- everything before it and after it unchanged, to the path; the edit answers with its success, or with the
  -- error of the write.
  pub edit_file-Edited :
      (path old new : String) (content : Bytes) (w : W)
      → (files.read_file path w).0 ≡ ok content
      → Edited path old new content (files.read_file path w).1 (edit_file files path old new w)
  edit_file-Edited path old new content w h =
      rw (after_read path old new content w h)
        (edit_content-Edited path old new content (files.read_file path w).1)
