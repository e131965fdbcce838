-- ===== src/Diff/Parser/Total.antt =====
-- Proofs about the steps of the parser: the lines that they consume.
use mathlib.Core.Option
use mathlib.Core.Option.{some-injective}
use sbnn.Diff.Parser.{
  Parser, ensure_file, extended_header, is_path_header, pair_line, push, read_extended_header,
  read_file_headers, read_hunk, read_pair, set_paths, start_combined_file, start_git_file, step,
  wants_new_file,
}
use sbnn.Diff.Parser.Sound.{
  Advances, Advances-if, IsSound, alter-IsSound, ensure_file-IsSound, push-IsSound,
  read_hunk-Advances,
}
use sbnn.Diff.Paths.{split_git_header_paths}
use sbnn.Diff.Platform.{Platform}
use sbnn.Model.{File, dev_null, empty_file, modified}
use sbnn.Prelude.{
  Bool, Bool-cases, Bytes, List, Option, [], ap, arith, false, if◌then◌else◌, inl, inr, is_some,
  length, none, refl, some, true, ◌&&◌, ◌||◌, ◌∷◌, ◌≡◌, ◌≤◌,
}
use sbnn.Text.{codes, eq_bytes}
use sbnn.Text.Affix.{has_prefix, has_suffix, trim_prefix, trim_space}

-- A header sets fields of an entry, and none of its hunks.
data KeepsHunks : Option (File → File) → Type 0 where
  nothing : KeepsHunks none
  sets : {g : File → File} → ((f : File) → (g f).hunks ≡ f.hunks) → KeepsHunks (some g)

KeepsHunks-if :
    (b : Bool) (x y : Option (File → File))
    → KeepsHunks x
    → KeepsHunks y
    → KeepsHunks (if b then x else y)
KeepsHunks-if true x y hx hy = hx
KeepsHunks-if false x y hx hy = hy

pair_line-shorter :
    (line : Bytes) (ls : List Bytes) {l : Bytes} {rest : List Bytes}
    → pair_line line ls ≡ some (l, rest)
    → length rest ≤ length ls
unfolding pair_line
pair_line-shorter line [] e = cc
pair_line-shorter line (m ∷ ls) {l} {rest} e =
    elim (Bool-cases (has_prefix line (codes "--- ") && has_prefix m (codes "+++ "))) [
      | inl pair ↦
          let same : ls ≡ rest =
            ap (λ (x : Bytes × List Bytes). x.1) (some-injective _ _ (rw (pair, pair_line) at e)) in
          rw (← same) (omega arith)
      | inr other ↦ let no_pair = rw (other, pair_line) at e in cc
    ]

module _ (platform : Platform) where
  extended_header-KeepsHunks : (line : Bytes) → KeepsHunks (extended_header platform line)
  unfolding extended_header
  extended_header-KeepsHunks line =
      KeepsHunks-if (has_prefix line (codes "old mode ")) _ _ (sets λ f. refl) (
        KeepsHunks-if (has_prefix line (codes "new mode ")) _ _ (sets λ f. refl) (
          KeepsHunks-if (has_prefix line (codes "new file mode ")) _ _ (sets λ f. refl) (
            KeepsHunks-if (has_prefix line (codes "deleted file mode ")) _ _ (sets λ f. refl) (
              KeepsHunks-if (has_prefix line (codes "rename from ")) _ _ (sets λ f. refl) (
                KeepsHunks-if (has_prefix line (codes "rename to ")) _ _ (sets λ f. refl) (
                  KeepsHunks-if (has_prefix line (codes "copy from ")) _ _ (sets λ f. refl) (
                    KeepsHunks-if (has_prefix line (codes "copy to ")) _ _ (sets λ f. refl) (
                      KeepsHunks-if (has_prefix line (codes "index ")) _ _ (sets λ f. refl) (
                        KeepsHunks-if
                          (has_prefix line (codes "Binary files ")
                            || has_prefix line (codes "GIT binary patch")
                            || (has_prefix line (codes "Files ")
                                && has_suffix line (codes " differ")))
                          _ _ (sets λ f. refl) nothing)))))))))

  read_extended_header-IsSound :
      (line : Bytes) (p : Parser) → IsSound p → IsSound (read_extended_header platform line p)
  unfolding read_extended_header
  read_extended_header-IsSound line p s =
      with_header (extended_header platform line) (extended_header-KeepsHunks line)
    where
      with_header :
          (o : Option (File → File))
          → KeepsHunks o
          → IsSound (elim o [
            | none ↦ p
            | some g ↦ record p {
              current = Option.map g p.current;
              paths_known = p.paths_known || (is_some p.current && is_path_header line);
            }
          ])
      with_header none nothing = s
      with_header (some g) (sets k) =
          let sound = alter-IsSound g p (λ f h. rw (k f) h) s in
          record { before = sound.before; filling = sound.filling }

  start_git_file-IsSound :
      (rest : Bytes) (p : Parser) → IsSound p → IsSound (start_git_file platform rest p)
  unfolding start_git_file
  start_git_file-IsSound rest p s = with_paths (split_git_header_paths platform rest)
    where
      with_paths :
          (o : Option (Bytes × Bytes))
          → IsSound
              (record (push
                (elim o [
                  | none ↦ empty_file
                  | some (old, new) ↦ record empty_file { old_path = old; new_path = new }
                ])
                p) { git = true })
      with_paths none =
          let sound = push-IsSound empty_file p refl s in
          record { before = sound.before; filling = sound.filling }
      with_paths (some (old, new)) =
          let sound =
            push-IsSound (record empty_file { old_path = old; new_path = new }) p refl s in
          record { before = sound.before; filling = sound.filling }

  start_combined_file-IsSound :
      (line : Bytes) (p : Parser) → IsSound p → IsSound (start_combined_file platform line p)
  unfolding start_combined_file
  start_combined_file-IsSound line p s =
      let name =
        trim_space
          (trim_prefix (trim_prefix line (codes "diff --cc ")) (codes "diff --combined ")) in
      let sound =
        push-IsSound (record empty_file { old_path = name; new_path = name; status = modified }) p
          refl s in
      record { before = sound.before; filling = sound.filling }

  set_paths-hunks :
      (known : Bool) (old new : Bytes) (strip : Bool) (f : File)
      → (set_paths platform known old new strip f).hunks ≡ f.hunks
  unfolding set_paths
  set_paths-hunks known old new strip f = elim (Bool-cases (eq_bytes old dev_null)) [
    | inl is_added ↦ rw is_added refl
    | inr other ↦ elim (Bool-cases (eq_bytes new dev_null)) [
      | inl is_gone ↦ rw (other, is_gone) refl
      | inr both ↦ rw (other, both) refl
    ]
  ]

  read_file_headers-IsSound :
      (old new : Bytes) (p : Parser) → IsSound p → IsSound (read_file_headers platform old new p)
  unfolding read_file_headers
  read_file_headers-IsSound old new p s =
      let sound =
        alter-IsSound _ (ensure_file p) (λ f h. rw set_paths-hunks h) (ensure_file-IsSound p s) in
      record { before = sound.before; filling = sound.filling }

  read_pair-IsSound :
      (old new : Bytes) (p : Parser) → IsSound p → IsSound (read_pair platform old new p)
  unfolding read_pair
  read_pair-IsSound old new p s = elim (Bool-cases (wants_new_file p)) [
    | inl fresh ↦
        let pushed = push-IsSound empty_file p refl s in
        rw fresh (
          read_file_headers-IsSound old new (record (push empty_file p) { git = false })
            (record { before = pushed.before; filling = pushed.filling }))
    | inr same ↦ rw same (read_file_headers-IsSound old new p s)
  ]

  -- One round of the loop goes on, from a sound parser to a sound one.
  pub step-Advances :
      (line : Bytes) (ls : List Bytes) (p : Parser)
      → IsSound p
      → Advances (length ls) (step platform line ls p)
  unfolding step
  step-Advances line ls p s =
      Advances-if (length ls) (has_prefix line (codes "diff --git ")) _ _
        (λ _. (start_git_file-IsSound (trim_prefix line (codes "diff --git ")) p s, omega arith))
        λ _.
          Advances-if (length ls)
            (has_prefix line (codes "diff --cc ") || has_prefix line (codes "diff --combined ")) _ _
            (λ _. (start_combined_file-IsSound line p s, omega arith))
            λ _. behind (pair_line line ls) refl
    where
      not_a_pair : Advances (length ls) (
          if has_prefix line (codes "@@")
          then read_hunk platform line ls p
          else some (read_extended_header platform line p, ls))
      not_a_pair =
          Advances-if (length ls) (has_prefix line (codes "@@")) _ _
            (λ _. read_hunk-Advances platform line ls p s)
            λ _. (read_extended_header-IsSound line p s, omega arith)

      behind :
          (o : Option (Bytes × List Bytes))
          → pair_line line ls ≡ o
          → Advances (length ls) (elim o [
            | some (l, rest) ↦ some (read_pair platform line l p, rest)
            | none ↦
                if has_prefix line (codes "@@")
                then read_hunk platform line ls p
                else some (read_extended_header platform line p, ls)
          ])
      behind none e = not_a_pair
      behind (some (l, rest)) e = (read_pair-IsSound line l p s, pair_line-shorter line ls e)
