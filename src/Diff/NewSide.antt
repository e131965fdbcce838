-- ===== src/Diff/NewSide.antt =====
-- internal/model/model.go: the lines of a hunk that stand on the new side, as their kinds say it.
use sbnn.Model.{Line, LineKind, add, context, delete}
use sbnn.Prelude.{Bool, Bytes, List, [], false, if◌then◌else◌, not, refl, true, ◌++◌, ◌∷◌, ◌≡◌}

-- Is a line of this kind a line of the new side?
abbrev pub on_new_side : LineKind → Bool
on_new_side context = true
on_new_side add = true
on_new_side delete = false

-- The context and added lines of a hunk.
abbrev pub new_contents : List Line → List Bytes
new_contents [] = []
new_contents (l ∷ ls) = if on_new_side l.kind then l.content ∷ new_contents ls else new_contents ls

pub kind-delete :
    (k : LineKind) → on_new_side k ≡ not (elim k [ context ↦ false | add ↦ false | delete ↦ true ])
kind-delete context = refl
kind-delete add = refl
kind-delete delete = refl

-- A string of lines, each with its newline, in front of another.
abbrev pub lines_onto : List Bytes → Bytes → Bytes
lines_onto [] s = s
lines_onto (l ∷ ls) s = l ++ 10 ∷ lines_onto ls s
