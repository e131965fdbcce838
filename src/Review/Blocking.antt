-- ===== src/Review/Blocking.antt =====
-- internal/model/model.go: `Verdict.Blocking` and `Blocks`.
use sbnn.Prelude.{Bool, List, any, false, not, true}
use sbnn.Review.{Comment, Verdict, approved, changes_requested}

unfoldable pub blocking : Verdict → Bool
blocking changes_requested = true
blocking _ = false

unfoldable pub blocks : Verdict → List Comment → Bool
blocks approved cs = false
blocks changes_requested cs = true
blocks _ cs = any (λ c. not c.resolved) cs
