-- ===== src/Session/Threaded/Grown.antt =====
-- Well threaded comments to which one is added under a new id.
use sbnn.Prelude.{
  All-append, All-map, Bool-cases, Bytes, List, [], ap, arith, false, inl, inr, none, refl, some, ℕ,
  ◌++◌, ◌+◌, ◌∙◌, ◌∷◌, ◌≡◌, ◌≤◌,
}
use sbnn.Review.{Comment}
use sbnn.Session.{comment_prefix}
use sbnn.Session.Log.{find_comment, has_id}
use sbnn.Session.Threaded.{HasDistinctIds, IsAnchored, IsRooted, IsThreaded, find_comment-fresh}
use sbnn.Text.{eq_bytes_comm}
use sbnn.Text.Number.{itoa}

find_comment-append :
    (i : Bytes) (cs : List Comment) (c : Comment)
    → find_comment i (cs ++ c ∷ [])
      ≡ elim (find_comment i cs) [ none ↦ find_comment i (c ∷ []) | some d ↦ some d ]
unfolding find_comment
find_comment-append i [] c = refl
find_comment-append i (d ∷ ds) c = ground (arith, find_comment-append i ds c)

still_found :
    (i : Bytes) (cs : List Comment) (c : Comment) {d : Comment}
    → find_comment i cs ≡ some d
    → find_comment i (cs ++ c ∷ []) ≡ some d
still_found i cs c there = rw (find_comment-append i cs c, there) refl

distinct-append :
    (cs : List Comment) (c : Comment)
    → HasDistinctIds cs
    → find_comment c.id cs ≡ none
    → HasDistinctIds (cs ++ c ∷ [])
unfolding find_comment
distinct-append [] c h fresh = (refl, tt)
distinct-append (d ∷ ds) c h fresh = elim (Bool-cases (has_id c.id d)) [
  | inl same ↦ let found = rw (same, find_comment) at fresh in cc
  | inr other ↦
      let other' : has_id d.id c ≡ false = eq_bytes_comm c.id d.id ∙ other in
      (
        rw (find_comment-append d.id ds c, h.0, other') refl,
        distinct-append ds c h.1 (rw (other, find_comment) at fresh),
      )
]

IsRooted-append : (cs : List Comment) (c d : Comment) → IsRooted cs d → IsRooted (cs ++ c ∷ []) d
IsRooted-append cs c d r = record {
  root = r.root;
  there = still_found d.reply_to cs c r.there;
  opens_thread = r.opens_thread;
  same_state = r.same_state;
  same_diff = r.same_diff;
}

pub IsThreaded-weaken : (n m : ℕ) (cs : List Comment) → n ≤ m → IsThreaded n cs → IsThreaded m cs
IsThreaded-weaken n m cs le t = record {
  issued = All-map _ _ cs (λ c i. (i.0, omega (arith, i.1, le), i.2)) t.issued;
  distinct = t.distinct;
  anchored = t.anchored;
}

pub IsThreaded-append :
    (n : ℕ) (cs : List Comment) (c : Comment)
    → IsThreaded n cs
    → c.id ≡ comment_prefix ++ itoa (n + 1)
    → IsAnchored cs c
    → IsThreaded (n + 1) (cs ++ c ∷ [])
IsThreaded-append n cs c t id anchored =
    let fresh : find_comment c.id cs ≡ none =
      ap (λ (i : Bytes). find_comment i cs) id ∙ find_comment-fresh n cs t.issued in
    record {
      issued =
          All-append _ cs (c ∷ []) (IsThreaded-weaken n (n + 1) cs (omega arith) t).issued
            ((n + 1, omega arith, id), tt);
      distinct = distinct-append cs c t.distinct fresh;
      anchored =
          All-append _ cs (c ∷ [])
            (All-map _ _ cs (λ d a reply. IsRooted-append cs c d (a reply)) t.anchored)
            ((λ reply. IsRooted-append cs c c (anchored reply)), tt);
    }
