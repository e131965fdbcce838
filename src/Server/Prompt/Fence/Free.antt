-- ===== src/Server/Prompt/Fence/Free.antt =====
-- Proofs about `fenceFor`: the fence is longer than every run of backticks.
use mathlib.Core.Path.{subst}
use sbnn.Prelude.{
  Bool-cases, Bytes, [], arith, false, if◌then◌else◌, inl, inr, ltb, ltb→lt, suc, sym, zero, ℕ,
  ◌++◌, ◌+◌, ◌<◌, ◌==◌, ◌∷◌, ◌≡◌, ◌≤◌,
}
use sbnn.Review.Fences.{backtick}
use sbnn.Review.Suggestions.Ticks.{ticks}
use sbnn.Server.Prompt.Fence.{fence_for, longest_run}
use sbnn.Text.Occurs.{Occurs-contains}
use sbnn.Text.Split.{contains}

longest_run-grows : (l c : ℕ) (s : Bytes) → l ≤ longest_run l c s
unfolding longest_run
longest_run-grows l c [] = omega arith
longest_run-grows l c (d ∷ s) =
    let higher : ℕ = if ltb l (suc c) then suc c else l in
    elim (Bool-cases (d == backtick)) [
      | inl tick ↦
          let up : l ≤ higher = ground arith in
          rw tick (omega (arith, up, longest_run-grows higher (suc c) s))
      | inr other ↦ rw other (longest_run-grows l 0 s)
    ]

-- The longest run is as long as the ticks in front and the run in front of them.
longest_run-front : (m l c : ℕ) (b : Bytes) → c ≤ l → m + c ≤ longest_run l c (ticks m ++ b)
unfolding longest_run
longest_run-front zero l c b le = omega (arith, longest_run-grows l c b)
longest_run-front (suc m) l c b le =
    let higher : ℕ = if ltb l (suc c) then suc c else l in
    let up : suc c ≤ higher = ground arith in omega (arith, longest_run-front m higher (suc c) b up)

longest_run-held : (m l c : ℕ) (a b : Bytes) → c ≤ l → m ≤ longest_run l c (a ++ (ticks m ++ b))
unfolding longest_run
longest_run-held m l c [] b le = omega (arith, longest_run-front m l c b le)
longest_run-held m l c (d ∷ a) b le =
    let higher : ℕ = if ltb l (suc c) then suc c else l in
    let up : suc c ≤ higher = ground arith in
    elim (Bool-cases (d == backtick)) [
      | inl tick ↦ rw tick (longest_run-held m higher (suc c) a b up)
      | inr other ↦ rw other (longest_run-held m l 0 a b (omega arith))
    ]

not_held : (m : ℕ) (s : Bytes) → longest_run 0 0 s < m → contains s (ticks m) ≡ false
not_held m s lt = elim (Bool-cases (contains s (ticks m))) [
  | inr free ↦ free
  | inl held ↦
      let (a, b, e) = Occurs-contains (ticks m) s held in
      let le : m ≤ longest_run 0 0 s =
        subst (λ (t : Bytes). m ≤ longest_run 0 0 t) (sym e)
          (longest_run-held m 0 0 a b (omega arith)) in
      ground (arith, le, lt)
]

-- The fence that is put around a snippet does not occur in it.
pub contains-fence_for : (content : Bytes) → contains content (fence_for content) ≡ false
unfolding fence_for
contains-fence_for content = elim (Bool-cases (ltb (longest_run 0 0 content) 3)) [
  | inl short ↦ rw short (not_held 3 content (ltb→lt (longest_run 0 0 content) 3 short))
  | inr long ↦ rw long (not_held (longest_run 0 0 content + 1) content (omega arith))
]
