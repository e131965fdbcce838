-- ===== src/Diff/Parser/Results.antt =====
-- Proofs about `Parse`: what it returns, on every input.
use mathlib.Core.Path.{subst}
use mathlib.Core.Option.{some-injective}
use sbnn.Diff.Finalize.{count_hunks, derive_status, finalize, name_if_unnamed}
use sbnn.Diff.Parser.{Parser, files, finalize_from, parse, run, split_lines, start, step}
use sbnn.Diff.Parser.Sound.{Advances, HasNumberedHunks, IsNumbered, IsSound, files-HasNumberedHunks}
use sbnn.Diff.Parser.Total.{step-Advances}
use sbnn.Diff.Platform.{Platform}
use sbnn.Model.{File}
use sbnn.Prelude.{
  All, Bytes, List, Option, [], arith, length, none, refl, some, suc, sym, zero, ℕ, ◌∷◌, ◌≡◌, ◌≤◌,
}

module _ (platform : Platform) where
  -- As much fuel as there are lines is enough, since each round reads a line at least.
  run-total :
      (fuel : ℕ) (ls : List Bytes) (p : Parser)
      → length ls ≤ fuel
      → IsSound p
      → (q : Parser) × (run platform fuel ls p ≡ some q) × IsSound q
  unfolding run
  run-total fuel [] p le s = (p, refl, s)
  run-total zero (l ∷ ls) p le s = absurd (omega arith)
  run-total (suc fuel) (l ∷ ls) p le s =
      goes_on (step platform l ls p) (step-Advances platform l ls p s)
        (λ q rest. run-total fuel rest q)
    where
      goes_on :
          (o : Option (Parser × List Bytes))
          → Advances (length ls) o
          → ((q : Parser) (rest : List Bytes)
              → length rest ≤ fuel
              → IsSound q
              → (q' : Parser) × (run platform fuel rest q ≡ some q') × IsSound q')
          → (q : Parser) × (elim o [ none ↦ none | some (q, rest) ↦ run platform fuel rest q ]
              ≡ some q)
            × IsSound q
      goes_on none h later = elim h [ ]
      goes_on (some (q, rest)) (sound, shorter) later = later q rest (omega arith) sound

  name_if_unnamed-hunks : (f : File) → (name_if_unnamed f).hunks ≡ f.hunks
  unfolding name_if_unnamed
  name_if_unnamed-hunks f = ground arith

  finalize-hunks : (f : File) (i : ℕ) → (finalize platform f i).hunks ≡ f.hunks
  unfolding finalize
  finalize-hunks f i =
      let (adds, dels) = count_hunks (f.additions, f.deletions) f.hunks in
      let counted = record f { additions = adds; deletions = dels } in
      name_if_unnamed-hunks (record counted { status = derive_status counted f.status })

  finalize_from-HasNumberedHunks :
      (i : ℕ) (fs : List File)
      → All HasNumberedHunks fs
      → All HasNumberedHunks (finalize_from platform i fs)
  unfolding finalize_from
  finalize_from-HasNumberedHunks i [] h = tt
  finalize_from-HasNumberedHunks i (f ∷ fs) h = (
    subst (All IsNumbered) (sym (finalize-hunks f i)) h.0,
    finalize_from-HasNumberedHunks (suc i) fs h.1,
  )

  -- Whatever bytes it is given, `Parse` ends and returns a list of files: none of its loops goes on
  -- for ever.
  pub parse-total : (src : Bytes) → (fs : List File) × (parse platform src ≡ some fs)
  unfolding parse
  parse-total src =
      let lines = split_lines src in
      let (p, e, sound) =
        run-total (length lines) lines start (omega arith) (record { before = tt; filling = tt }) in
      (finalize_from platform 0 (files p), rw e refl)

  -- In every file that `Parse` returns, the lines of every hunk are numbered one after another on
  -- each side, from the two starts of the hunk's header on, with 0 for the side that a line is not
  -- on; only the lines of a hunk with a header in "@@@" have no numbers.
  pub parse-HasNumberedHunks :
      (src : Bytes) {fs : List File} → parse platform src ≡ some fs → All HasNumberedHunks fs
  unfolding parse
  parse-HasNumberedHunks src e =
      let lines = split_lines src in
      let (p, ran, sound) =
        run-total (length lines) lines start (omega arith) (record { before = tt; filling = tt }) in
      subst (All HasNumberedHunks) (some-injective _ _ (rw (ran, parse) at e))
        (finalize_from-HasNumberedHunks 0 (files p) (files-HasNumberedHunks p sound))
