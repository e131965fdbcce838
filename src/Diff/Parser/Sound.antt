-- ===== src/Diff/Parser/Sound.antt =====
-- Proofs about the steps of the parser: the hunks that they read.
use mathlib.Core.Path.{subst}
use mathlib.Core.Option
use sbnn.Diff.Body.{body_start, read_hunk_body}
use sbnn.Diff.Body.Numbers.{AreNumbered, read_hunk_body-AreNumbered}
use sbnn.Diff.Body.Total.{read_body-total}
use sbnn.Diff.Combined.{combined_body, combined_parents, read_combined_hunk}
use sbnn.Diff.Header.{parse_hunk_header}
use sbnn.Diff.Parser.{Parser, add_hunk, alter, ensure_file, entries, files, push, read_hunk}
use sbnn.Diff.Platform.{Platform}
use sbnn.Model.{File, Hunk, Line, empty_file}
use sbnn.Prelude.{
  All, All-append, Bool, Bool-cases, Bytes, List, Option, [], append-nil, arith, false,
  if◌then◌else◌, inl, inr, length, none, refl, some, sym, true, ℕ, ◌++◌, ◌>>=◌, ◌||◌, ◌∷◌, ◌≡◌, ◌≤◌,
  ◌⊎◌,
}
use sbnn.Session.Titles.{plain}
use sbnn.Text.{codes}
use sbnn.Text.Affix.{has_prefix}

abbrev pub HasNoNumbers : Line → Type 0
HasNoNumbers l = (l.old_number ≡ 0) × (l.new_number ≡ 0)

-- The lines of a hunk count up from the numbers of its header, or it is a combined one.
abbrev pub IsNumbered : Hunk → Type 0
IsNumbered h =
    AreNumbered h.old_start h.new_start h.lines
    ⊎ ((has_prefix h.header (codes "@@@") ≡ true) × All HasNoNumbers h.lines)

abbrev pub HasNumberedHunks : File → Type 0
HasNumberedHunks f = All IsNumbered f.hunks

abbrev pub OfCurrent : Option File → Type 0
OfCurrent none = Unit
OfCurrent (some f) = HasNumberedHunks f

pub record IsSound (p : Parser) : Type 0 where
  pub before : All HasNumberedHunks p.earlier
  pub filling : OfCurrent p.current

pub files-HasNumberedHunks : (p : Parser) → IsSound p → All HasNumberedHunks (files p)
files-HasNumberedHunks p s = with_current p.current s.filling
  where
    with_current : (o : Option File) → OfCurrent o → All HasNumberedHunks (p.earlier ++ entries o)
    with_current none h = rw (append-nil p.earlier) s.before
    with_current (some f) h = All-append HasNumberedHunks p.earlier (f ∷ []) s.before (h, tt)

pub push-IsSound : (f : File) (p : Parser) → f.hunks ≡ [] → IsSound p → IsSound (push f p)
unfolding push
push-IsSound f p e s = record {
  before = files-HasNumberedHunks p s;
  filling = subst (All IsNumbered) (sym e) tt;
}

pub alter-IsSound :
    (g : File → File) (p : Parser)
    → ((f : File) → HasNumberedHunks f → HasNumberedHunks (g f))
    → IsSound p
    → IsSound (alter g p)
alter-IsSound g p keeps s = record { before = s.before; filling = in_current p.current s.filling }
  where
    in_current : (o : Option File) → OfCurrent o → OfCurrent (Option.map g o)
    in_current none h = tt
    in_current (some f) h = keeps f h

pub ensure_file-IsSound : (p : Parser) → IsSound p → IsSound (ensure_file p)
unfolding ensure_file
ensure_file-IsSound p s = in_case p.current
  where
    in_case : (o : Option File) → IsSound (elim o [ none ↦ push empty_file p | some f ↦ p ])
    in_case none = push-IsSound empty_file p refl s
    in_case (some f) = s

-- A hunk of two sides, behind its header.
add_hunk-IsSound :
    (h : Hunk) (p : Parser)
    → IsNumbered h
    → IsSound p
    → IsSound (alter (add_hunk h) (ensure_file p))
add_hunk-IsSound h p n s =
    alter-IsSound (add_hunk h) (ensure_file p)
      (λ f k. All-append IsNumbered f.hunks (h ∷ []) k (n, tt)) (ensure_file-IsSound p s)

combined_body-HasNoNumbers :
    (parents : ℕ) (ls : List Bytes)
    → All HasNoNumbers (combined_body parents ls).0
      × (length (combined_body parents ls).1 ≤ length ls)
unfolding combined_body
combined_body-HasNoNumbers parents [] = (tt, omega arith)
combined_body-HasNoNumbers parents (l ∷ ls) =
    let (zeros, le) = combined_body-HasNoNumbers parents ls in
    elim (Bool-cases (has_prefix l (codes "@@") || has_prefix l (codes "diff "))) [
      | inl stop ↦ rw stop (tt, omega arith)
      | inr more ↦ elim (Bool-cases (has_prefix l (codes "\\"))) [
        | inl marker ↦ rw (more, marker) (zeros, omega arith)
        | inr plain ↦ rw (more, plain) (((refl, refl), zeros), omega arith)
      ]
    ]

-- What one round may return: a sound parser and no more lines than were left.
abbrev pub Advances : ℕ → Option (Parser × List Bytes) → Type 0
Advances n none = ⊥
Advances n (some (q, rest)) = IsSound q × (length rest ≤ n)

pub Advances-if :
    (n : ℕ) (b : Bool) (x y : Option (Parser × List Bytes))
    → (b ≡ true → Advances n x)
    → (b ≡ false → Advances n y)
    → Advances n (if b then x else y)
Advances-if n true x y hx hy = hx refl
Advances-if n false x y hx hy = hy refl

read_combined_hunk-IsNumbered :
    (header : Bytes) (ls : List Bytes)
    → has_prefix header (codes "@@@") ≡ true
    → IsNumbered (read_combined_hunk header ls).0
      × (length (read_combined_hunk header ls).1 ≤ length ls)
unfolding read_combined_hunk
read_combined_hunk-IsNumbered header ls e =
    let (zeros, le) = combined_body-HasNoNumbers (combined_parents header) ls in
    (inr (e, zeros), le)

read_hunk_body-IsNumbered :
    (h : Hunk) (ls : List Bytes)
    → (r : Hunk × List Bytes) × (read_hunk_body h ls ≡ some r)
      × IsNumbered r.0
      × (length r.1 ≤ length ls)
unfolding read_hunk_body
read_hunk_body-IsNumbered h ls =
    let (r, e, le) = read_body-total (body_start h) ls tt in
    let body : read_hunk_body h ls ≡ some (record h { lines = r.0 }, r.1) = rw e refl in
    (
      (record h { lines = r.0 }, r.1),
      body,
      inl (read_hunk_body-AreNumbered h.old_start h.new_start h ls refl refl body),
      le,
    )

module _ (platform : Platform) where
  pub read_hunk-Advances :
      (line : Bytes) (ls : List Bytes) (p : Parser)
      → IsSound p
      → Advances (length ls) (read_hunk platform line ls p)
  unfolding read_hunk
  read_hunk-Advances line ls p s =
      Advances-if (length ls) (has_prefix line (codes "@@@")) _ _
        (λ combined.
          let (n, le) = read_combined_hunk-IsNumbered line ls combined in
          (add_hunk-IsSound (read_combined_hunk line ls).0 p n s, le))
        (λ plain. behind (parse_hunk_header line))
    where
      behind :
          (o : Option Hunk)
          → Advances (length ls) (elim o [
            | none ↦ some (p, ls)
            | some header ↦
                read_hunk_body header ls >>= λ r. some (alter (add_hunk r.0) (ensure_file p), r.1)
          ])
      behind none = (s, omega arith)
      behind (some header) =
          let (r, e, n, le) = read_hunk_body-IsNumbered header ls in
          rw e (add_hunk-IsSound r.0 p n s, le)
