-- ===== src/Text/Split.antt =====
-- Cutting strings apart and joining them: `strings.Cut`, `Split`, `Fields`, `Join`, `IndexByte`,
-- `Contains` and `path.Ext`.
use sbnn.Prelude.{
  Bool, Bytes, List, Option, [], if◌then◌else◌, is_some, none, reverse, some, suc, zero, ℕ, ◌++◌,
  ◌==◌, ◌∷◌,
}
use sbnn.Text.Affix.{after_prefix, space_width}

-- `strings.Cut`: what stands before and after the first occurrence.
unfoldable pub cut : Bytes → Bytes → Option (Bytes × Bytes)
unfolding after_prefix
cut sep [] = elim (after_prefix [] sep) [ none ↦ none | some r ↦ some ([], r) ]
cut sep (c ∷ s) =
    let later = cut sep s in
    elim (after_prefix (c ∷ s) sep) [
      | some r ↦ some ([], r)
      | none ↦ elim later [ none ↦ none | some (b, a) ↦ some (c ∷ b, a) ]
    ]

unfoldable pub contains : Bytes → Bytes → Bool
unfolding cut
contains s sep = is_some (cut sep s)

-- The lines of a split: a byte in front of the first piece.
abbrev pub push_first : ℕ → List Bytes → List Bytes
push_first c [] = (c ∷ []) ∷ []
push_first c (l ∷ ls) = (c ∷ l) ∷ ls

-- `strings.Split` by one byte.
unfoldable pub split : ℕ → Bytes → List Bytes
split b [] = [] ∷ []
split b (c ∷ s) = let rest = split b s in if c == b then [] ∷ rest else push_first c rest

-- `strings.Join` with one byte.
unfoldable pub join : ℕ → List Bytes → Bytes
join b [] = []
join b (l ∷ []) = l
join b (l ∷ m ∷ ls) = l ++ b ∷ join b (m ∷ ls)

-- A field that has been read, given from its last byte to its first, joins the fields behind it.
abbrev pub close_field : Bytes → List Bytes → List Bytes
close_field [] fs = fs
close_field (c ∷ r) fs = reverse (c ∷ r) ∷ fs

-- `strings.Fields`; the number is how many bytes of a white space character are still to be
-- dropped.
unfoldable pub fields_from : Bytes → ℕ → Bytes → List Bytes
unfolding space_width
fields_from field k [] = close_field field []
fields_from field (suc k) (c ∷ s) = fields_from field k s
fields_from field zero (c ∷ s) =
    let inside = fields_from (c ∷ field) 0 s in
    elim (space_width (c ∷ s)) [ zero ↦ inside | suc k ↦ close_field field (fields_from [] k s) ]

unfoldable pub fields : Bytes → List Bytes
unfolding fields_from
fields = fields_from [] 0

-- `path.Ext`, on the bytes from the last to the first: up to the last dot of the last element.
unfoldable pub ext_from : Bytes → Bytes → Bytes
ext_from after [] = []
ext_from after (c ∷ s) =
    if c == b'/' then [] else if c == b'.' then c ∷ after else ext_from (c ∷ after) s

unfoldable pub ext : Bytes → Bytes
unfolding ext_from
ext p = ext_from [] (reverse p)
