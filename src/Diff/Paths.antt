-- ===== src/Diff/Paths.antt =====
-- internal/diff/parse.go: the paths in the header lines of a diff.
use sbnn.Diff.Platform.{Platform}
use sbnn.Model.{dev_null}
use sbnn.Prelude.{
  Bool, Bytes, Option, [], if◌then◌else◌, is_some, length, ltb, none, not, reverse, some, true, ℕ,
  ◌&&◌, ◌++◌, ◌==◌, ◌||◌, ◌∷◌,
}
use sbnn.Text.{codes, eq_bytes}
use sbnn.Text.Affix.{has_prefix, has_suffix, trim_right, trim_space}
use sbnn.Text.Split.{cut}

abbrev quote : ℕ
quote = 0x22

unfoldable pub has_prefix_path : Bytes → Bytes → Bool
unfolding eq_bytes has_prefix has_suffix
has_prefix_path s prefix =
    eq_bytes s dev_null
    || has_prefix s (prefix ++ codes "/")
    || (has_prefix s (quote ∷ prefix ++ codes "/") && has_suffix s (quote ∷ []))

unfoldable pub trim_timestamp : Bytes → Bytes
unfolding cut trim_right
trim_timestamp s = elim (cut (b'\t' ∷ []) s) [
  | some (before, _) ↦ before
  | none ↦ trim_right b' ' s
]

-- The a/ or b/ in front of a path; only a path with something behind it loses it.
unfoldable pub strip_side : Bytes → Bytes
strip_side (c ∷ d ∷ e ∷ s) = if (c == b'a' || c == b'b') && d == b'/' then e ∷ s else c ∷ d ∷ e ∷ s
strip_side s = s

module _ (platform : Platform) where
  open platform use {unquote}

  unfoldable pub unquote_path : Bytes → Bytes
  unfolding trim_space has_prefix has_suffix
  unquote_path raw =
      let s = trim_space raw in
      if ltb (length s) 2 || not (has_prefix s (quote ∷ [])) || not (has_suffix s (quote ∷ []))
      then s
      else elim (unquote s) [ some unquoted ↦ unquoted | none ↦ s ]

  unfoldable pub normalize_path : Bytes → Bool → Bytes
  unfolding unquote_path eq_bytes strip_side
  normalize_path raw strip =
      let s = unquote_path (trim_space raw) in
      if eq_bytes s dev_null then [] else if strip then strip_side s else s

  -- `cutQuoted` from the byte at `i`; `before` holds the bytes in front of it, the last one first.
  unfoldable pub cut_quoted_from : Bytes → Bytes → Option (Bytes × Bytes)
  unfolding unquote_path
  cut_quoted_from before [] = none
  cut_quoted_from before (c ∷ []) =
      if c == b'\\'
      then none
      else if c == quote
      then some (unquote_path (reverse (c ∷ before)), [])
      else none
  cut_quoted_from before (c ∷ d ∷ s) =
      let escaped = cut_quoted_from (d ∷ c ∷ before) s in
      let plain = cut_quoted_from (c ∷ before) (d ∷ s) in
      if c == b'\\'
      then escaped
      else if c == quote
      then some (unquote_path (reverse (c ∷ before)), d ∷ s)
      else plain

  unfoldable pub cut_quoted : Bytes → Option (Bytes × Bytes)
  unfolding cut_quoted_from
  cut_quoted [] = none
  cut_quoted (c ∷ s) = if c == quote then cut_quoted_from (c ∷ []) s else none

  -- The loop over the possible split points; `before` holds the bytes in front of `i`, the last one
  -- first, and `fallback` the first pair found whose sides differ.
  unfoldable pub split_points : Bytes → Bytes → Option (Bytes × Bytes) → Option (Bytes × Bytes)
  unfolding has_prefix_path normalize_path eq_bytes
  split_points before [] fallback = fallback
  split_points before (c ∷ s) fallback =
      let l = reverse before in
      let candidate = c == b' ' && has_prefix_path l (codes "a") && has_prefix_path s (codes "b") in
      let lp = normalize_path l true in
      let rp = normalize_path s true in
      let fallback' = if candidate && not (is_some fallback) then some (lp, rp) else fallback in
      let later = split_points (c ∷ before) s fallback' in
      if candidate && eq_bytes lp rp then some (lp, rp) else later

  unfoldable pub split_git_header_paths : Bytes → Option (Bytes × Bytes)
  unfolding cut_quoted split_points normalize_path unquote_path
  split_git_header_paths rest = elim (cut_quoted rest) [
    | some (o, r) ↦ some (normalize_path o true, normalize_path (unquote_path (trim_space r)) true)
    | none ↦ split_points [] rest none
  ]
