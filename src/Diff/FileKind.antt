-- ===== src/Diff/FileKind.antt =====
-- internal/diff/parse.go: which files are previewed as Markdown, as an image or as a notebook.
use sbnn.Diff.Platform.{Platform}
use sbnn.Prelude.{Bool, Bytes, List, Option, [], any, if◌then◌else◌, is_some, none, some, ◌∷◌}
use sbnn.Text.{codes, eq_bytes}
use sbnn.Text.Split.{ext}

-- The keys of `markdownExts`.
abbrev pub markdown_exts : List Bytes
markdown_exts = codes ".md" ∷ codes ".markdown" ∷ codes ".mdown" ∷ codes ".mkd" ∷ codes ".mdx" ∷ []

abbrev pub image_content_types : List (Bytes × Bytes)
image_content_types =
    (codes ".png", codes "image/png")
    ∷ (codes ".jpg", codes "image/jpeg")
    ∷ (codes ".jpeg", codes "image/jpeg")
    ∷ (codes ".gif", codes "image/gif")
    ∷ (codes ".webp", codes "image/webp")
    ∷ (codes ".svg", codes "image/svg+xml")
    ∷ (codes ".bmp", codes "image/bmp")
    ∷ (codes ".ico", codes "image/x-icon")
    ∷ (codes ".avif", codes "image/avif")
    ∷ []

pub lookup : Bytes → List (Bytes × Bytes) → Option Bytes
lookup k [] = none
lookup k ((j, v) ∷ m) = if eq_bytes j k then some v else lookup k m

module _ (platform : Platform) where
  open platform use {to_lower}

  unfoldable pub is_markdown : Bytes → Bool
  unfolding ext
  is_markdown p = any (eq_bytes (to_lower (ext p))) markdown_exts

  unfoldable pub is_image : Bytes → Bool
  unfolding ext lookup
  is_image p = is_some (lookup (to_lower (ext p)) image_content_types)

  -- The empty text where the map has no entry.
  unfoldable pub image_content_type : Bytes → Bytes
  unfolding ext lookup
  image_content_type p = elim (lookup (to_lower (ext p)) image_content_types) [
    | none ↦ []
    | some t ↦ t
  ]

  unfoldable pub is_notebook : Bytes → Bool
  unfolding ext
  is_notebook p = eq_bytes (to_lower (ext p)) (codes ".ipynb")
