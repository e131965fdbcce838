-- ===== src/Diff/Platform.antt =====
-- What the parser takes from Go's library without looking inside: the C style unquoting of
-- `strconv.Unquote`, the Unicode tables behind `strings.ToLower`, and SHA-256 in hexadecimal.
use sbnn.Prelude.{Bytes, Option}

pub record Platform : Type 0 where
  pub unquote : Bytes → Option Bytes
  pub to_lower : Bytes → Bytes
  pub sha256_hex : Bytes → Bytes
