-- ===== src/Base/Text.antt =====
-- Rust's `String` is its UTF-8 bytes. A text of the source is read off its ASCII characters.
use Prim.Native.Char.{code}
use Prim.Native.String.{String}
use mathlib.Core.List.{[], ◌∷◌}
use gpustat4cluster.Base.Bytes.{Bytes}

abbrev pub Text : Type 0
Text = Bytes

abbrev pub text : String → Text
text String.[] = []
text (String.◌∷◌ c s) = code c ∷ text s
