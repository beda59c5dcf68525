-- ===== src/Controller/Text.antt =====
-- Tests on the characters of a text: hasControlChars (internal/controller/external_wait.go).
use Prim.Native.Char.{code}
use Prim.Native.String.{String, [], ◌∷◌}
use proceed.Base.{Bool, false, ◌||◌, ◌==◌, ltb}

-- hasControlChars
unfoldable pub has_control_chars : String → Bool
has_control_chars [] = false
has_control_chars (c ∷ s) = ltb (code c) 32 || code c == 127 || has_control_chars s
