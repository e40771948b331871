-- ===== src/Prelude/Texts.antt =====
-- Tests on texts.
use Prim.Native.String.{String, [], ◌∷◌, len, find}
use mathlib.Core.Bool.{Bool, ◌||◌}
use cax_commerce_operations.Prelude.Tests.{◌==◌, Eq-string, leb}

-- `text.endswith(suffix)`
unfoldable pub ends_with : String → String → Bool
ends_with [] suffix = suffix == []
ends_with (c ∷ text) suffix = (c ∷ text) == suffix || ends_with text suffix

-- `part in text`
abbrev pub is_in : String → String → Bool
is_in part text = leb (find text part) (len text)
