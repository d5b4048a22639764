-- ===== src/Common/Ascii.antt =====
-- The ASCII letters of the standard library: `make_ascii_lowercase` and `eq_ignore_ascii_case`.
use Prim.Native.Nat.{ℕ, ◌+◌}
use mathlib.Core.Bool.{Bool, ◌&&◌}
use mathlib.Core.List.{map}
use servente.Common.Tests.{leb, if◌then◌else◌}
use servente.Common.Lists.{Bytes, bytes_eq}

unfoldable pub ascii_lower : ℕ → ℕ
ascii_lower c = if leb b'A' c && leb c b'Z' then c + 32 else c

unfoldable pub to_ascii_lowercase : Bytes → Bytes
unfolding ascii_lower
to_ascii_lowercase = map ascii_lower

unfoldable pub eq_ignore_ascii_case : Bytes → Bytes → Bool
unfolding to_ascii_lowercase
eq_ignore_ascii_case a b = bytes_eq (to_ascii_lowercase a) (to_ascii_lowercase b)
