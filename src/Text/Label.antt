-- ===== src/Text/Label.antt =====
-- The patterns `^[a-z0-9]([a-z0-9-]{0,N}[a-z0-9])?$` of tunnel IDs and DNS labels.
use sealtun.Prelude.{ℕ, Bool, false, ◌&&◌, ◌||◌, [], ◌∷◌, reverse, Bytes, leb, ◌==◌, all, length}

unfoldable pub is_alnum : ℕ → Bool
is_alnum c = leb b'a' c && leb c b'z' || leb b'0' c && leb c b'9'

unfoldable pub is_label_char : ℕ → Bool
unfolding is_alnum
is_label_char c = is_alnum c || c == b'-'

first_alnum : Bytes → Bool
unfolding is_alnum
first_alnum [] = false
first_alnum (c ∷ s) = is_alnum c

-- Letters, digits and dashes, no dash at either end, at most `limit` characters: N + 2.
unfoldable pub is_label : ℕ → Bytes → Bool
unfolding is_label_char first_alnum
is_label limit s =
    first_alnum s && first_alnum (reverse s) && all is_label_char s && leb (length s) limit
