-- ===== src/Chars.antt =====
-- Character classes of apt-pkg/contrib/strutl.h and the C library, over byte values.
use aptum.Prelude.{ℕ, ◌+◌, Bool, ◌&&◌, ◌||◌, List, [], ◌∷◌, String, leb, ◌==◌, if◌then◌else◌}
use Prim.Native.Char.{code}

-- The bytes of an ASCII literal.
abbrev pub codes : String → List ℕ
codes String.[] = []
codes (String.◌∷◌ c s) = code c ∷ codes s

-- The bytes up to a NUL, as those of a char* are read.
unfoldable pub c_string : List ℕ → List ℕ
c_string [] = []
c_string (c ∷ s) = let rest = c_string s in if c == 0 then [] else c ∷ rest

-- `*p` for a pointer into a NUL-terminated text, given by the bytes before the NUL.
abbrev pub deref : List ℕ → ℕ
deref [] = 0
deref (c ∷ s) = c

abbrev pub is_digit : ℕ → Bool
is_digit c = leb b'0' c && leb c b'9'

unfoldable pub isupper_ascii : ℕ → Bool
isupper_ascii c = leb b'A' c && leb c b'Z'

unfoldable pub islower_ascii : ℕ → Bool
islower_ascii c = leb b'a' c && leb c b'z'

unfoldable pub isalpha_ascii : ℕ → Bool
unfolding isupper_ascii islower_ascii
isalpha_ascii c = isupper_ascii c || islower_ascii c

unfoldable pub isspace_ascii : ℕ → Bool
isspace_ascii c = (leb 9 c && leb c 13) || c == b' '

unfoldable pub tolower_ascii : ℕ → ℕ
tolower_ascii c = if leb b'A' c && leb c b'Z' then c + 32 else c
