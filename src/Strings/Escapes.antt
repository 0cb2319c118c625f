-- ===== src/Strings/Escapes.antt =====
-- DeEscapeString of apt-pkg/contrib/strutl.cc. `strtol` is the byte that the C library's function makes of two
-- characters in a base, whatever they are.
use aptum.Prelude.{ℕ, ◌≡◌, refl, ap, ◌∙◌, false, not, All, List, [], ◌∷◌, ◌==◌, if◌then◌else◌}

-- The loop from a character on.
unfoldable pub de_escape_string : (ℕ → ℕ → ℕ → ℕ) → List ℕ → List ℕ
de_escape_string strtol [] = []
de_escape_string strtol (c ∷ []) = if not (c == b'\\') then c ∷ [] else []
de_escape_string strtol (c ∷ e ∷ []) =
    let plain = de_escape_string strtol (e ∷ []) in
    if not (c == b'\\') then c ∷ plain else if e == b'\\' then c ∷ [] else []
de_escape_string strtol (c ∷ e ∷ a ∷ []) =
    let plain = de_escape_string strtol (e ∷ a ∷ []) in
    let behind = de_escape_string strtol (a ∷ []) in
    if not (c == b'\\') then c ∷ plain else if e == b'\\' then c ∷ behind else behind
de_escape_string strtol (c ∷ e ∷ a ∷ b ∷ s) =
    let plain = de_escape_string strtol (e ∷ a ∷ b ∷ s) in
    let behind = de_escape_string strtol (a ∷ b ∷ s) in
    let coded = de_escape_string strtol s in
    if not (c == b'\\')
    then c ∷ plain
    else if e == b'\\'
    then c ∷ behind
    else if e == b'0'
    then strtol 8 a b ∷ coded
    else if e == b'x'
    then strtol 16 a b ∷ coded
    else behind

-- A text in parts: a character, or a backslash with what it escapes; `unknown` is every other character
-- behind a backslash.
pub data Piece : Type 0 where
  plain : ℕ → Piece
  backslash : Piece
  octal : ℕ → ℕ → Piece
  hex : ℕ → ℕ → Piece
  unknown : ℕ → Piece

abbrev pub IsPiece : Piece → Type 0
IsPiece (plain c) = (c == b'\\') ≡ false
IsPiece backslash = Unit
IsPiece (octal a b) = Unit
IsPiece (hex a b) = Unit
IsPiece (unknown e) = ((e == b'\\') ≡ false) × ((e == b'0') ≡ false) × ((e == b'x') ≡ false)

abbrev pub escaped_text : List Piece → List ℕ
escaped_text [] = []
escaped_text (plain c ∷ pieces) = c ∷ escaped_text pieces
escaped_text (backslash ∷ pieces) = b'\\' ∷ b'\\' ∷ escaped_text pieces
escaped_text (octal a b ∷ pieces) = b'\\' ∷ b'0' ∷ a ∷ b ∷ escaped_text pieces
escaped_text (hex a b ∷ pieces) = b'\\' ∷ b'x' ∷ a ∷ b ∷ escaped_text pieces
escaped_text (unknown e ∷ pieces) = b'\\' ∷ e ∷ escaped_text pieces

abbrev pub meant_text : (ℕ → ℕ → ℕ → ℕ) → List Piece → List ℕ
meant_text strtol [] = []
meant_text strtol (plain c ∷ pieces) = c ∷ meant_text strtol pieces
meant_text strtol (backslash ∷ pieces) = b'\\' ∷ meant_text strtol pieces
meant_text strtol (octal a b ∷ pieces) = strtol 8 a b ∷ meant_text strtol pieces
meant_text strtol (hex a b ∷ pieces) = strtol 16 a b ∷ meant_text strtol pieces
meant_text strtol (unknown e ∷ pieces) = meant_text strtol pieces

module _ (strtol : ℕ → ℕ → ℕ → ℕ) where
  plain_lem :
      (c : ℕ) (s : List ℕ)
      → (c == b'\\') ≡ false
      → de_escape_string strtol (c ∷ s) ≡ c ∷ de_escape_string strtol s
  unfolding de_escape_string
  plain_lem c [] h = rw h refl
  plain_lem c (e ∷ []) h = rw h refl
  plain_lem c (e ∷ a ∷ []) h = rw h refl
  plain_lem c (e ∷ a ∷ b ∷ s) h = rw h refl

  backslash_lem :
      (s : List ℕ) → de_escape_string strtol (b'\\' ∷ b'\\' ∷ s) ≡ b'\\' ∷ de_escape_string strtol s
  unfolding de_escape_string
  backslash_lem [] = refl
  backslash_lem (a ∷ []) = refl
  backslash_lem (a ∷ b ∷ s) = refl

  unknown_lem :
      (e : ℕ) (s : List ℕ)
      → IsPiece (unknown e)
      → de_escape_string strtol (b'\\' ∷ e ∷ s) ≡ de_escape_string strtol s
  unfolding de_escape_string
  unknown_lem e [] (h, k, l) = rw h refl
  unknown_lem e (a ∷ []) (h, k, l) = rw h refl
  unknown_lem e (a ∷ b ∷ s) (h, k, l) = rw (h, k, l) refl

-- DeEscapeString copies characters other than backslashes, makes one backslash of two, a byte of \0 or \x and
-- two characters, and nothing of a backslash with any other character.
pub de_escape_string-meant_text :
    (strtol : ℕ → ℕ → ℕ → ℕ) (pieces : List Piece)
    → All IsPiece pieces
    → de_escape_string strtol (escaped_text pieces) ≡ meant_text strtol pieces
unfolding de_escape_string
de_escape_string-meant_text strtol [] h = refl
de_escape_string-meant_text strtol (plain c ∷ pieces) (h, hs) =
    plain_lem strtol c (escaped_text pieces) h
    ∙ ap (λ (s : List ℕ). c ∷ s) (de_escape_string-meant_text strtol pieces hs)
de_escape_string-meant_text strtol (backslash ∷ pieces) (h, hs) =
    backslash_lem strtol (escaped_text pieces)
    ∙ ap (λ (s : List ℕ). b'\\' ∷ s) (de_escape_string-meant_text strtol pieces hs)
de_escape_string-meant_text strtol (octal a b ∷ pieces) (h, hs) =
    ap (λ (s : List ℕ). strtol 8 a b ∷ s) (de_escape_string-meant_text strtol pieces hs)
de_escape_string-meant_text strtol (hex a b ∷ pieces) (h, hs) =
    ap (λ (s : List ℕ). strtol 16 a b ∷ s) (de_escape_string-meant_text strtol pieces hs)
de_escape_string-meant_text strtol (unknown e ∷ pieces) (h, hs) =
    unknown_lem strtol e (escaped_text pieces) h ∙ de_escape_string-meant_text strtol pieces hs
