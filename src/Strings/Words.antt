-- ===== src/Strings/Words.antt =====
-- ParseQuoteWord and ParseCWord of apt-pkg/contrib/strutl.cc, on the bytes before the NUL. isspace is that of the
-- C locale. The result is the word and what `String` points to then.
use aptum.Prelude.{
  ℕ, ◌+◌, ◌*◌, Bool, true, false, not, ◌&&◌, List, [], ◌∷◌, ◌++◌, Option, none, some, ◌==◌,
  if◌then◌else◌, is_empty,
}
use aptum.Chars.{isspace_ascii}
use aptum.Strings.Quote.{isxdigit, hex_value}
use aptum.Strings.Split.{one_later}

-- The blanks at the front, and the rest.
unfoldable pub skip_blanks : List ℕ → List ℕ × List ℕ
skip_blanks [] = ([], [])
skip_blanks (c ∷ s) =
    let later = skip_blanks s in if c == b' ' then (c ∷ later.0, later.1) else ([], c ∷ s)

-- The character that ends what a character opens.
abbrev pub opened : ℕ → Option ℕ
opened c = if c == b'"' then some b'"' else if c == b'[' then some b']' else none

-- The word at the front, and the rest; the first argument is what strchr looks for.
unfoldable pub word_cut : Option ℕ → List ℕ → Option (List ℕ × List ℕ)
unfolding isspace_ascii
word_cut none [] = some ([], [])
word_cut none (c ∷ s) =
    let later = one_later c (word_cut (opened c) s) in
    if isspace_ascii c then some ([], c ∷ s) else later
word_cut (some q) [] = none
word_cut (some q) (c ∷ s) = one_later c (word_cut (if c == q then none else some q) s)

abbrev pub push_unquoted : ℕ → List ℕ → List ℕ
push_unquoted c res = if not (c == b'"') then c ∷ res else res

-- The loop that takes quotes and escapes out.
unfoldable pub de_quote_word : List ℕ → List ℕ
unfolding isxdigit hex_value
de_quote_word [] = []
de_quote_word (c ∷ []) = push_unquoted c []
de_quote_word (c ∷ x ∷ []) = push_unquoted c (push_unquoted x [])
de_quote_word (c ∷ x ∷ y ∷ s) =
    let quoted = (hex_value x * 16 + hex_value y) ∷ de_quote_word s in
    let plain = push_unquoted c (de_quote_word (x ∷ y ∷ s)) in
    if c == b'%' && isxdigit x && isxdigit y then quoted else plain

unfoldable pub skip_space : List ℕ → List ℕ
unfolding isspace_ascii
skip_space [] = []
skip_space (c ∷ s) = let later = skip_space s in if isspace_ascii c then later else c ∷ s

abbrev pub word_from : List ℕ → Option (List ℕ × List ℕ) → Option (List ℕ × List ℕ)
word_from blanks none = none
word_from blanks (some (word, rest)) = some (de_quote_word (blanks ++ word), skip_space rest)

unfoldable pub parse_quote_word : List ℕ → Option (List ℕ × List ℕ)
unfolding skip_blanks word_cut de_quote_word skip_space
parse_quote_word s =
    if is_empty (skip_blanks s).1
    then none
    else word_from (skip_blanks s).0 (word_cut none (skip_blanks s).1)

abbrev pub push_after : ℕ → Option (List ℕ) → Option (List ℕ)
push_after c none = none
push_after c (some res) = some (c ∷ res)

-- isspace(C[-1]), where `none` is that C is at the front.
abbrev pub behind_space : Option ℕ → Bool
behind_space none = false
behind_space (some c) = isspace_ascii c

-- The loop of ParseCWord, inside quotes or not, with the character before.
unfoldable pub c_word_loop : Bool → Option ℕ → List ℕ → Option (List ℕ)
unfolding isspace_ascii
c_word_loop false before [] = some []
c_word_loop true before [] = none
c_word_loop true before (c ∷ s) =
    let closed = c_word_loop false (some c) s in
    let longer = push_after c (c_word_loop true (some c) s) in if c == b'"' then closed else longer
c_word_loop false before (c ∷ s) =
    let quoted = c_word_loop true (some c) s in
    let next = c_word_loop false (some c) s in
    if c == b'"'
    then quoted
    else if isspace_ascii c && behind_space before
    then next
    else if not (isspace_ascii c)
    then none
    else push_after b' ' next

-- What is before the first character behind the blanks.
abbrev pub last_blank : List ℕ → Option ℕ
last_blank [] = none
last_blank (c ∷ s) = some b' '

-- The word; `String` is at the end of the text then.
unfoldable pub parse_c_word : List ℕ → Option (List ℕ)
unfolding skip_blanks c_word_loop
parse_c_word s =
    if is_empty (skip_blanks s).1
    then none
    else c_word_loop false (last_blank (skip_blanks s).0) (skip_blanks s).1
