-- ===== src/Rred/ReadLine.antt =====
-- FileFd::ReadLine of apt-pkg/contrib/fileutl.cc, as read_diff of methods/rred.cc calls it until the end of a file:
-- a line goes into the buffer of APT_MEMBLOCK_SIZE bytes up to the NUL, and a longer one is cut.
use aptum.Prelude.{
  ℕ, ◌-◌, ◌^◌, ◌<◌, ◌≡◌, refl, ap, ◌∙◌, Bool, false, ◌||◌, List, [], ◌∷◌, ◌++◌, arith, All, ◌==◌,
  if◌then◌else◌, length, length-append, map, append_assoc, sym,
}
use aptum.Chars.{c_string}
use aptum.Rred.Changes.{flat, newline}
use aptum.Rred.Texts.{has_newline}
use aptum.Rred.Lines.{longer_first, IsLine}

-- The bytes that fit beside the NUL.
abbrev buffer_room : ℕ
buffer_room = 2 ^ 19 - 1

-- What the calls put into the buffer, of which the first has room for `n` bytes more.
unfoldable pub cut_lines : ℕ → List ℕ → List (List ℕ)
cut_lines n [] = []
cut_lines n (c ∷ s) =
    let full = c == newline || n == 1 in
    let rest = cut_lines (if full then buffer_room else n - 1) s in
    if full then (c ∷ []) ∷ rest else longer_first c rest

-- The contents of the buffer as a text, behind each call.
unfoldable pub read_buffers : List ℕ → List (List ℕ)
unfolding cut_lines
read_buffers file = map c_string (cut_lines buffer_room file)

abbrev pub has_nul : List ℕ → Bool
has_nul [] = false
has_nul (c ∷ s) = c == 0 || has_nul s

-- A line that the buffer holds.
pub record IsShort (l : List ℕ) : Type 0 where
  pub small : length l < 2 ^ 19
  pub no_nul : has_nul l ≡ false

c_string-same : (l : List ℕ) → has_nul l ≡ false → c_string l ≡ l
unfolding c_string
c_string-same [] h = refl
c_string-same (c ∷ l) h = ground (arith, c_string-same l)

cut_lines-line :
    (n : ℕ) (t s : List ℕ)
    → has_newline t ≡ false
    → length t < n
    → cut_lines n (t ++ newline ∷ s) ≡ (t ++ newline ∷ []) ∷ cut_lines buffer_room s
unfolding cut_lines has_newline
cut_lines-line n [] s h k = refl
cut_lines-line n (c ∷ t) s h k =
    let other : (c == newline) ≡ false = ground arith in
    let more : (n == 1) ≡ false = ground arith in
    rw (other, more)
      (ap (longer_first c) (cut_lines-line (n - 1) t s (ground arith) (omega (arith, k))))

cut_lines-flat :
    (ls : List (List ℕ)) → All IsLine ls → All IsShort ls → cut_lines buffer_room (flat ls) ≡ ls
unfolding cut_lines flat
cut_lines-flat [] h k = refl
cut_lines-flat (l ∷ ls) ((t, e, no_nl), hs) (short, ks) =
    ap (λ (x : List ℕ). cut_lines buffer_room (x ++ flat ls)) e
    ∙ ap (cut_lines buffer_room) (append_assoc t (newline ∷ []) (flat ls))
    ∙ cut_lines-line buffer_room t (flat ls) no_nl
        (omega (arith, short.small, ap length e, length-append t (newline ∷ [])))
    ∙ ap (λ (x : List (List ℕ)). (t ++ newline ∷ []) ∷ x) (cut_lines-flat ls hs ks)
    ∙ ap (λ (x : List ℕ). x ∷ ls) (sym e)

c_strings-same : (ls : List (List ℕ)) → All IsShort ls → map c_string ls ≡ ls
c_strings-same [] h = refl
c_strings-same (l ∷ ls) (h, hs) =
    ap (λ (x : List ℕ). x ∷ map c_string ls) (c_string-same l h.no_nul)
    ∙ ap (λ (x : List (List ℕ)). l ∷ x) (c_strings-same ls hs)

-- Lines that the buffer holds are read one by one.
pub read_buffers-flat :
    (ls : List (List ℕ)) → All IsLine ls → All IsShort ls → read_buffers (flat ls) ≡ ls
unfolding read_buffers
read_buffers-flat ls h k = ap (map c_string) (cut_lines-flat ls h k) ∙ c_strings-same ls k
