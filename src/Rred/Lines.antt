-- ===== src/Rred/Lines.antt =====
-- What apply_against_file of methods/rred.cc writes, line by line.
use aptum.Prelude.{
  ℕ, zero, suc, ◌^◌, ◌<◌, ◌≡◌, refl, sym, ap, ◌∙◌, false, List, [], ◌∷◌, ◌++◌, arith, append_assoc,
  ◌==◌, if◌then◌else◌, take, drop, All, length, if-elim,
}
use aptum.Rred.Changes.{Change, newline, flat, skip_count, apply_against_file}
use aptum.Rred.Texts.{IsText, has_newline}
use aptum.Rred.Meaning.{flat-append}
use aptum.Rred.Sizes.{all_del}

-- The lines of a text, each with the newline that ends it.
abbrev pub longer_first : ℕ → List (List ℕ) → List (List ℕ)
longer_first c [] = (c ∷ []) ∷ []
longer_first c (l ∷ ls) = (c ∷ l) ∷ ls

unfoldable pub lines_of : List ℕ → List (List ℕ)
lines_of [] = []
lines_of (c ∷ s) =
    let rest = lines_of s in if c == newline then (c ∷ []) ∷ rest else longer_first c rest

-- The lines that the changes leave of the lines of the input.
unfoldable pub out : List Change → List (List ℕ) → List (List ℕ)
out [] input = input
out (c ∷ cs) input =
    take c.offset input ++ (lines_of c.add ++ out cs (drop c.del_cnt (drop c.offset input)))

-- A line with its newline.
abbrev pub IsLine : List ℕ → Type 0
IsLine l = (t : List ℕ) × (l ≡ t ++ newline ∷ []) × (has_newline t ≡ false)

flat-longer_first : (c : ℕ) (ls : List (List ℕ)) → flat (longer_first c ls) ≡ c ∷ flat ls
unfolding flat
flat-longer_first c [] = refl
flat-longer_first c (l ∷ ls) = refl

pub flat-lines_of : (s : List ℕ) → flat (lines_of s) ≡ s
unfolding lines_of flat
flat-lines_of [] = refl
flat-lines_of (c ∷ s) =
    let ih = ap (λ (t : List ℕ). c ∷ t) (flat-lines_of s) in
    if-elim (λ (ls : List (List ℕ)). flat ls ≡ c ∷ s) (c == newline) (λ e. ih)
      (λ e. flat-longer_first c (lines_of s) ∙ ih)

lines_of-line :
    (l r : List ℕ)
    → has_newline l ≡ false
    → lines_of (l ++ newline ∷ r) ≡ (l ++ newline ∷ []) ∷ lines_of r
unfolding lines_of has_newline
lines_of-line [] r h = refl
lines_of-line (c ∷ l) r h =
    let other : (c == newline) ≡ false = ground arith in
    rw other (ap (longer_first c) (lines_of-line l r (ground arith)))

pub lines_of-flat : (ls : List (List ℕ)) → All IsLine ls → lines_of (flat ls) ≡ ls
unfolding flat
lines_of-flat [] h = unfold lines_of in refl
lines_of-flat (l ∷ ls) ((t, e, n), hs) =
    ap (λ (x : List ℕ). lines_of (x ++ flat ls)) e
    ∙ ap lines_of (append_assoc t (newline ∷ []) (flat ls))
    ∙ lines_of-line t (flat ls) n
    ∙ ap (λ (x : List (List ℕ)). (t ++ newline ∷ []) ∷ x) (lines_of-flat ls hs)
    ∙ ap (λ (x : List ℕ). x ∷ ls) (sym e)

-- The lines of a text that has n of them.
pub lines_of-IsText :
    (n : ℕ) (s : List ℕ) → IsText n s → (length (lines_of s) ≡ n) × All IsLine (lines_of s)
lines_of-IsText zero s e = rw e (unfold lines_of in (refl, tt))
lines_of-IsText (suc n) s (l, r, e, no_nl, t) =
    let (len, lines) = lines_of-IsText n r t in
    rw (e, lines_of-line l r no_nl) (omega (arith, len), ((l, refl, no_nl), lines))

-- The lines behind the first k.
pub drop-lines_of :
    (k : ℕ) (front rest : List ℕ)
    → IsText k front
    → drop k (lines_of (front ++ rest)) ≡ lines_of rest
drop-lines_of zero front rest e = rw e refl
drop-lines_of (suc k) front rest (l, r, e, no_nl, t) =
    ap (λ (x : List ℕ). drop (suc k) (lines_of (x ++ rest))) e
    ∙ ap (λ (x : List ℕ). drop (suc k) (lines_of x)) (append_assoc l (newline ∷ r) rest)
    ∙ ap (drop (suc k)) (lines_of-line l (r ++ rest) no_nl)
    ∙ drop-lines_of k r rest t

-- Where fewer than 2 ^ 31 lines are deleted in all, those lines are written.
pub apply_against_file-out :
    (cs : List Change) (input : List (List ℕ))
    → all_del cs < 2 ^ 31
    → apply_against_file cs input ≡ flat (out cs input)
unfolding apply_against_file out all_del
apply_against_file-out [] input h = refl
apply_against_file-out (c ∷ cs) input h =
    let small : skip_count c.del_cnt ≡ c.del_cnt = unfold skip_count in ground arith in
    let ih = apply_against_file-out cs (drop c.del_cnt (drop c.offset input)) (omega (arith, h)) in
    rw (flat-append (take c.offset input), flat-append (lines_of c.add), flat-lines_of c.add, small)
      (ap (λ (x : List ℕ). flat (take c.offset input) ++ (c.add ++ x)) ih)
