-- ===== src/Config/Names.antt =====
-- How Lookup of apt-pkg/contrib/configuration.cc cuts a name into tags.
use aptum.Prelude.{
  ℕ, ◌≡◌, refl, sym, ap, ◌∙◌, Bool, true, false, List, [], ◌∷◌, ◌++◌, append_assoc, append-nil,
  arith, All, ◌==◌, is_empty,
}
use aptum.Strings.Parts.{is_free}
use aptum.Strings.Split.{join, following}
use aptum.Config.Walk.{full_tag}
use aptum.Config.Items.{tags_loop, name_tags}

abbrev pub colons : List ℕ
colons = b':' ∷ b':' ∷ []

-- A tag that is not empty and has no colon.
abbrev pub IsTag : List ℕ → Type 0
IsTag s = (is_empty s ≡ false) × (is_free b':' s ≡ true)

tags_loop-step :
    (part : List ℕ) (skip : Bool) (c : ℕ) (name : List ℕ)
    → (c == b':') ≡ false
    → tags_loop part skip (c ∷ name) ≡ tags_loop (part ++ c ∷ []) false name
unfolding tags_loop
tags_loop-step part skip c [] h = refl
tags_loop-step part true c (d ∷ name) h = refl
tags_loop-step part false c (d ∷ name) h = rw h refl

tags_loop-following :
    (ss : List (List ℕ)) (part s : List ℕ)
    → is_free b':' s ≡ true
    → All IsTag ss
    → tags_loop part false (s ++ following colons ss) ≡ (part ++ s, ss)
unfolding tags_loop
tags_loop-following [] part [] h hs = ap (λ (x : List ℕ). (x, [])) (sym (append-nil part))
tags_loop-following ([] ∷ ss) part [] h ((n, _), hs) = cc
tags_loop-following ((c ∷ t) ∷ ss) part [] h ((n, f), hs) =
    let cut =
      tags_loop-step [] true c (t ++ following colons ss) (ground arith)
      ∙ tags_loop-following ss (c ∷ []) t (ground arith) hs in
    ap (λ (x : List ℕ × List (List ℕ)). (part, x.0 ∷ x.1)) cut
    ∙ ap (λ (x : List ℕ). (x, (c ∷ t) ∷ ss)) (sym (append-nil part))
tags_loop-following ss part (c ∷ s) h hs =
    tags_loop-step part false c (s ++ following colons ss) (ground arith)
    ∙ tags_loop-following ss (part ++ c ∷ []) s (ground arith) hs
    ∙ ap (λ (x : List ℕ). (x, ss)) (append_assoc part (c ∷ []) s)

name_tags-join :
    (s : List ℕ) (ss : List (List ℕ))
    → is_free b':' s ≡ true
    → All IsTag ss
    → name_tags (join colons (s ∷ ss)) ≡ (s, ss)
unfolding name_tags
name_tags-join s ss h hs = tags_loop-following ss [] s h hs

-- The tags from the top down to an item, and further ones.
abbrev pub tags_down : List ℕ → List (List ℕ) → List (List ℕ) → List ℕ × List (List ℕ)
tags_down tag [] below = (tag, below)
tags_down tag (parent ∷ above) below = tags_down parent above (tag ∷ below)

-- The tags have no colons, and only the topmost can be empty.
abbrev pub AreTags : List ℕ → List (List ℕ) → Type 0
AreTags tag [] = is_free b':' tag ≡ true
AreTags tag (parent ∷ above) = IsTag tag × AreTags parent above

full_tag-following :
    (tag : List ℕ) (above below : List (List ℕ))
    → full_tag tag above ++ following colons below
      ≡ join colons ((tags_down tag above below).0 ∷ (tags_down tag above below).1)
unfolding full_tag
full_tag-following tag [] below = refl
full_tag-following tag (parent ∷ above) below =
    append_assoc (full_tag parent above) (b':' ∷ b':' ∷ tag) (following colons below)
    ∙ full_tag-following parent above (tag ∷ below)

tags_down-IsTag :
    (tag : List ℕ) (above below : List (List ℕ))
    → AreTags tag above
    → All IsTag below
    → (is_free b':' (tags_down tag above below).0 ≡ true) × All IsTag (tags_down tag above below).1
tags_down-IsTag tag [] below h hs = (h, hs)
tags_down-IsTag tag (parent ∷ above) below (h, ha) hs =
    tags_down-IsTag parent above (tag ∷ below) ha (h, hs)

-- Lookup cuts from the FullTag of an item its tag and those above it, from the top down, where these have no
-- colons and only the topmost can be empty.
pub name_tags-full_tag :
    (tag : List ℕ) (above : List (List ℕ))
    → AreTags tag above
    → name_tags (full_tag tag above) ≡ tags_down tag above []
name_tags-full_tag tag above h =
    let (free, tags) = tags_down-IsTag tag above [] h tt in
    ap name_tags (sym (append-nil (full_tag tag above)) ∙ full_tag-following tag above [])
    ∙ name_tags-join (tags_down tag above []).0 (tags_down tag above []).1 free tags
