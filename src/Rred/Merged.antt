-- ===== src/Rred/Merged.antt =====
-- merge of methods/rred.cc keeps the list of changes well formed.
use aptum.Prelude.{
  ℕ, ◌+◌, ◌-◌, ◌≡◌, refl, sym, ap, ◌∙◌, inl, inr, false, ◌||◌, List, [], ◌∷◌, arith, All, is_empty,
  ◌==◌, Bool-cases,
}
use aptum.Rred.Changes.{Change, FileChanges, changes, from_begin}
use aptum.Rred.Cursor.{cursor, IsSound, IsWell}
use aptum.Rred.Sizes.{needs, total, needs-from_begin}
use aptum.Rred.Merge.{merge, merge_left, merge_next, merge_behind, take_over}

merge_left-IsWell : (b a : List Change) (p : ℕ) → IsWell (cursor b a p) → IsWell (merge_left b a p)
unfolding merge_left total
merge_left-IsWell [] a p h = h
merge_left-IsWell (c ∷ b) [] p h = h
merge_left-IsWell (c ∷ b) (w ∷ a) p h = elim (Bool-cases (w.offset == 0)) [
  | inl e ↦ rw e (
      merge_left-IsWell b (c ∷ w ∷ a) (p - (c.offset + c.add_cnt)) (record {
        pos_lem = omega (arith, h.pos_lem);
        texts_before = h.texts_before.1;
        texts_after = (h.texts_before.0, h.texts_after);
      }))
  | inr e ↦ rw e h
]

take_over-IsSound : (w n : Change) → IsSound w → IsSound n → IsSound (take_over w n)
take_over-IsSound w n h k = elim (Bool-cases (is_empty n.add)) [
  | inl e ↦ rw e (record { text = h.text; small = h.small })
  | inr e ↦ rw e (record { text = k.text; small = k.small })
]

needs-take_over :
    (w n : Change) (a : List Change) → n.offset ≡ 0 → needs (take_over w n ∷ a) ≡ needs (w ∷ n ∷ a)
unfolding needs
needs-take_over w n a z = elim (Bool-cases (is_empty n.add)) [
  | inl e ↦ rw e (omega (arith, z))
  | inr e ↦ rw e (omega (arith, z))
]

merge_next-IsSound :
    (a : List Change) (w : Change)
    → IsSound w
    → All IsSound a
    → All IsSound ((merge_next w a).0 ∷ (merge_next w a).1)
      × (needs ((merge_next w a).0 ∷ (merge_next w a).1) ≡ needs (w ∷ a))
unfolding merge_next needs
merge_next-IsSound [] w h ha = ((h, tt), refl)
merge_next-IsSound (n ∷ a) w h (hn, ha) = elim (Bool-cases (n.offset == 0)) [
  | inl e ↦
      let z : n.offset ≡ 0 = ground arith in
      elim (Bool-cases (is_empty n.add || is_empty w.add)) [
        | inl v ↦
            let (sound, same) =
              merge_next-IsSound a (take_over w n) (take_over-IsSound w n h hn) ha in
            rw (e, v) (sound, same ∙ needs-take_over w n a z)
        | inr v ↦
            let w' : Change = record w { del_cnt = w.del_cnt + n.del_cnt } in
            let (sound, same) =
              merge_next-IsSound a w' (record { text = h.text; small = h.small }) ha in
            rw (e, v)
              (
                (sound.0, (record { text = hn.text; small = hn.small }, sound.1)),
                omega (arith, same, z),
              )
      ]
  | inr e ↦ rw e ((h, (hn, ha)), refl)
]

merge_behind-IsWell :
    (b a : List Change) (p : ℕ)
    → IsWell (cursor b a p)
    → IsWell (merge_behind (cursor b a p))
      × (needs (changes (merge_behind (cursor b a p))) ≡ needs (from_begin b a))
      × (is_empty (merge_behind (cursor b a p)).after ≡ is_empty a)
unfolding merge_behind changes
merge_behind-IsWell b [] p h = (h, refl, refl)
merge_behind-IsWell b (w ∷ a) p h =
    let (sound, same) = merge_next-IsSound a w h.texts_after.0 h.texts_after.1 in
    (
      record { pos_lem = h.pos_lem; texts_before = h.texts_before; texts_after = sound },
      needs-from_begin b ((merge_next w a).0 ∷ (merge_next w a).1)
          ∙ ap (λ (k : ℕ). needs b + k) same
          ∙ sym (needs-from_begin b (w ∷ a)),
      refl,
    )

merge_left_after :
    (b a : List Change) (p : ℕ)
    → (changes (merge_left b a p) ≡ from_begin b a)
      × (is_empty a ≡ false → is_empty (merge_left b a p).after ≡ false)
unfolding merge_left changes from_begin
merge_left_after [] a p = (refl, λ e. e)
merge_left_after (c ∷ b) [] p = (refl, λ e. e)
merge_left_after (c ∷ b) (w ∷ a) p = elim (Bool-cases (w.offset == 0)) [
  | inl e ↦
      let (same, more) = merge_left_after b (c ∷ w ∷ a) (p - (c.offset + c.add_cnt)) in
      rw e (same, λ _. more refl)
  | inr e ↦ rw e (refl, λ _. refl)
]

-- The list stays well formed, needs as many lines as before, and the cursor stays on a change.
pub merge-IsWell :
    (s : FileChanges)
    → IsWell s
    → IsWell (merge s)
      × (needs (changes (merge s)) ≡ needs (changes s))
      × (is_empty s.after ≡ false → is_empty (merge s).after ≡ false)
unfolding merge changes
merge-IsWell s h =
    let m = merge_left s.before s.after s.pos in
    let (well, same, end) =
      merge_behind-IsWell m.before m.after m.pos (merge_left-IsWell s.before s.after s.pos h) in
    let (list, more) = merge_left_after s.before s.after s.pos in
    (well, same ∙ ap needs list, λ e. end ∙ more e)
