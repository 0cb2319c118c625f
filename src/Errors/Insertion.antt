-- ===== src/Errors/Insertion.antt =====
-- The retry loop of GlobalError::Insert (apt-pkg/contrib/error.cc).
use aptum.Prelude.{
  ℕ, zero, suc, ◌+◌, ◌-◌, ◌≤◌, ◌<◌, ◌≡◌, refl, ap, ◌∙◌, List, [], ◌∷◌, Option, some, arith, length,
  take, ltb, lt→ltb, tests, Bool-cases, inl, inr, ◌^◌, false,
}
use aptum.Chars.{c_string}
use aptum.Errors.{
  MsgType, GlobalError, Text, push_message, try_insert, check_size, int_next, insert_loop, inserted,
  retry,
}

-- The vsnprintf of ISO C for a text whose length an int can hold: it writes what fits beside the NUL, and returns
-- the length of the whole text.
abbrev pub IsVsnprintf : (ℕ → Text × Option ℕ) → Text → Type 0
IsVsnprintf vsnprintf text =
    (size : ℕ) → 0 < size → vsnprintf size ≡ (take (size - 1) text, some (length text))

take_whole {ℓ} : {A : Type ℓ} (n : ℕ) (s : List A) → length s ≤ n → take n s ≡ s
take_whole zero [] h = refl
take_whole zero (c ∷ s) h = elim h [ ]
take_whole (suc n) [] h = refl
take_whole (suc n) (c ∷ s) h = ap (λ (t : List _). c ∷ t) (take_whole n s (omega arith))

int_next-small : (n : ℕ) → n + 1 < 2 ^ 31 → int_next n ≡ n + 1
int_next-small n h = ground arith

module _ (vsnprintf : ℕ → Text × Option ℕ) (type : MsgType) (text : Text) (s : GlobalError)
    (c99 : IsVsnprintf vsnprintf text) (small : length text + 1 < 2 ^ 31)
    (no_nul : c_string text ≡ text) where
  fitting :
      (size : ℕ)
      → length text < size
      → try_insert vsnprintf type size s ≡ inserted (push_message type text s)
  unfolding try_insert
  fitting size h =
      ap (check_size type size s) (c99 size (omega arith))
      ∙ rw (take_whole (size - 1) text (omega arith), lt→ltb (length text) size h, no_nul)

  too_short :
      (size : ℕ)
      → 0 < size
      → size ≤ length text
      → try_insert vsnprintf type size s ≡ retry (length text + 1)
  unfolding try_insert check_size
  too_short size p h =
      ap (check_size type size s) (c99 size p)
      ∙ (too_long (ground arith) (int_next-small (length text) small))
    where
      too_long :
          ltb (length text) size ≡ false
          → int_next (length text) ≡ length text + 1
          → check_size type size s (take (size - 1) text, some (length text))
            ≡ retry (length text + 1)
      too_long e f = rw e (ap retry f)

  -- With the vsnprintf of ISO C, for a text without NUL of fewer than 2 ^ 31 - 1 bytes, the loop from the
  -- buffer of 400 bytes ends within two rounds, and appends the whole text.
  pub insert_loop-push : insert_loop 2 vsnprintf type 400 s ≡ some (push_message type text s)
  unfolding insert_loop
  insert_loop-push = elim (Bool-cases (ltb (length text) 400)) [
    | inl e ↦ rw (fitting 400 (omega (tests, e)), insert_loop)
    | inr e ↦ rw (
      too_short 400 (omega arith) (ground arith),
      fitting (length text + 1) (omega arith),
      insert_loop,
    )
  ]
