-- ===== src/Strings/Base64Laws.antt =====
-- Base64Decode undoes Base64Encode (apt-pkg/contrib/strutl.cc).
use aptum.Prelude.{
  ℕ, ◌+◌, ◌*◌, ◌/◌, ◌%◌, ◌^◌, ◌<◌, ◌≡◌, refl, sym, ◌∙◌, ap, true, false, not, ◌&&◌, List, [], ◌∷◌,
  ◌++◌, append_assoc, append-nil, arith, All, ◌==◌, every_below, every_below-at,
}
use aptum.Strings.Base64.{tbl, rank, base64_encode, group_bytes, decode_loop, base64_decode}

table : every_below (λ i. rank (tbl i) == i && not (tbl i == b'=')) 64 ≡ true
unfolding every_below rank tbl
table = refl

-- The alphabet and the table of ranks are inverse, and `=` is no letter.
rank-tbl : (i : ℕ) → i < 64 → (rank (tbl i) ≡ i) × ((tbl i == b'=') ≡ false)
rank-tbl i h =
    let t = every_below-at (λ i. rank (tbl i) == i && not (tbl i == b'=')) 64 i h table in
    (ground arith, ground arith)

rank_pad : rank b'=' ≡ 0
unfolding rank
rank_pad = refl

decode_more :
    (c v i l0 l1 r : ℕ) (s out : List ℕ)
    → rank c ≡ r
    → r < 64
    → (i + 1 == 4) ≡ false
    → decode_loop (c ∷ s) v i l0 l1 out ≡ decode_loop s (v * 64 % 2 ^ 32 + r) (i + 1) c l0 out
decode_more c v i l0 l1 r s out e lt ne =
    let kept : (r == 255) ≡ false = ground arith in unfold decode_loop in rw (e, kept, ne)

decode_full :
    (c v l0 l1 r : ℕ) (s out : List ℕ)
    → rank c ≡ r
    → r < 64
    → decode_loop (c ∷ s) v 3 l0 l1 out
      ≡ decode_loop s (v * 64 % 2 ^ 32 + r) 0 c l0 (out ++ group_bytes (v * 64 % 2 ^ 32 + r) l0 c)
decode_full c v l0 l1 r s out e lt =
    let kept : (r == 255) ≡ false = ground arith in unfold decode_loop in rw (e, kept)

abbrev push : ℕ → ℕ → ℕ
push v r = v * 64 % 2 ^ 32 + r

-- Four letters or pads, of which the first two are letters.
decode_four :
    (a b c d v l0 l1 rc rd : ℕ) (s out : List ℕ)
    → a < 64
    → b < 64
    → rank c ≡ rc
    → rank d ≡ rd
    → rc < 64
    → rd < 64
    → decode_loop (tbl a ∷ tbl b ∷ c ∷ d ∷ s) v 0 l0 l1 out
      ≡ decode_loop s
          (push (push (push (push v a) b) rc) rd)
          0
          d
          c
          (out ++ group_bytes (push (push (push (push v a) b) rc) rd) c d)
decode_four a b c d v l0 l1 rc rd s out ha hb ec ed hc hd =
    decode_more (tbl a) v 0 l0 l1 a _ out (rank-tbl a ha).0 ha refl
    ∙ decode_more (tbl b) _ 1 (tbl a) l0 b _ out (rank-tbl b hb).0 hb refl
    ∙ decode_more c _ 2 (tbl b) (tbl a) rc _ out ec hc refl
    ∙ decode_full d _ c (tbl b) rd s out ed hd

group_bits :
    (v a b c d : ℕ)
    → a < 64
    → b < 64
    → c < 64
    → d < 64
    → (push (push (push (push v a) b) c) d / 2 ^ 16 % 256 ≡ a * 4 + b / 16)
      × (push (push (push (push v a) b) c) d / 2 ^ 8 % 256 ≡ b % 16 * 16 + c / 4)
      × (push (push (push (push v a) b) c) d % 256 ≡ c % 4 * 64 + d)
group_bits v a b c d ha hb hc hd = omega arith

three_bytes :
    (v c d x y z : ℕ)
    → (c == b'=') ≡ false
    → (d == b'=') ≡ false
    → v / 2 ^ 16 % 256 ≡ x
    → v / 2 ^ 8 % 256 ≡ y
    → v % 256 ≡ z
    → group_bytes v c d ≡ x ∷ y ∷ z ∷ []
unfolding group_bytes
three_bytes v c d x y z hc hd hx hy hz = rw (hc, hd, hx, hy, hz)

two_bytes :
    (v c x y : ℕ)
    → (c == b'=') ≡ false
    → v / 2 ^ 16 % 256 ≡ x
    → v / 2 ^ 8 % 256 ≡ y
    → group_bytes v c b'=' ≡ x ∷ y ∷ []
unfolding group_bytes
two_bytes v c x y hc hx hy = rw (hc, hx, hy)

one_byte : (v x : ℕ) → v / 2 ^ 16 % 256 ≡ x → group_bytes v b'=' b'=' ≡ x ∷ []
unfolding group_bytes
one_byte v x hx = rw hx

-- A whole group of three bytes.
decode_group :
    (x y z v l0 l1 : ℕ) (s out : List ℕ)
    → x < 256
    → y < 256
    → z < 256
    → (v' : ℕ) × (m0 : ℕ) × (m1 : ℕ) × (decode_loop
          (tbl (x / 4) ∷ tbl (x % 4 * 16 + y / 16) ∷ tbl (y % 16 * 4 + z / 64) ∷ tbl (z % 64) ∷ s)
          v
          0
          l0
          l1
          out
        ≡ decode_loop s v' 0 m0 m1 (out ++ x ∷ y ∷ z ∷ []))
decode_group x y z v l0 l1 s out hx hy hz =
    let a = x / 4 in
    let b = x % 4 * 16 + y / 16 in
    let c = y % 16 * 4 + z / 64 in
    let d = z % 64 in
    let bits = group_bits v a b c d (omega arith) (omega arith) (omega arith) (omega arith) in
    (
      push (push (push (push v a) b) c) d,
      tbl d,
      tbl c,
      decode_four a b (tbl c) (tbl d) v l0 l1 c d s out (omega arith) (omega arith)
            (rank-tbl c (omega arith)).0 (rank-tbl d (omega arith)).0 (omega arith) (omega arith)
          ∙ ap
              (λ (t : List ℕ).
                decode_loop s (push (push (push (push v a) b) c) d) 0 (tbl d) (tbl c) (out ++ t))
              (three_bytes (push (push (push (push v a) b) c) d) (tbl c) (tbl d) x y z
                (rank-tbl c (omega arith)).1 (rank-tbl d (omega arith)).1 (omega (arith, bits.0))
                (omega (arith, bits.1)) (omega (arith, bits.2))),
    )

decode_end : (v l0 l1 : ℕ) (out : List ℕ) → decode_loop [] v 0 l0 l1 out ≡ out
unfolding decode_loop
decode_end v l0 l1 out = refl

decode_pair :
    (x y v l0 l1 : ℕ) (out : List ℕ)
    → x < 256
    → y < 256
    → decode_loop
        (tbl (x / 4) ∷ tbl (x % 4 * 16 + y / 16) ∷ tbl (y % 16 * 4 + 0 / 64) ∷ b'=' ∷ [])
        v
        0
        l0
        l1
        out
      ≡ out ++ x ∷ y ∷ []
decode_pair x y v l0 l1 out hx hy =
    let a = x / 4 in
    let b = x % 4 * 16 + y / 16 in
    let c = y % 16 * 4 + 0 / 64 in
    let bits = group_bits v a b c 0 (omega arith) (omega arith) (omega arith) (omega arith) in
    decode_four a b (tbl c) b'=' v l0 l1 c 0 [] out (omega arith) (omega arith)
      (rank-tbl c (omega arith)).0 rank_pad (omega arith) (omega arith)
    ∙ decode_end _ b'=' (tbl c) _
    ∙ ap (λ (t : List ℕ). out ++ t)
        (two_bytes (push (push (push (push v a) b) c) 0) (tbl c) x y (rank-tbl c (omega arith)).1
          (omega (arith, bits.0)) (omega (arith, bits.1)))

decode_one :
    (x v l0 l1 : ℕ) (out : List ℕ)
    → x < 256
    → decode_loop (tbl (x / 4) ∷ tbl (x % 4 * 16 + 0 / 16) ∷ b'=' ∷ b'=' ∷ []) v 0 l0 l1 out
      ≡ out ++ x ∷ []
decode_one x v l0 l1 out hx =
    let a = x / 4 in
    let b = x % 4 * 16 + 0 / 16 in
    let bits = group_bits v a b 0 0 (omega arith) (omega arith) (omega arith) (omega arith) in
    decode_four a b b'=' b'=' v l0 l1 0 0 [] out (omega arith) (omega arith) rank_pad rank_pad
      (omega arith) (omega arith)
    ∙ decode_end _ b'=' b'=' _
    ∙ ap (λ (t : List ℕ). out ++ t)
        (one_byte (push (push (push (push v a) b) 0) 0) x (omega (arith, bits.0)))

decode_loop-encode :
    (s : List ℕ) (v l0 l1 : ℕ) (out : List ℕ)
    → All (λ c. c < 256) s
    → decode_loop (base64_encode s) v 0 l0 l1 out ≡ out ++ s
unfolding base64_encode
decode_loop-encode [] v l0 l1 out h = decode_end v l0 l1 out ∙ sym (append-nil out)
decode_loop-encode (x ∷ []) v l0 l1 out (hx, h) = decode_one x v l0 l1 out hx
decode_loop-encode (x ∷ y ∷ []) v l0 l1 out (hx, (hy, h)) = decode_pair x y v l0 l1 out hx hy
decode_loop-encode (x ∷ y ∷ z ∷ s) v l0 l1 out (hx, (hy, (hz, h))) =
    let (v', m0, m1, e) = decode_group x y z v l0 l1 (base64_encode s) out hx hy hz in
    e
    ∙ decode_loop-encode s v' m0 m1 (out ++ x ∷ y ∷ z ∷ []) h
    ∙ append_assoc out (x ∷ y ∷ z ∷ []) s

-- Base64Decode gives every text of bytes back from its Base64Encode.
pub base64_decode-encode : (s : List ℕ) → All (λ c. c < 256) s → base64_decode (base64_encode s) ≡ s
unfolding base64_decode
base64_decode-encode s h = decode_loop-encode s 0 0 0 [] h
