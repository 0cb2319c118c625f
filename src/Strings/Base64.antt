-- ===== src/Strings/Base64.antt =====
-- Base64Encode and Base64Decode of apt-pkg/contrib/strutl.cc, over bytes.
use aptum.Prelude.{
  ℕ, zero, suc, ◌+◌, ◌*◌, ◌/◌, ◌%◌, ◌^◌, not, List, [], ◌∷◌, ◌++◌, ◌==◌, if◌then◌else◌,
}
use aptum.Chars.{codes}

abbrev pub get_or : List ℕ → ℕ → ℕ → ℕ
get_or [] i d = d
get_or (x ∷ xs) zero d = x
get_or (x ∷ xs) (suc i) d = get_or xs i d

abbrev pub alphabet : List ℕ
alphabet = codes "ABCDEFGHIJKLMNOPQRSTUVWXYZabcdefghijklmnopqrstuvwxyz0123456789+/"

unfoldable pub tbl : ℕ → ℕ
tbl i = get_or alphabet i 0

-- The loop and the padding: a rest of one or two bytes ends both.
unfoldable pub base64_encode : List ℕ → List ℕ
unfolding tbl
base64_encode [] = []
base64_encode (x ∷ []) = tbl (x / 4) ∷ tbl (x % 4 * 16 + 0 / 16) ∷ b'=' ∷ b'=' ∷ []
base64_encode (x ∷ y ∷ []) =
    tbl (x / 4) ∷ tbl (x % 4 * 16 + y / 16) ∷ tbl (y % 16 * 4 + 0 / 64) ∷ b'=' ∷ []
base64_encode (x ∷ y ∷ z ∷ s) =
    tbl (x / 4)
    ∷ tbl (x % 4 * 16 + y / 16)
    ∷ tbl (y % 16 * 4 + z / 64)
    ∷ tbl (z % 64)
    ∷ base64_encode s

-- The table of ranks: 255 stands for a byte that is skipped, and `=` has rank 0.
abbrev pub mime_base64_rank : List ℕ
mime_base64_rank =
    255 ∷ 255 ∷ 255 ∷ 255 ∷ 255 ∷ 255 ∷ 255 ∷ 255 ∷ 255 ∷ 255 ∷ 255 ∷ 255 ∷ 255 ∷ 255 ∷ 255 ∷ 255
    ∷ 255 ∷ 255 ∷ 255 ∷ 255 ∷ 255 ∷ 255 ∷ 255 ∷ 255 ∷ 255 ∷ 255 ∷ 255 ∷ 255 ∷ 255 ∷ 255 ∷ 255 ∷ 255
    ∷ 255 ∷ 255 ∷ 255 ∷ 255 ∷ 255 ∷ 255 ∷ 255 ∷ 255 ∷ 255 ∷ 255 ∷ 255 ∷ 62 ∷ 255 ∷ 255 ∷ 255 ∷ 63
    ∷ 52 ∷ 53 ∷ 54 ∷ 55 ∷ 56 ∷ 57 ∷ 58 ∷ 59 ∷ 60 ∷ 61 ∷ 255 ∷ 255 ∷ 255 ∷ 0 ∷ 255 ∷ 255 ∷ 255 ∷ 0
    ∷ 1 ∷ 2 ∷ 3 ∷ 4 ∷ 5 ∷ 6 ∷ 7 ∷ 8 ∷ 9 ∷ 10 ∷ 11 ∷ 12 ∷ 13 ∷ 14 ∷ 15 ∷ 16 ∷ 17 ∷ 18 ∷ 19 ∷ 20 ∷ 21
    ∷ 22 ∷ 23 ∷ 24 ∷ 25 ∷ 255 ∷ 255 ∷ 255 ∷ 255 ∷ 255 ∷ 255 ∷ 26 ∷ 27 ∷ 28 ∷ 29 ∷ 30 ∷ 31 ∷ 32 ∷ 33
    ∷ 34 ∷ 35 ∷ 36 ∷ 37 ∷ 38 ∷ 39 ∷ 40 ∷ 41 ∷ 42 ∷ 43 ∷ 44 ∷ 45 ∷ 46 ∷ 47 ∷ 48 ∷ 49 ∷ 50 ∷ 51 ∷ 255
    ∷ 255 ∷ 255 ∷ 255 ∷ 255 ∷ 255 ∷ 255 ∷ 255 ∷ 255 ∷ 255 ∷ 255 ∷ 255 ∷ 255 ∷ 255 ∷ 255 ∷ 255 ∷ 255
    ∷ 255 ∷ 255 ∷ 255 ∷ 255 ∷ 255 ∷ 255 ∷ 255 ∷ 255 ∷ 255 ∷ 255 ∷ 255 ∷ 255 ∷ 255 ∷ 255 ∷ 255 ∷ 255
    ∷ 255 ∷ 255 ∷ 255 ∷ 255 ∷ 255 ∷ 255 ∷ 255 ∷ 255 ∷ 255 ∷ 255 ∷ 255 ∷ 255 ∷ 255 ∷ 255 ∷ 255 ∷ 255
    ∷ 255 ∷ 255 ∷ 255 ∷ 255 ∷ 255 ∷ 255 ∷ 255 ∷ 255 ∷ 255 ∷ 255 ∷ 255 ∷ 255 ∷ 255 ∷ 255 ∷ 255 ∷ 255
    ∷ 255 ∷ 255 ∷ 255 ∷ 255 ∷ 255 ∷ 255 ∷ 255 ∷ 255 ∷ 255 ∷ 255 ∷ 255 ∷ 255 ∷ 255 ∷ 255 ∷ 255 ∷ 255
    ∷ 255 ∷ 255 ∷ 255 ∷ 255 ∷ 255 ∷ 255 ∷ 255 ∷ 255 ∷ 255 ∷ 255 ∷ 255 ∷ 255 ∷ 255 ∷ 255 ∷ 255 ∷ 255
    ∷ 255 ∷ 255 ∷ 255 ∷ 255 ∷ 255 ∷ 255 ∷ 255 ∷ 255 ∷ 255 ∷ 255 ∷ 255 ∷ 255 ∷ 255 ∷ 255 ∷ 255 ∷ 255
    ∷ 255 ∷ 255 ∷ 255 ∷ 255 ∷ 255 ∷ 255 ∷ 255 ∷ 255 ∷ 255 ∷ 255 ∷ 255 ∷ 255 ∷ 255 ∷ 255 ∷ 255 ∷ 255
    ∷ 255 ∷ 255 ∷ 255 ∷ 255 ∷ []

unfoldable pub rank : ℕ → ℕ
rank c = get_or mime_base64_rank c 255

-- What four letters append: a `=` in the third or fourth place leaves out a byte.
unfoldable pub group_bytes : ℕ → ℕ → ℕ → List ℕ
group_bytes v last1 last0 =
    ((v / 2 ^ 16) % 256)
    ∷ ((if not (last1 == b'=') then ((v / 2 ^ 8) % 256) ∷ [] else [])
        ++ (if not (last0 == b'=') then (v % 256) ∷ [] else []))

-- The loop over the input: i is below 4, `last0` and `last1` are the last two bytes that were not
-- skipped, and v is 32 bits wide and never reset.
unfoldable pub decode_loop : List ℕ → ℕ → ℕ → ℕ → ℕ → List ℕ → List ℕ
unfolding rank group_bytes
decode_loop [] v i last0 last1 out = out
decode_loop (c ∷ s) v i last0 last1 out =
    let r = rank c in
    let v' = v * 64 % 2 ^ 32 + r in
    let skipped = decode_loop s v i last0 last1 out in
    let full = decode_loop s v' 0 c last0 (out ++ group_bytes v' last0 c) in
    let more = decode_loop s v' (i + 1) c last0 out in
    if r == 255 then skipped else if i + 1 == 4 then full else more

unfoldable pub base64_decode : List ℕ → List ℕ
unfolding decode_loop
base64_decode s = decode_loop s 0 0 0 0 []
