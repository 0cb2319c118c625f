-- ===== src/Strings/Domains.antt =====
-- CheckDomainList of apt-pkg/contrib/strutl.cc.
use aptum.Prelude.{
  ℕ, ◌-◌, ◌<◌, ◌%◌, ◌^◌, ◌≡◌, refl, sym, ap, ◌∙◌, ◌⊎◌, inl, inr, ◌↔◌, Bool, true, false, not, ◌&&◌,
  List, [], ◌∷◌, ◌++◌, append_assoc, append-nil, arith, All, leb, ◌==◌, if◌then◌else◌, is_empty,
  length, length-append, take, drop, if-elim,
}
use aptum.Prelude.Int.{is_zero}
use aptum.Strings.Affixes.{take-drop, drop-append}
use aptum.Strings.Order.{stringcasecmp, stringcasecmp-zero, lower, length-lower, is_zero-eq}
use aptum.Strings.Split.{following, join}
use aptum.Strings.Parts.{is_free}

-- The test of one domain, from the place where it began to the place of the loop.
unfoldable pub ends_with : List ℕ → List ℕ → Bool
ends_with host domain =
    leb (length domain % 2 ^ 32) (length host)
    && (not (is_empty domain)
        && is_zero (stringcasecmp (drop (length host - length domain) host) domain))

-- The loop, with the domain that was begun.
unfoldable pub domain_loop : List ℕ → List ℕ → List ℕ → Bool
domain_loop host domain [] = ends_with host domain
domain_loop host domain (c ∷ s) =
    let longer = domain_loop host (domain ++ c ∷ []) s in
    let next = domain_loop host [] s in
    if not (c == b',') then longer else if ends_with host domain then true else next

unfoldable pub check_domain_list : List ℕ → List ℕ → Bool
unfolding domain_loop
check_domain_list host domains = domain_loop host [] domains

abbrev pub any_ends : List ℕ → List (List ℕ) → Bool
any_ends host [] = false
any_ends host (d ∷ domains) = if ends_with host d then true else any_ends host domains

abbrev pub AllFree : List (List ℕ) → Type 0
AllFree domains = All (λ (d : List ℕ). is_free b',' d ≡ true) domains

domain_loop-free :
    (host domain d rest : List ℕ)
    → is_free b',' d ≡ true
    → domain_loop host domain (d ++ rest) ≡ domain_loop host (domain ++ d) rest
unfolding domain_loop
domain_loop-free host domain [] rest h =
    ap (λ (x : List ℕ). domain_loop host x rest) (sym (append-nil domain))
domain_loop-free host domain (c ∷ d) rest h =
    let later = domain_loop-free host (domain ++ c ∷ []) d rest (ground arith) in
    let other : (c == b',') ≡ false = ground arith in
    rw other (later ∙ ap (λ (x : List ℕ). domain_loop host x rest) (append_assoc domain (c ∷ []) d))

domain_loop-any :
    (host d : List ℕ) (domains : List (List ℕ))
    → AllFree (d ∷ domains)
    → domain_loop host [] (join (b',' ∷ []) (d ∷ domains)) ≡ any_ends host (d ∷ domains)
unfolding domain_loop
domain_loop-any host d [] h =
    domain_loop-free host [] d [] h.0
    ∙ if-elim (λ (r : Bool). ends_with host d ≡ r) (ends_with host d) (λ e. e) (λ e. e)
domain_loop-any host d (e ∷ domains) h =
    domain_loop-free host [] d (following (b',' ∷ []) (e ∷ domains)) h.0
    ∙ ap (λ (r : Bool). if ends_with host d then true else r) (domain_loop-any host e domains h.1)

-- A domain that is not empty is at the end of the host, but for the case of its letters.
abbrev pub Suffix : List ℕ → List ℕ → Type 0
Suffix host d =
    (is_empty d ≡ false) × ((a : List ℕ) × (b : List ℕ) × (host ≡ a ++ b) × (lower b ≡ lower d))

abbrev pub AnySuffix : List ℕ → List (List ℕ) → Type 0
AnySuffix host [] = ⊥
AnySuffix host (d ∷ domains) = Suffix host d ⊎ AnySuffix host domains

ends_with-Suffix : (host d : List ℕ) → length d < 2 ^ 32 → (ends_with host d ≡ true) ↔ Suffix host d
unfolding ends_with
ends_with-Suffix host [] small = (λ h. absurd (never _ h), λ s. absurd (clash s.0))
  where
    clash : true ≡ false → ⊥
    clash e = cc

    never : (b : Bool) → (b && false) ≡ true → ⊥
    never true h = cc
    never false h = cc
ends_with-Suffix host (x ∷ d) small = (found, placed)
  where
    both : (a b : Bool) → (a && b) ≡ true → (a ≡ true) × (b ≡ true)
    both true true h = (refl, refl)
    both true false h = cc
    both false b h = cc

    found : ends_with host (x ∷ d) ≡ true → Suffix host (x ∷ d)
    found h = (
      refl,
      (
        take (length host - length (x ∷ d)) host,
        drop (length host - length (x ∷ d)) host,
        take-drop (length host - length (x ∷ d)) host,
        (stringcasecmp-zero (drop (length host - length (x ∷ d)) host) (x ∷ d)).0 (
            is_zero-eq (stringcasecmp (drop (length host - length (x ∷ d)) host) (x ∷ d))
              (both (leb (length (x ∷ d) % 2 ^ 32) (length host))
                (is_zero (stringcasecmp (drop (length host - length (x ∷ d)) host) (x ∷ d))) h).1),
      ),
    )

    placed : Suffix host (x ∷ d) → ends_with host (x ∷ d) ≡ true
    placed (_, (a, b, e, l)) =
        let same = length-lower b (x ∷ d) l in
        let total = ap length e ∙ length-append a b in
        let fits : leb (length (x ∷ d) % 2 ^ 32) (length host) ≡ true = ground arith in
        let cut =
          ap (λ (t : List ℕ). drop (length host - length (x ∷ d)) t) e
          ∙ drop-append (length host - length (x ∷ d)) a b (omega (arith, same, total)) in
        let zero_there = (stringcasecmp-zero b (x ∷ d)).1 l in
        rw fits (ap (λ (t : List ℕ). is_zero (stringcasecmp t (x ∷ d))) cut ∙ ap is_zero zero_there)

abbrev AllSmall : List (List ℕ) → Type 0
AllSmall domains = All (λ (d : List ℕ). length d < 2 ^ 32) domains

any_ends-AnySuffix :
    (host : List ℕ) (domains : List (List ℕ))
    → AllSmall domains
    → (any_ends host domains ≡ true) ↔ AnySuffix host domains
any_ends-AnySuffix host [] h = (λ e. cc, λ b. absurd b)
any_ends-AnySuffix host (d ∷ domains) (h, hs) =
    let one = ends_with-Suffix host d h in
    let more = any_ends-AnySuffix host domains hs in
    (
      if-elim (λ (r : Bool). r ≡ true → AnySuffix host (d ∷ domains)) (ends_with host d)
          (λ e _. inl (one.0 e)) (λ e k. inr (more.0 k)),
      λ (s : AnySuffix host (d ∷ domains)).
          if-elim (λ (r : Bool). r ≡ true) (ends_with host d) (λ _. refl)
            (λ e. elim s [ inl p ↦ absurd (clash (sym e ∙ one.1 p)) | inr p ↦ more.1 p ]),
    )
  where
    clash : false ≡ true → ⊥
    clash e = cc

-- On domains without a comma, shorter than 2 ^ 32, with commas between them, CheckDomainList holds exactly if
-- one that is not empty is at the end of the host, but for the case of its letters.
pub check_domain_list-AnySuffix :
    (host d : List ℕ) (domains : List (List ℕ))
    → AllFree (d ∷ domains)
    → All (λ (e : List ℕ). length e < 2 ^ 32) (d ∷ domains)
    → (check_domain_list host (join (b',' ∷ []) (d ∷ domains)) ≡ true)
      ↔ AnySuffix host (d ∷ domains)
unfolding check_domain_list
check_domain_list-AnySuffix host d domains h small =
    rw (domain_loop-any host d domains h) (any_ends-AnySuffix host (d ∷ domains) small)
