-- ===== src/Store/Feed/Search.antt =====
-- src/store.rs: what the search of the feed finds. The pattern that the source builds for LIKE means a plain
-- search that ignores the case of ASCII letters.
use square_uni_fi_protect_in.Common.{
  ℕ, ◌≡◌, refl, ◌∙◌, ap, ap₂, Bool, true, false, ◌&&◌, ◌||◌, List, [], ◌∷◌, ◌++◌, map, String,
  arith, ◌==◌, codes, to_lower, Bool-cases, inl, inr,
}
use square_uni_fi_protect_in.Store.Feed.{
  any_text, literal, like_tokens, any_suffix, like, escape, search_pattern,
}

-- The text begins with the given one, up to the case of ASCII letters.
abbrev pub starts_like : List ℕ → List ℕ → Bool
starts_like [] cs = true
starts_like (q ∷ qs) [] = false
starts_like (q ∷ qs) (c ∷ cs) = to_lower q == to_lower c && starts_like qs cs

-- The text contains the given one, up to the case of ASCII letters.
abbrev pub contains_like : List ℕ → List ℕ → Bool
contains_like qs [] = starts_like qs []
contains_like qs (c ∷ cs) = starts_like qs (c ∷ cs) || contains_like qs cs

like_tokens-plain :
    (c : ℕ) (cs : List ℕ)
    → (c == b'\\' || (c == b'%' || c == b'_')) ≡ false
    → like_tokens (c ∷ cs) ≡ literal c ∷ like_tokens cs
unfolding like_tokens
like_tokens-plain c [] h = ground (arith, h)
like_tokens-plain c (d ∷ cs) h = ground (arith, h)

like_tokens-percent : (cs : List ℕ) → like_tokens (b'%' ∷ cs) ≡ any_text ∷ like_tokens cs
unfolding like_tokens
like_tokens-percent [] = refl
like_tokens-percent (d ∷ cs) = refl

-- The escapes keep `%`, `_` and `\` of the search text from being wildcards.
like_tokens-escape :
    (qs : List ℕ) → like_tokens (escape qs ++ b'%' ∷ []) ≡ map literal qs ++ any_text ∷ []
unfolding like_tokens escape
like_tokens-escape [] = refl
like_tokens-escape (q ∷ qs) = elim (Bool-cases (q == b'\\' || (q == b'%' || q == b'_'))) [
  | inl e ↦ rw (escape, e) (ap (λ tokens. literal q ∷ tokens) (like_tokens-escape qs))
  | inr e ↦
      rw (escape, e)
        (like_tokens-plain q (escape qs ++ b'%' ∷ []) e
          ∙ ap (λ tokens. literal q ∷ tokens) (like_tokens-escape qs))
]

like-any_text : (cs : List ℕ) → like (any_text ∷ []) cs ≡ true
unfolding like
like-any_text [] = refl
like-any_text (c ∷ cs) = ground (arith, like-any_text cs)

like-literals : (qs cs : List ℕ) → like (map literal qs ++ any_text ∷ []) cs ≡ starts_like qs cs
unfolding like
like-literals [] cs = like-any_text cs
like-literals (q ∷ qs) [] = refl
like-literals (q ∷ qs) (c ∷ cs) = ground (arith, like-literals qs cs)

any_suffix-contains :
    (qs cs : List ℕ) → any_suffix (like (map literal qs ++ any_text ∷ [])) cs ≡ contains_like qs cs
any_suffix-contains qs [] = like-literals qs []
any_suffix-contains qs (c ∷ cs) = ap₂ ◌||◌ (like-literals qs (c ∷ cs)) (any_suffix-contains qs cs)

-- A field matches the pattern of a search exactly when it contains the search text, up to the case of ASCII
-- letters: no character of the search text acts as a wildcard.
pub search_exact :
    (query field : String)
    → like (like_tokens (search_pattern query)) (codes field)
      ≡ contains_like (codes query) (codes field)
unfolding search_pattern
search_exact query field =
    rw (like_tokens-percent (escape (codes query) ++ b'%' ∷ []), like_tokens-escape (codes query))
      (unfold like in any_suffix-contains (codes query) (codes field))
