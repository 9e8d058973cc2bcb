-- ===== src/Guard/Keywords.antt =====
-- `_contains_forbidden` of security/guard.py: the search with `\b` finds exactly the whole words.
use insightkit.Prelude.{
  ℕ, Bool, true, false, not, Option, none, some, List, [], ◌∷◌, ◌++◌, ◌≡◌, refl, sym, ap, ◌∙◌, ◌↔◌,
  inl, inr, ◌&&◌, Text, ==_iff, is_word, all, All, arith, Bool-cases, append-nil,
}
use insightkit.Re.Syntax.{literal, whole_word, holds, head, at_boundary}
use insightkit.Re.Language.{last_of, Matches}
use insightkit.Re.Scan.{search}
use insightkit.Re.Scan.Search.{search_iff}
use insightkit.Guard.Sql.{first_word_in, forbidden_words, contains_forbidden}

-- `w` stands in `t`, with no letter, digit or underscore on either side.
abbrev pub HasWord : Text → Text → Type 0
HasWord w t =
    (pre : Text) × (post : Text) × (t ≡ pre ++ (w ++ post))
    × (holds is_word (last_of none pre) ≡ false)
    × (holds is_word (head post) ≡ false)

-- The first and the last character of the keyword are word characters.
abbrev pub is_keyword : Text → Bool
is_keyword w = holds is_word (head w) && holds is_word (last_of none w)

literal_of_Matches : (w : Text) (p : Option ℕ) (u v : Text) → Matches (literal w) p u v → u ≡ w
literal_of_Matches [] p u v e = e
literal_of_Matches (x ∷ w) p u v (s, t, e, (c, e', h), m) =
    let ec : c ≡ x = (==_iff c x).0 h in
    rw (e, e', ec) (ap (◌∷◌ x) (literal_of_Matches w (last_of p s) t v m))

Matches-literal : (w : Text) (p : Option ℕ) (v : Text) → Matches (literal w) p w v
Matches-literal [] p v = refl
Matches-literal (x ∷ w) p v =
    (x ∷ [], w, refl, (x, refl, (==_iff x x).1 refl), Matches-literal w (some x) v)

holds-head-append :
    (w v : Text) → holds is_word (head w) ≡ true → holds is_word (head (w ++ v)) ≡ true
holds-head-append [] v h = cc
holds-head-append (x ∷ w) v h = h

holds-last_of :
    (p : Option ℕ) (w : Text)
    → holds is_word (head w) ≡ true
    → holds is_word (last_of none w) ≡ true
    → holds is_word (last_of p w) ≡ true
holds-last_of p [] h k = cc
holds-last_of p (x ∷ w) h k = k

pub boundary_before :
    (p : Option ℕ) (xs : Text)
    → at_boundary p xs ≡ true
    → holds is_word (head xs) ≡ true
    → holds is_word p ≡ false
boundary_before p xs h k = ground arith

boundary_after :
    (p : Option ℕ) (xs : Text)
    → at_boundary p xs ≡ true
    → holds is_word p ≡ true
    → holds is_word (head xs) ≡ false
boundary_after p xs h k = ground arith

boundary_of :
    (p : Option ℕ) (xs : Text) (b : Bool)
    → holds is_word p ≡ b
    → holds is_word (head xs) ≡ not b
    → at_boundary p xs ≡ true
boundary_of p xs true h k = rw (h, k)
boundary_of p xs false h k = rw (h, k)

whole_word_of_Matches :
    (w : Text) (p : Option ℕ) (u v : Text)
    → is_keyword w ≡ true
    → Matches (whole_word (literal w)) p u v
    → (u ≡ w) × (holds is_word p ≡ false) × (holds is_word (head v) ≡ false)
whole_word_of_Matches w p u v k (s, t, e, (e', left), (s', t', e'', m, (f, right))) =
    let es : s' ≡ w = literal_of_Matches w (last_of p s) s' (t' ++ v) m in
    let et : t ≡ w = e'' ∙ rw (f, append-nil) es in
    let right' : at_boundary (last_of p w) v ≡ true = rw (e', es) at right in
    let left' : at_boundary p (w ++ v) ≡ true = rw et at left in
    (
      e ∙ rw e' et,
      boundary_before p (w ++ v) left' (holds-head-append w v (ground arith)),
      boundary_after (last_of p w) v right' (holds-last_of p w (ground arith) (ground arith)),
    )

Matches-whole_word :
    (w : Text) (p : Option ℕ) (v : Text)
    → is_keyword w ≡ true
    → holds is_word p ≡ false
    → holds is_word (head v) ≡ false
    → Matches (whole_word (literal w)) p w v
Matches-whole_word w p v k hp hv = (
  [],
  w,
  refl,
  (refl, boundary_of p (w ++ v) false hp (holds-head-append w v (ground arith))),
  (
    w,
    [],
    sym (append-nil w),
    Matches-literal w p v,
    (refl, boundary_of (last_of p w) v true (holds-last_of p w (ground arith) (ground arith)) hv),
  ),
)

-- The search for a keyword between word boundaries succeeds exactly on the texts that have it as
-- a whole word.
pub search-HasWord :
    (w t : Text) → is_keyword w ≡ true → (search (whole_word (literal w)) t ≡ true) ↔ HasWord w t
search-HasWord w t k = (
  λ h.
      let (pre, u, post, e, m) = (search_iff (whole_word (literal w)) t).0 h in
      let (eu, before, after) = whole_word_of_Matches w (last_of none pre) u post k m in
      (pre, post, rw eu at e, before, after),
  λ (pre, post, e, before, after).
      (search_iff (whole_word (literal w)) t).1
        (pre, w, post, e, Matches-whole_word w (last_of none pre) post k before after),
)

-- No keyword of the list stands in the text.
abbrev pub LacksWords : List Text → Text → Type 0
LacksWords ws t = All (λ w. ¬ HasWord w t) ws

pub first_word_in_iff :
    (ws : List Text) (t : Text)
    → all is_keyword ws ≡ true
    → (first_word_in ws t ≡ none) ↔ LacksWords ws t
unfolding first_word_in
first_word_in_iff [] t k = (λ h. tt, λ h. refl)
first_word_in_iff (w ∷ ws) t k =
    let ih = first_word_in_iff ws t (ground arith) in
    let here = search-HasWord w t (ground arith) in
    elim (Bool-cases (search (whole_word (literal w)) t)) [
      | inl e ↦ (λ h. absurd (ground arith), λ h. absurd (h.0 (here.0 e)))
      | inr e ↦ (λ h. (λ has. cc (here.1 has), ih.0 (rw e at h)), λ h. rw e (ih.1 h.1))
    ]

-- The scan for forbidden keywords passes exactly the texts that have none of the fifteen as a
-- whole word.
pub contains_forbidden_iff :
    (t : Text) → (contains_forbidden t ≡ none) ↔ LacksWords forbidden_words t
unfolding contains_forbidden
contains_forbidden_iff t = first_word_in_iff forbidden_words t refl
