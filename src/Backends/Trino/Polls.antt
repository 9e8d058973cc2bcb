-- ===== src/Backends/Trino/Polls.antt =====
-- The polling loop of TrinoBackend in db/backends.py.
use insightkit.Prelude.{
  ℕ, zero, suc, none, some, List, [], ◌∷◌, ◌++◌, ◌≡◌, ◌≤◌, ◌↔◌, refl, sym, ap, ◌∙◌, Text, length,
  Option-cases, append_assoc, append-nil, arith, inl, inr,
}
use mathlib.Core.Path.{subst}
use insightkit.Prelude.Action.{Action, pure, raise, resume, ◌>>=◌}
use insightkit.Prelude.Result.{Result, ok, err}
use insightkit.Pipeline.Types.{Cell}
use insightkit.Backends.Trino.{
  Page, TrinoError, timed_out, columns_after, following, Table, poll, query,
}

abbrev pub all_rows : List Page → List (List Cell)
all_rows [] = []
all_rows (p ∷ ps) = p.data_rows ++ all_rows ps

-- The columns of the last page that has some.
abbrev pub last_columns : List Text → List Page → List Text
last_columns cols [] = cols
last_columns cols (p ∷ ps) = last_columns (columns_after p cols) ps

module _ {World : Type 0} (get_page : Text → Action TrinoError World Page) where
  -- From a page on, the server gives these pages, each at the URI of the one before, and no page
  -- follows the last.
  pub data Serves : World → Page → List Page → World → Type 0 where
    ends : {w : World} {p : Page} → following p ≡ none → Serves w p (p ∷ []) w
    goes_on :
        {w w' w'' : World} {p q : Page} {ps : List Page} {uri : Text}
        → following p ≡ some uri
        → get_page uri w ≡ (ok q, w')
        → Serves w' q ps w''
        → Serves w p (p ∷ ps) w''

  Serves-length : {w w' : World} {p : Page} {ps : List Page} → Serves w p ps w' → 1 ≤ length ps
  Serves-length (ends e) = omega arith
  Serves-length (goes_on e g s) = omega arith

  poll-Serves :
      {w w' : World} {p : Page} {ps : List Page}
      → Serves w p ps w'
      → (n : ℕ) (cols : List Text) (rows : List (List Cell)) → length ps ≤ suc n
      → poll get_page n p cols rows w ≡ (ok (rows ++ all_rows ps, last_columns cols ps), w')
  unfolding poll pure ◌>>=◌
  poll-Serves (ends {w} {p} e) zero cols rows h = rw (poll, e, append-nil p.data_rows) refl
  poll-Serves (ends {w} {p} e) (suc n) cols rows h = rw (poll, e, append-nil p.data_rows) refl
  poll-Serves (goes_on e g s) zero cols rows h =
      let more = Serves-length s in absurd (omega (arith, more, h))
  poll-Serves (goes_on {w} {w'} {w''} {p} {q} {ps} e g s) (suc n) cols rows h =
      rw (poll, e, g)
        (poll-Serves s n (columns_after p cols) (rows ++ p.data_rows) (omega (arith, h))
          ∙ ap (λ l. (ok (l, last_columns (columns_after p cols) ps), w''))
              (append_assoc rows p.data_rows (all_rows ps)))

  -- The table holds the rows of all pages after those that were there, and the last columns; the pages
  -- arrive before the timeout.
  pub record Collects (n : ℕ) (p : Page) (cols : List Text) (rows : List (List Cell)) (w : World)
      (t : Table) (w' : World) : Type 0 where
    pub pages : List Page
    pub serves : Serves w p pages w'
    pub within : length pages ≤ suc n
    pub table : t ≡ (rows ++ all_rows pages, last_columns cols pages)

  last_page :
      (n : ℕ) (p : Page) (cols : List Text) (rows : List (List Cell)) (w : World) (t : Table)
      (w' : World)
      → following p ≡ none
      → (x : Result TrinoError Table × World)
      → x ≡ (ok (rows ++ p.data_rows, columns_after p cols), w)
      → x ≡ (ok t, w')
      → Collects n p cols rows w t w'
  last_page n p cols rows w t w' e x hx h = subst (Collects n p cols rows w t) (cc) (record {
    pages = p ∷ [];
    serves = ends e;
    within = omega arith;
    table = rw (append-nil p.data_rows) (cc);
  })

  after_get :
      (n : ℕ) (p : Page) (cols : List Text) (rows : List (List Cell)) (w : World) (t : Table)
      (w' : World) (uri : Text)
      → ((q : Page) (w1 : World)
          → poll get_page n q (columns_after p cols) (rows ++ p.data_rows) w1 ≡ (ok t, w')
          → Collects n q (columns_after p cols) (rows ++ p.data_rows) w1 t w')
      → following p ≡ some uri
      → (x : Result TrinoError Page × World) → get_page uri w ≡ x
      → resume (λ next. poll get_page n next (columns_after p cols) (rows ++ p.data_rows)) x
        ≡ (ok t, w')
      → Collects (suc n) p cols rows w t w'
  after_get n p cols rows w t w' uri later e (err r, w1) g k = absurd (cc)
  after_get n p cols rows w t w' uri later e (ok q, w1) g k =
      let rest = later q w1 k in
      record {
        pages = p ∷ rest.pages;
        serves = goes_on e g rest.serves;
        within = let short = rest.within in omega (arith, short);
        table =
            rest.table
            ∙ ap (λ l. (l, last_columns (columns_after p cols) rest.pages))
                (append_assoc rows p.data_rows (all_rows rest.pages));
      }

  poll-Collects :
      (n : ℕ) (p : Page) (cols : List Text) (rows : List (List Cell)) (w : World) (t : Table)
      (w' : World)
      → poll get_page n p cols rows w ≡ (ok t, w')
      → Collects n p cols rows w t w'
  unfolding poll pure raise ◌>>=◌
  poll-Collects zero p cols rows w t w' h = elim (Option-cases (following p)) [
    | inl e ↦ last_page zero p cols rows w t w' e _ (rw (poll, e) refl) h
    | inr (uri, e) ↦ let k : (err timed_out, w) ≡ (ok t, w') = rw (poll, e) at h in absurd (cc)
  ]
  poll-Collects (suc n) p cols rows w t w' h = elim (Option-cases (following p)) [
    | inl e ↦ last_page (suc n) p cols rows w t w' e _ (rw (poll, e) refl) h
    | inr (uri, e) ↦
        after_get n p cols rows w t w' uri
          (λ q w1. poll-Collects n q (columns_after p cols) (rows ++ p.data_rows) w1 t w') e
          (get_page uri w) refl (rw (poll, e) at h)
  ]

  Collects-poll :
      (n : ℕ) (p : Page) (w : World) (t : Table) (w' : World)
      → Collects n p [] [] w t w'
      → poll get_page n p [] [] w ≡ (ok t, w')
  Collects-poll n p w t w' c =
      poll-Serves c.serves n [] [] c.within ∙ ap (λ l. (ok l, w')) (sym c.table)

module _ {World : Type 0} (post get_page : Text → Action TrinoError World Page) where
  accepted :
      (n : ℕ) (sql : Text) (w : World) (t : Table) (w' : World) (x : Result TrinoError Page × World)
      → post sql w ≡ x
      → resume (λ page. poll get_page n page [] []) x ≡ (ok t, w')
      → (p : Page) × (w1 : World) × (post sql w ≡ (ok p, w1)) × Collects get_page n p [] [] w1 t w'
  accepted n sql w t w' (err r, w1) e h = absurd (cc)
  accepted n sql w t w' (ok p, w1) e h = (p, w1, e, poll-Collects get_page n p [] [] w1 t w' h)

  -- `_query` returns a table exactly when the statement is accepted with a page from which the server
  -- gives pages up to one that no page follows, all before the timeout; the table has the rows of
  -- these pages in their order, and the columns of the last of them that has some.
  pub query_iff :
      (n : ℕ) (sql : Text) (w : World) (t : Table) (w' : World)
      → (query post get_page n sql w ≡ (ok t, w')) ↔ (
          (p : Page) × (w1 : World) × (post sql w ≡ (ok p, w1))
          × Collects get_page n p [] [] w1 t w')
  unfolding query ◌>>=◌
  query_iff n sql w t w' = (
    accepted n sql w t w' (post sql w) refl,
    λ (p, w1, posted, c). rw posted (Collects-poll get_page n p w1 t w' c),
  )
