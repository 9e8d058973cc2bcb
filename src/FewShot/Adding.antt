-- ===== src/FewShot/Adding.antt =====
-- What `add` of fewshot.py does to the number of examples.
use insightkit.Prelude.{
  or_parts, ℕ, ◌+◌, Bool, true, false, ◌||◌, List, [], ◌∷◌, ◌++◌, ◌≡◌, refl, sym, ap, ◌∙◌, Text,
  text_eq, text_eq_refl, any, length, length-append, is_empty, strip, Bool-cases, inl, inr, arith,
}
use insightkit.Prelude.Result.{ok}
use insightkit.FewShot.{FewShot, insert_or_ignore, added, add_stripped, add, count}

any-snoc :
    (p : FewShot → Bool) (rows : List FewShot) (r : FewShot)
    → p r ≡ true
    → any p (rows ++ r ∷ []) ≡ true
any-snoc p [] r h = rw h refl
any-snoc p (q ∷ rows) r h = ground (arith, any-snoc p rows r h)

abbrev pub one_if : Bool → ℕ
one_if true = 1
one_if false = 0

-- Whatever was there, a row with the hash of one that was inserted or ignored is ignored.
insert_or_ignore_again :
    (r q : FewShot) (rows : List FewShot)
    → q.question_hash ≡ r.question_hash
    → insert_or_ignore q (insert_or_ignore r rows).1 ≡ (false, (insert_or_ignore r rows).1)
unfolding insert_or_ignore
insert_or_ignore_again r q rows e =
    elim (Bool-cases (any (λ x. text_eq x.question_hash r.question_hash) rows)) [
      | inl old ↦ rw (e, old) (rw old refl)
      | inr new' ↦
          rw (e, new')
            (rw
              (any-snoc (λ x. text_eq x.question_hash r.question_hash) rows r
                (text_eq_refl r.question_hash))
              refl)
    ]

length-insert_or_ignore :
    (r : FewShot) (rows : List FewShot)
    → length (insert_or_ignore r rows).1 ≡ length rows + one_if (insert_or_ignore r rows).0
unfolding insert_or_ignore
length-insert_or_ignore r rows =
    elim (Bool-cases (any (λ x. text_eq x.question_hash r.question_hash) rows)) [
      | inl old ↦ rw old (omega arith)
      | inr new' ↦ rw new' (length-append rows (r ∷ []))
    ]

module _ (sha256 : Text → Text) where
  abbrev example : Text → Text → Text → Text → Text → FewShot
  example now tags source question sql = record {
    question_hash = sha256 question;
    question = question;
    sql = sql;
    tags = tags;
    source = source;
    created_at = now;
  }

  stripped :
      (now tags source question sql : Text) (rows rows' : List FewShot) (inserted : Bool)
      → add_stripped sha256 now tags source question sql rows ≡ (ok inserted, rows')
      → (is_empty question ≡ false)
        × ((insert_or_ignore (example now tags source question sql) rows).0 ≡ inserted)
        × ((insert_or_ignore (example now tags source question sql) rows).1 ≡ rows')
  unfolding add_stripped added
  stripped now tags source question sql rows rows' inserted h =
      elim (Bool-cases (is_empty question || is_empty sql)) [
        | inl blank ↦ absurd (cc (rw blank at h))
        | inr full ↦
            let (asked, _) = or_parts (is_empty question) (is_empty sql) full in
            let e = rw full at h in (asked, cc, cc)
      ]

  -- Where `add` returns, the number of examples has grown by one if it says that it inserted, and not
  -- otherwise; and a second example for the question, whatever its SQL, is then ignored.
  add_once :
      (now later tags tags' source source' question sql sql' : Text) (rows rows' : List FewShot)
      (inserted : Bool)
      → add sha256 now tags source question sql rows ≡ (ok inserted, rows')
      → is_empty (strip sql') ≡ false
      → (count rows' ≡ count rows + one_if inserted)
        × (add sha256 later tags' source' question sql' rows' ≡ (ok false, rows'))
  unfolding add count add_stripped added
  add_once now later tags tags' source source' question sql sql' rows rows' inserted h full =
      let (asked, says, grown) =
        stripped now tags source (strip question) (strip sql) rows rows' inserted h in
      let r = example now tags source (strip question) (strip sql) in
      let q = example later tags' source' (strip question) (strip sql') in
      let again : insert_or_ignore q rows' ≡ (false, rows') =
        rw⁻¹ grown (insert_or_ignore_again r q rows refl) in
      (
        ap length (sym grown)
            ∙ (length-insert_or_ignore r rows ∙ ap (λ b. length rows + one_if b) says),
        rw (asked, full) (ap added again),
      )
