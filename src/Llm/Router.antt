-- ===== src/Llm/Router.antt =====
-- llm/router.py: which model a question goes to.
use insightkit.Prelude.{
  ℕ, ◌+◌, Bool, true, false, not, Option, none, some, List, [], ◌∷◌, Text, text, ltb, leb, ◌==◌,
  ◌||◌, is_space, is_empty, if◌then◌else◌, length, strip,
}
use insightkit.Re.Syntax.{Regex, cls, seq, alt, literal_ci, optional, whole_word}
use insightkit.Re.Scan.{search}

-- The words of `_COMPLEX_HINTS`, but the three that are patterns of their own.
abbrev pub hint_words : List Text
hint_words =
    text "compare"
    ∷ text "comparison"
    ∷ text "trend"
    ∷ text "versus"
    ∷ text "monthly"
    ∷ text "quarterly"
    ∷ text "rolling"
    ∷ text "cumulative"
    ∷ text "ratio"
    ∷ text "percentage"
    ∷ text "correlation"
    ∷ text "cohort"
    ∷ text "churn"
    ∷ text "attribution"
    ∷ text "forecast"
    ∷ text "outlier"
    ∷ text "bandingkan"
    ∷ text "perbandingan"
    ∷ text "tren"
    ∷ text "bulanan"
    ∷ text "triwulan"
    ∷ text "kuartal"
    ∷ text "kumulatif"
    ∷ text "persentase"
    ∷ text "korelasi"
    ∷ text "prediksi"
    ∷ text "pertumbuhan"
    ∷ []

abbrev pub one_of : List Text → Regex → Regex
one_of [] last = last
one_of (w ∷ ws) last = alt (literal_ci w) (one_of ws last)

-- `[ -]?`
abbrev pub dash : Regex
dash = optional (cls (λ c. c == b' ' || c == b'-'))

abbrev pub complex_hints : Regex
complex_hints = whole_word (
    one_of hint_words (
      alt
        (seq (literal_ci (text "year"))
          (seq dash (seq (literal_ci (text "over")) (seq dash (literal_ci (text "year"))))))
        (alt (whole_word (literal_ci (text "mom"))) (whole_word (literal_ci (text "qoq"))))))

-- `len(s.split())`: the number of runs of characters that are no spaces.
unfoldable pub count_words : Bool → Text → ℕ
count_words inside [] = 0
count_words inside (x ∷ xs) =
    (if is_space x || inside then 0 else 1) + count_words (not (is_space x)) xs

abbrev pub one_if : Bool → ℕ
one_if true = 1
one_if false = 0

unfoldable pub complexity_score : Text → ℕ → ℕ
complexity_score question table_count =
    let s = strip question in
    if is_empty s
    then 0
    else one_if (ltb 80 (length s))
      + one_if (search complex_hints s)
      + one_if (ltb 15 (count_words false s))
      + one_if (ltb 5 table_count)

-- `cfg.llm.fast_model or cfg.llm.model`
abbrev pub or_text : Option Text → Text → Text
or_text none d = d
or_text (some []) d = d
or_text (some (x ∷ xs)) d = x ∷ xs

unfoldable pub pick_model : Text → Option Text → Text → ℕ → Text
pick_model model fast_model question table_count =
    if leb 2 (complexity_score question table_count) then model else or_text fast_model model
