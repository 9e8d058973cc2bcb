-- ===== src/Llm/Intent.antt =====
-- `is_analysis_question` of llm/prompt.py.
use insightkit.Prelude.{Bool, List, [], ◌∷◌, Text, text, is_word}
use insightkit.Re.Syntax.{Regex, seq, alt, many, boundary, literal_ci, chr_ci, optional}
use insightkit.Re.Scan.{search}
use insightkit.Llm.Router.{one_of}

abbrev pub intent_words : List Text
intent_words =
    text "strategi"
    ∷ text "meningkatkan"
    ∷ text "tingkatkan"
    ∷ text "naikkan"
    ∷ text "optimasi"
    ∷ text "mengoptimalkan"
    ∷ text "optimize"
    ∷ text "improve"
    ∷ text "boost"
    ∷ text "pertumbuhan"
    ∷ text "tumbuhkan"
    ∷ []

-- `\b(rekomendasi|rekomend|saran|tips?|…|grow)\w*\b`
abbrev pub analysis_intent_re : Regex
analysis_intent_re = seq boundary (
    seq
      (one_of (text "rekomendasi" ∷ text "rekomend" ∷ text "saran" ∷ []) (
        alt (seq (literal_ci (text "tip")) (optional (chr_ci b's')))
          (one_of intent_words (literal_ci (text "grow")))))
      (seq (many is_word) boundary))

unfoldable pub is_analysis_question : Text → Bool
is_analysis_question question = search analysis_intent_re question
