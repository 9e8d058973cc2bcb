-- ===== src/Guard/Pii.antt =====
-- `mask_pii` of security/guard.py: e-mail addresses, phone numbers, NIK and card numbers.
use insightkit.Prelude.{ℕ, Bool, Text, text, ◌==◌, ◌||◌, is_word, is_decimal}
use insightkit.Re.Syntax.{
  Regex, cls, seq, alt, boundary, not_behind, not_ahead, chr, literal, optional, some_of, between,
}
use insightkit.Re.Scan.{sub}

abbrev is_local : ℕ → Bool
is_local c = is_word c || c == b'.' || c == b'+' || c == b'-'

-- `\b[\w.+-]+@[\w-]+\.[\w.]+\b`
abbrev pub email_re : Regex
email_re = seq boundary (
    seq (some_of is_local) (
      seq (chr b'@') (
        seq (some_of (λ c. is_word c || c == b'-'))
          (seq (chr b'.') (seq (some_of (λ c. is_word c || c == b'.')) boundary)))))

-- `(?<!\d)(?:\+?62|0)8\d{7,12}(?!\d)`
abbrev pub phone_re : Regex
phone_re = seq (not_behind is_decimal) (
    seq (alt (seq (optional (chr b'+')) (literal (text "62"))) (chr b'0'))
      (seq (chr b'8') (seq (between 7 5 (cls is_decimal)) (not_ahead is_decimal))))

-- `(?<!\d)\d{16}(?!\d)`
abbrev pub nik_re : Regex
nik_re = seq (not_behind is_decimal) (seq (between 16 0 (cls is_decimal)) (not_ahead is_decimal))

-- `(?<!\d)(?:\d[ -]?){13,19}(?!\d)`
abbrev pub card_re : Regex
card_re = seq (not_behind is_decimal) (
    seq (between 13 6 (seq (cls is_decimal) (optional (cls (λ c. c == b' ' || c == b'-')))))
      (not_ahead is_decimal))

abbrev pub mask : Text
mask = text "[REDACTED]"

unfoldable pub mask_pii : Text → Text
mask_pii s = sub card_re mask (sub nik_re mask (sub phone_re mask (sub email_re mask s)))
