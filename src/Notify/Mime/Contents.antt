-- ===== src/Notify/Mime/Contents.antt =====
-- What a reader of a part should find: its headers, written out, and its text, page or data.
use auto_cert.Base.{
  ◌≡◌, refl, ap, ◌∙◌, ◌≤◌, Bool, true, false, some, List, [], ◌∷◌, ◌++◌, ◌&&◌, list_eq, nat_eq,
  arith, if◌then◌else◌, ◌==◌, length, All,
}
use auto_cert.Base.Text.{Text, codes, format_quoted}
use auto_cert.Base.Text.Find.{cut_at, is_clear, cut_at-append}
use auto_cert.Base.Members.{collect}
use auto_cert.Notify.Mime.{Attachment, with_crlf, wrap_lines}
use auto_cert.Notify.Mime.Reading.{wrap_lines-all, wrap_lines-short}

abbrev pub newline : Text
newline = 13 ∷ 10 ∷ []

-- The end of the last header and the blank line.
abbrev pub blank : Text
blank = 13 ∷ 10 ∷ 13 ∷ 10 ∷ []

-- A reader who splits a text at its first blank line finds the headers and a body of that kind.
pub record Holds (text headers : Text) (IsBody : Text → Type 0) : Type 0 where
  pub body : Text
  pub read : cut_at text blank ≡ some (headers, body)
  pub is_body : IsBody body

pub append-Holds :
    (text headers body : Text) (IsBody : Text → Type 0)
    → text ≡ headers ++ blank ++ body
    → is_clear blank headers ≡ true
    → IsBody body
    → Holds text headers IsBody
append-Holds text headers body IsBody split clear content = record {
  body = body;
  read = ap (λ t. cut_at t blank) split ∙ cut_at-append 13 (10 ∷ 13 ∷ 10 ∷ []) headers body clear;
  is_body = content;
}

-- A text without its carriage returns.
unfoldable pub without_cr : Text → Text
without_cr [] = []
without_cr (c ∷ s) = let rest = without_cr s in if c == 13 then rest else c ∷ rest

-- A carriage return stands in front of each line feed; the first argument says if one stands in
-- front of the text.
unfoldable pub is_lined : Bool → Text → Bool
is_lined before [] = true
is_lined before (c ∷ s) = (if c == 10 then before else true) && is_lined (c == 13) s

-- The body has the lines of the text, each ended by a carriage return and a line feed.
abbrev pub IsTextOf : Text → Text → Type 0
IsTextOf text body = (without_cr body ≡ without_cr text) × (is_lined false body ≡ true)

without_cr-with_crlf : (s : Text) → without_cr (with_crlf s) ≡ without_cr s
unfolding without_cr with_crlf
without_cr-with_crlf [] = refl
without_cr-with_crlf (c ∷ s) = ground (arith, without_cr-with_crlf s)

is_lined-with_crlf : (before : Bool) (s : Text) → is_lined before (with_crlf s) ≡ true
unfolding is_lined with_crlf
is_lined-with_crlf before [] = refl
is_lined-with_crlf before (c ∷ s) =
    ground (arith, is_lined-with_crlf false s, is_lined-with_crlf (c == 13) s)

pub with_crlf-IsTextOf : (s : Text) → IsTextOf s (with_crlf s)
with_crlf-IsTextOf s = (without_cr-with_crlf s, is_lined-with_crlf false s)

abbrev pub text_headers : Text
text_headers =
    codes "Content-Transfer-Encoding: 8bit"
    ++ newline
    ++ codes "Content-Type: text/plain; charset=utf-8"

abbrev pub page_headers : Text
page_headers =
    codes "Content-Transfer-Encoding: 8bit"
    ++ newline
    ++ codes "Content-Type: text/html; charset=utf-8"

-- The type of an attachment, or that of any data.
abbrev pub given_type : Text → Text
given_type [] = codes "application/octet-stream"
given_type (c ∷ s) = c ∷ s

abbrev pub attachment_headers : Attachment → Text
attachment_headers a =
    codes "Content-Disposition: attachment; filename="
    ++ format_quoted a.filename
    ++ newline
    ++ codes "Content-Transfer-Encoding: base64"
    ++ newline
    ++ codes "Content-Type: "
    ++ given_type a.content_type
    ++ codes "; name="
    ++ format_quoted a.filename

-- The body is lines of at most 76 characters, which put together are the text.
pub record IsWrapped (text body : Text) : Type 0 where
  pub lines : List Text
  pub body_is : body ≡ collect (λ line. line ++ newline) lines
  pub text_is : collect (λ (line : Text). line) lines ≡ text
  pub short : All (λ (line : Text). length line ≤ 76) lines

pub wrap_lines-IsWrapped :
    (text : Text)
    → IsWrapped text (collect (λ line. line ++ newline) (wrap_lines (length text) text))
wrap_lines-IsWrapped text = record {
  lines = wrap_lines (length text) text;
  body_is = refl;
  text_is = wrap_lines-all (length text) text (omega arith);
  short = wrap_lines-short (length text) text;
}
