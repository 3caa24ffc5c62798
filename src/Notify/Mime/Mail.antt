-- ===== src/Notify/Mime/Mail.antt =====
-- What a reader finds in the message of `BuildMIME`.
use mathlib.Core.List.{map, append_assoc, append-nil}
use auto_cert.Base.{
  ◌≡◌, refl, ap, ◌∙◌, ℕ, ◌+◌, ◌≤◌, true, some, List, [], ◌∷◌, ◌++◌, list_eq, nat_eq, arith, length,
  length-map, All,
}
use auto_cert.Base.Text.{Text, codes, join, format_quoted}
use auto_cert.Base.Text.Find.{cut_at, is_clear, cut_at-append}
use auto_cert.Base.Members.{collect}
use auto_cert.Notify.Mime.{
  Attachment, multipart, with_crlf, plain_part, html_part, attachment_part, alternative,
  alternative_part, mixed, build_mime, or_octets, wrap_lines,
}
use auto_cert.Notify.Mime.Reading.{IsClear, read_parts, read_parts-multipart}
use auto_cert.Notify.Mime.Contents.{
  newline, blank, Holds, append-Holds, IsTextOf, with_crlf-IsTextOf, text_headers, page_headers,
  attachment_headers, given_type, IsWrapped, wrap_lines-IsWrapped,
}

or_octets-given_type : (t : Text) → or_octets t ≡ given_type t
or_octets-given_type [] = refl
or_octets-given_type (c ∷ t) = refl

module _ (encode : Text → Text) (alt_boundary mixed_boundary from : Text) (to : List Text)
    (subject plain html : Text) where
  abbrev pub alternative_headers : Text
  alternative_headers =
      codes "Content-Type: multipart/alternative; boundary=" ++ format_quoted alt_boundary

  -- The last header, by the attachments.
  abbrev pub type_header : List Attachment → Text
  type_header [] = alternative_headers
  type_header (a ∷ attachments) =
      codes "Content-Type: multipart/mixed; boundary=" ++ format_quoted mixed_boundary

  -- The headers of the message, up to the last line break.
  abbrev pub headers_of : List Attachment → Text
  headers_of attachments =
      codes "From: "
      ++ from
      ++ newline
      ++ codes "To: "
      ++ join to (codes ", ")
      ++ newline
      ++ codes "Subject: "
      ++ subject
      ++ newline
      ++ codes "MIME-Version: 1.0"
      ++ newline
      ++ type_header attachments

  abbrev pub boundary_of : List Attachment → Text
  boundary_of [] = alt_boundary
  boundary_of (a ∷ attachments) = mixed_boundary

  -- The parts are the text and the page, in this order.
  pub record AreForms (parts : List Text) : Type 0 where
    pub text : Text
    pub page : Text
    pub parts_are : parts ≡ text ∷ page ∷ []
    pub text_holds : Holds text text_headers (IsTextOf plain)
    pub page_holds : Holds page page_headers (IsTextOf html)

  -- A body that splits into the two forms.
  pub record IsAlternative (n : ℕ) (body : Text) : Type 0 where
    pub forms : List Text
    pub split : read_parts n alt_boundary body ≡ some forms
    pub are_forms : AreForms forms

  -- The parts hold the data of the attachments, in their order.
  abbrev pub HoldData : List Attachment → List Text → Type 0
  HoldData [] [] = Unit {0}
  HoldData [] (p ∷ parts) = ⊥
  HoldData (a ∷ attachments) [] = ⊥
  HoldData (a ∷ attachments) (p ∷ parts) =
      Holds p (attachment_headers a) (IsWrapped (encode a.bytes)) × HoldData attachments parts

  -- The parts are one with the two forms, and those of the attachments.
  pub record AreMixed (n : ℕ) (attachments : List Attachment) (parts : List Text) : Type 0 where
    pub first : Text
    pub others : List Text
    pub parts_are : parts ≡ first ∷ others
    pub first_holds : Holds first alternative_headers (IsAlternative n)
    pub others_hold : HoldData attachments others

  abbrev pub AreParts : ℕ → List Attachment → List Text → Type 0
  AreParts n [] parts = AreForms parts
  AreParts n (a ∷ attachments) parts = AreMixed n (a ∷ attachments) parts

  -- What a reader finds in a message: the headers up to the first blank line, and behind it a text
  -- that splits at the boundary into the parts.
  pub record IsMail (n : ℕ) (attachments : List Attachment) (message : Text) : Type 0 where
    pub body : Text
    pub parts : List Text
    pub read : cut_at message blank ≡ some (headers_of attachments, body)
    pub split : read_parts n (boundary_of attachments) body ≡ some parts
    pub are_parts : AreParts n attachments parts

  -- The parts that are written.
  abbrev pub forms : List Text
  forms = plain_part plain ∷ html_part html ∷ []

  abbrev pub parts_of : List Attachment → List Text
  parts_of [] = forms
  parts_of (a ∷ attachments) =
      alternative_part encode alt_boundary mixed_boundary plain html
      ∷ map (attachment_part encode alt_boundary mixed_boundary) (a ∷ attachments)

  abbrev body_of : List Attachment → Text
  body_of [] = alternative encode alt_boundary mixed_boundary plain html
  body_of (a ∷ attachments) = mixed encode alt_boundary mixed_boundary plain html (a ∷ attachments)

  abbrev message : List Attachment → Text
  message = build_mime encode alt_boundary mixed_boundary from to subject plain html

  message-split :
      (attachments : List Attachment)
      → message attachments ≡ headers_of attachments ++ blank ++ body_of attachments
  unfolding build_mime
  message-split [] = simp append_assoc
  message-split (a ∷ attachments) = simp append_assoc

  body_of-multipart :
      (attachments : List Attachment)
      → body_of attachments ≡ multipart (boundary_of attachments) (parts_of attachments)
  unfolding alternative mixed
  body_of-multipart [] = refl
  body_of-multipart (a ∷ attachments) = refl

  parts_of-few :
      (attachments : List Attachment) {n : ℕ}
      → length attachments + 3 ≤ n
      → length (parts_of attachments) + 1 ≤ n
  parts_of-few [] h = h
  parts_of-few (a ∷ attachments) h =
      omega (arith, length-map (attachment_part encode alt_boundary mixed_boundary) attachments)

  forms-AreForms : AreForms forms
  unfolding is_clear
  forms-AreForms = record {
    text = plain_part plain;
    page = html_part html;
    parts_are = refl;
    text_holds =
        append-Holds (plain_part plain) text_headers (with_crlf plain) (IsTextOf plain) refl refl
          (with_crlf-IsTextOf plain);
    page_holds =
        append-Holds (html_part html) page_headers (with_crlf html) (IsTextOf html) refl refl
          (with_crlf-IsTextOf html);
  }

  alternative-IsAlternative :
      (n : ℕ)
      → 3 ≤ n
      → All (IsClear alt_boundary) forms
      → IsAlternative n (alternative encode alt_boundary mixed_boundary plain html)
  unfolding alternative
  alternative-IsAlternative n enough clear = record {
    forms = forms;
    split = read_parts-multipart alt_boundary n forms enough clear;
    are_forms = forms-AreForms;
  }

  attachment_part-Holds :
      (a : Attachment)
      → is_clear blank (attachment_headers a) ≡ true
      → Holds
          (attachment_part encode alt_boundary mixed_boundary a)
          (attachment_headers a)
          (IsWrapped (encode a.bytes))
  attachment_part-Holds a clear =
      append-Holds (attachment_part encode alt_boundary mixed_boundary a) (attachment_headers a)
        (collect (λ line. line ++ newline) (wrap_lines (length (encode a.bytes)) (encode a.bytes)))
        (IsWrapped (encode a.bytes)) (simp (append_assoc, append-nil, or_octets-given_type)) clear
        (wrap_lines-IsWrapped (encode a.bytes))

  data-HoldData :
      (attachments : List Attachment)
      → All (λ (a : Attachment). is_clear blank (attachment_headers a) ≡ true) attachments
      → HoldData attachments (map (attachment_part encode alt_boundary mixed_boundary) attachments)
  data-HoldData [] clear = tt
  data-HoldData (a ∷ attachments) clear =
      (attachment_part-Holds a clear.0, data-HoldData attachments clear.1)

  parts_of-AreParts :
      (n : ℕ) (attachments : List Attachment)
      → 3 ≤ n
      → is_clear blank alternative_headers ≡ true
      → All (λ (a : Attachment). is_clear blank (attachment_headers a) ≡ true) attachments
      → All (IsClear alt_boundary) forms
      → AreParts n attachments (parts_of attachments)
  parts_of-AreParts n [] enough alt clear of_forms = forms-AreForms
  parts_of-AreParts n (a ∷ attachments) enough alt clear of_forms = record {
    first = alternative_part encode alt_boundary mixed_boundary plain html;
    others = map (attachment_part encode alt_boundary mixed_boundary) (a ∷ attachments);
    parts_are = refl;
    first_holds =
        append-Holds (alternative_part encode alt_boundary mixed_boundary plain html)
          alternative_headers (alternative encode alt_boundary mixed_boundary plain html)
          (IsAlternative n) (simp append_assoc) alt (alternative-IsAlternative n enough of_forms);
    others_hold = data-HoldData (a ∷ attachments) clear;
  }

  -- A reader who splits the message at its first blank line finds the sender, the recipients and the
  -- subject in the headers, and behind them, split at the boundary, the text as plain text and the
  -- page as HTML, with the lines of each, or these two as one part and behind it each attachment,
  -- with its name and its type, whose lines have at most 76 characters and put together are its data
  -- in base64. It is supposed that no blank line begins in headers, and that no delimiter begins in
  -- a part that it separates.
  pub read_message-build_mime :
      (attachments : List Attachment) (n : ℕ)
      → length attachments + 3 ≤ n
      → is_clear blank (headers_of attachments) ≡ true
      → is_clear blank alternative_headers ≡ true
      → All (λ (a : Attachment). is_clear blank (attachment_headers a) ≡ true) attachments
      → All (IsClear (boundary_of attachments)) (parts_of attachments)
      → All (IsClear alt_boundary) forms
      → IsMail n attachments (message attachments)
  read_message-build_mime attachments n enough headers alt clear parts of_forms = record {
    body = body_of attachments;
    parts = parts_of attachments;
    read =
        ap (λ m. cut_at m blank) (message-split attachments)
        ∙ cut_at-append 13 (10 ∷ 13 ∷ 10 ∷ []) (headers_of attachments) (body_of attachments)
            headers;
    split =
        ap (read_parts n (boundary_of attachments)) (body_of-multipart attachments)
        ∙ read_parts-multipart (boundary_of attachments) n (parts_of attachments)
            (parts_of-few attachments enough) parts;
    are_parts = parts_of-AreParts n attachments (omega arith) alt clear of_forms;
  }
