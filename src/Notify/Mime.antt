-- ===== src/Notify/Mime.antt =====
-- internal/notify/notifier.go: `BuildMIME`, over what mime/multipart writes for a boundary.
pub mod Reading
pub mod Contents
pub mod Mail
use mathlib.Core.List.{map}
use auto_cert.Base.{
  ℕ, zero, suc, List, [], ◌∷◌, ◌++◌, list_eq, nat_eq, if◌then◌else◌, ◌==◌, length, take, drop,
}
use auto_cert.Base.Text.{Text, codes, join, format_quoted}
use auto_cert.Base.Members.{collect}

pub record Attachment : Type 0 where
  pub filename : Text
  pub content_type : Text
  pub bytes : Text

abbrev pub crlf : Text
crlf = 13 ∷ 10 ∷ []

-- `strings.ReplaceAll(s, "\n", "\r\n")`
unfoldable pub with_crlf : Text → Text
with_crlf [] = []
with_crlf (c ∷ s) = if c == 10 then 13 ∷ 10 ∷ with_crlf s else c ∷ with_crlf s

-- What `CreatePart` writes of a header, whose keys it sorts, and the text of the part.
abbrev pub part : List (Text × Text) → Text → Text
part headers body =
    collect (λ (h : Text × Text). h.0 ++ codes ": " ++ h.1 ++ crlf) headers ++ (crlf ++ body)

-- The delimiter of a boundary, behind the line break in front of it.
abbrev pub delimiter : Text → Text
delimiter boundary = 13 ∷ 10 ∷ b'-' ∷ b'-' ∷ boundary

-- What a `multipart.Writer` writes behind a boundary: the parts, and the mark of `Close`.
abbrev pub behind : Text → List Text → Text
behind boundary [] = codes "--" ++ crlf
behind boundary (p ∷ parts) = crlf ++ (p ++ delimiter boundary ++ behind boundary parts)

-- The whole of it; both writers have a part.
abbrev pub multipart : Text → List Text → Text
multipart boundary parts = codes "--" ++ (boundary ++ behind boundary parts)

-- The lines of 76 characters, in at most as many rounds as there are characters.
abbrev pub wrap_lines : ℕ → Text → List Text
wrap_lines zero s = []
wrap_lines (suc n) [] = []
wrap_lines (suc n) (c ∷ s) = take 76 (c ∷ s) ∷ wrap_lines n (drop 76 (c ∷ s))

abbrev pub or_octets : Text → Text
or_octets [] = codes "application/octet-stream"
or_octets (c ∷ s) = c ∷ s

abbrev pub plain_part : Text → Text
plain_part plain =
    part
      ((codes "Content-Transfer-Encoding", codes "8bit")
        ∷ (codes "Content-Type", codes "text/plain; charset=utf-8")
        ∷ [])
      (with_crlf plain)

abbrev pub html_part : Text → Text
html_part html =
    part
      ((codes "Content-Transfer-Encoding", codes "8bit")
        ∷ (codes "Content-Type", codes "text/html; charset=utf-8")
        ∷ [])
      (with_crlf html)

-- `base64.StdEncoding.EncodeToString`, and the boundaries that the two writers draw.
module _ (encode : Text → Text) (alt_boundary mixed_boundary : Text) where
  -- The lines of an attachment.
  abbrev pub encoded_lines : Attachment → List Text
  encoded_lines a = wrap_lines (length (encode a.bytes)) (encode a.bytes)

  abbrev pub attachment_part : Attachment → Text
  attachment_part a =
      part
        ((codes "Content-Disposition", codes "attachment; filename=" ++ format_quoted a.filename)
          ∷ (codes "Content-Transfer-Encoding", codes "base64")
          ∷ (
            codes "Content-Type",
            or_octets a.content_type ++ codes "; name=" ++ format_quoted a.filename,
          )
          ∷ [])
        (collect (λ line. line ++ crlf) (encoded_lines a))

  abbrev pub alternative_type : Text
  alternative_type = codes "multipart/alternative; boundary=" ++ format_quoted alt_boundary

  -- The buffer of `altWriter`.
  unfoldable pub alternative : Text → Text → Text
  unfolding with_crlf
  alternative plain html = multipart alt_boundary (plain_part plain ∷ html_part html ∷ [])

  abbrev pub alternative_part : Text → Text → Text
  alternative_part plain html =
      part ((codes "Content-Type", alternative_type) ∷ []) (alternative plain html)

  -- The buffer of `mixedWriter`.
  unfoldable pub mixed : Text → Text → List Attachment → Text
  unfolding alternative format_quoted
  mixed plain html attachments =
      multipart mixed_boundary (alternative_part plain html ∷ map attachment_part attachments)

  -- The type of the message, and its text.
  abbrev pub content : Text → Text → List Attachment → Text
  content plain html [] =
      codes "Content-Type: " ++ alternative_type ++ crlf ++ crlf ++ alternative plain html
  content plain html (a ∷ attachments) =
      codes "Content-Type: multipart/mixed; boundary="
      ++ format_quoted mixed_boundary
      ++ crlf
      ++ crlf
      ++ mixed plain html (a ∷ attachments)

  -- `BuildMIME`; writing to a buffer does not fail.
  unfoldable pub build_mime : Text → List Text → Text → Text → Text → List Attachment → Text
  unfolding alternative mixed format_quoted join
  build_mime from to subject plain html attachments =
      codes "From: "
      ++ from
      ++ crlf
      ++ codes "To: "
      ++ join to (codes ", ")
      ++ crlf
      ++ codes "Subject: "
      ++ subject
      ++ crlf
      ++ codes "MIME-Version: 1.0"
      ++ crlf
      ++ content plain html attachments
