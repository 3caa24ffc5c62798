-- ===== src/Notify/Notifier.antt =====
-- internal/notify/notifier.go: the two notifiers.
use auto_cert.Base.{
  ℕ, ◌+◌, Bool, Option, none, some, List, [], ◌∷◌, ◌++◌, ◌||◌, list_eq, nat_eq, if◌then◌else◌, ◌==◌,
  ltb, length,
}
use auto_cert.Base.Int.{ℤ}
use auto_cert.Base.Text.{Text, codes, format_nat, format_int}
use auto_cert.Base.Members.{collect}
use auto_cert.Base.Result.{Result, ok, err}
use auto_cert.Files.{Disk, Os, mkdir_all, write_file}
use auto_cert.Model.{Alert, Error}
use auto_cert.Time.{Time}
use auto_cert.Notify.Summary.{Summary}
use auto_cert.Notify.Render.{Layouts, render}
use auto_cert.Notify.Html.{render_html}
use auto_cert.Notify.Mime.{Attachment, build_mime}

-- `writeFile`
unfoldable pub put_file : Os → Text → Text → Disk → Result (Unit {0}) × Disk
unfolding mkdir_all write_file
put_file os path text disk = elim (mkdir_all os) [
  | err e ↦ (err e, disk)
  | ok _ ↦ write_file os path text disk
]

-- The bytes of a code point in UTF-8.
abbrev bytes_of : ℕ → ℕ
bytes_of c = if ltb c 128 then 1 else if ltb c 2048 then 2 else if ltb c 65536 then 3 else 4

abbrev byte_length : Text → ℕ
byte_length [] = 0
byte_length (c ∷ s) = bytes_of c + byte_length s

-- What a dry run leaves: what was written to `W`, the error and the disk.
pub record DryRunResult : Type 0 where
  pub written : Text
  pub error : Error
  pub disk : Disk

abbrev pub attachment_line : Attachment → Text
attachment_line a =
    codes "--- attachment: "
    ++ a.filename
    ++ codes " ("
    ++ a.content_type
    ++ codes ", "
    ++ format_nat (length a.bytes)
    ++ codes " bytes) ---\n"

module _ (layouts : Layouts) (now : Time) where
  abbrev pub plain_text : Text × Text → Text
  plain_text (subject, plain) =
      codes "--- dry-run email (plain) ---\nSubject: " ++ subject ++ codes "\n\n" ++ plain

  -- The page goes to a file, or to `W` if there is no path.
  abbrev pub show_html : Os → Text → Text → Text → List Attachment → Disk → DryRunResult
  show_html os [] plain html attachments disk = record {
    written =
        plain
        ++ codes "--- dry-run email (html) ---\n"
        ++ html
        ++ codes "\n--- end ---\n"
        ++ collect attachment_line attachments;
    error = none;
    disk = disk;
  }
  show_html os (c ∷ path) plain html attachments disk =
      after_file (put_file os (c ∷ path) html disk)
    where
      after_file : Result (Unit {0}) × Disk → DryRunResult
      after_file (err e, disk') = record {
        written = plain;
        error = some (codes "dry-run html write " ++ (c ∷ path) ++ codes ": " ++ e);
        disk = disk';
      }
      after_file (ok _, disk') = record {
        written =
            plain
            ++ codes "--- html body written to "
            ++ (c ∷ path)
            ++ codes " ("
            ++ format_nat (byte_length html)
            ++ codes " bytes) ---\n"
            ++ collect attachment_line attachments;
        error = none;
        disk = disk';
      }

  -- `DryRun.Notify`; the error is that of the first write to `W`, whose later ones are not asked.
  unfoldable pub dry_run_notify :
      Error → Os → Text → List Alert → Summary → List Attachment → Disk → DryRunResult
  unfolding put_file render render_html format_nat
  dry_run_notify (some e) os path alerts summary attachments disk = record {
    written = [];
    error = some e;
    disk = disk;
  }
  dry_run_notify none os path alerts summary attachments disk =
      show_html os path (plain_text (render layouts alerts summary now))
        (render_html layouts alerts summary now) attachments disk

pub record Smtp : Type 0 where
  pub host : Text
  pub port : ℤ
  pub username : Text
  pub password : Text
  pub from : Text
  pub to : List Text

-- The identity, user name, password and host of `smtp.PlainAuth`.
pub record PlainAuth : Type 0 where
  pub identity : Text
  pub username : Text
  pub password : Text
  pub host : Text

-- The arguments of `smtp.SendMail`.
pub record Delivery : Type 0 where
  pub addr : Text
  pub auth : Option PlainAuth
  pub from : Text
  pub to : List Text
  pub msg : Text

module _ (encode : Text → Text) (alt_boundary mixed_boundary : Text) (layouts : Layouts)
    (send_mail : Delivery → Error) where
  abbrev pub addr_of : Smtp → Text
  addr_of s = s.host ++ b':' ∷ format_int s.port

  abbrev pub auth_of : Smtp → Option PlainAuth
  auth_of s =
      if s.username == []
      then none
      else some
          (record { identity = []; username = s.username; password = s.password; host = s.host })

  -- The mail of a run.
  unfoldable pub delivery_of : Smtp → List Alert → Summary → List Attachment → Time → Delivery
  unfolding render render_html build_mime format_int
  delivery_of s alerts summary attachments now =
      let mail = render layouts alerts summary now in
      record {
        addr = addr_of s;
        auth = auth_of s;
        from = s.from;
        to = s.to;
        msg =
            build_mime encode alt_boundary mixed_boundary s.from s.to mail.0 mail.1
              (render_html layouts alerts summary now) attachments;
      }

  abbrev pub send_error : Text → Error → Error
  send_error addr none = none
  send_error addr (some e) = some (codes "smtp send to " ++ addr ++ codes ": " ++ e)

  -- `s.Host == "" || len(s.To) == 0 || s.From == ""`
  abbrev pub is_incomplete : Smtp → Bool
  is_incomplete s = s.host == [] || length s.to == 0 || s.from == []

  -- `SMTP.Notify`: the messages that were handed over, and the error.
  unfoldable pub smtp_notify :
      Smtp → List Alert → Summary → List Attachment → Time → List Delivery × Error
  unfolding delivery_of
  smtp_notify s [] summary attachments now = ([], none)
  smtp_notify s (a ∷ alerts) summary attachments now =
      let d = delivery_of s (a ∷ alerts) summary attachments now in
      if is_incomplete s
      then ([], some (codes "smtp: missing host/from/to"))
      else (d ∷ [], send_error (addr_of s) (send_mail d))
