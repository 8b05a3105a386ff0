-- ===== src/Firmware/Log/Laws.antt =====
-- The envelope of a checkpoint that was parsed, and the time stamp read back.
use trillian_serverless.Base.{
  ℕ, ◌^◌, ◌<◌, ◌≡◌, refl, sym, ◌∙◌, ap, subst, some, expect, [], ◌∷◌, ◌++◌, Bytes, ok, bind-ok,
  ok-injective, arith,
}
use trillian_serverless.Std.Lines.{newline, IsLine, split_lines-last, IsPlain-IsLine}
use trillian_serverless.Std.Numbers.{
  format_uint, format_uint_cons, format_uint-IsPlain, parse_uint, parse_uint-format_uint,
}
use trillian_serverless.Std.Paths.{ascii}
use trillian_serverless.Firmware.Log.{
  LogCheckpoint, Formats, HttpGet, trim_newlines, timestamp_line, parse_timestamp, parse_checkpoint,
  get_checkpoint, fetch,
}

trim_newlines-line :
    (c : ℕ) (l : Bytes) → IsLine (c ∷ l) → trim_newlines (c ∷ l ++ newline ∷ []) ≡ c ∷ l
unfolding trim_newlines
trim_newlines-line c [] h = ground (arith, h)
trim_newlines-line c (d ∷ l) h = rw (trim_newlines-line d l h.1) refl

parse_timestamp-line :
    (c : ℕ) (l : Bytes)
    → IsLine (c ∷ l)
    → parse_timestamp (c ∷ l ++ newline ∷ [])
      ≡ expect (parse_uint 10 64 (c ∷ l)) "failed to parse timestamp"
unfolding parse_timestamp
parse_timestamp-line c l h = rw (trim_newlines-line c l h) (rw (split_lines-last (c ∷ l) h) refl)

-- A time stamp of 64 bits is read back from the line that `Marshal` writes.
pub parse_timestamp-timestamp_line :
    (ts : ℕ) → ts < 2 ^ 64 → parse_timestamp (timestamp_line ts) ≡ ok ts
parse_timestamp-timestamp_line ts h =
    let (d, ds, e) = format_uint_cons 10 ts in
    let line : IsLine (format_uint 10 ts) =
      IsPlain-IsLine (format_uint 10 ts) (format_uint-IsPlain 10 ts) in
    let read : parse_uint 10 64 (d ∷ ds) ≡ some ts =
      ap (parse_uint 10 64) (sym e)
      ∙ parse_uint-format_uint 10 64 ts (omega arith) (omega arith) h h in
    ap (λ t. parse_timestamp (t ++ newline ∷ [])) e
    ∙ (parse_timestamp-line d ds (subst IsLine e line)
        ∙ ap (λ o. expect o "failed to parse timestamp") read)

module _ (f : Formats) where
  pub parse_checkpoint-envelope :
      (raw : Bytes) (cp : LogCheckpoint) → parse_checkpoint f raw ≡ ok cp → cp.envelope ≡ raw
  unfolding parse_checkpoint
  parse_checkpoint-envelope raw cp h =
      let (p, _, h1) = bind-ok (f.parse_log raw) _ cp h in
      let (ts, _, h2) = bind-ok (parse_timestamp p.1) _ cp h1 in
      sym (ap (λ (l : LogCheckpoint). l.envelope) (ok-injective _ cp h2))

  -- A checkpoint that was fetched is read back from its envelope.
  pub get_checkpoint-parse_checkpoint :
      (get : HttpGet) (cp : LogCheckpoint)
      → get_checkpoint f get ≡ ok cp
      → parse_checkpoint f cp.envelope ≡ ok cp
  unfolding get_checkpoint
  get_checkpoint-parse_checkpoint get cp h =
      let (body, _, h1) = bind-ok (fetch get (ascii "ft/v0/get-root") _) _ cp h in
      let (b, _, h2) = bind-ok body (parse_checkpoint f) cp h1 in
      ap (parse_checkpoint f) (parse_checkpoint-envelope b cp h2) ∙ h2
