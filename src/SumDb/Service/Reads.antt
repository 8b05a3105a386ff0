-- ===== src/SumDb/Service/Reads.antt =====
-- The checks of the auditor only read: they leave the database as it is.
use trillian_serverless.Base.{
  ℕ, zero, suc, ◌-◌, ◌/◌, ◌^◌, ◌≡◌, refl, sym, ap, ◌∙◌, Bool, true, false, List, Bytes, Option,
  none, some, Result, ok, if◌then◌else◌, ◌==◌,
}
use trillian_serverless.Base.Exec.{Exec, pure, raise, guard, recast, ◌>>=◌}
use trillian_serverless.SumDb.Client.{AuditError, panic, Checkpoint, Client}
use trillian_serverless.SumDb.Database.{Sql, head, golden_checkpoint, get_tile}
use trillian_serverless.SumDb.Service.{
  Ranges, wrapped, or_none, first_of, append_all, append_tile, append_tiles, append_levels,
  append_stragglers, check_root, check_checkpoint, local_stragglers, remote_stragglers,
  check_root_hash, check_golden, check_stored_golden, check_older, check_consistency,
}
use trillian_serverless.SumDb.Service.Frame.{
  Within, bind-Within, recast-Within, or_none-Within, guard-Within,
}

module _ {S : Type 0} where
  abbrev Same : S → S → Type 0
  Same s t = t ≡ s

  next : (s t u : S) → Same s t → Same t u → Same s u
  next s t u h k = k ∙ h

  unfoldable pub Reads : {A : Type 0} → Exec S AuditError A → Type 0
  Reads = Within Same

  module _ {A : Type 0} where
    Reads-query : (m : S → Result AuditError A) → Reads (λ s. (m s, s))
    unfolding Reads
    Reads-query m s = refl

    Reads-recast :
        (m : Exec S AuditError A) (f : AuditError → AuditError) → Reads m → Reads (recast m f)
    unfolding Reads
    Reads-recast m f = recast-Within Same (λ s. refl) next m f

    Reads-or_none : (m : Exec S AuditError A) → Reads m → Reads (or_none m)
    unfolding Reads
    Reads-or_none m = or_none-Within Same (λ s. refl) next m

    Reads-if :
        (b : Bool) (m n : Exec S AuditError A) → Reads m → Reads n → Reads (if b then m else n)
    Reads-if true m n h k = h
    Reads-if false m n h k = k

  Reads-next :
      {A B : Type 0} (m : Exec S AuditError A) (f : A → Exec S AuditError B)
      → Reads m
      → ((a : A) → Reads (f a))
      → Reads (m >>= f)
  unfolding Reads
  Reads-next m f = bind-Within Same (λ s. refl) next m f

Reads-guard : (S : Type 0) (b : Bool) (e : AuditError) → Reads (guard {S = S} b e)
unfolding Reads
Reads-guard S b e = guard-Within Same (λ s. refl) next b e

-- A call that only reads gives the state back.
pub Reads-same :
    {S A : Type 0} (m : Exec S AuditError A)
    → Reads m
    → (s t : S) (x : Result AuditError A) → m s ≡ (x, t)
    → t ≡ s
unfolding Reads
Reads-same m h s t x e = sym (ap (λ p. p.1) e) ∙ h s

ruleset reads = (Reads-next, Reads-query, Reads-guard, Reads-recast, Reads-or_none, Reads-if)

pub head-Reads : (q : Sql) → Reads (head q)
unfolding head
head-Reads q = search (reads)

pub golden_checkpoint-Reads :
    (q : Sql) (parse : Bytes → Result AuditError Checkpoint) → Reads (golden_checkpoint q parse)
unfolding golden_checkpoint
golden_checkpoint-Reads q parse = search (reads)

module _ {Range : Type 0} (q : Sql) (r : Ranges Range) (c : Client) (height : ℕ) where
  get_tile-Reads : (level offset : ℕ) → Reads (get_tile q height level offset)
  unfolding get_tile
  get_tile-Reads level offset = search (reads)

  append_tile-Reads :
      (level offset : ℕ) (log_range : Range)
      → Reads (append_tile q r c height level offset log_range)
  unfolding append_tile
  append_tile-Reads level offset log_range = search (reads, get_tile-Reads)

  append_tiles-Reads :
      (n level offset : ℕ) (log_range : Range)
      → Reads (append_tiles q r c height n level offset log_range)
  unfolding append_tiles
  append_tiles-Reads zero level offset log_range = search (reads)
  append_tiles-Reads (suc n) level offset log_range =
      search (reads, append_tile-Reads, append_tiles-Reads n)

  pub append_levels-Reads :
      (size levels : ℕ) (log_range : Range)
      → Reads (append_levels q r c height size levels log_range)
  unfolding append_levels
  append_levels-Reads size zero log_range = search (reads)
  append_levels-Reads size (suc level) log_range =
      search (reads, append_tiles-Reads, append_levels-Reads size level)

  abbrev appended : Option (List Bytes × List Bytes) → Range → Exec q.State AuditError Range
  appended o log_range = elim o [
    | none ↦ raise panic
    | some (needed, _) ↦ pure (append_all q r c height needed log_range)
  ]

  appended-Reads :
      (o : Option (List Bytes × List Bytes)) (log_range : Range) → Reads (appended o log_range)
  appended-Reads none log_range = search (reads)
  appended-Reads (some (needed, _)) log_range = search (reads)

  pub append_stragglers-Reads :
      (size : ℕ) (get : ℕ → Exec q.State AuditError (List Bytes)) (log_range : Range)
      → ((n : ℕ) → Reads (get n))
      → Reads (append_stragglers q r c height size get log_range)
  unfolding append_stragglers
  append_stragglers-Reads size get log_range h =
      let n = size - r.end log_range in
      let fetch = recast (get n) (wrapped "failed to get stragglers") in
      let fetch_reads = Reads-recast (get n) (wrapped "failed to get stragglers") (h n) in
      let use_them : List Bytes → Exec q.State AuditError Range =
        λ l. appended (first_of n l) log_range in
      Reads-if (n == 0) (pure log_range) (fetch >>= use_them) (Reads-query (λ _. ok log_range))
        (Reads-next fetch use_them fetch_reads (λ l. appended-Reads (first_of n l) log_range))

  check_root-Reads :
      (cp : Checkpoint) (log_range : Range) → Reads (check_root q r c height cp log_range)
  unfolding check_root
  check_root-Reads cp log_range = search (reads)

  pub check_checkpoint-Reads :
      (cp : Checkpoint) (get : ℕ → Exec q.State AuditError (List Bytes))
      → ((n : ℕ) → Reads (get n))
      → Reads (check_checkpoint q r c height cp get)
  unfolding check_checkpoint
  check_checkpoint-Reads cp get h =
      search (reads, append_levels-Reads, append_stragglers-Reads, check_root-Reads)

  pub local_stragglers-Reads : (size count : ℕ) → Reads (local_stragglers q r c height size count)
  unfolding local_stragglers
  local_stragglers-Reads size count = get_tile-Reads 0 (size / 2 ^ height)

  pub remote_stragglers-Reads : (size count : ℕ) → Reads (remote_stragglers q r c height size count)
  unfolding remote_stragglers
  remote_stragglers-Reads size count = search (reads)

  pub check_root_hash-Reads : (cp : Checkpoint) → Reads (check_root_hash q r c height cp)
  unfolding check_root_hash remote_stragglers
  check_root_hash-Reads cp = search (reads, check_checkpoint-Reads)

  pub check_golden-Reads : (golden : Option Checkpoint) → Reads (check_golden q r c height golden)
  unfolding check_golden head
  check_golden-Reads none = search (reads)
  check_golden-Reads (some golden) = search (reads, check_checkpoint-Reads, local_stragglers-Reads)

  pub check_stored_golden-Reads : Reads (check_stored_golden q r c height)
  unfolding check_stored_golden golden_checkpoint
  check_stored_golden-Reads = search (reads, check_golden-Reads)

  check_older-Reads : (golden cp : Checkpoint) → Reads (check_older q r c height golden cp)
  unfolding check_older head
  check_older-Reads golden cp = search (reads, check_checkpoint-Reads, local_stragglers-Reads)

  pub check_consistency-Reads : (cp : Checkpoint) → Reads (check_consistency q r c height cp)
  unfolding check_consistency golden_checkpoint
  check_consistency-Reads cp = search (reads, check_older-Reads)
