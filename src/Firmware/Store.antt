-- ===== src/Firmware/Store.antt =====
-- The file that the firmware witness keeps its checkpoint in
-- (binary_transparency/firmware/cmd/ft_witness/internal/ws/store.go). The calls of `os` for that
-- file are a parameter; its mutex makes each operation one step.
use trillian_serverless.Base.{
  ◌≡◌, ◌↔◌, ◌≤◌, refl, ap, ◌∙◌, String, [], ◌∷◌, ◌++◌, Bytes, Option, none, some, Result, ok, err,
  expect, ok-injective, length, drop, arith, append-nil,
}
use trillian_serverless.Base.Exec.{Exec, recast, ◌>>◌}

-- `WitnessStore` (cmd/ft_witness/internal/http/witness.go)
pub record WitnessStore : Type 1 where
  pub State : Type 0
  pub store_cp : Bytes → Exec State String (Unit {0})
  pub retrieve_cp : State → Result String Bytes

-- `OpenFile` of the path with the flags `O_RDWR | O_CREATE` and `O_RDWR`, a write at the start of
-- the file that was opened, its `Close`, and `ReadFile`.
pub record FileCalls : Type 1 where
  pub State : Type 0
  pub open_create : Exec State String (Unit {0})
  pub open_rdwr : Exec State String (Unit {0})
  pub write : Bytes → Exec State String (Unit {0})
  pub close : Exec State String (Unit {0})
  pub read_file : State → Result String Bytes

module _ (F : FileCalls) where
  unfoldable pub new_storage : Exec F.State String (Unit {0})
  new_storage s =
      (do
        recast F.open_create (λ _. "failed to open file")
        recast F.close (λ _. "failed to close file"))
        s

  -- A file that cannot be written to is closed all the same.
  unfoldable pub write_and_close : Bytes → Exec F.State String (Unit {0})
  write_and_close wcp s =
      let (r, t) = F.write wcp s in
      elim r [
        | err _ ↦ (err "failed to write data to witness db file", (F.close t).1)
        | ok _ ↦ recast F.close (λ _. "failed to close file") t
      ]

  unfoldable pub store_cp : Bytes → Exec F.State String (Unit {0})
  unfolding write_and_close
  store_cp wcp s = (do recast F.open_rdwr (λ _. "failed to open file"); write_and_close wcp) s

  unfoldable pub retrieve_cp : F.State → Result String Bytes
  retrieve_cp s = F.read_file s

  abbrev pub file_store : WitnessStore
  file_store = record { State = F.State; store_cp = store_cp; retrieve_cp = retrieve_cp }

-- A write at the start of a file without `O_TRUNC`: what is beyond it stays.
abbrev pub overwrite : Bytes → Bytes → Bytes
overwrite new old = new ++ drop (length new) old

-- One file, which may not exist.
abbrev pub one_file : FileCalls
one_file = record {
  State = Option Bytes;
  open_create = λ s. elim s [ none ↦ (ok tt, some []) | some b ↦ (ok tt, some b) ];
  open_rdwr = λ s. elim s [ none ↦ (err "no such file", none) | some b ↦ (ok tt, some b) ];
  write = λ wcp s. elim s [
    | none ↦ (err "no such file", none)
    | some b ↦ (ok tt, some (overwrite wcp b))
  ];
  close = λ s. (ok tt, s);
  read_file = λ s. expect s "no such file";
}

drop-append : (a b : Bytes) → a ++ b ≡ a → b ≡ []
drop-append [] b h = h
drop-append (x ∷ a) b h = drop-append a b (cc h)

drop-nil : (old new : Bytes) → drop (length new) old ≡ [] → length old ≤ length new
drop-nil [] new h = omega arith
drop-nil (x ∷ old) [] h = absurd (cc h)
drop-nil (x ∷ old) (y ∷ new) h = omega (arith, drop-nil old new h)

drop-ge : (old new : Bytes) → length old ≤ length new → drop (length new) old ≡ []
drop-ge [] [] h = refl
drop-ge [] (y ∷ new) h = refl
drop-ge (x ∷ old) [] h = absurd (omega arith)
drop-ge (x ∷ old) (y ∷ new) h = drop-ge old new (omega arith)

pub overwrite_longer : (old new : Bytes) → length old ≤ length new → overwrite new old ≡ new
overwrite_longer old new le = ap (λ d. new ++ d) (drop-ge old new le) ∙ append-nil new

-- Over a file that holds a checkpoint, a call to store another does not fail, and it is read back
-- exactly if the one before it was not longer.
pub retrieve_cp-store_cp :
    (old wcp : Bytes)
    → let (r, s) = store_cp one_file wcp (some old) in
      (r ≡ ok tt) × ((retrieve_cp one_file s ≡ ok wcp) ↔ (length old ≤ length wcp))
unfolding store_cp retrieve_cp
retrieve_cp-store_cp old wcp = (
  refl,
  (
    λ h. drop-nil old wcp (drop-append wcp (drop (length wcp) old) (ok-injective _ wcp h)),
    λ le. ap ok (overwrite_longer old wcp le),
  ),
)
