-- ===== src/SumDb/Service/Frame.antt =====
-- What a call may change: a relation between the state before and the state after that holds for
-- every step of a call holds for the call.
use trillian_serverless.Base.{Bool, true, false, Result, ok, err}
use trillian_serverless.Base.Exec.{Exec, guard, recast, ◌>>=◌}
use trillian_serverless.SumDb.Client.{AuditError, no_data}
use trillian_serverless.SumDb.Service.{or_none}

-- The call relates the states.
abbrev pub Within : {S A : Type 0} → (S → S → Type 0) → Exec S AuditError A → Type 0
Within {S} R m = (s : S) → R s ((m s).1)

module _ {S : Type 0} (R : S → S → Type 0) (same : (s : S) → R s s)
    (next : (s t u : S) → R s t → R t u → R s u) where
  bind_after :
      {A B : Type 0} (f : A → Exec S AuditError B) (s : S) (p : Result AuditError A × S)
      → R s (p.1)
      → ((a : A) → Within R (f a))
      → R s ((◌>>=◌ (λ _. p) f s).1)
  bind_after f s (ok a, t) h k = next s t ((f a t).1) h (k a t)
  bind_after f s (err e, t) h k = h

  pub bind-Within :
      {A B : Type 0} (m : Exec S AuditError A) (f : A → Exec S AuditError B)
      → Within R m
      → ((a : A) → Within R (f a))
      → Within R (m >>= f)
  bind-Within m f h k s = bind_after f s (m s) (h s) k

  pub recast-Within :
      {A : Type 0} (m : Exec S AuditError A) (f : AuditError → AuditError)
      → Within R m
      → Within R (recast m f)
  recast-Within m f h s = h s

  or_none_after :
      {A : Type 0} (s : S) (p : Result AuditError A × S) → R s (p.1) → R s ((or_none (λ _. p) s).1)
  or_none_after s (ok a, t) h = h
  or_none_after s (err no_data, t) h = h
  or_none_after s (err e, t) h = h

  pub or_none-Within : {A : Type 0} (m : Exec S AuditError A) → Within R m → Within R (or_none m)
  or_none-Within m h s = or_none_after s (m s) (h s)

  pub guard-Within : (b : Bool) (e : AuditError) → Within R (guard b e)
  guard-Within true e s = same s
  guard-Within false e s = same s
