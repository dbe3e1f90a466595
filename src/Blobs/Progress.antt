-- ===== src/Blobs/Progress.antt =====
-- Methods of the blob service and the table of jobs: app/app/blobs/services/blob.py and the
-- repositories blob.py and blob_job.py.
use shelf_back.Base.{
  ℕ, ◌≡◌, refl, ap, ◌∙◌, Bool, true, false, not, ◌||◌, inl, inr, List, [], ◌∷◌, ◌==◌, if◌then◌else◌,
  keep_if, any, contains, Bool-cases, arith, ==_iff,
}
use shelf_back.Base.Text.{Text}
use shelf_back.Base.Exec.{Exec, Result, ok, err, pure, lift, atomic, rollback, continue, ◌>>=◌}
use shelf_back.Files.Model.{Blob, BlobJob, Db}
use shelf_back.Blobs.Repository

-- A job of the list has the identifier.
abbrev pub has_job : ℕ → List BlobJob → Bool
has_job k jobs = any (λ j. j.id == k) jobs

-- A method that adds no job.
pub record Shrinks {A : Type 0} (m : Exec Db A) : Type 0 where
  pub at : (db : Db) (k : ℕ) → has_job k db.jobs ≡ false → has_job k (m db).1.jobs ≡ false

-- When the test holds and the method succeeds, the job is gone.
pub record Clears {A : Type 0} (k : ℕ) (b : Bool) (m : Exec Db A) : Type 0 where
  pub at : (db : Db) (a : A) → b ≡ true → (m db).0 ≡ ok a → has_job k (m db).1.jobs ≡ false

module _ {A B : Type 0} where
  Shrinks-continue :
      (f : A → Exec Db B) (k : ℕ) (x : Result A × Db)
      → ((a : A) → Shrinks (f a))
      → has_job k x.1.jobs ≡ false
      → has_job k (continue x.0 f x.1).1.jobs ≡ false
  Shrinks-continue f k (ok a, db) h g = (h a).at db k g
  Shrinks-continue f k (err e, db) h g = g

  pub Shrinks-bind :
      (m : Exec Db A) (f : A → Exec Db B)
      → Shrinks m
      → ((a : A) → Shrinks (f a))
      → Shrinks (m >>= f)
  Shrinks-bind m f h g = record { at = λ db k e. Shrinks-continue f k (m db) g (h.at db k e) }

  Clears-continue :
      (k : ℕ) (b : Bool) (f : A → Exec Db B) (x : Result A × Db) (c : B)
      → ((a : A) → Clears k b (f a))
      → b ≡ true
      → (continue x.0 f x.1).0 ≡ ok c
      → has_job k (continue x.0 f x.1).1.jobs ≡ false
  Clears-continue k b f (ok a, db) c h t e = (h a).at db c t e
  Clears-continue k b f (err e', db) c h t e = cc

  -- What follows clears the job.
  pub Clears-later :
      (k : ℕ) (b : Bool) (m : Exec Db A) (f : A → Exec Db B)
      → ((a : A) → Clears k b (f a))
      → Clears k b (m >>= f)
  Clears-later k b m f h = record { at = λ db c t e. Clears-continue k b f (m db) c h t e }

  cleared_continue :
      (k : ℕ) (f : A → Exec Db B) (x : Result A × Db) (c : B)
      → ((a : A) → Shrinks (f a))
      → ((a : A) → x.0 ≡ ok a → has_job k x.1.jobs ≡ false)
      → (continue x.0 f x.1).0 ≡ ok c
      → has_job k (continue x.0 f x.1).1.jobs ≡ false
  cleared_continue k f (ok a, db) c h g e = (h a).at db k (g a refl)
  cleared_continue k f (err e', db) c h g e = cc

  -- What comes first clears the job, and what follows adds none.
  pub Clears-first :
      (k : ℕ) (b : Bool) (m : Exec Db A) (f : A → Exec Db B)
      → Clears k b m
      → ((a : A) → Shrinks (f a))
      → Clears k b (m >>= f)
  Clears-first k b m f h g = record {
    at = λ db c t e. cleared_continue k f (m db) c g (λ a r. h.at db a t r) e;
  }

module _ {A : Type 0} where
  pub Shrinks-pure : (a : A) → Shrinks (pure a)
  Shrinks-pure a = record { at = λ db k h. h }

  pub Shrinks-lift : (r : Result A) → Shrinks (lift r)
  Shrinks-lift r = record { at = λ db k h. h }

  Shrinks-rollback :
      (k : ℕ) (x : Result A × Db) (db : Db)
      → has_job k db.jobs ≡ false
      → has_job k x.1.jobs ≡ false
      → has_job k (rollback x db).1.jobs ≡ false
  Shrinks-rollback k (ok a, s) db h g = g
  Shrinks-rollback k (err e, s) db h g = h

  pub Shrinks-atomic : (m : Exec Db A) → Shrinks m → Shrinks (atomic m)
  Shrinks-atomic m h = record { at = λ db k e. Shrinks-rollback k (m db) db e (h.at db k e) }

  Clears-rollback :
      (k : ℕ) (x : Result A × Db) (db : Db) (a : A)
      → ((a : A) → x.0 ≡ ok a → has_job k x.1.jobs ≡ false)
      → (rollback x db).0 ≡ ok a
      → has_job k (rollback x db).1.jobs ≡ false
  Clears-rollback k (ok a', s) db a h e = h a' refl
  Clears-rollback k (err e', s) db a h e = cc

  pub Clears-atomic : (k : ℕ) (b : Bool) (m : Exec Db A) → Clears k b m → Clears k b (atomic m)
  Clears-atomic k b m h = record {
    at = λ db a t e. Clears-rollback k (m db) db a (λ a' r. h.at db a' t r) e;
  }

  pub Shrinks-if :
      (b : Bool) (m n : Exec Db A) → Shrinks m → Shrinks n → Shrinks (if b then m else n)
  Shrinks-if true m n h g = h
  Shrinks-if false m n h g = g

  pub Clears-never : (k : ℕ) (m : Exec Db A) → Clears k false m
  Clears-never k m = record { at = λ db a t e. cc }

  pub Clears-when :
      (k : ℕ) (b c : Bool) (m : Exec Db A) → (b ≡ true → c ≡ true) → Clears k c m → Clears k b m
  Clears-when k b c m i h = record { at = λ db a t e. h.at db a (i t) e }

  pub Clears-or :
      (k : ℕ) (b c : Bool) (m : Exec Db A) → Clears k b m → Clears k c m → Clears k (b || c) m
  Clears-or k true c m h g = h
  Clears-or k false c m h g = g

keep_if_shrinks :
    (p : BlobJob → Bool) (k : ℕ) (jobs : List BlobJob)
    → has_job k jobs ≡ false
    → has_job k (keep_if p jobs) ≡ false
unfolding any keep_if
keep_if_shrinks p k [] h = refl
keep_if_shrinks p k (j ∷ jobs) h = ground (arith, keep_if_shrinks p k jobs)

keep_if_clears :
    (ids : List ℕ) (k : ℕ) (jobs : List BlobJob)
    → contains ids k ≡ true
    → has_job k (keep_if (λ j. not (contains ids j.id)) jobs) ≡ false
unfolding any keep_if
keep_if_clears ids k [] h = refl
keep_if_clears ids k (j ∷ jobs) h = elim (Bool-cases (j.id == k)) [
  | inl e ↦
      let same = ap (contains ids) ((==_iff j.id k).0 e) ∙ h in
      rw same (keep_if_clears ids k jobs h)
  | inr e ↦ elim (Bool-cases (contains ids j.id)) [
    | inl f ↦ rw f (keep_if_clears ids k jobs h)
    | inr f ↦ rw (f, e) (keep_if_clears ids k jobs h)
  ]
]

pub delete_jobs-Shrinks : (ids : List ℕ) → Shrinks (Repository.delete_jobs ids)
unfolding Repository.delete_jobs
delete_jobs-Shrinks ids = record { at = λ db k h. keep_if_shrinks _ k db.jobs h }

pub delete_jobs-Clears :
    (ids : List ℕ) (k : ℕ) → Clears k (contains ids k) (Repository.delete_jobs ids)
unfolding Repository.delete_jobs
delete_jobs-Clears ids k = record { at = λ db a t e. keep_if_clears ids k db.jobs t }

-- A choice between two outcomes
if_shrinks :
    (b : Bool) (x y : Result (Unit {0}) × Db) (k : ℕ)
    → has_job k x.1.jobs ≡ false
    → has_job k y.1.jobs ≡ false
    → let z : Result (Unit {0}) × Db = if b then x else y in has_job k z.1.jobs ≡ false
if_shrinks true x y k h g = h
if_shrinks false x y k h g = g

delete_where-Shrinks : (test : Blob → Bool) → Shrinks (Repository.delete_where test)
unfolding Repository.delete_where
delete_where-Shrinks test = record { at = λ db k h. if_shrinks _ _ _ k h h }

pub delete_all_with_prefix-Shrinks :
    (prefix : Text) → Shrinks (Repository.delete_all_with_prefix prefix)
unfolding Repository.delete_all_with_prefix
delete_all_with_prefix-Shrinks prefix = delete_where-Shrinks _

pub delete_batch-Shrinks : (ids : List ℕ) → Shrinks (Repository.delete_batch ids)
unfolding Repository.delete_batch
delete_batch-Shrinks ids = delete_where-Shrinks _

pub replace_storage_key_prefix-Shrinks :
    (at_prefix to_prefix : Text)
    → Shrinks (Repository.replace_storage_key_prefix at_prefix to_prefix)
unfolding Repository.replace_storage_key_prefix
replace_storage_key_prefix-Shrinks at_prefix to_prefix = record {
  at = λ db k h. if_shrinks _ _ _ k h h;
}

pub update_storage_key-Shrinks :
    (id : ℕ) (key : Text) → Shrinks (Repository.update_storage_key id key)
unfolding Repository.update_storage_key
update_storage_key-Shrinks id key = record { at = λ db k h. if_shrinks _ _ _ k h h }

pub ruleset shrink_rules = (
  Shrinks-pure, Shrinks-lift, Shrinks-atomic, Shrinks-if, Shrinks-bind, delete_jobs-Shrinks,
  delete_all_with_prefix-Shrinks, delete_batch-Shrinks, replace_storage_key_prefix-Shrinks,
  update_storage_key-Shrinks,
)
